-- ===== src/SpanDataImpl.antt =====
-- include/firebase/telemetry/persistence/detail/span_data_impl.h and src/span_data_impl.cpp: the
-- variant that hides the template argument. The methods keep their names in this module, so a
-- client writes `SpanDataImpl.add`.
use firebase_telemetry_persi.Common.{ℕ, ◌≡◌, refl, Result, ok, fault, ◌>>=◌}
use firebase_telemetry_persi.CopyString.{Bytes}
use firebase_telemetry_persi.Layout.{MmapSize, small, medium, large, MemoryLayout, layout_of}
use firebase_telemetry_persi.Span.{Span}
use firebase_telemetry_persi.RawSpanData
use firebase_telemetry_persi.RawSpanData.{RawSpanData, make_raw_span_data}

-- `DataVariant`, the only member of the class.
pub data DataVariant : Type 0 where
  small_data : RawSpanData → DataVariant
  medium_data : RawSpanData → DataVariant
  large_data : RawSpanData → DataVariant

abbrev pub of_size : MmapSize → RawSpanData → DataVariant
of_size small d = small_data d
of_size medium d = medium_data d
of_size large d = large_data d

-- `std::visit`, for a method that reads.
abbrev pub visit {ℓ} : {R : Type ℓ} → (MmapSize → RawSpanData → R) → DataVariant → R
visit f (small_data d) = f small d
visit f (medium_data d) = f medium d
visit f (large_data d) = f large d

abbrev pub keep_size : {A : Type 0} → MmapSize → Result (A × RawSpanData) → Result (A × DataVariant)
keep_size size (ok (a, d)) = ok (a, of_size size d)
keep_size size (fault e) = fault e

-- `std::visit`, for a method that also changes the alternative's state.
abbrev pub visit_update :
    {A : Type 0}
    → (MmapSize → RawSpanData → Result (A × RawSpanData))
    → DataVariant
    → Result (A × DataVariant)
visit_update f (small_data d) = keep_size small (f small d)
visit_update f (medium_data d) = keep_size medium (f medium d)
visit_update f (large_data d) = keep_size large (f large d)

unfoldable pub make_data : MemoryLayout → DataVariant
make_data layout = of_size (layout_of layout.header.mmap_size) (make_raw_span_data layout)

unfoldable pub count : DataVariant → ℕ
count = visit (λ size d. RawSpanData.count d)

unfoldable pub max_count : DataVariant → ℕ
max_count = visit (λ size d. RawSpanData.max_count size)

unfoldable pub size_of : DataVariant → Result ℕ
size_of = visit (λ size d. RawSpanData.size_of size d)

unfoldable pub add : DataVariant → Span → Result (ℕ × DataVariant)
add impl span = visit_update (λ size d. RawSpanData.add size d span) impl

unfoldable pub set_attribute_on_span : DataVariant → ℕ → Bytes → Bytes → Result (ℕ × DataVariant)
set_attribute_on_span impl raw_index key value =
    visit_update (λ size d. RawSpanData.set_attribute_on_span size d raw_index key value) impl

unfoldable pub set_end_time : DataVariant → ℕ → ℕ → Result (Unit {0} × DataVariant)
set_end_time impl raw_index end_time =
    visit_update (λ size d. do d' ← RawSpanData.set_end_time d raw_index end_time; ok (tt, d')) impl

unfoldable pub get_span_id : DataVariant → ℕ → Result ℕ
get_span_id impl raw_index =
    visit (λ size d. do r ← RawSpanData.get_raw_span d raw_index; ok r.span_id) impl

unfoldable pub get_mark : DataVariant → ℕ → Result ℕ
get_mark impl raw_index = visit (λ size d. RawSpanData.get_mark d raw_index) impl

unfoldable pub get : DataVariant → ℕ → Result Span
get impl raw_index = visit (λ size d. RawSpanData.get d raw_index) impl

unfoldable pub remove : DataVariant → ℕ → Result (ℕ × DataVariant)
remove impl raw_index = visit_update (λ size d. RawSpanData.remove size d raw_index) impl

unfoldable pub remove_all : DataVariant → DataVariant
remove_all impl = visit (λ size d. of_size size (RawSpanData.remove_all size d)) impl

pub visit-of_size {ℓ} :
    {R : Type ℓ} (f : MmapSize → RawSpanData → R) (size : MmapSize) (d : RawSpanData)
    → visit f (of_size size d) ≡ f size d
visit-of_size f small d = refl
visit-of_size f medium d = refl
visit-of_size f large d = refl

pub visit_update-of_size :
    {A : Type 0} (f : MmapSize → RawSpanData → Result (A × RawSpanData)) (size : MmapSize)
    (d : RawSpanData)
    → visit_update f (of_size size d) ≡ keep_size size (f size d)
visit_update-of_size f small d = refl
visit_update-of_size f medium d = refl
visit_update-of_size f large d = refl
