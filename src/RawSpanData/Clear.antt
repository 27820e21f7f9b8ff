-- ===== src/RawSpanData/Clear.antt =====
-- `remove_all`: every slot is zeroed.
use firebase_telemetry_persi.Common.{
  ℕ, zero, suc, ◌≡◌, refl, some, arith, length-replicate, replicate, get_elem?, subst,
}
use firebase_telemetry_persi.Layout.{MmapSize, value_of, mmap_config, zero_marked_span}
use firebase_telemetry_persi.Span.Valid.{zero_raw_span-IsRawSpan}
use firebase_telemetry_persi.RawSpanData.{RawSpanData, remove_all}
use firebase_telemetry_persi.RawSpanData.Valid.{IsSlot, IsLayout}

replicate-get {ℓ} : {A : Type ℓ} (n i : ℕ) (a b : A) → get_elem? (replicate n a) i ≡ some b → a ≡ b
replicate-get zero i a b h = absurd (cc)
replicate-get (suc n) zero a b h = cc
replicate-get (suc n) (suc i) a b h = replicate-get n i a b h

-- Whatever the slots held, `remove_all` leaves a layout that meets the invariant, with no active
-- slot. Of the header, which names the size of the layout, just the count changes, and every slot has
-- become the zero one; the object keeps its mark counter.
pub remove_all-IsLayout :
    (size : MmapSize) (d : RawSpanData)
    → d.layout.header.mmap_size ≡ value_of size
    → IsLayout size (remove_all size d).layout
      × ((remove_all size d).layout.header.active_span_count ≡ 0)
      × ((remove_all size d).layout.header ≡ record d.layout.header { active_span_count = 0 })
      × ((remove_all size d).layout.marked_spans
          ≡ replicate (mmap_config size).max_spans (zero_marked_span size))
      × ((remove_all size d).mark_counter ≡ d.mark_counter)
unfolding remove_all zero_marked_span
remove_all-IsLayout size d h = (
  record {
    sized = length-replicate (mmap_config size).max_spans (zero_marked_span size);
    counted = omega arith;
    headed = h;
    slots = λ i s e.
        let same : zero_marked_span size ≡ s =
          replicate-get (mmap_config size).max_spans i (zero_marked_span size) s e in
        subst (IsSlot size 0 i) same (record {
          marked = λ k. absurd (omega arith);
          unmarked = λ _. refl;
          raw = zero_raw_span-IsRawSpan size;
        });
  },
  refl,
  refl,
  refl,
  refl,
)
