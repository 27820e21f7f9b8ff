-- ===== src/RawSpanData.antt =====
-- include/firebase/telemetry/persistence/detail/raw_span_data.h: the span slots of a mapped file.
-- `RawSpanData<Size>` is a record, and the template argument is the first argument of its methods.
-- A failed `assert` and an access outside an array are faults. What a method stores in the file is a
-- list of writes in program order, so that a crash between or inside two of them can be described.
pub mod Valid
pub mod Remove
pub mod Clear
pub mod Recoverable
pub mod Crash
pub mod Erasure
pub mod CrashRemove
pub mod Attributes
pub mod Dictionary
pub mod SameFile
pub mod Survivors
use firebase_telemetry_persi.Common.{
  get_or, set, ℕ, zero, suc, ◌+◌, ◌-◌, ◌%◌, ◌^◌, ◌≡◌, Bool, true, false, Option, none, some, List,
  [], ◌∷◌, Result, ok, fault, ◌>>=◌, ◌>>◌, assert, or_fault, out_of_bounds, ltb, ◌==◌,
  if◌then◌else◌, get_elem?, modify, replicate,
}
use firebase_telemetry_persi.Common.Interrupts.{run_all}
use firebase_telemetry_persi.CopyString.{copy_string2, Bytes, key_equals, copy_string}
use firebase_telemetry_persi.Layout.{
  zero_attribute, MmapSize, value_of, mmap_config, RawAttribute, RawSpan, MarkedSpan, Header,
  MemoryLayout, zero_marked_span,
}
use firebase_telemetry_persi.Span.{Span, of_raw_span, to_raw_span}

-- `layout` is the content of the mapping that the object owns.
pub record RawSpanData : Type 0 where
  pub layout : MemoryLayout
  pub mark_counter : ℕ

abbrev pub u64 : ℕ
u64 = 2 ^ 64

-- Stores into the file.
pub data Write : Type 0 where
  set_mark : ℕ → ℕ → Write
  set_span : ℕ → RawSpan → Write
  set_count : ℕ → Write
  clear_spans : MmapSize → Write

unfoldable pub write : Write → MemoryLayout → MemoryLayout
write (set_mark i m) l = record l {
  marked_spans = modify l.marked_spans i (λ s. record s { mark = m });
}
write (set_span i r) l = record l {
  marked_spans = modify l.marked_spans i (λ s. record s { span = r });
}
write (set_count n) l = record l { header = record (l.header) { active_span_count = n } }
write (clear_spans size) l = record l {
  marked_spans = replicate (mmap_config size).max_spans (zero_marked_span size);
}

abbrev pub slot? : MemoryLayout → ℕ → Option MarkedSpan
slot? l i = get_elem? l.marked_spans i

abbrev pub slot : RawSpanData → ℕ → Result MarkedSpan
slot d i = or_fault (slot? d.layout i) out_of_bounds

abbrev pub writes : RawSpanData → List Write → RawSpanData
writes d ws = record d { layout = run_all write ws d.layout }

unfoldable pub count : RawSpanData → ℕ
count d = d.layout.header.active_span_count

unfoldable pub max_count : MmapSize → ℕ
max_count size = (mmap_config size).max_spans

unfoldable pub size_of : MmapSize → RawSpanData → Result ℕ
size_of size d = do assert (d.layout.header.mmap_size == value_of size); ok (value_of size)

-- `mark_counter_ += 1`, and the stores of `add`.
abbrev pub next_mark : RawSpanData → ℕ
next_mark d = (d.mark_counter + 1) % u64

unfoldable pub add_writes : ℕ → RawSpan → ℕ → List Write
add_writes raw_index raw_span mark =
    set_mark raw_index 0
    ∷ set_span raw_index raw_span
    ∷ set_mark raw_index mark
    ∷ set_count ((raw_index + 1) % u64)
    ∷ []

unfoldable pub add : MmapSize → RawSpanData → Span → Result (ℕ × RawSpanData)
unfolding count max_count add_writes write
add size d span = do
  let raw_index = count d
  assert (ltb raw_index (max_count size))
  s ← slot d raw_index
  assert (s.mark == 0)
  let ws = add_writes raw_index (to_raw_span size span) (next_mark d)
  ok (raw_index, record (writes d ws) { mark_counter = next_mark d })

-- The first loop of `set_attribute_on_span`: n rounds are left, and the list is the array from index
-- i on.
unfoldable pub find_attribute : Bytes → ℕ → ℕ → List RawAttribute → Result (Option ℕ)
find_attribute key zero i attrs = ok none
find_attribute key (suc n) i [] = fault out_of_bounds
find_attribute key (suc n) i (a ∷ attrs) =
    let rest = find_attribute key n (i + 1) attrs in
    if key_equals key a.key then ok (some i) else rest

-- `copy_string (value, raw_span.attributes[i].value)`
unfoldable pub overwrite_value : RawSpan → ℕ → Bytes → RawSpan
overwrite_value raw_span i value = record raw_span {
  attributes = modify raw_span.attributes i (λ a. record a { value = copy_string value a.value });
}

-- An attribute is written behind the last one, where there is room: `put_attribute` tests for it, and
-- the array has `max_attributes` places, by its type.
unfoldable pub append_attribute : RawSpan → Bytes → Bytes → RawSpan
append_attribute raw_span key value =
    let i = raw_span.attr_count in
    let raw_attr = get_or raw_span.attributes i zero_attribute in
    let (key', value') = copy_string2 key raw_attr.key value raw_attr.value in
    record raw_span {
      attr_count = i + 1;
      attributes = set raw_span.attributes i (record { key = key'; value = value' });
    }

-- The attribute index that is returned, and the raw span afterwards.
unfoldable pub put_attribute : MmapSize → RawSpan → Bytes → Bytes → Option ℕ → ℕ × RawSpan
unfolding overwrite_value append_attribute
put_attribute size raw_span key value (some i) = (i, overwrite_value raw_span i value)
put_attribute size raw_span key value none =
    if ltb raw_span.attr_count (mmap_config size).max_attributes
    then (raw_span.attr_count, append_attribute raw_span key value)
    else ((mmap_config size).max_attributes, raw_span)

unfoldable pub set_attribute_on_span :
    MmapSize → RawSpanData → ℕ → Bytes → Bytes → Result (ℕ × RawSpanData)
unfolding find_attribute put_attribute write
set_attribute_on_span size d raw_index key value = do
  s ← slot d raw_index
  found ← find_attribute key s.span.attr_count 0 s.span.attributes
  let (i, raw_span) = put_attribute size s.span key value found
  ok (i, writes d (set_span raw_index raw_span ∷ []))

unfoldable pub set_end_time : RawSpanData → ℕ → ℕ → Result RawSpanData
unfolding count write
set_end_time d raw_index end_time = do
  assert (ltb raw_index (count d))
  s ← slot d raw_index
  assert (ltb 0 s.mark)
  ok (writes d (set_span raw_index (record (s.span) { end_time = end_time }) ∷ []))

unfoldable pub get_mark : RawSpanData → ℕ → Result ℕ
get_mark d raw_index = do s ← slot d raw_index; ok s.mark

unfoldable pub get_raw_span : RawSpanData → ℕ → Result RawSpan
get_raw_span d raw_index = do s ← slot d raw_index; assert (ltb 0 s.mark); ok s.span

unfoldable pub get : RawSpanData → ℕ → Result Span
unfolding of_raw_span
get d raw_index = do s ← slot d raw_index; assert (ltb 0 s.mark); of_raw_span s.span

-- The stores of `remove`, when the slot is the last active one and when it is not.
unfoldable pub remove_last_writes : ℕ → ℕ → List Write
remove_last_writes raw_index new_count = set_mark raw_index 0 ∷ set_count new_count ∷ []

unfoldable pub remove_writes : ℕ → ℕ → MarkedSpan → List Write
remove_writes raw_index last_index last =
    set_mark raw_index 0
    ∷ set_span raw_index last.span
    ∷ set_mark raw_index last.mark
    ∷ set_mark last_index 0
    ∷ set_count last_index
    ∷ []

unfoldable pub remove : MmapSize → RawSpanData → ℕ → Result (ℕ × RawSpanData)
unfolding count max_count remove_last_writes remove_writes write
remove size d raw_index = do
  assert (ltb raw_index (max_count size))
  s ← slot d raw_index
  assert (ltb 0 s.mark)
  assert (ltb raw_index (count d))
  let last_index = (count d + u64 - 1) % u64
  last ← slot d last_index
  assert (ltb 0 last.mark)
  if raw_index == last_index
      then ok (0, writes d (remove_last_writes raw_index last_index))
      else ok (last.span.span_id, writes d (remove_writes raw_index last_index last))

unfoldable pub remove_all_writes : MmapSize → List Write
remove_all_writes size = set_count 0 ∷ clear_spans size ∷ []

unfoldable pub remove_all : MmapSize → RawSpanData → RawSpanData
unfolding remove_all_writes write zero_marked_span
remove_all size d = writes d (remove_all_writes size)

-- The constructor, of an initialised mapping.
abbrev pub make_raw_span_data : MemoryLayout → RawSpanData
make_raw_span_data l = record { layout = l; mark_counter = 0 }
