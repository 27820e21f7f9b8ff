-- ===== src/MutableSpanData.antt =====
-- include/firebase/telemetry/persistence/mutable_span_data.h and src/mutable_span_data.cpp: spans by
-- their id. `impl` is the object that the member `impl_` refers to.
pub mod Invariant
pub mod Remove
pub mod Removal
pub mod Oldest
pub mod Add
pub mod Insert
pub mod Updates
pub mod History
pub mod Promise
use firebase_telemetry_persi.Common.{
  ℕ, zero, suc, ◌+◌, ◌-◌, ◌^◌, Option, none, some, Result, ok, ◌>>=◌, ltb, ◌==◌, if◌then◌else◌,
}
use firebase_telemetry_persi.CopyString.{Bytes}
use firebase_telemetry_persi.Span.{Span}
use firebase_telemetry_persi.SpanDataImpl
use firebase_telemetry_persi.SpanDataImpl.{DataVariant}

-- `std::unordered_map` from span ids to indices, as the function that `find` computes.
abbrev pub Map : Type 0
Map = ℕ → Option ℕ

abbrev pub empty_map : Map
empty_map id = none

-- `insert` leaves an entry that is there; `m[id] = i` replaces it.
abbrev pub insert : Map → ℕ → ℕ → Map
insert m id i j = if id == j then elim (m j) [ none ↦ some i | some k ↦ some k ] else m j

abbrev pub assign : Map → ℕ → ℕ → Map
assign m id i j = if id == j then some i else m j

abbrev pub erase : Map → ℕ → Map
erase m id j = if id == j then none else m j

pub record MutableSpanData : Type 0 where
  pub impl : DataVariant
  pub span_id_to_index : Map

abbrev pub make_mutable_span_data : DataVariant → MutableSpanData
make_mutable_span_data impl = record { impl = impl; span_id_to_index = empty_map }

unfoldable pub count : MutableSpanData → ℕ
unfolding SpanDataImpl.count
count m = SpanDataImpl.count m.impl

-- What `remove` does to the map, once slot i is given up and the span `moved_span_id` is in it.
abbrev pub remap : Map → ℕ → ℕ → ℕ → Map
remap index span_id raw_index moved_span_id =
    erase (if ltb 0 moved_span_id then assign index moved_span_id raw_index else index) span_id

unfoldable pub remove : MutableSpanData → ℕ → Result MutableSpanData
remove m span_id = elim (m.span_id_to_index span_id) [
  | none ↦ ok m
  | some raw_index ↦ do
    (moved_span_id, impl) ← SpanDataImpl.remove m.impl raw_index
    ok (record {
      impl = impl;
      span_id_to_index = remap m.span_id_to_index span_id raw_index moved_span_id;
    })
]

-- One round of the search for the oldest span: the least mark so far, and the id that has it.
unfoldable pub consider : DataVariant → ℕ → ℕ × ℕ → Result (ℕ × ℕ)
consider impl i (oldest_mark, oldest_span_id) = do
  mark ← SpanDataImpl.get_mark impl i
  if ltb mark oldest_mark
      then (do span_id ← SpanDataImpl.get_span_id impl i; ok (mark, span_id))
      else ok (oldest_mark, oldest_span_id)

-- The loop, with n rounds left.
unfoldable pub find_oldest : DataVariant → ℕ → ℕ → ℕ × ℕ → Result (ℕ × ℕ)
find_oldest impl zero i oldest = ok oldest
find_oldest impl (suc n) i oldest = do
  oldest' ← consider impl i oldest
  find_oldest impl n (i + 1) oldest'

-- The branch of `add` for a full file.
unfoldable pub remove_oldest : MutableSpanData → Result MutableSpanData
remove_oldest m = do
  (oldest_mark, oldest_span_id) ← find_oldest m.impl (SpanDataImpl.count m.impl) 0 (2 ^ 64 - 1, 0)
  if oldest_span_id == 0 then ok m else remove m oldest_span_id

unfoldable pub make_room : MutableSpanData → Result MutableSpanData
make_room m =
    if SpanDataImpl.count m.impl == SpanDataImpl.max_count m.impl then remove_oldest m else ok m

unfoldable pub add : MutableSpanData → Span → Result MutableSpanData
add m span = elim (m.span_id_to_index span.span_id) [
  | some i ↦ ok m
  | none ↦ do
    m' ← make_room m
    (raw_index, impl) ← SpanDataImpl.add m'.impl span
    ok (record {
      impl = impl;
      span_id_to_index = insert m'.span_id_to_index span.span_id raw_index;
    })
]

unfoldable pub set_attribute_on_span : MutableSpanData → ℕ → Bytes → Bytes → Result MutableSpanData
set_attribute_on_span m span_id key value = elim (m.span_id_to_index span_id) [
  | none ↦ ok m
  | some raw_index ↦ do
    (_, impl) ← SpanDataImpl.set_attribute_on_span m.impl raw_index key value
    ok (record m { impl = impl })
]

-- `now` is the system clock, in nanoseconds since the epoch.
unfoldable pub end : ℕ → MutableSpanData → ℕ → ℕ → Result MutableSpanData
end now m span_id end_time = elim (m.span_id_to_index span_id) [
  | none ↦ ok m
  | some raw_index ↦ do
    (_, impl) ← SpanDataImpl.set_end_time m.impl raw_index (if end_time == 0 then now else end_time)
    ok (record m { impl = impl })
]
