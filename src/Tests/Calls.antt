-- ===== src/Tests/Calls.antt =====
-- The theorems on `MutableSpanData` at concrete states: a cleared file, with one span, and full.
use firebase_telemetry_persi.Tests.Data.{request, cleared, new_file, red, blue}
use firebase_telemetry_persi.Common.{
  one_if, ℕ, ne→==, zero, suc, ◌≤◌, ◌<◌, ◌≡◌, ◌+◌, refl, ok, arith, some, none,
}
use firebase_telemetry_persi.Layout.{small, MarkedSpan}
use firebase_telemetry_persi.RawSpanData.{RawSpanData, make_raw_span_data}
use firebase_telemetry_persi.RawSpanData.Clear.{remove_all-IsLayout}
use firebase_telemetry_persi.RawSpanData.Attributes.{put_raw}
use firebase_telemetry_persi.MutableSpanData.{
  MutableSpanData, Map, empty_map, add, remove, set_attribute_on_span, end,
}
use firebase_telemetry_persi.MutableSpanData.Invariant.{
  active_count, state, IsIndexed, view, view-absent, view-some,
}
use firebase_telemetry_persi.MutableSpanData.Removal.{remove-Removed}
use firebase_telemetry_persi.MutableSpanData.Remove.{Removed}
use firebase_telemetry_persi.MutableSpanData.Insert.{
  Added, all_but, add-room, add-full, absent_of_view,
}
use firebase_telemetry_persi.MutableSpanData.Updates.{
  Updated, set_attribute_on_span-present, end-present,
}
use firebase_telemetry_persi.MutableSpanData.History.{remove_all-IsIndexed}

cleared-IsIndexed : IsIndexed small cleared empty_map
cleared-IsIndexed = remove_all-IsIndexed small (make_raw_span_data new_file) refl

cleared_facts : (active_count cleared ≡ 0) × (cleared.mark_counter ≡ 0)
cleared_facts =
    let (_, none_active, _, _, counter) =
      remove_all-IsLayout small (make_raw_span_data new_file) refl in
    (none_active, counter)

add-room_example :
    (m : MutableSpanData) × (add (state small cleared empty_map) (request 7) ≡ ok m)
    × (r : Added small cleared (request 7) (view cleared empty_map) m) × (active_count r.store
        ≡ active_count cleared + 1)
add-room_example =
    add-room small cleared empty_map (request 7) cleared-IsIndexed refl
      (omega (arith, cleared_facts)) (omega arith) (omega (arith, cleared_facts))

-- A store of n spans, with the ids from 1 to n.
pub record Filled (n : ℕ) : Type 0 where
  pub store : RawSpanData
  pub map : Map
  pub valid : IsIndexed small store map
  pub count : active_count store ≡ n
  counter : store.mark_counter ≡ n
  first : 0 < n → (s : MarkedSpan) × (view store map 1 ≡ some s)
  absent : (id : ℕ) → n < id → map id ≡ none

-- The first span stays, whichever is added.
first_stays :
    (n : ℕ) (f : Filled n) {m : MutableSpanData}
    (r : Added small f.store (request (suc n)) (view f.store f.map) m)
    → (s : MarkedSpan) × (view r.store r.map 1 ≡ some s)
first_stays zero f r = (_, r.views 1)
first_stays (suc n) f r =
    let (s, e) = f.first (omega arith) in (s, rw (r.views 1, ne→== (suc (suc n)) 1 (omega arith)) e)

one_more :
    (n : ℕ) (f : Filled n) {m : MutableSpanData}
    (r : Added small f.store (request (suc n)) (view f.store f.map) m)
    → active_count r.store ≡ active_count f.store + 1
    → Filled (suc n)
one_more n f r more = record {
  store = r.store;
  map = r.map;
  valid = r.valid;
  count = omega (arith, f.count, more);
  counter = omega (arith, f.counter, r.counter);
  first = λ _. first_stays n f r;
  absent = λ id k. absent_of_view r.valid id (
      rw
        (
          r.views id,
          ne→== (suc n) id (omega arith),
          view-absent f.store f.map id (f.absent id (omega arith)),
        )
        refl);
}

pub filled : (n : ℕ) → n ≤ 128 → Filled n
filled zero h = record {
  store = cleared;
  map = empty_map;
  valid = cleared-IsIndexed;
  count = cleared_facts.0;
  counter = cleared_facts.1;
  first = λ k. absurd (omega arith);
  absent = λ id k. refl;
}
filled (suc n) h =
    let f = filled n (omega arith) in
    let (m, e, r, more) =
      add-room small f.store f.map (request (suc n)) f.valid (f.absent (suc n) (omega arith))
        (omega (arith, f.count)) (omega arith) (omega (arith, f.counter)) in
    one_more n f r more

abbrev full : Filled 128
full = filled 128 (omega arith)

add-full_example :
    (m : MutableSpanData) × (oldest : MarkedSpan) × (add
        (state small full.store full.map)
        (request 500)
      ≡ ok m)
    × (view full.store full.map oldest.span.span_id ≡ some oldest)
    × ((id : ℕ) (t : MarkedSpan) → view full.store full.map id ≡ some t → oldest.mark ≤ t.mark)
    × (r : Added small full.store
        (request 500)
        (all_but oldest.span.span_id (view full.store full.map))
        m)
    × (active_count r.store ≡ active_count full.store)
add-full_example =
    add-full small full.store full.map (request 500) full.valid (full.absent 500 (omega arith))
      full.count (omega arith) (omega (arith, full.counter))

abbrev pub two : Filled 2
two = filled 2 (omega arith)

abbrev first_span : (s : MarkedSpan) × (view two.store two.map 1 ≡ some s)
first_span = two.first (omega arith)

abbrev first_slot : (i : ℕ) × (two.map 1 ≡ some i)
first_slot = let (i, e, _, _, _) = view-some two.valid 1 first_span.0 first_span.1 in (i, e)

remove-Removed_example :
    (m : MutableSpanData) × (remove (state small two.store two.map) 1 ≡ ok m)
    × (r : Removed small two.store two.map 1 m) × (active_count r.store + one_if (two.map 1)
        ≡ active_count two.store)
    × (two.map 1 ≡ none → m ≡ state small two.store two.map)
remove-Removed_example = remove-Removed small two.store two.map 1 two.valid

set_attribute_on_span-present_example :
    (m : MutableSpanData) × (set_attribute_on_span (state small two.store two.map) 1 blue red
      ≡ ok m)
    × Updated small two.store two.map 1
        (record (first_span.0) { span = (put_raw small first_span.0.span blue red).1 })
        m
set_attribute_on_span-present_example =
    set_attribute_on_span-present small two.store two.map 1 first_span.0 blue red two.valid
      first_span.1

end-present_example :
    (m : MutableSpanData) × (end 900 (state small two.store two.map) 1 0 ≡ ok m)
    × Updated small two.store two.map 1
        (record (first_span.0) { span = record (first_span.0.span) { end_time = 900 } })
        m
end-present_example =
    end-present 900 small two.store two.map 1 first_span.0 0 two.valid first_span.1
