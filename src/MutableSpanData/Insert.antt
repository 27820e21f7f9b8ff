-- ===== src/MutableSpanData/Insert.antt =====
-- `add` as a whole: on a present id, with room, and on a full file.
use firebase_telemetry_persi.RawSpanData.SameFile.{SameFile, SameFile-trans}
use firebase_telemetry_persi.Common.{
  true, false, Bool, ap, ap₂, Option-cases, inl, inr, ap, inr, inl, Option-cases, Bool, ℕ, ◌+◌, ◌-◌,
  ◌^◌, ◌≤◌, ◌<◌, ◌≡◌, refl, sym, ◌∙◌, subst, Option, none, some, ok, arith, ◌==◌, if◌then◌else◌,
  ◌>>=◌, Result, ne→==, eq→==,
}
use firebase_telemetry_persi.Layout.{MmapSize, MarkedSpan, mmap_config}
use firebase_telemetry_persi.Span.{Span, to_raw_span}
use firebase_telemetry_persi.RawSpanData
use firebase_telemetry_persi.RawSpanData.{RawSpanData}
use firebase_telemetry_persi.RawSpanData.Valid.{add_lem, max_spans-bounds}
use firebase_telemetry_persi.SpanDataImpl
use firebase_telemetry_persi.SpanDataImpl.{of_size, visit-of_size, visit_update-of_size, keep_size}
use firebase_telemetry_persi.MutableSpanData.{
  MutableSpanData, Map, insert, add, make_room, remove_oldest,
}
use firebase_telemetry_persi.MutableSpanData.Invariant.{
  view-at, view-absent, view-some, active_count, state, IsIndexed, view,
}
use firebase_telemetry_persi.MutableSpanData.Oldest.{find_oldest-least}
use firebase_telemetry_persi.MutableSpanData.Remove.{Removed, remove-present}
use firebase_telemetry_persi.MutableSpanData.Add.{
  with_new, inserted, view-with_new, with_new-IsIndexed, next_mark_lem,
}

-- A state in which the span has been added to a finite map `before`, with the next mark.
pub record Added (size : MmapSize) (d : RawSpanData) (span : Span) (before : ℕ → Option MarkedSpan)
    (m : MutableSpanData) : Type 0 where
  pub store : RawSpanData
  pub map : Map
  pub result : m ≡ state size store map
  pub valid : IsIndexed size store map
  pub views :
      (j : ℕ)
      → view store map j ≡ (
          if span.span_id == j
          then some (record { mark = d.mark_counter + 1; span = to_raw_span size span })
          else before j)
  pub counter : store.mark_counter ≡ d.mark_counter + 1
  pub same_file : SameFile d.layout.header store.layout.header

-- The last two steps of `add`: the span is written to the file and entered in the map.
abbrev store_span : MutableSpanData → Span → Result MutableSpanData
store_span m span = do
  (raw_index, impl) ← SpanDataImpl.add m.impl span
  ok (record { impl = impl; span_id_to_index = insert m.span_id_to_index span.span_id raw_index })

-- The state after the two steps.
abbrev pub with_new-Added :
    (size : MmapSize) (d : RawSpanData) (index : Map) (span : Span) (v : IsIndexed size d index)
    (absent : index span.span_id ≡ none) (room : active_count d < (mmap_config size).max_spans)
    (nonzero : 0 < span.span_id) (bound : d.mark_counter < 2 ^ 64 - 1)
    → Added size d span
        (view d index)
        (state size (with_new size d span) (inserted d index span v absent room nonzero bound))
with_new-Added size d index span v absent room nonzero bound = record {
  store = with_new size d span;
  map = inserted d index span v absent room nonzero bound;
  result = refl;
  valid = with_new-IsIndexed d index span v absent room nonzero bound;
  views = λ j.
      subst
        (λ x. view (with_new size d span) (inserted d index span v absent room nonzero bound) j ≡ (
          if span.span_id == j
          then some (record { mark = x; span = to_raw_span size span })
          else view d index j))
        (next_mark_lem d index span v absent room nonzero bound)
        (view-with_new d index span v absent room nonzero bound j);
  counter = next_mark_lem d index span v absent room nonzero bound;
  same_file = record { signature = refl; version = refl };
}

store_span-Added :
    (size : MmapSize) (d : RawSpanData) (index : Map) (span : Span)
    → IsIndexed size d index
    → index span.span_id ≡ none
    → active_count d < (mmap_config size).max_spans
    → 0 < span.span_id
    → d.mark_counter < 2 ^ 64 - 1
    → (m : MutableSpanData) × (store_span (state size d index) span ≡ ok m)
      × (r : Added size d span (view d index) m) × (active_count r.store ≡ active_count d + 1)
unfolding SpanDataImpl.add RawSpanData.count RawSpanData.max_count inserted
store_span-Added size d index span v absent room nonzero bound = (
  state size (with_new size d span) (inserted d index span v absent room nonzero bound),
  rw (
    visit_update-of_size (λ z e. RawSpanData.add z e span) size d,
    add_lem size d span v.layout room,
  ),
  with_new-Added size d index span v absent room nonzero bound,
  refl,
)

pub count-of_size :
    (size : MmapSize) (d : RawSpanData) → SpanDataImpl.count (of_size size d) ≡ active_count d
unfolding SpanDataImpl.count RawSpanData.count
count-of_size size d = visit-of_size (λ z e. RawSpanData.count e) size d

max_count-of_size :
    (size : MmapSize) (d : RawSpanData)
    → SpanDataImpl.max_count (of_size size d) ≡ (mmap_config size).max_spans
unfolding SpanDataImpl.max_count RawSpanData.max_count
max_count-of_size size d = visit-of_size (λ z e. RawSpanData.max_count z) size d

-- A span whose id is present is not added: nothing changes.
pub add-present :
    (size : MmapSize) (d : RawSpanData) (index : Map) (span : Span) (i : ℕ)
    → index span.span_id ≡ some i
    → add (state size d index) span ≡ ok (state size d index)
unfolding add
add-present size d index span i h = rw h

-- A new span is added to a file that is not full: `add` does not fault, keeps the invariant, makes
-- the span available under its id with the next mark, changes no other id, and the count grows by
-- one.
pub add-room :
    (size : MmapSize) (d : RawSpanData) (index : Map) (span : Span)
    → IsIndexed size d index
    → index span.span_id ≡ none
    → active_count d < (mmap_config size).max_spans
    → 0 < span.span_id
    → d.mark_counter < 2 ^ 64 - 1
    → (m : MutableSpanData) × (add (state size d index) span ≡ ok m)
      × (r : Added size d span (view d index) m) × (active_count r.store ≡ active_count d + 1)
unfolding add make_room
add-room size d index span v absent room nonzero bound =
    let (m, e, r, c) = store_span-Added size d index span v absent room nonzero bound in
    (
      m,
      rw
          (
            absent,
            count-of_size size d,
            max_count-of_size size d,
            ne→== (active_count d) (mmap_config size).max_spans (λ f. absurd (omega arith)),
          )
          e,
      r,
      c,
    )

-- The id that is removed, and what the removal leaves.
record RoomMade (size : MmapSize) (d : RawSpanData) (index : Map) (m : MutableSpanData)
    : Type 0 where
  oldest : MarkedSpan
  was_there : view d index oldest.span.span_id ≡ some oldest
  least : (id : ℕ) (t : MarkedSpan) → view d index id ≡ some t → oldest.mark ≤ t.mark
  removal : Removed size d index oldest.span.span_id m
  fewer : active_count removal.store + 1 ≡ active_count d

remove_oldest-RoomMade :
    (size : MmapSize) (d : RawSpanData) (index : Map)
    → IsIndexed size d index
    → 0 < active_count d
    → d.mark_counter < 2 ^ 64 - 1
    → (m : MutableSpanData) × (remove_oldest (state size d index) ≡ ok m) × RoomMade size d index m
unfolding remove_oldest
remove_oldest-RoomMade size d index v h bound =
    let (mark, s, e, at, nonzero, least) = find_oldest-least d index v bound h in
    let (i, there, _, _, _) = view-some v s.span.span_id s at in
    let (m, k, r, c) = remove-present size d index s.span.span_id i v there in
    (
      m,
      rw (count-of_size size d, e, ne→== s.span.span_id 0 (λ f. absurd (omega arith))) k,
      record { oldest = s; was_there = at; least = least; removal = r; fewer = c },
    )

-- An id that the view does not show is not in the map.
pub absent_of_view :
    {size : MmapSize} {d : RawSpanData} {index : Map} (v : IsIndexed size d index) (id : ℕ)
    → view d index id ≡ none
    → index id ≡ none
absent_of_view {d = d} {index = index} v id h = elim (Option-cases (index id)) [
  | inl absent ↦ absent
  | inr (i, there) ↦
      let (s, at, _, _) = v.points id i there in
      absurd (cc (sym h ∙ view-at d index id i there ∙ at))
]

-- What `add` leaves of the other ids when it has removed the id `gone`.
abbrev pub all_but : ℕ → (ℕ → Option MarkedSpan) → ℕ → Option MarkedSpan
all_but gone before j = if gone == j then none else before j

-- To add after a removal.
abbrev Added-after :
    (size : MmapSize) (d : RawSpanData) (index : Map) (gone : ℕ) (span : Span)
    (m m' : MutableSpanData) (q : Removed size d index gone m)
    → Added size q.store span (view q.store q.map) m'
    → Added size d span (all_but gone (view d index)) m'
Added-after size d index gone span m m' q a = record {
  store = a.store;
  map = a.map;
  result = a.result;
  valid = a.valid;
  views = λ j.
      a.views j
      ∙ ap₂
          (λ n o.
            if span.span_id == j
            then some (record { mark = n + 1; span = to_raw_span size span })
            else o)
          q.counter (q.views j);
  counter = a.counter ∙ ap (λ x. x + 1) q.counter;
  same_file = SameFile-trans _ _ _ q.same_file a.same_file;
}

none_either_way : (b : Bool) (o : Option MarkedSpan) → o ≡ none → (if b then none else o) ≡ none
none_either_way true o h = refl
none_either_way false o h = h

-- A new span is added to a full file: `add` does not fault and keeps the invariant. It removes one
-- span, whose mark is the least of all marks, makes the new span available under its id with the next
-- mark, changes no other id, and the file stays full.
pub add-full :
    (size : MmapSize) (d : RawSpanData) (index : Map) (span : Span)
    → IsIndexed size d index
    → index span.span_id ≡ none
    → active_count d ≡ (mmap_config size).max_spans
    → 0 < span.span_id
    → d.mark_counter < 2 ^ 64 - 1
    → (m : MutableSpanData) × (oldest : MarkedSpan) × (add (state size d index) span ≡ ok m)
      × (view d index oldest.span.span_id ≡ some oldest)
      × ((id : ℕ) (t : MarkedSpan) → view d index id ≡ some t → oldest.mark ≤ t.mark)
      × (r : Added size d span (all_but oldest.span.span_id (view d index)) m) × (active_count
            r.store
          ≡ active_count d)
unfolding add make_room
add-full size d index span v absent full nonzero bound =
    let (m, e, r) =
      remove_oldest-RoomMade size d index v (omega (arith, max_spans-bounds size)) bound in
    let q = r.removal in
    let gone : view q.store q.map span.span_id ≡ none =
      q.views span.span_id
      ∙ none_either_way (r.oldest.span.span_id == span.span_id) _
          (view-absent d index span.span_id absent) in
    let (m', e', a, c) =
      store_span-Added size q.store q.map span q.valid (absent_of_view q.valid span.span_id gone)
        (omega (arith, r.fewer)) nonzero (omega (arith, q.counter)) in
    (
      m',
      r.oldest,
      rw
          (
            absent,
            count-of_size size d,
            max_count-of_size size d,
            eq→== (active_count d) (mmap_config size).max_spans full,
            e,
            q.result,
          )
          e',
      r.was_there,
      r.least,
      Added-after size d index r.oldest.span.span_id span m m' q a,
      omega (arith, c, r.fewer),
    )
