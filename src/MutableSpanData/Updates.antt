-- ===== src/MutableSpanData/Updates.antt =====
-- `set_attribute_on_span` and `end`: one span changes, in place.
use firebase_telemetry_persi.RawSpanData.SameFile.{SameFile, SameFile-refl}
use firebase_telemetry_persi.Common.{
  ◌⊎◌, ℕ, ◌≤◌, ◌<◌, ◌≡◌, ◌≢◌, refl, sym, ap, ◌∙◌, subst, none, some, ok, arith, ◌==◌, if◌then◌else◌,
  ◌>>=◌, ne→==, eq→==, ==→eq, ==_false→ne, Bool-cases, Option-cases, inl, inr, get_elem?-set,
  get_elem?-lt,
}
use firebase_telemetry_persi.CopyString.{Bytes}
use firebase_telemetry_persi.Layout.{MmapSize, MarkedSpan, RawSpan, mmap_config}
use firebase_telemetry_persi.Span.Valid.{IsRawSpan}
use firebase_telemetry_persi.RawSpanData
use firebase_telemetry_persi.RawSpanData.{RawSpanData, slot?}
use firebase_telemetry_persi.RawSpanData.Valid.{
  with_span, with_span-IsLayout, set_end_time_lem, end_time-IsRawSpan,
}
use firebase_telemetry_persi.RawSpanData.Attributes.{put_raw, set_attribute_on_span_lem}
use firebase_telemetry_persi.RawSpanData.Dictionary.{put_raw-IsRawSpan}
use firebase_telemetry_persi.SpanDataImpl
use firebase_telemetry_persi.SpanDataImpl.{of_size, visit_update-of_size, keep_size}
use firebase_telemetry_persi.MutableSpanData.{MutableSpanData, Map, set_attribute_on_span, end}
use firebase_telemetry_persi.MutableSpanData.Invariant.{
  active_count, state, IsIndexed, view, view-some, view-at, view-absent, index_injective,
}

-- The store with another raw span in slot i.
abbrev pub respan : RawSpanData → ℕ → MarkedSpan → RawSpan → RawSpanData
respan d i s r = record d { layout = with_span d.layout i s r }

-- A state in which the span of one id has been replaced, and nothing else.
pub record Updated (size : MmapSize) (d : RawSpanData) (index : Map) (id : ℕ) (s : MarkedSpan)
    (m : MutableSpanData) : Type 0 where
  pub store : RawSpanData
  pub result : m ≡ state size store index
  pub valid : IsIndexed size store index
  pub views : (j : ℕ) → view store index j ≡ (if id == j then some s else view d index j)
  pub count : active_count store ≡ active_count d
  pub counter : store.mark_counter ≡ d.mark_counter
  pub same_file : SameFile d.layout.header store.layout.header

module _ {size : MmapSize} (d : RawSpanData) (index : Map) (id i : ℕ) (s : MarkedSpan) (r : RawSpan)
    (v : IsIndexed size d index) (h : index id ≡ some i) (at : slot? d.layout i ≡ some s)
    (w : IsRawSpan (mmap_config size).max_attributes r) (same_id : r.span_id ≡ s.span.span_id) where
  slot-respan :
      (j : ℕ)
      → slot? (respan d i s r).layout j
        ≡ (if i == j then some (record s { span = r }) else slot? d.layout j)
  slot-respan j =
      get_elem?-set d.layout.marked_spans i j (record s { span = r })
        (get_elem?-lt d.layout.marked_spans i s at)

  slot_cases :
      (j : ℕ) (t : MarkedSpan)
      → slot? (respan d i s r).layout j ≡ some t
      → ((i ≡ j) × (record { mark = s.mark; span = r } ≡ t)) ⊎ (slot? d.layout j ≡ some t)
  slot_cases j t e = elim (Bool-cases (i == j)) [
    | inl here ↦ inl (==→eq i j here, ground (arith, slot-respan j))
    | inr there ↦ inr (ground (arith, slot-respan j))
  ]

  in_use : i < active_count d
  in_use = (v.points id i h).3

  view-respan :
      (j : ℕ)
      → view (respan d i s r) index j
        ≡ (if id == j then some (record s { span = r }) else view d index j)
  view-respan j = elim (Bool-cases (id == j)) [
    | inl here ↦
        view-at (respan d i s r) index j i (subst (λ x. index x ≡ some i) (==→eq id j here) h)
        ∙ slot-respan i
        ∙ rw (eq→== i i refl, here)
    | inr there ↦ rw there (elim (Option-cases (index j)) [
      | inl absent ↦
          view-absent (respan d i s r) index j absent ∙ sym (view-absent d index j absent)
      | inr (k, present) ↦
          let apart : i ≢ k =
            λ e. ==_false→ne id j there (index_injective v id j k (ground arith) present) in
          view-at (respan d i s r) index j k present
          ∙ slot-respan k
          ∙ rw (ne→== i k apart) (sym (view-at d index j k present))
    ])
  ]

  points_respan :
      (j k : ℕ)
      → index j ≡ some k
      → (t : MarkedSpan) × (slot? (respan d i s r).layout k ≡ some t)
        × (t.span.span_id ≡ j)
        × (k < active_count d)
  points_respan j k e =
      let (t, at', q, lt) = v.points j k e in
      elim (Bool-cases (i == k)) [
        | inl here ↦
            let same : s ≡ t = ground (arith, ==→eq i k here) in
            (
              record s { span = r },
              slot-respan k ∙ rw here,
              same_id ∙ ap (λ (x : MarkedSpan). x.span.span_id) same ∙ q,
              lt,
            )
        | inr there ↦ (t, slot-respan k ∙ rw there at', q, lt)
      ]

  respan-IsIndexed : IsIndexed size (respan d i s r) index
  respan-IsIndexed = record {
    layout = with_span-IsLayout d.layout i s r v.layout at w;
    indexed = λ j t lt e. elim (slot_cases j t e) [
      | inl (here, same) ↦
          subst (λ (x : MarkedSpan). index x.span.span_id ≡ some j) same
            (subst (λ x. index x ≡ some j) (sym same_id)
              (subst (λ x. index s.span.span_id ≡ some x) here (v.indexed i s in_use at)))
      | inr old ↦ v.indexed j t lt old
    ];
    nonzero = λ j t lt e. elim (slot_cases j t e) [
      | inl (here, same) ↦
          subst (λ (x : MarkedSpan). 0 < x.span.span_id) same (rw same_id (v.nonzero i s in_use at))
      | inr old ↦ v.nonzero j t lt old
    ];
    points = λ j k e. points_respan j k e;
    older = λ j t lt e. elim (slot_cases j t e) [
      | inl (here, same) ↦
          subst (λ (x : MarkedSpan). x.mark ≤ d.mark_counter) same (v.older i s in_use at)
      | inr old ↦ v.older j t lt old
    ];
  }

  respan-Updated :
      Updated size d index id (record s { span = r }) (state size (respan d i s r) index)
  respan-Updated = record {
    store = respan d i s r;
    result = refl;
    valid = respan-IsIndexed;
    views = view-respan;
    count = refl;
    counter = refl;
    same_file = SameFile-refl d.layout.header;
  }

-- The attributes of a present id: the call does not fault, keeps the invariant, puts the attribute
-- into the span of that id as `put_raw` describes, and changes no other id, no mark and no count.
pub set_attribute_on_span-present :
    (size : MmapSize) (d : RawSpanData) (index : Map) (id : ℕ) (s : MarkedSpan) (key value : Bytes)
    → IsIndexed size d index
    → view d index id ≡ some s
    → (m : MutableSpanData) × (set_attribute_on_span (state size d index) id key value ≡ ok m)
      × Updated size d index id (record s { span = (put_raw size s.span key value).1 }) m
unfolding set_attribute_on_span SpanDataImpl.set_attribute_on_span
set_attribute_on_span-present size d index id s key value v h =
    let (i, there, at, lt, _) = view-some v id s h in
    let raw = (v.layout.slots i s at).raw in
    let (w, same) = put_raw-IsRawSpan size s.span key value raw in
    let r = (put_raw size s.span key value).1 in
    (
      state size (respan d i s r) index,
      rw (
        there,
        visit_update-of_size (λ z e. RawSpanData.set_attribute_on_span z e i key value) size d,
        set_attribute_on_span_lem size d i s key value at raw,
      ),
      respan-Updated d index id i s r v there at w same,
    )

-- The end of a present id: the call does not fault, keeps the invariant, stores the given end time,
-- or the time of the clock if that is 0, and changes no other id and nothing else of the span.
pub end-present :
    (now : ℕ) (size : MmapSize) (d : RawSpanData) (index : Map) (id : ℕ) (s : MarkedSpan)
    (end_time : ℕ)
    → IsIndexed size d index
    → view d index id ≡ some s
    → (m : MutableSpanData) × (end now (state size d index) id end_time ≡ ok m)
      × Updated size d index id
          (record s {
            span = record (s.span) { end_time = if end_time == 0 then now else end_time };
          })
          m
unfolding end SpanDataImpl.set_end_time RawSpanData.count
end-present now size d index id s end_time v h =
    let (i, there, at, lt, _) = view-some v id s h in
    let raw = (v.layout.slots i s at).raw in
    let t : ℕ = if end_time == 0 then now else end_time in
    let r = record (s.span) { end_time = t } in
    (
      state size (respan d i s r) index,
      rw (
        there,
        visit_update-of_size (λ z e. (RawSpanData.set_end_time e i t >>= λ d'. ok (tt, d'))) size d,
        set_end_time_lem size d i t s v.layout lt at,
      ),
      respan-Updated d index id i s r v there at (end_time-IsRawSpan t raw) refl,
    )

-- Neither call does anything on an absent id.
pub updates-absent :
    (now : ℕ) (m : MutableSpanData) (id : ℕ) (key value : Bytes) (end_time : ℕ)
    → m.span_id_to_index id ≡ none
    → (set_attribute_on_span m id key value ≡ ok m) × (end now m id end_time ≡ ok m)
unfolding set_attribute_on_span end
updates-absent now m id key value end_time h = (rw (h, set_attribute_on_span), rw (h, end))
