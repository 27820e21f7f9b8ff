-- ===== src/MutableSpanData/Remove.antt =====
-- `remove`: the invariant is kept and just the given id disappears.
use firebase_telemetry_persi.RawSpanData.SameFile.{SameFile}
use firebase_telemetry_persi.RawSpanData.Valid.{slot_total}
use firebase_telemetry_persi.Common.{
  ◌+◌, true, false, ◌≤◌, Bool, false, Option-cases, eq→==, ◌⊎◌, ne→==, lt→ltb, ℕ, ◌-◌, ◌<◌, ◌≡◌,
  ◌≢◌, refl, sym, ◌∙◌, subst, none, some, ok, arith, ◌==◌, if◌then◌else◌, Bool-cases, ==→eq,
  ==_false→ne, inl, inr,
}
use firebase_telemetry_persi.Layout.{MmapSize, MarkedSpan}
use firebase_telemetry_persi.RawSpanData
use firebase_telemetry_persi.RawSpanData.{RawSpanData, slot?}
use firebase_telemetry_persi.RawSpanData.Remove.{
  removed-IsLayout, removed, moved_id, remove_lem, removed-slot,
}
use firebase_telemetry_persi.SpanDataImpl
use firebase_telemetry_persi.SpanDataImpl.{of_size, visit_update-of_size, keep_size}
use firebase_telemetry_persi.MutableSpanData.{MutableSpanData, Map, remap, remove}
use firebase_telemetry_persi.MutableSpanData.Invariant.{
  view-at, view-absent, active_count, state, IsIndexed, view, index_injective,
}

-- The store after slot i is given up, where `last` is in the last active slot.
abbrev pub without : RawSpanData → ℕ → MarkedSpan → RawSpanData
without d i last = record d { layout = removed d.layout i last }

-- The map after that: the moved span is found in slot i.
abbrev pub reindexed : RawSpanData → Map → ℕ → ℕ → MarkedSpan → Map
reindexed d index id i last = remap index id i (moved_id i (active_count d - 1) last)

remove-of_size :
    (size : MmapSize) (d : RawSpanData) (index : Map) (id i : ℕ) (last : MarkedSpan)
    → IsIndexed size d index
    → index id ≡ some i
    → i < active_count d
    → slot? d.layout (active_count d - 1) ≡ some last
    → remove (state size d index) id
      ≡ ok (state size (without d i last) (reindexed d index id i last))
unfolding remove SpanDataImpl.remove RawSpanData.count
remove-of_size size d index id i last v h lt k = rw (
  h,
  visit_update-of_size (λ z e. RawSpanData.remove z e i) size d,
  remove_lem size d i last v.layout lt k,
)

module _ {size : MmapSize} (d : RawSpanData) (index : Map) (id i : ℕ) (last : MarkedSpan)
    (v : IsIndexed size d index) (h : index id ≡ some i)
    (k : slot? d.layout (active_count d - 1) ≡ some last) where
  slot_in_use : i < active_count d
  slot_in_use = (v.points id i h).3

  slot-without :
      (j : ℕ)
      → slot? (without d i last).layout j ≡ (
          if active_count d - 1 == j
          then some (record last { mark = 0 })
          else if i == j
          then some last
          else slot? d.layout j)
  slot-without j =
      removed-slot d.layout i j last (omega (arith, slot_in_use, v.layout.sized, v.layout.counted))
        (omega (arith, slot_in_use, v.layout.sized, v.layout.counted))

  last_id : index last.span.span_id ≡ some (active_count d - 1)
  last_id = v.indexed (active_count d - 1) last (omega (arith, slot_in_use)) k

  last_nonzero : 0 < last.span.span_id
  last_nonzero = v.nonzero (active_count d - 1) last (omega (arith, slot_in_use)) k

  -- If the slot is not the last, the moved span has another id.
  last_id_ne : i ≢ active_count d - 1 → last.span.span_id ≢ id
  last_id_ne ne e = ne (ground (arith, last_id))

  reindexed_lem :
      (j : ℕ)
      → reindexed d index id i last j ≡ (
          if id == j
          then none
          else if i == active_count d - 1
          then index j
          else if last.span.span_id == j
          then some i
          else index j)
  reindexed_lem j = elim (Bool-cases (i == active_count d - 1)) [
    | inl here ↦ rw here
    | inr there ↦ rw (there, lt→ltb 0 last.span.span_id last_nonzero)
  ]

  -- What the map says of an id afterwards.
  data Entry (j : ℕ) : Type 0 where
    gone : id ≡ j → reindexed d index id i last j ≡ none → Entry j
    moved :
        id ≢ j
        → i ≢ active_count d - 1
        → last.span.span_id ≡ j
        → reindexed d index id i last j ≡ some i
        → Entry j
    kept :
        id ≢ j
        → (i ≡ active_count d - 1) ⊎ (last.span.span_id ≢ j)
        → reindexed d index id i last j ≡ index j
        → Entry j

  entry : (j : ℕ) → Entry j
  entry j = elim (Bool-cases (id == j)) [
    | inl e ↦ gone (==→eq id j e) (reindexed_lem j ∙ rw e)
    | inr ne ↦ elim (Bool-cases (i == active_count d - 1)) [
      | inl here ↦
          kept (==_false→ne id j ne) (inl (==→eq i _ here)) (reindexed_lem j ∙ rw (ne, here))
      | inr there ↦ elim (Bool-cases (last.span.span_id == j)) [
        | inl e ↦
            moved (==_false→ne id j ne) (==_false→ne i _ there) (==→eq _ j e)
              (reindexed_lem j ∙ rw (ne, there, e))
        | inr f ↦
            kept (==_false→ne id j ne) (inr (==_false→ne _ j f))
              (reindexed_lem j ∙ rw (ne, there, f))
      ]
    ]
  ]

  -- An id that is kept keeps its slot, which is not one of the two that change.
  kept_slot :
      (j m : ℕ)
      → index j ≡ some m
      → id ≢ j
      → (i ≡ active_count d - 1) ⊎ (last.span.span_id ≢ j)
      → (active_count d - 1 ≢ m) × (i ≢ m) × (m < active_count d)
  kept_slot j m e ne other =
      let (s, at, same_id, lt) = v.points j m e in
      let apart : i ≢ m = λ f. ne (index_injective v id j m (ground arith) e) in
      (
        elim other [ inl here ↦ λ f. apart (here ∙ f) | inr differ ↦ λ f. differ (ground arith) ],
        apart,
        lt,
      )

  slot-without_kept :
      (m : ℕ)
      → active_count d - 1 ≢ m
      → i ≢ m
      → slot? (without d i last).layout m ≡ slot? d.layout m
  slot-without_kept m a b = slot-without m ∙ rw (ne→== _ m a, ne→== i m b)

  slot-without_moved : i ≢ active_count d - 1 → slot? (without d i last).layout i ≡ some last
  slot-without_moved ne =
      slot-without i ∙ rw (ne→== (active_count d - 1) i (λ e. ne (sym e)), eq→== i i refl)

  -- The view loses the id, and nothing else.
  pub view-without :
      (j : ℕ)
      → view (without d i last) (reindexed d index id i last) j
        ≡ (if id == j then none else view d index j)
  view-without j = elim (entry j) [
    | gone e f ↦
        view-absent (without d i last) (reindexed d index id i last) j f ∙ rw (eq→== id j e)
    | moved ne far e f ↦
        view-at (without d i last) (reindexed d index id i last) j i f
        ∙ slot-without_moved far
        ∙ sym k
        ∙ sym (
            view-at d index j (active_count d - 1)
              (subst (λ x. index x ≡ some (active_count d - 1)) e last_id))
        ∙ rw (ne→== id j ne)
    | kept ne other f ↦ rw (ne→== id j ne) (elim (Option-cases (index j)) [
      | inl absent ↦
          view-absent (without d i last) (reindexed d index id i last) j (f ∙ absent)
          ∙ sym (view-absent d index j absent)
      | inr (m, present) ↦
          let (a, b, lt) = kept_slot j m present ne other in
          view-at (without d i last) (reindexed d index id i last) j m (f ∙ present)
          ∙ slot-without_kept m a b
          ∙ sym (view-at d index j m present)
    ])
  ]

  -- A slot that is still in use is slot i, with the moved span, or one that did not change.
  slot_cases :
      (j : ℕ) (s : MarkedSpan)
      → j < active_count d - 1
      → slot? (without d i last).layout j ≡ some s
      → ((i ≡ j) × (last ≡ s)) ⊎ ((i ≢ j) × (slot? d.layout j ≡ some s))
  slot_cases j s lt e =
      let past : (active_count d - 1 == j) ≡ false = ne→== _ j (λ f. absurd (omega arith)) in
      elim (Bool-cases (i == j)) [
        | inl here ↦ inl (==→eq i j here, ground (arith, slot-without j))
        | inr there ↦ inr (==_false→ne i j there, ground (arith, slot-without j))
      ]

  indexed-without :
      (j : ℕ) (s : MarkedSpan)
      → j < active_count d - 1
      → slot? (without d i last).layout j ≡ some s
      → reindexed d index id i last s.span.span_id ≡ some j
  indexed-without j s lt e = elim (slot_cases j s lt e) [
    | inl (here, same) ↦
        let far : i ≢ active_count d - 1 = λ f. absurd (omega arith) in
        subst (λ (x : MarkedSpan). reindexed d index id i last x.span.span_id ≡ some j) same
          (reindexed_lem last.span.span_id
            ∙ rw (
              ne→== id last.span.span_id (λ f. last_id_ne far (sym f)),
              ne→== i (active_count d - 1) far,
              eq→== last.span.span_id last.span.span_id refl,
              here,
            ))
    | inr (there, at) ↦
        let own : index s.span.span_id ≡ some j = v.indexed j s (omega arith) at in
        let differs : id ≢ s.span.span_id = λ f. there (ground arith) in
        let not_last : last.span.span_id ≢ s.span.span_id =
          λ f. absurd (omega (arith, index_of_last j s own f)) in
        reindexed_lem s.span.span_id
        ∙ rw (ne→== id s.span.span_id differs, ne→== last.span.span_id s.span.span_id not_last, own)
            (either_way (i == active_count d - 1) j)
  ]
    where
      index_of_last :
          (j : ℕ) (s : MarkedSpan)
          → index s.span.span_id ≡ some j
          → last.span.span_id ≡ s.span.span_id
          → j ≡ active_count d - 1
      index_of_last j s own f = ground (arith, last_id)

      either_way : (b : Bool) (j : ℕ) → (if b then some j else some j) ≡ some j
      either_way true j = refl
      either_way false j = refl

  -- `remove` keeps the invariant.
  pub without-IsIndexed : IsIndexed size (without d i last) (reindexed d index id i last)
  without-IsIndexed = record {
    layout = removed-IsLayout d.layout i last v.layout slot_in_use k;
    indexed = λ j s lt e. indexed-without j s lt e;
    nonzero = λ j s lt e. elim (slot_cases j s lt e) [
      | inl (here, same) ↦ subst (λ (x : MarkedSpan). 0 < x.span.span_id) same last_nonzero
      | inr (there, at) ↦ v.nonzero j s (omega arith) at
    ];
    points = λ j m e. elim (entry j) [
      | gone f g ↦ absurd (cc)
      | moved ne far f g ↦
          let here : i ≡ m = ground arith in
          (
            last,
            subst (λ x. slot? (without d i last).layout x ≡ some last) here
                (slot-without_moved far),
            f,
            omega (arith, slot_in_use),
          )
      | kept ne other f ↦
          let present : index j ≡ some m = sym f ∙ e in
          let (a, b, lt) = kept_slot j m present ne other in
          let (s, at, same_id, _) = v.points j m present in
          (s, slot-without_kept m a b ∙ at, same_id, omega arith)
    ];
    older = λ j s lt e. elim (slot_cases j s lt e) [
      | inl (here, same) ↦
          subst (λ (x : MarkedSpan). x.mark ≤ d.mark_counter) same
            (v.older (active_count d - 1) last (omega (arith, slot_in_use)) k)
      | inr (there, at) ↦ v.older j s (omega arith) at
    ];
  }

-- What `remove` promises, of the store and map before and after.
pub record Removed (size : MmapSize) (d : RawSpanData) (index : Map) (id : ℕ) (m : MutableSpanData)
    : Type 0 where
  pub store : RawSpanData
  pub map : Map
  pub result : m ≡ state size store map
  pub valid : IsIndexed size store map
  pub views : (j : ℕ) → view store map j ≡ (if id == j then none else view d index j)
  pub counter : store.mark_counter ≡ d.mark_counter
  pub same_file : SameFile d.layout.header store.layout.header

-- A present id disappears.
pub remove-present :
    (size : MmapSize) (d : RawSpanData) (index : Map) (id i : ℕ)
    → IsIndexed size d index
    → index id ≡ some i
    → (m : MutableSpanData) × (remove (state size d index) id ≡ ok m)
      × (r : Removed size d index id m) × (active_count r.store + 1 ≡ active_count d)
remove-present size d index id i v h =
    let (s, at, same, lt) = v.points id i h in
    let (last, k) =
      slot_total d.layout (active_count d - 1) v.layout (omega (arith, v.layout.counted)) in
    (
      state size (without d i last) (reindexed d index id i last),
      remove-of_size size d index id i last v h lt k,
      record {
        store = without d i last;
        map = reindexed d index id i last;
        result = refl;
        valid = without-IsIndexed d index id i last v h k;
        views = view-without d index id i last v h k;
        counter = refl;
        same_file = record { signature = refl; version = refl };
      },
      omega arith,
    )

-- An absent id changes nothing.
pub remove-absent :
    (size : MmapSize) (d : RawSpanData) (index : Map) (id : ℕ)
    → index id ≡ none
    → remove (state size d index) id ≡ ok (state size d index)
unfolding remove
remove-absent size d index id h = rw h
