-- ===== src/MutableSpanData/Add.antt =====
-- `add`: a new span is kept, and a full file gives up its oldest span for it.
use firebase_telemetry_persi.Common.{
  ℕ, ◌+◌, ◌-◌, ◌^◌, ◌≤◌, ◌<◌, ◌≡◌, ◌≢◌, refl, sym, ◌∙◌, subst, none, some, arith, ◌==◌,
  if◌then◌else◌, Bool-cases, Option-cases, inl, inr, ◌⊎◌, ne→==, eq→==, ==→eq, ==_false→ne,
  get_elem?-set,
}
use firebase_telemetry_persi.Layout.{MmapSize, MarkedSpan, mmap_config}
use firebase_telemetry_persi.Span.{Span, to_raw_span}
use firebase_telemetry_persi.Span.RoundTrip.{span_id-to_raw_span}
use firebase_telemetry_persi.Span.Valid.{to_raw_span-IsRawSpan}
use firebase_telemetry_persi.RawSpanData.{RawSpanData, slot?, next_mark}
use firebase_telemetry_persi.RawSpanData.Valid.{added, added-IsLayout}
use firebase_telemetry_persi.MutableSpanData.{Map, insert}
use firebase_telemetry_persi.MutableSpanData.Invariant.{
  active_count, IsIndexed, view, view-at, view-absent,
}

-- What `add` writes.
abbrev pub new_slot : MmapSize → RawSpanData → Span → MarkedSpan
new_slot size d span = record { mark = next_mark d; span = to_raw_span size span }

abbrev pub with_new : MmapSize → RawSpanData → Span → RawSpanData
with_new size d span = record {
  layout = added d.layout (to_raw_span size span) (next_mark d);
  mark_counter = next_mark d;
}

module _ {size : MmapSize} (d : RawSpanData) (index : Map) (span : Span)
    (v : IsIndexed size d index) (absent : index span.span_id ≡ none)
    (room : active_count d < (mmap_config size).max_spans) (nonzero : 0 < span.span_id)
    (bound : d.mark_counter < 2 ^ 64 - 1) where
  unfoldable pub inserted : Map
  inserted = insert index span.span_id (active_count d)

  pub next_mark_lem : next_mark d ≡ d.mark_counter + 1
  next_mark_lem = omega arith

  slot-with_new :
      (j : ℕ)
      → slot? (with_new size d span).layout j
        ≡ (if active_count d == j then some (new_slot size d span) else slot? d.layout j)
  slot-with_new j =
      get_elem?-set d.layout.marked_spans (active_count d) j (new_slot size d span)
        (omega (arith, v.layout.sized))

  inserted_lem :
      (j : ℕ) → inserted j ≡ (if span.span_id == j then some (active_count d) else index j)
  unfolding inserted
  inserted_lem j = elim (Bool-cases (span.span_id == j)) [
    | inl e ↦ let q : index j ≡ none = subst (λ x. index x ≡ none) (==→eq _ j e) absent in rw (e, q)
    | inr ne ↦ rw ne
  ]

  slot_cases :
      (j : ℕ) (s : MarkedSpan)
      → j < active_count d + 1
      → slot? (with_new size d span).layout j ≡ some s
      → ((active_count d ≡ j) × (new_slot size d span ≡ s))
        ⊎ ((j < active_count d) × (slot? d.layout j ≡ some s))
  slot_cases j s lt e = elim (Bool-cases (active_count d == j)) [
    | inl here ↦ inl (==→eq _ j here, ground (arith, slot-with_new j))
    | inr there ↦ inr (omega (arith, ==_false→ne _ j there), ground (arith, slot-with_new j))
  ]

  slot-with_new_old :
      (j : ℕ) → j < active_count d → slot? (with_new size d span).layout j ≡ slot? d.layout j
  slot-with_new_old j lt =
      slot-with_new j ∙ rw (ne→== (active_count d) j (λ e. absurd (omega arith)))

  slot-with_new_new :
      slot? (with_new size d span).layout (active_count d) ≡ some (new_slot size d span)
  slot-with_new_new =
      slot-with_new (active_count d) ∙ rw (eq→== (active_count d) (active_count d) refl)

  pub view-with_new :
      (j : ℕ)
      → view (with_new size d span) inserted j
        ≡ (if span.span_id == j then some (new_slot size d span) else view d index j)
  view-with_new j = elim (Bool-cases (span.span_id == j)) [
    | inl e ↦
        view-at (with_new size d span) inserted j (active_count d) (inserted_lem j ∙ rw e)
        ∙ slot-with_new_new
        ∙ rw e
    | inr ne ↦ rw ne (elim (Option-cases (index j)) [
      | inl none_there ↦
          view-absent (with_new size d span) inserted j (inserted_lem j ∙ rw (ne, none_there))
          ∙ sym (view-absent d index j none_there)
      | inr (m, there) ↦
          view-at (with_new size d span) inserted j m (inserted_lem j ∙ rw (ne, there))
          ∙ slot-with_new_old m (v.points j m there).3
          ∙ sym (view-at d index j m there)
    ])
  ]

  indexed_new :
      (j : ℕ) (s : MarkedSpan)
      → active_count d ≡ j
      → new_slot size d span ≡ s
      → inserted s.span.span_id ≡ some j
  indexed_new j s here same =
      subst (λ (x : MarkedSpan). inserted x.span.span_id ≡ some j) same
        (subst (λ x. inserted x ≡ some j) (sym (span_id-to_raw_span size span))
          (inserted_lem span.span_id ∙ rw (eq→== span.span_id span.span_id refl, here)))

  indexed_old :
      (j : ℕ) (s : MarkedSpan)
      → j < active_count d
      → slot? d.layout j ≡ some s
      → inserted s.span.span_id ≡ some j
  indexed_old j s lt at =
      let own = v.indexed j s lt at in
      let differs : span.span_id ≢ s.span.span_id = λ f. absurd (ground (arith, own)) in
      inserted_lem s.span.span_id ∙ rw (ne→== span.span_id s.span.span_id differs) own

  abbrev Points : ℕ → ℕ → Type 0
  Points j m =
      (s : MarkedSpan) × (slot? (with_new size d span).layout m ≡ some s)
      × (s.span.span_id ≡ j)
      × (m < active_count d + 1)

  new_found : (j m : ℕ) → span.span_id ≡ j → inserted j ≡ some m → Points j m
  new_found j m here e =
      let last : active_count d ≡ m = ground (arith, inserted_lem j, eq→== span.span_id j here) in
      (
        new_slot size d span,
        subst (λ x. slot? (with_new size d span).layout x ≡ some (new_slot size d span)) last
            slot-with_new_new,
        span_id-to_raw_span size span ∙ here,
        omega arith,
      )

  old_found : (j m : ℕ) → span.span_id ≢ j → inserted j ≡ some m → Points j m
  old_found j m there e =
      let old : index j ≡ some m = ground (arith, inserted_lem j, ne→== span.span_id j there) in
      let (s, at, same, lt) = v.points j m old in
      (s, slot-with_new_old m lt ∙ at, same, omega arith)

  pub with_new-IsIndexed : IsIndexed size (with_new size d span) inserted
  with_new-IsIndexed = record {
    layout =
        added-IsLayout d.layout (to_raw_span size span) (next_mark d) v.layout room
          (to_raw_span-IsRawSpan size span) (omega arith);
    indexed = λ j s lt e. elim (slot_cases j s lt e) [
      | inl (here, same) ↦ indexed_new j s here same
      | inr (lt', at) ↦ indexed_old j s lt' at
    ];
    nonzero = λ j s lt e. elim (slot_cases j s lt e) [
      | inl (here, same) ↦
          subst (λ (x : MarkedSpan). 0 < x.span.span_id) same
            (rw (span_id-to_raw_span size span) nonzero)
      | inr (lt', at) ↦ v.nonzero j s lt' at
    ];
    points = λ j m e. elim (Bool-cases (span.span_id == j)) [
      | inl here ↦ new_found j m (==→eq _ j here) e
      | inr there ↦ old_found j m (==_false→ne _ j there) e
    ];
    older = λ j s lt e. elim (slot_cases j s lt e) [
      | inl (here, same) ↦ subst (λ (x : MarkedSpan). x.mark ≤ next_mark d) same (omega arith)
      | inr (lt', at) ↦ omega (arith, v.older j s lt' at)
    ];
  }
