-- ===== src/MutableSpanData/Oldest.antt =====
-- The search for the oldest span, and its removal from a full file.
use firebase_telemetry_persi.Common.{
  ==→eq, ℕ, zero, suc, ◌+◌, ◌-◌, ◌^◌, ◌≤◌, ◌<◌, ◌≡◌, ◌≢◌, refl, ◌∙◌, subst, some, ok, arith, ltb,
  ◌==◌, Bool-cases, inl, inr, ◌⊎◌, ◌>>=◌, lt→ltb, ltb→lt, ltb_false→le,
}
use firebase_telemetry_persi.Layout.{MmapSize, MarkedSpan}
use firebase_telemetry_persi.RawSpanData
use firebase_telemetry_persi.RawSpanData.{RawSpanData, slot?}
use firebase_telemetry_persi.RawSpanData.Valid.{slot_total}
use firebase_telemetry_persi.SpanDataImpl
use firebase_telemetry_persi.SpanDataImpl.{of_size, visit-of_size}
use firebase_telemetry_persi.MutableSpanData.{Map, consider, find_oldest}
use firebase_telemetry_persi.MutableSpanData.Invariant.{
  view-at, active_count, IsIndexed, view, view-some,
}

get_mark-of_size :
    (size : MmapSize) (d : RawSpanData) (i : ℕ) (s : MarkedSpan)
    → slot? d.layout i ≡ some s
    → SpanDataImpl.get_mark (of_size size d) i ≡ ok s.mark
unfolding SpanDataImpl.get_mark RawSpanData.get_mark
get_mark-of_size size d i s e = rw (visit-of_size (λ z c. RawSpanData.get_mark c i) size d, e)

get_span_id-of_size :
    (size : MmapSize) (d : RawSpanData) (i : ℕ) (s : MarkedSpan)
    → slot? d.layout i ≡ some s
    → 0 < s.mark
    → SpanDataImpl.get_span_id (of_size size d) i ≡ ok s.span.span_id
unfolding SpanDataImpl.get_span_id RawSpanData.get_raw_span
get_span_id-of_size size d i s e h = rw (
  visit-of_size (λ z c. (RawSpanData.get_raw_span c i >>= λ r. ok r.span_id)) size d,
  e,
  lt→ltb 0 s.mark h,
)

-- What the search has found among the first i slots: nothing, or the id of a slot whose mark is the
-- least.
record Least (d : RawSpanData) (i : ℕ) (oldest : ℕ × ℕ) : Type 0 where
  found :
      (i ≡ 0)
      ⊎ ((j : ℕ) × (s : MarkedSpan) × (j < i)
          × (slot? d.layout j ≡ some s)
          × (s.mark ≡ oldest.0)
          × (s.span.span_id ≡ oldest.1))
  least : (j : ℕ) (s : MarkedSpan) → j < i → slot? d.layout j ≡ some s → oldest.0 ≤ s.mark
  fresh : i ≡ 0 → oldest.0 ≡ 2 ^ 64 - 1

-- What is known of slot j, if it is slot i or one before.
up_to {ℓ} :
    {P : MarkedSpan → Type ℓ} (d : RawSpanData) (i : ℕ) (s : MarkedSpan)
    → slot? d.layout i ≡ some s
    → P s
    → ((j : ℕ) (t : MarkedSpan) → j < i → slot? d.layout j ≡ some t → P t)
    → (j : ℕ) (t : MarkedSpan) → j < suc i
    → slot? d.layout j ≡ some t
    → P t
up_to {P = P} d i s e p before j t h k = elim (Bool-cases (i == j)) [
  | inl here ↦ let q : i ≡ j = ==→eq i j here in let same : s ≡ t = ground arith in subst P same p
  | inr there ↦ before j t (ground arith) k
]

Least-take :
    (d : RawSpanData) (i mark id : ℕ) (s : MarkedSpan)
    → Least d i (mark, id)
    → slot? d.layout i ≡ some s
    → s.mark < mark
    → Least d (suc i) (s.mark, s.span.span_id)
Least-take d i mark id s l e h = record {
  found = inr (i, s, omega arith, e, refl, refl);
  least =
      up_to {P = λ t. s.mark ≤ t.mark} d i s e (omega arith)
        (λ j t lt k. omega (arith, l.least j t lt k));
  fresh = λ z. absurd (omega arith);
}

Least-keep :
    (d : RawSpanData) (i mark id : ℕ) (s : MarkedSpan)
    → Least d i (mark, id)
    → slot? d.layout i ≡ some s
    → i ≢ 0
    → mark ≤ s.mark
    → Least d (suc i) (mark, id)
Least-keep d i mark id s l e ne h = record {
  found = elim l.found [
    | inl z ↦ absurd (ne z)
    | inr (j, t, lt, at, m, q) ↦ inr (j, t, omega arith, at, m, q)
  ];
  least = up_to {P = λ t. mark ≤ t.mark} d i s e h l.least;
  fresh = λ z. absurd (omega arith);
}

module _ {size : MmapSize} (d : RawSpanData) (index : Map) (v : IsIndexed size d index)
    (bound : d.mark_counter < 2 ^ 64 - 1) where
  consider_lem :
      (i : ℕ) (oldest : ℕ × ℕ)
      → i < active_count d
      → Least d i oldest
      → (o : ℕ × ℕ) × (consider (of_size size d) i oldest ≡ ok o) × Least d (suc i) o
  unfolding consider
  consider_lem i (mark, id) lt l =
      let (s, e) = slot_total d.layout i v.layout (omega (arith, v.layout.counted)) in
      let marked = (v.layout.slots i s e).marked lt in
      let below = v.older i s lt e in
      elim (Bool-cases (ltb s.mark mark)) [
        | inl less ↦ (
          (s.mark, s.span.span_id),
          rw (get_mark-of_size size d i s e, less, get_span_id-of_size size d i s e marked),
          Least-take d i mark id s l e (ltb→lt s.mark mark less),
        )
        | inr more ↦
            let h : mark ≤ s.mark = ltb_false→le s.mark mark more in
            (
              (mark, id),
              rw (get_mark-of_size size d i s e, more),
              Least-keep d i mark id s l e (λ z. absurd (omega (arith, l.fresh z))) h,
            )
      ]

  find_oldest_lem :
      (n i : ℕ) (oldest : ℕ × ℕ)
      → i + n ≡ active_count d
      → Least d i oldest
      → (o : ℕ × ℕ) × (find_oldest (of_size size d) n i oldest ≡ ok o) × Least d (active_count d) o
  unfolding find_oldest
  find_oldest_lem zero i oldest h l =
      let e : i ≡ active_count d = omega arith in (oldest, refl, subst (λ x. Least d x oldest) e l)
  find_oldest_lem (suc n) i oldest h l =
      let (o, e, l') = consider_lem i oldest (omega arith) l in
      let next : i + 1 ≡ suc i = omega arith in
      let (o', e', l'') = find_oldest_lem n (suc i) o (omega arith) l' in (o', rw (e, next) e', l'')

  -- The search over a store in use returns the id of an active span whose mark is the least.
  pub find_oldest-least :
      0 < active_count d
      → (mark : ℕ) × (s : MarkedSpan) × (find_oldest
            (of_size size d)
            (active_count d)
            0
            (2 ^ 64 - 1, 0)
          ≡ ok (mark, s.span.span_id))
        × (view d index s.span.span_id ≡ some s)
        × (0 < s.span.span_id)
        × ((id : ℕ) (t : MarkedSpan) → view d index id ≡ some t → s.mark ≤ t.mark)
  find_oldest-least h =
      let start : Least d 0 (2 ^ 64 - 1, 0) = record {
        found = inl refl;
        least = λ j t k. absurd (omega arith);
        fresh = λ _. refl;
      } in
      let ((mark, id), e, l) =
        find_oldest_lem (active_count d) 0 (2 ^ 64 - 1, 0) (omega arith) start in
      elim l.found [
        | inl z ↦ absurd (omega arith)
        | inr (j, s, lt, at, m, q) ↦ (
          mark,
          s,
          rw (e, q),
          view-at d index s.span.span_id j (v.indexed j s lt at) ∙ at,
          v.nonzero j s lt at,
          λ id t k.
              let (i, _, at', lt', _) = view-some v id t k in omega (arith, m, l.least i t lt' at'),
        )
      ]
