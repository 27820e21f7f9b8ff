-- ===== src/MutableSpanData/Invariant.antt =====
-- The invariant of `MutableSpanData`: the map leads exactly to the active slots. With it a state is
-- seen as a finite map from span ids to marked spans.
use firebase_telemetry_persi.Common.{
  ℕ, ◌≤◌, ◌<◌, ◌≡◌, refl, sym, ap, ◌∙◌, Option, none, some, arith,
}
use firebase_telemetry_persi.Layout.{MmapSize, MarkedSpan}
use firebase_telemetry_persi.RawSpanData.{RawSpanData, slot?}
use firebase_telemetry_persi.RawSpanData.Valid.{IsLayout}
use firebase_telemetry_persi.SpanDataImpl.{of_size}
use firebase_telemetry_persi.MutableSpanData.{MutableSpanData, Map}

abbrev pub active_count : RawSpanData → ℕ
active_count d = d.layout.header.active_span_count

-- An object whose variant is of the given size.
abbrev pub state : MmapSize → RawSpanData → Map → MutableSpanData
state size d index = record { impl = of_size size d; span_id_to_index = index }

pub record IsIndexed (size : MmapSize) (d : RawSpanData) (index : Map) : Type 0 where
  pub layout : IsLayout size d.layout
  pub indexed :
      (i : ℕ) (s : MarkedSpan)
      → i < active_count d
      → slot? d.layout i ≡ some s
      → index s.span.span_id ≡ some i
  pub nonzero :
      (i : ℕ) (s : MarkedSpan) → i < active_count d → slot? d.layout i ≡ some s → 0 < s.span.span_id
  pub points :
      (id i : ℕ)
      → index id ≡ some i
      → (s : MarkedSpan) × (slot? d.layout i ≡ some s)
        × (s.span.span_id ≡ id)
        × (i < active_count d)
  pub older :
      (i : ℕ) (s : MarkedSpan)
      → i < active_count d
      → slot? d.layout i ≡ some s
      → s.mark ≤ d.mark_counter

-- The span with the given id, and its mark.
abbrev pub view : RawSpanData → Map → ℕ → Option MarkedSpan
view d index id = elim (index id) [ none ↦ none | some i ↦ slot? d.layout i ]

pub view-absent :
    (d : RawSpanData) (index : Map) (id : ℕ) → index id ≡ none → view d index id ≡ none
view-absent d index id h = rw (h, view)

pub view-at :
    (d : RawSpanData) (index : Map) (id i : ℕ)
    → index id ≡ some i
    → view d index id ≡ slot? d.layout i
view-at d index id i h = rw (h, view)

-- An id is there exactly when the map has it, and then under its own id.
pub view-some :
    {size : MmapSize} {d : RawSpanData} {index : Map} (v : IsIndexed size d index) (id : ℕ)
    (s : MarkedSpan)
    → view d index id ≡ some s
    → (i : ℕ) × (index id ≡ some i)
      × (slot? d.layout i ≡ some s)
      × (i < active_count d)
      × (s.span.span_id ≡ id)
view-some {d = d} {index = index} v id s h = at (index id) refl h
  where
    at :
        (o : Option ℕ)
        → index id ≡ o
        → elim o as (λ _. Option MarkedSpan) [ none ↦ none | some i ↦ slot? d.layout i ] ≡ some s
        → (i : ℕ) × (index id ≡ some i)
          × (slot? d.layout i ≡ some s)
          × (i < active_count d)
          × (s.span.span_id ≡ id)
    at none e k = absurd (cc)
    at (some i) e k =
        let (t, r, q, lt) = v.points id i e in
        let same : t ≡ s = ground arith in
        (i, e, k, lt, ap (λ (x : MarkedSpan). x.span.span_id) (sym same) ∙ q)

-- Two ids that lead to one slot are one id.
pub index_injective :
    {size : MmapSize} {d : RawSpanData} {index : Map} (v : IsIndexed size d index) (a b i : ℕ)
    → index a ≡ some i
    → index b ≡ some i
    → a ≡ b
index_injective v a b i h k =
    let (s, e, q, _) = v.points a i h in let (t, f, r, _) = v.points b i k in ground arith
