-- ===== src/RawSpanData/Erasure.antt =====
-- The active slots while `remove` rewrites them, and what recovery finds in them.
use firebase_telemetry_persi.Common.{
  ℕ, zero, suc, ◌<◌, ◌≤◌, ◌≡◌, refl, sym, ap, ◌∙◌, List, [], ◌∷◌, arith, length, set, modify, take,
  take-take, take-set, set_past, length-set, length-take,
}
use firebase_telemetry_persi.Layout.{RawSpan, MarkedSpan, MemoryLayout}
use firebase_telemetry_persi.RawSpanData.{set_mark, set_span, set_count, write}
use firebase_telemetry_persi.RawSpanData.Remove.{active}
use firebase_telemetry_persi.RawSpanData.Recoverable.{
  marked_of, spans, Marked, erase_at, marked_of-Marked, marked_of-set_unmarked, Marked-set,
  spans-set, spans-take, erase_at_last, take-modify,
}

pub active-set_mark :
    (l : MemoryLayout) (i m : ℕ)
    → active (write (set_mark i m) l) ≡ modify (active l) i (λ s. record s { mark = m })
unfolding write
active-set_mark l i m =
    take-modify l.header.active_span_count l.marked_spans i (λ s. record s { mark = m })

pub active-set_span :
    (l : MemoryLayout) (i : ℕ) (r : RawSpan)
    → active (write (set_span i r) l) ≡ modify (active l) i (λ s. record s { span = r })
unfolding write
active-set_span l i r =
    take-modify l.header.active_span_count l.marked_spans i (λ s. record s { span = r })

pub active-set_count :
    (l : MemoryLayout) (n : ℕ)
    → n ≤ l.header.active_span_count
    → active (write (set_count n) l) ≡ take n (active l)
unfolding write
active-set_count l n h = sym (take-take n l.header.active_span_count l.marked_spans h)

pub spans-length : (ss : List MarkedSpan) → length (spans ss) ≡ length ss
spans-length [] = refl
spans-length (s ∷ ss) = ap suc (spans-length ss)

pub Marked-take : (n : ℕ) (ss : List MarkedSpan) → Marked ss → Marked (take n ss)
Marked-take zero ss h = tt
Marked-take (suc n) [] h = tt
Marked-take (suc n) (s ∷ ss) h = (h.0, Marked-take n ss h.1)

-- Lists of slots of which all but one are marked.
module _ (ss : List MarkedSpan) (h : Marked ss) (i : ℕ) where
  -- One slot is being rewritten.
  pub erased :
      (r : RawSpan)
      → i < length ss
      → marked_of (set ss i (record { mark = 0; span = r })) ≡ erase_at (spans ss) i
  erased r inside = marked_of-set_unmarked ss i (record { mark = 0; span = r }) h refl inside

  -- Two slots hold the last span.
  pub doubled :
      (last : MarkedSpan) → 0 < last.mark → marked_of (set ss i last) ≡ set (spans ss) i last.span
  doubled last m = marked_of-Marked (set ss i last) (Marked-set ss i last h m) ∙ spans-set ss i last

  -- The last of these is unmarked, and then given up.
  pub unmarked :
      (last : MarkedSpan) (n : ℕ)
      → 0 < last.mark
      → length ss ≡ suc n
      → marked_of (set (set ss i last) n (record last { mark = 0 }))
        ≡ take n (set (spans ss) i last.span)
  unmarked last n m size =
      let ts = set ss i last in
      marked_of-set_unmarked ts n (record last { mark = 0 }) (Marked-set ss i last h m) refl
        (omega (arith, length-set ss i last))
      ∙ erase_at_last (spans ts) n (spans-length ts ∙ length-set ss i last ∙ size)
      ∙ ap (take n) (spans-set ss i last)

  pub given_up :
      (last : MarkedSpan) (n : ℕ)
      → 0 < last.mark
      → marked_of (take n (set (set ss i last) n (record last { mark = 0 })))
        ≡ take n (set (spans ss) i last.span)
  given_up last n m =
      let ts = set ss i last in
      let past : take n (set ts n (record last { mark = 0 })) ≡ take n ts =
        take-set n ts n (record last { mark = 0 })
        ∙ set_past (take n ts) n (record last { mark = 0 }) (omega (arith, length-take n ts)) in
      ap marked_of past
      ∙ marked_of-Marked (take n ts) (Marked-take n ts (Marked-set ss i last h m))
      ∙ spans-take n ts
      ∙ ap (take n) (spans-set ss i last)
