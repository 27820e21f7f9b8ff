-- ===== src/RawSpanData/Crash.antt =====
-- Crashes inside `add` and `remove`: what recovery finds afterwards. The stores of a method reach the
-- file in program order. An aligned 8-byte store is not torn; the copy of a span may be, and then the
-- slot holds any bytes.
use firebase_telemetry_persi.Common.{
  get_elem?-lt, ℕ, suc, ◌+◌, ◌<◌, ◌≡◌, refl, ◌∙◌, ◌⊎◌, inl, inr, some, List, [], ◌∷◌, ◌++◌, arith,
  set, take, modify, length, take-suc, get_elem?-set_self, take-set, set_past, length-take,
}
use firebase_telemetry_persi.Common.Interrupts.{Interrupted, finished, torn, next, run_all}
use firebase_telemetry_persi.Layout.{MmapSize, mmap_config, RawSpan, MarkedSpan, MemoryLayout}
use firebase_telemetry_persi.RawSpanData.{
  Write, set_mark, set_span, set_count, clear_spans, write, slot?, add_writes,
}
use firebase_telemetry_persi.RawSpanData.Valid.{
  added, run_all-add_writes, IsLayout, slot_total, max_spans-bounds,
}
use firebase_telemetry_persi.RawSpanData.Remove.{active}
use firebase_telemetry_persi.RawSpanData.Recoverable.{
  marked_of_one, marked_of-append, recoverable, take-modify_past,
}

-- What a crash inside one store can leave.
abbrev pub TornWrite : Write → MemoryLayout → MemoryLayout → Type 0
TornWrite (set_mark i m) l mid = (mid ≡ l) ⊎ (mid ≡ write (set_mark i m) l)
TornWrite (set_count n) l mid = (mid ≡ l) ⊎ (mid ≡ write (set_count n) l)
TornWrite (set_span i r) l mid = (r' : RawSpan) × (mid ≡ write (set_span i r') l)
TornWrite (clear_spans size) l mid = (ss : List MarkedSpan) × (mid ≡ record l { marked_spans = ss })

abbrev pub Crash : List Write → MemoryLayout → MemoryLayout → Type 0
Crash = Interrupted write TornWrite

-- The layouts that agree with l on the active slots.
record Same (l mid : MemoryLayout) : Type 0 where
  count : mid.header.active_span_count ≡ l.header.active_span_count
  slots : take l.header.active_span_count mid.marked_spans ≡ active l

Same-recoverable : (l mid : MemoryLayout) → Same l mid → recoverable mid ≡ recoverable l
Same-recoverable l mid s = rw (s.count, s.slots)

Same-modify :
    (l mid : MemoryLayout) (f : MarkedSpan → MarkedSpan)
    → Same l mid
    → Same l (record mid { marked_spans = modify mid.marked_spans l.header.active_span_count f })
Same-modify l mid f s = record {
  count = s.count;
  slots =
      take-modify_past l.header.active_span_count mid.marked_spans l.header.active_span_count f
        (omega arith)
      ∙ s.slots;
}

-- The first three stores of `add` do not touch the active slots.
add_untouched :
    (l mid : MemoryLayout) (w : Write)
    → ((m : ℕ) × (w ≡ set_mark l.header.active_span_count m))
      ⊎ ((r : RawSpan) × (w ≡ set_span l.header.active_span_count r))
    → Same l mid
    → Same l (write w mid)
unfolding write
add_untouched l mid w (inl (m, e)) s = rw e (Same-modify l mid (λ t. record t { mark = m }) s)
add_untouched l mid w (inr (r, e)) s = rw e (Same-modify l mid (λ t. record t { span = r }) s)

mark_torn :
    (l a mid : MemoryLayout) (m : ℕ)
    → Same l a
    → TornWrite (set_mark l.header.active_span_count m) a mid
    → recoverable mid ≡ recoverable l
mark_torn l a mid m s (inl e) = rw e (Same-recoverable l a s)
mark_torn l a mid m s (inr e) = rw e (Same-recoverable l _ (add_untouched l a _ (inl (m, refl)) s))

pub recoverable-added :
    (l : MemoryLayout) (r : RawSpan) (mark : ℕ) (s : MarkedSpan)
    → slot? l l.header.active_span_count ≡ some s
    → 0 < mark
    → recoverable (added l r mark) ≡ recoverable l ++ (r ∷ [])
recoverable-added l r mark s e m =
    let n = l.header.active_span_count in
    let new : MarkedSpan = record { mark = mark; span = r } in
    let next : n + 1 ≡ suc n = omega arith in
    let inside : n < length l.marked_spans = get_elem?-lt l.marked_spans n s e in
    rw (
      next,
      take-suc n (set l.marked_spans n new) new (get_elem?-set_self l.marked_spans n new inside),
      take-set n l.marked_spans n new,
      set_past (take n l.marked_spans) n new (omega (arith, length-take n l.marked_spans)),
      marked_of-append (take n l.marked_spans) (new ∷ []),
      marked_of_one new m,
    )

start : (l : MemoryLayout) → Same l l
start l = record { count = refl; slots = refl }

module _ (l : MemoryLayout) (r : RawSpan) (mark : ℕ) (m : 0 < mark) (s : MarkedSpan)
    (e : slot? l l.header.active_span_count ≡ some s) (h : l.header.active_span_count < 2048) where
  abbrev n : ℕ
  n = l.header.active_span_count

  cleared : Same l (write (set_mark n 0) l)
  cleared = add_untouched l l (set_mark n 0) (inl (0, refl)) (start l)

  copied : (r' : RawSpan) → Same l (write (set_span n r') (write (set_mark n 0) l))
  copied r' = add_untouched l _ (set_span n r') (inr (r', refl)) cleared

  marked : Same l (write (set_mark n mark) (write (set_span n r) (write (set_mark n 0) l)))
  marked = add_untouched l _ (set_mark n mark) (inl (mark, refl)) (copied r)

  whole : recoverable (run_all write (add_writes n r mark) l) ≡ recoverable l ++ (r ∷ [])
  whole = rw (run_all-add_writes l r mark s e h) (recoverable-added l r mark s e m)

  add_outcome :
      (mid : MemoryLayout)
      → Crash (add_writes n r mark) l mid
      → (recoverable mid ≡ recoverable l) ⊎ (recoverable mid ≡ recoverable l ++ (r ∷ []))
  unfolding add_writes
  add_outcome mid (torn t) = inl (mark_torn l l mid 0 (start l) t)
  add_outcome mid (next (torn (r', t))) = inl (rw t (Same-recoverable l _ (copied r')))
  add_outcome mid (next (next (torn t))) = inl (mark_torn l _ mid mark (copied r) t)
  add_outcome mid (next (next (next (torn (inl t))))) = inl (rw t (Same-recoverable l _ marked))
  add_outcome mid (next (next (next (torn (inr t))))) = inr (rw t whole)
  add_outcome mid (next (next (next (next finished)))) = inr whole

-- Wherever a crash interrupts the stores of `add` on a layout that meets the invariant and has room,
-- recovery finds the spans that it found before, or these and the whole new span behind them.
pub add-Crash :
    (size : MmapSize) (l mid : MemoryLayout) (r : RawSpan) (mark : ℕ)
    → IsLayout size l
    → l.header.active_span_count < (mmap_config size).max_spans
    → 0 < mark
    → Crash (add_writes l.header.active_span_count r mark) l mid
    → (recoverable mid ≡ recoverable l) ⊎ (recoverable mid ≡ recoverable l ++ (r ∷ []))
add-Crash size l mid r mark v h m crash =
    let n = l.header.active_span_count in
    let (s, e) = slot_total l n v h in
    add_outcome l r mark m s e (omega (arith, max_spans-bounds size)) mid crash
