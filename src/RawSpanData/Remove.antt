-- ===== src/RawSpanData/Remove.antt =====
-- `remove` and `remove_all`: the last active slot takes the place of the removed one.
use mathlib.Core.List.{Perm}
use mathlib.Core.List.Perm
use firebase_telemetry_persi.Common.{
  ℕ, zero, suc, ◌+◌, ◌-◌, ◌%◌, ◌^◌, ◌≤◌, ◌<◌, ◌≡◌, refl, sym, ◌∙◌, subst, some, List, [], ◌∷◌, ok,
  ◌==◌, if◌then◌else◌, get_elem?, get_elem?-set, get_elem?-set_ne, modify-set, modify-set_self, set,
  set-set_self, length, take, length-set, arith, lt→ltb, Bool-cases, inl, inr, ==→eq, ==_false→ne,
  ◌≢◌, take-set, set_past, length-take,
}
use firebase_telemetry_persi.Common.Interrupts.{run_all}
use firebase_telemetry_persi.Layout.{MmapSize, mmap_config, MarkedSpan, MemoryLayout}
use firebase_telemetry_persi.RawSpanData.{
  RawSpanData, write, slot?, count, max_count, remove, remove_writes, remove_last_writes,
}
use firebase_telemetry_persi.RawSpanData.Valid.{
  IsSlot, IsLayout, with_count, max_spans-bounds, slot_total,
}

abbrev unmark : MarkedSpan → MarkedSpan
unmark s = record s { mark = 0 }

-- The layout after slot i has been removed, where `last` is the content of the last active slot.
abbrev pub removed : MemoryLayout → ℕ → MarkedSpan → MemoryLayout
removed l i last =
    let n = l.header.active_span_count - 1 in
    record {
      header = with_count l.header n;
      marked_spans = set (set l.marked_spans i last) n (unmark last);
    }

pub run_all-remove_last_writes :
    (l : MemoryLayout) (i : ℕ) (last : MarkedSpan)
    → slot? l i ≡ some last
    → i ≡ l.header.active_span_count - 1
    → run_all write (remove_last_writes i (l.header.active_span_count - 1)) l ≡ removed l i last
unfolding remove_last_writes write
run_all-remove_last_writes l i last e h = rw (
  modify-set l.marked_spans i (λ s. record s { mark = 0 }) last e,
  ← h,
  set-set_self l.marked_spans i last (unmark last),
)

pub run_all-remove_writes :
    (l : MemoryLayout) (i n : ℕ) (s last : MarkedSpan)
    → slot? l i ≡ some s
    → slot? l n ≡ some last
    → i ≢ n
    → n ≡ l.header.active_span_count - 1
    → run_all write (remove_writes i n last) l ≡ removed l i last
unfolding remove_writes write
run_all-remove_writes l i n s last e k ne h = rw (
  modify-set l.marked_spans i (λ s. record s { mark = 0 }) s e,
  modify-set_self l.marked_spans i (λ s. record s { span = last.span }) (record s { mark = 0 }),
  modify-set_self l.marked_spans i (λ s. record s { mark = last.mark })
      (record s { mark = 0; span = last.span }),
  modify-set (set l.marked_spans i last) n (λ s. record s { mark = 0 }) last
      (get_elem?-set_ne l.marked_spans i n last ne ∙ k),
  ← h,
)

-- The span id that `remove` returns: that of the span that was moved, or 0.
abbrev pub moved_id : ℕ → ℕ → MarkedSpan → ℕ
moved_id i n last = if i == n then 0 else last.span.span_id

-- On an active slot, `remove` moves the last active span into it.
pub remove_lem :
    (size : MmapSize) (d : RawSpanData) (i : ℕ) (last : MarkedSpan)
    → IsLayout size d.layout
    → i < count d
    → slot? d.layout (count d - 1) ≡ some last
    → remove size d i
      ≡ ok (moved_id i (count d - 1) last, record d { layout = removed d.layout i last })
unfolding remove count max_count
remove_lem size d i last v h k =
    let l = d.layout in
    let n = l.header.active_span_count in
    let (s, e) = slot_total l i v (omega (arith, v.counted)) in
    let wrap : (n + 2 ^ 64 - 1) % 2 ^ 64 ≡ n - 1 =
      omega (arith, max_spans-bounds size, v.counted) in
    rw
      (
        lt→ltb i (mmap_config size).max_spans (omega (arith, v.counted)),
        e,
        lt→ltb 0 s.mark ((v.slots i s e).marked h),
        lt→ltb i n h,
        wrap,
        k,
        lt→ltb 0 last.mark ((v.slots (n - 1) last k).marked (omega arith)),
      )
      (elim (Bool-cases (i == n - 1)) [
        | inl here ↦
            let q : i ≡ n - 1 = ==→eq i (n - 1) here in
            rw (here, run_all-remove_last_writes l i last (rw q k) q)
        | inr there ↦
            rw (
              there,
              run_all-remove_writes l i (n - 1) s last e k (==_false→ne i (n - 1) there) refl,
            )
      ])

-- What stands in the slots after a removal.
pub removed-slot :
    (l : MemoryLayout) (i j : ℕ) (last : MarkedSpan)
    → i < length l.marked_spans
    → l.header.active_span_count - 1 < length l.marked_spans
    → slot? (removed l i last) j ≡ (
        if l.header.active_span_count - 1 == j
        then some (unmark last)
        else if i == j
        then some last
        else slot? l j)
removed-slot l i j last h k = rw (
  get_elem?-set (set l.marked_spans i last) (l.header.active_span_count - 1) j (unmark last)
      (omega (arith, length-set l.marked_spans i last)),
  get_elem?-set l.marked_spans i j last h,
)

IsSlot-unmark :
    {size : MmapSize} {n m i j : ℕ} {s : MarkedSpan}
    → m ≤ j
    → IsSlot size n i s
    → IsSlot size m j (unmark s)
IsSlot-unmark h v = record { marked = λ k. absurd (omega arith); unmarked = λ k. refl; raw = v.raw }

IsSlot-fewer :
    {size : MmapSize} {n i : ℕ} {s : MarkedSpan}
    → n - 1 ≢ i
    → IsSlot size n i s
    → IsSlot size (n - 1) i s
IsSlot-fewer ne v = record {
  marked = λ h. v.marked (omega arith);
  unmarked = λ h. v.unmarked (omega arith);
  raw = v.raw;
}

IsSlot-moved :
    {size : MmapSize} {n i : ℕ} {s : MarkedSpan}
    → i < n
    → n - 1 ≢ i
    → IsSlot size n (n - 1) s
    → IsSlot size (n - 1) i s
IsSlot-moved h ne v = record {
  marked = λ _. v.marked (omega arith);
  unmarked = λ k. absurd (omega arith);
  raw = v.raw;
}

-- A removal keeps the invariant.
pub removed-IsLayout :
    {size : MmapSize} (l : MemoryLayout) (i : ℕ) (last : MarkedSpan)
    → IsLayout size l
    → i < l.header.active_span_count
    → slot? l (l.header.active_span_count - 1) ≡ some last
    → IsLayout size (removed l i last)
removed-IsLayout {size} l i last v h k = record {
  sized =
      length-set (set l.marked_spans i last) (n - 1) (unmark last)
      ∙ length-set l.marked_spans i last
      ∙ v.sized;
  counted = omega arith;
  headed = v.headed;
  slots =
      λ j s e. at j s (removed-slot l i j last (omega (arith, v.sized)) (omega (arith, v.sized))) e;
}
  where
    n : ℕ
    n = l.header.active_span_count

    at :
        (j : ℕ) (s : MarkedSpan)
        → slot? (removed l i last) j
          ≡ (if n - 1 == j then some (unmark last) else if i == j then some last else slot? l j)
        → slot? (removed l i last) j ≡ some s
        → IsSlot size (n - 1) j s
    at j s read e = elim (Bool-cases (n - 1 == j)) [
      | inl past ↦
          let same : unmark last ≡ s = ground arith in
          subst (IsSlot size (n - 1) j) same
            (IsSlot-unmark (omega (arith, ==→eq (n - 1) j past)) (v.slots (n - 1) last k))
      | inr other ↦ elim (Bool-cases (i == j)) [
        | inl here ↦
            let same : last ≡ s = ground arith in
            let q : i ≡ j = ==→eq i j here in
            subst (IsSlot size (n - 1) j) same
              (IsSlot-moved (omega arith) (==_false→ne (n - 1) j other) (v.slots (n - 1) last k))
        | inr there ↦ IsSlot-fewer (==_false→ne (n - 1) j other) (v.slots j s (ground arith))
      ]
    ]

-- The slots in use.
abbrev pub active : MemoryLayout → List MarkedSpan
active l = take l.header.active_span_count l.marked_spans

module _ {ℓ} {A : Type ℓ} where
  last-perm :
      (xs : List A) (n : ℕ) (t : A)
      → get_elem? xs n ≡ some t
      → Perm (t ∷ take n xs) (take (suc n) xs)
  last-perm [] n t h = absurd (cc)
  last-perm (x ∷ xs) zero t h = Perm.cons' (ground arith) Perm.rfl
  last-perm (x ∷ xs) (suc n) t h =
      Perm.trans (Perm.swap x t (take n xs)) (Perm.cons x (last-perm xs n t h))

  swap_out-perm :
      (xs : List A) (i n : ℕ) (s t : A)
      → get_elem? xs i ≡ some s
      → get_elem? xs n ≡ some t
      → i ≤ n
      → Perm (s ∷ take n (set xs i t)) (take (suc n) xs)
  swap_out-perm [] i n s t h k le = absurd (cc)
  swap_out-perm (x ∷ xs) zero zero s t h k le = Perm.cons' (ground arith) Perm.rfl
  swap_out-perm (x ∷ xs) zero (suc n) s t h k le = Perm.cons' (ground arith) (last-perm xs n t k)
  swap_out-perm (x ∷ xs) (suc i) zero s t h k le = absurd (omega arith)
  swap_out-perm (x ∷ xs) (suc i) (suc n) s t h k le =
      Perm.trans (Perm.swap x s (take n (set xs i t)))
        (Perm.cons x (swap_out-perm xs i n s t h k (omega arith)))

-- The active slots after a removal, with the removed one, are a permutation of those before it: just
-- that span is gone.
pub active-removed :
    {size : MmapSize} (l : MemoryLayout) (i : ℕ) (s last : MarkedSpan)
    → IsLayout size l
    → i < l.header.active_span_count
    → slot? l i ≡ some s
    → slot? l (l.header.active_span_count - 1) ≡ some last
    → Perm (s ∷ active (removed l i last)) (active l)
active-removed l i s last v h e k =
    let n = l.header.active_span_count - 1 in
    let more : l.header.active_span_count ≡ suc n = omega arith in
    subst (λ m. Perm (s ∷ active (removed l i last)) (take m l.marked_spans)) (sym more)
      (rw
        (
          take-set n (set l.marked_spans i last) n (unmark last),
          set_past (take n (set l.marked_spans i last)) n (unmark last)
              (omega (arith, length-take n (set l.marked_spans i last))),
        )
        (swap_out-perm l.marked_spans i n s last e k (omega arith)))
