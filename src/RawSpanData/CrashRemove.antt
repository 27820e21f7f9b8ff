-- ===== src/RawSpanData/CrashRemove.antt =====
-- Crashes inside `remove`: what recovery finds afterwards.
use firebase_telemetry_persi.RawSpanData.Erasure.{
  active-set_mark, active-set_span, active-set_count, spans-length, Marked-take, erased, doubled,
  unmarked, given_up,
}
use firebase_telemetry_persi.Common.{
  subst, ◌==◌, if◌then◌else◌, ==→eq, ==_false→ne, Bool-cases, ℕ, suc, ◌<◌, ◌≤◌, ◌≡◌, sym, ap, ◌∙◌,
  ◌⊎◌, inl, inr, some, List, arith, get_elem?, set, modify, take, get_elem?-take, get_elem?-set_ne,
  modify-set, modify-set_self, take-set, set_past, length-take,
}
use firebase_telemetry_persi.Common.Interrupts.{finished, torn, next}
use firebase_telemetry_persi.Layout.{MmapSize, RawSpan, MarkedSpan, MemoryLayout}
use firebase_telemetry_persi.RawSpanData.{
  Write, remove_last_writes, set_mark, set_span, set_count, write, slot?, remove_writes,
}
use firebase_telemetry_persi.RawSpanData.Valid.{slot_total, IsLayout}
use firebase_telemetry_persi.RawSpanData.Remove.{active}
use firebase_telemetry_persi.RawSpanData.Recoverable.{
  marked_of, recoverable, spans, Marked, erase_at, marked_of-Marked, spans-take, erase_at_last,
  active-Marked, length-active, recoverable-active,
}
use firebase_telemetry_persi.RawSpanData.Crash.{Crash}

-- What recovery can find: all spans; these without the one at i; these with the last span at i as
-- well; or the latter without their last element.
abbrev pub Removal : List RawSpan → ℕ → ℕ → RawSpan → List RawSpan → Type 0
Removal rs i n moved found =
    (found ≡ rs)
    ⊎ (found ≡ erase_at rs i)
    ⊎ (found ≡ set rs i moved)
    ⊎ (found ≡ take n (set rs i moved))

module _ {size : MmapSize} (l : MemoryLayout) (i n : ℕ) (s last : MarkedSpan) (v : IsLayout size l)
    (inside : i < n) (whole : l.header.active_span_count ≡ suc n) (at_i : slot? l i ≡ some s)
    (at_n : slot? l n ≡ some last) where
  abbrev rs : List RawSpan
  rs = spans (active l)

  in_active :
      (j : ℕ) (t : MarkedSpan) → j ≤ n → slot? l j ≡ some t → get_elem? (active l) j ≡ some t
  in_active j t h e = get_elem?-take l.header.active_span_count l.marked_spans j (omega arith) ∙ e

  last_marked : 0 < last.mark
  last_marked = (v.slots n last at_n).marked (omega arith)

  abbrev after1 : MemoryLayout
  after1 = write (set_mark i 0) l

  abbrev after2 : RawSpan → MemoryLayout
  after2 r = write (set_span i r) after1

  abbrev after3 : MemoryLayout
  after3 = write (set_mark i last.mark) (after2 last.span)

  abbrev after4 : MemoryLayout
  after4 = write (set_mark n 0) after3

  active1 : active after1 ≡ set (active l) i (record s { mark = 0 })
  active1 =
      active-set_mark l i 0
      ∙ modify-set (active l) i (λ t. record t { mark = 0 }) s (in_active i s (omega arith) at_i)

  active2 : (r : RawSpan) → active (after2 r) ≡ set (active l) i (record { mark = 0; span = r })
  active2 r =
      active-set_span after1 i r
      ∙ ap (λ ts. modify ts i (λ t. record t { span = r })) active1
      ∙ modify-set_self (active l) i (λ t. record t { span = r }) (record s { mark = 0 })

  active3 : active after3 ≡ set (active l) i last
  active3 =
      active-set_mark (after2 last.span) i last.mark
      ∙ ap (λ ts. modify ts i (λ t. record t { mark = last.mark })) (active2 last.span)
      ∙ modify-set_self (active l) i (λ t. record t { mark = last.mark })
          (record { mark = 0; span = last.span })

  active4 : active after4 ≡ set (set (active l) i last) n (record last { mark = 0 })
  active4 =
      active-set_mark after3 n 0
      ∙ ap (λ ts. modify ts n (λ t. record t { mark = 0 })) active3
      ∙ modify-set (set (active l) i last) n (λ t. record t { mark = 0 }) last
          (get_elem?-set_ne (active l) i n last (omega arith) ∙ in_active n last (omega arith) at_n)

  active5 : active (write (set_count n) after4) ≡ take n (active after4)
  unfolding write
  active5 = active-set_count after4 n (omega arith)

  slots_in_use : Marked (active l)
  slots_in_use = active-Marked l v

  found1 : recoverable after1 ≡ erase_at rs i
  found1 =
      ap marked_of active1
      ∙ erased (active l) slots_in_use i s.span (omega (arith, length-active l v))

  found2 : (r : RawSpan) → recoverable (after2 r) ≡ erase_at rs i
  found2 r =
      ap marked_of (active2 r)
      ∙ erased (active l) slots_in_use i r (omega (arith, length-active l v))

  found3 : recoverable after3 ≡ set rs i last.span
  found3 = ap marked_of active3 ∙ doubled (active l) slots_in_use i last last_marked

  found4 : recoverable after4 ≡ take n (set rs i last.span)
  found4 =
      ap marked_of active4
      ∙ unmarked (active l) slots_in_use i last n last_marked (length-active l v ∙ whole)

  found5 : recoverable (write (set_count n) after4) ≡ take n (set rs i last.span)
  found5 =
      ap marked_of (active5 ∙ ap (take n) active4)
      ∙ given_up (active l) slots_in_use i last n last_marked

  remove_outcome :
      (mid : MemoryLayout)
      → Crash (remove_writes i n last) l mid
      → Removal rs i n last.span (recoverable mid)
  unfolding remove_writes
  remove_outcome mid (torn (inl e)) = inl (rw e (recoverable-active l v))
  remove_outcome mid (torn (inr e)) = inr (inl (rw e found1))
  remove_outcome mid (next (torn (r, e))) = inr (inl (rw e (found2 r)))
  remove_outcome mid (next (next (torn (inl e)))) = inr (inl (rw e (found2 last.span)))
  remove_outcome mid (next (next (torn (inr e)))) = inr (inr (inl (rw e found3)))
  remove_outcome mid (next (next (next (torn (inl e))))) = inr (inr (inl (rw e found3)))
  remove_outcome mid (next (next (next (torn (inr e))))) = inr (inr (inr (rw e found4)))
  remove_outcome mid (next (next (next (next (torn (inl e)))))) = inr (inr (inr (rw e found4)))
  remove_outcome mid (next (next (next (next (torn (inr e)))))) = inr (inr (inr (rw e found5)))
  remove_outcome mid (next (next (next (next (next finished))))) = inr (inr (inr found5))

module _ {size : MmapSize} (l : MemoryLayout) (n : ℕ) (last : MarkedSpan) (v : IsLayout size l)
    (whole : l.header.active_span_count ≡ suc n) (at_n : slot? l n ≡ some last) where
  active_last : active (write (set_mark n 0) l) ≡ set (active l) n (record last { mark = 0 })
  active_last =
      active-set_mark l n 0
      ∙ modify-set (active l) n (λ t. record t { mark = 0 }) last
          (get_elem?-take l.header.active_span_count l.marked_spans n (omega arith) ∙ at_n)

  last_erased : recoverable (write (set_mark n 0) l) ≡ erase_at (spans (active l)) n
  last_erased =
      ap marked_of active_last
      ∙ erased (active l) (active-Marked l v) n last.span (omega (arith, length-active l v))

  last_given_up :
      recoverable (write (set_count n) (write (set_mark n 0) l)) ≡ erase_at (spans (active l)) n
  unfolding write
  last_given_up =
      let ss = active l in
      let t = record last { mark = 0 } in
      ap marked_of (
        active-set_count (write (set_mark n 0) l) n (omega arith)
        ∙ ap (take n) active_last
        ∙ take-set n ss n t
        ∙ set_past (take n ss) n t (omega (arith, length-take n ss)))
      ∙ marked_of-Marked (take n ss) (Marked-take n ss (active-Marked l v))
      ∙ spans-take n ss
      ∙ sym (erase_at_last (spans ss) n (spans-length ss ∙ length-active l v ∙ whole))

  remove_last_outcome :
      (mid : MemoryLayout)
      → Crash (remove_last_writes n n) l mid
      → (recoverable mid ≡ spans (active l)) ⊎ (recoverable mid ≡ erase_at (spans (active l)) n)
  unfolding remove_last_writes
  remove_last_outcome mid (torn (inl e)) = inl (rw e (recoverable-active l v))
  remove_last_outcome mid (torn (inr e)) = inr (rw e last_erased)
  remove_last_outcome mid (next (torn (inl e))) = inr (rw e last_erased)
  remove_last_outcome mid (next (torn (inr e))) = inr (rw e last_given_up)
  remove_last_outcome mid (next (next finished)) = inr last_given_up

-- The stores that `remove` makes, whichever slot is removed.
abbrev pub stores_of_remove : ℕ → ℕ → MarkedSpan → List Write
stores_of_remove i n last = if i == n then remove_last_writes i n else remove_writes i n last

-- Wherever a crash interrupts the stores of `remove` for slot i of a layout that meets the invariant,
-- where n is the last active slot and `last` its content, recovery finds one of four lists: the spans
-- that it found before; these without the one at i; these with the last span at i as well; or the
-- latter without their last element.
pub remove-Crash :
    {size : MmapSize} (l mid : MemoryLayout) (i n : ℕ) (last : MarkedSpan)
    → IsLayout size l
    → i ≤ n
    → l.header.active_span_count ≡ suc n
    → slot? l n ≡ some last
    → Crash (stores_of_remove i n last) l mid
    → Removal (recoverable l) i n last.span (recoverable mid)
remove-Crash {size} l mid i n last v h whole at_n crash =
    subst (λ rs. Removal rs i n last.span (recoverable mid)) (sym (recoverable-active l v))
      (elim (Bool-cases (i == n)) [
        | inl here ↦ at_last (==→eq i n here) (subst (λ ws. Crash ws l mid) (rw here) crash)
        | inr there ↦
            let ne = ==_false→ne i n there in
            let (s, e) = slot_total l i v (omega (arith, v.counted)) in
            remove_outcome l i n s last v (omega arith) whole e at_n mid
              (subst (λ ws. Crash ws l mid) (rw there) crash)
      ])
  where
    at_last :
        i ≡ n
        → Crash (remove_last_writes i n) l mid
        → Removal (spans (active l)) i n last.span (recoverable mid)
    at_last q c =
        elim (remove_last_outcome l n last v whole at_n mid
          (subst (λ k. Crash (remove_last_writes k n) l mid) q c)) [
            | inl e ↦ inl e
            | inr e ↦ inr (inl (e ∙ ap (erase_at (spans (active l))) (sym q)))
          ]
