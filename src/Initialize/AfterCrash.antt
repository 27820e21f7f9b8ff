-- ===== src/Initialize/AfterCrash.antt =====
-- A layout is recoverable whenever a crash interrupts `add` or `remove`.
use firebase_telemetry_persi.Span.Valid.{IsRawSpan, All-set}
use firebase_telemetry_persi.Initialize.Success.{IsRecoverable}
use firebase_telemetry_persi.Initialize.Recovery.{Readable}
use firebase_telemetry_persi.RawSpanData.CrashRemove.{Removal, stores_of_remove, remove-Crash}
use firebase_telemetry_persi.RawSpanData.Remove.{active}
use firebase_telemetry_persi.RawSpanData.Valid.{IsLayout, max_spans-bounds}
use firebase_telemetry_persi.Common.{
  All-append, arith, set, ◌<◌, some, ◌==◌, Bool-cases, ℕ, zero, suc, ◌≤◌, ◌≡◌, sym, subst, ◌∙◌, inl,
  inr, List, [], ◌∷◌, All, length, length-modify, take,
}
use firebase_telemetry_persi.Common.Interrupts.{finished, torn, next}
use firebase_telemetry_persi.Layout.{
  RawSpan, MarkedSpan, MmapSize, value_of, mmap_config, MemoryLayout,
}
use firebase_telemetry_persi.RawSpanData.{
  slot?, add_writes, remove_writes, remove_last_writes, Write, set_mark, set_span, set_count,
  clear_spans, write,
}
use firebase_telemetry_persi.RawSpanData.Recoverable.{
  recoverable, spans, recoverable-active, All-take, erase_at,
}
use firebase_telemetry_persi.RawSpanData.Crash.{add-Crash, Crash, TornWrite}

-- What every store of the two methods keeps.
record Shape (size : MmapSize) (l : MemoryLayout) : Type 0 where
  sized : length l.marked_spans ≡ (mmap_config size).max_spans
  counted : l.header.active_span_count ≤ (mmap_config size).max_spans
  headed : l.header.mmap_size ≡ value_of size

abbrev Fits : MmapSize → Write → Type 0
Fits size (set_mark i m) = Unit {0}
Fits size (set_span i r) = Unit {0}
Fits size (set_count n) = n ≤ (mmap_config size).max_spans
Fits size (clear_spans s) = ⊥

write-Shape :
    {size : MmapSize} (w : Write) (l : MemoryLayout)
    → Fits size w
    → Shape size l
    → Shape size (write w l)
unfolding write
write-Shape (set_mark i m) l f v = record {
  sized = length-modify l.marked_spans i (λ s. record s { mark = m }) ∙ v.sized;
  counted = v.counted;
  headed = v.headed;
}
write-Shape (set_span i r) l f v = record {
  sized = length-modify l.marked_spans i (λ s. record s { span = r }) ∙ v.sized;
  counted = v.counted;
  headed = v.headed;
}
write-Shape (set_count n) l f v = record { sized = v.sized; counted = f; headed = v.headed }
write-Shape (clear_spans s) l f v = absurd f

torn-Shape :
    {size : MmapSize} (w : Write) (l mid : MemoryLayout)
    → Fits size w
    → Shape size l
    → TornWrite w l mid
    → Shape size mid
torn-Shape {size} (set_mark i m) l mid f v (inl e) = subst (Shape size) (sym e) v
torn-Shape {size} (set_mark i m) l mid f v (inr e) =
    subst (Shape size) (sym e) (write-Shape (set_mark i m) l f v)
torn-Shape {size} (set_count n) l mid f v (inl e) = subst (Shape size) (sym e) v
torn-Shape {size} (set_count n) l mid f v (inr e) =
    subst (Shape size) (sym e) (write-Shape (set_count n) l f v)
torn-Shape {size} (set_span i r) l mid f v (r', e) =
    subst (Shape size) (sym e) (write-Shape (set_span i r') l tt v)
torn-Shape {size} (clear_spans s) l mid f v t = absurd f

Crash-Shape :
    {size : MmapSize} (ws : List Write) (l mid : MemoryLayout)
    → All (Fits size) ws
    → Shape size l
    → Crash ws l mid
    → Shape size mid
Crash-Shape [] l mid f v finished = v
Crash-Shape (w ∷ ws) l mid f v (torn t) = torn-Shape w l mid f.0 v t
Crash-Shape (w ∷ ws) l mid f v (next c) =
    Crash-Shape ws (write w l) mid f.1 (write-Shape w l f.0 v) c

module _ {ℓ κ} {A : Type ℓ} (P : A → Type κ) where
  All-erase_at : (xs : List A) (i : ℕ) → All P xs → All P (erase_at xs i)
  unfolding erase_at
  All-erase_at [] i v = tt
  All-erase_at (x ∷ xs) zero v = v.1
  All-erase_at (x ∷ xs) (suc i) v = (v.0, All-erase_at xs i v.1)

  All-first : (n : ℕ) (xs : List A) → All P xs → All P (take n xs)
  All-first zero xs v = tt
  All-first (suc n) [] v = tt
  All-first (suc n) (x ∷ xs) v = (v.0, All-first n xs v.1)

All-spans :
    (P : RawSpan → Type 0) (ss : List MarkedSpan)
    → All (λ (s : MarkedSpan). P s.span) ss
    → All P (spans ss)
All-spans P [] v = tt
All-spans P (s ∷ ss) v = (v.0, All-spans P ss v.1)

spans-Readable :
    {size : MmapSize} (l : MemoryLayout) → IsLayout size l → Readable size (spans (active l))
spans-Readable {size} l v = All-spans (IsRawSpan (mmap_config size).max_attributes) (active l) (
    All-take (λ (s : MarkedSpan). IsRawSpan (mmap_config size).max_attributes s.span)
      l.header.active_span_count l.marked_spans (λ i s lt e. (v.slots i s e).raw))

recoverable-Readable :
    {size : MmapSize} (l : MemoryLayout) → IsLayout size l → Readable size (recoverable l)
recoverable-Readable {size} l v =
    subst (Readable size) (sym (recoverable-active l v)) (spans-Readable l v)

layout-Shape : {size : MmapSize} (l : MemoryLayout) → IsLayout size l → Shape size l
layout-Shape l v = record { sized = v.sized; counted = v.counted; headed = v.headed }

Shape-IsRecoverable :
    {size : MmapSize} (l : MemoryLayout)
    → Shape size l
    → Readable size (recoverable l)
    → IsRecoverable size l
Shape-IsRecoverable l v w = record {
  sized = v.sized;
  counted = v.counted;
  headed = v.headed;
  readable = w;
}

pub layout-IsRecoverable :
    {size : MmapSize} (l : MemoryLayout) → IsLayout size l → IsRecoverable size l
layout-IsRecoverable l v = Shape-IsRecoverable l (layout-Shape l v) (recoverable-Readable l v)

-- Wherever a crash interrupts the stores of `add` for a raw span that can be read, on a layout that
-- meets the invariant and has room, what is left is a recoverable layout.
pub add-Crash-IsRecoverable :
    (size : MmapSize) (l mid : MemoryLayout) (r : RawSpan) (mark : ℕ)
    → IsLayout size l
    → l.header.active_span_count < (mmap_config size).max_spans
    → 0 < mark
    → IsRawSpan (mmap_config size).max_attributes r
    → Crash (add_writes l.header.active_span_count r mark) l mid
    → IsRecoverable size mid
unfolding add_writes
add-Crash-IsRecoverable size l mid r mark v room m w crash =
    let shape =
      Crash-Shape (add_writes l.header.active_span_count r mark) l mid
        (tt, (tt, (tt, (omega (arith, max_spans-bounds size), tt)))) (layout-Shape l v) crash in
    let old = recoverable-Readable l v in
    let P = IsRawSpan (mmap_config size).max_attributes in
    Shape-IsRecoverable mid shape (elim (add-Crash size l mid r mark v room m crash) [
      | inl e ↦ subst (Readable size) (sym e) old
      | inr e ↦ subst (Readable size) (sym e) (All-append P (recoverable l) (r ∷ []) old (w, tt))
    ])

Removal-Readable :
    (size : MmapSize) (rs : List RawSpan) (i n : ℕ) (moved : RawSpan) (found : List RawSpan)
    → Readable size rs
    → IsRawSpan (mmap_config size).max_attributes moved
    → Removal rs i n moved found
    → Readable size found
Removal-Readable size rs i n moved found v w removal =
    let P = IsRawSpan (mmap_config size).max_attributes in
    elim removal [
      | inl e ↦ subst (Readable size) (sym e) v
      | inr (inl e) ↦ subst (Readable size) (sym e) (All-erase_at P rs i v)
      | inr (inr (inl e)) ↦ subst (Readable size) (sym e) (All-set P rs i moved v w)
      | inr (inr (inr e)) ↦
          subst (Readable size) (sym e) (All-first P n (set rs i moved) (All-set P rs i moved v w))
    ]

stores_of_remove-Fits :
    (size : MmapSize) (i n : ℕ) (last : MarkedSpan)
    → n ≤ (mmap_config size).max_spans
    → All (Fits size) (stores_of_remove i n last)
unfolding remove_writes remove_last_writes
stores_of_remove-Fits size i n last h = elim (Bool-cases (i == n)) [
  | inl here ↦ rw here (tt, (h, tt))
  | inr there ↦ rw there (tt, (tt, (tt, (tt, (h, tt)))))
]

-- Wherever a crash interrupts the stores of `remove` for slot i of a layout that meets the invariant,
-- where n is the last active slot and `last` its content, what is left is a recoverable layout.
pub remove-Crash-IsRecoverable :
    (size : MmapSize) (l mid : MemoryLayout) (i n : ℕ) (last : MarkedSpan)
    → IsLayout size l
    → i ≤ n
    → l.header.active_span_count ≡ suc n
    → slot? l n ≡ some last
    → Crash (stores_of_remove i n last) l mid
    → IsRecoverable size mid
remove-Crash-IsRecoverable size l mid i n last v h whole at_n crash =
    Shape-IsRecoverable mid
      (Crash-Shape (stores_of_remove i n last) l mid
        (stores_of_remove-Fits size i n last (omega (arith, v.counted))) (layout-Shape l v) crash)
      (Removal-Readable size (recoverable l) i n last.span (recoverable mid)
        (recoverable-Readable l v) (v.slots n last at_n).raw
        (remove-Crash l mid i n last v h whole at_n crash))
