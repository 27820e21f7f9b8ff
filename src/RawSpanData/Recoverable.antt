-- ===== src/RawSpanData/Recoverable.antt =====
-- What recovery finds in a layout: the spans of the active slots that are marked.
use firebase_telemetry_persi.Common.{
  ℕ, zero, suc, ◌≤◌, ◌<◌, ◌≡◌, refl, ap, some, List, [], ◌∷◌, ◌++◌, ◌++◌, map, All, arith, ◌==◌,
  if◌then◌else◌, get_elem?, set, take, modify, length, length-take,
}
use firebase_telemetry_persi.Layout.{MmapSize, RawSpan, MarkedSpan, MemoryLayout}
use firebase_telemetry_persi.RawSpanData.Valid.{IsLayout}
use firebase_telemetry_persi.RawSpanData.Remove.{active}

unfoldable pub marked_of : List MarkedSpan → List RawSpan
marked_of [] = []
marked_of (s ∷ ss) = if s.mark == 0 then marked_of ss else s.span ∷ marked_of ss

abbrev pub recoverable : MemoryLayout → List RawSpan
recoverable l = marked_of (active l)

abbrev pub spans : List MarkedSpan → List RawSpan
spans = map (λ s. s.span)

abbrev pub Marked : List MarkedSpan → Type 0
Marked = All (λ s. 0 < s.mark)

-- The list without its element i.
unfoldable pub erase_at {ℓ} : {A : Type ℓ} → List A → ℕ → List A
erase_at [] i = []
erase_at (x ∷ xs) zero = xs
erase_at (x ∷ xs) (suc i) = x ∷ erase_at xs i

pub marked_of-append :
    (xs ys : List MarkedSpan) → marked_of (xs ++ ys) ≡ marked_of xs ++ marked_of ys
unfolding marked_of
marked_of-append [] ys = refl
marked_of-append (s ∷ xs) ys = ground (arith, marked_of-append xs ys)

pub marked_of_one : (s : MarkedSpan) → 0 < s.mark → marked_of (s ∷ []) ≡ s.span ∷ []
unfolding marked_of
marked_of_one s h = ground arith

pub marked_of-Marked : (ss : List MarkedSpan) → Marked ss → marked_of ss ≡ spans ss
unfolding marked_of
marked_of-Marked [] h = refl
marked_of-Marked (s ∷ ss) h = ground (arith, marked_of-Marked ss h.1)

pub marked_of-set_unmarked :
    (ss : List MarkedSpan) (i : ℕ) (t : MarkedSpan)
    → Marked ss
    → t.mark ≡ 0
    → i < length ss
    → marked_of (set ss i t) ≡ erase_at (spans ss) i
unfolding marked_of erase_at
marked_of-set_unmarked [] i t h z lt = elim lt [ ]
marked_of-set_unmarked (s ∷ ss) zero t h z lt = ground (arith, marked_of-Marked ss h.1)
marked_of-set_unmarked (s ∷ ss) (suc i) t h z lt = ground (arith, marked_of-set_unmarked ss i t h.1)

pub Marked-set :
    (ss : List MarkedSpan) (i : ℕ) (t : MarkedSpan) → Marked ss → 0 < t.mark → Marked (set ss i t)
Marked-set [] i t h z = tt
Marked-set (s ∷ ss) zero t h z = (z, h.1)
Marked-set (s ∷ ss) (suc i) t h z = (h.0, Marked-set ss i t h.1 z)

pub spans-set :
    (ss : List MarkedSpan) (i : ℕ) (t : MarkedSpan) → spans (set ss i t) ≡ set (spans ss) i t.span
spans-set [] i t = refl
spans-set (s ∷ ss) zero t = refl
spans-set (s ∷ ss) (suc i) t = ap (◌∷◌ s.span) (spans-set ss i t)

pub spans-take : (n : ℕ) (ss : List MarkedSpan) → spans (take n ss) ≡ take n (spans ss)
spans-take zero ss = refl
spans-take (suc n) [] = refl
spans-take (suc n) (s ∷ ss) = ap (◌∷◌ s.span) (spans-take n ss)

module _ {ℓ} {A : Type ℓ} where
  -- To erase the last element is to take the others.
  pub erase_at_last : (xs : List A) (n : ℕ) → length xs ≡ suc n → erase_at xs n ≡ take n xs
  unfolding erase_at
  erase_at_last [] n h = absurd (omega arith)
  erase_at_last (x ∷ []) zero h = refl
  erase_at_last (x ∷ y ∷ xs) zero h = absurd (omega arith)
  erase_at_last (x ∷ xs) (suc n) h = ap (◌∷◌ x) (erase_at_last xs n (omega arith))

  pub take-modify :
      (n : ℕ) (xs : List A) (i : ℕ) (f : A → A) → take n (modify xs i f) ≡ modify (take n xs) i f
  take-modify zero xs i f = refl
  take-modify (suc n) [] i f = refl
  take-modify (suc n) (x ∷ xs) zero f = refl
  take-modify (suc n) (x ∷ xs) (suc i) f = ap (◌∷◌ x) (take-modify n xs i f)

  pub take-modify_past :
      (n : ℕ) (xs : List A) (i : ℕ) (f : A → A) → n ≤ i → take n (modify xs i f) ≡ take n xs
  take-modify_past zero xs i f h = refl
  take-modify_past (suc n) [] i f h = refl
  take-modify_past (suc n) (x ∷ xs) zero f h = absurd (omega arith)
  take-modify_past (suc n) (x ∷ xs) (suc i) f h =
      ap (◌∷◌ x) (take-modify_past n xs i f (omega arith))

  pub All-take {κ} :
      (P : A → Type κ) (n : ℕ) (xs : List A)
      → ((i : ℕ) (a : A) → i < n → get_elem? xs i ≡ some a → P a)
      → All P (take n xs)
  All-take P zero xs h = tt
  All-take P (suc n) [] h = tt
  All-take P (suc n) (x ∷ xs) h =
      (h 0 x (omega arith) refl, All-take P n xs (λ i a lt e. h (suc i) a (omega arith) e))

pub active-Marked : {size : MmapSize} (l : MemoryLayout) → IsLayout size l → Marked (active l)
active-Marked l v =
    All-take (λ s. 0 < s.mark) l.header.active_span_count l.marked_spans
      (λ i s lt e. (v.slots i s e).marked lt)

pub length-active :
    {size : MmapSize} (l : MemoryLayout)
    → IsLayout size l
    → length (active l) ≡ l.header.active_span_count
length-active l v =
    omega (arith, length-take l.header.active_span_count l.marked_spans, v.sized, v.counted)

-- In a layout that meets the invariant every active span is recoverable.
pub recoverable-active :
    {size : MmapSize} (l : MemoryLayout) → IsLayout size l → recoverable l ≡ spans (active l)
recoverable-active l v = marked_of-Marked (active l) (active-Marked l v)
