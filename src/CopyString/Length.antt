-- ===== src/CopyString/Length.antt =====
-- `get_utf8_length`: where a string is cut so that it fits a buffer.
use firebase_telemetry_persi.Common.{
  ℕ, zero, suc, ◌-◌, ◌≤◌, ◌<◌, ◌≡◌, refl, ◌⊎◌, inl, inr, true, false, min, arith, length, get_or,
  ltb, Bool-cases, ltb_false→le,
}
use firebase_telemetry_persi.CopyString.{Bytes, is_utf8_continuation_byte, retreat, get_utf8_length}

-- A string may be cut at its end, at its start, and before a byte that starts a character.
abbrev pub IsCut : Bytes → ℕ → Type 0
IsCut src i = (i ≡ length src) ⊎ (i ≡ 0) ⊎ (is_utf8_continuation_byte (get_or src i 0) ≡ false)

retreat-le : (src : Bytes) (n : ℕ) → retreat src n ≤ n
unfolding retreat
retreat-le src zero = omega arith
retreat-le src (suc n) = ground (arith, retreat-le src n)

retreat-IsCut : (src : Bytes) (n : ℕ) → IsCut src (retreat src n)
unfolding retreat
retreat-IsCut src zero = inr (inl refl)
retreat-IsCut src (suc n) = ground (arith, retreat-IsCut src n)

-- Between the result and the start lie only continuation bytes.
retreat_skips :
    (src : Bytes) (n i : ℕ)
    → retreat src n < i
    → i ≤ n
    → is_utf8_continuation_byte (get_or src i 0) ≡ true
unfolding retreat
retreat_skips src zero i h k = absurd (omega arith)
retreat_skips src (suc n) i h k = ground (arith, retreat_skips src n i)

pub get_utf8_length-bounds :
    (n : ℕ) (src : Bytes)
    → 0 < n
    → (get_utf8_length n src ≤ length src) × (get_utf8_length n src < n)
unfolding get_utf8_length
get_utf8_length-bounds n src h = ground (arith, retreat-le src (min (length src) (n - 1)))

pub get_utf8_length-IsCut : (n : ℕ) (src : Bytes) → IsCut src (get_utf8_length n src)
unfolding get_utf8_length
get_utf8_length-IsCut n src = elim (Bool-cases (ltb (min (length src) (n - 1)) (length src))) [
  | inl e ↦ rw e (retreat-IsCut src (min (length src) (n - 1)))
  | inr e ↦ rw e (inl (omega (arith, ltb_false→le _ _ e)))
]

get_utf8_length_max :
    (n : ℕ) (src : Bytes) (i : ℕ) → i < n → i ≤ length src → IsCut src i → i ≤ get_utf8_length n src
unfolding get_utf8_length
get_utf8_length_max n src i h k c = ground (arith, retreat_skips src (min (length src) (n - 1)) i)

-- With a buffer of n > 0 bytes, `get_utf8_length` is the greatest place at which the string may be
-- cut (its end, its start, or before a byte that starts a character) and that leaves room for the
-- terminating NUL: it is such a place, it is below n, and no other such place below n is greater.
pub get_utf8_length-greatest :
    (n : ℕ) (src : Bytes)
    → 0 < n
    → (get_utf8_length n src ≤ length src)
      × (get_utf8_length n src < n)
      × IsCut src (get_utf8_length n src)
      × ((i : ℕ) → i < n → i ≤ length src → IsCut src i → i ≤ get_utf8_length n src)
get_utf8_length-greatest n src h =
    let b = get_utf8_length-bounds n src h in
    (b.0, b.1, get_utf8_length-IsCut n src, get_utf8_length_max n src)

-- A string that fits is not cut.
pub get_utf8_length_fits :
    (n : ℕ) (src : Bytes) → length src < n → get_utf8_length n src ≡ length src
unfolding get_utf8_length
get_utf8_length_fits n src h = ground arith
