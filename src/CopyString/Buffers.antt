-- ===== src/CopyString/Buffers.antt =====
-- What a buffer holds as a C string, and what `copy_string` leaves in it.
use firebase_telemetry_persi.Common.{
  ℕ, zero, suc, ◌<◌, ◌≡◌, ◌≢◌, refl, ap, ◌∙◌, arith, length, take, [], ◌∷◌, All, length-replicate,
  length-take, replicate, Result, ok, fault, ◌>>=◌, out_of_bounds, ◌==◌, if◌then◌else◌,
}
use firebase_telemetry_persi.CopyString.{
  Bytes, get_utf8_length, overwrite, copy_string, copy_string2,
}
use firebase_telemetry_persi.CopyString.Length.{get_utf8_length-bounds}

-- The bytes in front of the first NUL of a buffer, as `std::string(const char*)` reads them: a
-- buffer with no NUL is read past its end.
unfoldable pub c_str : Bytes → Result Bytes
c_str [] = fault out_of_bounds
c_str (b ∷ buffer) = let rest = c_str buffer in if b == 0 then ok [] else (rest >>= λ s. ok (b ∷ s))

-- The bytes in front of the first NUL, or all.
unfoldable pub until_nul : Bytes → Bytes
until_nul [] = []
until_nul (b ∷ s) = if b == 0 then [] else b ∷ until_nul s

abbrev pub NulFree : Bytes → Type 0
NulFree = All (λ b. b ≢ 0)

-- The first bytes of a string that fit a buffer of n bytes.
abbrev pub truncate : ℕ → Bytes → Bytes
truncate n src = take (get_utf8_length n src) src

pub length-truncate-lt : (n : ℕ) (src : Bytes) → 0 < n → length (truncate n src) < n
length-truncate-lt n src h =
    omega (arith, length-take (get_utf8_length n src) src, get_utf8_length-bounds n src h)

length-overwrite : (dest src : Bytes) → length (overwrite dest src) ≡ length dest
unfolding overwrite
length-overwrite [] src = refl
length-overwrite (d ∷ dest) [] = refl
length-overwrite (d ∷ dest) (s ∷ src) = ap suc (length-overwrite dest src)

-- The buffer that `copy_string` leaves: the truncated string, padded by zeros.
unfoldable pub padded : ℕ → Bytes → Bytes
padded n t = overwrite (replicate n 0) t

pub copy_string-padded :
    (src dest : Bytes) → copy_string src dest ≡ padded (length dest) (truncate (length dest) src)
unfolding copy_string padded
copy_string-padded src dest = refl

pub length-padded : (n : ℕ) (t : Bytes) → length (padded n t) ≡ n
unfolding padded
length-padded n t = omega (arith, length-overwrite (replicate n 0) t, length-replicate {A = ℕ} n 0)

pub length-copy_string : (src dest : Bytes) → length (copy_string src dest) ≡ length dest
unfolding copy_string
length-copy_string src dest = omega (
  arith,
  length-overwrite (replicate (length dest) 0) (truncate (length dest) src),
  length-replicate {A = ℕ} (length dest) 0,
)

pub c_str-padded : (n : ℕ) (t : Bytes) → length t < n → c_str (padded n t) ≡ ok (until_nul t)
unfolding c_str padded overwrite until_nul
c_str-padded zero t h = elim h [ ]
c_str-padded (suc n) [] h = refl
c_str-padded (suc n) (b ∷ t) h = ground (arith, c_str-padded n t)

pub until_nul_free : (t : Bytes) → NulFree t → until_nul t ≡ t
unfolding until_nul
until_nul_free [] h = refl
until_nul_free (b ∷ t) h = ground (arith, until_nul_free t)

-- Read back as a C string, a non-empty buffer that `copy_string` has filled gives the truncated
-- source up to its first NUL; the read stays inside the buffer, and the buffer keeps its length.
pub c_str-copy_string :
    (src dest : Bytes)
    → 0 < length dest
    → (c_str (copy_string src dest) ≡ ok (until_nul (truncate (length dest) src)))
      × (length (copy_string src dest) ≡ length dest)
c_str-copy_string src dest h = (
  ap c_str (copy_string-padded src dest)
      ∙ c_str-padded (length dest) (truncate (length dest) src)
          (length-truncate-lt (length dest) src h),
  length-copy_string src dest,
)

-- `copy_string2` leaves what two calls of `copy_string` leave.
pub copy_string2-copy_string :
    (src1 dest1 src2 dest2 : Bytes)
    → copy_string2 src1 dest1 src2 dest2 ≡ (copy_string src1 dest1, copy_string src2 dest2)
unfolding copy_string2 copy_string
copy_string2-copy_string src1 dest1 src2 dest2 = refl
