-- ===== src/Android/Strings/Survive.antt =====
-- managed_jstring.h and copy_string.h: a string that comes from Java, is kept in a buffer of a span
-- and goes back to Java.
use firebase_telemetry_persi.Common.{
  Option, none, ◌∙◌, ℕ, zero, suc, ◌-◌, ◌<◌, ◌≤◌, ◌≡◌, refl, ap, ◌∙◌, sym, arith, length, take, min,
  [], ◌∷◌, ◌++◌, get_or, ltb, Bool-cases, inl, inr, some, ok, length-take, take-take,
  take_of_length-le, ltb_false→le, true,
}
use firebase_telemetry_persi.CopyString.{Bytes, retreat, get_utf8_length, copy_string}
use firebase_telemetry_persi.CopyString.Length.{get_utf8_length-bounds}
use firebase_telemetry_persi.CopyString.Keys.{take-NulFree}
use firebase_telemetry_persi.CopyString.Buffers.{
  c_str, NulFree, truncate, until_nul_free, c_str-copy_string, length-truncate-lt,
}
use firebase_telemetry_persi.Android.Java.{Jni, IsJava, World, Ref}
use firebase_telemetry_persi.Android.Strings.{
  bounded_chars, copy_chars, jstring_to_string, nonnegative,
}

copy_chars_lem :
    (n : ℕ) (chars : Bytes)
    → copy_chars (min (length chars) n) chars ≡ ok (take (min (length chars) n) chars)
unfolding copy_chars
copy_chars_lem n chars = ground arith

get_or-take : (n i : ℕ) (s : Bytes) → i < n → get_or (take n s) i 0 ≡ get_or s i 0
get_or-take zero i s h = absurd (omega arith)
get_or-take (suc n) i [] h = refl
get_or-take (suc n) zero (b ∷ s) h = refl
get_or-take (suc n) (suc i) (b ∷ s) h = get_or-take n i s (omega arith)

retreat-take : (n k : ℕ) (s : Bytes) → k < n → retreat (take n s) k ≡ retreat s k
unfolding retreat
retreat-take n zero s h = refl
retreat-take n (suc k) s h = rw (get_or-take n (suc k) s h, retreat-take n k s (omega arith)) refl

get_utf8_length_long :
    (n : ℕ) (s : Bytes) → 0 < n → n ≤ length s → get_utf8_length n s ≡ retreat s (n - 1)
unfolding get_utf8_length
get_utf8_length_long n s h long =
    let e : min (length s) (n - 1) ≡ n - 1 = omega arith in
    let t : ltb (n - 1) (length s) ≡ true = ground arith in rw (e, t) refl

-- Where a string is cut does not depend on what follows the first n bytes.
get_utf8_length-take :
    (n : ℕ) (s : Bytes) → 0 < n → get_utf8_length n (take n s) ≡ get_utf8_length n s
get_utf8_length-take n s h = elim (Bool-cases (ltb n (length s))) [
  | inl long ↦
      get_utf8_length_long n (take n s) h (ground (arith, length-take n s))
      ∙ retreat-take n (n - 1) s (omega arith)
      ∙ sym (get_utf8_length_long n s h (ground arith))
  | inr short ↦ ap (get_utf8_length n) (take_of_length-le n s (ltb_false→le n (length s) short))
]

truncate-take : (n : ℕ) (s : Bytes) → 0 < n → truncate n (take n s) ≡ truncate n s
truncate-take n s h =
    let b = get_utf8_length-bounds n s h in
    rw (get_utf8_length-take n s h) (take-take (get_utf8_length n s) n s (omega arith))

take-min : (n : ℕ) (s : Bytes) → take (min (length s) n) s ≡ take n s
take-min n s = elim (Bool-cases (ltb n (length s))) [
  | inl long ↦ let e : min (length s) n ≡ n = ground arith in rw e refl
  | inr short ↦
      let le = ltb_false→le n (length s) short in
      take_of_length-le (min (length s) n) s (omega arith) ∙ sym (take_of_length-le n s le)
]

c_str-terminated : (s : Bytes) → NulFree s → c_str (s ++ (0 ∷ [])) ≡ ok s
unfolding c_str
c_str-terminated [] h = refl
c_str-terminated (b ∷ s) h = ground (arith, c_str-terminated s)

bounded_chars_short : (n : ℕ) (s : Bytes) → NulFree s → length s < n → bounded_chars n s ≡ ok s
unfolding bounded_chars
bounded_chars_short n s free h =
    let t : ltb (length s) n ≡ true = ground arith in rw t (c_str-terminated s free)

module _ {J : Jni} (laws : IsJava J) where
  pub jstring_to_string_lem :
      (r : Ref) (n : ℕ) (w : World J) (u : Bytes)
      → J.get_string_utf_chars r w.state ≡ some u
      → jstring_to_string (some r) n w ≡ ok (take n u, w)
  unfolding jstring_to_string
  jstring_to_string_lem r n w u e =
      rw
        (
          e,
          jstring_to_string,
          laws.utf_length r w.state u e,
          nonnegative,
          copy_chars_lem n u,
          take-min n u,
        )
        refl

  -- A string is read without a fault, null and failures included, and nothing changes.
  pub jstring_to_string_total :
      (src : Option Ref) (n : ℕ) (w : World J)
      → (s : Bytes) × (jstring_to_string src n w ≡ ok (s, w)) × (length s ≤ n)
  unfolding jstring_to_string
  jstring_to_string_total none n w = ([], refl, omega arith)
  jstring_to_string_total (some r) n w = at (J.get_string_utf_chars r w.state) refl
    where
      at :
          (chars : Option Bytes)
          → J.get_string_utf_chars r w.state ≡ chars
          → (s : Bytes) × (jstring_to_string (some r) n w ≡ ok (s, w)) × (length s ≤ n)
      at none e = ([], rw (e, jstring_to_string), omega arith)
      at (some u) e = (take n u, jstring_to_string_lem r n w u e, omega (arith, length-take n u))

-- Where the virtual machine keeps to the documentation of strings, and `dest` is a buffer of a span
-- that is not empty: the characters u of a Java string are read to a string, which `copy_string` puts
-- in `dest`. What is read back from the buffer is u cut once, in front of a character, to what the
-- buffer holds, although the first step has cut it at a byte; and a Java string of the same bound is
-- made from just these bytes.
pub java_string_survives :
    {J : Jni}
    → IsJava J
    → (r : Ref) (w : World J) (u dest : Bytes) → J.get_string_utf_chars r w.state ≡ some u
    → 0 < length dest
    → (s : Bytes) × (jstring_to_string (some r) (length dest) w ≡ ok (s, w))
      × (c_str (copy_string s dest) ≡ ok (truncate (length dest) u))
      × (bounded_chars (length dest) (truncate (length dest) u) ≡ ok (truncate (length dest) u))
java_string_survives laws r w u dest e h =
    let n = length dest in
    let free = take-NulFree (get_utf8_length n u) u (laws.nul_free r w.state u e) in
    let read = (c_str-copy_string (take n u) dest h).0 in
    (
      take n u,
      jstring_to_string_lem laws r n w u e,
      read ∙ rw (truncate-take n u h) (ap ok (until_nul_free (truncate n u) free)),
      bounded_chars_short n (truncate n u) free (length-truncate-lt n u h),
    )
