-- ===== src/Android/Strings.antt =====
-- managed_jstring.h: the strings that go to Java and come back. `create_bounded_jstring` gives
-- `NewStringUTF` a C string, and `jstring_to_string` copies the bytes that Java gives. The environment is
-- there.
pub mod Survive
use firebase_telemetry_persi.Common.{
  ℕ, none, some, Option, Result, ok, fault, out_of_bounds, ltb, if◌then◌else◌, length, take,
  replicate, min, [], ◌∷◌, ◌++◌,
}
use firebase_telemetry_persi.CopyString.{Bytes, copy_string}
use firebase_telemetry_persi.CopyString.Buffers.{c_str}
use firebase_telemetry_persi.Android.Java.{Jni, Java, Ref, acquire}

-- What `NewStringUTF` reads, where MaxLen is n.
unfoldable pub bounded_chars : ℕ → Bytes → Result Bytes
bounded_chars n str =
    if ltb (length str) n then c_str (str ++ (0 ∷ [])) else c_str (copy_string str (replicate n 0))

unfoldable pub create_bounded_jstring : {J : Jni} → ℕ → Bytes → Java J (Option Ref)
unfolding bounded_chars
create_bounded_jstring {J} n str w = elim (bounded_chars n str) [
  | ok chars ↦ acquire (J.new_string_utf chars) w
  | fault e ↦ fault e
]

-- The constructor `std::string (utf_chars, n)` reads n bytes.
unfoldable pub copy_chars : ℕ → Bytes → Result Bytes
copy_chars n chars = if ltb (length chars) n then fault out_of_bounds else ok (take n chars)

abbrev pub nonnegative : Option ℕ → ℕ
nonnegative none = 0
nonnegative (some n) = n

-- `none` is the null reference. The characters are released before the function returns.
unfoldable pub jstring_to_string : {J : Jni} → Option Ref → ℕ → Java J Bytes
unfolding copy_chars
jstring_to_string none max_len w = ok ([], w)
jstring_to_string {J} (some src) max_len w = elim (J.get_string_utf_chars src w.state) [
  | none ↦ ok ([], w)
  | some utf_chars ↦
      elim (copy_chars (min (nonnegative (J.get_string_utf_length src w.state)) max_len)
        utf_chars) [ ok result ↦ ok (result, w) | fault e ↦ fault e ]
]
