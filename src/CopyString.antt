-- ===== src/CopyString.antt =====
-- include/firebase/telemetry/persistence/detail/copy_string.h: bounded, NUL-padded copies of
-- strings. A string and a `char[N]` are the lists of their bytes; N is the length of the buffer.
pub mod Length
pub mod Characters
pub mod Buffers
pub mod Keys
pub mod Crash
use firebase_telemetry_persi.Common.{
  ℕ, zero, suc, ◌-◌, Bool, true, false, ◌&&◌, List, [], ◌∷◌, bit_and, min, ltb, ◌==◌, if◌then◌else◌,
  length, get_or, take, replicate,
}

abbrev pub Bytes : Type 0
Bytes = List ℕ

unfoldable pub is_utf8_continuation_byte : ℕ → Bool
is_utf8_continuation_byte c = bit_and c 0xc0 == 0x80

-- The `while`: `length` goes down to a byte that starts a character, or to 0.
unfoldable pub retreat : Bytes → ℕ → ℕ
retreat src zero = zero
retreat src (suc n) =
    if is_utf8_continuation_byte (get_or src (suc n) 0) then retreat src n else suc n

unfoldable pub get_utf8_length : ℕ → Bytes → ℕ
get_utf8_length n src =
    let len = min (length src) (n - 1) in if ltb len (length src) then retreat src len else len

-- `==` of string views.
unfoldable pub view_eq : Bytes → Bytes → Bool
view_eq [] [] = true
view_eq (a ∷ xs) (b ∷ ys) = (a == b) && view_eq xs ys
view_eq _ _ = false

unfoldable pub key_equals : Bytes → Bytes → Bool
key_equals untruncated buffer =
    let len = get_utf8_length (length buffer) untruncated in
    view_eq (take len buffer) (take len untruncated) && (get_or buffer len 0 == 0)

unfoldable pub memset : Bytes → ℕ → Bytes
memset dest c = replicate (length dest) c

-- The bytes of `src` over the front of `dest`.
unfoldable pub overwrite : Bytes → Bytes → Bytes
overwrite [] src = []
overwrite (d ∷ dest) [] = d ∷ dest
overwrite (d ∷ dest) (s ∷ src) = s ∷ overwrite dest src

unfoldable pub memcpy : Bytes → Bytes → ℕ → Bytes
unfolding overwrite
memcpy dest src n = overwrite dest (take n src)

unfoldable pub copy_string : Bytes → Bytes → Bytes
unfolding memcpy memset get_utf8_length retreat is_utf8_continuation_byte
copy_string src dest =
    let len = get_utf8_length (length dest) src in
    let zeroed = memset dest 0 in memcpy zeroed src len

-- Both buffers are zeroed before the first is filled.
unfoldable pub copy_string2 : Bytes → Bytes → Bytes → Bytes → Bytes × Bytes
unfolding memcpy memset get_utf8_length retreat is_utf8_continuation_byte
copy_string2 src1 dest1 src2 dest2 =
    let len1 = get_utf8_length (length dest1) src1 in
    let len2 = get_utf8_length (length dest2) src2 in
    let zeroed1 = memset dest1 0 in
    let zeroed2 = memset dest2 0 in (memcpy zeroed1 src1 len1, memcpy zeroed2 src2 len2)
