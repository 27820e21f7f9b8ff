-- ===== src/Tests/Strings.antt =====
-- The theorems on strings at concrete buffers.
use firebase_telemetry_persi.Tests.Data.{cafe, letter, accent, red, blue, four_bytes, half_cleared}
use firebase_telemetry_persi.Common.{
  ℕ, ◌≤◌, ◌<◌, ◌≡◌, ◌↔◌, refl, true, [], ◌∷◌, ok, length, take, arith, ◌⊎◌,
}
use firebase_telemetry_persi.Common.Interrupts.{torn}
use firebase_telemetry_persi.CopyString.{get_utf8_length, key_equals, copy_string, memset}
use firebase_telemetry_persi.CopyString.Length.{IsCut, get_utf8_length-greatest}
use firebase_telemetry_persi.CopyString.Characters.{encode, take-get_utf8_length-encode}
use firebase_telemetry_persi.CopyString.Buffers.{
  NulFree, c_str, until_nul, truncate, c_str-copy_string,
}
use firebase_telemetry_persi.CopyString.Keys.{key_equals-copy_string}
use firebase_telemetry_persi.CopyString.Crash.{
  clear, HoldsPrefix, stored, old, new, nil, TornStore, store, copy_string_stores,
  copy_string2_stores, CopyCrash-terminated, Copy2Crash-consistent, PairState,
}

get_utf8_length-greatest_example :
    (get_utf8_length 4 cafe ≤ 4)
    × (get_utf8_length 4 cafe < 4)
    × IsCut cafe (get_utf8_length 4 cafe)
    × ((i : ℕ) → i < 4 → i ≤ 4 → IsCut cafe i → i ≤ get_utf8_length 4 cafe)
get_utf8_length-greatest_example = get_utf8_length-greatest 4 cafe (omega arith)

take-get_utf8_length-encode_example :
    (k : ℕ) × (take
        (get_utf8_length 3 (encode (letter ∷ accent ∷ [])))
        (encode (letter ∷ accent ∷ []))
      ≡ encode (take k (letter ∷ accent ∷ [])))
take-get_utf8_length-encode_example =
    take-get_utf8_length-encode 3 (letter ∷ accent ∷ []) (omega arith)

c_str-copy_string_example :
    (c_str (copy_string cafe four_bytes) ≡ ok (until_nul (truncate 4 cafe)))
    × (length (copy_string cafe four_bytes) ≡ 4)
c_str-copy_string_example = c_str-copy_string cafe four_bytes (omega arith)

pub red-NulFree : NulFree red
red-NulFree = (omega arith, (omega arith, (omega arith, tt)))

pub blue-NulFree : NulFree blue
blue-NulFree = (omega arith, (omega arith, (omega arith, (omega arith, tt))))

key_equals-copy_string_example :
    (key_equals red (copy_string blue four_bytes) ≡ true) ↔ (truncate 4 red ≡ truncate 4 blue)
key_equals-copy_string_example =
    key_equals-copy_string red blue four_bytes (omega arith) red-NulFree blue-NulFree

-- One byte of the four has been cleared.
half_clearing : TornStore clear four_bytes half_cleared
unfolding store memset
half_clearing = old (old (new (old nil)))

CopyCrash-terminated_example :
    HoldsPrefix half_cleared (1 ∷ []) ⊎ HoldsPrefix half_cleared (stored cafe four_bytes)
unfolding c_str copy_string_stores
CopyCrash-terminated_example =
    CopyCrash-terminated cafe four_bytes (1 ∷ []) (omega arith) refl (torn half_clearing)

Copy2Crash-consistent_example :
    PairState
      (1 ∷ [])
      (1 ∷ [])
      (stored red four_bytes)
      (stored blue four_bytes)
      (half_cleared, four_bytes)
unfolding c_str copy_string2_stores
Copy2Crash-consistent_example =
    Copy2Crash-consistent red four_bytes blue four_bytes (1 ∷ []) (1 ∷ []) (omega arith)
      (omega arith) refl refl (torn (half_clearing, refl))
