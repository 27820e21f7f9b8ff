-- ===== src/CopyString/Keys.antt =====
-- `key_equals`: a key is found again under the name that was stored for it.
use firebase_telemetry_persi.Common.{
  refl, Bool, length-take, ℕ, zero, suc, ◌<◌, ◌≡◌, ◌↔◌, true, arith, length, get_or, take, [], ◌∷◌,
  ◌&&◌, ◌==◌,
}
use firebase_telemetry_persi.CopyString.{
  get_utf8_length, key_equals, copy_string, Bytes, view_eq, overwrite,
}
use firebase_telemetry_persi.CopyString.Length.{get_utf8_length-bounds}
use firebase_telemetry_persi.CopyString.Buffers.{
  truncate, copy_string-padded, length-padded, length-truncate-lt, NulFree, padded,
}

pub take-NulFree : (n : ℕ) (s : Bytes) → NulFree s → NulFree (take n s)
take-NulFree zero s h = tt
take-NulFree (suc n) [] h = tt
take-NulFree (suc n) (b ∷ s) h = (h.0, take-NulFree n s h.1)

-- The test of `key_equals`, between two strings that fit the buffer.
padded_matches_iff :
    (n : ℕ) (t u : Bytes)
    → NulFree t
    → NulFree u
    → length t < n
    → length u < n
    → (view_eq (take (length t) (padded n u)) t && (get_or (padded n u) (length t) 0 == 0)) ≡ true
      ↔ t ≡ u
unfolding padded overwrite view_eq
padded_matches_iff zero t u ht hu lt lu = absurd (omega arith)
padded_matches_iff (suc n) [] [] ht hu lt lu = ground arith
padded_matches_iff (suc n) [] (y ∷ u) ht hu lt lu = ground arith
padded_matches_iff (suc n) (x ∷ t) [] ht hu lt lu = ground arith
padded_matches_iff (suc n) (x ∷ t) (y ∷ u) ht hu lt lu = ground (arith, padded_matches_iff n t u)

length-truncate : (n : ℕ) (s : Bytes) → 0 < n → length (truncate n s) ≡ get_utf8_length n s
length-truncate n s h =
    omega (arith, length-take (get_utf8_length n s) s, get_utf8_length-bounds n s h)

key_equals-padded :
    (n : ℕ) (key : Bytes) (u : Bytes)
    → 0 < n
    → key_equals key (padded n u) ≡ (
        view_eq (take (length (truncate n key)) (padded n u)) (truncate n key)
        && (get_or (padded n u) (length (truncate n key)) 0 == 0))
unfolding key_equals
key_equals-padded n key u h = rw (length-padded n u, length-truncate n key h)

-- For keys with no NUL, a non-empty buffer that `copy_string` filled from one key equals another by
-- `key_equals` exactly when the two keys agree once both are truncated to the buffer.
pub key_equals-copy_string :
    (key stored dest : Bytes)
    → 0 < length dest
    → NulFree key
    → NulFree stored
    → (key_equals key (copy_string stored dest) ≡ true)
      ↔ (truncate (length dest) key ≡ truncate (length dest) stored)
key_equals-copy_string key stored dest h hk hs =
    let n = length dest in
    rw (copy_string-padded stored dest, key_equals-padded n key (truncate n stored) h)
      (padded_matches_iff n (truncate n key) (truncate n stored)
        (take-NulFree (get_utf8_length n key) key hk)
        (take-NulFree (get_utf8_length n stored) stored hs) (length-truncate-lt n key h)
        (length-truncate-lt n stored h))

-- A string at the start of a buffer, with a NUL behind it.
abbrev pub matches : Bytes → Bytes → Bool
matches t buffer = view_eq (take (length t) buffer) t && (get_or buffer (length t) 0 == 0)

pub key_equals-matches :
    (key buffer : Bytes)
    → 0 < length buffer
    → key_equals key buffer ≡ matches (truncate (length buffer) key) buffer
unfolding key_equals
key_equals-matches key buffer h = rw (length-truncate (length buffer) key h)

matches_unique :
    (t u buffer : Bytes)
    → NulFree t
    → NulFree u
    → matches t buffer ≡ true
    → matches u buffer ≡ true
    → t ≡ u
unfolding view_eq
matches_unique [] [] buffer ht hu mt mu = refl
matches_unique [] (y ∷ u) [] ht hu mt mu = cc
matches_unique [] (y ∷ u) (b ∷ buffer) ht hu mt mu = absurd (ground arith)
matches_unique (x ∷ t) u [] ht hu mt mu = cc
matches_unique (x ∷ t) [] (b ∷ buffer) ht hu mt mu = absurd (ground arith)
matches_unique (x ∷ t) (y ∷ u) (b ∷ buffer) ht hu mt mu = ground (arith, matches_unique t u buffer)

-- Two keys with no NUL that both equal one buffer agree once they are truncated to it.
pub key_equals_unique :
    (key other buffer : Bytes)
    → 0 < length buffer
    → NulFree key
    → NulFree other
    → key_equals key buffer ≡ true
    → key_equals other buffer ≡ true
    → truncate (length buffer) key ≡ truncate (length buffer) other
key_equals_unique key other buffer h hk ho e k =
    let n = length buffer in
    matches_unique (truncate n key) (truncate n other) buffer
      (take-NulFree (get_utf8_length n key) key hk)
      (take-NulFree (get_utf8_length n other) other ho) (rw (key_equals-matches key buffer h) at e)
      (rw (key_equals-matches other buffer h) at k)

padded-matches_self : (n : ℕ) (t : Bytes) → length t < n → matches t (padded n t) ≡ true
unfolding padded overwrite view_eq
padded-matches_self zero t h = elim h [ ]
padded-matches_self (suc n) [] h = refl
padded-matches_self (suc n) (x ∷ t) h = ground (arith, padded-matches_self n t)

-- A key equals the buffer that was filled from it, whatever bytes it has.
pub key_equals-copy_string_self :
    (key dest : Bytes) → 0 < length dest → key_equals key (copy_string key dest) ≡ true
key_equals-copy_string_self key dest h =
    let n = length dest in
    rw (copy_string-padded key dest, key_equals-padded n key (truncate n key) h)
      (padded-matches_self n (truncate n key) (length-truncate-lt n key h))
