-- ===== src/CopyString/Characters.antt =====
-- A string seen as its UTF-8 characters: the cut of `get_utf8_length` never splits one.
use firebase_telemetry_persi.Common.{
  ℕ, zero, suc, ◌+◌, ◌-◌, ◌≤◌, ◌<◌, ◌≡◌, refl, sym, subst, ap, ◌∙◌, inl, inr, true, false, arith,
  length, get_or, take, List, [], ◌∷◌, ◌++◌, All, length-append, leb, Bool-cases,
}
use firebase_telemetry_persi.CopyString.{Bytes, is_utf8_continuation_byte, get_utf8_length}
use firebase_telemetry_persi.CopyString.Length.{
  IsCut, get_utf8_length-bounds, get_utf8_length-IsCut,
}

-- A character: its first byte, which is no continuation byte, and its continuation bytes.
pub record Character : Type 0 where
  pub lead : ℕ
  pub rest : Bytes
  pub starts : is_utf8_continuation_byte lead ≡ false
  pub continues : All (λ b. is_utf8_continuation_byte b ≡ true) rest

unfoldable pub encode : List Character → Bytes
encode [] = []
encode (c ∷ cs) = c.lead ∷ (c.rest ++ encode cs)

get_or-append_left :
    (xs ys : Bytes) (i : ℕ)
    → i < length xs
    → All (λ b. is_utf8_continuation_byte b ≡ true) xs
    → is_utf8_continuation_byte (get_or (xs ++ ys) i 0) ≡ true
get_or-append_left [] ys i h a = elim h [ ]
get_or-append_left (x ∷ xs) ys zero h a = a.0
get_or-append_left (x ∷ xs) ys (suc i) h a = get_or-append_left xs ys i (omega arith) a.1

get_or-append_right : (xs ys : Bytes) (k : ℕ) → get_or (xs ++ ys) (length xs + k) 0 ≡ get_or ys k 0
get_or-append_right [] ys k = let e : 0 + k ≡ k = omega arith in rw e
get_or-append_right (x ∷ xs) ys k =
    let e : suc (length xs) + k ≡ suc (length xs + k) = omega arith in
    rw e (get_or-append_right xs ys k)

take-append_right : (xs ys : Bytes) (k : ℕ) → take (length xs + k) (xs ++ ys) ≡ xs ++ take k ys
take-append_right [] ys k = let e : 0 + k ≡ k = omega arith in rw e
take-append_right (x ∷ xs) ys k =
    let e : suc (length xs) + k ≡ suc (length xs + k) = omega arith in
    rw e (ap (◌∷◌ x) (take-append_right xs ys k))

-- A cut past the first character is a cut of what follows it.
IsCut-rest :
    (c : Character) (cs : List Character) (k : ℕ)
    → IsCut (encode (c ∷ cs)) (suc (length c.rest + k))
    → IsCut (encode cs) k
unfolding encode
IsCut-rest c cs k (inl e) = inl (omega (arith, length-append c.rest (encode cs)))
IsCut-rest c cs k (inr (inl e)) = absurd (omega arith)
IsCut-rest c cs k (inr (inr e)) = inr (inr (rw (get_or-append_right c.rest (encode cs) k) at e))

-- No cut lies inside a character.
not-IsCut_inside :
    (c : Character) (cs : List Character) (j : ℕ)
    → j < length c.rest
    → IsCut (encode (c ∷ cs)) (suc j)
    → ⊥
unfolding encode
not-IsCut_inside c cs j h (inl e) = omega (arith, length-append c.rest (encode cs))
not-IsCut_inside c cs j h (inr (inl e)) = omega arith
not-IsCut_inside c cs j h (inr (inr e)) = cc (get_or-append_left c.rest (encode cs) j h c.continues)

-- The first i bytes are the encoding of some first characters.
abbrev Prefix : List Character → ℕ → Type 0
Prefix cs i = (k : ℕ) × (take i (encode cs) ≡ encode (take k cs))

Prefix-cons :
    (c : Character) (cs : List Character) (k : ℕ)
    → Prefix cs k
    → Prefix (c ∷ cs) (suc (length c.rest + k))
unfolding encode
Prefix-cons c cs k (m, found) =
    (suc m, ap (◌∷◌ c.lead) (take-append_right c.rest (encode cs) k ∙ ap (◌++◌ c.rest) found))

IsCut-prefix :
    (cs : List Character) (i : ℕ) → i ≤ length (encode cs) → IsCut (encode cs) i → Prefix cs i
unfolding encode
IsCut-prefix cs zero h c = (0, refl)
IsCut-prefix [] (suc j) h c = absurd (omega arith)
IsCut-prefix (c ∷ cs) (suc j) h cut = elim (Bool-cases (leb (length c.rest) j)) [
  | inl past ↦
      let k = j - length c.rest in
      let e : j ≡ length c.rest + k = ground arith in
      subst (λ x. Prefix (c ∷ cs) (suc x)) (sym e)
        (Prefix-cons c cs k (
          IsCut-prefix cs k (omega (arith, length-append c.rest (encode cs)))
            (IsCut-rest c cs k (subst (λ x. IsCut (encode (c ∷ cs)) (suc x)) e cut))))
  | inr inside ↦ absurd (not-IsCut_inside c cs j (ground arith) cut)
]

-- Cut to a buffer of n > 0 bytes, the encoding of a list of characters is the encoding of some
-- first characters of the list: truncation never splits a multibyte character.
pub take-get_utf8_length-encode :
    (n : ℕ) (cs : List Character)
    → 0 < n
    → (k : ℕ) × (take (get_utf8_length n (encode cs)) (encode cs) ≡ encode (take k cs))
take-get_utf8_length-encode n cs h =
    IsCut-prefix cs (get_utf8_length n (encode cs)) (get_utf8_length-bounds n (encode cs) h).0
      (get_utf8_length-IsCut n (encode cs))
