-- ===== src/RawSpanData/Survivors.antt =====
-- What an interrupted `remove` leaves of a list: all elements but one, and no other.
use firebase_telemetry_persi.Common.{
  ℕ, zero, suc, ◌≤◌, ◌<◌, ◌≡◌, ◌≢◌, refl, sym, ap, subst, ◌∙◌, inl, inr, some, List, [], ◌∷◌, arith,
  length, get_elem?, get_elem?-lt, get_elem?-take, get_elem?-set_ne, get_elem?-set_self, set, take,
  length-set, length-take, Bool-cases, ◌==◌, ==→eq, ==_false→ne,
}
use firebase_telemetry_persi.Layout.{RawSpan}
use firebase_telemetry_persi.RawSpanData.Recoverable.{erase_at}
use firebase_telemetry_persi.RawSpanData.CrashRemove.{Removal}

-- Every element of xs but the one at i is in ys, each element of ys is in xs, and ys is no longer.
pub record Survives {ℓ} {A : Type ℓ} (xs : List A) (i : ℕ) (ys : List A) : Type ℓ where
  pub forth :
      (j : ℕ) (a : A) → get_elem? xs j ≡ some a → i ≢ j → (k : ℕ) × (get_elem? ys k ≡ some a)
  pub back : (k : ℕ) (a : A) → get_elem? ys k ≡ some a → (j : ℕ) × (get_elem? xs j ≡ some a)
  pub shorter : length ys ≤ length xs

module _ {ℓ} {A : Type ℓ} where
  erase_at_forth :
      (xs : List A) (i j : ℕ) (a : A)
      → get_elem? xs j ≡ some a
      → i ≢ j
      → (k : ℕ) × (get_elem? (erase_at xs i) k ≡ some a)
  unfolding erase_at
  erase_at_forth [] i j a h ne = absurd (cc)
  erase_at_forth (x ∷ xs) zero zero a h ne = absurd (ne refl)
  erase_at_forth (x ∷ xs) zero (suc j) a h ne = (j, h)
  erase_at_forth (x ∷ xs) (suc i) zero a h ne = (0, h)
  erase_at_forth (x ∷ xs) (suc i) (suc j) a h ne =
      let (k, e) = erase_at_forth xs i j a h (λ e. ne (ap suc e)) in (suc k, e)

  erase_at_back :
      (xs : List A) (i k : ℕ) (a : A)
      → get_elem? (erase_at xs i) k ≡ some a
      → (j : ℕ) × (get_elem? xs j ≡ some a)
  unfolding erase_at
  erase_at_back [] i k a h = absurd (cc)
  erase_at_back (x ∷ xs) zero k a h = (suc k, h)
  erase_at_back (x ∷ xs) (suc i) zero a h = (0, h)
  erase_at_back (x ∷ xs) (suc i) (suc k) a h = let (j, e) = erase_at_back xs i k a h in (suc j, e)

  length-erase_at : (xs : List A) (i : ℕ) → length (erase_at xs i) ≤ length xs
  unfolding erase_at
  length-erase_at [] i = omega arith
  length-erase_at (x ∷ xs) zero = omega arith
  length-erase_at (x ∷ xs) (suc i) = omega (arith, length-erase_at xs i)

  take_back :
      (n : ℕ) (xs : List A) (k : ℕ) (a : A)
      → get_elem? (take n xs) k ≡ some a
      → get_elem? xs k ≡ some a
  take_back zero xs k a h = absurd (cc)
  take_back (suc n) [] k a h = absurd (cc)
  take_back (suc n) (x ∷ xs) zero a h = h
  take_back (suc n) (x ∷ xs) (suc k) a h = take_back n xs k a h

  -- The last element, which is at n, is written over the one at i.
  module _ (xs : List A) (i n : ℕ) (moved : A) (h : i ≤ n) (size : length xs ≡ suc n)
      (at_n : get_elem? xs n ≡ some moved) where
    set_back :
        (k : ℕ) (a : A)
        → get_elem? (set xs i moved) k ≡ some a
        → (j : ℕ) × (get_elem? xs j ≡ some a)
    set_back k a e = elim (Bool-cases (i == k)) [
      | inl here ↦
          let there : get_elem? (set xs i moved) k ≡ some moved =
            subst (λ z. get_elem? (set xs i moved) z ≡ some moved) (==→eq i k here)
              (get_elem?-set_self xs i moved (omega arith)) in
          (n, at_n ∙ sym there ∙ e)
      | inr there ↦ (k, sym (get_elem?-set_ne xs i k moved (==_false→ne i k there)) ∙ e)
    ]

    set-Survives : Survives xs i (set xs i moved)
    set-Survives = record {
      forth = λ j a e ne. (j, get_elem?-set_ne xs i j moved ne ∙ e);
      back = set_back;
      shorter = omega (arith, length-set xs i moved);
    }

    take-set_forth :
        (j : ℕ) (a : A)
        → get_elem? xs j ≡ some a
        → i ≢ j
        → (k : ℕ) × (get_elem? (take n (set xs i moved)) k ≡ some a)
    take-set_forth j a e ne = elim (Bool-cases (n == j)) [
      | inl last ↦
          let last : n ≡ j = ==→eq n j last in
          let same : moved ≡ a = ground arith in
          let inside : i < n = omega (arith, ne) in
          (
            i,
            get_elem?-take n (set xs i moved) i inside
                ∙ get_elem?-set_self xs i moved (omega arith)
                ∙ ap some same,
          )
      | inr before ↦
          let inside : j < n = omega (arith, get_elem?-lt xs j a e, ==_false→ne n j before) in
          (j, get_elem?-take n (set xs i moved) j inside ∙ get_elem?-set_ne xs i j moved ne ∙ e)
    ]

    take-set-Survives : Survives xs i (take n (set xs i moved))
    take-set-Survives = record {
      forth = take-set_forth;
      back = λ k a e. set_back k a (take_back n (set xs i moved) k a e);
      shorter = omega (arith, length-take n (set xs i moved), length-set xs i moved);
    }

-- In each of the cases that a crash can leave, all spans but the one at i survive.
pub Removal-Survives :
    (rs : List RawSpan) (i n : ℕ) (moved : RawSpan) (found : List RawSpan)
    → i ≤ n
    → length rs ≡ suc n
    → get_elem? rs n ≡ some moved
    → Removal rs i n moved found
    → Survives rs i found
Removal-Survives rs i n moved found h size at_n removal = elim removal [
  | inl e ↦
      subst (Survives rs i) (sym e)
        (record { forth = λ j a k ne. (j, k); back = λ j a k. (j, k); shorter = omega arith })
  | inr (inl e) ↦ subst (Survives rs i) (sym e) (record {
    forth = λ j a k ne. erase_at_forth rs i j a k ne;
    back = λ k a e. erase_at_back rs i k a e;
    shorter = length-erase_at rs i;
  })
  | inr (inr (inl e)) ↦ subst (Survives rs i) (sym e) (set-Survives rs i n moved h size at_n)
  | inr (inr (inr e)) ↦ subst (Survives rs i) (sym e) (take-set-Survives rs i n moved h size at_n)
]
