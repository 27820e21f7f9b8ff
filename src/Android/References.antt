-- ===== src/Android/References.antt =====
-- How many local references a piece of the binding holds at a time, and how many it leaves.
use firebase_telemetry_persi.Common.{
  Bool, true, false, if◌then◌else◌, ◌==◌, ℕ, ◌+◌, ◌-◌, ◌≤◌, ◌<◌, ◌≡◌, refl, sym, ◌∙◌, Option, none,
  some, [], ◌∷◌, ◌++◌, Result, ok, arith, one_if, length, ltb, Bool-cases, inl, inr, replicate,
  length-replicate,
}
use firebase_telemetry_persi.CopyString.{Bytes}
use firebase_telemetry_persi.CopyString.Buffers.{until_nul, truncate, c_str, c_str-copy_string}
use firebase_telemetry_persi.Android.Java.{
  Jni, World, Java, Ref, pure, ◌>>=◌, ◌>>◌, acquire, update, taken, delete_local_ref,
}
use firebase_telemetry_persi.Android.Strings.{bounded_chars, create_bounded_jstring}
use firebase_telemetry_persi.Android.LocalRef.{
  ManagedLocalRef, managed, destroy, make_managed_jstring,
}

-- The code runs to its end from n references, without ever holding more than d, and leaves as many as
-- `after` says of its result.
abbrev pub Ends : {J : Jni} {A : Type 0} → ℕ → ℕ → (A → ℕ) → Java J A → Type 0
Ends {J} {A} d n after m =
    (w : World J)
    → w.locals ≡ n
    → w.peak ≤ d
    → (a : A) × (w' : World J) × (m w ≡ ok (a, w')) × (w'.locals ≡ after a) × (w'.peak ≤ d)

pub one_if-le {ℓ} : {A : Type ℓ} (o : Option A) → one_if o ≤ 1
one_if-le none = omega arith
one_if-le (some a) = omega arith

c_str-append : (s : Bytes) → (chars : Bytes) × (c_str (s ++ (0 ∷ [])) ≡ ok chars)
unfolding c_str
c_str-append [] = ([], refl)
c_str-append (b ∷ s) =
    let (chars, e) = c_str-append s in
    elim (Bool-cases (b == 0)) [ inl z ↦ ([], rw z) | inr z ↦ (b ∷ chars, rw (z, e)) ]

pub bounded_chars_total :
    (n : ℕ) (s : Bytes) → 0 < n → (chars : Bytes) × (bounded_chars n s ≡ ok chars)
unfolding bounded_chars
bounded_chars_total n s h = elim (Bool-cases (ltb (length s) n)) [
  | inl short ↦ let (chars, e) = c_str-append s in (chars, rw (short, e))
  | inr long ↦
      let (read, _) =
        c_str-copy_string s (replicate n 0) (omega (arith, length-replicate {0} {A = ℕ} n 0)) in
      (until_nul (truncate (length {A = ℕ} (replicate n 0)) s), rw long read)
]

-- The reference that is deleted when the owner is destroyed.
abbrev pub owned : ManagedLocalRef → ℕ
owned m = if m.env then one_if m.value else 0

pub owned-none : (m : ManagedLocalRef) → m.value ≡ none → owned m ≡ 0
owned-none m e = elim (Bool-cases m.env) [ inl z ↦ rw (z, e) | inr z ↦ rw z ]

pub owned-le : (m : ManagedLocalRef) → owned m ≤ 1
owned-le m = at m.env m.value
  where
    at : (env : Bool) (value : Option Ref) → owned (record { env = env; value = value }) ≤ 1
    at true value = one_if-le value
    at false value = omega arith

module _ {J : Jni} where
  pub Ends-pure :
      {A : Type 0} (d n : ℕ) (after : A → ℕ) (a : A) → after a ≡ n → Ends {J = J} d n after (pure a)
  Ends-pure d n after a e w h p = (a, w, refl, h ∙ sym e, p)

  pub Ends-bind :
      {A B : Type 0} (d n : ℕ) (middle : A → ℕ) (after : B → ℕ) (m : Java J A) (f : A → Java J B)
      → Ends d n middle m
      → ((a : A) → Ends d (middle a) after (f a))
      → Ends d n after (m >>= f)
  Ends-bind d n middle after m f u v w h p =
      let (a, w', e, h', p') = u w h p in
      let (b, w'', e', h'', p'') = v a w' h' p' in (b, w'', rw (e, ◌>>=◌) e', h'', p'')

  pub Ends-acquire :
      (d n : ℕ) (call : J.State → Option Ref × J.State)
      → n + 1 ≤ d
      → Ends d n (λ r. n + one_if r) (acquire {J = J} call)
  Ends-acquire d n call h w e p = at (call w.state).0
    where
      at :
          (r : Option Ref)
          → (a : Option Ref) × (w' : World J) × (◌≡◌ {A = Result (Option Ref × World J)}
              (ok (r, taken r (call w.state).1 w))
              (ok (a, w')))
            × (w'.locals ≡ n + one_if a)
            × (w'.peak ≤ d)
      at none = (none, _, refl, omega arith, p)
      at (some r) = (some r, _, refl, omega arith, ground arith)

  pub Ends-update : (d n : ℕ) (call : J.State → J.State) → Ends {J = J} d n (λ _. n) (update call)
  Ends-update d n call w e p = (tt, record w { state = call w.state }, refl, e, p)

  pub Ends-destroy :
      (d n : ℕ) (m : ManagedLocalRef) → Ends {J = J} d (n + owned m) (λ _. n) (destroy m)
  unfolding destroy delete_local_ref
  Ends-destroy d n m = at m.env m.value
    where
      at :
          (env : Bool) (value : Option Ref)
          → Ends {J = J} d
              (n + owned (record { env = env; value = value }))
              (λ _. n)
              (destroy (record { env = env; value = value }))
      at false value w e p = (tt, w, refl, omega arith, p)
      at true none w e p = (tt, w, refl, omega arith, p)
      at true (some r) w e p = (tt, record w { locals = w.locals - 1 }, refl, omega arith, p)

  -- An owner is destroyed where its scope ends, after the object that is returned was made.
  pub Ends-keep :
      (d n : ℕ) (m object : ManagedLocalRef)
      → Ends {J = J} d (n + owned m + owned object) (λ o. n + owned o) (do destroy m; pure object)
  Ends-keep d n m object w h p =
      Ends-bind d (n + owned object + owned m) (λ _. n + owned object) _ _ _
        (Ends-destroy d (n + owned object) m) (λ _. Ends-pure d (n + owned object) _ object refl) w
        (h ∙ omega arith) p

  pub Ends-create :
      (d n max_len : ℕ) (value : Bytes)
      → 0 < max_len
      → n + 1 ≤ d
      → Ends {J = J} d n (λ r. n + one_if r) (create_bounded_jstring max_len value)
  unfolding create_bounded_jstring
  Ends-create d n max_len value pos room w h p =
      let (chars, e) = bounded_chars_total max_len value pos in
      let (r, w', e', h', p') = Ends-acquire d n (J.new_string_utf chars) room w h p in
      (r, w', rw (e, create_bounded_jstring) e', h', p')

  -- A string of Java is made from at least one byte of buffer.
  pub Ends-managed :
      (d n max_len : ℕ) (value : Bytes)
      → 0 < max_len
      → n + 1 ≤ d
      → Ends {J = J} d n (λ m. n + owned m) (make_managed_jstring max_len value)
  unfolding make_managed_jstring
  Ends-managed d n max_len value pos room =
      Ends-bind d n (λ r. n + one_if r) _ _ _ (Ends-create d n max_len value pos room)
        (λ r. Ends-pure d (n + one_if r) _ (managed r) refl)
