-- ===== src/Android/Spans/Clipped.antt =====
-- The lengths of the strings that `parse_jni_attributes` reads.
use firebase_telemetry_persi.Common.{
  ℕ, zero, suc, ◌+◌, ◌-◌, ◌/◌, ◌≤◌, ◌≡◌, ◌∙◌, refl, Option, none, some, [], ◌∷◌, ◌++◌, ok, length,
  All, All-append,
}
use firebase_telemetry_persi.CopyString.{Bytes}
use firebase_telemetry_persi.Android.Java.{
  IsJava, Jni, World, Java, Ref, ◌>>=◌, >>=-run, acquire, delete_local_ref,
}
use firebase_telemetry_persi.Android.LocalRef.{managed, destroy}
use firebase_telemetry_persi.Android.Strings.{jstring_to_string}
use firebase_telemetry_persi.Android.Strings.Survive.{jstring_to_string_total}
use firebase_telemetry_persi.Android.Spans.{
  parse_pair, parse_pairs, parse_jni_attributes, max_attribute_key_len, max_attribute_val_len,
}

-- The code returns, with a result of the given kind.
abbrev Gives : {J : Jni} {A : Type 0} → (A → Type 0) → Java J A → Type 0
Gives {J} {A} P m = (w : World J) → (a : A) × (w' : World J) × (m w ≡ ok (a, w')) × P a

abbrev Any {ℓ} : {A : Type ℓ} → A → Type 0
Any a = Unit {0}

Gives-bind :
    {J : Jni} {A B : Type 0} (P : A → Type 0) (Q : B → Type 0) (m : Java J A) (f : A → Java J B)
    → Gives P m
    → ((a : A) → P a → Gives Q (f a))
    → Gives Q (m >>= f)
Gives-bind P Q m f before after w =
    let (a, w1, e, v) = before w in
    let (b, w2, k, q) = after a v w1 in (b, w2, >>=-run m f w e ∙ k, q)

Gives-destroy : {J : Jni} (r : Option Ref) → Gives {J = J} Any (destroy (managed r))
unfolding destroy delete_local_ref
Gives-destroy none w = (tt, w, refl, tt)
Gives-destroy (some r) w = (tt, _, refl, tt)

-- Keys of at most 64 bytes, and values of at most 128.
abbrev pub IsClipped : Bytes × Bytes → Type 0
IsClipped a = (length a.0 ≤ 64) × (length a.1 ≤ 128)

module _ {J : Jni} (laws : IsJava J) where
  Gives-jstring_to_string :
      (r : Option Ref) (max_len : ℕ)
      → Gives {J = J} (λ s. length s ≤ max_len) (jstring_to_string r max_len)
  Gives-jstring_to_string src max_len w =
      let (s, e, short) = jstring_to_string_total laws src max_len w in (s, w, e, short)

  parse_pair-Clipped :
      (jkey jval : Option Ref) → Gives {J = J} (All IsClipped) (parse_pair jkey jval)
  unfolding parse_pair
  parse_pair-Clipped none jval = λ w. ([], w, refl, tt)
  parse_pair-Clipped (some jkey) none = λ w. ([], w, refl, tt)
  parse_pair-Clipped (some jkey) (some jval) =
      Gives-bind _ (All IsClipped) _ _ (Gives-jstring_to_string (some jkey) max_attribute_key_len)
        (λ key short.
          Gives-bind _ (All IsClipped) _ _
            (Gives-jstring_to_string (some jval) max_attribute_val_len)
            (λ val short' w. ((key, val) ∷ [], w, refl, ((short, short'), tt))))

  parse_pairs-Clipped :
      (array : Ref) (rounds i : ℕ) → Gives {J = J} (All IsClipped) (parse_pairs array rounds i)
  unfolding parse_pairs
  parse_pairs-Clipped array zero i = λ w. ([], w, refl, tt)
  parse_pairs-Clipped array (suc rounds) i =
      Gives-bind Any (All IsClipped) (acquire (J.get_object_array_element array (i - 1))) _
        (λ w. (_, _, refl, tt))
        (λ jkey _.
          Gives-bind Any (All IsClipped) (acquire (J.get_object_array_element array i)) _
            (λ w. (_, _, refl, tt))
            (λ jval _.
              Gives-bind (All IsClipped) (All IsClipped) _ _ (parse_pair-Clipped jkey jval)
                (λ attr v. Gives-bind Any (All IsClipped) _ _ (Gives-destroy jval) (λ _ _.
                  Gives-bind Any (All IsClipped) _ _ (Gives-destroy jkey) (λ _ _.
                    Gives-bind (All IsClipped) (All IsClipped) _ _
                      (parse_pairs-Clipped array rounds (i + 2))
                      (λ rest v' w.
                        (attr ++ rest, w, refl, All-append IsClipped attr rest v v')))))))

  pub parse_jni_attributes-Clipped :
      (attributes : Option Ref) → Gives {J = J} (All IsClipped) (parse_jni_attributes attributes)
  unfolding parse_jni_attributes
  parse_jni_attributes-Clipped none w = ([], w, refl, tt)
  parse_jni_attributes-Clipped (some a) w =
      parse_pairs-Clipped a (J.get_array_length a w.state / 2) 1 w
