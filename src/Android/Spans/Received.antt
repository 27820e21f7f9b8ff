-- ===== src/Android/Spans/Received.antt =====
-- The local references of `parse_jni_attributes`.
use firebase_telemetry_persi.Android.Strings.Survive.{jstring_to_string_total}
use firebase_telemetry_persi.Android.Spans.{parse_pair, parse_pairs, parse_jni_attributes}
use firebase_telemetry_persi.Common.{
  ℕ, zero, suc, ◌+◌, ◌-◌, ◌/◌, ◌≤◌, ◌≡◌, refl, Option, none, some, [], ◌++◌, ok, arith, one_if,
}
use firebase_telemetry_persi.Span.{AttributesList}
use firebase_telemetry_persi.Android.Java.{IsJava, Jni, World, Ref, larger}
use firebase_telemetry_persi.Android.Strings.{jstring_to_string}
use firebase_telemetry_persi.Android.LocalRef.{managed}
use firebase_telemetry_persi.Android.References.{
  Ends, one_if-le, Ends-pure, Ends-bind, Ends-acquire, Ends-destroy,
}

module _ {J : Jni} (laws : IsJava J) where
  Ends-jstring_to_string :
      (d n : ℕ) (r : Option Ref) (max_len : ℕ)
      → Ends {J = J} d n (λ _. n) (jstring_to_string r max_len)
  Ends-jstring_to_string d n src max_len w h p =
      let (s, e, _) = jstring_to_string_total laws src max_len w in (s, w, e, h, p)

  Ends-parse_pair :
      (d n : ℕ) (jkey jval : Option Ref) → Ends {J = J} d n (λ _. n) (parse_pair jkey jval)
  unfolding parse_pair
  Ends-parse_pair d n none jval = Ends-pure d n (λ _. n) [] refl
  Ends-parse_pair d n (some jkey) none = Ends-pure d n (λ _. n) [] refl
  Ends-parse_pair d n (some jkey) (some jval) =
      Ends-bind d n (λ _. n) (λ _. n) _ _ (Ends-jstring_to_string d n (some jkey) _)
        (λ key.
          Ends-bind d n (λ _. n) (λ _. n) _ _ (Ends-jstring_to_string d n (some jval) _)
            (λ val. Ends-pure d n (λ _. n) _ refl))

  Ends-parse_pairs :
      (d n : ℕ) (array : Ref) (rounds i : ℕ)
      → n + 2 ≤ d
      → Ends {J = J} d n (λ _. n) (parse_pairs array rounds i)
  unfolding parse_pairs
  Ends-parse_pairs d n array zero i room = Ends-pure d n (λ _. n) _ refl
  Ends-parse_pairs d n array (suc rounds) i room =
      Ends-bind d n (λ r. n + one_if r) (λ _. n) _ _
        (Ends-acquire d n (J.get_object_array_element array (i - 1)) (omega arith))
        (λ jkey.
          Ends-bind d (n + one_if jkey) (λ r. n + one_if jkey + one_if r) (λ _. n) _ _
            (Ends-acquire d (n + one_if jkey) (J.get_object_array_element array i)
              (omega (arith, one_if-le jkey)))
            (λ jval.
              Ends-bind d (n + one_if jkey + one_if jval) (λ _. n + one_if jkey + one_if jval)
                (λ _. n) _ _ (Ends-parse_pair d (n + one_if jkey + one_if jval) jkey jval)
                (λ attr.
                  Ends-bind d (n + one_if jkey + one_if jval) (λ _. n + one_if jkey) (λ _. n) _ _
                    (Ends-destroy d (n + one_if jkey) (managed jval))
                    (λ _.
                      Ends-bind d (n + one_if jkey) (λ _. n) (λ _. n) _ _
                        (Ends-destroy d n (managed jkey))
                        (λ _.
                          Ends-bind d n (λ _. n) (λ _. n) _ _
                            (Ends-parse_pairs d n array rounds (i + 2) room)
                            (λ rest. Ends-pure d n (λ _. n) (attr ++ rest) refl))))))

  Ends-parse_jni_attributes :
      (d n : ℕ) (attributes : Option Ref)
      → n + 2 ≤ d
      → Ends {J = J} d n (λ _. n) (parse_jni_attributes attributes)
  unfolding parse_jni_attributes
  Ends-parse_jni_attributes d n none room w = Ends-pure d n (λ _. n) [] refl w
  Ends-parse_jni_attributes d n (some a) room w =
      Ends-parse_pairs d n a (J.get_array_length a w.state / 2) 1 room w

-- Where `GetStringUTFLength` gives the number of bytes of a string: `parse_jni_attributes` returns for
-- every array that Java can hand it, null and null elements included, leaves no local reference, and
-- while it runs it holds at most two more than before, however long the array is.
pub parse_jni_attributes_lem :
    {J : Jni} (laws : IsJava J) (attributes : Option Ref) (w : World J)
    → (attrs : AttributesList) × (w' : World J) × (parse_jni_attributes attributes w
        ≡ ok (attrs, w'))
      × (w'.locals ≡ w.locals)
      × (w'.peak ≤ larger w.peak (w.locals + 2))
parse_jni_attributes_lem laws attributes w =
    Ends-parse_jni_attributes laws (larger w.peak (w.locals + 2)) w.locals attributes (ground arith)
      w refl (ground arith)
