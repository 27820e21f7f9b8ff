-- ===== src/Android/Spans/Sent.antt =====
-- The local references of `create_jni_span_objects_array`. Every path is covered, those included on
-- which the virtual machine gives a null pointer.
use firebase_telemetry_persi.Android.Spans.{
  jsize, place_pair, place_attributes, max_attribute_key_len, max_attribute_val_len,
  max_span_name_len, call_create, create_args, with_name, create_span, create_jni_span_object,
  place_span, place_spans, create_jni_span_objects_array, classes, new_array,
}
use firebase_telemetry_persi.Common.{
  ℕ, ◌+◌, ◌*◌, ◌≤◌, ◌≡◌, refl, Option, none, some, List, [], ◌∷◌, ok, arith, one_if, length,
}
use firebase_telemetry_persi.Span.{Span, AttributesList}
use firebase_telemetry_persi.Android.Java.{Jni, World, Ref, pure, ◌>>=◌, ◌>>◌, larger}
use firebase_telemetry_persi.Android.LocalRef.{ManagedLocalRef, empty, managed, destroy}
use firebase_telemetry_persi.Android.ClassCache.{SpanJClassCache}
use firebase_telemetry_persi.Android.References.{
  Ends, owned, owned-none, owned-le, Ends-pure, Ends-bind, Ends-acquire, Ends-update, Ends-destroy,
  Ends-keep, Ends-managed,
}

module _ {J : Jni} where
  Ends-place_pair :
      (d n : ℕ) (array : Ref) (index : ℕ) (jkey jval : Option Ref)
      → Ends {J = J} d n (λ _. n) (place_pair array index jkey jval)
  unfolding place_pair
  Ends-place_pair d n array index none jval = Ends-pure d n (λ _. n) index refl
  Ends-place_pair d n array index (some jkey) none = Ends-pure d n (λ _. n) index refl
  Ends-place_pair d n array index (some jkey) (some jval) =
      Ends-bind d n (λ _. n) (λ _. n) _ _
        (Ends-update d n (J.set_object_array_element array index jkey))
        (λ _.
          Ends-bind d n (λ _. n) (λ _. n) _ _
            (Ends-update d n (J.set_object_array_element array (jsize (index + 1)) jval))
            (λ _. Ends-pure d n (λ _. n) (jsize (index + 2)) refl))

  -- Two references at a time beside those from before, however many attributes there are.
  Ends-place_attributes :
      (d n : ℕ) (array : Ref) (index : ℕ) (attrs : AttributesList)
      → n + 2 ≤ d
      → Ends {J = J} d n (λ _. n) (place_attributes array index attrs)
  unfolding place_attributes
  Ends-place_attributes d n array index [] room = Ends-pure d n (λ _. n) tt refl
  Ends-place_attributes d n array index ((key, val) ∷ rest) room =
      Ends-bind d n (λ m. n + owned m) (λ _. n) _ _
        (Ends-managed d n max_attribute_key_len key (omega arith) (omega arith))
        (λ jkey.
          Ends-bind d (n + owned jkey) (λ m. n + owned jkey + owned m) (λ _. n) _ _
            (Ends-managed d (n + owned jkey) max_attribute_val_len val (omega arith)
              (omega (arith, owned-le jkey)))
            (λ jval.
              Ends-bind d (n + owned jkey + owned jval) (λ _. n + owned jkey + owned jval) (λ _. n)
                _ _
                (Ends-place_pair d (n + owned jkey + owned jval) array index jkey.value jval.value)
                (λ index'.
                  Ends-bind d (n + owned jkey + owned jval) (λ _. n + owned jkey) (λ _. n) _ _
                    (Ends-destroy d (n + owned jkey) jval)
                    (λ _.
                      Ends-bind d (n + owned jkey) (λ _. n) (λ _. n) _ _ (Ends-destroy d n jkey)
                        (λ _. Ends-place_attributes d n array index' rest room)))))

  -- The object is the only reference that is left.
  Ends-call_create :
      (d n : ℕ) (span_class : Ref) (span_create : ℕ) (span : Span) (name attributes : Ref)
      → n + 2 ≤ d
      → Ends {J = J} d n
          (λ m. n + owned m)
          (call_create span_class span_create span name attributes)
  unfolding call_create
  Ends-call_create d n span_class span_create span name attributes room =
      Ends-bind d n (λ _. n) _ _ _ (Ends-place_attributes d n attributes 0 span.attributes room)
        (λ _.
          Ends-bind d n (λ r. n + one_if r) _ _ _
            (Ends-acquire d n
              (J.call_static_object_method span_class span_create
                (create_args span name attributes))
              (omega arith))
            (λ r. Ends-pure d (n + one_if r) _ (managed r) refl))

  Ends-with_name :
      (d n : ℕ) (span_class string_class : Ref) (span_create : ℕ) (span : Span) (name : Ref)
      → n + 3 ≤ d
      → Ends {J = J} d n
          (λ m. n + owned m)
          (with_name span_class string_class span_create span name)
  unfolding with_name
  Ends-with_name d n span_class string_class span_create span name room =
      Ends-bind d n (λ r. n + one_if r) _ _ _
        (Ends-acquire d n (J.new_object_array (jsize (length span.attributes * 2)) string_class)
          (omega arith))
        at
    where
      at :
          (array : Option Ref)
          → Ends {J = J} d
              (n + one_if array)
              (λ m. n + owned m)
              (elim array [
                | none ↦ pure empty
                | some attributes ↦ do
                  object ← call_create span_class span_create span name attributes
                  destroy (managed (some attributes))
                  pure object
              ])
      at none = Ends-pure d (n + 0) _ empty refl
      at (some attributes) =
          Ends-bind d (n + 1) (λ m. n + 1 + owned m) _ _ _
            (Ends-call_create d (n + 1) span_class span_create span name attributes (omega arith))
            (Ends-keep d n (managed (some attributes)))

  Ends-create_span :
      (d n : ℕ) (span_class string_class : Ref) (span_create : ℕ) (span : Span)
      → n + 4 ≤ d
      → Ends {J = J} d n (λ m. n + owned m) (create_span span_class string_class span_create span)
  unfolding create_span
  Ends-create_span d n span_class string_class span_create span room =
      Ends-bind d n (λ m. n + owned m) _ _ _
        (Ends-managed d n max_span_name_len span.name (omega arith) (omega arith))
        (λ name. at name name.value refl)
    where
      at :
          (name : ManagedLocalRef) (value : Option Ref)
          → name.value ≡ value
          → Ends {J = J} d
              (n + owned name)
              (λ m. n + owned m)
              (elim value [
                | none ↦ pure empty
                | some jname ↦ do
                  object ← with_name span_class string_class span_create span jname
                  destroy name
                  pure object
              ])
      at name none e = Ends-pure d (n + owned name) _ empty (omega (arith, owned-none name e))
      at name (some jname) e =
          Ends-bind d (n + owned name) (λ m. n + owned name + owned m) _ _ _
            (Ends-with_name d (n + owned name) span_class string_class span_create span jname
              (omega (arith, owned-le name)))
            (Ends-keep d n name)

  Ends-create_jni_span_object :
      (d n : ℕ) (cache : SpanJClassCache) (span : Span)
      → n + 4 ≤ d
      → Ends {J = J} d n (λ m. n + owned m) (create_jni_span_object cache span)
  unfolding create_jni_span_object
  Ends-create_jni_span_object d n cache span room = at (classes cache)
    where
      at :
          (c : Option (Ref × Ref × ℕ))
          → Ends {J = J} d n
              (λ m. n + owned m)
              (elim c [
                | none ↦ pure empty
                | some (span_class, string_class, span_create) ↦
                    create_span span_class string_class span_create span
              ])
      at none = Ends-pure d n _ empty (omega arith)
      at (some (span_class, string_class, span_create)) =
          Ends-create_span d n span_class string_class span_create span room

  Ends-place_span :
      (d n : ℕ) (array : Ref) (i : ℕ) (jspan : Option Ref)
      → Ends {J = J} d n (λ _. n) (place_span array i jspan)
  unfolding place_span
  Ends-place_span d n array i none = Ends-pure d n (λ _. n) i refl
  Ends-place_span d n array i (some jspan) =
      Ends-bind d n (λ _. n) (λ _. n) _ _
        (Ends-update d n (J.set_object_array_element array i jspan))
        (λ _. Ends-pure d n (λ _. n) (jsize (i + 1)) refl)

  Ends-place_spans :
      (d n : ℕ) (cache : SpanJClassCache) (array : Ref) (i : ℕ) (spans : List Span)
      → n + 4 ≤ d
      → Ends {J = J} d n (λ _. n) (place_spans cache array i spans)
  unfolding place_spans
  Ends-place_spans d n cache array i [] room = Ends-pure d n (λ _. n) tt refl
  Ends-place_spans d n cache array i (span ∷ rest) room =
      Ends-bind d n (λ m. n + owned m) (λ _. n) _ _
        (Ends-create_jni_span_object d n cache span room)
        (λ jspan.
          Ends-bind d (n + owned jspan) (λ _. n + owned jspan) (λ _. n) _ _
            (Ends-place_span d (n + owned jspan) array i jspan.value)
            (λ i'.
              Ends-bind d (n + owned jspan) (λ _. n) (λ _. n) _ _ (Ends-destroy d n jspan)
                (λ _. Ends-place_spans d n cache array i' rest room)))

  Ends-create_jni_span_objects_array :
      (d n : ℕ) (cache : SpanJClassCache) (spans : List Span)
      → n + 5 ≤ d
      → Ends {J = J} d n (λ r. n + one_if r) (create_jni_span_objects_array cache spans)
  unfolding create_jni_span_objects_array
  Ends-create_jni_span_objects_array d n cache spans room = at (classes cache)
    where
      filled :
          (array : Option Ref)
          → Ends {J = J} {A = Option Ref} d
              (n + one_if array)
              (λ r. n + one_if r)
              (elim array [
                | none ↦ pure none
                | some a ↦ do place_spans cache a 0 spans; pure (some a)
              ])
      filled none = Ends-pure d (n + 0) _ none refl
      filled (some a) =
          Ends-bind d (n + 1) (λ _. n + 1) _ _ _
            (Ends-place_spans d (n + 1) cache a 0 spans (omega arith))
            (λ _. Ends-pure d (n + 1) _ (some a) refl)

      at :
          (c : Option (Ref × Ref × ℕ))
          → Ends {J = J} {A = Option Ref} d n
              (λ r. n + one_if r)
              (elim c [
                | none ↦ pure none
                | some (span_class, _, _) ↦ do
                  array ← new_array (jsize (length spans)) span_class
                  elim array [
                    | none ↦ pure none
                    | some a ↦ do place_spans cache a 0 spans; pure (some a)
                  ]
              ])
      at none = Ends-pure d n _ none (omega arith)
      at (some (span_class, _, _)) =
          Ends-bind d n (λ r. n + one_if r) _ _ _
            (Ends-acquire d n (J.new_object_array (jsize (length spans)) span_class) (omega arith))
            filled

-- Whatever the virtual machine answers, and whatever the spans hold: `create_jni_span_objects_array`
-- returns, the array that it returns is the only local reference it leaves, and while it runs it holds
-- at most five more than before, the array included, however many spans and attributes there are.
pub create_jni_span_objects_array_lem :
    {J : Jni} (cache : SpanJClassCache) (spans : List Span) (w : World J)
    → (array : Option Ref) × (w' : World J) × (create_jni_span_objects_array cache spans w
        ≡ ok (array, w'))
      × (w'.locals ≡ w.locals + one_if array)
      × (w'.peak ≤ larger w.peak (w.locals + 5))
create_jni_span_objects_array_lem cache spans w =
    Ends-create_jni_span_objects_array (larger w.peak (w.locals + 5)) w.locals cache spans
      (ground arith) w refl (ground arith)
