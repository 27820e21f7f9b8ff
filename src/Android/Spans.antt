-- ===== src/Android/Spans.antt =====
-- src/android/android_span_data.cpp: spans and attributes between Java and the library. An object that
-- owns a local reference is destroyed where its scope ends.
pub mod Sent
pub mod Received
pub mod Clipped
use firebase_telemetry_persi.Common.{
  ℕ, zero, suc, ◌+◌, ◌-◌, ◌*◌, ◌/◌, ◌%◌, ◌^◌, Bool, true, false, Option, none, some, List, [], ◌∷◌,
  ◌++◌, Result, ok, if◌then◌else◌, length,
}
use firebase_telemetry_persi.CopyString.{Bytes}
use firebase_telemetry_persi.Span.{Span, AttributesList}
use firebase_telemetry_persi.Android.Java.{
  Jni, World, Java, Ref, SpanArgs, pure, ◌>>=◌, ◌>>◌, acquire, update, delete_local_ref,
}
use firebase_telemetry_persi.Android.Strings.{jstring_to_string}
use firebase_telemetry_persi.Android.LocalRef.{
  ManagedLocalRef, empty, managed, destroy, make_managed_jstring,
}
use firebase_telemetry_persi.Android.ClassCache.{SpanJClassCache, is_initialized}

abbrev pub max_span_name_len : ℕ
max_span_name_len = 64

abbrev pub max_attribute_key_len : ℕ
max_attribute_key_len = 64

abbrev pub max_attribute_val_len : ℕ
max_attribute_val_len = 128

-- A size or an index as a `jsize`, by its bit pattern.
abbrev pub jsize : ℕ → ℕ
jsize n = n % 2 ^ 32

-- `NewObjectArray`, with null in each place.
abbrev pub new_array : {J : Jni} → ℕ → Ref → Java J (Option Ref)
new_array {J} size class = acquire (J.new_object_array size class)

-- Both strings of a pair are stored, or none; the index after them.
unfoldable pub place_pair : {J : Jni} → Ref → ℕ → Option Ref → Option Ref → Java J ℕ
place_pair {J} array index (some jkey) (some jval) = do
  update (J.set_object_array_element array index jkey)
  update (J.set_object_array_element array (jsize (index + 1)) jval)
  pure (jsize (index + 2))
place_pair array index jkey jval = pure index

-- The loop of `create_jni_span_object`.
unfoldable pub place_attributes : {J : Jni} → Ref → ℕ → AttributesList → Java J (Unit {0})
unfolding make_managed_jstring destroy place_pair
place_attributes array index [] = pure tt
place_attributes array index ((key, val) ∷ rest) = do
  jkey ← make_managed_jstring max_attribute_key_len key
  jval ← make_managed_jstring max_attribute_val_len val
  index' ← place_pair array index jkey.value jval.value
  destroy jval
  destroy jkey
  place_attributes array index' rest

-- The arguments of the call in `create_jni_span_object`.
abbrev pub create_args : Span → Ref → Ref → SpanArgs
create_args span name attributes = record {
  trace_id_high = span.trace_id.high;
  trace_id_low = span.trace_id.low;
  span_id = span.span_id;
  parent_span_id = span.parent_span_id;
  start_time = span.start_time;
  name = name;
  attributes = attributes;
}

-- The part of `create_jni_span_object` that has the name and the array.
unfoldable pub call_create : {J : Jni} → Ref → ℕ → Span → Ref → Ref → Java J ManagedLocalRef
unfolding place_attributes
call_create {J} span_class span_create span name attributes = do
  place_attributes attributes 0 span.attributes
  object ←
      acquire
        (J.call_static_object_method span_class span_create (create_args span name attributes))
  pure (managed object)

-- The part of `create_jni_span_object` that has the name.
unfoldable pub with_name : {J : Jni} → Ref → Ref → ℕ → Span → Ref → Java J ManagedLocalRef
unfolding call_create destroy
with_name span_class string_class span_create span name = do
  array ← new_array (jsize (length span.attributes * 2)) string_class
  elim array [
    | none ↦ pure empty
    | some attributes ↦ do
      object ← call_create span_class span_create span name attributes
      destroy (managed (some attributes))
      pure object
  ]

unfoldable pub create_span : {J : Jni} → Ref → Ref → ℕ → Span → Java J ManagedLocalRef
unfolding make_managed_jstring with_name destroy
create_span span_class string_class span_create span = do
  name ← make_managed_jstring max_span_name_len span.name
  elim name.value [
    | none ↦ pure empty
    | some jname ↦ do
      object ← with_name span_class string_class span_create span jname
      destroy name
      pure object
  ]

-- The classes and the method of a cache, if it is initialised.
unfoldable pub classes_of : Bool → Option Ref → Option Ref → Option ℕ → Option (Ref × Ref × ℕ)
classes_of true (some c) (some d) (some m) = some (c, d, m)
classes_of vm c d m = none

abbrev pub classes : SpanJClassCache → Option (Ref × Ref × ℕ)
classes cache = classes_of cache.vm cache.span_class cache.string_class cache.span_create

unfoldable pub create_jni_span_object : {J : Jni} → SpanJClassCache → Span → Java J ManagedLocalRef
unfolding create_span
create_jni_span_object cache span = elim (classes cache) [
  | none ↦ pure empty
  | some (span_class, string_class, span_create) ↦
      create_span span_class string_class span_create span
]

-- A span that became an object is stored; the index after it.
unfoldable pub place_span : {J : Jni} → Ref → ℕ → Option Ref → Java J ℕ
place_span array i none = pure i
place_span {J} array i (some jspan) = do
  update (J.set_object_array_element array i jspan)
  pure (jsize (i + 1))

-- The loop of `create_jni_span_objects_array`.
unfoldable pub place_spans : {J : Jni} → SpanJClassCache → Ref → ℕ → List Span → Java J (Unit {0})
unfolding create_jni_span_object place_span destroy
place_spans cache array i [] = pure tt
place_spans cache array i (span ∷ rest) = do
  jspan ← create_jni_span_object cache span
  i' ← place_span array i jspan.value
  destroy jspan
  place_spans cache array i' rest

unfoldable pub create_jni_span_objects_array :
    {J : Jni} → SpanJClassCache → List Span → Java J (Option Ref)
unfolding place_spans
create_jni_span_objects_array cache spans = elim (classes cache) [
  | none ↦ pure none
  | some (span_class, _, _) ↦ do
    array ← new_array (jsize (length spans)) span_class
    elim array [ none ↦ pure none | some a ↦ do place_spans cache a 0 spans; pure (some a) ]
]

-- One round of the loop of `parse_jni_attributes`.
unfoldable pub parse_pair : {J : Jni} → Option Ref → Option Ref → Java J AttributesList
unfolding jstring_to_string
parse_pair (some jkey) (some jval) = do
  key ← jstring_to_string (some jkey) max_attribute_key_len
  val ← jstring_to_string (some jval) max_attribute_val_len
  pure ((key, val) ∷ [])
parse_pair jkey jval = pure []

-- The loop, with n rounds left.
unfoldable pub parse_pairs : {J : Jni} → Ref → ℕ → ℕ → Java J AttributesList
unfolding parse_pair destroy
parse_pairs array zero i = pure []
parse_pairs {J} array (suc n) i = do
  jkey ← acquire (J.get_object_array_element array (i - 1))
  jval ← acquire (J.get_object_array_element array i)
  attr ← parse_pair jkey jval
  destroy (managed jval)
  destroy (managed jkey)
  rest ← parse_pairs array n (i + 2)
  pure (attr ++ rest)

unfoldable pub parse_jni_attributes : {J : Jni} → Option Ref → Java J AttributesList
unfolding parse_pairs
parse_jni_attributes none w = ok ([], w)
parse_jni_attributes {J} (some attributes) w =
    parse_pairs attributes (J.get_array_length attributes w.state / 2) 1 w
