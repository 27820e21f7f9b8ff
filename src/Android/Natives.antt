-- ===== src/Android/Natives.antt =====
-- src/android/android_span_data.cpp: the native methods. A `jlong` that is a handle is an `Option
-- Context`, with `none` for 0; what a method leaves of the context stands beside what it returns.
-- Other values of type `jlong` and `jint` are given as the `std::uint64_t` that the casts make of
-- them. `System` holds the answers of the operating system, which may depend on the path.
pub mod Protocol
pub mod Follows
pub mod Carried
pub mod Once
pub mod Total
use firebase_telemetry_persi.Common.{◌∷◌, [], ℕ, Option, none, some, List, Result, ok, fault}
use firebase_telemetry_persi.CopyString.{Bytes}
use firebase_telemetry_persi.Span.{make_span, AttributesList, Span}
use firebase_telemetry_persi.MutableSpanData
use firebase_telemetry_persi.MutableSpanData.{MutableSpanData}
use firebase_telemetry_persi.Context.{
  Context, get_recovered_spans, get_mutable_span_data, release_span_data,
}
use firebase_telemetry_persi.Initialize.{System, Call, initialize_span_data}
use firebase_telemetry_persi.Android.Java.{Jni, Java, Ref, pure, ◌>>=◌}
use firebase_telemetry_persi.Android.Strings.{jstring_to_string}
use firebase_telemetry_persi.Android.ClassCache.{SpanJClassCache}
use firebase_telemetry_persi.Android.Spans.{
  max_span_name_len, max_attribute_key_len, max_attribute_val_len, create_jni_span_objects_array,
  parse_jni_attributes,
}

abbrev pub max_file_path_len : ℕ
max_file_path_len = 4096

-- Code that calls no function of JNI.
abbrev pub native : {J : Jni} {A : Type 0} → Result A → Java J A
native (ok a) w = ok (a, w)
native (fault e) w = fault e

-- The context, and the system calls that were made.
unfoldable pub initialize_native :
    {J : Jni} → (Bytes → System) → Option Ref → ℕ → Java J (Option Context × List Call)
unfolding initialize_span_data jstring_to_string
initialize_native system none size_ordinal = pure (none, [])
initialize_native system (some file_path) size_ordinal = do
  path ← jstring_to_string (some file_path) max_file_path_len
  (calls, context) ← native (initialize_span_data (system path) size_ordinal)
  pure (context, calls)

unfoldable pub recover_spans_native :
    {J : Jni} → SpanJClassCache → Option Context → Java J (Option Ref × Option Context)
unfolding create_jni_span_objects_array get_recovered_spans
recover_spans_native cache context =
    let (recovered_spans, context') = get_recovered_spans context in
    (do array ← create_jni_span_objects_array cache recovered_spans; pure (array, context'))

-- What the local variable holds afterwards. The number that Java keeps does not change.
unfoldable pub shutdown_native : Option Context → Option Context
unfolding release_span_data
shutdown_native context = release_span_data context

-- The context whose mutable data a method has changed.
abbrev pub with_mutable : Option Context → MutableSpanData → Option Context
with_mutable none m = none
with_mutable (some c) m = some (record c { mutable_span_data = m })

-- The arguments of `add_span` that are numbers.
pub record SpanIds : Type 0 where
  pub trace_id_high : ℕ
  pub trace_id_low : ℕ
  pub span_id : ℕ
  pub parent_span_id : ℕ
  pub start_time : ℕ

-- The constructor call in `add_span`.
abbrev pub span_of : SpanIds → Bytes → AttributesList → Result Span
span_of ids name attributes =
    make_span (record { high = ids.trace_id_high; low = ids.trace_id_low }) ids.span_id
      ids.parent_span_id ids.start_time 0 name attributes

-- The order in which the two arguments are read is the compiler's choice; neither reading changes
-- anything that the other reads.
unfoldable pub add_span :
    {J : Jni} → Option Context → SpanIds → Option Ref → Option Ref → Java J (Option Context)
unfolding jstring_to_string parse_jni_attributes MutableSpanData.add make_span
add_span context ids name attributes = elim (get_mutable_span_data context) [
  | none ↦ pure context
  | some mutable_span_data ↦ do
    name' ← jstring_to_string name max_span_name_len
    attributes' ← parse_jni_attributes attributes
    span ← native (span_of ids name' attributes')
    m ← native (MutableSpanData.add mutable_span_data span)
    pure (with_mutable context m)
]

-- `end` with its default argument 0: the clock's time `now` is stored.
unfoldable pub end_span : {J : Jni} → ℕ → Option Context → ℕ → Java J (Option Context)
unfolding MutableSpanData.end
end_span now context span_id = elim (get_mutable_span_data context) [
  | none ↦ pure context
  | some mutable_span_data ↦ do
    m ← native (MutableSpanData.end now mutable_span_data span_id 0)
    pure (with_mutable context m)
]

unfoldable pub set_attribute_on_span :
    {J : Jni} → Option Context → ℕ → Option Ref → Option Ref → Java J (Option Context)
unfolding jstring_to_string MutableSpanData.set_attribute_on_span
set_attribute_on_span context span_id key value = elim (get_mutable_span_data context) [
  | none ↦ pure context
  | some mutable_span_data ↦ do
    key' ← jstring_to_string key max_attribute_key_len
    value' ← jstring_to_string value max_attribute_val_len
    m ← native (MutableSpanData.set_attribute_on_span mutable_span_data span_id key' value')
    pure (with_mutable context m)
]

unfoldable pub count_mutable_spans : Option Context → ℕ
unfolding MutableSpanData.count
count_mutable_spans context = elim (get_mutable_span_data context) [
  | none ↦ 0
  | some mutable_span_data ↦ MutableSpanData.count mutable_span_data
]

-- The methods that a `PersistenceContext` and a `MutationContext` call between `initialize_native`
-- and `shutdown_native`. `count_mutable_spans` changes nothing.
pub data NativeCall : Type 0 where
  recovers : NativeCall
  adds : SpanIds → Option Ref → Option Ref → NativeCall
  ends : ℕ → ℕ → NativeCall
  sets : ℕ → Option Ref → Option Ref → NativeCall

unfoldable pub call_native :
    {J : Jni} → SpanJClassCache → Option Context → NativeCall → Java J (Option Context)
unfolding recover_spans_native add_span end_span set_attribute_on_span
call_native cache context recovers = do
  (_, context') ← recover_spans_native cache context
  pure context'
call_native cache context (adds ids name attributes) = add_span context ids name attributes
call_native cache context (ends now span_id) = end_span now context span_id
call_native cache context (sets span_id key value) = set_attribute_on_span context span_id key value

unfoldable pub call_natives :
    {J : Jni} → SpanJClassCache → Option Context → List NativeCall → Java J (Option Context)
unfolding call_native
call_natives cache context [] = pure context
call_natives cache context (c ∷ cs) = do
  context' ← call_native cache context c
  call_natives cache context' cs
