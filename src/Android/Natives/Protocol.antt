-- ===== src/Android/Natives/Protocol.antt =====
-- src/android/android_span_data.cpp: sequences of calls of the native methods.
use firebase_telemetry_persi.Common.{
  Bool, false, ◌≡◌, refl, ◌∙◌, true, Option, none, some, List, [], ◌∷◌, ok, All,
}
use firebase_telemetry_persi.Context.{
  Context, get_recovered_spans, get_mutable_span_data, take_recovered_spans,
}
use firebase_telemetry_persi.Android.Java.{>>=-run, Jni, World, Ref}
use firebase_telemetry_persi.Android.ClassCache.{SpanJClassCache}
use firebase_telemetry_persi.Android.Spans.{create_jni_span_objects_array}
use firebase_telemetry_persi.Android.Spans.Sent.{create_jni_span_objects_array_lem}
use firebase_telemetry_persi.Android.Natives.{
  MutableSpanData, Span, NativeCall, recovers, adds, ends, sets, call_native, call_natives,
  recover_spans_native, add_span, end_span, set_attribute_on_span, count_mutable_spans,
}

-- A call other than that of `recover_spans_native`.
abbrev pub IsMutation : NativeCall → Type 0
IsMutation recovers = ⊥
IsMutation c = Unit {0}

pub mutation_before_recovery :
    {J : Jni} (cache : SpanJClassCache) (context : Option Context) (c : NativeCall) (w : World J)
    → get_mutable_span_data context ≡ none
    → IsMutation c
    → call_native cache context c w ≡ ok (context, w)
unfolding call_native add_span end_span set_attribute_on_span
mutation_before_recovery cache context recovers w e h = elim h [ ]
mutation_before_recovery cache context (adds ids name attributes) w e h = rw (e, add_span)
mutation_before_recovery cache context (ends now span_id) w e h = rw (e, end_span)
mutation_before_recovery cache context (sets span_id key value) w e h =
    rw (e, set_attribute_on_span)

-- A handle that is null, or whose recovered spans have not been fetched.
abbrev pub IsUnfetched : Option Context → Type 0
IsUnfetched none = Unit {0}
IsUnfetched (some c) = c.is_recovered ≡ false

pub IsUnfetched-get_mutable_span_data :
    (context : Option Context) → IsUnfetched context → get_mutable_span_data context ≡ none
unfolding get_mutable_span_data
IsUnfetched-get_mutable_span_data none v = refl
IsUnfetched-get_mutable_span_data (some c) v = rw (v, get_mutable_span_data)

-- On a handle that is null, or whose recovered spans have not been fetched, a sequence of calls that
-- add, end or change spans changes nothing and calls nothing of the virtual machine; the count is 0.
pub call_natives_before_recovery :
    {J : Jni} (cache : SpanJClassCache) (context : Option Context) (cs : List NativeCall)
    (w : World J)
    → IsUnfetched context
    → All IsMutation cs
    → (call_natives cache context cs w ≡ ok (context, w)) × (count_mutable_spans context ≡ 0)
unfolding call_natives count_mutable_spans
call_natives_before_recovery cache context [] w v h =
    (refl, rw (IsUnfetched-get_mutable_span_data context v, count_mutable_spans))
call_natives_before_recovery cache context (c ∷ cs) w v h =
    let (rest, zero) = call_natives_before_recovery cache context cs w v h.1 in
    let e = IsUnfetched-get_mutable_span_data context v in
    (
      >>=-run (call_native cache context c) _ w (mutation_before_recovery cache context c w e h.0)
          ∙ rest,
      zero,
    )

pub recover_spans_native_run :
    {J : Jni} (cache : SpanJClassCache) (context : Option Context) (w : World J)
    → (array : Option Ref) × (w' : World J) × (recover_spans_native cache context w
        ≡ ok ((array, (get_recovered_spans context).1), w'))
unfolding recover_spans_native
recover_spans_native_run cache context w =
    let spans = (get_recovered_spans context).0 in
    let (array, w', e, _, _) = create_jni_span_objects_array_lem cache spans w in
    (array, w', >>=-run (create_jni_span_objects_array cache spans) _ w e)

-- What is left of a handle whose spans have been fetched.
abbrev Fetched : Option Context → Type 0
Fetched context =
    let context' = (get_recovered_spans context).1 in
    (get_recovered_spans context' ≡ ([], context'))
    × (get_mutable_span_data context'
        ≡ elim context [ none ↦ none | some c ↦ some (c.mutable_span_data) ])

fetched : (context : Option Context) → Fetched context
unfolding get_recovered_spans get_mutable_span_data take_recovered_spans
fetched none = (refl, refl)
fetched (some c) = at c.recovered_spans c.is_recovered c.mutable_span_data
  where
    at :
        (spans : List Span) (is_recovered : Bool) (m : MutableSpanData)
        → Fetched (
            some (record {
              recovered_spans = spans;
              is_recovered = is_recovered;
              mutable_span_data = m;
            }))
    at spans true m = (refl, refl)
    at spans false m = (refl, refl)

-- Whatever the virtual machine answers, `recover_spans_native` returns: from then on the handle has
-- no spans to be recovered, also where the array could not be made and Java gets null, and the mutable
-- data is there, unchanged, unless the handle is null.
pub recover_spans_native_lem :
    {J : Jni} (cache : SpanJClassCache) (context : Option Context) (w : World J)
    → (array : Option Ref) × (context' : Option Context) × (w' : World J) × (recover_spans_native
          cache context w
        ≡ ok ((array, context'), w'))
      × (get_recovered_spans context' ≡ ([], context'))
      × (get_mutable_span_data context'
          ≡ elim context [ none ↦ none | some c ↦ some (c.mutable_span_data) ])
recover_spans_native_lem cache context w =
    let (array, w', e) = recover_spans_native_run cache context w in
    let (once, there) = fetched context in
    (array, (get_recovered_spans context).1, w', e, once, there)
