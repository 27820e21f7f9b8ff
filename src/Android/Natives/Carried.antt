-- ===== src/Android/Natives/Carried.antt =====
-- src/android/android_span_data.cpp: one call of a native method does what it is to the store.
use firebase_telemetry_persi.Android.Spans.Clipped.{parse_jni_attributes-Clipped}
use firebase_telemetry_persi.Android.Natives.Follows.{Translates, added, ended, put, span_with}
use firebase_telemetry_persi.Common.{
  ℕ, ◌+◌, ◌-◌, ◌^◌, ◌<◌, ◌≤◌, ◌≡◌, ◌∙◌, true, Option, some, Result, ok, arith, ne→==,
}
use firebase_telemetry_persi.CopyString.{Bytes}
use firebase_telemetry_persi.Layout.{MmapSize}
use firebase_telemetry_persi.Span.{make_span, AttributesList}
use firebase_telemetry_persi.MutableSpanData
use firebase_telemetry_persi.MutableSpanData.{MutableSpanData}
use firebase_telemetry_persi.MutableSpanData.History
use firebase_telemetry_persi.MutableSpanData.History.{run, Call, step, Sound, IsCall, step-Sound}
use firebase_telemetry_persi.Context.{Context, get_mutable_span_data}
use firebase_telemetry_persi.Android.Java.{Jni, Java, World, IsJava, Ref, ◌>>=◌, >>=-run}
use firebase_telemetry_persi.Android.Strings.{jstring_to_string}
use firebase_telemetry_persi.Android.Strings.Survive.{jstring_to_string_total}
use firebase_telemetry_persi.Android.ClassCache.{SpanJClassCache}
use firebase_telemetry_persi.Android.Spans.{
  parse_jni_attributes, max_span_name_len, max_attribute_key_len, max_attribute_val_len,
}
use firebase_telemetry_persi.Android.Natives.{
  NativeCall, recovers, adds, ends, sets, SpanIds, call_native, add_span, end_span,
  set_attribute_on_span, native, span_of,
}
use firebase_telemetry_persi.Android.Natives.Protocol.{IsMutation}

-- Java does not give the span id 0.
abbrev pub IsNative : NativeCall → Type 0
IsNative (adds ids name attributes) = 0 < ids.span_id
IsNative c = Unit {0}

-- A call that is carried out on a handle whose spans have been fetched.
abbrev Carried :
    {J : Jni} → SpanJClassCache → MmapSize → ℕ → Context → World J → NativeCall → Type 0
Carried cache size n c w call =
    (h : Call) × (m : MutableSpanData) × (w' : World _) × (call_native cache (some c) call w
      ≡ ok (some (record c { mutable_span_data = m }), w'))
    × Translates call h
    × IsCall h
    × (step c.mutable_span_data h ≡ ok m)
    × Sound size (n + 1) m

native-run :
    {J : Jni} {A B : Type 0} (m : Result A) (f : A → Java J B) (w : World J) {a : A}
    → m ≡ ok a
    → (native m >>= f) w ≡ f a w
native-run m f w e = rw (e, ◌>>=◌)

make_span_lem :
    (ids : SpanIds) (name : Bytes) (attributes : AttributesList)
    → 0 < ids.span_id
    → span_of ids name attributes ≡ ok (span_with ids name attributes)
unfolding make_span
make_span_lem ids name attributes h = rw (ne→== ids.span_id 0 (λ e. absurd (omega arith)))

pub weaken :
    (size : MmapSize) (k n : ℕ) (m : MutableSpanData) → k ≤ n → Sound size k m → Sound size n m
weaken size k n m le s = record {
  store = s.store;
  map = s.map;
  shape = s.shape;
  valid = s.valid;
  marks = omega (arith, s.marks);
}

-- The data of a handle whose spans have been fetched.
mutable_there :
    (c : Context)
    → c.is_recovered ≡ true
    → get_mutable_span_data (some c) ≡ some (c.mutable_span_data)
unfolding get_mutable_span_data
mutable_there c r = rw (r, get_mutable_span_data)

module _ {J : Jni} (laws : IsJava J) (cache : SpanJClassCache) (size : MmapSize) (n : ℕ)
    (c : Context) (w : World J) (r : c.is_recovered ≡ true) (s : Sound size n c.mutable_span_data)
    (bound : n < 2 ^ 64 - 1) where
  add_span-Carried :
      (ids : SpanIds) (name attributes : Option Ref)
      → 0 < ids.span_id
      → Carried cache size n c w (adds ids name attributes)
  unfolding step call_native add_span
  add_span-Carried ids name attributes h =
      let (name', read, short) = jstring_to_string_total laws name max_span_name_len w in
      let (attributes', w', parsed, clipped) = parse_jni_attributes-Clipped laws attributes w in
      let span = span_with ids name' attributes' in
      let (m, stored, s') = step-Sound size n c.mutable_span_data (History.adds span) s h bound in
      (
        History.adds span,
        m,
        w',
        rw (mutable_there c r, add_span)
            (>>=-run (jstring_to_string name max_span_name_len) _ w read
              ∙ >>=-run (parse_jni_attributes attributes) _ w parsed
              ∙ native-run (span_of ids name' attributes') _ w'
                  (make_span_lem ids name' attributes' h)
              ∙ native-run (MutableSpanData.add c.mutable_span_data span) _ w' stored),
        added name' attributes' short clipped,
        h,
        stored,
        s',
      )

  end_span-Carried : (now span_id : ℕ) → Carried cache size n c w (ends now span_id)
  unfolding step call_native end_span
  end_span-Carried now span_id =
      let (m, stored, s') =
        step-Sound size n c.mutable_span_data (History.ends now span_id 0) s tt bound in
      (
        History.ends now span_id 0,
        m,
        w,
        rw (mutable_there c r, end_span)
            (native-run (MutableSpanData.end now c.mutable_span_data span_id 0) _ w stored),
        ended,
        tt,
        stored,
        s',
      )

  set_attribute-Carried :
      (span_id : ℕ) (key value : Option Ref) → Carried cache size n c w (sets span_id key value)
  unfolding step call_native set_attribute_on_span
  set_attribute-Carried span_id key value =
      let (key', read, short) = jstring_to_string_total laws key max_attribute_key_len w in
      let (value', read', short') = jstring_to_string_total laws value max_attribute_val_len w in
      let (m, stored, s') =
        step-Sound size n c.mutable_span_data (History.sets span_id key' value') s tt bound in
      (
        History.sets span_id key' value',
        m,
        w,
        rw (mutable_there c r, set_attribute_on_span)
            (>>=-run (jstring_to_string key max_attribute_key_len) _ w read
              ∙ >>=-run (jstring_to_string value max_attribute_val_len) _ w read'
              ∙ native-run
                  (MutableSpanData.set_attribute_on_span c.mutable_span_data span_id key' value') _
                  w stored),
        put key' value' short short',
        tt,
        stored,
        s',
      )

  pub call_native-Carried :
      (call : NativeCall) → IsMutation call → IsNative call → Carried cache size n c w call
  call_native-Carried recovers a h = elim a [ ]
  call_native-Carried (adds ids name attributes) a h = add_span-Carried ids name attributes h
  call_native-Carried (ends now span_id) a h = end_span-Carried now span_id
  call_native-Carried (sets span_id key value) a h = set_attribute-Carried span_id key value
