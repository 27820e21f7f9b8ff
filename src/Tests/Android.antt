-- ===== src/Tests/Android.antt =====
-- The theorems on the binding, with a concrete virtual machine.
use firebase_telemetry_persi.MutableSpanData.History.{Call, run, IsCall, Sound}
use firebase_telemetry_persi.Android.Natives.Follows.{Follows}
use firebase_telemetry_persi.Android.LocalRef.{destroy}
use firebase_telemetry_persi.Tests.Data.{request}
use firebase_telemetry_persi.Tests.Machine.{machine, machine-IsJava, heap, world, cache}
use firebase_telemetry_persi.Tests.Runs.{opened}
use firebase_telemetry_persi.Common.{
  All, ℕ, ◌+◌, ◌≤◌, ◌≡◌, refl, true, false, none, some, Option, List, [], ◌∷◌, ◌++◌, ok, arith,
  length, replicate, one_if,
}
use firebase_telemetry_persi.CopyString.{Bytes, copy_string}
use firebase_telemetry_persi.CopyString.Buffers.{until_nul, c_str, truncate}
use firebase_telemetry_persi.Layout.{small}
use firebase_telemetry_persi.Span.{AttributesList}
use firebase_telemetry_persi.MutableSpanData.{empty_map}
use firebase_telemetry_persi.Context.{Context, get_recovered_spans, get_mutable_span_data}
use firebase_telemetry_persi.Android.Java.{delete_local_ref, World, Ref, larger}
use firebase_telemetry_persi.Android.Strings.{copy_chars, jstring_to_string, bounded_chars}
use firebase_telemetry_persi.Android.Strings.Survive.{java_string_survives}
use firebase_telemetry_persi.Android.ClassCache.{
  release_global, release, move_assign, load_string, drops_local, takes_global, load, takes_local,
  Lookup, is_initialized,
}
use firebase_telemetry_persi.Android.ClassCache.Ownership.{
  collect, global_taken, global_dropped, local_taken, local_dropped,
}
use firebase_telemetry_persi.Android.Registration.{
  register_class, Machine, Loaded, on_load, on_unload, register_natives, cache_jni_globals,
}
use firebase_telemetry_persi.Android.Registration.Lifecycle.{on_load-on_unload}
use firebase_telemetry_persi.Android.Spans.{
  parse_pair, parse_pairs, create_jni_span_objects_array, parse_jni_attributes,
}
use firebase_telemetry_persi.Android.Spans.Sent.{create_jni_span_objects_array_lem}
use firebase_telemetry_persi.Android.Spans.Received.{parse_jni_attributes_lem}
use firebase_telemetry_persi.Android.Natives.{
  NativeCall, recovers, adds, ends, sets, SpanIds, call_natives, recover_spans_native,
  count_mutable_spans,
}
use firebase_telemetry_persi.Android.Natives.Protocol.{
  call_natives_before_recovery, recover_spans_native_lem,
}
use firebase_telemetry_persi.Android.Natives.Total.{call_natives_total}

create_jni_span_objects_array_lem_example :
    (array : Option Ref) × (w' : World machine) × (create_jni_span_objects_array cache
        (request 7 ∷ [])
        world
      ≡ ok (array, w'))
    × (w'.locals ≡ 0 + one_if array)
    × (w'.peak ≤ larger 0 (0 + 5))
create_jni_span_objects_array_lem_example =
    create_jni_span_objects_array_lem cache (request 7 ∷ []) world

parse_jni_attributes_lem_example :
    (attrs : AttributesList) × (w' : World machine) × (parse_jni_attributes (some 2) world
      ≡ ok (attrs, w'))
    × (w'.locals ≡ 0)
    × (w'.peak ≤ larger 0 (0 + 2))
parse_jni_attributes_lem_example = parse_jni_attributes_lem machine-IsJava (some 2) world

-- Two references are held at a time.
attributes_read :
    parse_jni_attributes (some 2) world
    ≡ ok ((105 ∷ 100 ∷ [], 57 ∷ []) ∷ [], record { state = heap; locals = 0; peak = 2 })
unfolding parse_jni_attributes parse_pairs parse_pair jstring_to_string copy_chars destroy
    delete_local_ref until_nul
attributes_read = refl

java_string_survives_example :
    (s : Bytes) × (jstring_to_string (some 0) 2 world ≡ ok (s, world))
    × (c_str (copy_string s (replicate 2 0)) ≡ ok (truncate 2 (105 ∷ 100 ∷ [])))
    × (bounded_chars 2 (truncate 2 (105 ∷ 100 ∷ [])) ≡ ok (truncate 2 (105 ∷ 100 ∷ [])))
unfolding until_nul
java_string_survives_example =
    java_string_survives machine-IsJava 0 world (105 ∷ 100 ∷ []) (replicate 2 0) refl (omega arith)

abbrev span_ids : ℕ → SpanIds
span_ids id = record {
  trace_id_high = 5;
  trace_id_low = 6;
  span_id = id;
  parent_span_id = 0;
  start_time = 100;
}

call_natives_before_recovery_example :
    (call_natives cache
        (some opened.context)
        (adds (span_ids 7) (some 0) (some 2) ∷ ends 200 7 ∷ [])
        world
      ≡ ok (some opened.context, world))
    × (count_mutable_spans (some opened.context) ≡ 0)
call_natives_before_recovery_example =
    call_natives_before_recovery cache (some opened.context)
      (adds (span_ids 7) (some 0) (some 2) ∷ ends 200 7 ∷ []) world opened.fresh.unfetched
      (tt, (tt, tt))

recover_spans_native_lem_example :
    (array : Option Ref) × (context' : Option Context) × (w' : World machine)
    × (recover_spans_native cache (some (opened.context)) world ≡ ok ((array, context'), w'))
    × (get_recovered_spans context' ≡ ([], context'))
    × (get_mutable_span_data context' ≡ some (opened.context.mutable_span_data))
recover_spans_native_lem_example = recover_spans_native_lem cache (some (opened.context)) world

opened-Sound : Sound small 0 opened.context.mutable_span_data
opened-Sound =
    let f = opened.fresh in
    record {
      store = f.store;
      map = empty_map;
      shape = f.shape;
      valid = f.valid;
      marks = omega (arith, f.unmarked);
    }

abbrev calls : List NativeCall
calls = recovers ∷ adds (span_ids 7) (some 0) (some 2) ∷ sets 7 none (some 1) ∷ ends 200 7 ∷ []

call_natives_total_example :
    (c' : Context) × (w' : World machine) × (hs : List Call) × (call_natives cache
        (some opened.context)
        calls
        world
      ≡ ok (some c', w'))
    × Follows opened.context.is_recovered calls hs
    × All IsCall hs
    × (run opened.context.mutable_span_data hs ≡ ok c'.mutable_span_data)
    × Sound small (0 + length calls) c'.mutable_span_data
call_natives_total_example =
    call_natives_total machine-IsJava cache small 0 opened.context calls world opened-Sound
      (tt, (omega arith, (tt, (tt, tt)))) (omega arith)

-- Every look-up succeeds but that of the second class with native methods.
abbrev lookup : Option Ref → Lookup
lookup global = record {
  env = true;
  java_vm = true;
  span_class = some 1;
  span_global = global;
  string_class = some 3;
  string_global = some 4;
  span_create = λ class. ok (some 5);
}

abbrev virtual_machine : Option Ref → Machine
virtual_machine global = record {
  get_env = true;
  lookup = lookup global;
  persistence_class = some 6;
  persistence_registered = true;
  mutable_class = none;
  mutable_registered = true;
}

abbrev half_loaded : Loaded
half_loaded = record {
  events =
      takes_local 1
      ∷ takes_global 2
      ∷ drops_local 1
      ∷ takes_local 3
      ∷ takes_global 4
      ∷ drops_local 3
      ∷ takes_local 6
      ∷ drops_local 6
      ∷ [];
  success = false;
  cache = record { vm = true; span_class = some 2; string_class = some 4; span_create = some 5 };
}

on_load-on_unload_example :
    let es = half_loaded.events ++ (on_unload true half_loaded.cache).0 in
    (collect global_taken es ≡ collect global_dropped es)
    × (collect local_taken es ≡ collect local_dropped es)
    × (false ≡ true → is_initialized half_loaded.cache ≡ true)
unfolding on_load register_natives cache_jni_globals register_class load load_string is_initialized
    move_assign release release_global
on_load-on_unload_example = on_load-on_unload (virtual_machine (some 2)) half_loaded refl refl
