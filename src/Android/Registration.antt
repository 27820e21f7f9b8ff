-- ===== src/Android/Registration.antt =====
-- src/android/android_span_data.cpp: what happens when the library is loaded and unloaded.
pub mod Lifecycle
use firebase_telemetry_persi.Common.{
  Bool, true, false, Option, none, some, List, [], ◌∷◌, ◌++◌, Result, ok, ◌>>=◌, if◌then◌else◌,
}
use firebase_telemetry_persi.Android.Java.{Ref}
use firebase_telemetry_persi.Android.ClassCache.{
  Event, takes_local, drops_local, SpanJClassCache, Lookup, load, is_initialized, release,
  move_assign,
}

-- The answers of the virtual machine: `GetEnv`, the look-ups of the cache, and for each of the two
-- classes with native methods what `FindClass` and `RegisterNatives` return.
pub record Machine : Type 0 where
  pub get_env : Bool
  pub lookup : Lookup
  pub persistence_class : Option Ref
  pub persistence_registered : Bool
  pub mutable_class : Option Ref
  pub mutable_registered : Bool

-- What a step has done: the events, whether it succeeded, and `g_span_cache`.
pub record Loaded : Type 0 where
  pub events : List Event
  pub success : Bool
  pub cache : SpanJClassCache

-- The cache that is built goes out of scope at the end, moved from or not.
unfoldable pub cache_jni_globals : Machine → SpanJClassCache → Result Loaded
unfolding load is_initialized release move_assign
cache_jni_globals m g_span_cache = do
  (events, span_cache) ← load m.lookup
  ok (
      if is_initialized span_cache
      then (let (moved, cache, rest) = move_assign m.get_env false g_span_cache span_cache in
          record {
            events = events ++ moved ++ (release m.get_env rest).0;
            success = true;
            cache = cache;
          })
      else record {
        events = events ++ (release m.get_env span_cache).0;
        success = false;
        cache = g_span_cache;
      })

-- One class with its table of methods.
unfoldable pub register_class : Option Ref → Bool → Loaded → Loaded
register_class none registered l = record l { success = false }
register_class (some class) registered l = record l {
  events = l.events ++ (takes_local class ∷ drops_local class ∷ []);
  success = registered;
}

abbrev pub if_success : Loaded → Loaded → Loaded
if_success before after = if before.success then after else before

unfoldable pub register_natives : Machine → SpanJClassCache → Result Loaded
unfolding cache_jni_globals register_class
register_natives m g_span_cache = do
  cached ← cache_jni_globals m g_span_cache
  let persistence =
      if_success cached (register_class m.persistence_class m.persistence_registered cached)
  ok (if_success persistence (register_class m.mutable_class m.mutable_registered persistence))

-- `success` tells `JNI_VERSION_1_6` from `JNI_ERR`.
unfoldable pub on_load : Machine → SpanJClassCache → Result Loaded
unfolding register_natives
on_load m g_span_cache =
    if m.get_env
    then register_natives m g_span_cache
    else ok (record { events = []; success = false; cache = g_span_cache })

unfoldable pub on_unload : Bool → SpanJClassCache → List Event × SpanJClassCache
unfolding release
on_unload get_env g_span_cache = release get_env g_span_cache
