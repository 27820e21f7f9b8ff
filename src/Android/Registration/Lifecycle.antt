-- ===== src/Android/Registration/Lifecycle.antt =====
-- The references that loading and unloading the library take and give back.
use mathlib.Core.List.{append-nil}
use firebase_telemetry_persi.Common.{
  ◌≡◌, refl, sym, ap, ◌∙◌, subst, Bool, true, false, Option, none, some, List, [], ◌∷◌, ◌++◌, ok,
  Yields, Yields-bind, Bool-cases, inl, inr, if◌then◌else◌,
}
use firebase_telemetry_persi.Android.Java.{Ref}
use firebase_telemetry_persi.Android.ClassCache.{
  Event, takes_local, drops_local, SpanJClassCache, empty_cache, load, is_initialized, release,
  release_global, move_assign,
}
use firebase_telemetry_persi.Android.ClassCache.Ownership.{
  collect, global_taken, global_dropped, local_taken, local_dropped, collect-append, held, Builds,
  load-Builds, release-held,
}
use firebase_telemetry_persi.Android.Registration.{
  Machine, Loaded, cache_jni_globals, register_class, if_success, register_natives, on_load,
  on_unload,
}

-- The global references that were taken are those that were dropped and those that the cache holds;
-- local references are given back; after a success the cache is complete.
record Sound (l : Loaded) : Type 0 where
  globals : collect global_taken l.events ≡ collect global_dropped l.events ++ held l.cache
  locals : collect local_taken l.events ≡ collect local_dropped l.events
  attached : l.cache.vm ≡ false → held l.cache ≡ []
  ready : l.success ≡ true → is_initialized l.cache ≡ true

-- A class is looked up and its local reference given back.
register_class-Sound :
    (class : Option Ref) (registered : Bool) (l : Loaded)
    → l.success ≡ true
    → Sound l
    → Sound (register_class class registered l)
unfolding register_class
register_class-Sound none registered l h v = record {
  globals = v.globals;
  locals = v.locals;
  attached = v.attached;
  ready = λ k. cc;
}
register_class-Sound (some class) registered l h v =
    let es = takes_local class ∷ drops_local class ∷ [] in
    record {
      globals =
          collect-append global_taken l.events es
          ∙ append-nil (collect global_taken l.events)
          ∙ v.globals
          ∙ ap (λ rs. rs ++ held l.cache)
              (sym (
                collect-append global_dropped l.events es
                ∙ append-nil (collect global_dropped l.events)));
      locals =
          collect-append local_taken l.events es
          ∙ ap (λ rs. rs ++ (class ∷ [])) v.locals
          ∙ sym (collect-append local_dropped l.events es);
      attached = v.attached;
      ready = λ _. v.ready h;
    }

if_success-Sound :
    (before after : Loaded)
    → Sound before
    → (before.success ≡ true → Sound after)
    → Sound (if_success before after)
if_success-Sound before after v w = elim (Bool-cases before.success) [
  | inl e ↦ subst (λ b. Sound (if b then after else before)) (sym e) (w e)
  | inr e ↦ subst (λ b. Sound (if b then after else before)) (sym e) v
]

-- The two ways on from a cache that has been built.
kept-Sound :
    (es : List Event) (c : SpanJClassCache)
    → Builds es c
    → is_initialized c ≡ true
    → Sound (record { events = es ++ [] ++ []; success = true; cache = c })
kept-Sound es c v h =
    subst (λ xs. Sound (record { events = xs; success = true; cache = c }))
      (sym (append-nil (es ++ []) ∙ append-nil es))
      (record {
        globals = v.takes ∙ sym (ap (λ rs. rs ++ held c) v.drops);
        locals = v.locals;
        attached = v.attached;
        ready = λ _. h;
      })

dropped-Sound :
    (es : List Event) (c : SpanJClassCache)
    → Builds es c
    → Sound (record { events = es ++ (release true c).0; success = false; cache = empty_cache })
unfolding empty_cache
dropped-Sound es c v =
    let rs = (release true c).0 in
    let (dropped, taken, local_takes, local_drops) = release-held c v.attached in
    record {
      globals =
          collect-append global_taken es rs
          ∙ ap (λ xs. collect global_taken es ++ xs) taken
          ∙ append-nil (collect global_taken es)
          ∙ v.takes
          ∙ sym (
              append-nil (collect global_dropped (es ++ rs))
              ∙ collect-append global_dropped es rs
              ∙ ap (λ xs. xs ++ collect global_dropped rs) v.drops
              ∙ dropped);
      locals =
          collect-append local_taken es rs
          ∙ ap (λ xs. collect local_taken es ++ xs) (local_takes ∙ sym local_drops)
          ∙ ap (λ xs. xs ++ collect local_dropped rs) v.locals
          ∙ sym (collect-append local_dropped es rs);
      attached = λ _. refl;
      ready = λ k. cc;
    }

either-Sound :
    (b : Bool) (x y : Loaded) → (b ≡ true → Sound x) → Sound y → Sound (if b then x else y)
either-Sound true x y v w = v refl
either-Sound false x y v w = w

cache_jni_globals-Sound :
    (m : Machine) → m.get_env ≡ true → Yields Sound (cache_jni_globals m empty_cache)
unfolding cache_jni_globals empty_cache move_assign release release_global
cache_jni_globals-Sound m e =
    Yields-bind (λ (r : List Event × SpanJClassCache). Builds r.0 r.1) Sound (load m.lookup) _
      (load-Builds m.lookup)
      (λ r v. either-Sound (is_initialized r.1) _ _ (kept-Sound r.0 r.1 v) (
        subst
          (λ b.
            Sound
              (record { events = r.0 ++ (release b r.1).0; success = false; cache = empty_cache }))
          (sym e) (dropped-Sound r.0 r.1 v)))

register_natives-Sound :
    (m : Machine) → m.get_env ≡ true → Yields Sound (register_natives m empty_cache)
unfolding register_natives
register_natives-Sound m e =
    Yields-bind Sound Sound (cache_jni_globals m empty_cache) _ (cache_jni_globals-Sound m e)
      (λ cached v.
        let first = register_class m.persistence_class m.persistence_registered cached in
        let persistence = if_success cached first in
        let w : Sound persistence =
          if_success-Sound cached first v
            (λ h. register_class-Sound m.persistence_class m.persistence_registered cached h v) in
        let second = register_class m.mutable_class m.mutable_registered persistence in
        if_success-Sound persistence second w
          (λ h. register_class-Sound m.mutable_class m.mutable_registered persistence h w))

on_load-Sound : (m : Machine) → m.get_env ≡ true → Yields Sound (on_load m empty_cache)
unfolding on_load
on_load-Sound m e =
    let failed : Loaded = record { events = []; success = false; cache = empty_cache } in
    subst (λ b. Yields Sound (if b then register_natives m empty_cache else ok failed)) (sym e)
      (register_natives-Sound m e)

-- From an empty cache, and with an environment to be had: when `JNI_OnLoad` returns, whatever its
-- look-ups and registrations have answered, and the library is unloaded afterwards, then exactly the
-- global references that were taken are dropped, and exactly the local ones that were taken are
-- deleted, in the same order; and if `JNI_OnLoad` has succeeded, the cache is complete.
pub on_load-on_unload :
    (m : Machine) (l : Loaded)
    → m.get_env ≡ true
    → on_load m empty_cache ≡ ok l
    → let es = l.events ++ (on_unload true l.cache).0 in
      (collect global_taken es ≡ collect global_dropped es)
      × (collect local_taken es ≡ collect local_dropped es)
      × (l.success ≡ true → is_initialized l.cache ≡ true)
unfolding on_unload
on_load-on_unload m l e returns =
    let v : Sound l = subst (Yields Sound) returns (on_load-Sound m e) in
    let rs = (release true l.cache).0 in
    let (dropped, taken, local_takes, local_drops) = release-held l.cache v.attached in
    (
      collect-append global_taken l.events rs
          ∙ ap (λ xs. collect global_taken l.events ++ xs) taken
          ∙ append-nil (collect global_taken l.events)
          ∙ v.globals
          ∙ ap (λ xs. collect global_dropped l.events ++ xs) (sym dropped)
          ∙ sym (collect-append global_dropped l.events rs),
      collect-append local_taken l.events rs
          ∙ ap (λ xs. collect local_taken l.events ++ xs) (local_takes ∙ sym local_drops)
          ∙ ap (λ xs. xs ++ collect local_dropped rs) v.locals
          ∙ sym (collect-append local_dropped l.events rs),
      v.ready,
    )
