-- ===== src/Android/ClassCache/Ownership.antt =====
-- The global references that the cache holds, and what the events take and drop.
use mathlib.Core.List.{append_assoc}
use firebase_telemetry_persi.Common.{
  Result, Yields-bind, Yields-any, ℕ, ◌≡◌, refl, sym, ap, ◌∙◌, Bool, true, false, Option, none,
  some, List, [], ◌∷◌, ◌++◌, Yields, ◌&&◌,
}
use firebase_telemetry_persi.Android.Java.{Ref}
use firebase_telemetry_persi.Android.ClassCache.{
  keep_class, Event, takes_local, drops_local, takes_global, drops_global, SpanJClassCache,
  empty_cache, Lookup, load, load_string, release, release_global,
}

-- What a function on events gives over a list of them.
abbrev pub collect : (Event → List Ref) → List Event → List Ref
collect f [] = []
collect f (e ∷ es) = f e ++ collect f es

abbrev pub global_taken : Event → List Ref
global_taken (takes_global r) = r ∷ []
global_taken e = []

abbrev pub global_dropped : Event → List Ref
global_dropped (drops_global r) = r ∷ []
global_dropped e = []

abbrev pub local_taken : Event → List Ref
local_taken (takes_local r) = r ∷ []
local_taken e = []

abbrev pub local_dropped : Event → List Ref
local_dropped (drops_local r) = r ∷ []
local_dropped e = []

pub collect-append :
    (f : Event → List Ref) (xs ys : List Event)
    → collect f (xs ++ ys) ≡ collect f xs ++ collect f ys
collect-append f [] ys = refl
collect-append f (x ∷ xs) ys =
    ap (λ rs. f x ++ rs) (collect-append f xs ys)
    ∙ sym (append_assoc (f x) (collect f xs) (collect f ys))

abbrev pub as_list : Option Ref → List Ref
as_list none = []
as_list (some r) = r ∷ []

abbrev pub held : SpanJClassCache → List Ref
held c = as_list c.span_class ++ as_list c.string_class

-- Events that give the cache what it holds, drop nothing else, and delete each local reference that
-- they take. A cache without a machine holds nothing.
pub record Builds (es : List Event) (c : SpanJClassCache) : Type 0 where
  pub takes : collect global_taken es ≡ held c
  pub drops : collect global_dropped es ≡ []
  pub locals : collect local_taken es ≡ collect local_dropped es
  pub attached : c.vm ≡ false → held c ≡ []

abbrev pub answers :
    Bool
    → Bool
    → Option Ref
    → Option Ref
    → Option Ref
    → Option Ref
    → (Option Ref → Result (Option ℕ))
    → Lookup
answers env vm a b c d m = record {
  env = env;
  java_vm = vm;
  span_class = a;
  span_global = b;
  string_class = c;
  string_global = d;
  span_create = m;
}

-- Both classes were found.
two_classes-Builds :
    (x z : Ref) (b d : Option Ref) (m : Option ℕ)
    → Builds
        (keep_class x b ++ keep_class z d)
        (record { vm = true; span_class = b; string_class = d; span_create = m })
two_classes-Builds x z none none m = record {
  takes = refl;
  drops = refl;
  locals = refl;
  attached = λ h. cc;
}
two_classes-Builds x z none (some t) m = record {
  takes = refl;
  drops = refl;
  locals = refl;
  attached = λ h. cc;
}
two_classes-Builds x z (some y) none m = record {
  takes = refl;
  drops = refl;
  locals = refl;
  attached = λ h. cc;
}
two_classes-Builds x z (some y) (some t) m = record {
  takes = refl;
  drops = refl;
  locals = refl;
  attached = λ h. cc;
}

load-Builds_of :
    (env vm : Bool) (a b c d : Option Ref) (m : Option Ref → Result (Option ℕ))
    → Yields
        (λ (r : List Event × SpanJClassCache). Builds r.0 r.1)
        (load (answers env vm a b c d m))
unfolding load load_string empty_cache
load-Builds_of false vm a b c d m = record {
  takes = refl;
  drops = refl;
  locals = refl;
  attached = λ _. refl;
}
load-Builds_of true false a b c d m = record {
  takes = refl;
  drops = refl;
  locals = refl;
  attached = λ _. refl;
}
load-Builds_of true true none b c d m = record {
  takes = refl;
  drops = refl;
  locals = refl;
  attached = λ _. refl;
}
load-Builds_of true true (some x) none none d m = record {
  takes = refl;
  drops = refl;
  locals = refl;
  attached = λ _. refl;
}
load-Builds_of true true (some x) (some y) none d m = record {
  takes = refl;
  drops = refl;
  locals = refl;
  attached = λ h. cc;
}
load-Builds_of true true (some x) none (some z) d m =
    Yields-bind (λ _. Unit {0}) (λ (r : List Event × SpanJClassCache). Builds r.0 r.1) (m none) _
      (Yields-any _) (λ v _. two_classes-Builds x z none d v)
load-Builds_of true true (some x) (some y) (some z) d m =
    Yields-bind (λ _. Unit {0}) (λ (r : List Event × SpanJClassCache). Builds r.0 r.1) (m (some y))
      _ (Yields-any _) (λ v _. two_classes-Builds x z (some y) d v)

-- Whatever the machine answers, a constructor that returns has built such a cache.
pub load-Builds :
    (l : Lookup) → Yields (λ (r : List Event × SpanJClassCache). Builds r.0 r.1) (load l)
load-Builds l =
    load-Builds_of l.env l.java_vm l.span_class l.span_global l.string_class l.string_global
      l.span_create

-- With an environment, a release drops what the cache holds, and takes and drops nothing else.
pub release-held :
    (c : SpanJClassCache)
    → (c.vm ≡ false → held c ≡ [])
    → (collect global_dropped (release true c).0 ≡ held c)
      × (collect global_taken (release true c).0 ≡ [])
      × (collect local_taken (release true c).0 ≡ [])
      × (collect local_dropped (release true c).0 ≡ [])
unfolding release release_global
release-held c h = at c.vm c.span_class c.string_class h
  where
    at :
        (vm : Bool) (a b : Option Ref)
        → (vm ≡ false → as_list a ++ as_list b ≡ [])
        → let es = release_global (vm && true) a ++ release_global (vm && true) b in
          (collect global_dropped es ≡ as_list a ++ as_list b)
          × (collect global_taken es ≡ [])
          × (collect local_taken es ≡ [])
          × (collect local_dropped es ≡ [])
    at true none none k = (refl, refl, refl, refl)
    at true none (some b) k = (refl, refl, refl, refl)
    at true (some a) none k = (refl, refl, refl, refl)
    at true (some a) (some b) k = (refl, refl, refl, refl)
    at false none none k = (refl, refl, refl, refl)
    at false none (some b) k = absurd (cc (k refl))
    at false (some a) b k = absurd (cc (k refl))
