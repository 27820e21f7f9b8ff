-- ===== src/Android/ClassCache.antt =====
-- span_jclass_cache.h and src/android/span_jclass_cache.cpp: the classes and the method that the
-- binding looks up once. The references that the code is given and deletes are a list of events; what
-- the virtual machine answers is the record `Lookup`.
pub mod Ownership
use firebase_telemetry_persi.Common.{
  ℕ, ◌≡◌, Bool, true, false, ◌&&◌, not, Option, none, some, List, [], ◌∷◌, ◌++◌, Result, ok, fault,
  null_pointer, ◌>>=◌, if◌then◌else◌,
}
use firebase_telemetry_persi.Android.Java.{Ref}

pub data Event : Type 0 where
  takes_local drops_local : Ref → Event
  takes_global drops_global : Ref → Event

-- `vm` tells whether the pointer to the virtual machine is there.
pub record SpanJClassCache : Type 0 where
  pub vm : Bool
  pub span_class : Option Ref
  pub string_class : Option Ref
  pub span_create : Option ℕ

unfoldable pub empty_cache : SpanJClassCache
empty_cache = record { vm = false; span_class = none; string_class = none; span_create = none }

-- Whether the environment is there and `GetJavaVM` succeeds, and what `FindClass` and `NewGlobalRef`
-- give for the two classes. `span_create` is what `GetStaticMethodID` does with a class, which may be
-- null: what happens then is not documented, and it need not return.
pub record Lookup : Type 0 where
  pub env : Bool
  pub java_vm : Bool
  pub span_class : Option Ref
  pub span_global : Option Ref
  pub string_class : Option Ref
  pub string_global : Option Ref
  pub span_create : Option Ref → Result (Option ℕ)

abbrev pub takes_global? : Option Ref → List Event
takes_global? none = []
takes_global? (some r) = takes_global r ∷ []

-- `NewGlobalRef` of a class, whose local reference is deleted then.
abbrev pub keep_class : Ref → Option Ref → List Event
keep_class class global = takes_local class ∷ takes_global? global ++ (drops_local class ∷ [])

-- The constructor from the second look-up on.
unfoldable pub load_string : Lookup → List Event → Result (List Event × SpanJClassCache)
load_string l events = elim l.string_class [
  | none ↦ ok (
    events,
    record { vm = true; span_class = l.span_global; string_class = none; span_create = none },
  )
  | some class ↦ do
    span_create ← l.span_create l.span_global
    ok (
      events ++ keep_class class l.string_global,
      record {
        vm = true;
        span_class = l.span_global;
        string_class = l.string_global;
        span_create = span_create;
      },
    )
]

unfoldable pub load : Lookup → Result (List Event × SpanJClassCache)
unfolding load_string empty_cache
load l =
    if l.env && l.java_vm
    then elim l.span_class [
      | none ↦
          ok ([], record { vm = true; span_class = none; string_class = none; span_create = none })
      | some class ↦ load_string l (keep_class class l.span_global)
    ]
    else ok ([], empty_cache)

abbrev pub is_some {ℓ} : {A : Type ℓ} → Option A → Bool
is_some none = false
is_some (some a) = true

unfoldable pub is_initialized : SpanJClassCache → Bool
is_initialized c = c.vm && is_some c.span_class && is_some c.string_class && is_some c.span_create

unfoldable pub release_global : Bool → Option Ref → List Event
release_global env none = []
release_global env (some r) = if env then drops_global r ∷ [] else []

-- `get_env` tells whether `GetEnv` succeeds. The cache is empty afterwards.
unfoldable pub release : Bool → SpanJClassCache → List Event × SpanJClassCache
unfolding release_global empty_cache
release get_env c =
    let env = c.vm && get_env in
    (release_global env c.span_class ++ release_global env c.string_class, empty_cache)

unfoldable pub move_construct : SpanJClassCache → SpanJClassCache × SpanJClassCache
unfolding empty_cache
move_construct other = (
  record {
    vm = other.vm;
    span_class = other.span_class;
    string_class = other.string_class;
    span_create = other.span_create;
  },
  empty_cache,
)

-- `same` is the test `this == &other`.
unfoldable pub move_assign :
    Bool → Bool → SpanJClassCache → SpanJClassCache → List Event × SpanJClassCache × SpanJClassCache
unfolding release empty_cache
move_assign get_env same this other =
    if same then ([], this, other) else ((release get_env this).0, other, empty_cache)
