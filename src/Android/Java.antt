-- ===== src/Android/Java.antt =====
-- The functions of JNI that the binding calls. They are code of the virtual machine, so a `Jni` is a
-- parameter; a `none` is the null pointer. Code that calls them runs on a `World`, which beside the
-- machine's state has the number of local references that this code has been given and has not yet
-- deleted, and the greatest such number so far: the machine's table of local references is small.
use firebase_telemetry_persi.Common.{
  ℕ, ◌+◌, ◌-◌, Option, none, some, Result, ok, fault, ltb, length, ◌≡◌, if◌then◌else◌,
}
use firebase_telemetry_persi.CopyString.{Bytes}
use firebase_telemetry_persi.CopyString.Buffers.{NulFree}

-- References, classes and methods are numbers that tell them apart.
abbrev pub Ref : Type 0
Ref = ℕ

-- The arguments of `Span.createRecoveredSpan`.
pub record SpanArgs : Type 0 where
  pub trace_id_high : ℕ
  pub trace_id_low : ℕ
  pub span_id : ℕ
  pub parent_span_id : ℕ
  pub start_time : ℕ
  pub name : Ref
  pub attributes : Ref

pub record Jni : Type 1 where
  pub State : Type 0
  pub new_string_utf : Bytes → State → Option Ref × State
  -- The bytes in modified UTF-8, without the NUL that ends them.
  pub get_string_utf_chars : Ref → State → Option Bytes
  -- `none` is a negative result.
  pub get_string_utf_length : Ref → State → Option ℕ
  pub new_object_array : ℕ → Ref → State → Option Ref × State
  pub get_array_length : Ref → State → ℕ
  pub get_object_array_element : Ref → ℕ → State → Option Ref × State
  pub set_object_array_element : Ref → ℕ → Ref → State → State
  pub call_static_object_method : Ref → ℕ → SpanArgs → State → Option Ref × State

-- What the documentation of JNI says of the characters of a string: `GetStringUTFLength` gives the
-- number of its bytes in modified UTF-8, and modified UTF-8 has no zero byte.
pub record IsJava (J : Jni) : Type 0 where
  pub utf_length :
      (r : Ref) (s : J.State) (chars : Bytes)
      → J.get_string_utf_chars r s ≡ some chars
      → J.get_string_utf_length r s ≡ some (length chars)
  pub nul_free :
      (r : Ref) (s : J.State) (chars : Bytes)
      → J.get_string_utf_chars r s ≡ some chars
      → NulFree chars

pub record World (J : Jni) : Type 0 where
  pub state : J.State
  pub locals : ℕ
  pub peak : ℕ

abbrev pub Java : Jni → Type 0 → Type 0
Java J A = World J → Result (A × World J)

abbrev pub pure : {J : Jni} {A : Type 0} → A → Java J A
pure a w = ok (a, w)

infixl 5 ◌>>=◌ ◌>>◌
abbrev pub ◌>>=◌ : {J : Jni} {A B : Type 0} → Java J A → (A → Java J B) → Java J B
◌>>=◌ m f w = elim (m w) [ ok (a, w') ↦ f a w' | fault e ↦ fault e ]

abbrev pub ◌>>◌ : {J : Jni} {A B : Type 0} → Java J A → Java J B → Java J B
m >> k = m >>= λ _. k

abbrev pub larger : ℕ → ℕ → ℕ
larger a b = if ltb a b then b else a

-- The world after a call that has given a local reference, unless it is null.
abbrev pub taken : {J : Jni} → Option Ref → J.State → World J → World J
taken none s w = record w { state = s }
taken (some r) s w = record {
  state = s;
  locals = w.locals + 1;
  peak = larger w.peak (w.locals + 1);
}

abbrev pub acquire : {J : Jni} → (J.State → Option Ref × J.State) → Java J (Option Ref)
acquire call w = let (r, s) = call w.state in ok (r, taken r s w)

-- A call that gives none.
abbrev pub update : {J : Jni} → (J.State → J.State) → Java J (Unit {0})
update call w = ok (tt, record w { state = call w.state })

-- `DeleteLocalRef`
unfoldable pub delete_local_ref : {J : Jni} → Ref → Java J (Unit {0})
delete_local_ref r w = ok (tt, record w { locals = w.locals - 1 })

-- A part that returns is followed by the rest.
pub >>=-run :
    {J : Jni} {A B : Type 0} (m : Java J A) (f : A → Java J B) (w : World J) {a : A} {w' : World J}
    → m w ≡ ok (a, w')
    → (m >>= f) w ≡ f a w'
>>=-run m f w e = rw (e, ◌>>=◌)
