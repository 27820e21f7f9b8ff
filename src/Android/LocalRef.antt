-- ===== src/Android/LocalRef.antt =====
-- managed_local_ref.h, managed_jobject.h and the class of managed_jstring.h: the owner of one local
-- reference. `env` tells whether the pointer to the environment is there.
use firebase_telemetry_persi.Common.{ℕ, Bool, true, false, Option, none, some, if◌then◌else◌}
use firebase_telemetry_persi.CopyString.{Bytes}
use firebase_telemetry_persi.Android.Java.{Jni, Java, Ref, pure, ◌>>=◌, ◌>>◌, delete_local_ref}
use firebase_telemetry_persi.Android.Strings.{create_bounded_jstring}

pub record ManagedLocalRef : Type 0 where
  pub env : Bool
  pub value : Option Ref

abbrev pub empty : ManagedLocalRef
empty = record { env = false; value = none }

-- The constructor from an environment and a reference.
abbrev pub managed : Option Ref → ManagedLocalRef
managed value = record { env = true; value = value }

abbrev pub drop_value : {J : Jni} → Option Ref → Java J (Unit {0})
drop_value none = pure tt
drop_value (some r) = delete_local_ref r

unfoldable pub destroy : {J : Jni} → ManagedLocalRef → Java J (Unit {0})
unfolding delete_local_ref
destroy m = if m.env then drop_value m.value else pure tt

unfoldable pub move_construct : ManagedLocalRef → ManagedLocalRef × ManagedLocalRef
move_construct other = (record { env = other.env; value = other.value }, empty)

-- `same` is the test `this == &other`.
unfoldable pub move_assign :
    {J : Jni}
    → Bool
    → ManagedLocalRef
    → ManagedLocalRef
    → Java J (ManagedLocalRef × ManagedLocalRef)
unfolding destroy
move_assign same this other =
    if same then pure (this, other) else (do destroy this; pure (other, empty))

-- `ManagedJString<MaxLen>` of a string.
unfoldable pub make_managed_jstring : {J : Jni} → ℕ → Bytes → Java J ManagedLocalRef
unfolding create_bounded_jstring
make_managed_jstring max_len value = do r ← create_bounded_jstring max_len value; pure (managed r)
