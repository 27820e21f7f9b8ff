-- ===== src/Common/Results.antt =====
-- Fallible code. A fault is a failed `assert`, or an access that C++ leaves undefined.
use mathlib.Core.Path.{◌≡◌, refl}
use mathlib.Core.Bool.{Bool, true, false}
use firebase_telemetry_persi.Common.Tests.{if◌then◌else◌}
use Prim.Native.Nat.{ℕ}
use mathlib.Core.Option.{Option, none, some}

pub data Fault : Type 0 where
  assertion out_of_bounds null_pointer : Fault

pub data Result {ℓ} (A : Type ℓ) : Type ℓ where
  fault : Fault → Result A
  ok : A → Result A

-- `assert (b)`
abbrev pub assert : Bool → Result (Unit {0})
assert false = fault assertion
assert true = ok tt

-- What an access that may be out of range returns.
abbrev pub or_fault {ℓ} : {A : Type ℓ} → Option A → Fault → Result A
or_fault (some found) why = ok found
or_fault none why = fault why

-- The rest of a function, once a part of it has returned.
infixl 5 ◌>>=◌ ◌>>◌
abbrev pub ◌>>=◌ {ℓ κ} : {A : Type ℓ} {C : Type κ} → Result A → (A → Result C) → Result C
fault why >>= rest = fault why
ok value >>= rest = rest value

abbrev pub ◌>>◌ {κ} : {C : Type κ} → Result (Unit {0}) → Result C → Result C
test >> rest = test >>= λ passed. rest

pub >>=-eq-ok {ℓ κ} :
    {A : Type ℓ} {C : Type κ} (part : Result A) (rest : A → Result C) {final : C}
    → (part >>= rest) ≡ ok final
    → (value : A) × (part ≡ ok value) × (rest value ≡ ok final)
>>=-eq-ok (fault why) rest returns = cc
>>=-eq-ok (ok value) rest returns = (value, refl, returns)

-- What holds of a result, if there is one.
abbrev pub Yields {ℓ} : {A : Type ℓ} (P : A → Type 0) → Result A → Type 0
Yields P (ok a) = P a
Yields P (fault e) = Unit {0}

pub Yields-bind {ℓ κ} :
    {A : Type ℓ} {C : Type κ} (Before : A → Type 0) (After : C → Type 0) (part : Result A)
    (rest : A → Result C)
    → Yields Before part
    → ((value : A) → Before value → Yields After (rest value))
    → Yields After (part >>= rest)
Yields-bind Before After (ok value) rest v w = w value v
Yields-bind Before After (fault why) rest v w = tt

pub Yields-any {ℓ} : {A : Type ℓ} (m : Result A) → Yields (λ _. Unit {0}) m
Yields-any (ok a) = tt
Yields-any (fault e) = tt

pub Yields-if {ℓ} :
    {A : Type ℓ} (P : A → Type 0) (b : Bool) (x y : Result A)
    → Yields P x
    → Yields P y
    → Yields P (if b then x else y)
Yields-if P true x y v w = v
Yields-if P false x y v w = w

-- 1 for a value, 0 for none.
abbrev pub one_if {ℓ} : {A : Type ℓ} → Option A → ℕ
one_if none = 0
one_if (some a) = 1
