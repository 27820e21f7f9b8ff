-- ===== src/Initialize/Held.antt =====
-- What a sequence of system calls holds: open files and mappings.
use firebase_telemetry_persi.ManagedMmap
use firebase_telemetry_persi.ManagedMmap.{ManagedMmap}
use firebase_telemetry_persi.Initialize.{destroy_mapping}
use mathlib.Core.List.{map}
use firebase_telemetry_persi.Common.{
  true, ap, ℕ, ◌≡◌, List, [], ◌∷◌, ◌++◌, Option, none, some, if◌then◌else◌, ◌==◌,
}
use firebase_telemetry_persi.Initialize.{Call, opens, closes, maps, unmaps, Mapping}

-- The files that are open, and the lengths of what is mapped.
pub record Held : Type 0 where
  pub files : List ℕ
  pub regions : List ℕ

abbrev pub nothing_held : Held
nothing_held = record { files = []; regions = [] }

-- What is given back must be there.
abbrev pub give_back : ℕ → List ℕ → Option (List ℕ)
give_back n [] = none
give_back n (m ∷ ms) =
    if n == m then some ms else elim (give_back n ms) [ none ↦ none | some rest ↦ some (m ∷ rest) ]

abbrev pub settle_call : Call → Held → Option Held
settle_call (opens fd) h = some (record h { files = fd ∷ h.files })
settle_call (closes fd) h = elim (give_back fd h.files) [
  | none ↦ none
  | some fds ↦ some (record h { files = fds })
]
settle_call (maps size) h = some (record h { regions = size ∷ h.regions })
settle_call (unmaps size) h = elim (give_back size h.regions) [
  | none ↦ none
  | some sizes ↦ some (record h { regions = sizes })
]

-- What is held after the calls, in their order; `none` if one gives back what is not held.
abbrev pub settle : List Call → Held → Option Held
settle [] h = some h
settle (c ∷ cs) h = elim (settle_call c h) [ none ↦ none | some h' ↦ settle cs h' ]

pub settle-append :
    (xs ys : List Call) (h h' : Held) → settle xs h ≡ some h' → settle (xs ++ ys) h ≡ settle ys h'
settle-append [] ys h h' e = let same : h ≡ h' = cc in ap (settle ys) same
settle-append (c ∷ cs) ys h h' e = after (settle_call c h) (λ k q. settle-append cs ys k h' q) e
  where
    after :
        (o : Option Held)
        → ((k : Held) → settle cs k ≡ some h' → settle (cs ++ ys) k ≡ settle ys h')
        → elim o as (λ _. Option Held) [ none ↦ none | some k ↦ settle cs k ] ≡ some h'
        → elim o as (λ _. Option Held) [ none ↦ none | some k ↦ settle (cs ++ ys) k ] ≡ settle ys h'
    after none again e = absurd (cc)
    after (some k) again e = again k e

-- What is held for an object, or for a handle.
abbrev pub kept {ℓ} : {A : Type ℓ} → ℕ → Option A → List ℕ
kept size none = []
kept size (some a) = size ∷ []

-- `destroy_mapping` is the destructor of an initialised object for the mapping.
destroy_mapping-destroy :
    (m : Mapping) (o : ManagedMmap)
    → ManagedMmap.is_initialized o ≡ true
    → o.required_size ≡ m.required_size
    → map (λ (r : ManagedMmap.Region). unmaps r.1) (ManagedMmap.destroy o) ≡ destroy_mapping m
unfolding ManagedMmap.is_initialized ManagedMmap.destroy
destroy_mapping-destroy m o there same = rw there (ap (λ n. unmaps n ∷ []) same)
