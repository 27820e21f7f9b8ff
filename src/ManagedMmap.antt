-- ===== src/ManagedMmap.antt =====
-- include/firebase/telemetry/persistence/detail/managed_mmap.h: the owner of one mapped region. The
-- address 0 is the null pointer. Beside its results a method gives the regions that it passes to
-- `munmap`. A template argument matters by its size only.
use mathlib.Core.List.{append-nil}
use firebase_telemetry_persi.Common.{
  refl, ap, true, ◌≡◌, false, ◌++◌, ap, le→leb, ◌≤◌, ℕ, Bool, ◌&&◌, ◌||◌, Option, none, some, List,
  [], ◌∷◌, Result, ok, ◌>>◌, assert, ltb, leb, ◌==◌, if◌then◌else◌, not,
}

-- An address and a length.
abbrev pub Region : Type 0
Region = ℕ × ℕ

pub record ManagedMmap : Type 0 where
  pub mmap_ptr : ℕ
  pub required_size : ℕ

abbrev pub empty : ManagedMmap
empty = record { mmap_ptr = 0; required_size = 0 }

unfoldable pub is_initialized : ManagedMmap → Bool
is_initialized m = not (m.mmap_ptr == 0) && ltb 0 m.required_size

-- The constructor, of what `mmap` returns; `none` is `MAP_FAILED`.
unfoldable pub construct : ℕ → ℕ → Option ℕ → Result ManagedMmap
construct sizeof required_size mapped = do
  assert ((required_size == 0) || leb sizeof required_size)
  ok (elim mapped [
    | none ↦ empty
    | some raw_mmap_ptr ↦ record { mmap_ptr = raw_mmap_ptr; required_size = required_size }
  ])

-- The destructor, and the same test at the start of the assignments.
unfoldable pub destroy : ManagedMmap → List Region
destroy m =
    if not (m.mmap_ptr == 0) && ltb 0 m.required_size
    then (m.mmap_ptr, m.required_size) ∷ []
    else []

-- The object that is made, and the other one afterwards.
unfoldable pub move_construct : ManagedMmap → ManagedMmap × ManagedMmap
move_construct other =
    (record { mmap_ptr = other.mmap_ptr; required_size = other.required_size }, empty)

-- `same` is the test `this == &other`.
unfoldable pub move_assign :
    Bool → ManagedMmap → ManagedMmap → ManagedMmap × ManagedMmap × List Region
unfolding destroy
move_assign same this other = if same then (this, other, []) else (other, empty, destroy this)

-- Between mappings of different types.
unfoldable pub convert_construct : ℕ → ManagedMmap → Result (ManagedMmap × ManagedMmap)
convert_construct sizeof other = do
  assert ((other.required_size == 0) || leb sizeof other.required_size)
  ok (other, empty)

unfoldable pub convert_assign :
    ℕ → ManagedMmap → ManagedMmap → Result (ManagedMmap × ManagedMmap × List Region)
unfolding destroy
convert_assign sizeof this other = do
  let unmapped = destroy this
  assert ((other.required_size == 0) || leb sizeof other.required_size)
  ok (other, empty, unmapped)

or_true : (b : Bool) → (b || true) ≡ true
or_true true = refl
or_true false = refl

-- For two objects, whatever they own: a move leaves the other object without a region, and each region
-- that one of the two owned is owned by exactly one of them afterwards or was unmapped by the move; a
-- move of an object to itself changes and unmaps nothing; the same holds for the conversions, when the
-- region is long enough for the new type.
pub moves_conserve :
    (sizeof : ℕ) (this other : ManagedMmap)
    → sizeof ≤ other.required_size
    → let (t, o, unmapped) = move_assign false this other in
      (is_initialized o ≡ false)
      × (unmapped ++ (destroy t ++ destroy o) ≡ destroy this ++ destroy other)
      × (move_assign true this this ≡ (this, this, []))
      × (move_construct other ≡ (t, o))
      × (convert_construct sizeof other ≡ ok (t, o))
      × (convert_assign sizeof this other ≡ ok (t, o, unmapped))
unfolding move_assign move_construct convert_construct convert_assign is_initialized destroy
moves_conserve sizeof this other h = (
  refl,
  ap (◌++◌ (destroy this)) (append-nil (destroy other)),
  refl,
  refl,
  rw (le→leb sizeof other.required_size h, or_true (other.required_size == 0)),
  rw (le→leb sizeof other.required_size h, or_true (other.required_size == 0)),
)
