-- ===== src/Entry.antt =====
-- include/firebase/telemetry/persistence/detail/entry.h: the tagged prefix of an entry. The tag is
-- any 32-bit number, as it is read from a file.
use firebase_telemetry_persi.Common.{
  leb_false→lt, leb→le, inr, inl, Bool-cases, zero, suc, ◌<◌, ◌⊎◌, ℕ, ◌≤◌, ◌≡◌, refl, Bool, Option,
  none, some, leb, if◌then◌else◌, arith,
}

pub data Tag : Type 0 where
  empty span log : Tag

abbrev pub tag_value : Tag → ℕ
tag_value empty = 0
tag_value span = 1
tag_value log = 2

pub record Entry : Type 0 where
  pub tag : ℕ
  pub size : ℕ

unfoldable pub is_tag_valid : ℕ → Bool
is_tag_valid tag = leb tag (tag_value log)

-- The entry that the pointer leads to afterwards; `none` is the null pointer.
unfoldable pub read_entry : Option Entry → Option Entry
unfolding is_tag_valid
read_entry none = none
read_entry (some entry) =
    some (if is_tag_valid entry.tag then entry else record entry { tag = tag_value empty })

tag_of : (n : ℕ) → n ≤ 2 → (t : Tag) × (n ≡ tag_value t)
tag_of zero h = (empty, refl)
tag_of (suc zero) h = (span, refl)
tag_of (suc (suc zero)) h = (log, refl)
tag_of (suc (suc (suc n))) h = absurd (omega arith)

-- The entry that is read has a tag of the enumeration and its old size; its tag is the old one, or the
-- old one is above the enumeration and the new one is the empty tag; to read it again changes nothing.
pub read_entry_heals :
    (entry : Entry)
    → (entry' : Entry) × (read_entry (some entry) ≡ some entry')
      × ((t : Tag) × (entry'.tag ≡ tag_value t))
      × (entry'.size ≡ entry.size)
      × ((entry'.tag ≡ entry.tag) ⊎ ((2 < entry.tag) × (entry'.tag ≡ tag_value empty)))
      × (read_entry (some entry') ≡ some entry')
unfolding read_entry
read_entry_heals entry = elim (Bool-cases (leb entry.tag 2)) [
  | inl valid ↦
      (entry, rw valid, tag_of entry.tag (leb→le entry.tag 2 valid), refl, inl refl, rw valid)
  | inr invalid ↦ (
    record entry { tag = 0 },
    rw invalid,
    (empty, refl),
    refl,
    inr (leb_false→lt entry.tag 2 invalid, refl),
    refl,
  )
]
