-- ===== src/RawSpanData/Attributes.antt =====
-- `set_attribute_on_span`: the attributes of a slot behave as a bounded dictionary.
use mathlib.Core.Option
use firebase_telemetry_persi.Common.{
  modify-set, Option-cases, inr, inl, ◌⊎◌, Bool-cases, set, modify, true, false, ◌<◌, get_elem?, ap,
  ℕ, zero, suc, ◌+◌, ◌≤◌, ◌≡◌, refl, Option, none, some, List, [], ◌∷◌, ok, if◌then◌else◌, length,
  arith,
}
use firebase_telemetry_persi.CopyString.{copy_string, Bytes, key_equals}
use firebase_telemetry_persi.Layout.{mmap_config, MarkedSpan, MmapSize, RawAttribute, RawSpan}
use firebase_telemetry_persi.Span.Valid.{IsRawSpan}
use firebase_telemetry_persi.RawSpanData.{
  slot?, RawSpanData, put_attribute, write, set_attribute_on_span, find_attribute,
}

-- The index of the first of n attributes that has the key.
unfoldable pub index_of : Bytes → ℕ → List RawAttribute → Option ℕ
index_of key zero attrs = none
index_of key (suc n) [] = none
index_of key (suc n) (a ∷ attrs) =
    if key_equals key a.key then some 0 else Option.map suc (index_of key n attrs)

find_attribute-index_of :
    (key : Bytes) (n i : ℕ) (attrs : List RawAttribute)
    → n ≤ length attrs
    → find_attribute key n i attrs ≡ ok (Option.map (λ k. i + k) (index_of key n attrs))
unfolding find_attribute index_of
find_attribute-index_of key zero i attrs h = refl
find_attribute-index_of key (suc n) i [] h = absurd (omega arith)
find_attribute-index_of key (suc n) i (a ∷ attrs) h =
    ground (arith, find_attribute-index_of key n (i + 1) attrs)

-- The first of n attributes that has the key: what `set_attribute_on_span` would find.
unfoldable pub lookup : Bytes → ℕ → List RawAttribute → Option RawAttribute
lookup key zero attrs = none
lookup key (suc n) [] = none
lookup key (suc n) (a ∷ attrs) = if key_equals key a.key then some a else lookup key n attrs

abbrev pub get_attribute : Bytes → RawSpan → Option RawAttribute
get_attribute key r = lookup key r.attr_count r.attributes

zero_shift : (o : Option ℕ) → Option.map (λ k. 0 + k) o ≡ o
zero_shift none = refl
zero_shift (some k) = ap some (omega arith)

-- What the call makes of the raw span in its slot: the index that it returns, and the raw span.
unfoldable pub put_raw : MmapSize → RawSpan → Bytes → Bytes → ℕ × RawSpan
put_raw size r key value = put_attribute size r key value (index_of key r.attr_count r.attributes)

-- On a slot that can be read back the call is `put_raw` on that slot, and touches no other.
pub set_attribute_on_span_lem :
    (size : MmapSize) (d : RawSpanData) (i : ℕ) (s : MarkedSpan) (key value : Bytes)
    → slot? d.layout i ≡ some s
    → IsRawSpan (mmap_config size).max_attributes s.span
    → let (j, r) = put_raw size s.span key value in
      set_attribute_on_span size d i key value
      ≡ ok (
        j,
        record d {
          layout = record (d.layout) {
            marked_spans = set d.layout.marked_spans i (record s { span = r });
          };
        },
      )
unfolding set_attribute_on_span put_raw write
set_attribute_on_span_lem size d i s key value e v = rw (
  e,
  find_attribute-index_of key s.span.attr_count 0 s.span.attributes
      (omega (arith, v.sized, v.counted)),
  zero_shift (index_of key s.span.attr_count s.span.attributes),
  modify-set d.layout.marked_spans i
      (λ t. record t {
        span =
            (put_attribute size s.span key value
              (index_of key s.span.attr_count s.span.attributes)).1;
      })
      s e,
)

abbrev pub rewrite_value : Bytes → RawAttribute → RawAttribute
rewrite_value value a = record a { value = copy_string value a.value }

-- The attribute that is found has the key, and takes the new value.
pub index_of-found :
    (key value : Bytes) (n : ℕ) (attrs : List RawAttribute) (k : ℕ)
    → index_of key n attrs ≡ some k
    → (a : RawAttribute) × (get_elem? attrs k ≡ some a)
      × (key_equals key a.key ≡ true)
      × (k < n)
      × (lookup key n (modify attrs k (rewrite_value value)) ≡ some (rewrite_value value a))
unfolding index_of lookup
index_of-found key value zero attrs k h = absurd (cc)
index_of-found key value (suc n) [] k h = absurd (cc)
index_of-found key value (suc n) (a ∷ attrs) k h = elim (Bool-cases (key_equals key a.key)) [
  | inl hit ↦ let first : k ≡ 0 = ground arith in rw (first, hit) (a, refl, hit, omega arith, refl)
  | inr miss ↦ elim (Option-cases (index_of key n attrs)) [
    | inl absent ↦ absurd (ground arith)
    | inr (j, found) ↦
        let later : k ≡ suc j = ground arith in
        let (b, at, hit, lt, new) = index_of-found key value n attrs j found in
        rw (later, miss) (b, at, hit, omega arith, new)
  ]
]

pub lookup-modify_other :
    (key value : Bytes) (n : ℕ) (attrs : List RawAttribute) (k : ℕ) (a : RawAttribute)
    → get_elem? attrs k ≡ some a
    → key_equals key a.key ≡ false
    → lookup key n (modify attrs k (rewrite_value value)) ≡ lookup key n attrs
unfolding lookup
lookup-modify_other key value zero attrs k a h e = refl
lookup-modify_other key value (suc n) [] k a h e = refl
lookup-modify_other key value (suc n) (x ∷ attrs) zero a h e = ground arith
lookup-modify_other key value (suc n) (x ∷ attrs) (suc k) a h e =
    ground (arith, lookup-modify_other key value n attrs k a)

pub lookup-set_self :
    (key : Bytes) (n : ℕ) (attrs : List RawAttribute) (a : RawAttribute)
    → index_of key n attrs ≡ none
    → n < length attrs
    → key_equals key a.key ≡ true
    → lookup key (suc n) (set attrs n a) ≡ some a
unfolding lookup index_of
lookup-set_self key zero [] a h l e = elim l [ ]
lookup-set_self key zero (x ∷ attrs) a h l e = rw e
lookup-set_self key (suc n) [] a h l e = absurd (omega arith)
lookup-set_self key (suc n) (x ∷ attrs) a h l e = ground (arith, lookup-set_self key n attrs a)

pub lookup-set_other :
    (key : Bytes) (n : ℕ) (attrs : List RawAttribute) (a : RawAttribute)
    → n < length attrs
    → key_equals key a.key ≡ false
    → lookup key (suc n) (set attrs n a) ≡ lookup key n attrs
unfolding lookup
lookup-set_other key zero [] a l e = elim l [ ]
lookup-set_other key zero (x ∷ attrs) a l e = rw e
lookup-set_other key (suc n) [] a l e = absurd (omega arith)
lookup-set_other key (suc n) (x ∷ attrs) a l e = ground (arith, lookup-set_other key n attrs a)

-- An index at which `set_attribute_on_span` can put the key: its own, or a free one.
abbrev pub HasRoom : MmapSize → RawSpan → Bytes → Type 0
HasRoom size r key =
    ((k : ℕ) × (index_of key r.attr_count r.attributes ≡ some k))
    ⊎ (r.attr_count < (mmap_config size).max_attributes)
