-- ===== src/RawSpanData/Dictionary.antt =====
-- What a lookup finds after `set_attribute_on_span`: the slot behaves as a bounded dictionary.
use firebase_telemetry_persi.RawSpanData.Attributes.{
  index_of, get_attribute, put_raw, rewrite_value, HasRoom, index_of-found, lookup-modify_other,
  lookup-set_self, lookup-set_other,
}
use firebase_telemetry_persi.CopyString.Buffers.{
  NulFree, truncate, c_str, until_nul, c_str-copy_string, copy_string2-copy_string,
}
use firebase_telemetry_persi.CopyString.Keys.{key_equals-copy_string_self, key_equals_unique}
use firebase_telemetry_persi.Span.Valid.{
  IsRawAttribute, IsRawSpan, copy_string-IsText, All-get_or, All-set, zero_attribute-IsRawAttribute,
}
use firebase_telemetry_persi.RawSpanData.{append_attribute, put_attribute}
use firebase_telemetry_persi.CopyString.{Bytes, key_equals, copy_string}
use firebase_telemetry_persi.Layout.{MmapSize, mmap_config, RawAttribute, RawSpan, zero_attribute}
use firebase_telemetry_persi.Common.{
  ℕ, zero, suc, ◌+◌, ◌≤◌, ◌<◌, ◌≡◌, ◌≢◌, refl, subst, ◌∙◌, true, false, none, some, List, [], ◌∷◌,
  ok, ltb, get_elem?, get_or, modify, set, length-modify, length-set, arith, Bool-cases,
  Option-cases, inl, inr, All, ltb→lt, lt→ltb, le→ltb, ltb_false→le,
}

-- A key with no NUL that differs from another, both cut to 64 bytes, misses that one's attribute.
key_misses :
    (key other : Bytes) (a : RawAttribute)
    → IsRawAttribute a
    → NulFree key
    → NulFree other
    → truncate 64 key ≢ truncate 64 other
    → key_equals key a.key ≡ true
    → key_equals other a.key ≡ false
key_misses key other a v hk ho ne hit = elim (Bool-cases (key_equals other a.key)) [
  | inl e ↦ absurd (
      ne (
        subst (λ n. truncate n key ≡ truncate n other) v.key.sized
          (key_equals_unique key other a.key (omega (arith, v.key.sized)) hk ho hit e)))
  | inr e ↦ e
]

head_eq {ℓ} : {A : Type ℓ} {a b : A} → some a ≡ some b → a ≡ b
head_eq h = cc

All-get_elem? {ℓ κ} :
    {A : Type ℓ} (P : A → Type κ) (xs : List A) (i : ℕ) (a : A)
    → All P xs
    → get_elem? xs i ≡ some a
    → P a
All-get_elem? P [] i a v h = absurd (cc)
All-get_elem? P (x ∷ xs) zero a v h = subst P (head_eq h) v.0
All-get_elem? P (x ∷ xs) (suc i) a v h = All-get_elem? P xs i a v.1 h

All-modify :
    (xs : List RawAttribute) (i : ℕ) (value : Bytes)
    → All IsRawAttribute xs
    → All IsRawAttribute (modify xs i (rewrite_value value))
All-modify [] i value v = tt
All-modify (x ∷ xs) zero value v = (
  record {
    key = v.0.key;
    value = copy_string-IsText 128 value x.value (omega arith) v.0.value.sized;
  },
  v.1,
)
All-modify (x ∷ xs) (suc i) value v = (v.0, All-modify xs i value v.1)

module _ (size : MmapSize) (r : RawSpan) (key value : Bytes)
    (v : IsRawSpan (mmap_config size).max_attributes r) where
  put_raw-found :
      (k : ℕ)
      → index_of key r.attr_count r.attributes ≡ some k
      → put_raw size r key value
        ≡ (k, record r { attributes = modify r.attributes k (rewrite_value value) })
  unfolding put_raw put_attribute
  put_raw-found k e = rw e

  -- The attribute in the first free place of the array, and what is written there.
  free_place : RawAttribute
  free_place = get_or r.attributes r.attr_count zero_attribute

  free_place-IsRawAttribute : IsRawAttribute free_place
  unfolding free_place
  free_place-IsRawAttribute =
      All-get_or IsRawAttribute r.attributes r.attr_count zero_attribute v.attributes
        zero_attribute-IsRawAttribute

  new_attribute : RawAttribute
  new_attribute = record {
    key = copy_string key free_place.key;
    value = copy_string value free_place.value;
  }

  new_attribute-IsRawAttribute : IsRawAttribute new_attribute
  unfolding new_attribute
  new_attribute-IsRawAttribute =
      let w = free_place-IsRawAttribute in
      record {
        key = copy_string-IsText 64 key free_place.key (omega arith) w.key.sized;
        value = copy_string-IsText 128 value free_place.value (omega arith) w.value.sized;
      }

  put_raw-free :
      index_of key r.attr_count r.attributes ≡ none
      → r.attr_count < (mmap_config size).max_attributes
      → put_raw size r key value ≡ (
        r.attr_count,
        record r {
          attr_count = suc r.attr_count;
          attributes = set r.attributes r.attr_count new_attribute;
        },
      )
  unfolding put_raw put_attribute append_attribute new_attribute free_place
  put_raw-free e h =
      let next : r.attr_count + 1 ≡ suc r.attr_count = omega arith in
      rw (
        e,
        lt→ltb r.attr_count (mmap_config size).max_attributes h,
        copy_string2-copy_string key (get_or r.attributes r.attr_count zero_attribute).key value
            (get_or r.attributes r.attr_count zero_attribute).value,
        next,
      )

  -- With no room for a new key the call changes nothing and returns `max_attributes`.
  pub put_raw_full :
      index_of key r.attr_count r.attributes ≡ none
      → (mmap_config size).max_attributes ≤ r.attr_count
      → put_raw size r key value ≡ ((mmap_config size).max_attributes, r)
  unfolding put_raw put_attribute
  put_raw_full e h = rw (e, le→ltb r.attr_count (mmap_config size).max_attributes h)

  stored_value :
      (a : RawAttribute)
      → IsRawAttribute a
      → c_str (rewrite_value value a).value ≡ ok (until_nul (truncate 128 value))
  stored_value a w =
      subst (λ n. c_str (copy_string value a.value) ≡ ok (until_nul (truncate n value)))
        w.value.sized (c_str-copy_string value a.value (omega (arith, w.value.sized))).0

  -- Where the key is there already, or a place is free, the key is found afterwards, with the value
  -- cut to 128 bytes.
  pub get_attribute-put_raw_self :
      HasRoom size r key
      → (a : RawAttribute) × (get_attribute key (put_raw size r key value).1 ≡ some a)
        × (c_str a.value ≡ ok (until_nul (truncate 128 value)))
  unfolding new_attribute
  get_attribute-put_raw_self room = elim (Option-cases (index_of key r.attr_count r.attributes)) [
    | inl absent ↦ elim room [
      | inl (k, found) ↦ absurd (cc)
      | inr free ↦ (
        new_attribute,
        rw (put_raw-free absent free) (
            lookup-set_self key r.attr_count r.attributes new_attribute absent
              (omega (arith, v.sized))
              (key_equals-copy_string_self key free_place.key
                (omega (arith, free_place-IsRawAttribute.key.sized)))),
        stored_value free_place free_place-IsRawAttribute,
      )
    ]
    | inr (k, found) ↦
        let (a, at, hit, lt, new) = index_of-found key value r.attr_count r.attributes k found in
        (
          rewrite_value value a,
          rw (put_raw-found k found) new,
          stored_value a (All-get_elem? IsRawAttribute r.attributes k a v.attributes at),
        )
  ]

  -- Another key, both with no NUL and different when cut to 64 bytes, finds what it found before.
  pub get_attribute-put_raw_other :
      (other : Bytes)
      → NulFree key
      → NulFree other
      → truncate 64 key ≢ truncate 64 other
      → get_attribute other (put_raw size r key value).1 ≡ get_attribute other r
  unfolding new_attribute
  get_attribute-put_raw_other other hk ho ne =
      elim (Option-cases (index_of key r.attr_count r.attributes)) [
        | inl absent ↦ elim (Bool-cases (ltb r.attr_count (mmap_config size).max_attributes)) [
          | inl free ↦ rw (put_raw-free absent (ltb→lt _ _ free)) (
              lookup-set_other other r.attr_count r.attributes new_attribute
                (omega (arith, v.sized, ltb→lt _ _ free))
                (key_misses key other new_attribute new_attribute-IsRawAttribute hk ho ne (
                  key_equals-copy_string_self key free_place.key
                    (omega (arith, free_place-IsRawAttribute.key.sized)))))
          | inr full ↦ rw (put_raw_full absent (ltb_false→le _ _ full))
        ]
        | inr (k, found) ↦
            let (a, at, hit, lt, new) =
              index_of-found key value r.attr_count r.attributes k found in
            rw (put_raw-found k found) (
              lookup-modify_other other value r.attr_count r.attributes k a at (
                key_misses key other a
                  (All-get_elem? IsRawAttribute r.attributes k a v.attributes at) hk ho ne hit))
      ]

  -- The raw span can be read back as before, and keeps its ids and times.
  pub put_raw-IsRawSpan :
      IsRawSpan (mmap_config size).max_attributes (put_raw size r key value).1
      × ((put_raw size r key value).1.span_id ≡ r.span_id)
  put_raw-IsRawSpan = elim (Option-cases (index_of key r.attr_count r.attributes)) [
    | inl absent ↦ elim (Bool-cases (ltb r.attr_count (mmap_config size).max_attributes)) [
      | inl free ↦ rw (put_raw-free absent (ltb→lt _ _ free)) (
        record {
          sized = length-set r.attributes r.attr_count new_attribute ∙ v.sized;
          counted = ltb→lt _ _ free;
          name = v.name;
          attributes =
              All-set IsRawAttribute r.attributes r.attr_count new_attribute v.attributes
                new_attribute-IsRawAttribute;
        },
        refl,
      )
      | inr full ↦ rw (put_raw_full absent (ltb_false→le _ _ full)) (v, refl)
    ]
    | inr (k, found) ↦ rw (put_raw-found k found) (
      record {
        sized = length-modify r.attributes k (rewrite_value value) ∙ v.sized;
        counted = v.counted;
        name = v.name;
        attributes = All-modify r.attributes k value v.attributes;
      },
      refl,
    )
  ]
