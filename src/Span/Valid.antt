-- ===== src/Span/Valid.antt =====
-- Raw spans that can be read back: the arrays have their sizes, the attribute count is within the
-- array and every string is terminated.
use firebase_telemetry_persi.Common.{
  inl, inr, ℕ, zero, suc, ◌≤◌, ◌<◌, ◌≡◌, refl, ◌∙◌, arith, List, [], ◌∷◌, All, length, length-set,
  get_or, set, replicate, length-replicate, ok, leb, Bool-cases,
}
use firebase_telemetry_persi.CopyString.{Bytes, copy_string}
use firebase_telemetry_persi.CopyString.Buffers.{
  c_str, until_nul, truncate, c_str-copy_string, copy_string2-copy_string, length-copy_string,
}
use firebase_telemetry_persi.Layout.{
  MmapSize, mmap_config, RawAttribute, RawSpan, zero_attribute, zero_raw_span,
}
use firebase_telemetry_persi.Span.{
  read_fields, Span, AttributesList, read_attribute, read_attributes, of_raw_span, write_attribute,
  write_attributes, to_raw_span,
}

-- A buffer of n bytes that holds a terminated string.
pub record IsText (n : ℕ) (buffer : Bytes) : Type 0 where
  pub sized : length buffer ≡ n
  pub content : Bytes
  pub reads : c_str buffer ≡ ok content

pub record IsRawAttribute (a : RawAttribute) : Type 0 where
  pub key : IsText 64 a.key
  pub value : IsText 128 a.value

pub record IsRawSpan (max_attributes : ℕ) (r : RawSpan) : Type 0 where
  pub sized : length r.attributes ≡ max_attributes
  pub counted : r.attr_count ≤ max_attributes
  pub name : IsText 64 r.name
  pub attributes : All IsRawAttribute r.attributes

pub copy_string-IsText :
    (n : ℕ) (src dest : Bytes) → 0 < n → length dest ≡ n → IsText n (copy_string src dest)
copy_string-IsText n src dest h e = record {
  sized = length-copy_string src dest ∙ e;
  content = until_nul (truncate (length dest) src);
  reads = (c_str-copy_string src dest (omega arith)).0;
}

zeros-IsText : (n : ℕ) → 0 < n → IsText n (replicate n 0)
unfolding c_str
zeros-IsText zero h = elim h [ ]
zeros-IsText (suc n) h = record {
  sized = length-replicate {A = ℕ} (suc n) 0;
  content = [];
  reads = refl;
}

pub zero_attribute-IsRawAttribute : IsRawAttribute zero_attribute
unfolding zero_attribute
zero_attribute-IsRawAttribute = record {
  key = zeros-IsText 64 (omega arith);
  value = zeros-IsText 128 (omega arith);
}

module _ {ℓ κ} {A : Type ℓ} (P : A → Type κ) where
  All-replicate : (n : ℕ) (a : A) → P a → All P (replicate n a)
  All-replicate zero a h = tt
  All-replicate (suc n) a h = (h, All-replicate n a h)

  pub All-set : (xs : List A) (i : ℕ) (a : A) → All P xs → P a → All P (set xs i a)
  All-set [] i a h p = tt
  All-set (x ∷ xs) zero a h p = (p, h.1)
  All-set (x ∷ xs) (suc i) a h p = (h.0, All-set xs i a h.1 p)

  pub All-get_or : (xs : List A) (i : ℕ) (d : A) → All P xs → P d → P (get_or xs i d)
  All-get_or [] i d h p = p
  All-get_or (x ∷ xs) zero d h p = h.0
  All-get_or (x ∷ xs) (suc i) d h p = All-get_or xs i d h.1 p

pub zero_raw_span-IsRawSpan :
    (size : MmapSize) → IsRawSpan (mmap_config size).max_attributes (zero_raw_span size)
unfolding zero_raw_span
zero_raw_span-IsRawSpan size = record {
  sized = length-replicate (mmap_config size).max_attributes zero_attribute;
  counted = omega arith;
  name = zeros-IsText 64 (omega arith);
  attributes =
      All-replicate IsRawAttribute (mmap_config size).max_attributes zero_attribute
        zero_attribute-IsRawAttribute;
}

copy_string2-IsRawAttribute :
    (a : RawAttribute) (key value : Bytes)
    → IsRawAttribute a
    → IsRawAttribute (record { key = copy_string key a.key; value = copy_string value a.value })
copy_string2-IsRawAttribute a key value h = record {
  key = copy_string-IsText 64 key a.key (omega arith) h.key.sized;
  value = copy_string-IsText 128 value a.value (omega arith) h.value.sized;
}

pub write_attribute-IsRawSpan :
    (m : ℕ) (r : RawSpan) (key value : Bytes)
    → IsRawSpan m r
    → r.attr_count < m
    → IsRawSpan m (write_attribute r key value)
unfolding write_attribute
write_attribute-IsRawSpan m r key value v h =
    let a = get_or r.attributes r.attr_count zero_attribute in
    rw (copy_string2-copy_string key a.key value a.value) (record {
      sized = length-set r.attributes r.attr_count _ ∙ v.sized;
      counted = omega arith;
      name = v.name;
      attributes = All-set IsRawAttribute r.attributes r.attr_count _ v.attributes (
          copy_string2-IsRawAttribute a key value (
            All-get_or IsRawAttribute r.attributes r.attr_count zero_attribute v.attributes
              zero_attribute-IsRawAttribute));
    })

write_attributes-IsRawSpan :
    (m : ℕ) (attrs : AttributesList) (r : RawSpan)
    → IsRawSpan m r
    → IsRawSpan m (write_attributes m attrs r)
unfolding write_attributes
write_attributes-IsRawSpan m [] r v = v
write_attributes-IsRawSpan m ((key, value) ∷ rest) r v = elim (Bool-cases (leb m r.attr_count)) [
  | inl full ↦ rw full v
  | inr room ↦ rw room (
      write_attributes-IsRawSpan m rest (write_attribute r key value)
        (write_attribute-IsRawSpan m r key value v (ground arith)))
]

-- Whatever the span holds, `to_raw_span` builds a raw span that can be read back.
pub to_raw_span-IsRawSpan :
    (size : MmapSize) (span : Span)
    → IsRawSpan (mmap_config size).max_attributes (to_raw_span size span)
unfolding to_raw_span zero_raw_span
to_raw_span-IsRawSpan size span =
    let z = zero_raw_span-IsRawSpan size in
    write_attributes-IsRawSpan (mmap_config size).max_attributes span.attributes _ (record {
      sized = z.sized;
      counted = z.counted;
      name = copy_string-IsText 64 span.name (replicate 64 0) (omega arith) refl;
      attributes = z.attributes;
    })

read_attribute_total :
    (a : RawAttribute) (value : Bytes) (rest : AttributesList)
    → IsRawAttribute a
    → (l : AttributesList) × (read_attribute a value rest ≡ ok l)
unfolding read_attribute
read_attribute_total a [] rest h = (rest, refl)
read_attribute_total a (b ∷ value) rest h = ((h.key.content, b ∷ value) ∷ rest, rw h.key.reads)

read_attributes_total :
    (n : ℕ) (raw : List RawAttribute)
    → n ≤ length raw
    → All IsRawAttribute raw
    → (l : AttributesList) × (read_attributes n raw ≡ ok l)
unfolding read_attributes
read_attributes_total zero raw h v = ([], refl)
read_attributes_total (suc n) [] h v = absurd (omega arith)
read_attributes_total (suc n) (a ∷ raw) h v =
    let (rest, e) = read_attributes_total n raw (omega arith) v.1 in
    let (l, k) = read_attribute_total a v.0.value.content rest v.0 in (l, rw (v.0.value.reads, e) k)

-- A raw span whose arrays have their sizes, whose attribute count is within the array and whose
-- strings are terminated is read without a fault, and keeps its ids and times.
pub of_raw_span_total :
    (m : ℕ) (r : RawSpan)
    → IsRawSpan m r
    → (span : Span) × (of_raw_span r ≡ ok span)
      × (span.span_id ≡ r.span_id)
      × (span.parent_span_id ≡ r.parent_span_id)
      × (span.start_time ≡ r.start_time)
      × (span.end_time ≡ r.end_time)
      × ((span.trace_id.high, span.trace_id.low) ≡ r.trace_id)
unfolding of_raw_span
of_raw_span_total m r v =
    let (attrs, e) =
      read_attributes_total r.attr_count r.attributes (omega (arith, v.sized)) v.attributes in
    (read_fields r v.name.content attrs, rw (v.name.reads, e), refl, refl, refl, refl, refl)
