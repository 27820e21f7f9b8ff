-- ===== src/Span/RoundTrip.antt =====
-- What survives a trip of a span through the file.
use mathlib.Core.List.{append-nil, append_assoc}
use firebase_telemetry_persi.Common.{
  arith, zero, suc, map, ◌+◌, ok, leb, true, false, ◌-◌, ◌<◌, ℕ, ◌≡◌, refl, ap, List, [], ◌∷◌, ◌++◌,
  length, length-append, get_or, set, take, replicate,
}
use firebase_telemetry_persi.CopyString.{copy_string, Bytes}
use firebase_telemetry_persi.CopyString.Buffers.{
  c_str, c_str-padded, length-truncate-lt, until_nul, truncate, padded, copy_string-padded,
  copy_string2-copy_string,
}
use firebase_telemetry_persi.Layout.{
  MmapSize, mmap_config, zero_raw_span, MmapSize, mmap_config, RawAttribute, RawSpan,
  zero_attribute,
}
use firebase_telemetry_persi.Span.{
  Span, AttributesList, read_attribute, read_attributes, of_raw_span, write_attributes, to_raw_span,
  Span, AttributesList, write_attribute,
}

-- A string as a buffer of n bytes gives it back.
abbrev pub kept : ℕ → Bytes → Bytes
kept n s = until_nul (truncate n s)

keep_attribute : Bytes → Bytes → AttributesList → AttributesList
keep_attribute key [] rest = rest
keep_attribute key (b ∷ value) rest = (key, b ∷ value) ∷ rest

-- Attributes whose value is empty are dropped.
pub kept_attributes : AttributesList → AttributesList
unfolding keep_attribute
kept_attributes [] = []
kept_attributes ((key, value) ∷ rest) =
    keep_attribute (kept 64 key) (kept 128 value) (kept_attributes rest)

-- A span as the file gives it back.
pub kept_span : MmapSize → Span → Span
unfolding kept_attributes
kept_span size span = record span {
  name = kept 64 span.name;
  attributes = kept_attributes (take (mmap_config size).max_attributes span.attributes);
}

stored_attribute : Bytes × Bytes → RawAttribute
stored_attribute (key, value) = record {
  key = padded 64 (truncate 64 key);
  value = padded 128 (truncate 128 value);
}

-- A raw span with the given attributes in front of the given rest of its array.
abbrev with_attributes : RawSpan → List RawAttribute → List RawAttribute → RawSpan
with_attributes r xs ys = record r { attr_count = length xs; attributes = xs ++ ys }

module _ {ℓ} {A : Type ℓ} where
  get_or-middle : (xs ys : List A) (a d : A) → get_or (xs ++ (a ∷ ys)) (length xs) d ≡ a
  get_or-middle [] ys a d = refl
  get_or-middle (x ∷ xs) ys a d = get_or-middle xs ys a d

  set-middle :
      (xs ys : List A) (a b : A) → set (xs ++ (a ∷ ys)) (length xs) b ≡ (xs ++ (b ∷ [])) ++ ys
  set-middle [] ys a b = refl
  set-middle (x ∷ xs) ys a b = ap (◌∷◌ x) (set-middle xs ys a b)

write_attribute-with_attributes :
    (r : RawSpan) (xs ys : List RawAttribute) (key value : Bytes)
    → write_attribute (with_attributes r xs (zero_attribute ∷ ys)) key value
      ≡ with_attributes r (xs ++ (stored_attribute (key, value) ∷ [])) ys
unfolding write_attribute stored_attribute zero_attribute
write_attribute-with_attributes r xs ys key value = rw (
  get_or-middle xs ys zero_attribute zero_attribute,
  copy_string2-copy_string key (replicate 64 0) value (replicate 128 0),
  copy_string-padded key (replicate 64 0),
  copy_string-padded value (replicate 128 0),
  set-middle xs ys zero_attribute (stored_attribute (key, value)),
  length-append xs (stored_attribute (key, value) ∷ []),
)

write_attributes-with_attributes :
    (m room : ℕ) (attrs : AttributesList) (r : RawSpan) (xs : List RawAttribute)
    → length xs + room ≡ m
    → write_attributes m attrs (with_attributes r xs (replicate room zero_attribute))
      ≡ with_attributes r
          (xs ++ map stored_attribute (take room attrs))
          (replicate (room - length (take room attrs)) zero_attribute)
unfolding write_attributes
write_attributes-with_attributes m zero [] r xs e = simp append-nil
write_attributes-with_attributes m (suc room) [] r xs e =
    let whole : suc room - 0 ≡ suc room = omega arith in rw (append-nil, whole)
write_attributes-with_attributes m zero ((key, value) ∷ rest) r xs e =
    let full : leb m (length xs) ≡ true = ground arith in rw full (simp append-nil)
write_attributes-with_attributes m (suc room) ((key, value) ∷ rest) r xs e =
    let more : leb m (length xs) ≡ false = ground arith in
    let xs' = xs ++ (stored_attribute (key, value) ∷ []) in
    let size : length xs' + room ≡ m =
      omega (arith, length-append xs (stored_attribute (key, value) ∷ [])) in
    let same : suc room - suc (length (take room rest)) ≡ room - length (take room rest) =
      omega arith in
    rw (
      more,
      write_attribute-with_attributes r xs (replicate room zero_attribute) key value,
      write_attributes-with_attributes m room rest r xs' size,
      append_assoc xs (stored_attribute (key, value) ∷ []) (map stored_attribute (take room rest)),
      same,
    )

c_str-kept : (n : ℕ) (s : Bytes) → 0 < n → c_str (padded n (truncate n s)) ≡ ok (kept n s)
c_str-kept n s h = c_str-padded n (truncate n s) (length-truncate-lt n s h)

read_attribute-keep :
    (a : RawAttribute) (key value : Bytes) (rest : AttributesList)
    → c_str a.key ≡ ok key
    → read_attribute a value rest ≡ ok (keep_attribute key value rest)
unfolding read_attribute keep_attribute
read_attribute-keep a key [] rest h = refl
read_attribute-keep a key (b ∷ value) rest h = rw h

read_attributes-stored :
    (attrs : AttributesList) (tail : List RawAttribute)
    → read_attributes (length (map stored_attribute attrs)) (map stored_attribute attrs ++ tail)
      ≡ ok (kept_attributes attrs)
unfolding read_attributes kept_attributes stored_attribute
read_attributes-stored [] tail = refl
read_attributes-stored ((key, value) ∷ rest) tail =
    rw (stored_attribute, c_str-kept 128 value (omega arith), read_attributes-stored rest tail)
      (read_attribute-keep (stored_attribute (key, value)) (kept 64 key) (kept 128 value)
        (kept_attributes rest) (c_str-kept 64 key (omega arith)))

-- The raw span before the loop over the attributes.
abbrev unattributed : MmapSize → Span → RawSpan
unattributed size span = record (zero_raw_span size) {
  trace_id = (span.trace_id.high, span.trace_id.low);
  span_id = span.span_id;
  parent_span_id = span.parent_span_id;
  start_time = span.start_time;
  end_time = span.end_time;
  name = copy_string span.name (replicate 64 0);
  attr_count = 0;
}

to_raw_span-with_attributes :
    (size : MmapSize) (span : Span)
    → let m = (mmap_config size).max_attributes in
      to_raw_span size span
      ≡ with_attributes
          (unattributed size span)
          (map stored_attribute (take m span.attributes))
          (replicate (m - length (take m span.attributes)) zero_attribute)
unfolding to_raw_span zero_raw_span
to_raw_span-with_attributes size span =
    let m = (mmap_config size).max_attributes in
    write_attributes-with_attributes m m span.attributes (unattributed size span) [] (omega arith)

pub span_id-to_raw_span :
    (size : MmapSize) (span : Span) → (to_raw_span size span).span_id ≡ span.span_id
span_id-to_raw_span size span =
    ap (λ (r : RawSpan). r.span_id) (to_raw_span-with_attributes size span)

-- Written to the file and read back, a span keeps its ids and times; its name is cut to 64 bytes,
-- of its attributes the first `max_attributes` stay, with keys cut to 64 and values to 128 bytes and
-- without those whose value is then empty. Each cut leaves room for the NUL, splits no character,
-- and a string ends at its first NUL.
pub of_raw_span-to_raw_span :
    (size : MmapSize) (span : Span) → of_raw_span (to_raw_span size span) ≡ ok (kept_span size span)
unfolding of_raw_span kept_span
of_raw_span-to_raw_span size span =
    let attrs = take (mmap_config size).max_attributes span.attributes in
    rw (
      to_raw_span-with_attributes size span,
      copy_string-padded span.name (replicate 64 0),
      c_str-kept 64 span.name (omega arith),
      read_attributes-stored attrs,
    )
