-- ===== src/Span.antt =====
-- include/firebase/telemetry/persistence/span.h: a span as it is passed around, and its
-- conversions to and from the fixed-size struct in the file.
pub mod Valid
pub mod RoundTrip
use firebase_telemetry_persi.Common.{
  ℕ, zero, suc, ◌+◌, Bool, true, false, not, Option, none, some, List, [], ◌∷◌, Result, ok, fault,
  ◌>>=◌, ◌>>◌, assert, out_of_bounds, leb, ◌==◌, if◌then◌else◌, get_or, set,
}
use firebase_telemetry_persi.CopyString.{Bytes, copy_string, copy_string2}
use firebase_telemetry_persi.CopyString.Buffers.{c_str}
use firebase_telemetry_persi.Layout.{
  MmapSize, mmap_config, RawAttribute, RawSpan, zero_attribute, zero_raw_span,
}

abbrev pub AttributesList : Type 0
AttributesList = List (Bytes × Bytes)

pub record TraceId : Type 0 where
  pub high : ℕ
  pub low : ℕ

pub record Span : Type 0 where
  pub trace_id : TraceId
  pub span_id : ℕ
  pub parent_span_id : ℕ
  pub start_time : ℕ
  pub end_time : ℕ
  pub name : Bytes
  pub attributes : AttributesList

-- The constructor from the parts.
unfoldable pub make_span : TraceId → ℕ → ℕ → ℕ → ℕ → Bytes → AttributesList → Result Span
make_span trace_id span_id parent_span_id start_time end_time name attributes = do
  assert (not (span_id == 0))
  ok (record {
    trace_id = trace_id;
    span_id = span_id;
    parent_span_id = parent_span_id;
    start_time = start_time;
    end_time = end_time;
    name = name;
    attributes = attributes;
  })

-- An attribute is read unless its value is empty.
unfoldable pub read_attribute : RawAttribute → Bytes → AttributesList → Result AttributesList
read_attribute raw_attr [] rest = ok rest
read_attribute raw_attr (b ∷ value) rest = do key ← c_str raw_attr.key; ok ((key, b ∷ value) ∷ rest)

-- The loop of the constructor from a raw span: n rounds are left, and the list is the array from
-- the current index on.
unfoldable pub read_attributes : ℕ → List RawAttribute → Result AttributesList
unfolding read_attribute
read_attributes zero raw = ok []
read_attributes (suc n) [] = fault out_of_bounds
read_attributes (suc n) (raw_attr ∷ raw) = do
  value ← c_str raw_attr.value
  rest ← read_attributes n raw
  read_attribute raw_attr value rest

-- The fields that the constructor copies, beside what it has read.
abbrev pub read_fields : RawSpan → Bytes → AttributesList → Span
read_fields raw_span name attributes = record {
  trace_id = record { high = raw_span.trace_id.0; low = raw_span.trace_id.1 };
  span_id = raw_span.span_id;
  parent_span_id = raw_span.parent_span_id;
  start_time = raw_span.start_time;
  end_time = raw_span.end_time;
  name = name;
  attributes = attributes;
}

unfoldable pub of_raw_span : RawSpan → Result Span
unfolding read_attributes
of_raw_span raw_span = do
  name ← c_str raw_span.name
  attributes ← read_attributes raw_span.attr_count raw_span.attributes
  ok (read_fields raw_span name attributes)

-- One round of the loop of `to_raw_span`. The loop makes sure that there is room: the array has
-- `max_attributes` places, by its type.
unfoldable pub write_attribute : RawSpan → Bytes → Bytes → RawSpan
write_attribute raw_span key value =
    let i = raw_span.attr_count in
    let raw_attr = get_or raw_span.attributes i zero_attribute in
    let (key', value') = copy_string2 key raw_attr.key value raw_attr.value in
    record raw_span {
      attr_count = i + 1;
      attributes = set raw_span.attributes i (record { key = key'; value = value' });
    }

-- The loop of `to_raw_span`, with its `break`.
unfoldable pub write_attributes : ℕ → AttributesList → RawSpan → RawSpan
unfolding write_attribute
write_attributes max_attributes [] raw_span = raw_span
write_attributes max_attributes ((key, value) ∷ rest) raw_span =
    let raw_span' = write_attributes max_attributes rest (write_attribute raw_span key value) in
    if leb max_attributes raw_span.attr_count then raw_span else raw_span'

unfoldable pub to_raw_span : MmapSize → Span → RawSpan
unfolding write_attributes
to_raw_span size span =
    let zeroed = zero_raw_span size in
    write_attributes (mmap_config size).max_attributes span.attributes (record zeroed {
      trace_id = (span.trace_id.high, span.trace_id.low);
      span_id = span.span_id;
      parent_span_id = span.parent_span_id;
      start_time = span.start_time;
      end_time = span.end_time;
      name = copy_string span.name zeroed.name;
      attr_count = 0;
    })
