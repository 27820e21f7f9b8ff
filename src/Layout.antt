-- ===== src/Layout.antt =====
-- The memory-mapped file: include/firebase/telemetry/persistence/mmap_size.h, and mmap_config.h,
-- marked_span.h, header.h (the struct), memory_layout.h and types.h of its folder detail/.
-- `std::uint64_t` fields are numbers; a `char[N]` is the list of its N bytes.
pub mod Sizes
use firebase_telemetry_persi.Common.{ℕ, ◌+◌, ◌*◌, Bool, List, ◌==◌, if◌then◌else◌, replicate}
use firebase_telemetry_persi.CopyString.{Bytes}

-- The enumerators, which are also the template arguments.
pub data MmapSize : Type 0 where
  small medium large : MmapSize

-- Their values. A variable of the enum's type, read from a file or cast from a Java ordinal, can
-- hold any `std::uint64_t`: such a variable is a number.
abbrev pub value_of : MmapSize → ℕ
value_of small = 0
value_of medium = 1
value_of large = 2

pub record MmapConfig : Type 0 where
  pub max_spans : ℕ
  pub max_attributes : ℕ

abbrev pub mmap_config : MmapSize → MmapConfig
mmap_config large = record { max_spans = 2048; max_attributes = 128 }
mmap_config medium = record { max_spans = 1024; max_attributes = 64 }
mmap_config small = record { max_spans = 128; max_attributes = 16 }

pub record RawAttribute : Type 0 where
  pub key : Bytes
  pub value : Bytes

-- `trace_id[0]` and `trace_id[1]` are the two parts of `trace_id`.
pub record RawSpan : Type 0 where
  pub trace_id : ℕ × ℕ
  pub span_id : ℕ
  pub parent_span_id : ℕ
  pub start_time : ℕ
  pub end_time : ℕ
  pub name : Bytes
  pub attr_count : ℕ
  pub attributes : List RawAttribute

pub record MarkedSpan : Type 0 where
  pub mark : ℕ
  pub span : RawSpan

pub record Header : Type 0 where
  pub signature : ℕ
  pub version : ℕ
  pub mmap_size : ℕ
  pub active_span_count : ℕ

pub record MemoryLayout : Type 0 where
  pub header : Header
  pub marked_spans : List MarkedSpan

-- The structs with all bytes zero, as `memset` leaves them.
unfoldable pub zero_attribute : RawAttribute
zero_attribute = record { key = replicate 64 0; value = replicate 128 0 }

unfoldable pub zero_raw_span : MmapSize → RawSpan
unfolding zero_attribute
zero_raw_span size = record {
  trace_id = (0, 0);
  span_id = 0;
  parent_span_id = 0;
  start_time = 0;
  end_time = 0;
  name = replicate 64 0;
  attr_count = 0;
  attributes = replicate (mmap_config size).max_attributes zero_attribute;
}

unfoldable pub zero_marked_span : MmapSize → MarkedSpan
unfolding zero_raw_span
zero_marked_span size = record { mark = 0; span = zero_raw_span size }

-- `sizeof` of the packed structs.
abbrev pub sizeof_raw_attribute : ℕ
sizeof_raw_attribute = 64 + 128

abbrev pub sizeof_raw_span : MmapSize → ℕ
sizeof_raw_span size =
    2 * 8 + 8 + 8 + 8 + 8 + 64 + 8 + (mmap_config size).max_attributes * sizeof_raw_attribute

abbrev pub sizeof_marked_span : MmapSize → ℕ
sizeof_marked_span size = 8 + sizeof_raw_span size

abbrev pub sizeof_header : ℕ
sizeof_header = 8 + 8 + 8 + 8

abbrev pub sizeof_memory_layout : MmapSize → ℕ
sizeof_memory_layout size = sizeof_header + (mmap_config size).max_spans * sizeof_marked_span size

-- The `switch`: any value but the two larger enumerators' takes the small layout.
unfoldable pub layout_of : ℕ → MmapSize
layout_of mmap_size =
    if mmap_size == value_of large
    then large
    else if mmap_size == value_of medium
    then medium
    else small

unfoldable pub get_memory_layout_size : ℕ → ℕ
unfolding layout_of
get_memory_layout_size mmap_size = sizeof_memory_layout (layout_of mmap_size)
