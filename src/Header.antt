-- ===== src/Header.antt =====
-- include/firebase/telemetry/persistence/detail/header.h and src/header.cpp: what tells a file of
-- this library from another. A `ManagedMmap<Header>` is the header it maps, or nothing when it is
-- not initialised.
use firebase_telemetry_persi.Common.{ℕ, Bool, false, ◌&&◌, ◌||◌, Option, none, some, ◌==◌}
use firebase_telemetry_persi.Layout.{small, medium, large, value_of, Header}

abbrev pub header_version : ℕ
header_version = 2

-- "CRSH", read as a little-endian number.
abbrev pub header_signature : ℕ
header_signature = 1213416003

unfoldable pub is_supported_size : ℕ → Bool
is_supported_size mmap_size =
    (mmap_size == value_of small) || (mmap_size == value_of medium) || (mmap_size == value_of large)

unfoldable pub is_header_valid : Option Header → Bool
is_header_valid none = false
is_header_valid (some header) =
    (header.signature == header_signature) && is_supported_size header.mmap_size

unfoldable pub is_header_version_current : Option Header → Bool
is_header_version_current none = false
is_header_version_current (some header) = header.version == header_version

-- Every field is stored.
unfoldable pub reset_header : Option Header → ℕ → Option Header
reset_header none mmap_size = none
reset_header (some header) mmap_size = some (record {
  signature = header_signature;
  version = header_version;
  mmap_size = mmap_size;
  active_span_count = 0;
})
