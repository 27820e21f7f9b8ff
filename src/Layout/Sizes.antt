-- ===== src/Layout/Sizes.antt =====
-- The sizes of the layouts in the file.
use firebase_telemetry_persi.Common.{ℕ, ◌≤◌, ◌≡◌, refl, arith}
use firebase_telemetry_persi.Layout.{
  MmapSize, small, medium, large, value_of, sizeof_memory_layout, layout_of, get_memory_layout_size,
}

-- The value of an enumerator selects its own layout.
pub layout_of-value_of : (size : MmapSize) → layout_of (value_of size) ≡ size
unfolding layout_of
layout_of-value_of small = refl
layout_of-value_of medium = refl
layout_of-value_of large = refl

pub get_memory_layout_size-value_of :
    (size : MmapSize) → get_memory_layout_size (value_of size) ≡ sizeof_memory_layout size
unfolding get_memory_layout_size
get_memory_layout_size-value_of small = refl
get_memory_layout_size-value_of medium = refl
get_memory_layout_size-value_of large = refl

pub get_memory_layout_size-bounds :
    (v : ℕ) → (409632 ≤ get_memory_layout_size v) × (get_memory_layout_size v ≤ 50593824)
unfolding get_memory_layout_size
get_memory_layout_size-bounds v = ground arith
