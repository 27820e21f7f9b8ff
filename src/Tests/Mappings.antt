-- ===== src/Tests/Mappings.antt =====
-- The theorem on mappings at two owners of a region each.
use firebase_telemetry_persi.Common.{◌≡◌, ◌++◌, true, false, ok, [], arith}
use firebase_telemetry_persi.ManagedMmap.{
  ManagedMmap, is_initialized, destroy, move_construct, move_assign, convert_construct,
  convert_assign, moves_conserve,
}

abbrev low_region : ManagedMmap
low_region = record { mmap_ptr = 4096; required_size = 8192 }

abbrev high_region : ManagedMmap
high_region = record { mmap_ptr = 65536; required_size = 413696 }

moves_conserve_example :
    let (t, o, unmapped) = move_assign false low_region high_region in
    (is_initialized o ≡ false)
    × (unmapped ++ (destroy t ++ destroy o) ≡ destroy low_region ++ destroy high_region)
    × (move_assign true low_region low_region ≡ (low_region, low_region, []))
    × (move_construct high_region ≡ (t, o))
    × (convert_construct 409632 high_region ≡ ok (t, o))
    × (convert_assign 409632 low_region high_region ≡ ok (t, o, unmapped))
moves_conserve_example = moves_conserve 409632 low_region high_region (omega arith)
