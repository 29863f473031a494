-- ===== src/Tests/Descriptors.antt =====
-- The descriptor code of src/core/ufs.rs at the dumps of a real part.
use flipperos_installer.Base.{ℕ, ◌+◌, ◌≤◌, ◌≢◌, ◌≡◌, refl, ok, arith}
use flipperos_installer.Samples.{
  foresee_device, foresee_geometry, foresee_dev, foresee_geo, by_hand,
}
use flipperos_installer.Ufs.Device.{parse_device}
use flipperos_installer.Ufs.Bytes.{
  be_at, u8_at, u16_at, u32_at, u64_at, from_be, from_be_from, get_range,
}
use flipperos_installer.Ufs.Geometry.{parse_geometry, total_alloc_units, alloc_unit_sectors}
use flipperos_installer.Ufs.Config.{
  ConfigDescriptor, lu, set_lu, LuConfig, lu_offset, has_lu_writebooster,
}
use flipperos_installer.Ufs.Config.Layout.{IsShaped, after_lu, set_lu_lem}
use flipperos_installer.Ufs.Config.RoundTrip.{IsWritable, lu-set_lu, set_lu_frame}
use flipperos_installer.Ufs.Error.{Error}

device_parses : parse_device foresee_device ≡ ok foresee_dev
unfolding parse_device u8_at u16_at u32_at get_range from_be from_be_from
device_parses = refl

geometry_parses : parse_geometry foresee_geometry ≡ ok foresee_geo
unfolding parse_geometry u8_at u16_at u32_at u64_at get_range from_be from_be_from
geometry_parses = refl

total_matches : total_alloc_units {E = Error} foresee_geo ≡ ok 15260
unfolding total_alloc_units alloc_unit_sectors
total_matches = refl

by_hand_reads : (lu by_hand 3).num_alloc_units ≡ 96
unfolding lu lu_offset u8_at u16_at u32_at get_range from_be from_be_from has_lu_writebooster
by_hand_reads = refl

by_hand-IsShaped : IsShaped by_hand
by_hand-IsShaped = record { base_big = omega arith; stride_big = omega arith; covers = omega arith }

-- The third unit, with half of its size and a dedicated buffer.
abbrev halved : LuConfig
halved = record {
  enable = 1;
  boot_lun_id = 0;
  write_protect = 0;
  memory_type = 3;
  num_alloc_units = 48;
  data_reliability = 1;
  logical_block_size = 12;
  provisioning_type = 2;
  context_capabilities = 0;
  writebooster_alloc_units = 70000;
}

halved-IsWritable : IsWritable (has_lu_writebooster by_hand) halved
unfolding has_lu_writebooster
halved-IsWritable = record {
  units_fit = omega arith;
  context_fits = omega arith;
  writebooster_fits = omega arith;
  writebooster_kept = λ e. ground arith;
}

lu-set_lu_example :
    (d' : ConfigDescriptor) × (set_lu {E = Error} by_hand 3 halved ≡ ok d')
    × IsShaped d'
    × (lu d' 3 ≡ halved)
lu-set_lu_example = lu-set_lu by_hand 3 halved by_hand-IsShaped (omega arith) halved-IsWritable

abbrev shrunk : ConfigDescriptor
shrunk = record by_hand { bytes = after_lu by_hand 3 halved }

set_lu_frame_example :
    ((j : ℕ) → 3 ≢ j → lu shrunk j ≡ lu by_hand j)
    × ((k n : ℕ) → k + n ≤ 22 → be_at n shrunk.bytes k ≡ be_at n by_hand.bytes k)
set_lu_frame_example =
    set_lu_frame by_hand shrunk 3 halved by_hand-IsShaped (omega arith)
      (set_lu_lem by_hand 3 halved by_hand-IsShaped (omega arith))
