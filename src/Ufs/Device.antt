-- ===== src/Ufs/Device.antt =====
-- src/core/ufs.rs: the Device Descriptor and the Unit Descriptor.
use flipperos_installer.Base.{
  ℕ, ◌+◌, ◌*◌, ◌^◌, ◌%◌, Bool, not, ◌||◌, List, leb, ltb, ◌==◌, length, bit_and, ok, bail_if, ◌>>◌,
  u64_mod,
}
use flipperos_installer.Ufs.Codes.{lus_per_config_desc}
use flipperos_installer.Ufs.Bytes.{u8_at, u16_at, u32_at, u64_at}
use flipperos_installer.Ufs.Error.{
  UfsResult, short_device_descriptor, unusable_layout, short_unit_descriptor,
}

pub record DeviceDescriptor : Type 0 where
  pub number_lu : ℕ
  pub boot_enable : ℕ
  pub spec_version : ℕ
  pub ud0_base_offset : ℕ
  pub ud_config_p_length : ℕ
  pub extended_features : ℕ

abbrev device_fields : List ℕ → DeviceDescriptor
device_fields buf = record {
  number_lu = u8_at buf 0x06;
  boot_enable = u8_at buf 0x08;
  spec_version = u16_at buf 0x10;
  ud0_base_offset = u8_at buf 0x1A;
  ud_config_p_length = u8_at buf 0x1B;
  extended_features = u32_at buf 0x4F;
}

-- `DeviceDescriptor::parse`
unfoldable pub parse_device : List ℕ → UfsResult DeviceDescriptor
parse_device buf = do
  bail_if (ltb (length buf) 0x1C) (short_device_descriptor (length buf))
  let d = device_fields buf
  bail_if (ltb d.ud0_base_offset 0x10 || ltb d.ud_config_p_length 0x10)
      (unusable_layout d.ud0_base_offset d.ud_config_p_length)
  ok d

unfoldable pub writebooster_supported : DeviceDescriptor → Bool
writebooster_supported d = not (bit_and d.extended_features (2 ^ 8) == 0)

unfoldable pub config_desc_len : DeviceDescriptor → ℕ
config_desc_len d = d.ud0_base_offset + lus_per_config_desc * d.ud_config_p_length

-- `CFG_LU_WB_ALLOC_UNITS`
abbrev pub cfg_lu_wb_alloc_units : ℕ
cfg_lu_wb_alloc_units = 0x16

unfoldable pub lu_block_has_writebooster : DeviceDescriptor → Bool
lu_block_has_writebooster d = leb (cfg_lu_wb_alloc_units + 4) d.ud_config_p_length

pub record UnitDescriptor : Type 0 where
  pub lun : ℕ
  pub boot_lun_id : ℕ
  pub memory_type : ℕ
  pub logical_block_size : ℕ
  pub logical_block_count : ℕ

-- `UnitDescriptor::parse`
unfoldable pub parse_unit : List ℕ → UfsResult UnitDescriptor
parse_unit buf = do
  bail_if (ltb (length buf) 0x13) (short_unit_descriptor (length buf))
  ok (record {
    lun = u8_at buf 0x02;
    boot_lun_id = u8_at buf 0x04;
    memory_type = u8_at buf 0x08;
    logical_block_size = u8_at buf 0x0A;
    logical_block_count = u64_at buf 0x0B;
  })

-- `UnitDescriptor::size_bytes`: `<<` on a `u64` takes the shift modulo 64 in a release build.
unfoldable pub unit_size_bytes : UnitDescriptor → ℕ
unit_size_bytes u = u.logical_block_count * 2 ^ (u.logical_block_size % 64) % u64_mod
