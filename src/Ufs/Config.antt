-- ===== src/Ufs/Config.antt =====
-- src/core/ufs.rs: the Configuration Descriptor, its header and its eight logical-unit blocks.
pub mod Fields
pub mod Layout
pub mod RoundTrip
pub use Fields.{Field, write_fields, LuConfig}
use flipperos_installer.Base.{
  ℕ, zero, suc, ◌+◌, ◌*◌, ◌/◌, ◌%◌, Bool, not, List, [], ◌∷◌, ◌++◌, map, leb, ltb, ◌==◌,
  if◌then◌else◌, length, replicate, Result, ok, bail_if, unwrap_or, ◌>>=◌, ◌>>◌, mul64,
}
use flipperos_installer.Ufs.Codes.{lus_per_config_desc}
use flipperos_installer.Ufs.Bytes.{u8_at, u16_at, u32_at, to_be16, to_be32}
use flipperos_installer.Ufs.Error.{UfsResult, short_config_descriptor}
use flipperos_installer.Ufs.Device.{DeviceDescriptor, config_desc_len, cfg_lu_wb_alloc_units}
use flipperos_installer.Ufs.Geometry.{GeometryDescriptor, cap_adj_fac, alloc_unit_bytes}

unfoldable pub enabled : LuConfig → Bool
enabled lu = not (lu.enable == 0)

-- `LuConfig::size_bytes`
unfoldable pub size_bytes : LuConfig → GeometryDescriptor → ℕ
size_bytes lu geo =
    mul64 lu.num_alloc_units (alloc_unit_bytes geo) / unwrap_or (cap_adj_fac geo lu.memory_type) 1

pub record ConfigDescriptor : Type 0 where
  pub bytes : List ℕ
  pub base : ℕ
  pub stride : ℕ

-- `ConfigDescriptor::new`
unfoldable pub wrap_config : List ℕ → DeviceDescriptor → UfsResult ConfigDescriptor
wrap_config bytes dev = do
  let want = config_desc_len dev
  bail_if (ltb (length bytes) want) (short_config_descriptor (length bytes) want)
  ok (record { bytes = bytes; base = dev.ud0_base_offset; stride = dev.ud_config_p_length })

-- `ConfigDescriptor::empty`
unfoldable pub empty_config {ℓ} : {E : Type ℓ} → DeviceDescriptor → Result E ConfigDescriptor
unfolding write_fields
empty_config dev = do
  let len = config_desc_len dev
  bytes ← write_fields (replicate len 0) 0 ((0x00, (len % 256) ∷ []) ∷ (0x01, 0x01 ∷ []) ∷ [])
  ok (record { bytes = bytes; base = dev.ud0_base_offset; stride = dev.ud_config_p_length })

unfoldable pub lu_offset : ConfigDescriptor → ℕ → ℕ
lu_offset d lu = d.base + lu * d.stride

unfoldable pub has_lu_writebooster : ConfigDescriptor → Bool
has_lu_writebooster d = leb (cfg_lu_wb_alloc_units + 4) d.stride

-- The header getters. Indexing past the end would panic; every descriptor covers its header.
abbrev pub boot_enable : ConfigDescriptor → ℕ
boot_enable d = u8_at d.bytes 0x03

abbrev pub conf_desc_continue : ConfigDescriptor → ℕ
conf_desc_continue d = u8_at d.bytes 0x02

abbrev pub descr_access_en : ConfigDescriptor → ℕ
descr_access_en d = u8_at d.bytes 0x04

abbrev pub init_power_mode : ConfigDescriptor → ℕ
init_power_mode d = u8_at d.bytes 0x05

abbrev pub high_priority_lun : ConfigDescriptor → ℕ
high_priority_lun d = u8_at d.bytes 0x06

abbrev pub secure_removal_type : ConfigDescriptor → ℕ
secure_removal_type d = u8_at d.bytes 0x07

abbrev pub init_active_icc_level : ConfigDescriptor → ℕ
init_active_icc_level d = u8_at d.bytes 0x08

abbrev pub periodic_rtc_update : ConfigDescriptor → ℕ
periodic_rtc_update d = u16_at d.bytes 0x09

abbrev pub writebooster_preserve_user_space : ConfigDescriptor → ℕ
writebooster_preserve_user_space d = u8_at d.bytes 0x10

abbrev pub writebooster_buffer_type : ConfigDescriptor → ℕ
writebooster_buffer_type d = u8_at d.bytes 0x11

abbrev pub writebooster_shared_alloc_units : ConfigDescriptor → ℕ
writebooster_shared_alloc_units d = u32_at d.bytes 0x12

-- Writes fields at an offset of the descriptor's bytes.
abbrev write_at {ℓ} : {E : Type ℓ} → ConfigDescriptor → ℕ → List Field → Result E ConfigDescriptor
write_at d at fields = write_fields d.bytes at fields >>= λ bytes. ok (record d { bytes = bytes })

unfoldable pub set_conf_desc_continue {ℓ} :
    {E : Type ℓ} → ConfigDescriptor → ℕ → Result E ConfigDescriptor
unfolding write_fields
set_conf_desc_continue d value = write_at d 0 ((0x02, value ∷ []) ∷ [])

abbrev pub header_fields : ℕ → ℕ → ℕ → ℕ → ℕ → ℕ → ℕ → List Field
header_fields boot access power lun removal icc rtc =
    (0x03, boot ∷ [])
    ∷ (0x04, access ∷ [])
    ∷ (0x05, power ∷ [])
    ∷ (0x06, lun ∷ [])
    ∷ (0x07, removal ∷ [])
    ∷ (0x08, icc ∷ [])
    ∷ (0x09, to_be16 rtc)
    ∷ []

unfoldable pub set_header {ℓ} :
    {E : Type ℓ}
    → ConfigDescriptor
    → (boot access power lun removal icc rtc : ℕ) → Result E ConfigDescriptor
unfolding write_fields
set_header d boot access power lun removal icc rtc =
    write_at d 0 (header_fields boot access power lun removal icc rtc)

abbrev pub shared_fields : ℕ → ℕ → List Field
shared_fields preserve units =
    (0x10, preserve ∷ []) ∷ (0x11, 0x01 ∷ []) ∷ (0x12, to_be32 units) ∷ []

unfoldable pub set_shared_writebooster {ℓ} :
    {E : Type ℓ} → ConfigDescriptor → (preserve units : ℕ) → Result E ConfigDescriptor
unfolding write_fields
set_shared_writebooster d preserve units = write_at d 0 (shared_fields preserve units)

abbrev pub dedicated_fields : ℕ → List Field
dedicated_fields preserve = (0x10, preserve ∷ []) ∷ (0x11, 0x00 ∷ []) ∷ []

unfoldable pub set_lu_dedicated_writebooster {ℓ} :
    {E : Type ℓ} → ConfigDescriptor → (preserve : ℕ) → Result E ConfigDescriptor
unfolding write_fields
set_lu_dedicated_writebooster d preserve = write_at d 0 (dedicated_fields preserve)

-- `ConfigDescriptor::lu`, from the bytes at the block's offset.
abbrev pub read_block : List ℕ → Bool → ℕ → LuConfig
read_block bytes has_wb at = record {
  enable = u8_at bytes (at + 0x00);
  boot_lun_id = u8_at bytes (at + 0x01);
  write_protect = u8_at bytes (at + 0x02);
  memory_type = u8_at bytes (at + 0x03);
  num_alloc_units = u32_at bytes (at + 0x04);
  data_reliability = u8_at bytes (at + 0x08);
  logical_block_size = u8_at bytes (at + 0x09);
  provisioning_type = u8_at bytes (at + 0x0A);
  context_capabilities = u16_at bytes (at + 0x0B);
  writebooster_alloc_units = if has_wb then u32_at bytes (at + cfg_lu_wb_alloc_units) else 0;
}

unfoldable pub lu : ConfigDescriptor → ℕ → LuConfig
unfolding has_lu_writebooster lu_offset
lu d i = read_block d.bytes (has_lu_writebooster d) (lu_offset d i)

-- What `set_lu` writes, in its order.
abbrev pub block_fields : Bool → LuConfig → List Field
block_fields has_wb cfg =
    (0x00, cfg.enable ∷ [])
    ∷ (0x01, cfg.boot_lun_id ∷ [])
    ∷ (0x02, cfg.write_protect ∷ [])
    ∷ (0x03, cfg.memory_type ∷ [])
    ∷ (0x04, to_be32 cfg.num_alloc_units)
    ∷ (0x08, cfg.data_reliability ∷ [])
    ∷ (0x09, cfg.logical_block_size ∷ [])
    ∷ (0x0A, cfg.provisioning_type ∷ [])
    ∷ (0x0B, to_be16 cfg.context_capabilities)
    ∷ (if has_wb then (cfg_lu_wb_alloc_units, to_be32 cfg.writebooster_alloc_units) ∷ [] else [])

unfoldable pub set_lu {ℓ} :
    {E : Type ℓ} → ConfigDescriptor → ℕ → LuConfig → Result E ConfigDescriptor
unfolding write_fields has_lu_writebooster lu_offset
set_lu d i cfg = write_at d (lu_offset d i) (block_fields (has_lu_writebooster d) cfg)

-- `(0..LUS_PER_CONFIG_DESC).map(|i| self.lu(i))`
unfoldable pub lus : ConfigDescriptor → List LuConfig
unfolding lu
lus d = map (lu d) (0 ∷ 1 ∷ 2 ∷ 3 ∷ 4 ∷ 5 ∷ 6 ∷ 7 ∷ [])
