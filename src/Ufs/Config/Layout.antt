-- ===== src/Ufs/Config/Layout.antt =====
-- The shape that every Configuration Descriptor has, and that no operation changes.
use flipperos_installer.Base.{
  ℕ, ◌+◌, ◌*◌, ◌%◌, ◌≤◌, ◌<◌, ◌≡◌, refl, Bool, true, false, List, [], ◌∷◌, length, All,
  length-replicate, replicate, ok, arith,
}
use flipperos_installer.Ufs.Bytes.{to_be16, to_be32}
use flipperos_installer.Ufs.Bytes.Laws.{Apart}
use flipperos_installer.Ufs.Device.{DeviceDescriptor, parse_device, config_desc_len}
use flipperos_installer.Ufs.Config.{
  ConfigDescriptor, Field, LuConfig, wrap_config, empty_config, block_fields, set_lu, lu_offset,
  has_lu_writebooster,
}
use flipperos_installer.Ufs.Config.Fields.{splices, length-splices, Fits, Misses, write_fields-Fits}

-- What the Device Descriptor's own check leaves.
pub record IsUsable (dev : DeviceDescriptor) : Type 0 where
  pub base_big : 0x10 ≤ dev.ud0_base_offset
  pub stride_big : 0x10 ≤ dev.ud_config_p_length

pub parse_device-IsUsable :
    (buf : List ℕ) (dev : DeviceDescriptor) → parse_device buf ≡ ok dev → IsUsable dev
unfolding parse_device
parse_device-IsUsable buf dev h = ground arith

pub record IsShaped (d : ConfigDescriptor) : Type 0 where
  pub base_big : 0x10 ≤ d.base
  pub stride_big : 0x10 ≤ d.stride
  pub covers : d.base + 8 * d.stride ≤ length d.bytes

pub wrap_config-IsShaped :
    (buf : List ℕ) (dev : DeviceDescriptor) (d : ConfigDescriptor)
    → IsUsable dev
    → wrap_config buf dev ≡ ok d
    → IsShaped d × (d.base ≡ dev.ud0_base_offset) × (d.stride ≡ dev.ud_config_p_length)
unfolding wrap_config config_desc_len
wrap_config-IsShaped buf dev d u h = ground arith

abbrev pub empty_fields : DeviceDescriptor → List Field
empty_fields dev = (0x00, (config_desc_len dev % 256) ∷ []) ∷ (0x01, 0x01 ∷ []) ∷ []

-- `empty_config` never panics on a usable device, and gives a descriptor of the device's shape.
pub empty_config_lem {ℓ} :
    {E : Type ℓ} (dev : DeviceDescriptor)
    → IsUsable dev
    → (d : ConfigDescriptor) × (empty_config {E = E} dev ≡ ok d)
      × (d.bytes ≡ splices (replicate (config_desc_len dev) 0) 0 (empty_fields dev))
      × (d.base ≡ dev.ud0_base_offset)
      × (d.stride ≡ dev.ud_config_p_length)
unfolding empty_config
empty_config_lem dev u =
    let zeros : List ℕ = replicate (config_desc_len dev) 0 in
    let fits : 2 ≤ length zeros =
      omega (arith, length-replicate {A = ℕ} (config_desc_len dev) 0, len) in
    (
      record {
        bytes = splices zeros 0 (empty_fields dev);
        base = dev.ud0_base_offset;
        stride = dev.ud_config_p_length;
      },
      rw (write_fields-Fits (length zeros) zeros 0 (empty_fields dev) refl (omega arith)),
      refl,
      refl,
      refl,
    )
  where
    len : 2 ≤ config_desc_len dev
    len = unfold config_desc_len in omega arith

pub offset_in :
    (d : ConfigDescriptor) (i : ℕ) → IsShaped d → i < 8 → lu_offset d i + d.stride ≤ length d.bytes
unfolding lu_offset
offset_in d i s h = grind arith

-- The writes of one block lie inside it.
pub block_fields-Fits :
    (has_wb : Bool) (cfg : LuConfig) (size at stride : ℕ)
    → at + stride ≤ size
    → 16 ≤ stride
    → (has_wb ≡ true → 26 ≤ stride)
    → All (Fits size at) (block_fields has_wb cfg)
unfolding to_be16 to_be32
block_fields-Fits true cfg size at stride room least wb =
    let most : 26 ≤ stride = wb refl in omega arith
block_fields-Fits false cfg size at stride room least wb = omega arith

-- They touch nothing outside it.
pub block_fields-Misses :
    (has_wb : Bool) (cfg : LuConfig) (at stride k n : ℕ)
    → 16 ≤ stride
    → (has_wb ≡ true → 26 ≤ stride)
    → Apart at stride k n
    → All (Misses at k n) (block_fields has_wb cfg)
unfolding to_be16 to_be32
block_fields-Misses true cfg at stride k n least wb apart =
    let most : 26 ≤ stride = wb refl in omega arith
block_fields-Misses false cfg at stride k n least wb apart = omega arith

pub has_lu_writebooster-le : (d : ConfigDescriptor) → has_lu_writebooster d ≡ true → 26 ≤ d.stride
unfolding has_lu_writebooster
has_lu_writebooster-le d h = ground arith

-- The bytes that `set_lu` leaves.
abbrev pub after_lu : ConfigDescriptor → ℕ → LuConfig → List ℕ
after_lu d i cfg = splices d.bytes (lu_offset d i) (block_fields (has_lu_writebooster d) cfg)

-- On a shaped descriptor no write of `set_lu` is out of range, and the shape stays.
pub set_lu_lem {ℓ} :
    {E : Type ℓ} (d : ConfigDescriptor) (i : ℕ) (cfg : LuConfig)
    → IsShaped d
    → i < 8
    → set_lu {E = E} d i cfg ≡ ok (record d { bytes = after_lu d i cfg })
unfolding set_lu
set_lu_lem d i cfg s h = rw (
    write_fields-Fits (length d.bytes) d.bytes (lu_offset d i)
      (block_fields (has_lu_writebooster d) cfg) refl
      (block_fields-Fits (has_lu_writebooster d) cfg (length d.bytes) (lu_offset d i) d.stride
        (offset_in d i s h) s.stride_big (has_lu_writebooster-le d)))

pub after_lu-IsShaped :
    (d : ConfigDescriptor) (i : ℕ) (cfg : LuConfig)
    → IsShaped d
    → IsShaped (record d { bytes = after_lu d i cfg })
after_lu-IsShaped d i cfg s = record {
  base_big = s.base_big;
  stride_big = s.stride_big;
  covers =
      omega
        (arith, length-splices d.bytes (lu_offset d i) (block_fields (has_lu_writebooster d) cfg));
}
