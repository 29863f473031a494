-- ===== src/Ufs/Codes.antt =====
-- src/core/ufs.rs: the numeric codes of the UFS standard and their names.
use mathlib.Core.Option
use flipperos_installer.Base.{
  ℕ, ◌^◌, Bool, List, [], ◌∷◌, Option, ◌==◌, if◌then◌else◌, find, Text, codes, eq_ignore_case,
  bit_and, get_or_else,
}

abbrev pub memory_type_normal : ℕ
memory_type_normal = 0x00

abbrev pub memory_type_enhanced1 : ℕ
memory_type_enhanced1 = 0x03

-- One row of `MEMORY_TYPES`: the code, the bit that advertises it, and its name.
pub record MemoryType : Type 0 where
  pub code : ℕ
  pub bit : ℕ
  pub name : Text

abbrev pub memory_type_row : ℕ → ℕ → Text → MemoryType
memory_type_row c b n = record { code = c; bit = b; name = n }

abbrev pub memory_types : List MemoryType
memory_types =
    memory_type_row 0x00 (2 ^ 0) (codes "normal")
    ∷ memory_type_row 0x01 (2 ^ 1) (codes "system code")
    ∷ memory_type_row 0x02 (2 ^ 2) (codes "non-persistent")
    ∷ memory_type_row 0x03 (2 ^ 3) (codes "enhanced1")
    ∷ memory_type_row 0x04 (2 ^ 4) (codes "enhanced2")
    ∷ memory_type_row 0x05 (2 ^ 5) (codes "enhanced3")
    ∷ memory_type_row 0x06 (2 ^ 6) (codes "enhanced4")
    ∷ []

unfoldable pub memory_type_name : ℕ → Text
memory_type_name code =
    get_or_else (Option.map (λ row. row.name) (find (λ row. row.code == code) memory_types))
      (codes "unknown")

unfoldable pub memory_type_from_name : Text → Option ℕ
memory_type_from_name name =
    Option.map (λ row. row.code) (find (λ row. eq_ignore_case row.name name) memory_types)

abbrev pub boot_lun_none : ℕ
boot_lun_none = 0x00

abbrev pub boot_lun_a : ℕ
boot_lun_a = 0x01

abbrev pub boot_lun_b : ℕ
boot_lun_b = 0x02

abbrev pub provisioning_thin : ℕ
provisioning_thin = 0x02

unfoldable pub boot_lu_name : ℕ → Text
boot_lu_name id =
    if id == boot_lun_a then codes "A" else if id == boot_lun_b then codes "B" else codes "none"

abbrev pub lus_per_config_desc : ℕ
lus_per_config_desc = 8

abbrev pub max_number_lu_32 : ℕ
max_number_lu_32 = 0x01

abbrev pub scsi_w_lun_base : ℕ
scsi_w_lun_base = 0xc100

unfoldable pub is_well_known_lun : ℕ → Bool
is_well_known_lun lun = bit_and lun 0xff00 == scsi_w_lun_base

-- `query_response_name`
unfoldable pub query_response_name : ℕ → Text
query_response_name r =
    if r == 0xF6
    then codes "parameter not readable"
    else if r == 0xF7
    then codes "parameter not writeable"
    else if r == 0xF8
    then codes "parameter already written"
    else if r == 0xF9
    then codes "invalid length"
    else if r == 0xFA
    then codes "invalid value"
    else if r == 0xFB
    then codes "invalid selector"
    else if r == 0xFC
    then codes "invalid index"
    else if r == 0xFD
    then codes "invalid IDN"
    else if r == 0xFE
    then codes "invalid opcode"
    else if r == 0xFF
    then codes "general failure"
    else codes "unknown failure"
