-- ===== src/Ufs/Geometry.antt =====
-- src/core/ufs.rs: the Geometry Descriptor, which turns allocation units into sizes.
use mathlib.Core.Option
use flipperos_installer.Base.{
  ℕ, suc, ◌+◌, ◌/◌, Bool, false, not, ◌||◌, List, [], ◌∷◌, Option, none, some, map, ltb, ◌==◌,
  if◌then◌else◌, length, find, get_elem?, bit_and, ok, err, panicked, bail_if, ◌>>◌, ◌*◌, Result,
  div_by,
}
use flipperos_installer.Ufs.Codes.{MemoryType, memory_types, memory_type_name, memory_type_normal}
use flipperos_installer.Ufs.Bytes.{u8_at, u16_at, u32_at, u64_at}
use flipperos_installer.Ufs.Error.{
  UfsResult, short_geometry_descriptor, zero_allocation_unit, unknown_memory_type, zero_cap_adj_fac,
}

-- The two tables are indexed by `bMemoryType`; they have seven entries each.
pub record GeometryDescriptor : Type 0 where
  pub total_raw_capacity : ℕ
  pub max_number_lu : ℕ
  pub segment_size : ℕ
  pub allocation_unit_size : ℕ
  pub supported_memory_types : ℕ
  pub max_alloc_units_table : List ℕ
  pub cap_adj_fac_table : List ℕ
  pub writebooster_max_alloc_units : ℕ
  pub max_writebooster_lus : ℕ
  pub writebooster_cap_adj_fac : ℕ
  pub writebooster_user_space_types : ℕ
  pub writebooster_buffer_types : ℕ

-- `MEMORY_TYPE_GEOMETRY_OFFSETS`
abbrev pub memory_type_geometry_offsets : List (Option ℕ)
memory_type_geometry_offsets =
    none ∷ some 0x20 ∷ some 0x26 ∷ some 0x2C ∷ some 0x32 ∷ some 0x38 ∷ some 0x3E ∷ []

abbrev pub max_alloc_units_at : List ℕ → Option ℕ → ℕ
max_alloc_units_at buf none = 0
max_alloc_units_at buf (some at) = u32_at buf at

abbrev pub cap_adj_fac_at : List ℕ → Option ℕ → ℕ
cap_adj_fac_at buf none = 0
cap_adj_fac_at buf (some at) = u16_at buf (at + 4)

abbrev geometry_fields : List ℕ → GeometryDescriptor
geometry_fields buf = record {
  total_raw_capacity = u64_at buf 0x04;
  max_number_lu = u8_at buf 0x0C;
  segment_size = u32_at buf 0x0D;
  allocation_unit_size = u8_at buf 0x11;
  supported_memory_types = u16_at buf 0x1E;
  max_alloc_units_table = map (max_alloc_units_at buf) memory_type_geometry_offsets;
  cap_adj_fac_table = map (cap_adj_fac_at buf) memory_type_geometry_offsets;
  writebooster_max_alloc_units = u32_at buf 0x4F;
  max_writebooster_lus = u8_at buf 0x53;
  writebooster_cap_adj_fac = u8_at buf 0x54;
  writebooster_user_space_types = u8_at buf 0x55;
  writebooster_buffer_types = u8_at buf 0x56;
}

-- `GeometryDescriptor::parse`
unfoldable pub parse_geometry : List ℕ → UfsResult GeometryDescriptor
parse_geometry buf = do
  bail_if (ltb (length buf) 0x21) (short_geometry_descriptor (length buf))
  let g = geometry_fields buf
  bail_if (g.segment_size == 0 || g.allocation_unit_size == 0) zero_allocation_unit
  ok g

-- A 32-bit and an 8-bit number, whose product fits 64 bits also 512 times.
unfoldable pub alloc_unit_sectors : GeometryDescriptor → ℕ
alloc_unit_sectors g = g.segment_size * g.allocation_unit_size

unfoldable pub alloc_unit_bytes : GeometryDescriptor → ℕ
alloc_unit_bytes g = alloc_unit_sectors g * 512

unfoldable pub total_alloc_units : {E : Type 0} → GeometryDescriptor → Result E ℕ
total_alloc_units g = div_by g.total_raw_capacity (alloc_unit_sectors g)

-- `Iterator::position` over `MEMORY_TYPES`
abbrev position : ℕ → List MemoryType → Option ℕ
position t [] = none
position t (row ∷ rows) = if row.code == t then some 0 else Option.map suc (position t rows)

unfoldable pub memory_type_index : ℕ → Option ℕ
memory_type_index t = position t memory_types

-- `cap_adj_fac[index] / 256`, or why it cannot be used.
abbrev scaled_cap_adj_fac : ℕ → ℕ → UfsResult ℕ
scaled_cap_adj_fac t raw =
    if raw / 256 == 0 then err (zero_cap_adj_fac (memory_type_name t)) else ok (raw / 256)

-- The tables have an entry for every index, so the `none` below is the panic that indexing would be.
unfoldable pub cap_adj_fac : GeometryDescriptor → ℕ → UfsResult ℕ
unfolding memory_type_index
cap_adj_fac g t = elim (memory_type_index t) [
  | none ↦ err (unknown_memory_type t)
  | some index ↦
      if t == memory_type_normal then ok 1 else elim (get_elem? g.cap_adj_fac_table index) [
        | none ↦ panicked
        | some raw ↦ scaled_cap_adj_fac t raw
      ]
]

abbrev ceiling_of : Option (Option ℕ) → Option ℕ → Option ℕ
ceiling_of (some (some offset)) units = units
ceiling_of (some none) units = none
ceiling_of none units = none

-- `None` where the type has no ceiling of its own: normal memory, and what is no memory type.
unfoldable pub max_alloc_units : GeometryDescriptor → ℕ → Option ℕ
unfolding memory_type_index
max_alloc_units g t = elim (memory_type_index t) [
  | none ↦ none
  | some index ↦
      ceiling_of (get_elem? memory_type_geometry_offsets index)
        (get_elem? g.max_alloc_units_table index)
]

unfoldable pub supports_memory_type : GeometryDescriptor → ℕ → Bool
supports_memory_type g t = elim (find (λ row. row.code == t) memory_types) [
  | some row ↦ not (bit_and g.supported_memory_types row.bit == 0)
  | none ↦ false
]

unfoldable pub writebooster_can_preserve_user_space : GeometryDescriptor → Bool
writebooster_can_preserve_user_space g =
    (g.writebooster_user_space_types == 0x01) || (g.writebooster_user_space_types == 0x02)

unfoldable pub writebooster_supports_shared : GeometryDescriptor → Bool
writebooster_supports_shared g =
    (g.writebooster_buffer_types == 0x01) || (g.writebooster_buffer_types == 0x02)
