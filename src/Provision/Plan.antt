-- ===== src/Provision/Plan.antt =====
-- src/core/provision.rs: `plan`, the Configuration Descriptor that puts a scheme onto a device.
-- The log lines that `plan` collects beside it are not modelled.
pub mod Placed
pub mod Capacity
pub mod Whole
pub mod Start
pub mod NoPanic
use flipperos_installer.Base.{
  ℕ, ◌*◌, Bool, true, false, not, ◌&&◌, List, [], ◌∷◌, ◌++◌, Option, none, some, if◌then◌else◌, leb,
  ltb, ◌==◌, any, map, ok, bail_if, ◌>>=◌, ◌>>◌, add64, sub64, mul64, div_ceil, div_ceil_by,
  u32_mod,
}
use flipperos_installer.Ufs.Codes.{boot_lun_none, memory_type_normal, memory_type_name}
use flipperos_installer.Ufs.Device.{DeviceDescriptor}
use flipperos_installer.Ufs.Geometry.{
  GeometryDescriptor, alloc_unit_sectors, total_alloc_units, cap_adj_fac, max_alloc_units,
  supports_memory_type,
}
use flipperos_installer.Ufs.Config.{
  ConfigDescriptor, LuConfig, empty_config, set_header, set_shared_writebooster,
  set_lu_dedicated_writebooster, set_lu, size_bytes,
}
use flipperos_installer.Provision.Error.{
  ProvisionResult, of_ufs, unsupported_memory_type, scheme_too_large, over_the_ceiling,
  count_overflows, remainder_too_small,
}
use flipperos_installer.Provision.Scheme.{
  Scheme, SchemeLu, memory_type_code, boot_lun_code, provisioning_code, logical_block_size_exponent,
  boot_lun_en, is_unsized,
}
use flipperos_installer.Provision.WriteBooster.{
  WbPlan, nowhere, shared, dedicated, plan_writebooster,
}

-- storage.rs: the least size of an install target.
abbrev pub min_target_size_bytes : ℕ
min_target_size_bytes = 4 * 1024 * 1024 * 1024

pub record Plan : Type 0 where
  pub descriptor : ConfigDescriptor
  pub clear : List (ℕ × ConfigDescriptor)
  pub boot_lun_en : ℕ

-- `alloc_units_for`
unfoldable pub alloc_units_for : ℕ → ℕ → ℕ → ProvisionResult ℕ
alloc_units_for size_bytes cap_adj_fac alloc_unit_sectors =
    let sectors = div_ceil size_bytes 512 in
    div_ceil_by (mul64 sectors cap_adj_fac) alloc_unit_sectors

-- An entry of `units`: a unit of the scheme, its memory type, and its allocation units.
pub record SizedLu : Type 0 where
  pub entry : SchemeLu
  pub memory_type : ℕ
  pub count : ℕ

abbrev pub sized : SchemeLu → ℕ → ℕ → SizedLu
sized l t n = record { entry = l; memory_type = t; count = n }

-- The allocation units of one unit of fixed size; the one without a size counts 0 here.
unfoldable pub fixed_count : GeometryDescriptor → ℕ → Option ℕ → ProvisionResult ℕ
fixed_count geo t none = ok 0
fixed_count geo t (some mib) = do
  fac ← of_ufs (cap_adj_fac geo t)
  alloc_units_for (mul64 (mul64 mib 1024) 1024) fac (alloc_unit_sectors geo)

unfoldable pub size_unit : GeometryDescriptor → SchemeLu → ProvisionResult SizedLu
size_unit geo l = do
  t ← memory_type_code l
  bail_if (not (supports_memory_type geo t)) (unsupported_memory_type l.id l.memory_type)
  count ← fixed_count geo t l.size_mib
  ok (sized l t count)

-- The sizing loop: the entries, and the units used.
unfoldable pub size_units :
    GeometryDescriptor → ℕ → List SchemeLu → ProvisionResult (List SizedLu × ℕ)
size_units geo used [] = ok ([], used)
size_units geo used (l ∷ ls) = do
  u ← size_unit geo l
  (us, total) ← size_units geo (if is_unsized l then used else add64 used u.count) ls
  ok (u ∷ us, total)

-- The unit without a size takes the rest.
abbrev pub fill : ℕ → SizedLu → SizedLu
fill rest u = if is_unsized u.entry then record u { count = rest } else u

-- `memory_type_ceilings`: each memory type in use that has a ceiling, once.
unfoldable pub memory_type_ceilings :
    GeometryDescriptor → List (ℕ × ℕ) → List SizedLu → List (ℕ × ℕ)
memory_type_ceilings geo out [] = out
memory_type_ceilings geo out (u ∷ us) =
    memory_type_ceilings geo
      (if any (λ e. e.0 == u.memory_type) out
        then out
        else elim (max_alloc_units geo u.memory_type) [
          | none ↦ out
          | some ceiling ↦ out ++ (u.memory_type, ceiling) ∷ []
        ])
      us

unfoldable pub wanted_units : ℕ → List SizedLu → ℕ
wanted_units t [] = 0
wanted_units t (u ∷ us) =
    if u.memory_type == t then add64 u.count (wanted_units t us) else wanted_units t us

unfoldable pub check_ceilings : List SizedLu → List (ℕ × ℕ) → ProvisionResult (Unit {0})
check_ceilings us [] = ok tt
check_ceilings us ((t, ceiling) ∷ more) = do
  let wanted = wanted_units t us
  bail_if (ltb ceiling wanted) (over_the_ceiling wanted (memory_type_name t) ceiling)
  check_ceilings us more

-- Whether the dedicated WriteBooster buffer goes to this unit.
abbrev pub is_buffer_home : WbPlan → SizedLu → ℕ → Bool
is_buffer_home wb u boot_lun_id =
    (elim wb.placement [ dedicated ↦ true | _ ↦ false ])
    && is_unsized u.entry
    && (u.memory_type == memory_type_normal)
    && (boot_lun_id == boot_lun_none)

abbrev pub from_bool : Bool → ℕ
from_bool b = if b then 1 else 0

-- The parameters that the plan gives to one unit.
unfoldable pub lu_config : WbPlan → SizedLu → ProvisionResult LuConfig
lu_config wb u = do
  bail_if (leb u32_mod u.count) (count_overflows u.entry.id)
  boot ← boot_lun_code u.entry
  exponent ← logical_block_size_exponent u.entry
  provisioning ← provisioning_code u.entry
  ok (record {
    enable = 1;
    boot_lun_id = boot;
    write_protect = 0;
    memory_type = u.memory_type;
    num_alloc_units = u.count;
    data_reliability = from_bool u.entry.data_reliability;
    logical_block_size = exponent;
    provisioning_type = provisioning;
    context_capabilities = 0;
    writebooster_alloc_units = if is_buffer_home wb u boot then wb.alloc_units else 0;
  })

unfoldable pub place_unit :
    GeometryDescriptor → WbPlan → SizedLu → ConfigDescriptor → ProvisionResult ConfigDescriptor
place_unit geo wb u d = do
  cfg ← lu_config wb u
  bail_if (is_unsized u.entry && ltb (size_bytes cfg geo) min_target_size_bytes)
      (remainder_too_small u.entry.id (size_bytes cfg geo))
  set_lu d u.entry.id cfg

unfoldable pub place_units :
    GeometryDescriptor → WbPlan → List SizedLu → ConfigDescriptor → ProvisionResult ConfigDescriptor
place_units geo wb [] d = ok d
place_units geo wb (u ∷ us) d = place_unit geo wb u d >>= λ d'. place_units geo wb us d'

unfoldable pub set_writebooster : WbPlan → ConfigDescriptor → ProvisionResult ConfigDescriptor
set_writebooster wb d = elim wb.placement [
  | nowhere ↦ ok d
  | shared ↦ set_shared_writebooster d wb.preserve_user_space wb.alloc_units
  | dedicated ↦ set_lu_dedicated_writebooster d wb.preserve_user_space
]

-- What the header of the new descriptor says, before the units are placed.
unfoldable pub start_descriptor :
    Scheme → DeviceDescriptor → WbPlan → ProvisionResult ConfigDescriptor
start_descriptor scheme dev wb = do
  d ← empty_config dev
  d' ← set_header d (from_bool scheme.boot_enable) 0x00 0x01 0x7F 0x00 0x00 0x0000
  set_writebooster wb d'

-- The sizes of all units: what is fixed, and the rest for the one without a size.
unfoldable pub sized_units : Scheme → GeometryDescriptor → WbPlan → ProvisionResult (List SizedLu)
sized_units scheme geo wb = do
  total ← total_alloc_units geo
  (us, used) ← size_units geo wb.capacity_cost_alloc_units scheme.lus
  bail_if (leb total used) (scheme_too_large used total)
  let units = map (fill (sub64 total used)) us
  check_ceilings units (memory_type_ceilings geo [] units)
  ok units

-- `plan`, which divides for the total before all else
unfoldable pub plan : Scheme → DeviceDescriptor → GeometryDescriptor → ProvisionResult Plan
plan scheme dev geo = do
  _ ← total_alloc_units geo
  wb ← plan_writebooster scheme dev geo
  units ← sized_units scheme geo wb
  start ← start_descriptor scheme dev wb
  descriptor ← place_units geo wb units start
  boot ← boot_lun_en scheme
  ok (record { descriptor = descriptor; clear = []; boot_lun_en = boot })
