-- ===== src/Tests/Provisioning.antt =====
-- src/core/provision.rs at the built-in scheme and the dumps of a real part.
use flipperos_installer.Base.{
  ◌≡◌, ◌≢◌, refl, ok, panicked, ℕ, codes, none, some, ◌+◌, arith, List, [], ◌∷◌, true, false,
  div_ceil, eq_ignore_case, upper, any, ◌==◌,
}
use flipperos_installer.Samples.{foresee_dev, foresee_geo, foresee_plan, from_factory}
use flipperos_installer.Ufs.Codes.{memory_type_from_name}
use flipperos_installer.Ufs.Device.{
  writebooster_supported, config_desc_len, lu_block_has_writebooster,
}
use flipperos_installer.Ufs.Geometry.{
  alloc_unit_sectors, alloc_unit_bytes, total_alloc_units, memory_type_index, cap_adj_fac,
  max_alloc_units, supports_memory_type, writebooster_can_preserve_user_space,
  writebooster_supports_shared,
}
use flipperos_installer.Ufs.Bytes.{
  u8_at, u16_at, u32_at, get_range, from_be, from_be_from, to_be16, to_be32, overwrite, splice,
  write_slice,
}
use flipperos_installer.Ufs.Config.{
  lu, lus, enabled, set_lu, lu_offset, has_lu_writebooster, size_bytes, empty_config, set_header,
  set_shared_writebooster, set_lu_dedicated_writebooster,
}
use flipperos_installer.Ufs.Config.Fields.{write_fields}
use flipperos_installer.Provision.Error.{Error}
use flipperos_installer.Provision.Scheme.{
  built_in, default_scheme, default_lu, boot_lun_en, memory_type_code, provisioning_code,
  boot_lun_code, is_power_of_two, trailing_zeros, logical_block_size_exponent,
}
use flipperos_installer.Provision.Scheme.Resolve.{default_scheme_validates}
use flipperos_installer.Provision.WriteBooster.{
  WbPlan, shared, placed, requested_units, place_buffer, plan_writebooster,
}
use flipperos_installer.Provision.Plan.{
  SizedLu, sized, alloc_units_for, fixed_count, size_unit, size_units, memory_type_ceilings,
  wanted_units, check_ceilings, lu_config, place_unit, place_units, set_writebooster,
  start_descriptor, sized_units, plan,
}
use flipperos_installer.Provision.Plan.Capacity.{sized_units_total, total_count, fixed_total}
use flipperos_installer.Provision.Plan.Whole.{Realises, plan-Realises, plan-ne_panicked}
use flipperos_installer.Ufs.Config.Layout.{IsUsable}
use flipperos_installer.Provision.Compare.{Status, compare, acceptable}

foresee_planned : plan default_scheme foresee_dev foresee_geo ≡ ok foresee_plan
unfolding plan plan_writebooster requested_units place_buffer writebooster_supported
    lu_block_has_writebooster config_desc_len alloc_unit_sectors alloc_unit_bytes total_alloc_units
    memory_type_index cap_adj_fac max_alloc_units supports_memory_type
    writebooster_can_preserve_user_space writebooster_supports_shared sized_units size_units
    size_unit fixed_count alloc_units_for memory_type_ceilings wanted_units check_ceilings
    start_descriptor set_writebooster empty_config set_header set_shared_writebooster
    set_lu_dedicated_writebooster place_units place_unit lu_config set_lu lu_offset
    has_lu_writebooster size_bytes write_fields write_slice splice overwrite to_be16 to_be32
    boot_lun_en memory_type_code provisioning_code boot_lun_code is_power_of_two trailing_zeros
    logical_block_size_exponent memory_type_from_name eq_ignore_case upper div_ceil
foresee_planned = refl

foresee-IsUsable : IsUsable foresee_dev
foresee-IsUsable = record { base_big = omega arith; stride_big = omega arith }

plan-Realises_example : Realises default_scheme foresee_dev foresee_geo foresee_plan
plan-Realises_example =
    plan-Realises default_scheme foresee_dev foresee_geo foresee_plan default_scheme_validates
      foresee-IsUsable (omega arith) foresee_planned

foresee_sectors : alloc_unit_sectors foresee_geo ≢ 0
unfolding alloc_unit_sectors
foresee_sectors h = omega (arith, h)

plan-ne_panicked_example : plan default_scheme foresee_dev foresee_geo ≢ panicked
plan-ne_panicked_example =
    plan-ne_panicked default_scheme foresee_dev foresee_geo default_scheme_validates
      foresee-IsUsable (refl, foresee_sectors)

abbrev foresee_buffer : WbPlan
foresee_buffer = placed shared 3815 true 0

abbrev foresee_units : List SizedLu
foresee_units =
    sized (default_lu 0 (codes "system") (codes "normal") none none) 0 15140
    ∷ sized (default_lu 1 (codes "u-boot-a") (codes "enhanced1") (some 16) (some (codes "A"))) 3 12
    ∷ sized (default_lu 2 (codes "u-boot-b") (codes "enhanced1") (some 16) (some (codes "B"))) 3 12
    ∷ sized (default_lu 3 (codes "recovery") (codes "enhanced1") (some 128) none) 3 96
    ∷ []

foresee_sized : sized_units default_scheme foresee_geo foresee_buffer ≡ ok foresee_units
unfolding sized_units size_units size_unit fixed_count alloc_units_for memory_type_ceilings
    wanted_units check_ceilings alloc_unit_sectors total_alloc_units memory_type_index cap_adj_fac
    max_alloc_units supports_memory_type memory_type_code memory_type_from_name eq_ignore_case upper
    div_ceil
foresee_sized = refl

sized_units_total_example :
    total_alloc_units {E = Error} foresee_geo ≡ ok (0 + total_count foresee_units)
unfolding fixed_total
sized_units_total_example =
    sized_units_total default_scheme foresee_geo foresee_buffer foresee_units refl (omega arith)
      foresee_sized (omega arith)

-- The third Configuration Descriptor has an enabled unit.
abbrev extra : List ℕ
extra = 2 ∷ []

-- The part as the factory ships it, compared with the plan.
abbrev factory_status : Status
factory_status = record {
  target = record { bsg = codes "/dev/bsg/ufs-bsg0"; host = 0; disk = none; name = [] };
  scheme_origin = built_in;
  current = lus from_factory;
  plan = foresee_plan;
  boot_enable = 0;
  boot_lun_en = 0;
  config_locked = false;
  power_on_wp = false;
  permanent_wp = false;
  geometry = foresee_geo;
  mismatches = compare foresee_plan from_factory 0 extra;
}

other_side_accepted : any (λ id. id == 2) (acceptable foresee_plan) ≡ true
unfolding acceptable lus lu lu_offset u8_at u16_at u32_at get_range from_be from_be_from
    has_lu_writebooster enabled
other_side_accepted = refl
