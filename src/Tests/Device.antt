-- ===== src/Tests/Device.antt =====
-- The work on a device, at the simulated one.
use flipperos_installer.Base.{
  ◌≡◌, ◌≢◌, refl, [], ◌∷◌, ◌++◌, none, codes, true, false, ok, panicked, ◌⊎◌, arith,
}
use flipperos_installer.Provision.Plan.{
  plan, sized_units, size_units, size_unit, fixed_count, alloc_units_for, memory_type_ceilings,
  wanted_units, check_ceilings, start_descriptor, set_writebooster, place_units, place_unit,
  lu_config,
}
use flipperos_installer.Provision.WriteBooster.{plan_writebooster, requested_units, place_buffer}
use flipperos_installer.Ufs.Device.{
  writebooster_supported, lu_block_has_writebooster, config_desc_len, parse_device,
}
use flipperos_installer.Ufs.Geometry.{
  alloc_unit_sectors, alloc_unit_bytes, total_alloc_units, memory_type_index, cap_adj_fac,
  max_alloc_units, supports_memory_type, writebooster_can_preserve_user_space,
  writebooster_supports_shared, parse_geometry,
}
use flipperos_installer.Ufs.Config.{
  empty_config, set_header, set_shared_writebooster, set_lu_dedicated_writebooster, set_lu,
  lu_offset, has_lu_writebooster, size_bytes, wrap_config, lu, enabled,
}
use flipperos_installer.Ufs.Config.Fields.{write_fields}
use flipperos_installer.Ufs.Bytes.{
  write_slice, splice, overwrite, to_be16, to_be32, u8_at, u16_at, u32_at, u64_at, get_range,
  from_be, from_be_from,
}
use flipperos_installer.Provision.Scheme.{
  boot_lun_en, memory_type_code, provisioning_code, boot_lun_code, is_power_of_two, trailing_zeros,
  logical_block_size_exponent,
}
use flipperos_installer.Ufs.Codes.{
  memory_type_from_name, is_well_known_lun, boot_lu_name, memory_type_name,
}
use flipperos_installer.Base.{eq_ignore_case, upper, div_ceil, text_eq}
use flipperos_installer.Ufs.Query.{
  open_bsg, read_attr, read_flag, query, judge, write_descriptor, write_attr, write_flag,
}
use flipperos_installer.Provision.Apply.{
  extra_descriptors, act, check_idle, reprovision, write_clears, write_main, rediscovered,
  main_lu_node,
}
use flipperos_installer.Ufs.Rescan.{
  await_init, after_answer, await_units, units_back, delete_all, data_lu_dirs, is_data_lu, lun_of,
  after_last, parse_u32, parse_digits, sort_dirs, insert_dir, components, components_le, text_le,
}
use flipperos_installer.Provision.Compare.{
  needs_descriptor_write, compare_boot_lun, acceptable, compare_units, compare_unit, compare_fields,
  compare_header, diff, diff_names, boot_lun_name,
}
use flipperos_installer.Samples.{foresee_plan, foresee_geo, from_factory, foresee_config}
use flipperos_installer.Ufs.Config.{lus}
use flipperos_installer.Simulator.{simulated, simulated-Ticks}
use flipperos_installer.Ufs.World.{History, Query}
use flipperos_installer.Ufs.World.Trace.{Grown}
use flipperos_installer.Ufs.Query.{request_upiu, read_descriptor, plain_query}
use flipperos_installer.Ufs.Query.Wire.{CarriesQuery, request_upiu-CarriesQuery}
use flipperos_installer.Ufs.Rescan.{apply_configuration, rescan_logical_units}
use flipperos_installer.Ufs.Rescan.Safety.{IsRescanEvent, rescan_logical_units-IsRescanEvent}
use flipperos_installer.Provision.Scheme.{default_scheme, built_in}
use flipperos_installer.Provision.Compare.{Target, Status, is_provisioned, compare}
use flipperos_installer.Provision.Apply.{read_device, status_of, probe, apply, write_configuration}
use flipperos_installer.Provision.Apply.Reads.{IsRead, apply-IsRead, only_dry}
use flipperos_installer.Provision.Apply.Probed.{IsReport, probe-IsReport}
use flipperos_installer.Provision.Scheme.Resolve.{default_scheme_validates}
use flipperos_installer.Provision.Apply.Returns.{apply-ne_panicked}
use flipperos_installer.Provision.Apply.Outcome.{IsVerified, apply-IsVerified}
use flipperos_installer.Provision.Apply.Writes.{
  config_write, clear_writes, boot_write, write_configuration_order,
}

abbrev pub device : Target
device = record { bsg = codes "/dev/bsg/ufs-bsg0"; host = 0; disk = none; name = [] }

abbrev boot_query : Query
boot_query = plain_query simulated 4 0 1

request_upiu-CarriesQuery_example : CarriesQuery boot_query (request_upiu boot_query)
request_upiu-CarriesQuery_example = request_upiu-CarriesQuery boot_query (omega arith) (omega arith)

rescan_logical_units-IsRescanEvent_example :
    Grown
      (IsRescanEvent (simulated.target_entries [] 0) 0)
      []
      (rescan_logical_units simulated 0 []).1
rescan_logical_units-IsRescanEvent_example = rescan_logical_units-IsRescanEvent simulated 0 []

-- The part as the factory ships it.
abbrev pub factory_status : Status
factory_status = record {
  target = device;
  scheme_origin = built_in;
  current = lus from_factory;
  plan = foresee_plan;
  boot_enable = 0;
  boot_lun_en = 0;
  config_locked = false;
  power_on_wp = false;
  permanent_wp = false;
  geometry = foresee_geo;
  mismatches = compare foresee_plan from_factory 0 [];
}

abbrev probed : History
probed = (probe simulated device default_scheme built_in []).1

factory_probed : probe simulated device default_scheme built_in [] ≡ (ok factory_status, probed)
unfolding plan plan_writebooster requested_units place_buffer writebooster_supported
    lu_block_has_writebooster config_desc_len alloc_unit_sectors alloc_unit_bytes total_alloc_units
    memory_type_index cap_adj_fac max_alloc_units supports_memory_type
    writebooster_can_preserve_user_space writebooster_supports_shared sized_units size_units
    size_unit fixed_count alloc_units_for memory_type_ceilings wanted_units check_ceilings
    start_descriptor set_writebooster empty_config set_header set_shared_writebooster
    set_lu_dedicated_writebooster place_units place_unit lu_config set_lu lu_offset
    has_lu_writebooster size_bytes write_fields write_slice splice overwrite to_be16 to_be32
    boot_lun_en memory_type_code provisioning_code boot_lun_code is_power_of_two trailing_zeros
    logical_block_size_exponent memory_type_from_name eq_ignore_case upper div_ceil probe
    read_device status_of open_bsg read_descriptor u8_at u16_at u32_at u64_at get_range from_be
    from_be_from request_upiu parse_device parse_geometry wrap_config read_attr read_flag
    extra_descriptors lu lus query judge
factory_probed = refl

apply-IsRead_example : Grown IsRead [] (apply simulated true device default_scheme built_in []).1
apply-IsRead_example =
    apply-IsRead simulated true device default_scheme built_in factory_status [] probed
      factory_probed (only_dry refl)

abbrev applied : History
applied = (apply simulated false device default_scheme built_in []).1

foresee_applied : apply simulated false device default_scheme built_in [] ≡ (ok tt, applied)
unfolding plan plan_writebooster requested_units place_buffer writebooster_supported
    lu_block_has_writebooster config_desc_len alloc_unit_sectors alloc_unit_bytes total_alloc_units
    memory_type_index cap_adj_fac max_alloc_units supports_memory_type
    writebooster_can_preserve_user_space writebooster_supports_shared sized_units size_units
    size_unit fixed_count alloc_units_for memory_type_ceilings wanted_units check_ceilings
    start_descriptor set_writebooster empty_config set_header set_shared_writebooster
    set_lu_dedicated_writebooster place_units place_unit lu_config set_lu lu_offset
    has_lu_writebooster size_bytes write_fields write_slice splice overwrite to_be16 to_be32
    boot_lun_en memory_type_code provisioning_code boot_lun_code is_power_of_two trailing_zeros
    logical_block_size_exponent memory_type_from_name eq_ignore_case upper div_ceil probe
    read_device status_of open_bsg read_descriptor u8_at u16_at u32_at u64_at get_range from_be
    from_be_from request_upiu parse_device parse_geometry wrap_config read_attr read_flag
    extra_descriptors lu lus query judge apply act check_idle reprovision write_configuration
    write_clears write_main write_descriptor write_attr write_flag apply_configuration await_init
    after_answer await_units units_back rescan_logical_units delete_all data_lu_dirs is_data_lu
    lun_of after_last parse_u32 parse_digits is_well_known_lun sort_dirs insert_dir components
    components_le text_le rediscovered main_lu_node is_provisioned needs_descriptor_write compare
    compare_boot_lun acceptable compare_units compare_unit compare_fields compare_header diff
    diff_names enabled boot_lun_name boot_lu_name memory_type_name text_eq
foresee_applied = refl

apply-IsVerified_example :
    (status : Status) × (h1 : History) × (probe simulated device default_scheme built_in []
      ≡ (ok status, h1))
    × ((is_provisioned status ≡ true)
        ⊎ ((false ≡ true) ⊎ IsVerified simulated default_scheme built_in device applied))
apply-IsVerified_example =
    apply-IsVerified simulated default_scheme built_in false device [] applied foresee_applied

abbrev written : History
written = (write_configuration simulated true foresee_plan []).1

foresee_written : write_configuration simulated true foresee_plan [] ≡ (ok tt, written)
unfolding write_configuration write_clears write_main write_descriptor u8_at request_upiu write_attr
foresee_written = refl

write_configuration_order_example :
    written
    ≡ boot_write simulated 1
      ∷ config_write simulated 0 foresee_plan.descriptor
      ∷ (clear_writes simulated [] ++ [])
write_configuration_order_example =
    write_configuration_order simulated foresee_plan [] written foresee_written

abbrev read_history : History
read_history = (read_descriptor simulated 1 0 []).1

factory_read : read_descriptor simulated 1 0 [] ≡ (ok foresee_config, read_history)
unfolding read_descriptor u8_at request_upiu
factory_read = refl

probe-IsReport_example : IsReport simulated default_scheme device [] factory_status
probe-IsReport_example =
    probe-IsReport simulated device default_scheme built_in factory_status [] probed factory_probed

apply-ne_panicked_example : (apply simulated false device default_scheme built_in []).0 ≢ panicked
apply-ne_panicked_example =
    apply-ne_panicked simulated simulated-Ticks default_scheme default_scheme_validates false device
      built_in []
