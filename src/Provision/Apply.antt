-- ===== src/Provision/Apply.antt =====
-- src/core/provision.rs: `Target`, `probe` and `apply`, the work on the device. Log lines are left out.
pub mod Reads
pub mod Probed
pub mod Writes
pub mod Outcome
pub mod ProbeReturns
pub mod Returns
use flipperos_installer.Base.{
  ℕ, ◌%◌, Bool, true, false, not, ◌&&◌, List, [], ◌∷◌, Option, none, some, any, find, map, Text,
  codes, is_empty, text_eq, starts_with, if◌then◌else◌, ◌==◌, Result, ok, err, panicked, unwrap_or,
  get_or_else,
}
use flipperos_installer.Ufs.Error.{Error as UfsError, UfsResult}
use flipperos_installer.Ufs.Codes.{max_number_lu_32}
use flipperos_installer.Ufs.Device.{DeviceDescriptor, parse_device}
use flipperos_installer.Ufs.Geometry.{GeometryDescriptor, parse_geometry}
use flipperos_installer.Ufs.Config.{
  ConfigDescriptor, wrap_config, empty_config, set_conf_desc_continue, lus, enabled, boot_enable,
}
use flipperos_installer.Ufs.World.{
  World, History, LuDir, Io, pure, halted, raise, raise_if, lift, asks, attempt, ◌>>=◌, ◌>>◌,
}
use flipperos_installer.Ufs.Query.{
  open_bsg, read_descriptor, write_descriptor, read_attr, write_attr, read_flag, idn_device,
  idn_geometry, idn_configuration, attr_boot_lun_en, attr_config_descr_lock, flag_power_on_wp_en,
  flag_permanent_wp_en,
}
use flipperos_installer.Ufs.Rescan.{data_lu_dirs, apply_configuration}
use flipperos_installer.Provision.Error.{
  Error, ProvisionResult, of_ufs, config_locked, in_use, not_read_back,
}
use flipperos_installer.Provision.Scheme.{Scheme, Origin}
use flipperos_installer.Provision.Plan.{Plan, plan}
use flipperos_installer.Provision.Compare.{
  Target, Status, compare, is_provisioned, needs_descriptor_write,
}

-- `?` on a call of the descriptor code.
abbrev pub of_ufs_result : {A : Type 0} → Result UfsError A × History → Result Error A × History
of_ufs_result (r, h) = (of_ufs r, h)

abbrev pub in_ufs : {A : Type 0} → Io UfsError A → Io Error A
in_ufs m h = of_ufs_result (m h)

abbrev ends_with_zero : Text → Bool
ends_with_zero [] = false
ends_with_zero (c ∷ []) = false
ends_with_zero (c ∷ d ∷ []) = (c == b':') && (d == b'0')
ends_with_zero (c ∷ d ∷ e ∷ s) = ends_with_zero (d ∷ e ∷ s)

abbrev first_node : World → History → List LuDir → Option Text
first_node w h [] = none
first_node w h (d ∷ ds) = elim (w.lu_block_node h d.path) [
  | some node ↦ some node
  | none ↦ first_node w h ds
]

-- `main_lu_node`
unfoldable pub main_lu_node : World → ℕ → History → Option Text
main_lu_node w host h =
    let dirs = data_lu_dirs w host h in
    elim (find (λ d. ends_with_zero d.name) dirs) [
      | none ↦ first_node w h dirs
      | some d ↦ elim (w.lu_block_node h d.path) [
        | some node ↦ some node
        | none ↦ first_node w h dirs
      ]
    ]

-- `Target::rediscovered`, which is `Target::for_endpoint` of the same controller.
unfoldable pub rediscovered : World → Target → History → Target
rediscovered w t h = record {
  bsg = t.bsg;
  host = t.host;
  disk = main_lu_node w t.host h;
  name = get_or_else (w.identity h t.host) [];
}

-- Whether a descriptor was read, is long enough, and has an enabled unit.
abbrev pub wrapped_units : UfsResult ConfigDescriptor → Bool
wrapped_units (ok d) = any enabled (lus d)
wrapped_units (err e) = false
wrapped_units panicked = false

abbrev pub holds_units : DeviceDescriptor → UfsResult (List ℕ) → Bool
holds_units dev (ok bytes) = wrapped_units (wrap_config bytes dev)
holds_units dev (err e) = false
holds_units dev panicked = false

-- What a probe has read of a device.
pub record Readings : Type 0 where
  pub dev : DeviceDescriptor
  pub geo : GeometryDescriptor
  pub current : ConfigDescriptor
  pub boot_lun_en : ℕ
  pub config_locked : Bool
  pub power_on_wp : Bool
  pub permanent_wp : Bool
  pub clear : List (ℕ × ConfigDescriptor)

abbrev pub with_clear : Plan → List (ℕ × ConfigDescriptor) → Plan
with_clear p clear = record p { clear = clear }

abbrev pub status_for : Target → Origin → Readings → Plan → Status
status_for target origin r p = record {
  target = target;
  scheme_origin = origin;
  current = lus r.current;
  plan = p;
  boot_enable = boot_enable r.current;
  boot_lun_en = r.boot_lun_en;
  config_locked = r.config_locked;
  power_on_wp = r.power_on_wp;
  permanent_wp = r.permanent_wp;
  geometry = r.geo;
  mismatches = compare p r.current r.boot_lun_en (map (λ e. e.0) r.clear);
}

-- The status that `probe` builds from its readings.
unfoldable pub status_of : Target → Scheme → Origin → Readings → ProvisionResult Status
status_of target scheme origin r = elim (plan scheme r.dev r.geo) [
  | ok p ↦ ok (status_for target origin r (with_clear p r.clear))
  | err e ↦ err e
  | panicked ↦ panicked
]

-- An error names the device by its endpoint node.
module _ (w : World) where
  -- The descriptors above index 0 that hold enabled units, and what would clear them. A descriptor
  -- that cannot be read or is too short is passed over.
  unfoldable pub extra_descriptors :
      DeviceDescriptor → List ℕ → Io Error (List (ℕ × ConfigDescriptor))
  extra_descriptors dev [] = pure []
  extra_descriptors dev (index ∷ more) = do
    bytes ← attempt (read_descriptor w idn_configuration index)
    if holds_units dev bytes
        then (do
          blank ← lift (empty_config dev)
          empty ← lift (set_conf_desc_continue blank 1)
          rest ← extra_descriptors dev more
          pure ((index, empty) ∷ rest))
        else extra_descriptors dev more

  -- What `probe` reads of a device.
  unfoldable pub read_device : Target → Io Error Readings
  read_device target = do
    in_ufs (open_bsg w target.bsg)
    dev_bytes ← in_ufs (read_descriptor w idn_device 0)
    dev ← lift (of_ufs (parse_device dev_bytes))
    geo_bytes ← in_ufs (read_descriptor w idn_geometry 0)
    geo ← lift (of_ufs (parse_geometry geo_bytes))
    cfg_bytes ← in_ufs (read_descriptor w idn_configuration 0)
    current ← lift (of_ufs (wrap_config cfg_bytes dev))
    boot_lun ← in_ufs (read_attr w attr_boot_lun_en)
    lock ← in_ufs (read_attr w attr_config_descr_lock)
    power_on ← attempt (read_flag w flag_power_on_wp_en)
    permanent ← attempt (read_flag w flag_permanent_wp_en)
    clear ←
        extra_descriptors dev (if geo.max_number_lu == max_number_lu_32 then 1 ∷ 2 ∷ 3 ∷ [] else [])
    pure (record {
      dev = dev;
      geo = geo;
      current = current;
      boot_lun_en = boot_lun % 256;
      config_locked = not (lock == 0);
      power_on_wp = unwrap_or power_on false;
      permanent_wp = unwrap_or permanent false;
      clear = clear;
    })

  -- `probe`
  unfoldable pub probe : Target → Scheme → Origin → Io Error Status
  probe target scheme origin = read_device target >>= λ r. lift (status_of target scheme origin r)

  abbrev pub is_idle : List Text → Bool
  is_idle [] = true
  is_idle (r ∷ rs) = false

  -- The check of `apply` that nothing holds the disk open.
  unfoldable pub check_idle : Option Text → Io Error (Unit {0})
  check_idle none = pure tt
  check_idle (some node) = do
    reasons ← asks (λ h. w.device_in_use h node)
    raise_if (not (is_idle reasons)) (in_use node)

  unfoldable pub write_clears : List (ℕ × ConfigDescriptor) → Io Error (Unit {0})
  write_clears [] = pure tt
  write_clears ((index, d) ∷ more) =
      in_ufs (write_descriptor w idn_configuration index d.bytes) >> write_clears more

  -- What follows the write of index 0: where the device turns it down, the one in effect is read
  -- for the log.
  abbrev pub after_main : Result Error (Unit {0}) → Io Error (Unit {0})
  after_main (ok u) = pure tt
  after_main (err e) = attempt (read_descriptor w idn_configuration 0) >>= λ _. raise e
  after_main panicked = halted

  unfoldable pub write_main : ConfigDescriptor → Io Error (Unit {0})
  write_main d = attempt (in_ufs (write_descriptor w idn_configuration 0 d.bytes)) >>= after_main

  -- The write part of `apply`.
  unfoldable pub write_configuration : Bool → Plan → Io Error (Unit {0})
  write_configuration needs_write p = do
    if needs_write then (write_clears p.clear >> write_main p.descriptor) else pure tt
    in_ufs (write_attr w attr_boot_lun_en p.boot_lun_en)

  -- The part of `apply` behind its checks.
  unfoldable pub reprovision : Target → Scheme → Origin → Status → Io Error (Unit {0})
  reprovision target scheme origin status = do
    in_ufs (open_bsg w target.bsg)
    write_configuration (needs_descriptor_write status) status.plan
    in_ufs (open_bsg w target.bsg)
    in_ufs (apply_configuration w target.host target.disk)
    again ← asks (rediscovered w target)
    after ← probe again scheme origin
    raise_if (not (is_provisioned after)) (not_read_back target.bsg)

  -- What `apply` does with the status that it has read.
  unfoldable pub act : Bool → Target → Scheme → Origin → Status → Io Error (Unit {0})
  act dry_run target scheme origin status = if is_provisioned status then pure tt else (do
    raise_if (status.config_locked && needs_descriptor_write status) (config_locked target.bsg)
    check_idle target.disk
    if dry_run then pure tt else reprovision target scheme origin status)

  -- `apply`
  unfoldable pub apply : Bool → Target → Scheme → Origin → Io Error (Unit {0})
  apply dry_run target scheme origin =
      probe target scheme origin >>= act dry_run target scheme origin
