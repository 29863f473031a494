-- ===== src/Install/Guards.antt =====
-- src/core/install.rs: what is refused before anything is written. A dry run goes on where a real run
-- refuses.
pub mod Spare
use flipperos_installer.Base.{
  add64, ℕ, ◌+◌, Bool, true, false, not, ◌&&◌, ◌||◌, List, [], ◌∷◌, ◌++◌, Option, none, some, Text,
  codes, Result, ok, err, panicked, if◌then◌else◌, ltb, ◌==◌,
}
use flipperos_installer.Base.Calls.{Call, pure, raise, lift, ◌>>=◌, ◌>>◌, raise_if}
use flipperos_installer.Machine.{Machine, Log, Effect, Io, asked}
use flipperos_installer.Model.{FalconImage, UbootBuild}
use flipperos_installer.Storage.{StorageDevice, StorageKind, ufs, boot_rom_capable}
use flipperos_installer.Storage.BootLu.{find_ufs_boot_lu, find_ufs_data_lu}
use flipperos_installer.Ufs.Codes.{boot_lun_none, boot_lun_a, boot_lun_b}
use flipperos_installer.Install.Gpt.{loader_start, loader_capacity}

abbrev pub is_ufs : StorageKind → Bool
is_ufs ufs = true
is_ufs _ = false

abbrev pub is_nonempty : List Text → Bool
is_nonempty [] = false
is_nonempty (t ∷ ts) = true

abbrev pub refuse_incapable : StorageDevice → Io (Unit {0})
unfolding boot_rom_capable
refuse_incapable device =
    raise_if (not (boot_rom_capable device.kind))
      (device.path ++ codes " is not a boot-ROM capable target")

abbrev pub refuse_used : Machine → Bool → StorageDevice → Io (Unit {0})
refuse_used m dry_run device = asked (λ h. m.in_use h device.path) >>= λ users.
    raise_if (is_nonempty users && not dry_run) (device.path ++ codes " is in use")

unfoldable pub guard_target : Machine → Bool → StorageDevice → Io (Unit {0})
unfolding boot_rom_capable
guard_target m dry_run device = refuse_incapable device >> refuse_used m dry_run device

pub record BootLuPlan : Type 0 where
  pub node : Text
  pub id : ℕ
  pub active : ℕ

unfoldable pub spare_boot_lu : ℕ → ℕ
spare_boot_lu active = if active == boot_lun_a then boot_lun_b else boot_lun_a

-- The loop of `ufs_boot_lu_plan` over the spare side and the active one
unfoldable pub first_boot_lu : (ℕ → Option Text) → (active : ℕ) → List ℕ → Option BootLuPlan
first_boot_lu node_of active [] = none
first_boot_lu node_of active (id ∷ ids) =
    let rest = first_boot_lu node_of active ids in
    if id == boot_lun_none then rest else elim (node_of id) [
      | some node ↦ some (record { node = node; id = id; active = active })
      | none ↦ rest
    ]

abbrev in_place : Option Text → Option BootLuPlan
in_place none = none
in_place (some node) = some (record { node = node; id = boot_lun_a; active = boot_lun_a })

-- `ufs_boot_lu_plan`, with the flag that was read and the nodes of the boot units
unfoldable pub boot_lu_plan : Result Text ℕ → (ℕ → Option Text) → Option BootLuPlan
unfolding first_boot_lu spare_boot_lu
boot_lu_plan (ok active) node_of = first_boot_lu node_of active (spare_boot_lu active ∷ active ∷ [])
boot_lu_plan (err e) node_of = in_place (node_of boot_lun_a)
boot_lu_plan panicked node_of = none

unfoldable pub ufs_boot_lu_plan : Machine → StorageDevice → Log → Option BootLuPlan
unfolding boot_lu_plan find_ufs_boot_lu
ufs_boot_lu_plan m device h =
    if is_ufs device.kind
    then boot_lu_plan (m.boot_lun_en h device.path)
        (λ id. find_ufs_boot_lu device.path id (m.siblings h device.path))
    else none

-- A size that is known, and room that is known and not enough
abbrev pub is_short : (room : Option ℕ) → (size needed : ℕ) → Bool
is_short none size needed = false
is_short (some room) size needed = not (size == 0) && ltb room needed

unfoldable pub guard_ufs_boot_lu :
    Machine → Bool → StorageDevice → UbootBuild → Option BootLuPlan → Io (Unit {0})
guard_ufs_boot_lu m dry_run device uboot none =
    raise_if (is_ufs device.kind && not dry_run) (device.path ++ codes " is UFS but has no boot LU")
guard_ufs_boot_lu m dry_run device uboot (some plan) =
    asked (λ h. m.block_size h plan.node) >>= λ room.
    raise_if
      (is_ufs device.kind
        && (is_short room uboot.size_bytes (add64 loader_start uboot.size_bytes) && not dry_run))
      (codes "UFS boot LU is too small")

unfoldable pub guard_boot_menu_fits : Bool → Option FalconImage → Io (Unit {0})
guard_boot_menu_fits dry_run none = pure tt
guard_boot_menu_fits dry_run (some menu) =
    raise_if (is_short (some loader_capacity) menu.size_bytes menu.size_bytes && not dry_run)
      (codes "the loader partition is too small")

-- `RECOVERY_LU_ID`
abbrev pub recovery_lu_id : ℕ
recovery_lu_id = 3

unfoldable pub ufs_recovery_lu : Machine → StorageDevice → Log → Option Text
unfolding find_ufs_data_lu
ufs_recovery_lu m device h =
    if is_ufs device.kind
    then find_ufs_data_lu device.path recovery_lu_id (m.siblings h device.path)
    else none

unfoldable pub guard_recovery_fits :
    Bool → Option FalconImage → Option Text → Option ℕ → Io (Unit {0})
guard_recovery_fits dry_run none lu capacity = pure tt
guard_recovery_fits dry_run (some image) none capacity = pure tt
guard_recovery_fits dry_run (some image) (some node) capacity =
    raise_if (is_short capacity image.size_bytes image.size_bytes && not dry_run)
      (codes "UFS recovery LU is too small")
