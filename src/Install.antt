-- ===== src/Install.antt =====
-- src/core/install.rs: the installation, from its guards to the last unmount.
pub mod Commands
pub mod Guards
pub mod Selected
pub mod Gpt
pub mod Images
pub mod Filesystem
pub mod Idle
pub mod Harmless
pub mod DryRun
pub mod VerifyFirst
pub mod Calm
pub mod Cleaned
use flipperos_installer.Base.{
  ℕ, ◌+◌, ◌≡◌, Bool, true, false, not, ◌&&◌, ◌||◌, List, [], ◌∷◌, ◌++◌, any, filter, map, Option,
  none, some, option_map, Text, codes, Result, ok, err, panicked, if◌then◌else◌, text_eq,
  starts_with, and_some, is_some, ok_or, get_or_else,
}
use flipperos_installer.Base.Calls.{
  Call, pure, raise, lift, ◌>>=◌, ◌>>◌, raise_if, attempt, perform,
}
use flipperos_installer.Machine.{
  Machine, Log, Effect, removed_dir, Io, asked, exec, ignored, unless,
}
use flipperos_installer.Model.{
  AppState, Source, UbootBuild, SnapshotBuild, FalconImage, PackFile, ProfilePack, FetchMode,
  verify_first, stream, target, selected_uboot, selected_build, selected_boot_menu,
  selected_recovery, minimal, extra_profiles, BundleRef,
}
use flipperos_installer.Layout.{Layout, LayoutFiles, first_layout}
use flipperos_installer.Media.{mounts, whole_disk}
use flipperos_installer.Stage.{
  Artifact, FalconImages, Staged, OnTarget, staging_plan, guard_not_on_target, localise_uboot,
  localise_image, localise_build,
}
use flipperos_installer.Stage.Run.{run_staging, unpack_bundle, OnMismatch, policy_of}
use flipperos_installer.Storage.{StorageDevice}
use Commands.{release_own_mounts, wait_for_exclusive_access, partition_path, unmount, target_mnt}
use Guards.{
  guard_target, ufs_boot_lu_plan, guard_ufs_boot_lu, guard_boot_menu_fits, ufs_recovery_lu,
  guard_recovery_fits, BootLuPlan, is_ufs,
}
use Selected.{Installation, chosen_extras, selected}
use Gpt.{write_gpt, root_part_index}
use Images.{install_uboot, install_boot_menu, install_recovery}
use Filesystem.{
  make_filesystem, receive_pack, make_writable_snapshot, deploy_profile, write_metadata, slash,
  stock_snapshots_dir, home_subvol, finally,
}

-- The settings that a run reads.
pub record Config : Type 0 where
  pub dry_run : Bool
  pub cache_dir : Text
  pub server_url : Text

-- `removable::unmount_ours` of the mounts of one disk
unfoldable pub unmount_media : Machine → Text → List Text → Io (Unit {0})
unmount_media m disk [] = pure tt
unmount_media m disk (mp ∷ mps) =
    ignored (exec m false (codes "umount" ∷ mp ∷ []))
    >> (perform (removed_dir mp) >> unmount_media m disk mps)

abbrev pub media_mnt_base : Text
media_mnt_base = codes "/run/flipperos-media"

unfoldable pub media_on : Option Text → Text → List Text
unfolding whole_disk
media_on table disk =
    map (λ m. m.mountpoint)
      (filter (λ m. starts_with media_mnt_base m.mountpoint && text_eq (whole_disk m.device) disk)
        (mounts table))

unfoldable pub unmount_ours : Machine → Text → Io (Unit {0})
unfolding media_on unmount_media
unmount_ours m disk = asked (λ h. media_on (m.mount_table h) disk) >>= unmount_media m disk

abbrev pub falcon_of : Installation → FalconImages
falcon_of j = record { boot_menu = j.boot_menu; recovery = j.recovery }

abbrev pub guarded : Result OnTarget (Unit {0}) → Io (Unit {0})
guarded (ok u) = pure tt
guarded (err e) = raise (e.label ++ codes " is read from the target")
guarded panicked = pure tt

abbrev pub guard_apart : Option Text → Installation → Result OnTarget (Unit {0})
unfolding guard_not_on_target
guard_apart table j = guard_not_on_target table j.uboot (falcon_of j) j.build j.extras j.device.path

abbrev pub capacity_of : Machine → Option Text → Log → Option ℕ
capacity_of m lu h = and_some lu (m.block_size h)

abbrev pub settled : Installation → Option BootLuPlan → Option Text → Installation
settled j boot_lu recovery_lu = record j { boot_lu = boot_lu; recovery_lu = recovery_lu }

-- The guards, in their order, with what is settled on the way
unfoldable pub check_apart :
    Machine → Installation → Option BootLuPlan → Option Text → Io Installation
check_apart m j boot_lu recovery_lu = asked (λ h. m.mount_table h) >>= λ table.
    guarded (guard_apart table j) >> pure (settled j boot_lu recovery_lu)

unfoldable pub check_recovery :
    Machine → Config → Installation → Option BootLuPlan → Io Installation
check_recovery m cfg j boot_lu = asked (ufs_recovery_lu m j.device) >>= λ lu.
    asked (capacity_of m lu) >>= λ capacity.
    guard_recovery_fits cfg.dry_run j.recovery lu capacity >> check_apart m j boot_lu lu

unfoldable pub check_boot : Machine → Config → Installation → Option BootLuPlan → Io Installation
check_boot m cfg j boot_lu =
    guard_ufs_boot_lu m cfg.dry_run j.device j.uboot boot_lu
    >> (guard_boot_menu_fits cfg.dry_run j.boot_menu >> check_recovery m cfg j boot_lu)

unfoldable pub check : Machine → Config → Installation → Io Installation
check m cfg j =
    guard_target m cfg.dry_run j.device
    >> (asked (ufs_boot_lu_plan m j.device) >>= check_boot m cfg j)

-- What is cleared away first: mounts of an earlier run, and the installer's own mounts of the target
unfoldable pub prepare : Machine → Config → Installation → Io Installation
unfolding release_own_mounts unmount_ours check
prepare m cfg j = release_own_mounts m cfg.dry_run >> unmount_ours m j.device.path >> check m cfg j

abbrev pub plan_of : Installation → List Artifact
unfolding staging_plan
plan_of j = staging_plan j.uboot (falcon_of j) j.build j.extras

-- The bundle that lies in an archive, if the selected one does
abbrev pub pending_archive : AppState → Option BundleRef
pending_archive s =
    and_some s.bundle λ b. if is_some b.reference.archive then some b.reference else none

unfoldable pub unpack : Machine → Config → Option BundleRef → Io (Unit {0})
unfolding unpack_bundle
unpack m cfg none = pure tt
unpack m cfg (some r) = unpack_bundle m cfg.dry_run cfg.cache_dir r

-- The job as it reads the staged copies
unfoldable pub localised : AppState → Staged → Installation → Installation
unfolding localise_uboot localise_image localise_build chosen_extras
localised s staged j =
    let build = localise_build staged j.build in
    record j {
      uboot = localise_uboot staged j.uboot;
      boot_menu = option_map (localise_image staged) j.boot_menu;
      recovery = option_map (localise_image staged) j.recovery;
      build = build;
      extras = chosen_extras s build;
    }

-- Everything is verified first, unless the operator chose to stream.
unfoldable pub stage_by : FetchMode → Machine → Config → AppState → Installation → Io Installation
unfolding run_staging localised
stage_by verify_first m cfg s j =
    run_staging m cfg.dry_run cfg.cache_dir (plan_of j) >>= λ staged. pure (localised s staged j)
stage_by stream m cfg s j = pure j

unfoldable pub stage : Machine → Config → AppState → Installation → Io Installation
unfolding stage_by
stage m cfg s j = stage_by s.selection.fetch m cfg s j

-- The steps that write outside the file system
unfoldable pub write_images : Machine → Config → OnMismatch → Installation → Io (Unit {0})
unfolding wait_for_exclusive_access exec write_gpt install_uboot install_boot_menu install_recovery
write_images m cfg policy j = do
  wait_for_exclusive_access m cfg.dry_run j.device.path
  exec m cfg.dry_run (codes "blkdiscard" ∷ codes "-f" ∷ j.device.path ∷ [])
  write_gpt m cfg.dry_run j.device.path j.device.logical_block_size
  install_uboot m cfg.dry_run j.device j.uboot j.boot_lu policy
  install_boot_menu m cfg.dry_run j.device j.boot_menu policy
  install_recovery m cfg.dry_run j.recovery j.recovery_lu policy

unfoldable pub delete_subvolume : Machine → Bool → Text → Io (Unit {0})
unfolding exec
delete_subvolume m dry_run path =
    exec m dry_run (codes "btrfs" ∷ codes "subvolume" ∷ codes "delete" ∷ path ∷ [])

-- The seed of the shared home directory, if the build ships one
unfoldable pub seed_home : Machine → Bool → Layout → Option PackFile → OnMismatch → Io (Unit {0})
unfolding exec receive_pack make_writable_snapshot delete_subvolume
seed_home m dry_run layout none policy = pure tt
seed_home m dry_run layout (some pack) policy = do
  let stock_dir = slash target_mnt stock_snapshots_dir
  receive_pack m dry_run stock_dir pack (codes "/home seed") policy
  unless (not (any (λ v. text_eq v.name home_subvol) layout.subvolumes))
      (delete_subvolume m dry_run (slash target_mnt home_subvol))
  make_writable_snapshot m dry_run target_mnt home_subvol home_subvol
  delete_subvolume m dry_run (slash stock_dir home_subvol)

abbrev lacks_pack : Text → Io (Unit {0})
lacks_pack what = raise what

unfoldable pub deploy_minimal :
    Machine → Bool → (root_part : Text) → Layout → ProfilePack → OnMismatch → Io (Unit {0})
unfolding deploy_profile
deploy_minimal m dry_run root_part layout p policy = elim p.full [
  | none ↦ lacks_pack (codes "Minimal profile has no full pack")
  | some pack ↦
      deploy_profile m dry_run target_mnt root_part layout p pack (p.name ++ codes " (full)") policy
]

unfoldable pub deploy_extras :
    Machine → Bool → (root_part : Text) → Layout → List ProfilePack → OnMismatch → Io (Unit {0})
unfolding deploy_profile
deploy_extras m dry_run root_part layout [] policy = pure tt
deploy_extras m dry_run root_part layout (p ∷ ps) policy = elim p.incremental [
  | none ↦ lacks_pack (codes "profile has no incremental pack")
  | some pack ↦
      deploy_profile m dry_run target_mnt root_part layout p pack (p.name ++ codes " (incremental)")
        policy
      >> deploy_extras m dry_run root_part layout ps policy
]

-- A failure to record what was installed is reported, and the run goes on.
unfoldable pub record_metadata :
    Machine → Bool → (disk root_part : Text) → ProfilePack → Result Text Text → Io (Unit {0})
unfolding write_metadata
record_metadata m dry_run disk root_part minimal json =
    ignored (lift json >>= λ text. write_metadata m dry_run disk root_part minimal text)

-- The inner block of `run`, while the target is mounted
unfoldable pub deploy :
    Machine
    → Config
    → Layout
    → OnMismatch
    → Result Text Text
    → Installation
    → ProfilePack
    → Io (Unit {0})
unfolding exec seed_home deploy_minimal deploy_extras record_metadata partition_path
deploy m cfg layout policy json j base = do
  let root_part = partition_path j.device.path root_part_index
  exec m cfg.dry_run (codes "mkdir" ∷ codes "-p" ∷ slash target_mnt stock_snapshots_dir ∷ [])
  seed_home m cfg.dry_run layout j.build.home_pack policy
  deploy_minimal m cfg.dry_run root_part layout base policy
  deploy_extras m cfg.dry_run root_part layout j.extras policy
  record_metadata m cfg.dry_run j.device.path root_part base json

-- The steps from the wipe on
unfoldable pub install :
    Machine
    → Config
    → Layout
    → OnMismatch
    → Result Text Text
    → Installation
    → ProfilePack
    → Io (Unit {0})
unfolding write_images make_filesystem deploy unmount partition_path
install m cfg layout policy json j base = do
  write_images m cfg policy j
  make_filesystem m cfg.dry_run (partition_path j.device.path root_part_index) layout
  finally (deploy m cfg layout policy json j base) (unmount m cfg.dry_run target_mnt)

abbrev pub layout_for : LayoutFiles → Config → AppState → Installation → Layout
unfolding first_layout
layout_for files cfg s j =
    first_layout files cfg.server_url s.board.board_id [] (j.build.source ∷ [])

abbrev pub base_of : Installation → Result Text ProfilePack
unfolding minimal
base_of j = ok_or (minimal j.build) (codes "snapshot build has no Minimal profile")

-- `run`, once the guards let through: nothing is erased before `install`.
unfoldable pub proceed :
    Machine → LayoutFiles → Config → Result Text Text → AppState → Installation → Io (Unit {0})
proceed m files cfg json s j = do
  unpack m cfg (pending_archive s)
  staged ← stage m cfg s j
  base ← lift (base_of staged)
  install m cfg (layout_for files cfg s j) (policy_of s.selection.fetch) json staged base

-- `run`. The record of what is installed comes encoded.
unfoldable pub run : Machine → LayoutFiles → Config → Result Text Text → AppState → Io (Unit {0})
run m files cfg json s =
    lift (selected s) >>= λ chosen. prepare m cfg chosen >>= proceed m files cfg json s
