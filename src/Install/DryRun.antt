-- ===== src/Install/DryRun.antt =====
-- What a dry run does to the system.
pub mod Steps
use flipperos_installer.Base.{
  ℕ, ◌≡◌, refl, ap, sym, ◌∙◌, Bool, true, false, not, ◌&&◌, ◌||◌, ◌==◌, List, [], ◌∷◌, ◌++◌, map,
  filter, All, Option, none, some, Text, codes, Result, ok, err, panicked, if◌then◌else◌,
  starts_with, text_eq, arith, Bool-cases, inl, inr,
}
use flipperos_installer.Base.Calls.{
  Call, caught, attempt, pure, raise, lift, ◌>>=◌, ◌>>◌, raise_if, and_then,
}
use flipperos_installer.Added.{
  Adds, Grown, Grown-refl, Grown-trans, >>=-Adds, if-Adds, raise_if-Adds,
}
use flipperos_installer.Machine.{
  Machine, Log, Effect, ran, removed_dir, Io, asked, exec, ignored, unless,
}
use flipperos_installer.Model.{
  BundleRef, AppState, UbootBuild, FalconImage, PackFile, ProfilePack, verify_first, stream,
}
use flipperos_installer.Layout.{Layout, LayoutFiles, Subvolume, first_layout}
use flipperos_installer.Stage.{OnTarget}
use flipperos_installer.Stage.Run.{OnMismatch, policy_of, unpack_bundle, run_staging}
use flipperos_installer.Media.{Mount, mounts, whole_disk}
use flipperos_installer.Install.{
  Config, media_mnt_base, proceed, settled, check_apart, check_recovery, check_boot, run, stage_by,
  prepare, unmount_ours, unmount_media, media_on, write_images, install, deploy, stage,
  pending_archive, seed_home, deploy_minimal, deploy_extras, check, guarded, guard_apart,
  capacity_of, base_of, layout_for, unpack, record_metadata,
}
use flipperos_installer.Install.Idle.{
  IsIdle, >>=-IsIdle, if-IsIdle, pure-IsIdle, raise-IsIdle, raise_if-IsIdle, asked-IsIdle,
  lift-IsIdle, idle-Adds, check-IsIdle,
}
use flipperos_installer.Install.Selected.{Installation, selected}
use flipperos_installer.Install.Commands.{release_own_mounts, unmount, target_mnt, partition_path}
use flipperos_installer.Install.Gpt.{write_gpt, is_block_size, root_part_index}
use flipperos_installer.Install.Guards.{
  BootLuPlan, is_ufs, guard_target, refuse_incapable, refuse_used, is_nonempty, ufs_boot_lu_plan,
  guard_ufs_boot_lu, guard_boot_menu_fits, ufs_recovery_lu, guard_recovery_fits,
}
use flipperos_installer.Install.Images.{install_uboot, install_boot_menu, install_recovery}
use flipperos_installer.Storage.{StorageDevice, boot_rom_capable}
use flipperos_installer.Install.Filesystem.{
  make_filesystem, create_skeleton, make_dirs, deploy_profile, set_compression, slash, on_failure,
  finally,
}
use Steps.{dry, install-IsIdle}

-- An unmount of a file system that the installer mounted to look for bundles, or the removal of its
-- mount point
abbrev pub IsMediaUmount : Effect → Type 0
IsMediaUmount (ran (program ∷ mp ∷ [])) =
    (program ≡ codes "umount") × (starts_with media_mnt_base mp ≡ true)
IsMediaUmount (removed_dir dir) = starts_with media_mnt_base dir ≡ true
IsMediaUmount _ = ⊥

unmount_media-Adds :
    (m : Machine) (disk : Text) (mps : List Text)
    → All (λ mp. starts_with media_mnt_base mp ≡ true) mps
    → Adds IsMediaUmount (unmount_media m disk mps)
unfolding unmount_media exec
unmount_media-Adds m disk [] a h = Grown-refl IsMediaUmount h
unmount_media-Adds m disk (mp ∷ mps) a h =
    Grown-trans IsMediaUmount h (removed_dir mp ∷ ran (codes "umount" ∷ mp ∷ []) ∷ h) _
      (removed_dir mp ∷ ran (codes "umount" ∷ mp ∷ []) ∷ [], refl, (a.0, ((refl, a.0), tt)))
      (unmount_media-Adds m disk mps a.1 (removed_dir mp ∷ ran (codes "umount" ∷ mp ∷ []) ∷ h))

media_points :
    (disk : Text) (ms : List Mount)
    → All
        (λ mp. starts_with media_mnt_base mp ≡ true)
        (map
          (λ m. m.mountpoint)
          (filter
            (λ m. starts_with media_mnt_base m.mountpoint && text_eq (whole_disk m.device) disk)
            ms))
media_points disk [] = tt
media_points disk (mt ∷ ms) = ground (arith, media_points disk ms)

unmount_ours-Adds : (m : Machine) (disk : Text) → Adds IsMediaUmount (unmount_ours m disk)
unfolding unmount_ours
unmount_ours-Adds m disk h =
    unmount_media-Adds m disk (media_on (m.mount_table h) disk)
      (media_points disk (mounts (m.mount_table h))) h

prepare-Adds :
    (m : Machine) (c u : Text) (j : Installation) → Adds IsMediaUmount (prepare m (dry c u) j)
unfolding prepare release_own_mounts
prepare-Adds m c u j =
    >>=-Adds {E = Text} IsMediaUmount (unmount_ours m j.device.path) _
      (unmount_ours-Adds m j.device.path)
      λ _. idle-Adds IsMediaUmount (check m (dry c u) j) (check-IsIdle m (dry c u) j)

unpack-IsIdle : (m : Machine) (c u : Text) (r : Option BundleRef) → IsIdle (unpack m (dry c u) r)
unfolding unpack unpack_bundle
unpack-IsIdle m c u none h = refl
unpack-IsIdle m c u (some r) h = ground arith

stage-IsIdle :
    (m : Machine) (c u : Text) (s : AppState) (j : Installation) → IsIdle (stage m (dry c u) s j)
unfolding stage stage_by run_staging
stage-IsIdle m c u s j h = ground arith

proceed-IsIdle :
    (m : Machine) (files : LayoutFiles) (c u : Text) (json : Result Text Text) (s : AppState)
    (j : Installation)
    → IsIdle (proceed m files (dry c u) json s j)
unfolding proceed
proceed-IsIdle m files c u json s j =
    >>=-IsIdle (unpack m (dry c u) (pending_archive s)) _ (unpack-IsIdle m c u (pending_archive s))
      λ _. >>=-IsIdle (stage m (dry c u) s j) _ (stage-IsIdle m c u s j) λ staged.
        >>=-IsIdle (lift (base_of staged)) _ (lift-IsIdle (base_of staged)) λ base.
          install-IsIdle m c u (layout_for files (dry c u) s j) (policy_of s.selection.fetch) json
            staged base

-- Whatever the selection, the device and the system are, a dry run does nothing to the system but
-- unmount file systems that the installer itself has mounted in its search for bundles, and remove
-- their mount points.
pub run-IsMediaUmount :
    (m : Machine) (files : LayoutFiles) (cache_dir server_url : Text) (json : Result Text Text)
    (s : AppState)
    → Adds IsMediaUmount (run m files (dry cache_dir server_url) json s)
unfolding run
run-IsMediaUmount m files c u json s =
    >>=-Adds {E = Text} IsMediaUmount (lift (selected s)) _
      (idle-Adds IsMediaUmount (lift (selected s)) (lift-IsIdle (selected s)))
      λ chosen.
        >>=-Adds {E = Text} IsMediaUmount (prepare m (dry c u) chosen) _ (prepare-Adds m c u chosen)
          λ j.
            idle-Adds IsMediaUmount (proceed m files (dry c u) json s j)
              (proceed-IsIdle m files c u json s j)
