-- ===== src/Install/Filesystem.antt =====
-- src/core/install.rs: the file system, the profiles that are received into it, their kernels, and the
-- record of what was installed.
use flipperos_installer.Base.{
  Bool, false, not, List, [], ◌∷◌, ◌++◌, Option, none, some, Text, codes, ok, err, panicked,
  if◌then◌else◌,
}
use flipperos_installer.Base.Calls.{pure, raise, lift, ◌>>=◌, ◌>>◌, attempt}
use flipperos_installer.Machine.{
  Machine, fed, stored, made_dir, made_file, Io, asked, acts, checked, exec, ignored, unless,
}
use flipperos_installer.Model.{Source, PackFile, ProfilePack, stock_subvol, root_subvol}
use flipperos_installer.Fetch.{verify}
use flipperos_installer.Layout.{Layout, Subvolume, boot_subvol}
use flipperos_installer.Stage.Run.{OnMismatch, apply_verdict}
use flipperos_installer.Install.Commands.{
  wait_for_device, partition_path, umount_recursive, target_mnt, profile_mnt,
}
use flipperos_installer.Install.Gpt.{metadata_part_index}

abbrev pub slash : Text → Text → Text
slash a b = a ++ (codes "/" ++ b)

-- `STOCK_SNAPSHOTS_DIR` and `HOME_SUBVOL`
abbrev pub stock_snapshots_dir : Text
stock_snapshots_dir = codes "@stock-snapshots"

abbrev pub home_subvol : Text
home_subvol = codes "@home"

unfoldable pub receive_pack :
    Machine → Bool → (target : Text) → PackFile → (what : Text) → OnMismatch → Io (Unit {0})
unfolding verify apply_verdict
receive_pack m dry_run target pack what policy = if dry_run then pure tt else do
  let command = codes "btrfs" ∷ codes "receive" ∷ target ∷ []
  checked (λ h. m.opens h pack.location pack.source)
  acts (fed pack.location command) (λ h. m.feeds h pack.location command)
  digest ← asked (λ h. m.digest h pack.location)
  apply_verdict what (verify digest pack.sha256) policy

unfoldable pub make_writable_snapshot : Machine → Bool → (mnt stock root : Text) → Io (Unit {0})
unfolding exec
make_writable_snapshot m dry_run mnt stock root = exec m dry_run (
    codes "btrfs"
    ∷ codes "subvolume"
    ∷ codes "snapshot"
    ∷ slash mnt (slash stock_snapshots_dir stock)
    ∷ slash mnt root
    ∷ [])

unfoldable pub make_dirs : Machine → Bool → Text → List Text → Io (Unit {0})
unfolding exec
make_dirs m dry_run base [] = pure tt
make_dirs m dry_run base (dir ∷ dirs) =
    exec m dry_run (codes "mkdir" ∷ codes "-p" ∷ slash base dir ∷ [])
    >> exec m dry_run (codes "chattr" ∷ codes "+C" ∷ slash base dir ∷ [])
    >> make_dirs m dry_run base dirs

unfoldable pub set_compression : Machine → Bool → Text → Option Text → Io (Unit {0})
unfolding exec
set_compression m dry_run path none = pure tt
set_compression m dry_run path (some c) =
    exec m dry_run
      (codes "btrfs" ∷ codes "property" ∷ codes "set" ∷ path ∷ codes "compression" ∷ c ∷ [])

unfoldable pub create_skeleton : Machine → Bool → Text → List Subvolume → Io (Unit {0})
unfolding exec make_dirs set_compression
create_skeleton m dry_run mnt [] = pure tt
create_skeleton m dry_run mnt (sv ∷ svs) =
    exec m dry_run (codes "btrfs" ∷ codes "subvolume" ∷ codes "create" ∷ slash mnt sv.name ∷ [])
    >> set_compression m dry_run (slash mnt sv.name) sv.compression
    >> make_dirs m dry_run (slash mnt sv.name) sv.nodatacow
    >> create_skeleton m dry_run mnt svs

-- A call that always ends by a second one: the first's error is kept in preference to the second's.
abbrev pub finally : Io (Unit {0}) → Io (Unit {0}) → Io (Unit {0})
finally work cleanup = attempt work >>= λ r. attempt cleanup >>= λ r'. lift r >> lift r'

-- A call that is followed by another where it fails, whose own error is ignored.
abbrev pub on_failure : Io (Unit {0}) → Io (Unit {0}) → Io (Unit {0})
on_failure work cleanup = attempt work >>= λ r. elim r [
  | ok u ↦ pure tt
  | err e ↦ ignored cleanup >> raise e
  | panicked ↦ pure tt
]

-- `make_filesystem`, up to the mount of the target
unfoldable pub mount_filesystem : Machine → Bool → (part : Text) → Layout → Io (Unit {0})
unfolding wait_for_device exec
mount_filesystem m dry_run part layout = do
  wait_for_device m dry_run part
  exec m dry_run (codes "mkfs.btrfs" ∷ codes "-f" ∷ codes "-L" ∷ layout.label ∷ part ∷ [])
  exec m dry_run (codes "mkdir" ∷ codes "-p" ∷ target_mnt ∷ [])
  exec m dry_run (
      codes "mount"
      ∷ codes "-t"
      ∷ codes "btrfs"
      ∷ codes "-o"
      ∷ layout.options
      ∷ part
      ∷ target_mnt
      ∷ [])

unfoldable pub make_filesystem : Machine → Bool → (part : Text) → Layout → Io (Unit {0})
unfolding mount_filesystem create_skeleton umount_recursive
make_filesystem m dry_run part layout =
    mount_filesystem m dry_run part layout
    >> on_failure (create_skeleton m dry_run target_mnt layout.subvolumes)
        (umount_recursive m dry_run target_mnt)

-- The mount of a profile's root at its own mount point
unfoldable pub mount_profile : Machine → (root_part subvol : Text) → Io (Unit {0})
unfolding exec
mount_profile m root_part subvol =
    acts (made_dir profile_mnt) (λ h. m.makes h profile_mnt)
    >> exec m false
        (codes "mount" ∷ codes "-o" ∷ (codes "subvol=" ++ subvol) ∷ root_part ∷ profile_mnt ∷ [])

abbrev pub kernel_script : Text
kernel_script = codes "kernel-install script"

unfoldable pub install_kernel :
    Machine → Bool → (mnt root_part boot_subvol root_subvol profile : Text) → Io (Unit {0})
unfolding mount_profile umount_recursive
install_kernel m dry_run mnt root_part boot root profile = if dry_run then pure tt else do
  mount_profile m root_part root
  let command = codes "sh" ∷ codes "-s" ∷ profile_mnt ∷ slash mnt boot ∷ profile ∷ []
  finally (acts (fed kernel_script command) (λ h. m.feeds h kernel_script command))
      (umount_recursive m dry_run profile_mnt)

unfoldable pub deploy_profile :
    Machine
    → Bool
    → (mnt root_part : Text) → Layout
    → ProfilePack
    → PackFile
    → (what : Text) → OnMismatch
    → Io (Unit {0})
unfolding receive_pack make_writable_snapshot stock_subvol root_subvol install_kernel boot_subvol
deploy_profile m dry_run mnt root_part layout profile pack what policy = do
  receive_pack m dry_run (slash mnt stock_snapshots_dir) pack what policy
  make_writable_snapshot m dry_run mnt (stock_subvol profile) (root_subvol profile)
  install_kernel m dry_run mnt root_part (boot_subvol layout) (root_subvol profile) profile.name

abbrev pub flipmeta : Text
flipmeta = codes "/usr/local/sbin/flipmeta"

abbrev pub flipmeta_image : Text
flipmeta_image = codes "/run/flipmeta.img"

-- One of the mounts that the tool needs under the profile's root
unfoldable pub mount_under : Machine → (dir : Text) → (args : List Text) → Io (Unit {0})
unfolding exec
mount_under m dir args =
    let at = slash profile_mnt dir in
    acts (made_dir at) (λ h. m.makes h at) >> exec m false (codes "mount" ∷ (args ++ (at ∷ [])))

-- The inner block of `write_metadata`, where the profile ships the tool
unfoldable pub run_flipmeta : Machine → (part json : Text) → Io (Unit {0})
unfolding mount_under exec wait_for_device
run_flipmeta m part json = do
  mount_under m (codes "dev") (codes "--bind" ∷ codes "/dev" ∷ [])
  mount_under m (codes "proc") (codes "-t" ∷ codes "proc" ∷ codes "proc" ∷ [])
  mount_under m (codes "run") (codes "-t" ∷ codes "tmpfs" ∷ codes "tmpfs" ∷ [])
  let image = profile_mnt ++ flipmeta_image
  acts (made_file image) (λ h. m.makes h image)
  exec m false (
      codes "chroot"
      ∷ profile_mnt
      ∷ flipmeta
      ∷ codes "-d"
      ∷ flipmeta_image
      ∷ codes "set"
      ∷ codes "--json"
      ∷ codes "install"
      ∷ json
      ∷ [])
  checked (λ h. m.opens h image (Source.local profile_mnt))
  wait_for_device m false part
  acts (stored image part) (λ h. m.stores h part)

unfoldable pub build_metadata : Machine → (part json : Text) → Io (Unit {0})
unfolding run_flipmeta
build_metadata m part json = asked (λ h. m.exists h (profile_mnt ++ flipmeta)) >>= λ shipped.
    unless (not shipped) (run_flipmeta m part json)

unfoldable pub write_metadata :
    Machine → Bool → (disk root_part : Text) → ProfilePack → (json : Text) → Io (Unit {0})
unfolding mount_profile build_metadata umount_recursive partition_path root_subvol
write_metadata m dry_run disk root_part profile json =
    if dry_run
    then pure tt
    else mount_profile m root_part (root_subvol profile)
      >> finally (build_metadata m (partition_path disk metadata_part_index) json)
          (umount_recursive m dry_run profile_mnt)
