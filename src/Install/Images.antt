-- ===== src/Install/Images.antt =====
-- src/core/install.rs: the images that are written outside the file system, and the switch of the
-- unit that the board boots from.
pub mod Switch
use flipperos_installer.Base.{
  ℕ, ◌+◌, Bool, true, false, not, ◌&&◌, ◌||◌, List, [], ◌∷◌, ◌++◌, Option, none, some, Text, codes,
  Result, ok, err, panicked, if◌then◌else◌, ltb, ◌==◌,
}
use flipperos_installer.Base.Calls.{Call, pure, raise, lift, ◌>>=◌, ◌>>◌, raise_if}
use flipperos_installer.Machine.{
  Machine, Log, Effect, copied, boot_switched, Io, asked, acts, checked, unless,
}
use flipperos_installer.Model.{Source, FalconImage, UbootBuild}
use flipperos_installer.Fetch.{verify, is_mismatch}
use flipperos_installer.Stage.Run.{OnMismatch, apply_verdict}
use flipperos_installer.Storage.{StorageDevice}
use flipperos_installer.Install.Commands.{wait_for_device, partition_path}
use flipperos_installer.Install.Gpt.{loader_start, loader_part_index}
use flipperos_installer.Install.Guards.{BootLuPlan, is_ufs}

-- An image to write: what it is called, where it is read from, and its digest.
pub record Image : Type 0 where
  pub what : Text
  pub location : Text
  pub source : Source
  pub sha256 : Option Text

-- `write_source_to_offset`. A source that cannot be opened stops it before the device is touched.
unfoldable pub write_source_to_offset :
    Machine → Bool → Image → (device : Text) → (offset : ℕ) → OnMismatch → Io Bool
unfolding verify apply_verdict
write_source_to_offset m dry_run i device offset policy = if dry_run then pure true else do
  checked (λ h. m.opens h i.location i.source)
  acts (copied i.location device offset) (λ h. m.copies h i.location device)
  digest ← asked (λ h. m.digest h i.location)
  let verdict = verify digest i.sha256
  apply_verdict i.what verdict policy
  pure (not (is_mismatch verdict))

-- `activate_boot_lu`
unfoldable pub activate_boot_lu : Machine → Bool → Text → ℕ → Io (Unit {0})
activate_boot_lu m dry_run disk id = if dry_run then pure tt else do
  acts (boot_switched disk id) (λ h. m.switches h disk id)
  read ← asked (λ h. m.boot_lun_en h disk)
  now ← lift read
  raise_if (not (now == id)) (codes "the active UFS boot LU is still another")

abbrev pub uboot_image : UbootBuild → Image
uboot_image u = record {
  what = codes "u-boot image";
  location = u.image_location;
  source = u.source;
  sha256 = u.sha256;
}

-- `install_uboot` on UFS, once a boot unit was found
unfoldable pub install_on_boot_lu :
    Machine → Bool → Text → UbootBuild → BootLuPlan → OnMismatch → Io (Unit {0})
unfolding wait_for_device write_source_to_offset activate_boot_lu
install_on_boot_lu m dry_run disk uboot plan policy = do
  wait_for_device m dry_run plan.node
  verified ← write_source_to_offset m dry_run (uboot_image uboot) plan.node loader_start policy
  unless ((plan.id == plan.active) || not verified) (activate_boot_lu m dry_run disk plan.id)

unfoldable pub install_on_loader : Machine → Bool → Text → Image → OnMismatch → Io (Unit {0})
unfolding wait_for_device write_source_to_offset partition_path
install_on_loader m dry_run disk image policy = do
  let loader = partition_path disk loader_part_index
  wait_for_device m dry_run loader
  written ← write_source_to_offset m dry_run image loader 0 policy
  pure tt

unfoldable pub install_on_ufs :
    Machine → Bool → Text → UbootBuild → Option BootLuPlan → OnMismatch → Io (Unit {0})
unfolding install_on_boot_lu
install_on_ufs m dry_run disk uboot none policy = pure tt
install_on_ufs m dry_run disk uboot (some plan) policy =
    install_on_boot_lu m dry_run disk uboot plan policy

unfoldable pub install_uboot :
    Machine → Bool → StorageDevice → UbootBuild → Option BootLuPlan → OnMismatch → Io (Unit {0})
unfolding install_on_boot_lu install_on_loader install_on_ufs
install_uboot m dry_run device uboot plan policy =
    if is_ufs device.kind
    then install_on_ufs m dry_run device.path uboot plan policy
    else install_on_loader m dry_run device.path (uboot_image uboot) policy

abbrev pub falcon_image : Text → FalconImage → Image
falcon_image what i = record {
  what = what;
  location = i.location;
  source = i.source;
  sha256 = i.sha256;
}

unfoldable pub install_boot_menu :
    Machine → Bool → StorageDevice → Option FalconImage → OnMismatch → Io (Unit {0})
unfolding install_on_loader
install_boot_menu m dry_run device none policy = pure tt
install_boot_menu m dry_run device (some menu) policy =
    if is_ufs device.kind
    then install_on_loader m dry_run device.path (falcon_image (codes "boot menu image") menu)
        policy
    else pure tt

unfoldable pub install_recovery :
    Machine → Bool → Option FalconImage → Option Text → OnMismatch → Io (Unit {0})
unfolding wait_for_device write_source_to_offset
install_recovery m dry_run none lu policy = pure tt
install_recovery m dry_run (some image) none policy = pure tt
install_recovery m dry_run (some image) (some node) policy = do
  wait_for_device m dry_run node
  written ←
      write_source_to_offset m dry_run (falcon_image (codes "recovery image") image) node 0 policy
  pure tt
