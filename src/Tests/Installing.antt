-- ===== src/Tests/Installing.antt =====
-- The installation at concrete inputs.
use flipperos_installer.Base.{
  ℕ, ◌≡◌, ◌⊎◌, refl, false, ◌==◌, [], ◌∷◌, All, Option, none, some, Text, codes, ok, starts_with,
  strip_prefix, if◌then◌else◌,
}
use flipperos_installer.Added.{Grown}
use flipperos_installer.Model.{verify_first}
use flipperos_installer.Stage.{Artifact, check_not_on_mounts}
use flipperos_installer.Stage.Run.{warn}
use flipperos_installer.Stage.Apart.{IsApart, check_not_on_mounts-IsApart}
use flipperos_installer.Layout.{default_layout}
use flipperos_installer.Install.{run, write_images, install}
use flipperos_installer.Install.Selected.{Installation}
use flipperos_installer.Install.Gpt.{root_part_index}
use flipperos_installer.Install.Commands.{target_mnt, partition_path}
use flipperos_installer.Install.Filesystem.{mount_filesystem}
use flipperos_installer.Install.Cleaned.{EndsAt, IsCleaned, install-IsCleaned}
use flipperos_installer.Install.DryRun.{IsMediaUmount, run-IsMediaUmount}
use flipperos_installer.Install.DryRun.Steps.{dry}
use flipperos_installer.Install.VerifyFirst.{real}
use flipperos_installer.Install.Guards.{BootLuPlan, boot_lu_plan}
use flipperos_installer.Install.Guards.Spare.{IsSpareFirst, boot_lu_plan-IsSpareFirst}
use flipperos_installer.Install.Images.{install_on_boot_lu}
use flipperos_installer.Install.Images.Switch.{
  IsNoSwitch, IsSwitched, install_on_boot_lu-IsSwitched,
}
use flipperos_installer.Tests.Rig.{
  fit_state, fit_machine, no_files, some_uboot, some_build, minimal_profile, ufs_disk,
}

abbrev cache : Text
cache = codes "/var/cache/flipperos"

run-IsMediaUmount_example :
    Grown IsMediaUmount []
      (run fit_machine no_files
        (dry cache (codes "http://s"))
        (ok [])
        (fit_state verify_first)
        []).1
run-IsMediaUmount_example =
    run-IsMediaUmount fit_machine no_files cache (codes "http://s") (ok []) (fit_state verify_first)
      []

abbrev job : Installation
job = record {
  device = ufs_disk;
  uboot = some_uboot;
  build = some_build;
  boot_menu = none;
  recovery = none;
  extras = [];
  boot_lu = none;
  recovery_lu = none;
}

install-IsCleaned_example :
    EndsAt (write_images fit_machine (real cache (codes "http://s")) warn job []) (
      install fit_machine
        (real cache (codes "http://s"))
        default_layout
        warn
        (ok [])
        job
        minimal_profile
        [])
    ⊎ (EndsAt
          (mount_filesystem fit_machine false
            (partition_path job.device.path root_part_index)
            default_layout
            (write_images fit_machine (real cache (codes "http://s")) warn job []).1)
          (install fit_machine
            (real cache (codes "http://s"))
            default_layout
            warn
            (ok [])
            job
            minimal_profile
            [])
        ⊎ IsCleaned fit_machine target_mnt
            (install fit_machine
              (real cache (codes "http://s"))
              default_layout
              warn
              (ok [])
              job
              minimal_profile
              []).1)
install-IsCleaned_example =
    install-IsCleaned fit_machine cache (codes "http://s") default_layout warn (ok []) job
      minimal_profile []

abbrev spare_plan : BootLuPlan
spare_plan = record { node = codes "/dev/sdb"; id = 2; active = 1 }

install_on_boot_lu-IsSwitched_example :
    Grown IsNoSwitch []
      (install_on_boot_lu fit_machine false (codes "/dev/sda") some_uboot spare_plan warn []).1
    ⊎ IsSwitched fit_machine
        (codes "/dev/sda")
        some_uboot
        spare_plan
        []
        (install_on_boot_lu fit_machine false (codes "/dev/sda") some_uboot spare_plan warn []).1
install_on_boot_lu-IsSwitched_example =
    install_on_boot_lu-IsSwitched fit_machine (codes "/dev/sda") some_uboot spare_plan warn []

abbrev nodes : ℕ → Option Text
nodes id = if id == 2 then some (codes "/dev/sdb") else none

boot_lu_plan-IsSpareFirst_example : IsSpareFirst 1 nodes (boot_lu_plan (ok 1) nodes)
boot_lu_plan-IsSpareFirst_example = boot_lu_plan-IsSpareFirst 1 nodes

abbrev some_artifact : Artifact
some_artifact = record {
  label = codes "u-boot image";
  location = codes "/media/stick/u-boot.bin";
  source = some_uboot.source;
  sha256 = none;
  size = 1;
  rel = codes "u-boot.bin";
}

apart_checked :
    check_not_on_mounts (some_artifact ∷ []) (codes "/media/sti" ∷ []) (codes "/dev/sda") ≡ ok tt
unfolding check_not_on_mounts starts_with strip_prefix
apart_checked = refl

check_not_on_mounts-IsApart_example : All (IsApart (codes "/media/sti" ∷ [])) (some_artifact ∷ [])
check_not_on_mounts-IsApart_example =
    check_not_on_mounts-IsApart (some_artifact ∷ []) (codes "/media/sti" ∷ []) (codes "/dev/sda")
      apart_checked
