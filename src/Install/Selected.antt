-- ===== src/Install/Selected.antt =====
-- src/core/install.rs: what a run starts from, the selection when it was asked for.
use flipperos_installer.Base.{
  not, List, any, filter, Option, none, Text, codes, Result, ok, ok_or, bail_if, ◌>>=◌, ◌>>◌,
  if◌then◌else◌, text_eq, is_some,
}
use flipperos_installer.Model.{
  AppState, UbootBuild, SnapshotBuild, FalconImage, ProfilePack, target, selected_uboot,
  selected_build, selected_boot_menu, selected_recovery, minimal, extra_profiles,
}
use flipperos_installer.Storage.{StorageDevice}
use flipperos_installer.Install.Guards.{BootLuPlan, is_ufs}

-- What a run has settled before anything is written.
pub record Installation : Type 0 where
  pub device : StorageDevice
  pub uboot : UbootBuild
  pub build : SnapshotBuild
  pub boot_menu : Option FalconImage
  pub recovery : Option FalconImage
  pub extras : List ProfilePack
  pub boot_lu : Option BootLuPlan
  pub recovery_lu : Option Text

-- The profiles that were opted into, in the order of the build
unfoldable pub chosen_extras : AppState → SnapshotBuild → List ProfilePack
unfolding extra_profiles
chosen_extras s build =
    filter (λ p. any (text_eq p.name) s.selection.profiles) (extra_profiles build)

-- The selection that a run starts from, or why it cannot
unfoldable pub selected : AppState → Result Text Installation
unfolding target selected_uboot selected_build minimal selected_boot_menu selected_recovery
    chosen_extras
selected s = do
  device ← ok_or (target s) (codes "no target device selected")
  uboot ← ok_or (selected_uboot s) (codes "no u-boot build selected")
  build ← ok_or (selected_build s) (codes "no snapshot build selected")
  bail_if (not build.loaded) (codes "snapshot build profiles not loaded yet")
  bail_if (not uboot.loaded) (codes "u-boot build manifest not loaded yet")
  bail_if (not (is_some (minimal build))) (codes "snapshot build has no Minimal profile")
  ok (record {
    device = device;
    uboot = uboot;
    build = build;
    boot_menu = if is_ufs device.kind then selected_boot_menu s else none;
    recovery = if is_ufs device.kind then selected_recovery s else none;
    extras = chosen_extras s build;
    boot_lu = none;
    recovery_lu = none;
  })
