-- ===== src/Controller/Choices.antt =====
-- src/core/controller.rs: what the operator's choices and the manifests that are read for them do to
-- the shared state, one function for each time that the lock is taken.
use flipperos_installer.Base.{
  ℕ, Bool, true, false, not, ◌&&◌, List, [], ◌∷◌, ◌++◌, Option, none, some, Text, codes, any,
  filter, if◌then◌else◌, is_some, is_text, text_eq, eq_ignore_case, is_empty, Result, ok, err,
}
use flipperos_installer.Storage.{StorageKind, ufs}
use flipperos_installer.Provision.Compare.{Target, Status, is_provisioned, is_blank}
use flipperos_installer.Model.{
  AppState, Prompt, reprovision_ufs, InstallMode, bundle, custom, FetchMode, UbootBuild,
  FalconBuild, FalconImage, BuildDetails, ProfilePack, PackFile, SelectedBundle, with_all_profiles,
}

-- `select_bundle`
unfoldable pub bundle_selected : Text → AppState → AppState
bundle_selected id s = record s {
  selection = record (s.selection) { mode = bundle; bundle = some id; profiles = [] };
  bundle = none;
  bundle_error = none;
}

-- The end of `load_bundle`
unfoldable pub bundle_loaded : Result Text SelectedBundle → AppState → AppState
unfolding with_all_profiles
bundle_loaded (ok b) s =
    with_all_profiles
      (record s { supported_device_types = b.device_types; bundle = some b; bundle_error = none })
bundle_loaded (err e) s = record s { bundle = none; bundle_error = some e }
bundle_loaded Result.panicked s = s

abbrev pub fetch_mode_set : FetchMode → AppState → AppState
fetch_mode_set mode s = record s { selection = record (s.selection) { fetch = mode } }

-- `iter_mut().find(...)` and an assignment: the first item that fits is changed.
unfoldable pub change_first : {A : Type 0} → (A → Bool) → (A → A) → List A → List A
change_first p f [] = []
change_first p f (a ∷ as') = if p a then f a ∷ as' else a ∷ change_first p f as'

-- What `catalog::load_profiles` gives: the build number, the profiles and the home pack.
abbrev pub BuildContents : Type 0
BuildContents = Option ℕ × List ProfilePack × Option PackFile

abbrev is_custom : InstallMode → Bool
is_custom custom = true
is_custom bundle = false

-- The assignments in `load_profiles`
unfoldable pub with_contents : Text → BuildContents → AppState → AppState
unfolding change_first
with_contents id c s = record s {
  snapshot_builds =
      change_first (λ b. text_eq b.id id)
        (λ b. record b { profiles = c.1; build_number = c.0; home_pack = c.2; loaded = true })
        s.snapshot_builds;
}

-- `load_profiles`, once the manifest has been read
unfoldable pub profiles_loaded : Text → BuildContents → AppState → AppState
unfolding with_contents with_all_profiles
profiles_loaded id c s =
    if is_custom s.selection.mode && is_text s.selection.snapshot_build id
    then with_all_profiles (with_contents id c s)
    else with_contents id c s

-- `catalog::UbootContents` and, without the boot menu, `catalog::FalconContents`
pub record ImageContents : Type 0 where
  pub size : ℕ
  pub sha256 : Option Text
  pub mtime : Text
  pub details : BuildDetails
  pub boot_menu : Option FalconImage

abbrev newer : Text → Text → Text
newer old read = if is_empty read then old else read

unfoldable pub with_uboot_contents : ImageContents → UbootBuild → UbootBuild
with_uboot_contents c b = record b {
  size_bytes = c.size;
  sha256 = c.sha256;
  mtime = newer b.mtime c.mtime;
  details = some c.details;
  boot_menu = c.boot_menu;
  loaded = true;
}

unfoldable pub with_falcon_contents : ImageContents → FalconBuild → FalconBuild
with_falcon_contents c b = record b {
  size_bytes = c.size;
  sha256 = c.sha256;
  mtime = newer b.mtime c.mtime;
  details = some c.details;
  loaded = true;
}

unfoldable pub uboot_loaded : Text → ImageContents → AppState → AppState
unfolding change_first with_uboot_contents
uboot_loaded id c s = record s {
  uboot_builds = change_first (λ b. text_eq b.id id) (with_uboot_contents c) s.uboot_builds;
}

unfoldable pub boot_menu_loaded : Text → ImageContents → AppState → AppState
unfolding change_first with_falcon_contents
boot_menu_loaded id c s = record s {
  boot_menu_builds =
      change_first (λ b. text_eq b.id id) (with_falcon_contents c) s.boot_menu_builds;
}

unfoldable pub recovery_loaded : Text → ImageContents → AppState → AppState
unfolding change_first with_falcon_contents
recovery_loaded id c s = record s {
  recovery_builds = change_first (λ b. text_eq b.id id) (with_falcon_contents c) s.recovery_builds;
}

unfoldable pub snapshot_details_loaded : Text → BuildDetails → AppState → AppState
unfolding change_first
snapshot_details_loaded id d s = record s {
  snapshot_builds =
      change_first (λ b. text_eq b.id id) (λ b. record b { details = some d }) s.snapshot_builds;
}

-- `select_device`
unfoldable pub device_selected : Text → AppState → AppState
device_selected path s = record s {
  selection = record (s.selection) { target_device = some path };
  ufs = none;
}

-- `select_uboot`, `select_boot_menu`, `select_recovery` and `select_snapshot_build`
unfoldable pub uboot_selected : Text → AppState → AppState
uboot_selected id s = record s {
  selection = record (s.selection) { mode = custom; uboot = some id };
}

unfoldable pub boot_menu_selected : Text → AppState → AppState
boot_menu_selected id s = record s {
  selection = record (s.selection) { mode = custom; boot_menu = some id };
}

unfoldable pub recovery_selected : Text → AppState → AppState
recovery_selected id s = record s {
  selection = record (s.selection) { mode = custom; recovery = some id };
}

unfoldable pub snapshot_selected : Text → AppState → AppState
unfolding with_all_profiles
snapshot_selected id s =
    with_all_profiles
      (record s { selection = record (s.selection) { mode = custom; snapshot_build = some id } })

unfoldable pub toggle_profile : Text → Bool → AppState → AppState
unfolding eq_ignore_case
toggle_profile name on s =
    let kept = filter (λ p. not (text_eq p name)) s.selection.profiles in
    if eq_ignore_case name (codes "minimal") then s else record s {
      selection = record (s.selection) { profiles = if on then kept ++ (name ∷ []) else kept };
    }

unfoldable pub select_all_profiles : Bool → AppState → AppState
unfolding with_all_profiles
select_all_profiles on s =
    if on
    then with_all_profiles s
    else record s { selection = record (s.selection) { profiles = [] } }

abbrev is_ufs : StorageKind → Bool
is_ufs ufs = true
is_ufs _ = false

-- The test of `check_ufs_provisioning` on its snapshot
unfoldable pub is_ufs_device : Text → AppState → Bool
is_ufs_device path s = any (λ d. text_eq d.path path && is_ufs d.kind) s.devices

-- `reprovision_prompt`
unfoldable pub reprovision_prompt : Status → Prompt
unfolding is_blank
reprovision_prompt status = record {
  kind = reprovision_ufs status.target;
  title = if is_blank status then codes "Provision UFS?" else codes "Reprovision UFS?";
  confirm = codes "Confirm";
  cancel = codes "Cancel";
}

pub data Offer : Type 0 where
  offered report_only : Offer

-- `Some(reprovision_prompt(&status))` where `probe_ufs` makes an offer
abbrev pub prompt_for : Offer → Status → Option Prompt
prompt_for offered status = if is_provisioned status then none else some (reprovision_prompt status)
prompt_for report_only status = none

-- What `probe_ufs` tests: a device with logical units is still the selected one.
unfoldable pub is_current : Target → AppState → Bool
is_current t s = elim t.disk [ none ↦ true | some disk ↦ is_text s.selection.target_device disk ]

-- The update in `probe_ufs`
unfoldable pub publish : Target → Offer → Status → AppState → AppState
unfolding is_current
publish t offer status s =
    let raised = prompt_for offer status in
    if is_current t s
    then record s { ufs = some status; prompt = if is_some raised then raised else s.prompt }
    else s

-- The updates in `request_reprovision`
unfoldable pub answer_request : Status → AppState → AppState
unfolding is_provisioned reprovision_prompt
answer_request status s =
    if is_provisioned status
    then record s { ufs = some status }
    else record s { ufs = some status; prompt = some (reprovision_prompt status) }

-- `take_prompt`
unfoldable pub take_prompt : AppState → AppState × Option Prompt
take_prompt s = (record s { prompt = none }, s.prompt)
