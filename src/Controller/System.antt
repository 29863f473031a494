-- ===== src/Controller/System.antt =====
-- src/core/controller.rs: all threads over the one state, in any order of their turns, with the calls
-- that the front ends and the start-up thread make.
pub mod Consent
pub mod Exclusive
pub mod Early
pub mod Profiles
use flipperos_installer.Base.{
  ℕ, ◌≡◌, Bool, true, false, ◌&&◌, List, [], ◌∷◌, ◌++◌, Option, none, some, Text, if◌then◌else◌,
  Result, is_some,
}
use flipperos_installer.Storage.{StorageDevice}
use flipperos_installer.Board.{BoardInfo}
use flipperos_installer.Provision.Compare.{Target}
use flipperos_installer.Model.{
  AppState, Selection, discovering, bundle, custom, InstallMode, FetchMode, UbootBuild, FalconBuild,
  SnapshotBuild, BuildDetails, BundleRef, SelectedBundle, CatalogCache, no_listing,
}
use flipperos_installer.Controller.{
  Settings, Job, resolving, probing, asking, Event, Turn, confirm_prompt, dismiss_prompt,
  start_install, confirms,
}
use flipperos_installer.Controller.Sections.{
  push_log, set_phase, board_found, devices_found, sources_refreshed, catalog_listed,
  types_supported, channels_begun, channels_loaded, builds_begun, builds_loaded, dirs_begun,
  dirs_loaded, local_begun, local_loaded,
}
use flipperos_installer.Controller.Choices.{
  offered, report_only, ImageContents, BuildContents, bundle_selected, bundle_loaded,
  fetch_mode_set, profiles_loaded, uboot_loaded, boot_menu_loaded, recovery_loaded,
  snapshot_details_loaded, device_selected, uboot_selected, boot_menu_selected, recovery_selected,
  snapshot_selected, toggle_profile, select_all_profiles,
}

-- A turn of a loader, of the discovery, or of a choice that starts no work on a device.
pub data Update : Type 0 where
  log_line : Text → Update
  -- `discover` sets the phase before all else, whatever it is.
  discovery_begun : Update
  board : BoardInfo → Update
  devices : List StorageDevice → Update
  refreshed : Update
  catalog :
      List UbootBuild → (boot_menus recoveries : List FalconBuild) → List SnapshotBuild → Update
  types : List Text → Update
  channels_open local_open : Update
  channels : Result Text (List Text) → Update
  builds_open dirs_open : Text → Update
  builds : Text → Result Text (List BundleRef) → Update
  dirs : Text → Result Text (List Text) → Update
  local_bundles : List BundleRef → Update
  bundle_choice uboot_choice boot_menu_choice recovery_choice snapshot_choice : Text → Update
  fetch_choice : FetchMode → Update
  bundle_answer : Result Text SelectedBundle → Update
  profiles_answer : Text → BuildContents → Update
  uboot_answer boot_menu_answer recovery_answer : Text → ImageContents → Update
  details_answer : Text → BuildDetails → Update
  profile_choice : Text → Bool → Update
  all_profiles_choice : Bool → Update

unfoldable pub update : Update → AppState → AppState
update (log_line t) = push_log t
update discovery_begun = set_phase discovering
update (board b) = board_found b
update (devices ds) = devices_found ds
update refreshed = sources_refreshed
update (catalog us bs rs ss) = catalog_listed us bs rs ss
update (types ts) = types_supported ts
update channels_open = channels_begun
update local_open = local_begun
update (channels r) = channels_loaded r
update (builds_open path) = builds_begun path
update (dirs_open path) = dirs_begun path
update (builds path r) = builds_loaded path r
update (dirs path r) = dirs_loaded path r
update (local_bundles rs) = local_loaded rs
update (bundle_choice id) = bundle_selected id
update (uboot_choice id) = uboot_selected id
update (boot_menu_choice id) = boot_menu_selected id
update (recovery_choice id) = recovery_selected id
update (snapshot_choice id) = snapshot_selected id
update (fetch_choice mode) = fetch_mode_set mode
update (bundle_answer r) = bundle_loaded r
update (profiles_answer id c) = profiles_loaded id c
update (uboot_answer id c) = uboot_loaded id c
update (boot_menu_answer id c) = boot_menu_loaded id c
update (recovery_answer id c) = recovery_loaded id c
update (details_answer id d) = snapshot_details_loaded id d
update (profile_choice name on) = toggle_profile name on
update (all_profiles_choice on) = select_all_profiles on

pub data Call : Type 0 where
  updates : Update → Call
  -- `select_device`
  device_choice : Text → Call
  -- the end of `discover`, and a blank device that it finds
  default_check : Call
  blank_device : Target → Call
  prompt_confirmed prompt_dismissed : Call
  reprovision_request : Target → Call
  install_request : Call

abbrev checks : Settings → List Job → List Job
checks cfg js = if cfg.ufs_check then js else []

abbrev pub default_checks : Option Text → List Job
default_checks none = []
default_checks (some path) = resolving path report_only ∷ []

-- The state after a call's turn, the threads that it leaves to run, and its events.
unfoldable pub call : Settings → Call → AppState → AppState × List Job × List Event
call cfg (updates u) s = (update u s, [], [])
call cfg (device_choice path) s =
    (device_selected path s, checks cfg (resolving path offered ∷ []), [])
call cfg default_check s = (s, checks cfg (default_checks s.selection.target_device), [])
call cfg (blank_device t) s = (s, checks cfg (probing t offered false ∷ []), [])
call cfg prompt_confirmed s = ((confirm_prompt s).0, (confirm_prompt s).1, confirms s.prompt)
call cfg prompt_dismissed s = (dismiss_prompt s, [], [])
call cfg (reprovision_request t) s = (s, asking t ∷ [], [])
call cfg install_request s = (s, start_install s, [])

-- The latest event comes first.
pub record System : Type 0 where
  pub state : AppState
  pub jobs : List Job
  pub trace : List Event

pub data Step (cfg : Settings) (x : System) : System → Type 0 where
  turn :
      (before : List Job) {j : Job} (after : List Job) {s : AppState} {js : List Job}
      {es : List Event}
      → x.jobs ≡ before ++ (j ∷ after)
      → Turn cfg x.state j s js es
      → Step cfg x (record { state = s; jobs = before ++ (js ++ after); trace = es ++ x.trace })
  called :
      (c : Call)
      → Step cfg x (record {
        state = (call cfg c x.state).0;
        jobs = (call cfg c x.state).1 ++ x.jobs;
        trace = (call cfg c x.state).2 ++ x.trace;
      })

-- `Controller::new`, with the settings that it copies into the state.
abbrev pub new_state : InstallMode → FetchMode → Bool → AppState
new_state mode fetch dry_run = record {
  board = record { compatible = []; model = []; soc = []; board_id = [] };
  devices = [];
  uboot_builds = [];
  boot_menu_builds = [];
  recovery_builds = [];
  snapshot_builds = [];
  selection = record {
    target_device = none;
    uboot = none;
    boot_menu = none;
    recovery = none;
    snapshot_build = none;
    profiles = [];
    mode = mode;
    bundle = none;
    fetch = fetch;
  };
  phase = discovering;
  log = [];
  supported_device_types = [];
  catalog = record { channels = no_listing; builds = []; dirs = []; local = no_listing };
  bundle = none;
  bundle_error = none;
  dry_run = dry_run;
  ufs = none;
  prompt = none;
}

abbrev pub start : InstallMode → FetchMode → Bool → System
start mode fetch dry_run = record { state = new_state mode fetch dry_run; jobs = []; trace = [] }

pub data Reach (cfg : Settings) : System → Type 0 where
  here :
      (mode : InstallMode) (fetch : FetchMode) (dry_run : Bool)
      → Reach cfg (start mode fetch dry_run)
  later : {x y : System} → Reach cfg x → Step cfg x y → Reach cfg y
