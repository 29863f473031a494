-- ===== src/Model.antt =====
-- src/core/model.rs: the state that the front ends share, and what it says of the selection. Not
-- modelled: the progress, a float, and the texts that print sizes with floats.
mod Builds
mod Bundles
unfoldable pub use Builds.*
unfoldable pub use Bundles.*
use flipperos_installer.Base.{
  ℕ, Bool, true, false, not, ◌&&◌, ◌||◌, List, [], ◌∷◌, ◌++◌, map, Option, none, some, option_map,
  Text, codes, find, if◌then◌else◌, and_some, or_some, is_some, get_or_else, text_eq,
}
use flipperos_installer.Storage.{StorageDevice}
use flipperos_installer.Board.{BoardInfo}
use flipperos_installer.Provision.Compare.{Target, Status}

pub data InstallMode : Type 0 where
  bundle custom : InstallMode

pub data FetchMode : Type 0 where
  verify_first stream : FetchMode

-- `FetchMode::label`
abbrev pub fetch_label : FetchMode → Text
fetch_label verify_first = codes "verify first"
fetch_label stream = codes "stream"

pub record Selection : Type 0 where
  pub target_device : Option Text
  pub uboot : Option Text
  pub boot_menu : Option Text
  pub recovery : Option Text
  pub snapshot_build : Option Text
  pub profiles : List Text
  pub mode : InstallMode
  pub bundle : Option Text
  pub fetch : FetchMode

pub data Phase : Type 0 where
  discovering ready provisioning installing done : Phase
  failed : Text → Phase

-- `Phase::label`
unfoldable pub phase_label : Phase → Text
phase_label discovering = codes "discovering…"
phase_label ready = codes "ready"
phase_label provisioning = codes "provisioning…"
phase_label installing = codes "installing…"
phase_label done = codes "done"
phase_label (failed e) = codes "failed: " ++ e

unfoldable pub is_busy : Phase → Bool
is_busy discovering = true
is_busy ready = false
is_busy provisioning = true
is_busy installing = true
is_busy done = false
is_busy (failed e) = false

pub data PromptKind : Type 0 where
  reprovision_ufs : Target → PromptKind

-- The body of the prompt is prose, and is left out.
pub record Prompt : Type 0 where
  pub kind : PromptKind
  pub title : Text
  pub confirm : Text
  pub cancel : Text

pub record AppState : Type 0 where
  pub board : BoardInfo
  pub devices : List StorageDevice
  pub uboot_builds : List UbootBuild
  pub boot_menu_builds : List FalconBuild
  pub recovery_builds : List FalconBuild
  pub snapshot_builds : List SnapshotBuild
  pub selection : Selection
  pub phase : Phase
  pub log : List Text
  pub supported_device_types : List Text
  pub catalog : CatalogCache
  pub bundle : Option SelectedBundle
  pub bundle_error : Option Text
  pub dry_run : Bool
  pub ufs : Option Status
  pub prompt : Option Prompt

unfoldable pub target : AppState → Option StorageDevice
target s = and_some s.selection.target_device λ path. find (λ d. text_eq d.path path) s.devices

-- `match self.selection.mode`, with both answers
abbrev pub by_mode {ℓ} : {A : Type ℓ} → InstallMode → A → A → A
by_mode bundle a b = a
by_mode custom a b = b

unfoldable pub selected_uboot : AppState → Option UbootBuild
selected_uboot s =
    by_mode s.selection.mode (option_map (λ b. b.uboot) s.bundle)
      (and_some s.selection.uboot λ id. find (λ b. text_eq b.id id) s.uboot_builds)

unfoldable pub selected_boot_menu_build : AppState → Option FalconBuild
selected_boot_menu_build s =
    by_mode s.selection.mode none
      (and_some s.selection.boot_menu λ id. find (λ b. text_eq b.id id) s.boot_menu_builds)

unfoldable pub selected_boot_menu : AppState → Option FalconImage
unfolding selected_boot_menu_build selected_uboot image
selected_boot_menu s = by_mode s.selection.mode (and_some s.bundle λ b. b.boot_menu) (
    if is_some s.selection.boot_menu
    then and_some (selected_boot_menu_build s) image
    else and_some (selected_uboot s) λ b. b.boot_menu)

unfoldable pub selected_recovery_build : AppState → Option FalconBuild
selected_recovery_build s =
    by_mode s.selection.mode none
      (and_some s.selection.recovery λ id. find (λ b. text_eq b.id id) s.recovery_builds)

unfoldable pub selected_recovery : AppState → Option FalconImage
unfolding selected_recovery_build image
selected_recovery s =
    by_mode s.selection.mode (and_some s.bundle λ b. b.recovery)
      (and_some (selected_recovery_build s) image)

unfoldable pub selected_build : AppState → Option SnapshotBuild
selected_build s =
    by_mode s.selection.mode (option_map (λ b. b.build) s.bundle)
      (and_some s.selection.snapshot_build λ id. find (λ b. text_eq b.id id) s.snapshot_builds)

abbrev pub names_of : List ProfilePack → List Text
names_of = map (λ p. p.name)

-- `AppState::select_all_profiles`
unfoldable pub with_all_profiles : AppState → AppState
unfolding selected_build extra_profiles
with_all_profiles s = record s {
  selection = record (s.selection) {
    profiles = get_or_else (option_map (λ b. names_of (extra_profiles b)) (selected_build s)) [];
  };
}

unfoldable pub can_install : AppState → Bool
unfolding is_busy selected_uboot selected_build minimal
can_install s =
    not (is_busy s.phase)
    && (is_some s.selection.target_device
        && (is_some (selected_uboot s) && is_some (and_some (selected_build s) minimal)))

abbrev pub is_done : Phase → Bool
is_done done = true
is_done _ = false

unfoldable pub can_reboot : AppState → Bool
can_reboot s = is_done s.phase && not s.dry_run

abbrev is_installing : Phase → Bool
is_installing installing = true
is_installing _ = false

unfoldable pub install_status_label : AppState → Text
unfolding can_install
install_status_label s =
    if is_installing s.phase
    then codes "in progress"
    else if can_install s
    then codes "ready"
    else codes "incomplete"

-- The levels of the catalog that hold bundles
unfoldable pub listing_items : Entries (Listing BundleRef) → List BundleRef
listing_items [] = []
listing_items ((k, l) ∷ m) = l.items ++ listing_items m

abbrev pub listed_bundles : CatalogCache → List BundleRef
unfolding listing_items
listed_bundles c = listing_items c.builds ++ c.local.items

unfoldable pub bundle_ref_by_id : AppState → Text → Option BundleRef
bundle_ref_by_id s id = find (λ b. text_eq b.id id) (listed_bundles s.catalog)

unfoldable pub selected_bundle_ref : AppState → Option BundleRef
unfolding bundle_ref_by_id
selected_bundle_ref s = and_some s.selection.bundle (bundle_ref_by_id s)

unfoldable pub source_label : AppState → Text
unfolding bundle_label selected_bundle_ref
source_label s =
    by_mode s.selection.mode
      (get_or_else (option_map bundle_label s.bundle) (
        if is_some s.bundle_error
        then codes "unavailable"
        else get_or_else (option_map (λ r. r.dir ++ codes "…") (selected_bundle_ref s))
            (codes "(select)")))
      (codes "custom")
