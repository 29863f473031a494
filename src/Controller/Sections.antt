-- ===== src/Controller/Sections.antt =====
-- src/core/controller.rs: what the controller does to the shared state under its lock, one function
-- for each time that it takes the lock. What it fetches meanwhile is an argument.
use flipperos_installer.Base.{
  ℕ, ◌-◌, Bool, false, not, ◌&&◌, List, [], ◌∷◌, ◌++◌, Option, some, option_map, Text, find, any,
  take, drop, length, if◌then◌else◌, or_some, get_or_else, text_eq, Result, ok, err,
}
use flipperos_installer.Storage.{StorageDevice, boot_rom_capable}
use flipperos_installer.Board.{BoardInfo}
use flipperos_installer.Ufs.Rescan.{text_le}
use flipperos_installer.Model.{
  AppState, Phase, discovering, ready, UbootBuild, FalconBuild, SnapshotBuild, BundleRef,
  CatalogCache, Listing, no_listing, LoadState, loading, complete, change_entry,
}

-- `const MAX` in `log`
abbrev pub max_log : ℕ
max_log = 500

-- `log`, under the lock
unfoldable pub push_log : Text → AppState → AppState
push_log line s =
    let lines = s.log ++ (line ∷ []) in record s { log = drop (length lines - max_log) lines }

abbrev pub set_phase : Phase → AppState → AppState
set_phase p s = record s { phase = p }

-- `discover`
abbrev pub board_found : BoardInfo → AppState → AppState
board_found b s = record s { board = b }

abbrev pub is_default_target : StorageDevice → Bool
unfolding boot_rom_capable
is_default_target d = boot_rom_capable d.kind && not d.removable

-- The path of the first device that is a fit target and stays in the machine.
abbrev pub default_target : List StorageDevice → Option Text
default_target ds = option_map (λ d. d.path) (find is_default_target ds)

unfoldable pub devices_found : List StorageDevice → AppState → AppState
devices_found ds s = record s {
  devices = ds;
  selection = record (s.selection) {
    target_device = or_some s.selection.target_device (default_target ds);
  };
}

-- `rediscover_storage`, with the selection that it read before
unfoldable pub devices_listed : Option Text → List StorageDevice → AppState → AppState
devices_listed preferred ds s =
    if get_or_else (option_map (λ p. any (λ d. text_eq d.path p) ds) preferred) false
    then record s { devices = ds }
    else record s {
      devices = ds;
      selection = record (s.selection) { target_device = default_target ds };
    }

-- The end of `refresh_sources`
unfoldable pub sources_refreshed : AppState → AppState
sources_refreshed s = elim s.phase [ discovering ↦ record s { phase = ready } | _ ↦ s ]

-- `sort_by(|a, b| b.mtime.cmp(&a.mtime))`, which is stable, by the time stamps
module _ {A : Type 0} (mtime : A → Text) where
  unfoldable pub insert_newest : A → List A → List A
  insert_newest a [] = a ∷ []
  insert_newest a (b ∷ bs) =
      if text_le (mtime b) (mtime a) then a ∷ b ∷ bs else b ∷ insert_newest a bs

  unfoldable pub sort_newest : List A → List A
  unfolding insert_newest
  sort_newest [] = []
  sort_newest (a ∷ as') = insert_newest a (sort_newest as')

abbrev pub listing_limit : ℕ
listing_limit = 100

-- An id that is chosen already, or the first build's.
abbrev pub or_first : {A : Type 0} → (A → Text) → Option Text → List A → Option Text
or_first id chosen [] = chosen
or_first id chosen (b ∷ bs) = or_some chosen (some (id b))

-- The end of `refresh_catalog`, with all builds of all origins
unfoldable pub catalog_listed :
    List UbootBuild
    → (boot_menus recoveries : List FalconBuild) → List SnapshotBuild
    → AppState
    → AppState
unfolding sort_newest
catalog_listed uboots boot_menus recoveries snapshots s =
    let us = take listing_limit (sort_newest (λ b. b.mtime) uboots) in
    let bs = take listing_limit (sort_newest (λ b. b.mtime) boot_menus) in
    let rs = take listing_limit (sort_newest (λ b. b.mtime) recoveries) in
    let ss = take listing_limit (sort_newest (λ b. b.mtime) snapshots) in
    record s {
      uboot_builds = us;
      boot_menu_builds = bs;
      recovery_builds = rs;
      snapshot_builds = ss;
      selection = record (s.selection) {
        uboot = or_first (λ b. b.id) s.selection.uboot us;
        boot_menu = or_first (λ b. b.id) s.selection.boot_menu bs;
        recovery = or_first (λ b. b.id) s.selection.recovery rs;
        snapshot_build = or_first (λ b. b.id) s.selection.snapshot_build ss;
      };
    }

-- `refresh_catalog`, in custom mode
abbrev pub types_supported : List Text → AppState → AppState
types_supported types s = record s { supported_device_types = types }

-- `begin_listing` and the ends of the loaders, on the catalog
abbrev pub change_catalog : (CatalogCache → CatalogCache) → AppState → AppState
change_catalog f s = record s { catalog = f s.catalog }

abbrev pub with_state : {A : Type 0} → LoadState → Listing A → Listing A
with_state state l = record l { state = state }

-- The listing that a fetch leaves: its items, or the old ones with the failure, or as it was where
-- the worker panicked.
abbrev pub after_fetch : {A : Type 0} → Result Text (List A) → Listing A → Listing A
after_fetch (ok items) l = record { items = items; state = complete }
after_fetch (err e) l = with_state (LoadState.failed e) l
after_fetch Result.panicked l = l

abbrev pub channels_begun : AppState → AppState
channels_begun = change_catalog λ c. record c { channels = with_state loading c.channels }

unfoldable pub channels_loaded : Result Text (List Text) → AppState → AppState
channels_loaded r = change_catalog λ c. record c { channels = after_fetch r c.channels }

unfoldable pub builds_begun : Text → AppState → AppState
unfolding change_entry
builds_begun path =
    change_catalog
      λ c. record c { builds = change_entry path no_listing (with_state loading) c.builds }

unfoldable pub builds_loaded : Text → Result Text (List BundleRef) → AppState → AppState
unfolding change_entry
builds_loaded path r =
    change_catalog λ c. record c { builds = change_entry path no_listing (after_fetch r) c.builds }

unfoldable pub dirs_begun : Text → AppState → AppState
unfolding change_entry
dirs_begun path =
    change_catalog λ c. record c { dirs = change_entry path no_listing (with_state loading) c.dirs }

unfoldable pub dirs_loaded : Text → Result Text (List Text) → AppState → AppState
unfolding change_entry
dirs_loaded path r =
    change_catalog λ c. record c { dirs = change_entry path no_listing (after_fetch r) c.dirs }

abbrev pub local_begun : AppState → AppState
local_begun = change_catalog λ c. record c { local = with_state loading c.local }

abbrev pub local_loaded : List BundleRef → AppState → AppState
local_loaded items =
    change_catalog λ c. record c { local = record { items = items; state = complete } }
