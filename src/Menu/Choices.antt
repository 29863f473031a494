-- ===== src/Menu/Choices.antt =====
-- src/core/menu.rs: the levels on which a build, a device, profiles or a fetch mode are chosen, and
-- the level at a position.
use flipperos_installer.Base.{
  Bool, true, false, not, ◌&&◌, ◌||◌, List, [], ◌∷◌, ◌++◌, map, filter, any, Option, none, some,
  option_map, Text, codes, if◌then◌else◌, and_some, or_some, is_some, get_or_else, text_eq, is_text,
  is_empty, decimal,
}
use flipperos_installer.Storage.{
  StorageDevice, StorageKind, ufs, emmc, sd_card, usb, other, boot_rom_capable,
}
use flipperos_installer.Provision.Compare.{Status, Target, is_blank, is_provisioned, short_label}
use flipperos_installer.Ufs.Rescan.{components}
use flipperos_installer.Model.{
  AppState, FetchMode, verify_first, stream, ProfilePack, selected_build, minimal, extra_profiles,
  human_time, uboot_display_name, falcon_display_name, snapshot_display_name, Source,
}
use flipperos_installer.Menu.Nav.{
  MenuKey, root, source, local, uboot, boot_menu, recovery, snapshot, device, profiles, fetch,
  builds, dirs,
}
use flipperos_installer.Menu.Items.{
  Printing, Action, pick_device, pick_uboot, pick_boot_menu, pick_recovery, pick_snapshot,
  pick_fetch, toggle_one, toggle_all, inert, reprovision, LoadRequest, load_uboot, load_boot_menu,
  load_recovery, load_snapshot, DetailsTarget, of_uboot, of_boot_menu, of_recovery, of_snapshot,
  of_ufs, Marker, checked, unchecked, icon_of, single_pick, multi_pick, MenuItem, plain, inert_item,
  Level, level_of,
}
use flipperos_installer.Menu.Levels.{
  at_crumb, refreshable, found_none, is_chosen, root_level, source_level, builds_level, dirs_level,
  local_level, custom_level,
}

-- A row for a build: its name, its time and source, and what is read and shown of it
unfoldable pub build_item :
    Text
    → Action
    → (mtime : Text) → Source
    → (chosen : Bool) → LoadRequest
    → DetailsTarget
    → MenuItem
build_item name action mtime src chosen request target = record (plain name action) {
  detail = human_time mtime;
  icon = icon_of src;
  selected = chosen;
  on_focus = some request;
  details = some target;
}

unfoldable pub builds_of : MenuKey → (title where_it_is : Text) → List MenuItem → Level
builds_of key title where_it_is items =
    found_none (codes "(none found)")
      (refreshable (at_crumb where_it_is (level_of key title single_pick items)))

unfoldable pub uboot_level : AppState → Level
unfolding uboot_display_name
uboot_level s = builds_of uboot (codes "U-Boot build") (codes "Source › Custom › U-Boot build") (
    map
      (λ b.
        build_item (uboot_display_name b) (pick_uboot b.id) b.mtime b.source
          (is_chosen s.selection.uboot b.id) (load_uboot b.id) (of_uboot b.id))
      s.uboot_builds)

unfoldable pub boot_menu_level : AppState → Level
unfolding falcon_display_name
boot_menu_level s =
    builds_of boot_menu (codes "Boot menu build") (codes "Source › Custom › Boot menu build") (
      map
        (λ b.
          build_item (falcon_display_name b) (pick_boot_menu b.id) b.mtime b.source
            (is_chosen s.selection.boot_menu b.id) (load_boot_menu b.id) (of_boot_menu b.id))
        s.boot_menu_builds)

unfoldable pub recovery_level : AppState → Level
unfolding falcon_display_name
recovery_level s =
    builds_of recovery (codes "Recovery build") (codes "Source › Custom › Recovery build") (
      map
        (λ b.
          build_item (falcon_display_name b) (pick_recovery b.id) b.mtime b.source
            (is_chosen s.selection.recovery b.id) (load_recovery b.id) (of_recovery b.id))
        s.recovery_builds)

unfoldable pub snapshot_level : AppState → Level
unfolding snapshot_display_name
snapshot_level s =
    builds_of snapshot (codes "Snapshot build") (codes "Source › Custom › Snapshot build") (
      map
        (λ b.
          build_item (snapshot_display_name b) (pick_snapshot b.id) b.mtime b.source
            (is_chosen s.selection.snapshot_build b.id) (load_snapshot b.id) (of_snapshot b.id))
        s.snapshot_builds)

-- `StorageKind::as_str`
abbrev pub kind_name : StorageKind → Text
kind_name ufs = codes "UFS"
kind_name emmc = codes "eMMC"
kind_name sd_card = codes "SD"
kind_name usb = codes "USB"
kind_name other = codes "other"

abbrev last_part : List Text → Option Text
last_part [] = none
last_part (t ∷ []) = some t
last_part (t ∷ u ∷ us) = last_part (u ∷ us)

-- `Path::file_name`
abbrev path_name : Text → Option Text
unfolding components
path_name path =
    and_some
      (last_part
        (filter (λ t. not (is_empty t) && not (text_eq t (codes "."))) (components [] path)))
      λ t. if text_eq t (codes "..") then none else some t

-- `provision::Target::label`
unfoldable pub target_label : Target → Text
unfolding path_name decimal
target_label t =
    let endpoint = get_or_else (path_name t.bsg) (codes "host" ++ decimal t.host) in
    get_or_else t.disk
      (if is_empty t.name then endpoint else t.name ++ (codes " (" ++ (endpoint ++ codes ")")))

abbrev is_none : {A : Type 0} → Option A → Bool
is_none o = not (is_some o)

abbrev option_eq : Option Text → Option Text → Bool
option_eq none none = true
option_eq none (some t) = false
option_eq (some t) o = is_text o t

-- The status that `device` shows: a blank device's, or the selected one's
unfoldable pub shown_status : AppState → Option Status
shown_status s = and_some s.ufs λ status.
    if is_none status.target.disk || option_eq status.target.disk s.selection.target_device
    then some status
    else none

module _ (print : Printing) where
  unfoldable pub device_item : AppState → StorageDevice → MenuItem
  unfolding boot_rom_capable shown_status
  device_item s d =
      let mark = if boot_rom_capable d.kind then [] else codes "! " in
      let suffix = if is_empty d.model then codes "]" else codes "] " ++ d.model in
      let chosen = is_chosen s.selection.target_device d.path in
      record (plain (mark ++ (d.path ++ (codes " [" ++ (kind_name d.kind ++ suffix))))
        (pick_device d.path)) {
          detail = print.size d.size_bytes;
          selected = chosen;
          dim = not (boot_rom_capable d.kind);
          details = if is_some (shown_status s) && chosen then some (of_ufs d.path) else none;
        }

  -- The row that offers to provision a device
  unfoldable pub status_items : Option Status → List MenuItem
  unfolding is_blank is_provisioned short_label target_label
  status_items none = []
  status_items (some status) =
      record (plain
        (if is_blank status
          then codes "Provision UFS… " ++ status.target.name
          else codes "Reprovision UFS…")
        (reprovision status.target)) {
          detail = short_label status;
          dim = is_provisioned status;
          details = some (of_ufs (target_label status.target));
        }
      ∷ []

  unfoldable pub device_level : AppState → Level
  unfolding device_item status_items shown_status
  device_level s = found_none (codes "(no targets found)") (
      level_of device (codes "Target device") single_pick
        (map (device_item s) s.devices ++ status_items (shown_status s)))

  -- `pack_size`
  unfoldable pub pack_size : ProfilePack → Text
  pack_size p =
      get_or_else (option_map (λ k. print.size k.size_bytes) (or_some p.incremental p.full))
        (codes "?")

  abbrev pub marked : Bool → Marker
  marked on = if on then checked else unchecked

  abbrev pub is_on : AppState → ProfilePack → Bool
  is_on s p = any (λ n. text_eq n p.name) s.selection.profiles

  unfoldable pub all_on : AppState → List ProfilePack → Bool
  all_on s [] = true
  all_on s (p ∷ ps) = is_on s p && all_on s ps

  unfoldable pub minimal_items : Option ProfilePack → List MenuItem
  unfolding pack_size
  minimal_items none = []
  minimal_items (some m) =
      record (plain (m.name ++ codes " (always)") inert) {
        marker = checked;
        detail = pack_size m;
        dim = true;
      }
      ∷ []

  unfoldable pub extra_item : AppState → ProfilePack → MenuItem
  unfolding pack_size
  extra_item s p = record (plain p.name (toggle_one p.name (not (is_on s p)))) {
    marker = marked (is_on s p);
    detail = pack_size p;
  }

  unfoldable pub extra_items : AppState → List ProfilePack → List MenuItem
  unfolding extra_item all_on
  extra_items s [] = []
  extra_items s (p ∷ ps) =
      let on = all_on s (p ∷ ps) in
      record (plain (codes "(all extra profiles)") (toggle_all (not on))) { marker = marked on }
      ∷ map (extra_item s) (p ∷ ps)

  unfoldable pub profile_items : AppState → List MenuItem
  unfolding selected_build minimal extra_profiles minimal_items extra_items
  profile_items s = elim (selected_build s) [
    | none ↦ inert_item (codes "(no build selected)") ∷ []
    | some build ↦
        if build.loaded
        then minimal_items (minimal build) ++ extra_items s (extra_profiles build)
        else inert_item (codes "(loading…)") ∷ []
  ]

  unfoldable pub profiles_level : AppState → Level
  unfolding profile_items level_of
  profiles_level s = level_of profiles (codes "Profiles") multi_pick (profile_items s)

  abbrev is_verify_first : FetchMode → Bool
  is_verify_first verify_first = true
  is_verify_first stream = false

  unfoldable pub fetch_level : AppState → Level
  unfolding level_of
  fetch_level s = level_of fetch (codes "Fetch mode") single_pick (
      record (plain (codes "Download & verify") (pick_fetch verify_first)) {
        detail = codes "check before writing";
        selected = is_verify_first s.selection.fetch;
      }
      ∷ record (plain (codes "Stream") (pick_fetch stream)) {
        detail = codes "check while writing";
        selected = not (is_verify_first s.selection.fetch);
      }
      ∷ [])

  -- `build`
  unfoldable pub build_level : MenuKey → AppState → Level
  unfolding root_level source_level builds_level dirs_level local_level custom_level uboot_level
      boot_menu_level recovery_level snapshot_level device_level profiles_level fetch_level
  build_level root s = root_level print s
  build_level source s = source_level print s
  build_level (builds path) s = builds_level print s path
  build_level (dirs path) s = dirs_level print s path
  build_level local s = local_level print s
  build_level MenuKey.custom s = custom_level print s
  build_level uboot s = uboot_level s
  build_level boot_menu s = boot_menu_level s
  build_level recovery s = recovery_level s
  build_level snapshot s = snapshot_level s
  build_level device s = device_level s
  build_level profiles s = profiles_level s
  build_level fetch s = fetch_level s
