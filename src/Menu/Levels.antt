-- ===== src/Menu/Levels.antt =====
-- src/core/menu.rs: the levels of the menu, each built from the shared state.
use flipperos_installer.Base.{
  ℕ, Bool, true, false, not, ◌&&◌, ◌||◌, List, [], ◌∷◌, ◌++◌, map, find, length, Option, none, some,
  option_map, Text, codes, if◌then◌else◌, and_some, or_some, is_some, get_or_else, text_eq, is_text,
  starts_with, decimal, ◌==◌,
}
use flipperos_installer.Model.{
  AppState, Phase, installing, InstallMode, bundle, custom, fetch_label, BundleRef, Listing,
  LoadState, idle, is_pending, entry, target, selected_build, selected_bundle_ref, source_label,
  install_status_label, can_install, resolved_build_number, uboot_display_name, falcon_display_name,
  snapshot_display_name,
}
use flipperos_installer.Menu.Nav.{
  MenuKey, root, source, local, uboot, boot_menu, recovery, snapshot, device, profiles, fetch,
  builds, dirs,
}
use flipperos_installer.Menu.Items.{
  Printing, open_level, pick_bundle, install, LoadRequest, load_channels, load_local, load_builds,
  load_dirs, of_bundle, network, sd_card, icon_of, menu, single_pick, MenuItem, plain, inert_item,
  Level, level_of, placeholder, ordered_channels, dev_channel, is_dev_leaf, channel_label, crumb,
  crumb_title,
}

-- A level at a path of the menu.
abbrev pub at_crumb : Text → Level → Level
at_crumb c l = record l { crumb = c }

abbrev pub refreshable : Level → Level
refreshable l = record l { can_refresh = true }

abbrev loads : LoadRequest → Level → Level
loads r l = record l { load = some r }

-- A row instead of none, and whether the level is still being fetched
unfoldable pub fill : List MenuItem → Bool → MenuItem → Level → Level
fill [] pending row l = record l { items = row ∷ []; loading = pending }
fill (i ∷ is) pending row l = l

unfoldable pub filled : Bool → MenuItem → Level → Level
unfolding fill
filled pending row l = fill l.items pending row l

-- As where the contents are there already
unfoldable pub found_none : Text → Level → Level
found_none text l = filled l.loading (inert_item text) l

abbrev pub items_of : {A : Type 0} → Option (Listing A) → List A
items_of none = []
items_of (some l) = l.items

abbrev pub is_chosen : Option Text → Text → Bool
is_chosen chosen id = is_text chosen id

module _ (print : Printing) where
  abbrev is_installing : Phase → Bool
  is_installing installing = true
  is_installing _ = false

  abbrev profiles_value : List Text → Text
  profiles_value [] = codes "Minimal"
  profiles_value (n ∷ ns) = codes "Minimal +" ++ decimal (length (n ∷ ns))

  unfoldable pub root_level : AppState → Level
  unfolding target source_label install_status_label selected_build can_install level_of
  root_level s =
      let device_value =
        option_map (λ d. d.path ++ (codes " " ++ print.size d.size_bytes)) (target s) in
      refreshable (
        level_of root (codes "FlipperOS Installation") menu (
          record (plain (codes "Source") (open_level source)) {
            detail = source_label s;
            dim = not (is_some (selected_build s));
          }
          ∷ record (plain (codes "Device") (open_level device)) {
            detail = get_or_else device_value (codes "(select)");
            dim = not (is_some device_value);
          }
          ∷ record (plain (codes "Profiles") (open_level profiles)) {
            detail = profiles_value s.selection.profiles;
          }
          ∷ record (plain (codes "Fetch") (open_level fetch)) {
            detail = fetch_label s.selection.fetch;
          }
          ∷ record (plain (codes "Install") install) {
            detail = install_status_label s;
            dim = not (can_install s) && not (is_installing s.phase);
          }
          ∷ []))

  abbrev selected_channel : AppState → Option Text
  unfolding selected_bundle_ref
  selected_channel s =
      or_some (option_map (λ b. b.reference.channel) s.bundle)
        (option_map (λ r. r.channel) (selected_bundle_ref s))

  abbrev lies_under : Text → Option Text → Bool
  lies_under name none = false
  lies_under name (some sel) = text_eq sel name || starts_with (name ++ codes "/") sel

  unfoldable pub channel_item : AppState → Text → MenuItem
  unfolding channel_label selected_channel
  channel_item s name =
      record (plain (channel_label print name)
        (open_level (if text_eq name dev_channel then dirs name else builds name))) {
          selected = lies_under name (selected_channel s);
          icon = network;
        }

  abbrev count_text : ℕ → Text
  count_text n = if n == 0 then [] else decimal n

  abbrev is_custom : InstallMode → Bool
  is_custom custom = true
  is_custom bundle = false

  abbrev is_local_channel : BundleRef → Bool
  is_local_channel r =
      starts_with (codes "local") r.channel || starts_with (codes "media ") r.channel

  unfoldable pub other_sources : AppState → List MenuItem
  unfolding selected_bundle_ref
  other_sources s =
      record (plain (codes "Local bundle") (open_level local)) {
        selected = get_or_else (option_map is_local_channel (selected_bundle_ref s)) false;
        icon = sd_card;
        detail = count_text (length s.catalog.local.items);
      }
      ∷ record (plain (codes "Custom development build") (open_level MenuKey.custom)) {
        selected = is_custom s.selection.mode;
      }
      ∷ []

  -- The rows of the level are replaced where no channels are known, its cursor's row is not.
  unfoldable pub without_channels : AppState → List Text → Level → Level
  unfolding other_sources placeholder is_pending
  without_channels s [] l = record l {
    loading = is_pending s.catalog.channels;
    items = placeholder s.catalog.channels.state (codes "channels") ∷ other_sources s;
  }
  without_channels s (name ∷ names) l = l

  unfoldable pub source_level : AppState → Level
  unfolding channel_item other_sources ordered_channels without_channels level_of
  source_level s =
      let l = refreshable (
        loads load_channels (
          level_of source (codes "Source") menu (
            map (channel_item s) (ordered_channels s.catalog.channels.items)
            ++ other_sources s))) in
      without_channels s s.catalog.channels.items l

  abbrev number_text : Option ℕ → Text
  number_text none = []
  number_text (some n) = codes "#" ++ decimal n

  unfoldable pub bundle_item : AppState → BundleRef → MenuItem
  unfolding resolved_build_number
  bundle_item s r =
      let item = record (plain r.dir (pick_bundle r.id)) {
        icon = icon_of r.source;
        selected = is_chosen s.selection.bundle r.id;
      } in
      if is_chosen s.selection.bundle r.id && is_some s.bundle
      then record item {
        details = some (of_bundle r.id);
        detail = number_text (and_some s.bundle λ b. resolved_build_number b.build);
      }
      else if is_some r.archive
      then record item { detail = codes "archive" }
      else item

  abbrev state_of : {A : Type 0} → Option (Listing A) → LoadState
  state_of none = idle
  state_of (some l) = l.state

  abbrev pending_of : {A : Type 0} → Option (Listing A) → Bool
  unfolding is_pending
  pending_of none = true
  pending_of (some l) = is_pending l

  unfoldable pub builds_level : AppState → Text → Level
  unfolding entry bundle_item placeholder crumb crumb_title pending_of level_of
  builds_level s path =
      let listing = entry path s.catalog.builds in
      filled (pending_of listing) (placeholder (state_of listing) (codes "builds")) (
        at_crumb (codes "Source › " ++ crumb print path) (
          refreshable (
            loads (load_builds path) (
              level_of (builds path) (crumb_title print path) single_pick
                (map (bundle_item s) (items_of listing))))))

  unfoldable pub dir_item : Text → Text → MenuItem
  unfolding is_dev_leaf
  dir_item path name =
      let child = path ++ (codes "/" ++ name) in
      plain name (open_level (if is_dev_leaf child then builds child else dirs child))

  unfoldable pub dirs_level : AppState → Text → Level
  unfolding entry dir_item placeholder crumb crumb_title pending_of level_of
  dirs_level s path =
      let listing = entry path s.catalog.dirs in
      filled (pending_of listing) (placeholder (state_of listing) (codes "entries")) (
        at_crumb (codes "Source › " ++ crumb print path) (
          refreshable (
            loads (load_dirs path) (
              level_of (dirs path) (crumb_title print path) menu
                (map (dir_item path) (items_of listing))))))

  unfoldable pub local_level : AppState → Level
  unfolding bundle_item placeholder is_pending level_of
  local_level s =
      filled (is_pending s.catalog.local)
        (placeholder s.catalog.local.state (codes "local bundles"))
        (at_crumb (codes "Source › Local bundle") (
          refreshable (
            loads load_local (
              level_of local (codes "Local bundle") single_pick
                (map (bundle_item s) s.catalog.local.items)))))

  -- The name of the build with the chosen id
  abbrev chosen_name : {B : Type 0} → (id name : B → Text) → Option Text → List B → Text
  chosen_name id name chosen bs =
      get_or_else (option_map name (find (λ b. is_text chosen (id b)) bs)) (codes "(select)")

  unfoldable pub custom_level : AppState → Level
  unfolding uboot_display_name falcon_display_name snapshot_display_name level_of
  custom_level s = at_crumb (codes "Source › Custom development build") (
      level_of MenuKey.custom (codes "Custom development build") menu (
        record (plain (codes "U-Boot build") (open_level uboot)) {
          detail = chosen_name (λ b. b.id) uboot_display_name s.selection.uboot s.uboot_builds;
        }
        ∷ record (plain (codes "Boot menu build") (open_level boot_menu)) {
          detail =
              chosen_name (λ b. b.id) falcon_display_name s.selection.boot_menu s.boot_menu_builds;
        }
        ∷ record (plain (codes "Recovery build") (open_level recovery)) {
          detail =
              chosen_name (λ b. b.id) falcon_display_name s.selection.recovery s.recovery_builds;
        }
        ∷ record (plain (codes "Snapshot build") (open_level snapshot)) {
          detail =
              chosen_name (λ b. b.id) snapshot_display_name s.selection.snapshot_build
                s.snapshot_builds;
        }
        ∷ []))
