-- ===== src/Menu/Cursor/Marked.antt =====
-- The rows that are marked are those of what is selected.
use flipperos_installer.Base.{
  ◌≡◌, ◌↔◌, refl, sym, ap, subst, ◌∙◌, Bool, true, false, List, [], ◌∷◌, ◌++◌, All, All-append, map,
  Option, none, some, Text, codes, if◌then◌else◌, arith, is_text, text_eq_refl, text_eq_sound,
}
use flipperos_installer.Provision.Compare.{Status}
use flipperos_installer.Model.{
  AppState, BundleRef, FetchMode, verify_first, stream, ProfilePack, SnapshotBuild, selected_build,
  minimal, extra_profiles,
}
use flipperos_installer.Menu.Nav.{
  MenuKey, root, source, local, uboot, boot_menu, recovery, snapshot, device, profiles, fetch,
  builds, dirs,
}
use flipperos_installer.Menu.Items.{
  Printing, MenuItem, Level, level_of, ordered_channels, placeholder, inert_item, Action,
  pick_device, pick_uboot, pick_boot_menu, pick_recovery, pick_snapshot, pick_bundle, pick_fetch,
  inert,
}
use flipperos_installer.Menu.Levels.{
  fill, filled, without_channels, found_none, root_level, source_level, builds_level, dirs_level,
  local_level, custom_level, channel_item, other_sources, bundle_item, dir_item, is_chosen,
}
use flipperos_installer.Menu.Choices.{
  build_level, builds_of, build_item, uboot_level, boot_menu_level, recovery_level, snapshot_level,
  device_level, profiles_level, fetch_level, device_item, status_items, shown_status, profile_items,
  minimal_items, extra_items, extra_item,
}
use flipperos_installer.Menu.Valid.{bundle_item-action}
use flipperos_installer.Menu.Valid.Rows.{each_row, placeholder-action}

-- A row that picks a thing is marked exactly where that thing is selected.
abbrev pub Marks : AppState → Action → Bool → Type 0
Marks s (pick_device path) b = (b ≡ true) ↔ (s.selection.target_device ≡ some path)
Marks s (pick_uboot id) b = (b ≡ true) ↔ (s.selection.uboot ≡ some id)
Marks s (pick_boot_menu id) b = (b ≡ true) ↔ (s.selection.boot_menu ≡ some id)
Marks s (pick_recovery id) b = (b ≡ true) ↔ (s.selection.recovery ≡ some id)
Marks s (pick_snapshot id) b = (b ≡ true) ↔ (s.selection.snapshot_build ≡ some id)
Marks s (pick_bundle id) b = (b ≡ true) ↔ (s.selection.bundle ≡ some id)
Marks s (pick_fetch mode) b = (b ≡ true) ↔ (s.selection.fetch ≡ mode)
Marks s _ b = Unit {0}

abbrev pub IsMarked : AppState → MenuItem → Type 0
IsMarked s i = Marks s i.action i.selected

-- A record, for the level to be read off it
pub record AllMarked (s : AppState) (l : Level) : Type 0 where
  pub all : All (IsMarked s) l.items

is_chosen_iff : (o : Option Text) (t : Text) → (is_chosen o t ≡ true) ↔ (o ≡ some t)
is_chosen_iff none t = ((λ e. cc), (λ e. cc))
is_chosen_iff (some u) t =
    ((λ e. ap (λ x. some x) (text_eq_sound u t e)), (λ e. ap (λ o. is_text o t) e ∙ text_eq_refl t))

bundle_item-selected :
    (print : Printing) (s : AppState) (r : BundleRef)
    → (bundle_item print s r).selected ≡ is_chosen s.selection.bundle r.id
unfolding bundle_item
bundle_item-selected print s r = ground arith

bundle_item-IsMarked :
    (print : Printing) (s : AppState) (r : BundleRef) → IsMarked s (bundle_item print s r)
bundle_item-IsMarked print s r =
    subst (λ a. Marks s a (bundle_item print s r).selected) (sym (bundle_item-action print s r))
      (subst (Marks s (pick_bundle r.id)) (sym (bundle_item-selected print s r))
        (is_chosen_iff s.selection.bundle r.id))

inert-IsMarked : (s : AppState) (i : MenuItem) → i.action ≡ inert → IsMarked s i
inert-IsMarked s i e = subst (λ a. Marks s a i.selected) (sym e) tt

fill-AllMarked :
    (s : AppState) (items : List MenuItem) (pending : Bool) (row : MenuItem) (l : Level)
    → row.action ≡ inert
    → AllMarked s l
    → AllMarked s (fill items pending row l)
unfolding fill
fill-AllMarked s [] pending row l e h = record { all = (inert-IsMarked s row e, tt) }
fill-AllMarked s (i ∷ is) pending row l e h = h

filled-AllMarked :
    (s : AppState) (pending : Bool) (row : MenuItem) (l : Level)
    → row.action ≡ inert
    → AllMarked s l
    → AllMarked s (filled pending row l)
unfolding filled
filled-AllMarked s pending row l e h = fill-AllMarked s l.items pending row l e h

without_channels-AllMarked :
    (print : Printing) (s : AppState) (names : List Text) (l : Level)
    → AllMarked s l
    → AllMarked s (without_channels print s names l)
unfolding without_channels other_sources
without_channels-AllMarked print s [] l h = record {
  all = (
    inert-IsMarked s (placeholder s.catalog.channels.state (codes "channels"))
        (placeholder-action s.catalog.channels.state (codes "channels")),
    (tt, (tt, tt)),
  );
}
without_channels-AllMarked print s (name ∷ names) l h = h

status-IsMarked :
    (print : Printing) (s : AppState) (o : Option Status) → All (IsMarked s) (status_items print o)
unfolding status_items
status-IsMarked print s none = tt
status-IsMarked print s (some status) = (tt, tt)

minimal-IsMarked :
    (print : Printing) (s : AppState) (o : Option ProfilePack)
    → All (IsMarked s) (minimal_items print o)
unfolding minimal_items
minimal-IsMarked print s none = tt
minimal-IsMarked print s (some m) = (tt, tt)

extras-IsMarked :
    (print : Printing) (s : AppState) (ps : List ProfilePack)
    → All (IsMarked s) (extra_items print s ps)
unfolding extra_items extra_item
extras-IsMarked print s [] = tt
extras-IsMarked print s (p ∷ ps) =
    (tt, each_row (IsMarked s) (extra_item print s) (p ∷ ps) (λ q. tt))

profiles-IsMarked :
    (print : Printing) (s : AppState) (o : Option SnapshotBuild)
    → All (IsMarked s) (elim o [
      | none ↦ inert_item (codes "(no build selected)") ∷ []
      | some build ↦
          if build.loaded
          then minimal_items print (minimal build) ++ extra_items print s (extra_profiles build)
          else inert_item (codes "(loading…)") ∷ []
    ])
profiles-IsMarked print s none = (tt, tt)
profiles-IsMarked print s (some build) = ready build.loaded
  where
    ready :
        (b : Bool)
        → All (IsMarked s) (
            if b
            then minimal_items print (minimal build) ++ extra_items print s (extra_profiles build)
            else inert_item (codes "(loading…)") ∷ [])
    ready true =
        All-append (IsMarked s) (minimal_items print (minimal build))
          (extra_items print s (extra_profiles build)) (minimal-IsMarked print s (minimal build))
          (extras-IsMarked print s (extra_profiles build))
    ready false = (tt, tt)

fetch-IsMarked :
    (print : Printing) (s : AppState) (mode : FetchMode)
    → s.selection.fetch ≡ mode
    → All (IsMarked s) (fetch_level print s).items
unfolding fetch_level level_of
fetch-IsMarked print s verify_first e = ground arith
fetch-IsMarked print s stream e = ground arith

pub build_level-AllMarked :
    (print : Printing) (key : MenuKey) (s : AppState) → AllMarked s (build_level print key s)
unfolding build_level root_level source_level builds_level dirs_level local_level custom_level
    level_of uboot_level boot_menu_level recovery_level snapshot_level device_level profiles_level
    found_none builds_of build_item channel_item dir_item device_item other_sources profile_items
build_level-AllMarked print root s = record { all = (tt, (tt, (tt, (tt, (tt, tt))))) }
build_level-AllMarked print source s =
    without_channels-AllMarked print s s.catalog.channels.items _ (record {
      all =
          All-append (IsMarked s)
            (map (channel_item print s) (ordered_channels s.catalog.channels.items))
            (other_sources print s)
            (each_row (IsMarked s) (channel_item print s)
              (ordered_channels s.catalog.channels.items) (λ name. tt))
            (tt, (tt, tt));
    })
build_level-AllMarked print local s =
    filled-AllMarked s _ _ _ (placeholder-action _ _) (record {
      all = each_row (IsMarked s) (bundle_item print s) _ (bundle_item-IsMarked print s);
    })
build_level-AllMarked print (builds path) s =
    filled-AllMarked s _ _ _ (placeholder-action _ _) (record {
      all = each_row (IsMarked s) (bundle_item print s) _ (bundle_item-IsMarked print s);
    })
build_level-AllMarked print (dirs path) s =
    filled-AllMarked s _ _ _ (placeholder-action _ _)
      (record { all = each_row (IsMarked s) (dir_item print path) _ (λ name. tt) })
build_level-AllMarked print MenuKey.custom s = record { all = (tt, (tt, (tt, (tt, tt)))) }
build_level-AllMarked print uboot s = filled-AllMarked s _ _ _ refl (record {
  all = each_row (IsMarked s) _ s.uboot_builds (λ b. is_chosen_iff s.selection.uboot b.id);
})
build_level-AllMarked print boot_menu s = filled-AllMarked s _ _ _ refl (record {
  all = each_row (IsMarked s) _ s.boot_menu_builds (λ b. is_chosen_iff s.selection.boot_menu b.id);
})
build_level-AllMarked print recovery s = filled-AllMarked s _ _ _ refl (record {
  all = each_row (IsMarked s) _ s.recovery_builds (λ b. is_chosen_iff s.selection.recovery b.id);
})
build_level-AllMarked print snapshot s = filled-AllMarked s _ _ _ refl (record {
  all =
      each_row (IsMarked s) _ s.snapshot_builds
        (λ b. is_chosen_iff s.selection.snapshot_build b.id);
})
build_level-AllMarked print device s = filled-AllMarked s _ _ _ refl (record {
  all =
      All-append (IsMarked s) (map (device_item print s) s.devices)
        (status_items print (shown_status s))
        (each_row (IsMarked s) (device_item print s) s.devices
          (λ d. is_chosen_iff s.selection.target_device d.path))
        (status-IsMarked print s (shown_status s));
})
build_level-AllMarked print profiles s = record {
  all = profiles-IsMarked print s (selected_build s);
}
build_level-AllMarked print fetch s = record { all = fetch-IsMarked print s s.selection.fetch refl }
