-- ===== src/Menu/Valid.antt =====
-- What the rows of the menu can ask for.
pub mod Rows
use mathlib.Core.List.{append_assoc}
use flipperos_installer.Base.{
  ℕ, zero, suc, ◌≡◌, ◌≢◌, refl, sym, ap, subst, ◌∙◌, Bool, true, false, not, ◌||◌, List, [], ◌∷◌,
  ◌++◌, All, All-append, map, filter, any, find, Option, none, some, Text, codes, if◌then◌else◌,
  arith, Bool-cases, inl, inr, text_eq, text_eq_refl, option_map, ◌⊎◌, ◌≤◌, length,
}
use flipperos_installer.Provision.Compare.{Target, Status}
use flipperos_installer.Storage.{StorageDevice}
use flipperos_installer.Model.{
  AppState, BundleRef, ProfilePack, SnapshotBuild, LoadState, idle, loading, complete,
  selected_build, minimal, extra_profiles,
}
use flipperos_installer.Controller.System.{
  Call, Update, updates, device_choice, default_check, blank_device, prompt_confirmed,
  prompt_dismissed, reprovision_request, install_request, uboot_choice, boot_menu_choice,
  recovery_choice, snapshot_choice, profile_choice, bundle_choice, fetch_choice,
  all_profiles_choice,
}
use flipperos_installer.Menu.Nav.{
  Move, stay, MenuKey, root, source, local, uboot, boot_menu, recovery, snapshot, device, profiles,
  fetch, builds, dirs,
}
use flipperos_installer.Menu.Items.{
  Printing, LevelKind, MenuItem, Level, level_of, inert_item, placeholder, ordered_channels, Action,
  open_level, pick_device, pick_uboot, pick_boot_menu, pick_recovery, pick_snapshot, pick_bundle,
  pick_fetch, toggle_one, toggle_all, install, inert, reprovision,
}
use flipperos_installer.Menu.Levels.{
  fill, filled, without_channels, found_none, root_level, source_level, builds_level, dirs_level,
  local_level, custom_level, channel_item, other_sources, bundle_item, dir_item,
}
use flipperos_installer.Menu.Choices.{
  build_level, builds_of, build_item, uboot_level, boot_menu_level, recovery_level, snapshot_level,
  device_level, profiles_level, fetch_level, device_item, status_items, shown_status, profile_items,
  minimal_items, extra_items, extra_item, all_on, is_on,
}
use flipperos_installer.Menu.Activate.{activate, item_at, outcome_at, outcome_of}
use Rows.{
  offered_bundles, IsAllowed, Allows, AllowsAll, named_rows, each_row, placeholder-action,
  filled-Allows,
}

pub bundle_item-action :
    (print : Printing) (s : AppState) (r : BundleRef)
    → (bundle_item print s r).action ≡ pick_bundle r.id
unfolding bundle_item
bundle_item-action print s r = ground arith

bundles-Allows :
    (key : MenuKey) (print : Printing) (s : AppState)
    → Allows key s (map (bundle_item print s) (offered_bundles key s))
bundles-Allows key print s =
    named_rows (λ r. r.id) (λ i. IsAllowed key s i.action) (bundle_item print s) []
      (offered_bundles key s) λ r e. subst (IsAllowed key s) (sym (bundle_item-action print s r)) e

other_sources-Allows : (print : Printing) (s : AppState) → Allows source s (other_sources print s)
unfolding other_sources
other_sources-Allows print s = (tt, (tt, tt))

without_channels-Allows :
    (print : Printing) (s : AppState) (names : List Text) (l : Level)
    → AllowsAll source s l
    → AllowsAll source s (without_channels print s names l)
unfolding without_channels
without_channels-Allows print s [] l h = record {
  all = (
    subst (IsAllowed source s)
        (sym (placeholder-action s.catalog.channels.state (codes "channels"))) tt,
    other_sources-Allows print s,
  );
}
without_channels-Allows print s (name ∷ names) l h = h

status-Allows :
    (print : Printing) (s : AppState) (o : Option Status)
    → shown_status s ≡ o
    → Allows device s (status_items print o)
unfolding status_items
status-Allows print s none e = tt
status-Allows print s (some status) e = ((refl, ap (option_map (λ st. st.target)) e), tt)

minimal-Allows :
    (print : Printing) (s : AppState) (o : Option ProfilePack)
    → Allows profiles s (minimal_items print o)
unfolding minimal_items
minimal-Allows print s none = tt
minimal-Allows print s (some m) = (tt, tt)

extra-Allows :
    (print : Printing) (s : AppState) (ps : List ProfilePack)
    → Allows profiles s (extra_items print s ps)
unfolding extra_items extra_item
extra-Allows print s [] = tt
extra-Allows print s (p ∷ ps) = (
  tt,
  each_row (λ i. IsAllowed profiles s i.action) (extra_item print s) (p ∷ ps) (λ q. (refl, refl)),
)

profile_items-Allows : (print : Printing) (s : AppState) → Allows profiles s (profile_items print s)
unfolding profile_items
profile_items-Allows print s = chosen (selected_build s)
  where
    ready :
        (b : Bool) (build : SnapshotBuild)
        → Allows profiles s (
            if b
            then minimal_items print (minimal build) ++ extra_items print s (extra_profiles build)
            else inert_item (codes "(loading…)") ∷ [])
    ready true build =
        All-append (λ i. IsAllowed profiles s i.action) (minimal_items print (minimal build))
          (extra_items print s (extra_profiles build)) (minimal-Allows print s (minimal build))
          (extra-Allows print s (extra_profiles build))
    ready false build = (tt, tt)

    chosen :
        (o : Option SnapshotBuild)
        → Allows profiles s (elim o [
          | none ↦ inert_item (codes "(no build selected)") ∷ []
          | some build ↦
              if build.loaded
              then minimal_items print (minimal build) ++ extra_items print s (extra_profiles build)
              else inert_item (codes "(loading…)") ∷ []
        ])
    chosen none = (tt, tt)
    chosen (some build) = ready build.loaded build

build_level-Allows :
    (print : Printing) (key : MenuKey) (s : AppState) → AllowsAll key s (build_level print key s)
unfolding build_level root_level source_level builds_level dirs_level local_level custom_level
    level_of uboot_level boot_menu_level recovery_level snapshot_level device_level profiles_level
    fetch_level found_none builds_of build_item channel_item dir_item device_item
build_level-Allows print root s = record { all = (tt, (tt, (tt, (tt, (refl, tt))))) }
build_level-Allows print source s =
    without_channels-Allows print s s.catalog.channels.items _ (record {
      all =
          All-append (λ i. IsAllowed source s i.action)
            (map (channel_item print s) (ordered_channels s.catalog.channels.items))
            (other_sources print s)
            (each_row (λ i. IsAllowed source s i.action) (channel_item print s)
              (ordered_channels s.catalog.channels.items) (λ name. tt))
            (other_sources-Allows print s);
    })
build_level-Allows print local s =
    filled-Allows local s _ _ _ (placeholder-action _ _)
      (record { all = bundles-Allows local print s })
build_level-Allows print (builds path) s =
    filled-Allows (builds path) s _ _ _ (placeholder-action _ _)
      (record { all = bundles-Allows (builds path) print s })
build_level-Allows print (dirs path) s =
    filled-Allows (dirs path) s _ _ _ (placeholder-action _ _) (record {
      all = each_row (λ i. IsAllowed (dirs path) s i.action) (dir_item print path) _ (λ name. tt);
    })
build_level-Allows print MenuKey.custom s = record { all = (tt, (tt, (tt, (tt, tt)))) }
build_level-Allows print uboot s = filled-Allows uboot s _ _ _ refl (record {
  all = named_rows (λ b. b.id) (λ i. IsAllowed uboot s i.action) _ [] s.uboot_builds (λ b e. e);
})
build_level-Allows print boot_menu s = filled-Allows boot_menu s _ _ _ refl (record {
  all =
      named_rows (λ b. b.id) (λ i. IsAllowed boot_menu s i.action) _ [] s.boot_menu_builds
        (λ b e. e);
})
build_level-Allows print recovery s = filled-Allows recovery s _ _ _ refl (record {
  all =
      named_rows (λ b. b.id) (λ i. IsAllowed recovery s i.action) _ [] s.recovery_builds (λ b e. e);
})
build_level-Allows print snapshot s = filled-Allows snapshot s _ _ _ refl (record {
  all =
      named_rows (λ b. b.id) (λ i. IsAllowed snapshot s i.action) _ [] s.snapshot_builds (λ b e. e);
})
build_level-Allows print device s = filled-Allows device s _ _ _ refl (record {
  all =
      All-append (λ i. IsAllowed device s i.action) (map (device_item print s) s.devices)
        (status_items print (shown_status s))
        (named_rows (λ d. d.path) (λ i. IsAllowed device s i.action) (device_item print s) []
          s.devices (λ d e. e))
        (status-Allows print s (shown_status s) refl);
})
build_level-Allows print profiles s = record { all = profile_items-Allows print s }
build_level-Allows print fetch s = record { all = (tt, (tt, tt)) }

-- What a call of the menu may be, from a level with the key and in the state
abbrev pub IsOffered : MenuKey → AppState → Call → Type 0
IsOffered key s install_request = key ≡ root
IsOffered key s (reprovision_request t) =
    (key ≡ device) × (option_map (λ st. st.target) (shown_status s) ≡ some t)
IsOffered key s (device_choice path) = any (λ d. text_eq d.path path) s.devices ≡ true
IsOffered key s (updates (uboot_choice id)) = any (λ b. text_eq b.id id) s.uboot_builds ≡ true
IsOffered key s (updates (boot_menu_choice id)) =
    any (λ b. text_eq b.id id) s.boot_menu_builds ≡ true
IsOffered key s (updates (recovery_choice id)) = any (λ b. text_eq b.id id) s.recovery_builds ≡ true
IsOffered key s (updates (snapshot_choice id)) = any (λ b. text_eq b.id id) s.snapshot_builds ≡ true
IsOffered key s (updates (profile_choice name on)) =
    (key ≡ profiles) × (on ≡ not (any (λ n. text_eq n name) s.selection.profiles))
IsOffered key s (updates (bundle_choice id)) =
    any (λ r. text_eq r.id id) (offered_bundles key s) ≡ true
IsOffered key s (updates (fetch_choice mode)) = Unit {0}
IsOffered key s (updates (all_profiles_choice on)) = Unit {0}
IsOffered key s _ = ⊥

outcome_of-IsOffered :
    (key : MenuKey) (s : AppState) (a : Action)
    → IsAllowed key s a
    → All (IsOffered key s) (outcome_of a).0
unfolding outcome_of
outcome_of-IsOffered key s inert h = tt
outcome_of-IsOffered key s (open_level k) h = tt
outcome_of-IsOffered key s (pick_device path) h = (h, tt)
outcome_of-IsOffered key s (pick_uboot id) h = (h, tt)
outcome_of-IsOffered key s (pick_boot_menu id) h = (h, tt)
outcome_of-IsOffered key s (pick_recovery id) h = (h, tt)
outcome_of-IsOffered key s (pick_snapshot id) h = (h, tt)
outcome_of-IsOffered key s (pick_bundle id) h = (h, tt)
outcome_of-IsOffered key s (pick_fetch mode) h = (tt, tt)
outcome_of-IsOffered key s (toggle_one name on) h = (h, tt)
outcome_of-IsOffered key s (toggle_all on) h = (tt, tt)
outcome_of-IsOffered key s install h = (h, tt)
outcome_of-IsOffered key s (reprovision t) h = (h, tt)

at-IsOffered :
    (key : MenuKey) (s : AppState) (items : List MenuItem) (index : ℕ)
    → Allows key s items
    → All (IsOffered key s) (outcome_at (item_at items index)).0
unfolding item_at outcome_at
at-IsOffered key s [] n h = tt
at-IsOffered key s (i ∷ is) zero h = outcome_of-IsOffered key s i.action h.0
at-IsOffered key s (i ∷ is) (suc n) h = at-IsOffered key s is n h.1

-- What is done is what the row at the position says, and nothing beyond the last row.
abbrev pub IsDone : List MenuItem → ℕ → List Call × Move → Type 0
IsDone items index done =
    ((before : List MenuItem) × (row : MenuItem) × (after : List MenuItem) × (items
        ≡ before ++ (row ∷ after))
      × (length before ≡ index)
      × (done ≡ outcome_of row.action))
    ⊎ ((length items ≤ index) × (done ≡ ([], stay)))

at-IsDone :
    (items : List MenuItem) (index : ℕ) → IsDone items index (outcome_at (item_at items index))
unfolding item_at outcome_at
at-IsDone [] n = inr (omega arith, refl)
at-IsDone (i ∷ is) zero = inl ([], i, is, refl, refl, refl)
at-IsDone (i ∷ is) (suc n) = elim (at-IsDone is n) [
  | inl (before, row, after, e, l, d) ↦ inl (i ∷ before, row, after, ap (λ x. i ∷ x) e, ap suc l, d)
  | inr (l, d) ↦ inr (omega (arith, l), d)
]

-- Whatever position of whatever level is activated, what is done is what the row there says, and nothing
-- where there is no row; an install is requested only from the summary, and a reprovision only from the
-- devices and for the status that they show; no prompt is answered; a device, a build or an image that is
-- chosen is one that the state lists, and a bundle one that this level lists; and a profile is toggled only
-- from the profiles, to the opposite of what is selected.
pub activate-IsOffered :
    (print : Printing) (key : MenuKey) (s : AppState) (index : ℕ)
    → IsDone (build_level print key s).items index (activate (build_level print key s) index)
      × All (IsOffered key s) (activate (build_level print key s) index).0
unfolding activate
activate-IsOffered print key s index = (
  at-IsDone (build_level print key s).items index,
  at-IsOffered key s (build_level print key s).items index (build_level-Allows print key s).all,
)
