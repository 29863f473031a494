-- ===== src/Menu/Valid/Rows.antt =====
-- Rows that a state allows, and levels of such rows.
use mathlib.Core.List.{append_assoc}
use flipperos_installer.Base.{
  ◌≡◌, refl, sym, ap, subst, ◌∙◌, Bool, true, false, not, ◌||◌, List, [], ◌∷◌, ◌++◌, All, map, any,
  some, Text, text_eq, text_eq_refl, option_map,
}
use flipperos_installer.Model.{AppState, BundleRef, entry, LoadState, idle, loading, complete}
use flipperos_installer.Menu.Nav.{MenuKey, root, device, profiles, local, builds}
use flipperos_installer.Menu.Items.{
  MenuItem, Level, placeholder, Action, pick_device, pick_uboot, pick_boot_menu, pick_recovery,
  pick_snapshot, pick_bundle, toggle_one, install, inert, reprovision,
}
use flipperos_installer.Menu.Levels.{fill, filled, items_of}
use flipperos_installer.Menu.Choices.{shown_status}

-- The bundles that a level lists
abbrev pub offered_bundles : MenuKey → AppState → List BundleRef
unfolding entry
offered_bundles local s = s.catalog.local.items
offered_bundles (builds path) s = items_of (entry path s.catalog.builds)
offered_bundles key s = []

-- What the state allows a row of a level to do.
abbrev pub IsAllowed : MenuKey → AppState → Action → Type 0
IsAllowed key s install = key ≡ root
IsAllowed key s (reprovision t) =
    (key ≡ device) × (option_map (λ st. st.target) (shown_status s) ≡ some t)
IsAllowed key s (pick_device path) = any (λ d. text_eq d.path path) s.devices ≡ true
IsAllowed key s (pick_uboot id) = any (λ b. text_eq b.id id) s.uboot_builds ≡ true
IsAllowed key s (pick_boot_menu id) = any (λ b. text_eq b.id id) s.boot_menu_builds ≡ true
IsAllowed key s (pick_recovery id) = any (λ b. text_eq b.id id) s.recovery_builds ≡ true
IsAllowed key s (pick_snapshot id) = any (λ b. text_eq b.id id) s.snapshot_builds ≡ true
IsAllowed key s (pick_bundle id) = any (λ r. text_eq r.id id) (offered_bundles key s) ≡ true
IsAllowed key s (toggle_one name on) =
    (key ≡ profiles) × (on ≡ not (any (λ n. text_eq n name) s.selection.profiles))
IsAllowed key s _ = Unit {0}

abbrev pub Allows : MenuKey → AppState → List MenuItem → Type 0
Allows key s = All (λ i. IsAllowed key s i.action)

or_true : (b : Bool) → (b || true) ≡ true
or_true true = refl
or_true false = refl

or_left : (a b : Bool) → a ≡ true → (a || b) ≡ true
or_left true b e = refl
or_left false b e = cc

-- Rows for the entries of a list, each of which names its entry
any-in :
    {B : Type 0}
    → (id : B → Text) (b : B) (before bs : List B)
    → any (λ c. text_eq (id c) (id b)) (before ++ (b ∷ bs)) ≡ true
any-in id b [] bs =
    or_left (text_eq (id b) (id b)) (any (λ c. text_eq (id c) (id b)) bs) (text_eq_refl (id b))
any-in id b (c ∷ before) bs =
    ap (λ x. text_eq (id c) (id b) || x) (any-in id b before bs) ∙ or_true (text_eq (id c) (id b))

pub named_rows :
    {B : Type 0}
    → (id : B → Text) (Q : MenuItem → Type 0) (item : B → MenuItem) (before bs : List B)
    → ((b : B) → any (λ c. text_eq (id c) (id b)) (before ++ bs) ≡ true → Q (item b))
    → All Q (map item bs)
named_rows id Q item before [] k = tt
named_rows id Q item before (b ∷ bs) k = (
  k b (any-in id b before bs),
  named_rows id Q item (before ++ (b ∷ [])) bs (λ c e.
      k c (
        subst (λ l. any (λ d. text_eq (id d) (id c)) l ≡ true) (append_assoc before (b ∷ []) bs)
          e)),
)

pub each_row :
    {B : Type 0}
    → (Q : MenuItem → Type 0) (item : B → MenuItem) (bs : List B) → ((b : B) → Q (item b))
    → All Q (map item bs)
each_row Q item [] k = tt
each_row Q item (b ∷ bs) k = (k b, each_row Q item bs k)

-- A record, for the level to be read off it
pub record AllowsAll (key : MenuKey) (s : AppState) (l : Level) : Type 0 where
  pub all : Allows key s l.items

pub placeholder-action : (s : LoadState) (what : Text) → (placeholder s what).action ≡ inert
unfolding placeholder
placeholder-action idle what = refl
placeholder-action loading what = refl
placeholder-action complete what = refl
placeholder-action (LoadState.failed e) what = refl

fill-Allows :
    (key : MenuKey) (s : AppState) (items : List MenuItem) (pending : Bool) (row : MenuItem)
    (l : Level)
    → row.action ≡ inert
    → AllowsAll key s l
    → AllowsAll key s (fill items pending row l)
unfolding fill
fill-Allows key s [] pending row l e h = record { all = (subst (IsAllowed key s) (sym e) tt, tt) }
fill-Allows key s (i ∷ is) pending row l e h = h

pub filled-Allows :
    (key : MenuKey) (s : AppState) (pending : Bool) (row : MenuItem) (l : Level)
    → row.action ≡ inert
    → AllowsAll key s l
    → AllowsAll key s (filled pending row l)
unfolding filled
filled-Allows key s pending row l e h = fill-Allows key s l.items pending row l e h
