-- ===== src/Menu/Cursor.antt =====
-- Where the cursor opens: on the row of the choice that was made.
pub mod Marked
use flipperos_installer.Base.{
  ℕ, zero, suc, ◌≡◌, ◌≢◌, refl, sym, subst, Bool, true, false, List, [], ◌∷◌, All, Option, none,
  some, Text, if◌then◌else◌,
}
use flipperos_installer.Model.{LoadState, idle, loading, complete, AppState}
use flipperos_installer.Menu.Nav.{
  MenuKey, root, source, local, uboot, boot_menu, recovery, snapshot, device, profiles, fetch,
  builds, dirs,
}
use flipperos_installer.Menu.Items.{
  Printing, MenuItem, Level, level_of, selected_position, one_on, placeholder,
}
use flipperos_installer.Menu.Levels.{
  fill, filled, without_channels, found_none, root_level, source_level, builds_level, dirs_level,
  local_level, custom_level,
}
use flipperos_installer.Menu.Choices.{
  build_level, builds_of, uboot_level, boot_menu_level, recovery_level, snapshot_level,
  device_level, profiles_level, fetch_level,
}
use Marked.{AllMarked, build_level-AllMarked}

-- The row at a position is there and is the level's choice.
abbrev pub IsSelectedAt : List MenuItem → ℕ → Type 0
IsSelectedAt [] n = ⊥
IsSelectedAt (i ∷ is) zero = i.selected ≡ true
IsSelectedAt (i ∷ is) (suc n) = IsSelectedAt is n

abbrev pub IsAt : List MenuItem → Option ℕ → Type 0
IsAt items none = All (λ i. i.selected ≡ false) items
IsAt items (some n) = IsSelectedAt items n

pub record IsAtChoice (l : Level) : Type 0 where
  pub at : IsAt l.items l.preferred_cursor

cons-IsAt :
    (i : MenuItem) (is : List MenuItem) (b : Bool) (o : Option ℕ)
    → i.selected ≡ b
    → IsAt is o
    → IsAt (i ∷ is) (if b then some 0 else one_on o)
cons-IsAt i is true o e h = e
cons-IsAt i is false none e h = (e, h)
cons-IsAt i is false (some n) e h = h

selected_position-IsAt : (items : List MenuItem) → IsAt items (selected_position items)
unfolding selected_position
selected_position-IsAt [] = tt
selected_position-IsAt (i ∷ is) =
    cons-IsAt i is i.selected (selected_position is) refl (selected_position-IsAt is)

found-IsAtChoice : (l : Level) → l.preferred_cursor ≡ selected_position l.items → IsAtChoice l
found-IsAtChoice l e = record { at = subst (IsAt l.items) (sym e) (selected_position-IsAt l.items) }

row-IsAt : (row : MenuItem) (o : Option ℕ) → row.selected ≡ false → IsAt [] o → IsAt (row ∷ []) o
row-IsAt row none e h = (e, tt)
row-IsAt row (some n) e h = elim h [ ]

fill-IsAtChoice :
    (items : List MenuItem) (pending : Bool) (row : MenuItem) (l : Level)
    → row.selected ≡ false
    → l.items ≡ items
    → IsAtChoice l
    → IsAtChoice (fill items pending row l)
unfolding fill
fill-IsAtChoice [] pending row l e q h = record {
  at = row-IsAt row l.preferred_cursor e (subst (λ is. IsAt is l.preferred_cursor) q h.at);
}
fill-IsAtChoice (i ∷ is) pending row l e q h = h

filled-IsAtChoice :
    (pending : Bool) (row : MenuItem) (l : Level)
    → row.selected ≡ false
    → IsAtChoice l
    → IsAtChoice (filled pending row l)
unfolding filled
filled-IsAtChoice pending row l e h = fill-IsAtChoice l.items pending row l e refl h

placeholder-selected : (s : LoadState) (what : Text) → (placeholder s what).selected ≡ false
unfolding placeholder
placeholder-selected idle what = refl
placeholder-selected loading what = refl
placeholder-selected complete what = refl
placeholder-selected (LoadState.failed e) what = refl

with_channels :
    (print : Printing) (s : AppState) (names : List Text) (l : Level)
    → names ≢ []
    → IsAtChoice l
    → IsAtChoice (without_channels print s names l)
unfolding without_channels
with_channels print s [] l n h = absurd (n refl)
with_channels print s (name ∷ names) l n h = h

opens-IsAtChoice :
    (print : Printing) (key : MenuKey) (s : AppState)
    → (key ≡ source → s.catalog.channels.items ≢ [])
    → IsAtChoice (build_level print key s)
unfolding build_level root_level source_level builds_level dirs_level local_level custom_level
    level_of uboot_level boot_menu_level recovery_level snapshot_level device_level profiles_level
    fetch_level found_none builds_of
opens-IsAtChoice print root s h = found-IsAtChoice _ refl
opens-IsAtChoice print source s h =
    with_channels print s s.catalog.channels.items _ (h refl) (found-IsAtChoice _ refl)
opens-IsAtChoice print local s h =
    filled-IsAtChoice _ _ _ (placeholder-selected _ _) (found-IsAtChoice _ refl)
opens-IsAtChoice print (builds path) s h =
    filled-IsAtChoice _ _ _ (placeholder-selected _ _) (found-IsAtChoice _ refl)
opens-IsAtChoice print (dirs path) s h =
    filled-IsAtChoice _ _ _ (placeholder-selected _ _) (found-IsAtChoice _ refl)
opens-IsAtChoice print MenuKey.custom s h = found-IsAtChoice _ refl
opens-IsAtChoice print uboot s h = filled-IsAtChoice _ _ _ refl (found-IsAtChoice _ refl)
opens-IsAtChoice print boot_menu s h = filled-IsAtChoice _ _ _ refl (found-IsAtChoice _ refl)
opens-IsAtChoice print recovery s h = filled-IsAtChoice _ _ _ refl (found-IsAtChoice _ refl)
opens-IsAtChoice print snapshot s h = filled-IsAtChoice _ _ _ refl (found-IsAtChoice _ refl)
opens-IsAtChoice print device s h = filled-IsAtChoice _ _ _ refl (found-IsAtChoice _ refl)
opens-IsAtChoice print profiles s h = found-IsAtChoice _ refl
opens-IsAtChoice print fetch s h = found-IsAtChoice _ refl

-- On every level, the cursor opens on a row that is marked, and where it does not say where it opens no
-- row is, but for the level of the sources while no channels are known; and a row that picks a device, a
-- build, an image, a bundle or a mode is marked exactly where that is what is selected.
pub build_level-IsAtChoice :
    (print : Printing) (key : MenuKey) (s : AppState)
    → (key ≡ source → s.catalog.channels.items ≢ [])
    → IsAtChoice (build_level print key s) × AllMarked s (build_level print key s)
build_level-IsAtChoice print key s h =
    (opens-IsAtChoice print key s h, build_level-AllMarked print key s)
