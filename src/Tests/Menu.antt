-- ===== src/Tests/Menu.antt =====
-- The menu at concrete inputs.
use flipperos_installer.Base.{◌-◌, ◌≤◌, ◌≡◌, ◌≢◌, refl, List, [], ◌∷◌, All, none, some, codes}
use flipperos_installer.Model.{selected_bundle_ref, verify_first}
use flipperos_installer.Menu.Nav.{
  Change, moved, cursor_set, push_level, pop_level, change_all, new_nav, IsRooted, top_key,
  apply_move, cursor, clamp, root, source, device, change_all-IsRooted,
}
use flipperos_installer.Menu.Items.{
  Printing, level_of, selected_position, ordered_channels, known_channels, sort_texts,
}
use flipperos_installer.Menu.Levels.{source_level, without_channels, other_sources}
use flipperos_installer.Menu.Choices.{build_level}
use flipperos_installer.Menu.Cursor.{IsAtChoice, IsSelectedAt, build_level-IsAtChoice}
use flipperos_installer.Menu.Activate.{activate}
use flipperos_installer.Menu.Cursor.Marked.{AllMarked}
use flipperos_installer.Menu.Valid.{IsDone, IsOffered, activate-IsOffered}
use flipperos_installer.Tests.Rig.{fit_state}

abbrev plainly : Printing
plainly = record { size = λ n. codes "?"; capital = λ c. c ∷ [] }

abbrev walk : List Change
walk = cursor_set 1 ∷ moved (push_level device) ∷ cursor_set 2 ∷ []

change_all-IsRooted_example :
    IsRooted (change_all walk new_nav).stack
    × (top_key (change_all walk new_nav).stack ≢ none)
    × (apply_move pop_level (apply_move (push_level source) (change_all walk new_nav))
        ≡ change_all walk new_nav)
    × (cursor (clamp 1 (change_all walk new_nav)) ≤ 1 - 1)
change_all-IsRooted_example = change_all-IsRooted walk source 1

build_level-IsAtChoice_example :
    IsAtChoice (build_level plainly device (fit_state verify_first))
    × AllMarked (fit_state verify_first) (build_level plainly device (fit_state verify_first))
build_level-IsAtChoice_example =
    build_level-IsAtChoice plainly device (fit_state verify_first) (λ e. cc)

activate-IsOffered_example :
    IsDone
      (build_level plainly root (fit_state verify_first)).items
      4
      (activate (build_level plainly root (fit_state verify_first)) 4)
    × All
        (IsOffered root (fit_state verify_first))
        (activate (build_level plainly root (fit_state verify_first)) 4).0
activate-IsOffered_example = activate-IsOffered plainly root (fit_state verify_first) 4

-- While no channels are known, the cursor of the sources opens one row above the choice.
cursor_off :
    ((build_level plainly source (fit_state verify_first)).preferred_cursor ≡ some 1)
    × (IsSelectedAt (build_level plainly source (fit_state verify_first)).items 2)
unfolding build_level source_level without_channels other_sources level_of selected_position
    selected_bundle_ref ordered_channels known_channels sort_texts
cursor_off = (refl, refl)
