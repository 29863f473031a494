-- ===== src/Menu/Activate.antt =====
-- src/core/menu.rs: what a row does, as the calls that it makes and what it asks of the position.
use flipperos_installer.Base.{ℕ, zero, suc, List, [], ◌∷◌, Option, none, some, and_some}
use flipperos_installer.Controller.System.{
  Call, updates, device_choice, reprovision_request, install_request, bundle_choice, uboot_choice,
  boot_menu_choice, recovery_choice, snapshot_choice, fetch_choice, profile_choice,
  all_profiles_choice,
}
use flipperos_installer.Menu.Nav.{Move, stay, pop_level, to_root, push_level}
use flipperos_installer.Menu.Items.{
  Action, open_level, pick_device, pick_uboot, pick_boot_menu, pick_recovery, pick_snapshot,
  pick_bundle, pick_fetch, toggle_one, toggle_all, install, inert, reprovision, LoadRequest,
  DetailsTarget, MenuItem, Level,
}

-- `items.get(index)`
unfoldable pub item_at : List MenuItem → ℕ → Option MenuItem
item_at [] n = none
item_at (i ∷ is) zero = some i
item_at (i ∷ is) (suc n) = item_at is n

unfoldable pub outcome_of : Action → List Call × Move
outcome_of inert = ([], stay)
outcome_of (open_level key) = ([], push_level key)
outcome_of (pick_device path) = (device_choice path ∷ [], pop_level)
outcome_of (pick_uboot id) = (updates (uboot_choice id) ∷ [], pop_level)
outcome_of (pick_boot_menu id) = (updates (boot_menu_choice id) ∷ [], pop_level)
outcome_of (pick_recovery id) = (updates (recovery_choice id) ∷ [], pop_level)
outcome_of (pick_snapshot id) = (updates (snapshot_choice id) ∷ [], pop_level)
outcome_of (pick_bundle id) = (updates (bundle_choice id) ∷ [], to_root)
outcome_of (pick_fetch mode) = (updates (fetch_choice mode) ∷ [], pop_level)
outcome_of (toggle_one name on) = (updates (profile_choice name on) ∷ [], stay)
outcome_of (toggle_all on) = (updates (all_profiles_choice on) ∷ [], stay)
outcome_of install = (install_request ∷ [], to_root)
outcome_of (reprovision t) = (reprovision_request t ∷ [], stay)

unfoldable pub outcome_at : Option MenuItem → List Call × Move
unfolding outcome_of
outcome_at none = ([], stay)
outcome_at (some item) = outcome_of item.action

unfoldable pub activate : Level → ℕ → List Call × Move
unfolding item_at outcome_at
activate level index = outcome_at (item_at level.items index)

-- The fetch that `on_focus` starts
unfoldable pub focus_request : Level → ℕ → Option LoadRequest
unfolding item_at
focus_request level index = and_some (item_at level.items index) λ i. i.on_focus

-- `Level::details_at`
unfoldable pub details_at : Level → ℕ → Option DetailsTarget
unfolding item_at
details_at level index = and_some (item_at level.items index) λ i. i.details
