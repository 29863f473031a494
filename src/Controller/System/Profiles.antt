-- ===== src/Controller/System/Profiles.antt =====
-- Which profiles can be selected.
use flipperos_installer.Base.{
  ◌≡◌, refl, sym, subst, Bool, true, false, not, List, [], ◌∷◌, none, some, Text, codes, filter,
  eq_ignore_case, if◌then◌else◌, All, All-append, arith, Bool-cases, inl, inr, Option-cases, Result,
  ok, err, panicked, text_eq,
}
use flipperos_installer.Model.{
  with_all_profiles, selected_build, is_minimal, names_of, ProfilePack, custom, SelectedBundle,
  AppState,
}
use flipperos_installer.Controller.{
  Settings, Job, Event, Turn, published, dismissed, answered, relisted, confirm_prompt,
}
use flipperos_installer.Controller.Sections.{
  devices_listed, push_log, devices_found, sources_refreshed, catalog_listed, channels_loaded,
  builds_begun, builds_loaded, dirs_begun, dirs_loaded,
}
use flipperos_installer.Controller.Choices.{
  BuildContents, with_contents, publish, answer_request, take_prompt, bundle_selected,
  uboot_selected, boot_menu_selected, recovery_selected, snapshot_selected, bundle_loaded,
  profiles_loaded, uboot_loaded, boot_menu_loaded, recovery_loaded, snapshot_details_loaded,
  toggle_profile, select_all_profiles, device_selected,
}
use flipperos_installer.Controller.System.{
  System, Step, turn, called, Reach, here, later, call, Update, update, updates, log_line,
  profile_choice, all_profiles_choice, bundle_choice, snapshot_choice, bundle_answer,
  profiles_answer,
}

abbrev pub IsExtra : Text → Type 0
IsExtra name = eq_ignore_case name (codes "minimal") ≡ false

abbrev pub HasExtras : AppState → Type 0
HasExtras s = All IsExtra s.selection.profiles

All-filter {ℓ κ} :
    {A : Type ℓ} (P : A → Type κ) (keep : A → Bool) (xs : List A)
    → All P xs
    → All P (filter keep xs)
All-filter P keep [] h = tt
All-filter P keep (x ∷ xs) h =
    elim (keep x) as (λ b. All P (if b then x ∷ filter keep xs else filter keep xs)) [
      | true ↦ (h.0, All-filter P keep xs h.1)
      | false ↦ All-filter P keep xs h.1
    ]

extras-IsExtra :
    (ps : List ProfilePack) → All IsExtra (names_of (filter (λ p. not (is_minimal p)) ps))
unfolding is_minimal
extras-IsExtra [] = tt
extras-IsExtra (p ∷ ps) = ground (arith, extras-IsExtra ps)

with_all_profiles-HasExtras : (s : AppState) → HasExtras (with_all_profiles s)
unfolding with_all_profiles
with_all_profiles-HasExtras s = elim (Option-cases (selected_build s)) [
  | inl e ↦ rw e tt
  | inr (b, e) ↦ rw e (extras-IsExtra b.profiles)
]

toggle_profile-HasExtras :
    (name : Text) (on : Bool) (s : AppState) → HasExtras s → HasExtras (toggle_profile name on s)
unfolding toggle_profile
toggle_profile-HasExtras name true s h = elim (Bool-cases (eq_ignore_case name (codes "minimal"))) [
  | inl e ↦ rw e h
  | inr e ↦ rw e (
      All-append IsExtra (filter (λ p. not (text_eq p name)) s.selection.profiles) (name ∷ [])
        (All-filter IsExtra (λ p. not (text_eq p name)) s.selection.profiles h) (e, tt))
]
toggle_profile-HasExtras name false s h =
    elim (Bool-cases (eq_ignore_case name (codes "minimal"))) [
      | inl e ↦ rw e h
      | inr e ↦ rw e (All-filter IsExtra (λ p. not (text_eq p name)) s.selection.profiles h)
    ]

snapshot_selected-HasExtras : (id : Text) (s : AppState) → HasExtras (snapshot_selected id s)
unfolding snapshot_selected
snapshot_selected-HasExtras id s =
    with_all_profiles-HasExtras
      (record s { selection = record (s.selection) { mode = custom; snapshot_build = some id } })

bundle_loaded-HasExtras :
    (r : Result Text SelectedBundle) (s : AppState) → HasExtras s → HasExtras (bundle_loaded r s)
unfolding bundle_loaded
bundle_loaded-HasExtras (ok b) s h =
    with_all_profiles-HasExtras
      (record s { supported_device_types = b.device_types; bundle = some b; bundle_error = none })
bundle_loaded-HasExtras (err e) s h = h
bundle_loaded-HasExtras panicked s h = h

profiles_loaded-HasExtras :
    (id : Text) (c : BuildContents) (s : AppState)
    → HasExtras s
    → HasExtras (profiles_loaded id c s)
unfolding profiles_loaded
profiles_loaded-HasExtras id c s h =
    ground (arith, with_all_profiles-HasExtras (with_contents id c s))

update-HasExtras : (u : Update) (s : AppState) → HasExtras s → HasExtras (update u s)
unfolding update push_log devices_found sources_refreshed catalog_listed channels_loaded
    builds_begun builds_loaded dirs_begun dirs_loaded bundle_selected uboot_selected
    boot_menu_selected recovery_selected uboot_loaded boot_menu_loaded recovery_loaded
    snapshot_details_loaded select_all_profiles
update-HasExtras (log_line t) s h = h
update-HasExtras (bundle_choice id) s h = tt
update-HasExtras (snapshot_choice id) s h = snapshot_selected-HasExtras id s
update-HasExtras (bundle_answer r) s h = bundle_loaded-HasExtras r s h
update-HasExtras (profiles_answer id c) s h = profiles_loaded-HasExtras id c s h
update-HasExtras (profile_choice name on) s h = toggle_profile-HasExtras name on s h
update-HasExtras (all_profiles_choice true) s h = with_all_profiles-HasExtras s
update-HasExtras (all_profiles_choice false) s h = tt
update-HasExtras u s h = ground arith

Turn-same :
    {cfg : Settings} {s s' : AppState} {j : Job} {js : List Job} {es : List Event}
    → Turn cfg s j s' js es
    → s'.selection.profiles ≡ s.selection.profiles
unfolding publish answer_request take_prompt devices_listed
Turn-same published = ground arith
Turn-same dismissed = refl
Turn-same answered = ground arith
Turn-same (relisted again) = ground arith
Turn-same mv = ground arith

Step-HasExtras :
    {cfg : Settings} {x y : System} → Step cfg x y → HasExtras x.state → HasExtras y.state
unfolding call confirm_prompt take_prompt device_selected
Step-HasExtras (turn before after e mv) h = subst (All IsExtra) (sym (Turn-same mv)) h
Step-HasExtras {x} (called (updates u)) h = update-HasExtras u x.state h
Step-HasExtras (called c) h = ground arith

-- In every state that the controller can reach, no profile that is selected is the minimal one, whatever
-- case that is written in.
pub Reach-HasExtras : {cfg : Settings} {x : System} → Reach cfg x → HasExtras x.state
Reach-HasExtras (here mode fetch dry_run) = tt
Reach-HasExtras (later r st) = Step-HasExtras st (Reach-HasExtras r)
