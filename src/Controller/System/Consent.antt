-- ===== src/Controller/System/Consent.antt =====
-- No work on a device without an answer for it: prompts are answered once, by one front end.
use flipperos_installer.Base.{
  ℕ, ◌+◌, ◌≤◌, ◌≡◌, refl, true, false, List, ◌∷◌, ◌++◌, Option, none, some, All, total,
  total-append, All-append, All-before, All-behind, arith, subst, ap,
}
use flipperos_installer.Provision.Compare.{Target, is_provisioned}
use flipperos_installer.Model.{with_all_profiles, AppState, Prompt}
use flipperos_installer.Controller.{
  Settings, Job, Event, raised, confirmed, forced, started, Turn, resolved, unresolved,
  probe_failed, probed, published, dismissed, request_failed, request_probed, answered, checked,
  provision_started, apply_failed, applied, storage_listed, relisted, ended, install_started,
  install_failed, installed, prompt_target, after_publish, start_reprovision, start_install,
  confirm_prompt, publishing, dismissing, checking,
}
use flipperos_installer.Controller.Sections.{
  devices_listed, push_log, devices_found, sources_refreshed, catalog_listed, channels_loaded,
  builds_begun, builds_loaded, dirs_begun, dirs_loaded,
}
use flipperos_installer.Controller.Choices.{
  publish, answer_request, take_prompt, bundle_selected, uboot_selected, boot_menu_selected,
  recovery_selected, snapshot_selected, bundle_loaded, profiles_loaded, uboot_loaded,
  boot_menu_loaded, recovery_loaded, snapshot_details_loaded, toggle_profile, select_all_profiles,
  device_selected,
}
use flipperos_installer.Controller.System.{
  System, Step, turn, called, Reach, here, later, call, Update, update, updates, device_choice,
  default_check, blank_device, prompt_confirmed, prompt_dismissed, reprovision_request,
  install_request, log_line,
}

update-prompt : (u : Update) (s : AppState) → (update u s).prompt ≡ s.prompt
unfolding update push_log devices_found sources_refreshed catalog_listed channels_loaded
    builds_begun builds_loaded dirs_begun dirs_loaded bundle_selected uboot_selected
    boot_menu_selected recovery_selected snapshot_selected bundle_loaded profiles_loaded
    uboot_loaded boot_menu_loaded recovery_loaded snapshot_details_loaded toggle_profile
    select_all_profiles with_all_profiles
update-prompt (log_line t) s = refl
update-prompt u s = ground arith

-- Weighs the events and the threads that concern a target.
module _ (w : Target → ℕ) where
  abbrev pub raised_weight : Event → ℕ
  raised_weight (raised status) = w status.target
  raised_weight _ = 0

  abbrev pub confirmed_weight : Event → ℕ
  confirmed_weight (confirmed t) = w t
  confirmed_weight _ = 0

  abbrev pub forced_weight : Event → ℕ
  forced_weight (forced status) = w status.target
  forced_weight _ = 0

  abbrev pub started_weight : Event → ℕ
  started_weight (started t) = w t
  started_weight _ = 0

  -- A thread that has an answer and has not been let through or refused
  abbrev due_weight : Job → ℕ
  due_weight (dismissing t inner) = w t
  due_weight (checking t inner) = w t
  due_weight _ = 0

  abbrev prompt_weight : Option Prompt → ℕ
  prompt_weight none = 0
  prompt_weight (some p) = w (prompt_target p.kind)

-- A prompt is raised, and `--reprovision-ufs` speaks, only for a device that was read and is not
-- provisioned; the latter only where the option was given.
abbrev pub Justified : Settings → Event → Type 0
Justified cfg (raised status) = is_provisioned status ≡ false
Justified cfg (forced status) = (is_provisioned status ≡ false) × (cfg.ufs_reprovision ≡ true)
Justified cfg _ = Unit {0}

-- A thread publishes only a status of its own target.
abbrev IsOwn : Job → Type 0
IsOwn (publishing t offer inner status) = status.target ≡ t
IsOwn _ = Unit {0}

record Inv (cfg : Settings) (w : Target → ℕ) (x : System) : Type 0 where
  own : All IsOwn x.jobs
  justified : All (Justified cfg) x.trace
  confirmed_le :
      total (confirmed_weight w) x.trace + prompt_weight w x.state.prompt
      ≤ total (raised_weight w) x.trace
  started_le :
      total (started_weight w) x.trace + total (due_weight w) x.jobs
      ≤ total (confirmed_weight w) x.trace + total (forced_weight w) x.trace

-- What a turn adds keeps the balance of what the thread carried.
record Balanced (cfg : Settings) (w : Target → ℕ) (s : AppState) (j : Job) (s' : AppState)
    (js : List Job) (es : List Event) : Type 0 where
  own : IsOwn j → All IsOwn js
  justified : IsOwn j → All (Justified cfg) es
  confirmed_le :
      IsOwn j
      → total (confirmed_weight w) es + prompt_weight w s'.prompt
        ≤ total (raised_weight w) es + prompt_weight w s.prompt
  started_le :
      IsOwn j
      → total (started_weight w) es + total (due_weight w) js
        ≤ total (confirmed_weight w) es + total (forced_weight w) es + due_weight w j

Turn-Balanced :
    {cfg : Settings} (w : Target → ℕ) {s s' : AppState} {j : Job} {js : List Job} {es : List Event}
    → Turn cfg s j s' js es
    → Balanced cfg w s j s' js es
unfolding after_publish start_reprovision publish answer_request take_prompt devices_listed
Turn-Balanced w (resolved t h) = ground arith
Turn-Balanced w unresolved = ground arith
Turn-Balanced w probe_failed = ground arith
Turn-Balanced w (probed status h) = ground arith
Turn-Balanced w published = ground arith
Turn-Balanced w dismissed = ground arith
Turn-Balanced w request_failed = ground arith
Turn-Balanced w (request_probed status h) = ground arith
Turn-Balanced w answered = ground arith
Turn-Balanced w checked = ground arith
Turn-Balanced w provision_started = ground arith
Turn-Balanced w (apply_failed e) = ground arith
Turn-Balanced w applied = ground arith
Turn-Balanced w (storage_listed devices) = ground arith
Turn-Balanced w (relisted again) = ground arith
Turn-Balanced w ended = ground arith
Turn-Balanced w install_started = ground arith
Turn-Balanced w (install_failed e) = ground arith
Turn-Balanced w installed = ground arith

module _ {cfg : Settings} (w : Target → ℕ) where
  Turn-Inv :
      {x : System} (before : List Job) {j : Job} (after : List Job) {s : AppState} {js : List Job}
      {es : List Event}
      → x.jobs ≡ before ++ (j ∷ after)
      → Turn cfg x.state j s js es
      → Inv cfg w x
      → Inv cfg w (record { state = s; jobs = before ++ (js ++ after); trace = es ++ x.trace })
  Turn-Inv {x} before {j} after {s} {js} {es} e mv inv = record {
    own =
        All-append IsOwn before (js ++ after) (All-before IsOwn before (j ∷ after) owned)
          (All-append IsOwn js after (kept.own mine) (All-behind IsOwn before (j ∷ after) owned).1);
    justified = All-append (Justified cfg) es x.trace (kept.justified mine) inv.justified;
    confirmed_le = omega (
      arith,
      kept.confirmed_le mine,
      inv.confirmed_le,
      total-append {0} (confirmed_weight w) es x.trace,
      total-append {0} (raised_weight w) es x.trace,
    );
    started_le = omega (
      arith,
      kept.started_le mine,
      inv.started_le,
      ap (total (due_weight w)) e,
      total-append {0} (due_weight w) before (j ∷ after),
      total-append {0} (due_weight w) before (js ++ after),
      total-append {0} (due_weight w) js after,
      total-append {0} (started_weight w) es x.trace,
      total-append {0} (confirmed_weight w) es x.trace,
      total-append {0} (forced_weight w) es x.trace,
    );
  }
    where
      owned : All IsOwn (before ++ (j ∷ after))
      owned = subst (All IsOwn) e inv.own

      mine : IsOwn j
      mine = (All-behind IsOwn before (j ∷ after) owned).0

      kept : Balanced cfg w x.state j s js es
      kept = Turn-Balanced w mv

  Step-Inv : {x y : System} → Step cfg x y → Inv cfg w x → Inv cfg w y
  unfolding call confirm_prompt take_prompt start_install device_selected
  Step-Inv (turn before after e mv) inv = Turn-Inv before after e mv inv
  Step-Inv {x} (called (updates u)) inv = ground (arith, update-prompt u x.state)
  Step-Inv (called (device_choice path)) inv = ground arith
  Step-Inv {x} (called default_check) inv = ground arith
  Step-Inv (called (blank_device t)) inv = ground arith
  Step-Inv (called prompt_confirmed) inv = ground arith
  Step-Inv (called prompt_dismissed) inv = ground arith
  Step-Inv (called (reprovision_request t)) inv = ground arith
  Step-Inv (called install_request) inv = ground arith

  Reach-Inv : {x : System} → Reach cfg x → Inv cfg w x
  Reach-Inv (here mode fetch dry_run) = omega arith
  Reach-Inv (later r st) = Step-Inv st (Reach-Inv r)

-- The trace of a run: every reprovision that is let through answers for a prompt or an option.
pub record IsConsented (cfg : Settings) (trace : List Event) : Type 0 where
  pub justified : All (Justified cfg) trace
  pub answered_once :
      (w : Target → ℕ) → total (confirmed_weight w) trace ≤ total (raised_weight w) trace
  pub started_once :
      (w : Target → ℕ)
      → total (started_weight w) trace
        ≤ total (confirmed_weight w) trace + total (forced_weight w) trace

-- However the threads and the two front ends interleave: a target is worked on at most as often as
-- prompts for it were confirmed and `--reprovision-ufs` spoke for it; prompts for it are confirmed at
-- most as often as they were raised; and both the prompts and the option concern only devices whose
-- probe found them not provisioned, the option only where it was given.
pub Reach-IsConsented : {cfg : Settings} {x : System} → Reach cfg x → IsConsented cfg x.trace
Reach-IsConsented r = record {
  justified = (Reach-Inv (λ _. 0) r).justified;
  answered_once = λ w. omega (arith, (Reach-Inv w r).confirmed_le);
  started_once = λ w. omega (arith, (Reach-Inv w r).started_le);
}
