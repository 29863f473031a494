-- ===== src/Controller/System/Early.antt =====
-- What can happen before the first refresh has ended.
use flipperos_installer.Base.{
  ℕ, ◌+◌, ◌≡◌, ap, Bool, true, false, List, ◌∷◌, ◌++◌, total, total-append, arith,
}
use flipperos_installer.Model.{with_all_profiles, AppState, InstallMode, FetchMode, discovering}
use flipperos_installer.Controller.{
  Settings, Job, Event, started, Turn, resolved, unresolved, probe_failed, probed, published,
  dismissed, request_failed, request_probed, answered, checked, provision_started, apply_failed,
  applied, storage_listed, relisted, ended, install_started, install_failed, installed,
  after_publish, start_reprovision, start_install, confirm_prompt,
}
use flipperos_installer.Controller.Sections.{
  devices_listed, push_log, devices_found, sources_refreshed, catalog_listed, channels_loaded,
  builds_begun, builds_loaded, dirs_begun, dirs_loaded,
}
use flipperos_installer.Controller.Choices.{
  publish, answer_request, take_prompt, bundle_selected, uboot_selected, boot_menu_selected,
  recovery_selected, snapshot_selected, bundle_loaded, profiles_loaded, uboot_loaded,
  boot_menu_loaded, recovery_loaded, snapshot_details_loaded, toggle_profile, select_all_profiles,
  device_selected,
}
use flipperos_installer.Controller.System.{
  System, start, Call, call, Update, update, updates, device_choice, default_check, blank_device,
  prompt_confirmed, prompt_dismissed, reprovision_request, install_request, log_line, refreshed,
}
use flipperos_installer.Controller.System.Exclusive.{is_starting, is_working}

-- The end of `refresh_sources`, the only call that ends the discovery.
abbrev pub ends_discovery : Call → Bool
ends_discovery (updates refreshed) = true
ends_discovery _ = false

-- The runs in which no refresh has ended.
pub data EarlyReach (cfg : Settings) : System → Type 0 where
  early_start :
      (mode : InstallMode) (fetch : FetchMode) (dry_run : Bool)
      → EarlyReach cfg (start mode fetch dry_run)
  early_turn :
      {x : System} (before : List Job) {j : Job} (after : List Job) {s : AppState} {js : List Job}
      {es : List Event}
      → EarlyReach cfg x
      → x.jobs ≡ before ++ (j ∷ after)
      → Turn cfg x.state j s js es
      → EarlyReach cfg (record { state = s; jobs = before ++ (js ++ after); trace = es ++ x.trace })
  early_call :
      {x : System} (c : Call)
      → EarlyReach cfg x
      → ends_discovery c ≡ false
      → EarlyReach cfg (record {
        state = (call cfg c x.state).0;
        jobs = (call cfg c x.state).1 ++ x.jobs;
        trace = (call cfg c x.state).2 ++ x.trace;
      })

abbrev pub is_start : Event → ℕ
is_start (started t) = 1
is_start _ = 0

-- A thread that has been let through, now or before.
abbrev pub at_work : Job → ℕ
at_work j = is_starting j + is_working j

record Inv (x : System) : Type 0 where
  phase : x.state.phase ≡ discovering
  idle : total at_work x.jobs ≡ 0
  unstarted : total is_start x.trace ≡ 0

record Kept (s : AppState) (j : Job) (s' : AppState) (js : List Job) (es : List Event)
    : Type 0 where
  phase : s.phase ≡ discovering → at_work j ≡ 0 → s'.phase ≡ discovering
  idle : s.phase ≡ discovering → at_work j ≡ 0 → total at_work js ≡ 0
  unstarted : s.phase ≡ discovering → at_work j ≡ 0 → total is_start es ≡ 0

Turn-Kept :
    {cfg : Settings} {s s' : AppState} {j : Job} {js : List Job} {es : List Event}
    → Turn cfg s j s' js es
    → Kept s j s' js es
unfolding after_publish start_reprovision publish answer_request take_prompt devices_listed
Turn-Kept (resolved t h) = ground arith
Turn-Kept unresolved = ground arith
Turn-Kept probe_failed = ground arith
Turn-Kept (probed status h) = ground arith
Turn-Kept published = ground arith
Turn-Kept dismissed = ground arith
Turn-Kept request_failed = ground arith
Turn-Kept (request_probed status h) = ground arith
Turn-Kept answered = ground arith
Turn-Kept checked = ground arith
Turn-Kept provision_started = ground arith
Turn-Kept (apply_failed e) = ground arith
Turn-Kept applied = ground arith
Turn-Kept (storage_listed devices) = ground arith
Turn-Kept (relisted again) = ground arith
Turn-Kept ended = ground arith
Turn-Kept install_started = ground arith
Turn-Kept (install_failed e) = ground arith
Turn-Kept installed = ground arith

update-phase :
    (u : Update) (s : AppState)
    → ends_discovery (updates u) ≡ false
    → s.phase ≡ discovering
    → (update u s).phase ≡ discovering
unfolding update push_log devices_found sources_refreshed catalog_listed channels_loaded
    builds_begun builds_loaded dirs_begun dirs_loaded bundle_selected uboot_selected
    boot_menu_selected recovery_selected snapshot_selected bundle_loaded profiles_loaded
    uboot_loaded boot_menu_loaded recovery_loaded snapshot_details_loaded toggle_profile
    select_all_profiles with_all_profiles
update-phase (log_line t) s h e = e
update-phase u s h e = ground arith

call-Inv :
    (cfg : Settings) {x : System} (c : Call)
    → ends_discovery c ≡ false
    → Inv x
    → Inv (record {
      state = (call cfg c x.state).0;
      jobs = (call cfg c x.state).1 ++ x.jobs;
      trace = (call cfg c x.state).2 ++ x.trace;
    })
unfolding call confirm_prompt take_prompt start_install device_selected
call-Inv cfg {x} (updates u) h inv = ground (arith, update-phase u x.state h inv.phase)
call-Inv cfg (device_choice path) h inv = ground arith
call-Inv cfg default_check h inv = ground arith
call-Inv cfg (blank_device t) h inv = ground arith
call-Inv cfg prompt_confirmed h inv = ground arith
call-Inv cfg prompt_dismissed h inv = ground arith
call-Inv cfg (reprovision_request t) h inv = ground arith
call-Inv cfg install_request h inv = ground arith

Turn-Inv :
    {cfg : Settings} {x : System} (before : List Job) {j : Job} (after : List Job) {s : AppState}
    {js : List Job} {es : List Event}
    → x.jobs ≡ before ++ (j ∷ after)
    → Turn cfg x.state j s js es
    → Inv x
    → Inv (record { state = s; jobs = before ++ (js ++ after); trace = es ++ x.trace })
Turn-Inv {x} before {j} after {s} {js} {es} e mv inv = ground (
  arith,
  kept.phase,
  kept.idle,
  kept.unstarted,
  ap (total at_work) e,
  total-append {0} at_work before (j ∷ after),
  total-append {0} at_work before (js ++ after),
  total-append {0} at_work js after,
  total-append {0} is_start es x.trace,
)
  where
    kept : Kept x.state j s js es
    kept = Turn-Kept mv

Early-Inv : {cfg : Settings} {x : System} → EarlyReach cfg x → Inv x
Early-Inv (early_start mode fetch dry_run) = ground arith
Early-Inv (early_turn before after r e mv) = Turn-Inv before after e mv (Early-Inv r)
Early-Inv (early_call c r h) = call-Inv _ c h (Early-Inv r)

-- Until the first refresh has ended, no thread is let through to reprovision or to install, whoever
-- asks, be it a confirmed prompt or `--reprovision-ufs`.
pub early_refused :
    {cfg : Settings} {x : System}
    → EarlyReach cfg x
    → (total at_work x.jobs ≡ 0) × (total is_start x.trace ≡ 0)
early_refused r = let inv = Early-Inv r in (inv.idle, inv.unstarted)
