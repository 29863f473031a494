-- ===== src/Controller/System/Exclusive.antt =====
-- When two works on devices can run together, and when they cannot.
use flipperos_installer.Base.{
  ℕ, ◌+◌, ◌≤◌, ◌≡◌, refl, ap, Bool, true, false, List, [], ◌∷◌, ◌++◌, if◌then◌else◌, total,
  total-append, arith,
}
use flipperos_installer.Model.{
  with_all_profiles, AppState, InstallMode, FetchMode, Phase, provisioning, installing, is_busy,
  can_install,
}
use flipperos_installer.Controller.{
  Settings, Job, Event, Turn, resolved, unresolved, probe_failed, probed, published, dismissed,
  request_failed, request_probed, answered, checked, provision_started, apply_failed, applied,
  storage_listed, relisted, ended, install_started, install_failed, installed, after_publish,
  start_reprovision, start_install, confirm_prompt, publishing, dismissing, checking, probing,
  provision_starting, install_starting, applying, relisting, listed, ending, installing_now,
}
use flipperos_installer.Controller.Sections.{
  devices_listed, push_log, devices_found, sources_refreshed, catalog_listed, channels_loaded,
  builds_begun, builds_loaded, dirs_begun, dirs_loaded, set_phase,
}
use flipperos_installer.Controller.Choices.{
  publish, answer_request, take_prompt, bundle_selected, uboot_selected, boot_menu_selected,
  recovery_selected, snapshot_selected, bundle_loaded, profiles_loaded, uboot_loaded,
  boot_menu_loaded, recovery_loaded, snapshot_details_loaded, toggle_profile, select_all_profiles,
  device_selected,
}
use flipperos_installer.Controller.System.{
  System, Step, turn, called, start, call, Update, update, updates, device_choice, default_check,
  blank_device, prompt_confirmed, prompt_dismissed, reprovision_request, install_request, log_line,
  discovery_begun,
}

-- A thread that was let through and has not set the phase yet.
abbrev pub is_starting : Job → ℕ
is_starting (provision_starting t) = 1
is_starting install_starting = 1
is_starting _ = 0

-- A thread between its two phases: at work on a device, or about to say how that ended.
abbrev pub is_working : Job → ℕ
is_working (probing t offer inner) = if inner then 1 else 0
is_working (publishing t offer inner status) = if inner then 1 else 0
is_working (dismissing t inner) = if inner then 1 else 0
is_working (checking t inner) = if inner then 1 else 0
is_working (applying t) = 1
is_working (relisting t) = 1
is_working (listed t preferred devices) = 1
is_working (ending last) = 1
is_working installing_now = 1
is_working _ = 0

-- The phases that such a thread sets.
abbrev working_phase : Phase → Bool
working_phase provisioning = true
working_phase installing = true
working_phase _ = false

-- The first thing that `discover` does, which is to set the phase
abbrev pub begins_discovery : {cfg : Settings} {x y : System} → Step cfg x y → Bool
begins_discovery (turn before after e mv) = false
begins_discovery (called (updates discovery_begun)) = true
begins_discovery (called c) = false

-- The runs in which no two threads are let through before the first of them has set the phase, and in
-- which `discover` does not begin while a thread is at work.
pub data CalmReach (cfg : Settings) : System → Type 0 where
  calm_start :
      (mode : InstallMode) (fetch : FetchMode) (dry_run : Bool)
      → CalmReach cfg (start mode fetch dry_run)
  calm_later :
      {x y : System}
      → CalmReach cfg x
      → (st : Step cfg x y) → total is_starting y.jobs ≤ 1
      → (begins_discovery st ≡ true → total is_working x.jobs ≡ 0)
      → CalmReach cfg y

record Inv (x : System) : Type 0 where
  few : total is_starting x.jobs + total is_working x.jobs ≤ 1
  marked : 1 ≤ total is_working x.jobs → working_phase x.state.phase ≡ true

-- What a turn does to the threads at work and to the phase.
record Moved (s : AppState) (j : Job) (s' : AppState) (js : List Job) : Type 0 where
  kept :
      (1 ≤ is_working j → working_phase s.phase ≡ true)
      → 1 ≤ is_starting j + is_working j
      → total is_starting js + total is_working js ≤ is_starting j + is_working j
  marked :
      (1 ≤ is_working j → working_phase s.phase ≡ true)
      → 1 ≤ total is_working js
      → working_phase s'.phase ≡ true
  quiet : is_starting j + is_working j ≡ 0 → total is_working js ≡ 0
  refused :
      is_starting j + is_working j ≡ 0 → working_phase s.phase ≡ true → total is_starting js ≡ 0
  same : is_starting j + is_working j ≡ 0 → s'.phase ≡ s.phase

Turn-Moved :
    {cfg : Settings} {s s' : AppState} {j : Job} {js : List Job} {es : List Event}
    → Turn cfg s j s' js es
    → Moved s j s' js
unfolding after_publish start_reprovision publish answer_request take_prompt devices_listed
Turn-Moved (resolved t h) = ground arith
Turn-Moved unresolved = ground arith
Turn-Moved probe_failed = ground arith
Turn-Moved (probed status h) = ground arith
Turn-Moved published = ground arith
Turn-Moved dismissed = ground arith
Turn-Moved request_failed = ground arith
Turn-Moved (request_probed status h) = ground arith
Turn-Moved answered = ground arith
Turn-Moved checked = ground arith
Turn-Moved provision_started = ground arith
Turn-Moved (apply_failed e) = ground arith
Turn-Moved applied = ground arith
Turn-Moved (storage_listed devices) = ground arith
Turn-Moved (relisted again) = ground arith
Turn-Moved ended = ground arith
Turn-Moved install_started = ground arith
Turn-Moved (install_failed e) = ground arith
Turn-Moved installed = ground arith

abbrev is_begun : Update → Bool
is_begun discovery_begun = true
is_begun _ = false

-- But for the begin of the discovery, only the end of a refresh changes the phase, from discovering.
update-working :
    (u : Update) (s : AppState)
    → is_begun u ≡ false
    → working_phase s.phase ≡ true
    → working_phase (update u s).phase ≡ true
unfolding update push_log devices_found sources_refreshed catalog_listed channels_loaded
    builds_begun builds_loaded dirs_begun dirs_loaded bundle_selected uboot_selected
    boot_menu_selected recovery_selected snapshot_selected bundle_loaded profiles_loaded
    uboot_loaded boot_menu_loaded recovery_loaded snapshot_details_loaded toggle_profile
    select_all_profiles with_all_profiles
update-working (log_line t) s n h = h
update-working discovery_begun s n h = cc
update-working u s n h = ground arith

Turn-Inv :
    {cfg : Settings} {x : System} (before : List Job) {j : Job} (after : List Job) {s : AppState}
    {js : List Job} {es : List Event}
    → x.jobs ≡ before ++ (j ∷ after)
    → Turn cfg x.state j s js es
    → total is_starting (before ++ (js ++ after)) ≤ 1
    → Inv x
    → Inv (record { state = s; jobs = before ++ (js ++ after); trace = es ++ x.trace })
Turn-Inv {x} before {j} after {s} {js} {es} e mv calm inv = ground (
  arith,
  moved.kept,
  moved.marked,
  moved.quiet,
  moved.refused,
  moved.same,
  inv.few,
  ap (total is_starting) e,
  ap (total is_working) e,
  total-append {0} is_starting before (j ∷ after),
  total-append {0} is_starting before (js ++ after),
  total-append {0} is_starting js after,
  total-append {0} is_working before (j ∷ after),
  total-append {0} is_working before (js ++ after),
  total-append {0} is_working js after,
)
  where
    moved : Moved x.state j s js
    moved = Turn-Moved mv

Step-Inv :
    {cfg : Settings} {x y : System} (st : Step cfg x y)
    → total is_starting y.jobs ≤ 1
    → (begins_discovery st ≡ true → total is_working x.jobs ≡ 0)
    → Inv x
    → Inv y
unfolding call confirm_prompt take_prompt start_install device_selected
Step-Inv (turn before after e mv) calm b inv = Turn-Inv before after e mv calm inv
Step-Inv {x} (called (updates discovery_begun)) calm b inv = ground arith
Step-Inv {x} (called (updates u)) calm b inv = ground (arith, update-working u x.state)
Step-Inv (called (device_choice path)) calm b inv = ground arith
Step-Inv (called default_check) calm b inv = ground arith
Step-Inv (called (blank_device t)) calm b inv = ground arith
Step-Inv (called prompt_confirmed) calm b inv = ground arith
Step-Inv (called prompt_dismissed) calm b inv = ground arith
Step-Inv (called (reprovision_request t)) calm b inv = ground arith
Step-Inv {x} (called install_request) calm b inv = ground arith

CalmReach-Inv : {cfg : Settings} {x : System} → CalmReach cfg x → Inv x
CalmReach-Inv (calm_start mode fetch dry_run) = ground arith
CalmReach-Inv (calm_later r st calm b) = Step-Inv st calm b (CalmReach-Inv r)

-- In a run in which no two threads are let through before the first of them has set the phase, and
-- `discover` does not begin while a thread is at work: at most one thread is let through or at work on a
-- device at any time, be it to reprovision or to install; and while one is at work the phase says so.
pub work_alone :
    {cfg : Settings} {x : System}
    → CalmReach cfg x
    → (total is_starting x.jobs + total is_working x.jobs ≤ 1)
      × (1 ≤ total is_working x.jobs → is_busy x.state.phase ≡ true)
unfolding is_busy
work_alone {x} r = let inv = CalmReach-Inv r in (inv.few, λ h. ground (arith, inv.marked h))

-- Wherever an install can start, two requests in a row let two threads through, since the test of the
-- phase and its change are two uses of the lock; once the first of the two has set the phase, a
-- further request lets none through.
pub start_install_race :
    (cfg : Settings) (s : AppState)
    → can_install s ≡ true
    → ((call cfg install_request s).1 ≡ install_starting ∷ [])
      × ((call cfg install_request (call cfg install_request s).0).1 ≡ install_starting ∷ [])
      × ((call cfg install_request (set_phase installing s)).1 ≡ [])
unfolding call start_install can_install is_busy
start_install_race cfg s h = (ground arith, ground arith, refl)
