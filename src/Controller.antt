-- ===== src/Controller.antt =====
-- src/core/controller.rs: the state behind the lock, the worker threads, and the two front ends. A
-- thread runs from one use of the lock to the next; in between, any other may run.
pub mod Sections
pub mod Choices
pub mod System
pub mod Activity
use flipperos_installer.Base.{
  ℕ, ◌≡◌, Bool, true, false, not, ◌&&◌, List, [], ◌∷◌, ◌++◌, Option, none, some, Text, codes,
  if◌then◌else◌, is_some,
}
use flipperos_installer.Storage.{StorageDevice}
use flipperos_installer.Board.{BoardInfo}
use flipperos_installer.Provision.Compare.{Target, Status, is_provisioned}
use flipperos_installer.Model.{
  AppState, Phase, discovering, ready, provisioning, installing, done, failed, is_busy, can_install,
  Prompt, PromptKind, reprovision_ufs,
}
use Sections.{push_log, set_phase, devices_found, devices_listed, sources_refreshed}
use Choices.{
  Offer, offered, report_only, publish, answer_request, take_prompt, prompt_for, is_current,
  is_ufs_device, device_selected, reprovision_prompt,
}

-- The settings that the threads read.
pub record Settings : Type 0 where
  pub ufs_check : Bool
  pub ufs_reprovision : Bool

-- A thread, by what it does next. `inner` tells `probe_ufs` at the end of `rediscover_storage` from
-- one on a thread of its own.
pub data Job : Type 0 where
  -- `check_ufs_provisioning`, before its snapshot
  resolving : (path : Text) (offer : Offer) → Job
  -- `probe_ufs`: before the probe, before its result is published, and before the prompt is taken
  -- down for `--reprovision-ufs`
  probing : (t : Target) (offer : Offer) (inner : Bool) → Job
  publishing : (t : Target) (offer : Offer) (inner : Bool) (status : Status) → Job
  dismissing : (t : Target) (inner : Bool) → Job
  -- `request_reprovision`: before the probe, and before its answer is shown
  asking : (t : Target) → Job
  answering : (status : Status) → Job
  -- `start_reprovision`: before its test of the phase, before its thread sets the phase, during
  -- `apply`, before `rediscover_storage` has listed the devices, before it puts them into the state,
  -- and before the last phase
  checking : (t : Target) (inner : Bool) → Job
  provision_starting : (t : Target) → Job
  applying : (t : Target) → Job
  relisting : (t : Target) → Job
  listed : (t : Target) (preferred : Option Text) (devices : List StorageDevice) → Job
  ending : (last : Phase) → Job
  -- `start_install`: before its thread sets the phase, and during `install::run`
  install_starting : Job
  installing_now : Job

-- What follows `probe_ufs`.
abbrev pub resumed : Bool → List Job
resumed inner = if inner then ending ready ∷ [] else []

-- What `probe_ufs` does once the status is published.
unfoldable pub after_publish : Settings → Target → Bool → Status → List Job
after_publish cfg t inner status =
    if not (is_provisioned status) && cfg.ufs_reprovision
    then dismissing t inner ∷ []
    else resumed inner

-- The test in `start_reprovision`, on its snapshot
unfoldable pub start_reprovision : Target → AppState → List Job
unfolding is_busy
start_reprovision t s = if is_busy s.phase then [] else provision_starting t ∷ []

-- `start_install`, up to its thread
unfoldable pub start_install : AppState → List Job
unfolding can_install
start_install s = if can_install s then install_starting ∷ [] else []

abbrev pub prompt_target : PromptKind → Target
prompt_target (reprovision_ufs t) = t

abbrev pub answer_prompt : Option Prompt → List Job
answer_prompt none = []
answer_prompt (some p) = checking (prompt_target p.kind) false ∷ []

-- `confirm_prompt`, up to the test in `start_reprovision`
unfoldable pub confirm_prompt : AppState → AppState × List Job
unfolding take_prompt
confirm_prompt s = ((take_prompt s).0, answer_prompt (take_prompt s).1)

abbrev pub dismiss_prompt : AppState → AppState
unfolding take_prompt
dismiss_prompt s = (take_prompt s).0

-- What happened that matters for a reprovision: a prompt was raised from a status or confirmed,
-- `--reprovision-ufs` spoke for a status, a thread was let through to work on a target.
pub data Event : Type 0 where
  raised : Status → Event
  confirmed : Target → Event
  forced : Status → Event
  started : Target → Event

abbrev pub starts : List Job → List Event
starts [] = []
starts (provision_starting t ∷ js) = started t ∷ starts js
starts (j ∷ js) = starts js

abbrev pub raises : Bool → Status → List Event
raises shown status = if shown then raised status ∷ [] else []

abbrev pub forces : Settings → Status → List Event
forces cfg status =
    if not (is_provisioned status) && cfg.ufs_reprovision then forced status ∷ [] else []

abbrev pub confirms : Option Prompt → List Event
confirms none = []
confirms (some p) = confirmed (prompt_target p.kind) ∷ []

-- One turn of a thread: the state and the thread before, the state and the threads after it, and the
-- events. What it is told by the device, the disks or the installation is left open.
pub data Turn (cfg : Settings) (s : AppState)
    : Job → AppState → List Job → List Event → Type 0 where
  resolved :
      {path : Text} {offer : Offer} (t : Target)
      → is_ufs_device path s ≡ true
      → Turn cfg s (resolving path offer) s (probing t offer false ∷ []) []
  unresolved : {path : Text} {offer : Offer} → Turn cfg s (resolving path offer) s [] []
  probe_failed :
      {t : Target} {offer : Offer} {inner : Bool}
      → Turn cfg s (probing t offer inner) s (resumed inner) []
  probed :
      {t : Target} {offer : Offer} {inner : Bool} (status : Status)
      → status.target ≡ t
      → Turn cfg s (probing t offer inner) s (publishing t offer inner status ∷ []) []
  published :
      {t : Target} {offer : Offer} {inner : Bool} {status : Status}
      → Turn cfg s
          (publishing t offer inner status)
          (publish t offer status s)
          (after_publish cfg t inner status)
          (raises (is_current t s && is_some (prompt_for offer status)) status ++ forces cfg status)
  dismissed :
      {t : Target} {inner : Bool}
      → Turn cfg s (dismissing t inner) (dismiss_prompt s) (checking t inner ∷ []) []
  request_failed : {t : Target} → Turn cfg s (asking t) s [] []
  request_probed :
      {t : Target} (status : Status)
      → status.target ≡ t
      → Turn cfg s (asking t) s (answering status ∷ []) []
  answered :
      {status : Status}
      → Turn cfg s
          (answering status)
          (answer_request status s)
          []
          (raises (not (is_provisioned status)) status)
  checked :
      {t : Target} {inner : Bool}
      → Turn cfg s
          (checking t inner)
          s
          (start_reprovision t s ++ resumed inner)
          (starts (start_reprovision t s))
  provision_started :
      {t : Target}
      → Turn cfg s (provision_starting t) (set_phase provisioning s) (applying t ∷ []) []
  apply_failed : {t : Target} (e : Text) → Turn cfg s (applying t) s (ending (failed e) ∷ []) []
  applied : {t : Target} → Turn cfg s (applying t) s (relisting t ∷ []) []
  storage_listed :
      {t : Target} (devices : List StorageDevice)
      → Turn cfg s (relisting t) s (listed t s.selection.target_device devices ∷ []) []
  relisted :
      {t : Target} {preferred : Option Text} {devices : List StorageDevice} (again : Target)
      → Turn cfg s
          (listed t preferred devices)
          (devices_listed preferred devices s)
          (probing again report_only true ∷ [])
          []
  ended : {last : Phase} → Turn cfg s (ending last) (set_phase last s) [] []
  install_started : Turn cfg s install_starting (set_phase installing s) (installing_now ∷ []) []
  install_failed : (e : Text) → Turn cfg s installing_now s (ending (failed e) ∷ []) []
  installed : Turn cfg s installing_now s (ending done ∷ []) []
