-- ===== src/Tests/Control.antt =====
-- The controller in concrete runs.
use flipperos_installer.Base.{◌+◌, ◌≤◌, ◌≡◌, refl, true, false, [], ◌∷◌, codes, arith, total}
use flipperos_installer.Model.{custom, verify_first, is_busy}
use flipperos_installer.Provision.Compare.{Status, is_provisioned, boot_feature, number}
use flipperos_installer.Controller.{
  Settings, started, confirmed, raised, provision_started, confirm_prompt, start_reprovision,
  after_publish, probed, published, checked, request_probed, answered,
}
use flipperos_installer.Controller.Choices.{take_prompt, answer_request, reprovision_prompt}
use flipperos_installer.Controller.Sections.{sources_refreshed}
use flipperos_installer.Controller.System.{
  System, Step, turn, called, start, Reach, here, later, call, updates, update, blank_device,
  refreshed, reprovision_request, prompt_confirmed, profile_choice,
}
use flipperos_installer.Controller.System.Consent.{IsConsented, Reach-IsConsented}
use flipperos_installer.Controller.System.Exclusive.{
  CalmReach, calm_start, calm_later, begins_discovery, is_starting, is_working, work_alone,
}
use flipperos_installer.Controller.System.Early.{
  EarlyReach, early_start, early_call, early_turn, at_work, is_start, early_refused,
}
use flipperos_installer.Controller.System.Profiles.{HasExtras, Reach-HasExtras}
use flipperos_installer.Tests.Device.{device, factory_status}

abbrev plain : Settings
plain = record { ufs_check = true; ufs_reprovision = false }

-- A calm run, by the state that it reaches.
abbrev Run : Type 0
Run = (x : System) × Reach plain x × CalmReach plain x

abbrev begun : Run
begun = (
  start custom verify_first false,
  here custom verify_first false,
  calm_start custom verify_first false,
)

abbrev steps :
    (r : Run) {y : System} (st : Step plain r.0 y)
    → total is_starting y.jobs ≤ 1
    → (begins_discovery st ≡ true → total is_working r.0.jobs ≡ 0)
    → Run
steps (x, r, c) {y} st calm b = (y, later r st, calm_later c st calm b)

-- The device with one mismatch that matters.
abbrev unfit_status : Status
unfit_status = record factory_status {
  mismatches =
      record {
        subject = boot_feature;
        want = number 1;
        have = number 0;
        critical = true;
        descriptor_write = true;
      }
      ∷ [];
}

asked : Run
unfolding call update sources_refreshed
asked =
    steps
      (steps (steps begun (called (updates refreshed)) (omega arith) (λ p. cc))
        (called (reprovision_request device)) (omega arith) (λ p. cc))
      (turn [] [] refl (request_probed unfit_status refl)) (omega arith) (λ p. cc)

agreed : Run
unfolding asked call update sources_refreshed confirm_prompt take_prompt answer_request
    is_provisioned reprovision_prompt
agreed =
    steps (steps asked (turn [] [] refl answered) (omega arith) (λ p. cc)) (called prompt_confirmed)
      (omega arith) (λ p. cc)

at_work_run : Run
unfolding asked agreed call update sources_refreshed confirm_prompt take_prompt answer_request
    is_provisioned reprovision_prompt start_reprovision is_busy
at_work_run =
    steps (steps agreed (turn [] [] refl checked) (omega arith) (λ p. cc))
      (turn [] [] refl provision_started) (omega arith) (λ p. cc)

consented_trace : at_work_run.0.trace ≡ started device ∷ confirmed device ∷ raised unfit_status ∷ []
unfolding at_work_run asked agreed call update sources_refreshed confirm_prompt take_prompt
    answer_request is_provisioned reprovision_prompt start_reprovision is_busy
consented_trace = refl

Reach-IsConsented_example : IsConsented plain at_work_run.0.trace
Reach-IsConsented_example = Reach-IsConsented at_work_run.1

work_alone_example :
    (total is_starting at_work_run.0.jobs + total is_working at_work_run.0.jobs ≤ 1)
    × (1 ≤ total is_working at_work_run.0.jobs → is_busy at_work_run.0.state.phase ≡ true)
work_alone_example = work_alone at_work_run.2

chosen_profile : Run
unfolding call
chosen_profile =
    steps begun (called (updates (profile_choice (codes "Desktop") true))) (omega arith) (λ p. cc)

Reach-HasExtras_example : HasExtras chosen_profile.0.state
Reach-HasExtras_example = Reach-HasExtras chosen_profile.1

-- `--reprovision-ufs` before the first refresh has ended.
abbrev forcing : Settings
forcing = record { ufs_check = true; ufs_reprovision = true }

forced_early : (x : System) × EarlyReach forcing x
unfolding call after_publish is_provisioned
forced_early = (
  _,
  early_turn [] []
      (early_turn [] []
        (early_call (blank_device device) (early_start custom verify_first false) refl) refl
        (probed unfit_status refl))
      refl published,
)

early_refused_example :
    (total at_work forced_early.0.jobs ≡ 0) × (total is_start forced_early.0.trace ≡ 0)
early_refused_example = early_refused forced_early.1
