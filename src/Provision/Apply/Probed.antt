-- ===== src/Provision/Apply/Probed.antt =====
-- What a probe that succeeds reports of the device.
use flipperos_installer.Base.{
  ◌≡◌, ◌↔◌, refl, ap, subst, true, any, ◌==◌, [], map, inl, inr, Result-cases, ok-injective, arith,
  ok,
}
use flipperos_installer.Ufs.World.{World, History}
use flipperos_installer.Ufs.World.Trace.{and_then-eq-ok}
use flipperos_installer.Provision.Error.{Error}
use flipperos_installer.Provision.Scheme.{Scheme, Origin}
use flipperos_installer.Provision.Plan.{Plan, plan}
use flipperos_installer.Provision.Compare.{Target, Status, is_provisioned, acceptable}
use flipperos_installer.Provision.Compare.Critical.{LayoutAgrees}
use flipperos_installer.Provision.Compare.Verdict.{is_provisioned_iff}
use flipperos_installer.Provision.Apply.{
  Readings, read_device, status_of, status_for, with_clear, probe,
}

-- The status is about what was read of the device: its plan is the scheme's for the device's
-- descriptors, with the descriptors that have to be cleared, and its mismatches are those between
-- that plan and the configuration that was read.
pub record IsReport (w : World) (scheme : Scheme) (target : Target) (h : History) (s : Status)
    : Type 0 where
  pub readings : Readings
  pub after : History
  pub read : read_device w target h ≡ (ok readings, after)
  pub planned : Plan
  pub plans : plan scheme readings.dev readings.geo ≡ ok planned
  pub same_plan : s.plan ≡ record planned { clear = readings.clear }
  pub same_target : s.target ≡ target
  pub same_lock : s.config_locked ≡ readings.config_locked
  pub verdict : (is_provisioned s ≡ true) ↔ (
      LayoutAgrees planned.descriptor readings.current
      × (any (λ id. id == readings.boot_lun_en) (acceptable s.plan) ≡ true)
      × (map (λ e. e.0) readings.clear ≡ []))

module _ (w : World) where
  -- A probe that succeeds reports on what it has read: its plan is the scheme's plan for the
  -- device's descriptors, and it calls the device provisioned exactly when the configuration that
  -- was read agrees with that plan, the active boot unit is acceptable and no unit above the eighth
  -- is enabled.
  pub probe-IsReport :
      (target : Target) (scheme : Scheme) (origin : Origin) (s : Status) (h h' : History)
      → probe w target scheme origin h ≡ (ok s, h')
      → IsReport w scheme target h s
  unfolding probe status_of
  probe-IsReport target scheme origin s h h' e =
      let (r, h1, read, e1) = and_then-eq-ok _ (read_device w target h) e in
      elim (Result-cases (plan scheme r.dev r.geo)) [
        | inl (p, pl) ↦
            subst (IsReport w scheme target h) (status_lem r h1 p pl (ap (λ x. x.0) e1)) (record {
              readings = r;
              after = h1;
              read = read;
              planned = p;
              plans = pl;
              same_plan = refl;
              same_target = refl;
              same_lock = refl;
              verdict =
                  is_provisioned_iff (status_for target origin r (with_clear p r.clear)) r.current
                    r.boot_lun_en (map (λ x. x.0) r.clear) refl;
            })
        | inr (inl (x, pl)) ↦ ground arith
        | inr (inr pl) ↦ ground arith
      ]
    where
      status_lem :
          (r : Readings) (h1 : History) (p : Plan)
          → plan scheme r.dev r.geo ≡ ok p
          → status_of target scheme origin r ≡ ok s
          → status_for target origin r (with_clear p r.clear) ≡ s
      status_lem r h1 p pl e = ok-injective {E = Error} cc
