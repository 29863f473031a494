-- ===== src/Provision/Apply/Outcome.antt =====
-- What a successful `apply` has established.
use flipperos_installer.Base.{
  ◌≡◌, arith, ap, ◌∙◌, Bool, true, not, Bool-cases, ◌&&◌, ◌⊎◌, inl, inr, ok,
}
use flipperos_installer.Ufs.World.{World, History, raise_if}
use flipperos_installer.Ufs.World.Trace.{and_then-eq-ok, raise_if_lem}
use flipperos_installer.Ufs.Query.{open_bsg}
use flipperos_installer.Ufs.Rescan.{apply_configuration}
use flipperos_installer.Provision.Error.{config_locked, not_read_back}
use flipperos_installer.Provision.Scheme.{Scheme, Origin}
use flipperos_installer.Provision.Compare.{Target, Status, is_provisioned, needs_descriptor_write}
use flipperos_installer.Provision.Apply.{
  in_ufs, probe, check_idle, act, apply, reprovision, write_configuration, rediscovered,
}

module _ (w : World) (scheme : Scheme) (origin : Origin) where
  -- The last thing that was done, up to the history `h'`, is a probe that found the scheme in place.
  pub record IsVerified (target : Target) (h' : History) : Type 0 where
    pub before : History
    pub status : Status
    pub probed : probe w (rediscovered w target before) scheme origin before ≡ (ok status, h')
    pub good : is_provisioned status ≡ true

  reprovision-IsVerified :
      (target : Target) (status : Status) (h h' : History) (u : Unit {0})
      → reprovision w target scheme origin status h ≡ (ok u, h')
      → IsVerified target h'
  unfolding reprovision
  reprovision-IsVerified target status h h' u e =
      let (_, h1, _, e1) = and_then-eq-ok _ (in_ufs (open_bsg w target.bsg) h) e in
      let (_, h2, _, e2) =
        and_then-eq-ok _ (write_configuration w (needs_descriptor_write status) status.plan h1)
          e1 in
      let (_, h3, _, e3) = and_then-eq-ok _ (in_ufs (open_bsg w target.bsg) h2) e2 in
      let (_, h4, _, e4) =
        and_then-eq-ok _ (in_ufs (apply_configuration w target.host target.disk) h3) e3 in
      let (after, h5, probed, e5) =
        and_then-eq-ok _ (probe w (rediscovered w target h4) scheme origin h4) e4 in
      let (good, same) =
        raise_if_lem (not (is_provisioned after)) (not_read_back target.bsg) h5 h' u e5 in
      record {
        before = h4;
        status = after;
        probed = probed ∙ ap (λ x. (ok after, x)) same;
        good = ground arith;
      }

  -- Where `apply` returns without an error, its probe found the scheme in place, or the run was a
  -- dry one, or a second probe, made last, found the scheme in place.
  pub apply-IsVerified :
      (dry_run : Bool) (target : Target) (h h' : History)
      → apply w dry_run target scheme origin h ≡ (ok tt, h')
      → (status : Status) × (h1 : History) × (probe w target scheme origin h ≡ (ok status, h1))
        × ((is_provisioned status ≡ true) ⊎ ((dry_run ≡ true) ⊎ IsVerified target h'))
  unfolding apply act
  apply-IsVerified dry_run target h h' e =
      let (status, h1, probed, e1) = and_then-eq-ok _ (probe w target scheme origin h) e in
      (status, h1, probed, verdict status h1 e1)
    where
      verdict :
          (status : Status) (h1 : History)
          → act w dry_run target scheme origin status h1 ≡ (ok tt, h')
          → (is_provisioned status ≡ true) ⊎ ((dry_run ≡ true) ⊎ IsVerified target h')
      verdict status h1 e = elim (Bool-cases (is_provisioned status)) [
        | inl p ↦ inl p
        | inr n ↦ elim (Bool-cases dry_run) [
          | inl d ↦ inr (inl d)
          | inr r ↦
              let (_, h2, _, e2) =
                and_then-eq-ok _
                  (raise_if (status.config_locked && needs_descriptor_write status)
                    (config_locked target.bsg) h1)
                  (rw n at e) in
              let (_, h3, _, e3) = and_then-eq-ok _ (check_idle w target.disk h2) e2 in
              inr (inr (reprovision-IsVerified target status h3 h' tt (rw r at e3)))
        ]
      ]
