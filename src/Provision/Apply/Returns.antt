-- ===== src/Provision/Apply/Returns.antt =====
-- `apply` returns: it neither panics nor waits for ever.
use flipperos_installer.Base.{
  ℕ, ◌≡◌, ◌≢◌, refl, Bool, List, [], ◌∷◌, Option, none, some, Text, Result, ok, err, panicked,
}
use flipperos_installer.Ufs.Config.{ConfigDescriptor}
use flipperos_installer.Ufs.World.{World, History, and_then, raise_if, attempt, caught, pure}
use flipperos_installer.Ufs.Query.{open_bsg, read_descriptor, write_descriptor, write_attr}
use flipperos_installer.Ufs.Rescan.{apply_configuration}
use flipperos_installer.Ufs.Rescan.Ends.{Ticks, apply_configuration-ne_panicked}
use flipperos_installer.Provision.Error.{Error}
use flipperos_installer.Provision.Scheme.{Scheme, Origin, validate}
use flipperos_installer.Provision.Plan.{Plan}
use flipperos_installer.Provision.Compare.{Target, Status, is_provisioned}
use flipperos_installer.Provision.Apply.{
  in_ufs, probe, check_idle, write_clears, write_main, after_main, write_configuration, reprovision,
  rediscovered, act, apply,
}
use flipperos_installer.Ufs.Query.Returns.{
  Returns, >>=-Returns, if-Returns, raise_if-Returns, attempt-Returns, open_bsg-Returns,
  read_descriptor-Returns, write_attr-Returns, write_descriptor-Returns,
}
use flipperos_installer.Provision.Apply.ProbeReturns.{in_ufs-Returns, probe-Returns}

module _ (w : World) where
  write_clears-Returns : (cs : List (ℕ × ConfigDescriptor)) → Returns (write_clears w cs)
  unfolding write_clears
  write_clears-Returns [] = λ h p. cc
  write_clears-Returns ((i, d) ∷ cs) =
      >>=-Returns {E = Error} (in_ufs (write_descriptor w 0x01 i d.bytes)) _
        (in_ufs-Returns (write_descriptor w 0x01 i d.bytes)
          (write_descriptor-Returns w 0x01 i d.bytes))
        λ _. write_clears-Returns cs

  write_main-Returns : (d : ConfigDescriptor) → Returns (write_main w d)
  unfolding write_main
  write_main-Returns d h = main_lem (in_ufs (write_descriptor w 0x01 0 d.bytes) h) (
      in_ufs-Returns (write_descriptor w 0x01 0 d.bytes) (write_descriptor-Returns w 0x01 0 d.bytes)
        h)
    where
      main_lem :
          (r : Result Error (Unit {0}) × History)
          → r.0 ≢ panicked
          → (and_then (after_main w) (caught r)).0 ≢ panicked
      main_lem (ok u, h1) n = λ p. cc
      main_lem (err e, h1) n =
          >>=-Returns {E = Error} (attempt (read_descriptor w 0x01 0)) _
            (attempt-Returns Error (read_descriptor w 0x01 0) (read_descriptor-Returns w 0x01 0))
            (λ _ h2 p. cc) h1
      main_lem (panicked, h1) n = absurd (n refl)

  check_idle-Returns : (disk : Option Text) → Returns (check_idle w disk)
  unfolding check_idle
  check_idle-Returns none = λ h p. cc
  check_idle-Returns (some node) = λ h. raise_if-Returns _ _ h

  write_configuration-Returns : (b : Bool) (p : Plan) → Returns (write_configuration w b p)
  unfolding write_configuration
  write_configuration-Returns b p =
      >>=-Returns {E = Error} _ _
        (if-Returns {E = Error} b _ _
          (>>=-Returns {E = Error} (write_clears w p.clear) _ (write_clears-Returns p.clear)
            λ _. write_main-Returns p.descriptor)
          (λ h q. cc))
        λ _.
          in_ufs-Returns (write_attr w 0x00 p.boot_lun_en) (write_attr-Returns w 0x00 p.boot_lun_en)

nothing-Returns : Returns {E = Error} (pure tt)
nothing-Returns h p = cc

module _ (w : World) (t : Ticks w) (scheme : Scheme) (valid : validate scheme ≡ ok tt) where
  reprovision-Returns :
      (target : Target) (origin : Origin) (status : Status)
      → Returns (reprovision w target scheme origin status)
  unfolding reprovision
  reprovision-Returns target origin status =
      >>=-Returns {E = Error} (in_ufs (open_bsg w target.bsg)) _
        (in_ufs-Returns (open_bsg w target.bsg) (open_bsg-Returns w target.bsg))
        λ _.
          >>=-Returns {E = Error} (write_configuration w _ status.plan) _
            (write_configuration-Returns w _ status.plan)
            λ _.
              >>=-Returns {E = Error} (in_ufs (open_bsg w target.bsg)) _
                (in_ufs-Returns (open_bsg w target.bsg) (open_bsg-Returns w target.bsg))
                λ _.
                  >>=-Returns {E = Error} (in_ufs (apply_configuration w target.host target.disk)) _
                    (in_ufs-Returns (apply_configuration w target.host target.disk)
                      (apply_configuration-ne_panicked w t target.host target.disk))
                    λ _ h.
                      >>=-Returns {E = Error} (probe w (rediscovered w target h) scheme origin) _
                        (probe-Returns w (rediscovered w target h) scheme origin valid)
                        (λ after. raise_if-Returns _ _) h

  -- With a valid scheme and a clock that keeps its promises, `apply` returns: it neither panics nor
  -- waits for ever, whatever the device answers.
  pub apply-ne_panicked :
      (dry_run : Bool) (target : Target) (origin : Origin) (h : History)
      → (apply w dry_run target scheme origin h).0 ≢ panicked
  unfolding apply act
  apply-ne_panicked dry_run target origin h =
      >>=-Returns {E = Error} (probe w target scheme origin) _
        (probe-Returns w target scheme origin valid)
        (λ status. if-Returns {E = Error} (is_provisioned status) (pure tt) _ nothing-Returns (
          >>=-Returns {E = Error} (raise_if _ _) _ (raise_if-Returns _ _) λ _.
            >>=-Returns {E = Error} (check_idle w target.disk) _ (check_idle-Returns w target.disk)
              λ _.
                if-Returns {E = Error} dry_run (pure tt) _ nothing-Returns
                  (reprovision-Returns target origin status)))
        h
