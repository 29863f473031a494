-- ===== src/Install/Images/Switch.antt =====
-- When an installation switches the unit that the board boots from.
use flipperos_installer.Base.{
  ℕ, zero, suc, ◌+◌, ◌≡◌, ◌≢◌, refl, sym, ap, subst, ◌∙◌, ◌⊎◌, inl, inr, Bool, true, false, not,
  ◌||◌, ◌==◌, leb, [], ◌∷◌, ◌++◌, Option, none, some, Text, codes, Result, ok, err, panicked,
  if◌then◌else◌, arith,
}
use flipperos_installer.Base.Calls.{pure, ◌>>=◌, ◌>>◌, raise_if, and_then}
use flipperos_installer.Added.{Adds, Grown, Grown-refl, Grown-trans}
use flipperos_installer.Machine.{
  Machine, Log, Effect, ran, slept, copied, boot_switched, Io, exec, outcome, unless,
}
use flipperos_installer.Model.{UbootBuild}
use flipperos_installer.Fetch.{verify, Verdict, matched, unpublished, mismatch, is_mismatch}
use flipperos_installer.Stage.Run.{OnMismatch, fail, warn, apply_verdict}
use flipperos_installer.Install.Commands.{wait_for_device, await_node, settle}
use flipperos_installer.Install.Guards.{BootLuPlan}
use flipperos_installer.Install.Gpt.{loader_start}
use flipperos_installer.Install.Images.{
  Image, write_source_to_offset, activate_boot_lu, uboot_image, install_on_boot_lu,
}

abbrev pub IsNoSwitch : Effect → Type 0
IsNoSwitch (boot_switched disk id) = ⊥
IsNoSwitch _ = Unit {0}

one : (e : Effect) (h : Log) → IsNoSwitch e → Grown IsNoSwitch h (e ∷ h)
one e h p = (e ∷ [], refl, (p, tt))

await_node-Adds :
    (fuel : ℕ) (m : Machine) (deadline : ℕ) (path : Text)
    → Adds IsNoSwitch (await_node fuel m deadline path)
unfolding await_node
await_node-Adds zero m deadline path h = Grown-refl IsNoSwitch h
await_node-Adds (suc fuel) m deadline path h =
    step (leb deadline (m.now h)) (m.exists h path)
      (await_node-Adds fuel m deadline path (slept 100 ∷ h))
  where
    step :
        (late found : Bool)
        → Grown IsNoSwitch (slept 100 ∷ h) (await_node fuel m deadline path (slept 100 ∷ h)).1
        → Grown IsNoSwitch h
            (if late
              then (err (codes "timed out waiting for " ++ path), h)
              else if found
              then (ok tt, h)
              else await_node fuel m deadline path (slept 100 ∷ h)).1
    step true found g = Grown-refl IsNoSwitch h
    step false true g = Grown-refl IsNoSwitch h
    step false false g = Grown-trans IsNoSwitch h (slept 100 ∷ h) _ (one (slept 100) h tt) g

wait_for_device-Adds : (m : Machine) (path : Text) → Adds IsNoSwitch (wait_for_device m false path)
unfolding wait_for_device settle exec
wait_for_device-Adds m path h = step (m.exists h path)
  where
    settled : Log
    settled = ran (codes "udevadm" ∷ codes "settle" ∷ []) ∷ h

    step :
        (found : Bool)
        → Grown IsNoSwitch h
            (if found then (ok tt, h) else await_node 101 m (m.now settled + 10000) path settled).1
    step true = Grown-refl IsNoSwitch h
    step false =
        Grown-trans IsNoSwitch h settled _ (one (ran (codes "udevadm" ∷ codes "settle" ∷ [])) h tt)
          (await_node-Adds 101 m (m.now settled + 10000) path settled)

-- What a write of an image comes to: a value says whether the digest of what was copied fits.
abbrev IsWritten : Machine → Image → Text → ℕ → Log → Result Text Bool × Log → Type 0
IsWritten m i device offset h (ok verified, h') =
    (h' ≡ copied i.location device offset ∷ h)
    × (verified ≡ not (is_mismatch (verify (m.digest h' i.location) i.sha256)))
IsWritten m i device offset h (err e, h') = Grown IsNoSwitch h h'
IsWritten m i device offset h (panicked, h') = Grown IsNoSwitch h h'

write_source_to_offset-IsWritten :
    (m : Machine) (i : Image) (device : Text) (offset : ℕ) (policy : OnMismatch) (h : Log)
    → IsWritten m i device offset h (write_source_to_offset m false i device offset policy h)
unfolding write_source_to_offset apply_verdict
write_source_to_offset-IsWritten m i device offset policy h = opened (m.opens h i.location i.source)
  where
    h1 : Log
    h1 = copied i.location device offset ∷ h

    at_h1 : Grown IsNoSwitch h h1
    at_h1 = one (copied i.location device offset) h tt

    judged :
        (v : Verdict) (p : OnMismatch)
        → v ≡ verify (m.digest h1 i.location) i.sha256
        → IsWritten m i device offset h
            ((apply_verdict i.what v p >> pure (not (is_mismatch v))) h1)
    judged matched p e = (refl, ap (λ v. not (is_mismatch v)) e)
    judged unpublished p e = (refl, ap (λ v. not (is_mismatch v)) e)
    judged (mismatch got want) fail e = at_h1
    judged (mismatch got want) warn e = (refl, ap (λ v. not (is_mismatch v)) e)

    judge : Io Bool
    judge h2 =
        (apply_verdict i.what (verify (m.digest h2 i.location) i.sha256) policy
            >> pure (not (is_mismatch (verify (m.digest h2 i.location) i.sha256))))
          h2

    copy : Io Bool
    copy h' =
        and_then {E = Text} (λ _. judge)
          (outcome (m.copies h' i.location device), copied i.location device offset ∷ h')

    copying :
        (c : Option Text)
        → IsWritten m i device offset h (and_then {E = Text} (λ _. judge) (outcome c, h1))
    copying (some e) = at_h1
    copying none = judged (verify (m.digest h1 i.location) i.sha256) policy refl

    opened :
        (o : Option Text)
        → IsWritten m i device offset h (and_then {E = Text} (λ _. copy) (outcome o, h))
    opened (some e) = Grown-refl IsNoSwitch h
    opened none = copying (m.copies h i.location device)

activate_boot_lu-log :
    (m : Machine) (disk : Text) (id : ℕ) (h : Log)
    → (activate_boot_lu m false disk id h).1 ≡ boot_switched disk id ∷ h
unfolding activate_boot_lu
activate_boot_lu-log m disk id h = switched (m.switches h disk id)
  where
    h1 : Log
    h1 = boot_switched disk id ∷ h

    compared : (b : Bool) → (raise_if b (codes "the active UFS boot LU is still another") h1).1 ≡ h1
    compared true = refl
    compared false = refl

    compare : ℕ → Io (Unit {0})
    compare now = raise_if (not (now == id)) (codes "the active UFS boot LU is still another")

    reading : (r : Result Text ℕ) → (and_then {E = Text} compare (r, h1)).1 ≡ h1
    reading (err e) = refl
    reading panicked = refl
    reading (ok now) = compared (not (now == id))

    switched :
        (o : Option Text)
        → (and_then {E = Text}
            (λ _ h'. and_then {E = Text} compare (m.boot_lun_en h' disk, h'))
            (outcome o, h1)).1
          ≡ h1
    switched (some e) = refl
    switched none = reading (m.boot_lun_en h1 disk)

negated : (b : Bool) → true ≡ not b → b ≡ false
negated true e = cc
negated false e = refl

-- The installation switched to the unit of the plan, which was not the active one, directly after it
-- had copied the image to it, and the digest of what it copied was no mismatch.
abbrev pub IsSwitched : Machine → Text → UbootBuild → BootLuPlan → Log → Log → Type 0
IsSwitched m disk u plan h h' =
    (before : Log) × Grown IsNoSwitch h before
    × (h' ≡ boot_switched disk plan.id ∷ copied u.image_location plan.node loader_start ∷ before)
    × (plan.id ≢ plan.active)
    × (is_mismatch (
          verify
            (m.digest (copied u.image_location plan.node loader_start ∷ before) u.image_location)
            u.sha256)
        ≡ false)

-- An installation of U-Boot on a boot unit leaves the switch alone, or switches to a unit that was
-- not the active one once the image is copied to it and its digest is no mismatch.
pub install_on_boot_lu-IsSwitched :
    (m : Machine) (disk : Text) (u : UbootBuild) (plan : BootLuPlan) (policy : OnMismatch) (h : Log)
    → Grown IsNoSwitch h (install_on_boot_lu m false disk u plan policy h).1
      ⊎ IsSwitched m disk u plan h (install_on_boot_lu m false disk u plan policy h).1
unfolding install_on_boot_lu
install_on_boot_lu-IsSwitched m disk u plan policy h =
    waited (wait_for_device m false plan.node h) (wait_for_device-Adds m plan.node h)
  where
    image : Image
    image = uboot_image u

    after : Bool → Io (Unit {0})
    after verified =
        unless ((plan.id == plan.active) || not verified) (activate_boot_lu m false disk plan.id)

    Claim : Log → Type 0
    Claim h' = Grown IsNoSwitch h h' ⊎ IsSwitched m disk u plan h h'

    turned :
        (b verified : Bool) (h1 h2 : Log)
        → b ≡ (plan.id == plan.active)
        → Grown IsNoSwitch h h1
        → h2 ≡ copied u.image_location plan.node loader_start ∷ h1
        → verified ≡ not (is_mismatch (verify (m.digest h2 u.image_location) u.sha256))
        → Claim (unless (b || not verified) (activate_boot_lu m false disk plan.id) h2).1
    turned true verified h1 h2 q g e v =
        inl (subst (Grown IsNoSwitch h) (sym e) (Grown-trans IsNoSwitch h h1 _ g (one _ h1 tt)))
    turned false false h1 h2 q g e v =
        inl (subst (Grown IsNoSwitch h) (sym e) (Grown-trans IsNoSwitch h h1 _ g (one _ h1 tt)))
    turned false true h1 h2 q g e v = inr (
      h1,
      g,
      activate_boot_lu-log m disk plan.id h2 ∙ ap (λ l. boot_switched disk plan.id ∷ l) e,
      (λ p. ground arith),
      subst (λ l. is_mismatch (verify (m.digest l u.image_location) u.sha256) ≡ false) e
          (negated (is_mismatch (verify (m.digest h2 u.image_location) u.sha256)) v),
    )

    written :
        (h1 : Log) (r : Result Text Bool × Log)
        → Grown IsNoSwitch h h1
        → IsWritten m image plan.node loader_start h1 r
        → Claim (and_then after r).1
    written h1 (err e, h2) g w = inl (Grown-trans IsNoSwitch h h1 h2 g w)
    written h1 (panicked, h2) g w = inl (Grown-trans IsNoSwitch h h1 h2 g w)
    written h1 (ok verified, h2) g (e, v) =
        turned (plan.id == plan.active) verified h1 h2 refl g e v

    waited :
        (r : Result Text (Unit {0}) × Log)
        → Grown IsNoSwitch h r.1
        → Claim
            (and_then
              (λ _. write_source_to_offset m false image plan.node loader_start policy >>= after)
              r).1
    waited (err e, h1) g = inl g
    waited (panicked, h1) g = inl g
    waited (ok t, h1) g =
        written h1 (write_source_to_offset m false image plan.node loader_start policy h1) g
          (write_source_to_offset-IsWritten m image plan.node loader_start policy h1)
