-- ===== src/Install/VerifyFirst/Parts.antt =====
-- All the parts of an installation, by what an installation has: each is verified where the artifacts of
-- the staging plan are.
use flipperos_installer.Base.{
  ◌≡◌, false, List, [], ◌∷◌, ◌++◌, All, Option, none, some, Text, and_some, codes,
}
use flipperos_installer.Added.{Grown}
use flipperos_installer.Machine.{Machine, Log}
use flipperos_installer.Model.{FalconImage, PackFile, ProfilePack, minimal}
use flipperos_installer.Fetch.{verify, is_mismatch}
use flipperos_installer.Stage.{
  Artifact, optional, image_artifact, pack_artifact, staging_plan, extra_artifacts, file_name,
}
use flipperos_installer.Install.{plan_of}
use flipperos_installer.Install.Harmless.{IsHarmless}
use flipperos_installer.Install.Selected.{Installation}

-- At a moment after `h0` before which nothing was erased, the digest of what is at the location is the
-- published one, or none is published.
abbrev pub IsVerifiedAt : Machine → Log → Text → Option Text → Type 0
IsVerifiedAt m h0 location sha256 =
    (h : Log) × Grown IsHarmless h0 h × (is_mismatch (verify (m.digest h location) sha256) ≡ false)

abbrev pub IfAny : {A : Type 0} → (A → Type 0) → Option A → Type 0
IfAny P none = Unit {0}
IfAny P (some a) = P a

module _ (m : Machine) (h0 : Log) where
  abbrev pub ImageIsVerified : FalconImage → Type 0
  ImageIsVerified i = IsVerifiedAt m h0 i.location i.sha256

  abbrev pub PackIsVerified : PackFile → Type 0
  PackIsVerified p = IsVerifiedAt m h0 p.location p.sha256

  -- The U-Boot image, the boot menu, the recovery image, the `/home` seed, the full pack of the minimal
  -- profile, and the incremental packs of the profiles that were opted into
  pub record PartsAreVerified (j : Installation) : Type 0 where
    pub uboot : IsVerifiedAt m h0 j.uboot.image_location j.uboot.sha256
    pub boot_menu : IfAny ImageIsVerified j.boot_menu
    pub recovery : IfAny ImageIsVerified j.recovery
    pub home_seed : IfAny PackIsVerified j.build.home_pack
    pub full : IfAny (λ p. IfAny PackIsVerified p.full) (minimal j.build)
    pub extras : All (λ p. IfAny PackIsVerified p.incremental) j.extras

  abbrev Verified : Artifact → Type 0
  Verified a = IsVerifiedAt m h0 a.location a.sha256

  split_optional :
      {A : Type 0} (f : A → Artifact) (P : A → Type 0) (o : Option A) (rest : List Artifact)
      → ((a : A) → Verified (f a) → P a)
      → All Verified (optional f o ++ rest)
      → IfAny P o × All Verified rest
  split_optional f P none rest k v = (tt, v)
  split_optional f P (some a) rest k v = (k a v.0, v.1)

  extras-AreVerified :
      (ps : List ProfilePack)
      → All Verified (extra_artifacts ps)
      → All (λ p. IfAny PackIsVerified p.incremental) ps
  unfolding extra_artifacts file_name
  extras-AreVerified [] v = tt
  extras-AreVerified (p ∷ ps) v =
      let (first, more) =
        split_optional (pack_artifact (p.name ++ codes " (incremental)")) PackIsVerified
          p.incremental (extra_artifacts ps) (λ a w. w) v in
      (first, extras-AreVerified ps more)

  full-IsVerified :
      (o : Option ProfilePack)
      → IfAny PackIsVerified (and_some o λ p. p.full)
      → IfAny (λ p. IfAny PackIsVerified p.full) o
  full-IsVerified none v = tt
  full-IsVerified (some p) v = v

  pub plan_of-PartsAreVerified : (j : Installation) → All Verified (plan_of j) → PartsAreVerified j
  unfolding plan_of staging_plan file_name
  plan_of-PartsAreVerified j (u, v) =
      let (menu, v1) =
        split_optional (image_artifact _) ImageIsVerified j.boot_menu _ (λ a w. w) v in
      let (recovery, v2) =
        split_optional (image_artifact _) ImageIsVerified j.recovery _ (λ a w. w) v1 in
      let (seed, v3) =
        split_optional (pack_artifact _) PackIsVerified j.build.home_pack _ (λ a w. w) v2 in
      let (full, v4) =
        split_optional (pack_artifact _) PackIsVerified (and_some (minimal j.build) λ p. p.full) _
          (λ a w. w) v3 in
      record {
        uboot = u;
        boot_menu = menu;
        recovery = recovery;
        home_seed = seed;
        full = full-IsVerified (minimal j.build) full;
        extras = extras-AreVerified j.extras v4;
      }
