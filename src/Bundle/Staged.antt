-- ===== src/Bundle/Staged.antt =====
-- src/core/bundle.rs with src/core/stage.rs: what an installation from a bundle reads.
use flipperos_installer.Base.{
  ◌≡◌, Bool, true, false, List, [], ◌∷◌, ◌++◌, find, filter, All, All-append, Any, Option, none,
  some, and_some, Text, codes, ok, inl, inr, Bool-cases, arith,
}
use flipperos_installer.Model.{
  BundleLocation, BundleRef, SelectedBundle, FalconImage, PackFile, ProfilePack, AppState, minimal,
  is_minimal, extra_profiles,
}
use flipperos_installer.Stage.{
  Artifact, staging_plan, extra_artifacts, optional, image_artifact, pack_artifact, file_name,
}
use flipperos_installer.Install.Selected.{chosen_extras}
use flipperos_installer.Catalog.Packs.Good.{OnSome, IsGood}
use flipperos_installer.Bundle.{Manifest, FileEntry}
use flipperos_installer.Bundle.Resolve.{Manifests, load_bundle, read_for}
use flipperos_installer.Bundle.Pinned.{IsFile, IsAt, IsPackOf, IsSeed, load_bundle-IsPinned}

Any-mono :
    (P Q : FileEntry → Type 0) (fs : List FileEntry)
    → ((f : FileEntry) → P f → Q f)
    → Any P fs
    → Any Q fs
Any-mono P Q [] k a = a
Any-mono P Q (f ∷ fs) k (inl p) = inl (k f p)
Any-mono P Q (f ∷ fs) k (inr a) = inr (Any-mono P Q fs k a)

All-filter :
    (P : ProfilePack → Type 0) (keep : ProfilePack → Bool) (ps : List ProfilePack)
    → All P ps
    → All P (filter keep ps)
All-filter P keep [] a = tt
All-filter P keep (p ∷ ps) a = ground (arith, All-filter P keep ps a.1)

OnSome-find :
    (P : ProfilePack → Type 0) (keep : ProfilePack → Bool) (ps : List ProfilePack)
    → All P ps
    → OnSome P (find keep ps)
OnSome-find P keep [] a = tt
OnSome-find P keep (p ∷ ps) a = elim (Bool-cases (keep p)) [
  | inl e ↦ rw e a.0
  | inr e ↦ rw e (OnSome-find P keep ps a.1)
]

module _ (l : BundleLocation) (m : Manifest) where
  -- An artifact that the manifest lists
  abbrev pub IsArtifact : Artifact → Type 0
  IsArtifact a = IsFile l m a.location a.size a.sha256

  image-IsArtifact :
      (label path : Text) (o : Option FalconImage)
      → IsAt l m path o
      → All IsArtifact (optional (image_artifact label) o)
  unfolding file_name
  image-IsArtifact label path none a = tt
  image-IsArtifact label path (some i) a = (Any-mono _ _ m.files (λ f n. n.1) a, tt)

  pack-IsArtifact :
      (label name : Text) (is_inc : Bool) (o : Option PackFile)
      → OnSome (IsPackOf l m name is_inc) o
      → All IsArtifact (optional (pack_artifact label) o)
  unfolding file_name
  pack-IsArtifact label name is_inc none a = tt
  pack-IsArtifact label name is_inc (some p) a = (Any-mono _ _ m.files (λ f n. n.4) a, tt)

  seed-IsArtifact :
      (label : Text) (o : Option PackFile)
      → OnSome (IsSeed l m) o
      → All IsArtifact (optional (pack_artifact label) o)
  unfolding file_name
  seed-IsArtifact label none a = tt
  seed-IsArtifact label (some p) a = (Any-mono _ _ m.files (λ f n. n.4) a, tt)

  full-IsArtifact :
      (label : Text) (o : Option ProfilePack)
      → OnSome (IsGood (IsPackOf l m) (IsSeed l m)) o
      → All IsArtifact (optional (pack_artifact label) (and_some o (λ p. p.full)))
  full-IsArtifact label none g = tt
  full-IsArtifact label (some p) g = pack-IsArtifact label p.name false p.full g.0

  extra-IsArtifact :
      (ps : List ProfilePack)
      → All (IsGood (IsPackOf l m) (IsSeed l m)) ps
      → All IsArtifact (extra_artifacts ps)
  unfolding extra_artifacts
  extra-IsArtifact [] g = tt
  extra-IsArtifact (p ∷ ps) g =
      All-append IsArtifact
        (optional (pack_artifact (p.name ++ codes " (incremental)")) p.incremental)
        (extra_artifacts ps)
        (pack-IsArtifact (p.name ++ codes " (incremental)") p.name true p.incremental g.0.1)
        (extra-IsArtifact ps g.1)

-- Whatever profiles are opted into: each artifact of the staging plan for a loaded bundle is a file that
-- the bundle's manifest lists, with the size and the digest that the manifest gives for it.
load_bundle-AreFiles :
    (net : Manifests) (r : BundleRef) (id : Text) (s : SelectedBundle) (state : AppState)
    → load_bundle net r id ≡ ok s
    → (m : Manifest) × (read_for net r r.archive ≡ ok m)
      × All
          (λ a. IsFile r.location m a.location a.size a.sha256)
          (staging_plan s.uboot
            (record { boot_menu = s.boot_menu; recovery = s.recovery })
            s.build
            (chosen_extras state s.build))
unfolding staging_plan chosen_extras extra_profiles minimal file_name
load_bundle-AreFiles net r id s state h =
    let (m, read, schema, (uboot, menu, recovery, packs, seed, some_minimal), board) =
      load_bundle-IsPinned net r id s h in
    let P = IsArtifact r.location m in
    let G = IsGood (IsPackOf r.location m) (IsSeed r.location m) in
    (
      m,
      read,
      (
        Any-mono _ _ m.files (λ f n. n.1) uboot,
        All-append P _ _ (image-IsArtifact r.location m _ _ s.boot_menu menu) (
            All-append P _ _ (image-IsArtifact r.location m _ _ s.recovery recovery) (
              All-append P _ _ (seed-IsArtifact r.location m _ s.build.home_pack seed) (
                All-append P _ _
                  (full-IsArtifact r.location m _ (find is_minimal s.build.profiles)
                    (OnSome-find G is_minimal s.build.profiles packs))
                  (extra-IsArtifact r.location m (chosen_extras state s.build)
                    (All-filter G _ _ (All-filter G _ s.build.profiles packs)))))),
      ),
    )
