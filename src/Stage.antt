-- ===== src/Stage.antt =====
-- src/core/stage.rs: what a run reads, and the check that none of it lies on the target.
pub mod Apart
pub mod Run
use flipperos_installer.Base.{
  ℕ, ◌+◌, Bool, true, false, not, ◌&&◌, ◌||◌, List, [], ◌∷◌, ◌++◌, map, find, filter, Option, none,
  some, option_map, Text, codes, Result, ok, err, panicked, if◌then◌else◌, and_some, text_eq,
  starts_with, strip_prefix, trim_end, is_empty, ◌==◌, total,
}
use flipperos_installer.Ufs.Rescan.{components}
use flipperos_installer.Model.{
  Source, local, FalconImage, UbootBuild, PackFile, ProfilePack, SnapshotBuild, minimal,
}
use flipperos_installer.Fetch.{is_url}
use flipperos_installer.Media.{mounts_on}

pub record Artifact : Type 0 where
  pub label : Text
  pub location : Text
  pub source : Source
  pub sha256 : Option Text
  pub size : ℕ
  pub rel : Text

pub record FalconImages : Type 0 where
  pub boot_menu : Option FalconImage
  pub recovery : Option FalconImage

-- What lies behind the last slash of a text, of which `seen` is read already
unfoldable pub last_segment : Text → Text → Text
last_segment seen [] = seen
last_segment seen (c ∷ s) = last_segment (if c == b'/' then [] else seen ++ (c ∷ [])) s

unfoldable pub file_name : Text → Text
unfolding last_segment trim_end
file_name location = last_segment [] (trim_end b'/' location)

abbrev pub image_artifact : Text → FalconImage → Artifact
unfolding file_name
image_artifact label image = record {
  label = label;
  location = image.location;
  source = image.source;
  sha256 = image.sha256;
  size = image.size_bytes;
  rel = file_name image.location;
}

abbrev pub pack_artifact : Text → PackFile → Artifact
unfolding file_name
pack_artifact label pack = record {
  label = label;
  location = pack.location;
  source = pack.source;
  sha256 = pack.sha256;
  size = pack.size_bytes;
  rel = file_name pack.location;
}

abbrev pub uboot_artifact : UbootBuild → Artifact
uboot_artifact u = record {
  label = codes "u-boot image";
  location = u.image_location;
  source = u.source;
  sha256 = u.sha256;
  size = u.size_bytes;
  rel = codes "u-boot-rockchip.bin";
}

abbrev pub optional : {A : Type 0} → (A → Artifact) → Option A → List Artifact
optional f none = []
optional f (some a) = f a ∷ []

unfoldable pub extra_artifacts : List ProfilePack → List Artifact
extra_artifacts [] = []
extra_artifacts (p ∷ ps) =
    optional (pack_artifact (p.name ++ codes " (incremental)")) p.incremental ++ extra_artifacts ps

-- `plan`
unfoldable pub staging_plan :
    UbootBuild → FalconImages → SnapshotBuild → List ProfilePack → List Artifact
unfolding minimal extra_artifacts
staging_plan uboot falcon build extras =
    uboot_artifact uboot
    ∷ (optional (image_artifact (codes "boot menu image")) falcon.boot_menu
        ++ (optional (image_artifact (codes "recovery image")) falcon.recovery
            ++ (optional (pack_artifact (codes "/home seed")) build.home_pack
                ++ (optional (pack_artifact (codes "Minimal (full)"))
                      (and_some (minimal build) λ m. m.full)
                    ++ extra_artifacts extras))))

-- Whether a path lies inside a mount point.
unfoldable pub under : Text → Text → Bool
unfolding trim_end
under path mountpoint =
    let mp = trim_end b'/' mountpoint in
    if is_empty mp then starts_with (codes "/") path else elim (strip_prefix mp path) [
      | none ↦ false
      | some rest ↦ is_empty rest || starts_with (codes "/") rest
    ]

-- The artifact and the mount point that the refusal names.
pub record OnTarget : Type 0 where
  pub label : Text
  pub mountpoint : Text
  pub disk : Text

unfoldable pub check_not_on_mounts : List Artifact → List Text → Text → Result OnTarget (Unit {0})
unfolding is_url under
check_not_on_mounts [] mounts disk = ok tt
check_not_on_mounts (a ∷ more) mounts disk =
    let rest = check_not_on_mounts more mounts disk in
    if is_url a.location then rest else elim (find (under a.location) mounts) [
      | some mp ↦ err (record { label = a.label; mountpoint = mp; disk = disk })
      | none ↦ rest
    ]

-- `guard_not_on_target`, over the mount table
unfoldable pub guard_not_on_target :
    Option Text
    → UbootBuild
    → FalconImages
    → SnapshotBuild
    → List ProfilePack
    → Text
    → Result OnTarget (Unit {0})
unfolding mounts_on staging_plan check_not_on_mounts
guard_not_on_target table uboot falcon build extras disk =
    check_not_on_mounts (staging_plan uboot falcon build extras) (mounts_on table disk) disk

-- `Staged`: the scratch directory, and where the copies of the artifacts are. The files to remove at
-- the end are left out.
pub record Staged : Type 0 where
  pub dir : Text
  pub copies : List (Text × Text)

unfoldable pub copy_of : List (Text × Text) → Text → Option Text
copy_of [] location = none
copy_of ((orig, staged) ∷ more) location =
    if text_eq orig location then some staged else copy_of more location

-- A location and its source, or those of the staged copy
unfoldable pub localise : Staged → Text → Source → Text × Source
unfolding copy_of
localise s location source = elim (copy_of s.copies location) [
  | none ↦ (location, source)
  | some path ↦ (path, local s.dir)
]

unfoldable pub localise_uboot : Staged → UbootBuild → UbootBuild
unfolding localise
localise_uboot s u = record u {
  image_location = (localise s u.image_location u.source).0;
  source = (localise s u.image_location u.source).1;
}

unfoldable pub localise_image : Staged → FalconImage → FalconImage
unfolding localise
localise_image s i = record i {
  location = (localise s i.location i.source).0;
  source = (localise s i.location i.source).1;
}

unfoldable pub localise_pack : Staged → PackFile → PackFile
unfolding localise
localise_pack s p = record p {
  location = (localise s p.location p.source).0;
  source = (localise s p.location p.source).1;
}

unfoldable pub localise_profile : Staged → ProfilePack → ProfilePack
unfolding localise_pack
localise_profile s p = record p {
  full = option_map (localise_pack s) p.full;
  incremental = option_map (localise_pack s) p.incremental;
}

unfoldable pub localise_build : Staged → SnapshotBuild → SnapshotBuild
unfolding localise_pack localise_profile
localise_build s b = record b {
  home_pack = option_map (localise_pack s) b.home_pack;
  profiles = map (localise_profile s) b.profiles;
}

-- `Path::join`: an absolute path replaces the directory.
unfoldable pub join_path : Text → Text → Text
unfolding trim_end
join_path dir rel =
    if starts_with (codes "/") rel then rel else trim_end b'/' dir ++ (codes "/" ++ rel)

unfoldable pub texts_eq : List Text → List Text → Bool
texts_eq [] [] = true
texts_eq [] (t ∷ ts) = false
texts_eq (s ∷ ss) [] = false
texts_eq (s ∷ ss) (t ∷ ts) = text_eq s t && texts_eq ss ts

abbrev is_part : Text → Bool
is_part t = not (is_empty t) && not (text_eq t (codes "."))

abbrev parts_of : List Text → List Text
parts_of [] = []
parts_of (first ∷ more) = first ∷ filter is_part more

-- `==` of paths, by their components, of which empty ones and, but for the first, dots do not count
unfoldable pub same_path : Text → Text → Bool
unfolding components texts_eq
same_path p q = texts_eq (parts_of (components [] p)) (parts_of (components [] q))
