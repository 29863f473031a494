-- ===== src/Bundle/Local.antt =====
-- src/core/bundle.rs: bundles on mounted media and at given paths.
pub mod Readable
use flipperos_installer.Base.{
  ℕ, ◌≡◌, refl, sym, Bool, true, false, List, [], ◌∷◌, ◌++◌, map, All, All-append, Option, none,
  some, Text, codes, Result, ok, err, panicked, if◌then◌else◌, text_eq, trim_end, is_empty, is_some,
  and_some, strip_suffix, sort_by, sort_by-All, decimal, Bool-cases, Option-cases, inl, inr, arith,
}
use flipperos_installer.Ufs.Rescan.{text_le, after_last}
use flipperos_installer.Model.{local, BundleLocation, dir, manifest_of, BundleRef}
use flipperos_installer.Bundle.{Manifest}
use flipperos_installer.Bundle.Resolve.{Manifests, read_for, unpack_dest, archive_suffix}

-- What a directory that can be read holds
pub record Folders : Type 0 where
  pub dirs : Text → List Text
  pub files : Text → List Text

-- `read_dirs` and `read_files`
abbrev pub read_dirs : Folders → Text → List Text
unfolding sort_by text_le
read_dirs fs path = sort_by text_le (fs.dirs path)

abbrev pub read_files : Folders → Text → List Text
unfolding sort_by text_le
read_files fs path = sort_by text_le (fs.files path)

abbrev numbered_version : Option ℕ → Text → Text
unfolding decimal
numbered_version none version = version
numbered_version (some n) version = version ++ (codes "-" ++ decimal n)

unfoldable pub local_label : Manifest → (fallback : Text) → Text
unfolding after_last trim_end decimal numbered_version
local_label m fallback =
    if is_empty m.bundle.version
    then after_last b'/' [] (trim_end b'/' fallback)
    else numbered_version m.bundle.build.number m.bundle.version

-- A manifest with a name, if it could be read
abbrev pub named : Result Text Manifest → Option Manifest
named (ok m) = if is_empty m.bundle.name then none else some m
named (err e) = none
named panicked = none

abbrev pub local_ref : (id label root : Text) → Option Text → BundleRef
local_ref id label root archive = record {
  id = id;
  channel = codes "local";
  dir = label;
  location = dir root;
  source = local root;
  archive = archive;
}

-- `with_channel`
abbrev pub with_channel : Text → BundleRef → BundleRef
with_channel channel r = record r { channel = channel }

abbrev pub has_archive_suffix : Text → Bool
unfolding strip_suffix
has_archive_suffix path = is_some (strip_suffix archive_suffix path)

abbrev pub as_list : {A : Type 0} → Option A → List A
as_list none = []
as_list (some a) = a ∷ []

module _ (net : Manifests) (fs : Folders) (cache_dir : Text) where
  unfoldable pub dir_ref : Text → Option BundleRef
  unfolding trim_end manifest_of local_label
  dir_ref root =
      let r = trim_end b'/' root in
      and_some (named (net.fetched (manifest_of (dir r))))
        λ m. some (local_ref r (local_label m r) r none)

  unfoldable pub archive_ref : Text → Option BundleRef
  unfolding local_label unpack_dest
  archive_ref path =
      and_some (named (net.archived path))
        λ m. some (local_ref path (local_label m path) (unpack_dest cache_dir path) (some path))

  unfoldable pub given : List Text → List BundleRef
  unfolding dir_ref archive_ref has_archive_suffix
  given [] = []
  given (path ∷ more) =
      as_list (if has_archive_suffix path then archive_ref path else dir_ref path) ++ given more

  -- The builds of one channel of a mirrored bucket
  unfoldable pub in_channel : (label channel_root : Text) → List Text → List BundleRef
  unfolding dir_ref
  in_channel label channel_root [] = []
  in_channel label channel_root (build ∷ more) =
      map (with_channel label) (as_list (dir_ref (channel_root ++ (codes "/" ++ build))))
      ++ in_channel label channel_root more

  unfoldable pub in_bucket : (label bundles_root : Text) → List Text → List BundleRef
  unfolding in_channel read_dirs
  in_bucket label bundles_root [] = []
  in_bucket label bundles_root (channel ∷ more) =
      let channel_root = bundles_root ++ (codes "/" ++ channel) in
      in_channel label channel_root (read_dirs fs channel_root) ++ in_bucket label bundles_root more

  unfoldable pub archives_in : (label root : Text) → List Text → List BundleRef
  unfolding archive_ref trim_end has_archive_suffix
  archives_in label root [] = []
  archives_in label root (file ∷ more) =
      (if has_archive_suffix file
        then map (with_channel label)
            (as_list (archive_ref (trim_end b'/' root ++ (codes "/" ++ file))))
        else [])
      ++ archives_in label root more

  unfoldable pub on_medium : (device root : Text) → List BundleRef
  unfolding dir_ref in_bucket archives_in trim_end read_dirs read_files
  on_medium device root =
      let label = codes "media " ++ device in
      let bundles_root = trim_end b'/' root ++ codes "/bundles" in
      map (with_channel label) (as_list (dir_ref root))
      ++ (in_bucket label bundles_root (read_dirs fs bundles_root)
          ++ archives_in label root (read_files fs root))

  unfoldable pub on_media : List (Text × Text) → List BundleRef
  unfolding on_medium
  on_media [] = []
  on_media ((device, root) ∷ more) = on_medium device root ++ on_media more

-- The order of local bundles: the later label first, then by id
unfoldable pub local_le : BundleRef → BundleRef → Bool
unfolding text_le
local_le a b =
    if text_le a.dir b.dir then (if text_le b.dir a.dir then text_le a.id b.id else false) else true

-- `dedup_by`, which keeps the first of neighbours with one id
unfoldable pub drop_repeats : List BundleRef → List BundleRef
unfolding text_eq
drop_repeats [] = []
drop_repeats (a ∷ more) = elim (drop_repeats more) [
  | [] ↦ a ∷ []
  | b ∷ rest ↦ if text_eq b.id a.id then a ∷ rest else a ∷ b ∷ rest
]

unfoldable pub discover_local :
    Manifests → Folders → Text → (paths : List Text) → List (Text × Text) → List BundleRef
unfolding given on_media sort_by local_le drop_repeats
discover_local net fs cache_dir paths media =
    drop_repeats
      (sort_by local_le (given net fs cache_dir paths ++ on_media net fs cache_dir media))
