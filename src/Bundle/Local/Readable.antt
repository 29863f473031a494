-- ===== src/Bundle/Local/Readable.antt =====
-- src/core/bundle.rs: a local bundle that is offered has a manifest, where loading it looks.
use flipperos_installer.Base.{
  ◌≡◌, refl, subst, Bool, true, false, List, [], ◌∷◌, ◌++◌, map, All, All-append, Option, none,
  some, Text, codes, Result, ok, err, panicked, if◌then◌else◌, text_eq, trim_end, is_empty,
  sort_by-All, Option-cases, inl, inr,
}
use flipperos_installer.Model.{dir, manifest_of, BundleRef}
use flipperos_installer.Bundle.{Manifest}
use flipperos_installer.Bundle.Resolve.{Manifests, read_for, unpack_dest}
use flipperos_installer.Bundle.Local.{
  Folders, read_dirs, read_files, named, with_channel, has_archive_suffix, as_list, dir_ref,
  archive_ref, given, in_channel, in_bucket, archives_in, on_medium, on_media, local_le,
  drop_repeats, discover_local,
}

-- Where the files of a local bundle are: in the directory that is its id, or where its archive is to be
-- unpacked.
abbrev pub LiesAt : Text → BundleRef → Option Text → Type 0
LiesAt cache_dir r none = r.location ≡ dir r.id
LiesAt cache_dir r (some path) = (path ≡ r.id) × (r.location ≡ dir (unpack_dest cache_dir path))

-- What loading the bundle reads first is a manifest that gives the bundle a name.
abbrev pub IsReadable : Manifests → Text → BundleRef → Type 0
IsReadable net cache_dir r =
    (m : Manifest) × (read_for net r r.archive ≡ ok m)
    × (is_empty m.bundle.name ≡ false)
    × LiesAt cache_dir r r.archive

kept-eq :
    (b : Bool) (m m' : Manifest) → (if b then none else some m) ≡ some m' → (b ≡ false) × (m ≡ m')
kept-eq true m m' h = cc
kept-eq false m m' h = (refl, cc)

named-ok :
    (o : Result Text Manifest) {m : Manifest}
    → named o ≡ some m
    → (o ≡ ok m) × (is_empty m.bundle.name ≡ false)
named-ok (err e) {m} h = cc
named-ok panicked {m} h = cc
named-ok (ok m) {m = m'} h =
    let (e, same) = kept-eq (is_empty m.bundle.name) m m' h in
    subst (λ k. ◌≡◌ {A = Result Text Manifest} (ok m) (ok k) × (is_empty k.bundle.name ≡ false))
      same (refl, e)

module _ (net : Manifests) (fs : Folders) (cache_dir : Text) where
  dir_ref-IsReadable :
      (root : Text) → All (IsReadable net cache_dir) (as_list (dir_ref net fs cache_dir root))
  unfolding dir_ref
  dir_ref-IsReadable root =
      elim (Option-cases (named (net.fetched (manifest_of (dir (trim_end b'/' root)))))) [
        | inl n ↦ rw n tt
        | inr (m, e) ↦ let (read, name) = named-ok _ e in rw e ((m, read, name, refl), tt)
      ]

  archive_ref-IsReadable :
      (path : Text) → All (IsReadable net cache_dir) (as_list (archive_ref net fs cache_dir path))
  unfolding archive_ref manifest_of
  archive_ref-IsReadable path = elim (Option-cases (named (net.archived path))) [
    | inl n ↦ rw n tt
    | inr (m, e) ↦
        let (read, name) = named-ok (net.archived path) e in
        rw e ((m, read, name, (refl, refl)), tt)
  ]

  if-All :
      (b : Bool) (xs ys : List BundleRef)
      → All (IsReadable net cache_dir) xs
      → All (IsReadable net cache_dir) ys
      → All (IsReadable net cache_dir) (if b then xs else ys)
  if-All true xs ys a c = a
  if-All false xs ys a c = c

  labelled :
      (label : Text) (rs : List BundleRef)
      → All (IsReadable net cache_dir) rs
      → All (IsReadable net cache_dir) (map (with_channel label) rs)
  unfolding manifest_of
  labelled label [] a = tt
  labelled label (r ∷ rs) a = (a.0, labelled label rs a.1)

  given-IsReadable :
      (paths : List Text) → All (IsReadable net cache_dir) (given net fs cache_dir paths)
  unfolding given
  given-IsReadable [] = tt
  given-IsReadable (path ∷ more) =
      All-append (IsReadable net cache_dir) _ _
        (either (has_archive_suffix path) (archive_ref net fs cache_dir path)
          (dir_ref net fs cache_dir path) (archive_ref-IsReadable path) (dir_ref-IsReadable path))
        (given-IsReadable more)
    where
      either :
          (b : Bool) (o p : Option BundleRef)
          → All (IsReadable net cache_dir) (as_list o)
          → All (IsReadable net cache_dir) (as_list p)
          → All (IsReadable net cache_dir) (as_list (if b then o else p))
      either true o p a c = a
      either false o p a c = c

  in_channel-IsReadable :
      (label root : Text) (names : List Text)
      → All (IsReadable net cache_dir) (in_channel net fs cache_dir label root names)
  unfolding in_channel
  in_channel-IsReadable label root [] = tt
  in_channel-IsReadable label root (build ∷ more) =
      All-append (IsReadable net cache_dir) _ _
        (labelled label _ (dir_ref-IsReadable (root ++ (codes "/" ++ build))))
        (in_channel-IsReadable label root more)

  in_bucket-IsReadable :
      (label root : Text) (names : List Text)
      → All (IsReadable net cache_dir) (in_bucket net fs cache_dir label root names)
  unfolding in_bucket
  in_bucket-IsReadable label root [] = tt
  in_bucket-IsReadable label root (channel ∷ more) =
      All-append (IsReadable net cache_dir) _ _
        (in_channel-IsReadable label (root ++ (codes "/" ++ channel)) _)
        (in_bucket-IsReadable label root more)

  archives_in-IsReadable :
      (label root : Text) (names : List Text)
      → All (IsReadable net cache_dir) (archives_in net fs cache_dir label root names)
  unfolding archives_in
  archives_in-IsReadable label root [] = tt
  archives_in-IsReadable label root (file ∷ more) =
      All-append (IsReadable net cache_dir) _ _
        (if-All (has_archive_suffix file) _ []
          (labelled label _ (archive_ref-IsReadable (trim_end b'/' root ++ (codes "/" ++ file))))
          tt)
        (archives_in-IsReadable label root more)

  on_medium-IsReadable :
      (device root : Text) → All (IsReadable net cache_dir) (on_medium net fs cache_dir device root)
  unfolding on_medium
  on_medium-IsReadable device root =
      let label = codes "media " ++ device in
      let bundles_root = trim_end b'/' root ++ codes "/bundles" in
      let mirrored = read_dirs fs bundles_root in
      let files = read_files fs root in
      All-append (IsReadable net cache_dir) _ _ (labelled label _ (dir_ref-IsReadable root)) (
        All-append (IsReadable net cache_dir)
          (in_bucket net fs cache_dir label bundles_root mirrored)
          (archives_in net fs cache_dir label root files)
          (in_bucket-IsReadable label bundles_root mirrored)
          (archives_in-IsReadable label root files))

  on_media-IsReadable :
      (media : List (Text × Text))
      → All (IsReadable net cache_dir) (on_media net fs cache_dir media)
  unfolding on_media
  on_media-IsReadable [] = tt
  on_media-IsReadable ((device, root) ∷ more) =
      All-append (IsReadable net cache_dir) (on_medium net fs cache_dir device root) _
        (on_medium-IsReadable device root) (on_media-IsReadable more)

  drop_repeats-IsReadable :
      (rs : List BundleRef)
      → All (IsReadable net cache_dir) rs
      → All (IsReadable net cache_dir) (drop_repeats rs)
  unfolding drop_repeats
  drop_repeats-IsReadable [] a = tt
  drop_repeats-IsReadable (r ∷ rs) a = joined (drop_repeats rs) (drop_repeats-IsReadable rs a.1)
    where
      joined :
          (more : List BundleRef)
          → All (IsReadable net cache_dir) more
          → All (IsReadable net cache_dir) (elim more [
            | [] ↦ r ∷ []
            | b ∷ rest ↦ if text_eq b.id r.id then r ∷ rest else r ∷ b ∷ rest
          ])
      joined [] c = (a.0, tt)
      joined (b ∷ rest) c = if-All (text_eq b.id r.id) (r ∷ rest) (r ∷ b ∷ rest) (a.0, c.1) (a.0, c)

-- Every local bundle that is offered can be read: what loading it reads first, its archive or the
-- manifest in its directory, is a manifest that gives the bundle a name; and its files are in the
-- directory that is its id or, where it is an archive, in the scratch directory that this archive is to
-- be unpacked into.
pub discover_local-IsReadable :
    (net : Manifests) (fs : Folders) (cache_dir : Text) (paths : List Text)
    (media : List (Text × Text))
    → All (IsReadable net cache_dir) (discover_local net fs cache_dir paths media)
unfolding discover_local
discover_local-IsReadable net fs cache_dir paths media =
    drop_repeats-IsReadable net fs cache_dir _ (
      sort_by-All local_le (IsReadable net cache_dir) _ (
        All-append (IsReadable net cache_dir) _ _ (given-IsReadable net fs cache_dir paths)
          (on_media-IsReadable net fs cache_dir media)))
