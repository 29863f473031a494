-- ===== src/Bundle/Pinned.antt =====
-- src/core/bundle.rs: what a resolved bundle pins, down to the plan of what an installation reads.
use flipperos_installer.Base.{
  ℕ, ◌≡◌, ◌⊎◌, refl, sym, subst, ap, ◌∙◌, Bool, true, false, not, List, [], ◌∷◌, ◌++◌, any,
  find-eq-true, find-Any, find-none, Any, All, Option, none, some, option_map, Text, codes, ok,
  >>=-eq-ok, ok_or-eq-ok, ok-injective, bail_if-ok, bail_if, ok_or, and_some-eq-some, if◌then◌else◌,
  text_eq, text_eq_sound, strip_prefix, strip_prefix-append, ==_iff, Bool-cases, Option-cases, inl,
  inr, arith,
}
use flipperos_installer.Model.{
  BundleLocation, join_location, BundleRef, SelectedBundle, FalconImage, PackFile, is_minimal,
}
use flipperos_installer.Catalog.{digest_of, generic, listed_or_generic}
use flipperos_installer.Catalog.Names.{parse_pack, parse_home_pack}
use flipperos_installer.Catalog.Packs.{no_packs}
use flipperos_installer.Catalog.Packs.Good.{
  OnSome, IsGood, AreGood, FileIsGood, add_files-AreGood, sort_profiles-IsGood,
}
use flipperos_installer.Bundle.{Manifest, FileEntry, bundle_board_dir, has_char, device_types}
use flipperos_installer.Bundle.Resolve.{
  packs_prefix, uboot_rel, menu_rel, recovery_rel, file_at, falcon_at, pack_name, pack_files,
  packs_of, resolve_for, resolve_bundle, load_bundle, read_for, Manifests,
}

-- A location with a size and a digest is that of a file of the manifest.
abbrev pub Names : BundleLocation → Text → ℕ → Option Text → FileEntry → Type 0
Names l location size sha256 f =
    (location ≡ join_location l f.path) × (size ≡ f.size) × (sha256 ≡ digest_of f.sha256)

abbrev pub IsFile : BundleLocation → Manifest → Text → ℕ → Option Text → Type 0
IsFile l m location size sha256 = Any (Names l location size sha256) m.files

-- The file with a path, or that there is none
abbrev pub IsAt : BundleLocation → Manifest → Text → Option FalconImage → Type 0
IsAt l m path none = All (λ f. text_eq f.path path ≡ false) m.files
IsAt l m path (some i) =
    Any (λ f. (f.path ≡ path) × Names l i.location i.size_bytes i.sha256 f) m.files

-- A pack of a profile, or the `/home` seed, comes from a file in the packs' directory itself that is
-- named so.
abbrev pub IsPackOf : BundleLocation → Manifest → Text → Bool → PackFile → Type 0
IsPackOf l m name is_inc pack =
    Any
      (λ f.
        (fname : Text) × (build : Text) × (f.path ≡ packs_prefix ++ fname)
        × (parse_pack fname ≡ some (name, build, is_inc))
        × Names l pack.location pack.size_bytes pack.sha256 f)
      m.files

abbrev pub IsSeed : BundleLocation → Manifest → PackFile → Type 0
IsSeed l m pack =
    Any
      (λ f.
        (fname : Text) × (build : Text) × (f.path ≡ packs_prefix ++ fname)
        × (parse_home_pack fname ≡ some build)
        × Names l pack.location pack.size_bytes pack.sha256 f)
      m.files

module _ (l : BundleLocation) (m : Manifest) where
  file_at-Any :
      (path : Text) {f : FileEntry}
      → file_at m path ≡ some f
      → Any
          (λ g. (g.path ≡ path) × Names l (join_location l path) f.size (digest_of f.sha256) g)
          m.files
  unfolding file_at
  file_at-Any path {f} h =
      let e = text_eq_sound f.path path (find-eq-true (λ g. text_eq g.path path) m.files h) in
      find-Any _ (λ g. text_eq g.path path) m.files h
        (e, (ap (join_location l) (sym e), refl, refl))

  falcon-IsAt :
      (path : Text) (o : Option FileEntry)
      → file_at m path ≡ o
      → IsAt l m path (option_map (falcon_at l path) o)
  unfolding file_at
  falcon-IsAt path none h = find-none (λ g. text_eq g.path path) m.files h
  falcon-IsAt path (some f) h = file_at-Any path h

  pack_name-path :
      (f : FileEntry) {fname : Text} → pack_name f ≡ some fname → f.path ≡ packs_prefix ++ fname
  unfolding pack_name
  pack_name-path f {fname} h =
      let (rest, p, q) = and_some-eq-some (strip_prefix packs_prefix f.path) _ h in
      strip_prefix-append packs_prefix f.path p ∙ ap (λ t. packs_prefix ++ t) (same rest fname q)
    where
      same :
          (rest fname : Text)
          → (if has_char b'/' rest then none else some rest) ≡ some fname
          → rest ≡ fname
      same rest fname h = ground arith

  pack_files-IsGood :
      (fs : List FileEntry)
      → ((P : FileEntry → Type 0) → Any P fs → Any P m.files)
      → All (FileIsGood (IsPackOf l m) (IsSeed l m)) (pack_files l fs)
  unfolding pack_files
  pack_files-IsGood [] inject = tt
  pack_files-IsGood (f ∷ fs) inject = elim (Option-cases (pack_name f)) [
    | inl n ↦ rw n (pack_files-IsGood fs (λ P a. inject P (inr a)))
    | inr (fname, e) ↦
        let path = pack_name-path f e in
        rw e (
          (
            (λ name build is_inc p. inject _ (inl (fname, build, path, p, (refl, refl, refl)))),
            (λ build p. inject _ (inl (fname, build, path, p, (refl, refl, refl)))),
          ),
          pack_files-IsGood fs (λ P a. inject P (inr a)),
        )
  ]

  packs-AreGood : AreGood (IsPackOf l m) (IsSeed l m) (packs_of l m)
  packs-AreGood =
      add_files-AreGood (IsPackOf l m) (IsSeed l m) (pack_files l m.files) no_packs
        (pack_files-IsGood m.files (λ P a. a)) (tt, tt)

-- What a bundle that was resolved for a board directory pins
abbrev pub IsPinned : BundleLocation → Manifest → SelectedBundle → Type 0
IsPinned l m s =
    Any
      (λ f.
        (f.path ≡ uboot_rel s.board_dir)
        × Names l s.uboot.image_location s.uboot.size_bytes s.uboot.sha256 f)
      m.files
    × IsAt l m (menu_rel s.board_dir) s.boot_menu
    × IsAt l m (recovery_rel s.board_dir) s.recovery
    × All (IsGood (IsPackOf l m) (IsSeed l m)) s.build.profiles
    × OnSome (IsSeed l m) s.build.home_pack
    × (any is_minimal s.build.profiles ≡ true)

not-eq-false : (b : Bool) → not b ≡ false → b ≡ true
not-eq-false true h = refl
not-eq-false false h = cc

resolve_for-IsPinned :
    (r : BundleRef) (l : BundleLocation) (m : Manifest) (board : Text) {s : SelectedBundle}
    → resolve_for r l m board ≡ ok s
    → IsPinned l m s × (s.board_dir ≡ board)
unfolding resolve_for
resolve_for-IsPinned r l m board {s} h =
    let (f, p, h1) = >>=-eq-ok (ok_or (file_at m (uboot_rel board)) _) _ h in
    let (u, q, h2) = >>=-eq-ok (bail_if _ _) _ h1 in
    let good = packs-AreGood l m in
    subst (λ t. IsPinned l m t × (t.board_dir ≡ board)) (ok-injective h2)
      (
        (
          file_at-Any l m (uboot_rel board) (ok_or-eq-ok _ _ p),
          falcon-IsAt l m (menu_rel board) (file_at m (menu_rel board)) refl,
          falcon-IsAt l m (recovery_rel board) (file_at m (recovery_rel board)) refl,
          sort_profiles-IsGood (IsPackOf l m) (IsSeed l m) (packs_of l m).profiles good.0,
          good.1,
          not-eq-false _ (bail_if-ok _ _ q),
        ),
        refl,
      )

board_dir-cases :
    (m : Manifest) (id : Text) → (bundle_board_dir m id ≡ id) ⊎ (bundle_board_dir m id ≡ generic)
unfolding bundle_board_dir listed_or_generic
board_dir-cases m id = elim (Bool-cases (any (λ t. text_eq t id) (device_types m))) [
  | inl e ↦ inl (rw e refl)
  | inr e ↦ elim (Bool-cases (text_eq id (codes "flipper-one"))) [
    | inl k ↦ inl (rw e (rw k (sym (text_eq_sound id (codes "flipper-one") k))))
    | inr k ↦ inr (rw e (rw k refl))
  ]
]

-- A bundle that loads has a manifest of schema 1, read from its archive or its location. U-Boot is the
-- image that the manifest lists for the board asked for or for the generic one; the boot menu and the
-- recovery image are those that it lists for the same board, where it lists any; every profile's pack
-- is a file in the packs' directory itself whose name says that profile and that kind, and the `/home`
-- seed one whose name says so; each with the location of that file below the bundle's, and with its
-- size and digest. And a Minimal profile is among the profiles.
pub load_bundle-IsPinned :
    (net : Manifests) (r : BundleRef) (id : Text) (s : SelectedBundle)
    → load_bundle net r id ≡ ok s
    → (m : Manifest) × (read_for net r r.archive ≡ ok m)
      × (m.schema ≡ 1)
      × IsPinned r.location m s
      × ((s.board_dir ≡ id) ⊎ (s.board_dir ≡ generic))
unfolding load_bundle resolve_bundle
load_bundle-IsPinned net r id s h =
    let (m, p, h1) = >>=-eq-ok (read_for net r r.archive) _ h in
    let (u, q, h2) = >>=-eq-ok (bail_if _ _) _ h1 in
    let (pinned, board) = resolve_for-IsPinned r r.location m (bundle_board_dir m id) h2 in
    (
      m,
      p,
      (==_iff m.schema 1).0 (not-eq-false _ (bail_if-ok _ _ q)),
      pinned,
      subst (λ d. (d ≡ id) ⊎ (d ≡ generic)) (sym board) (board_dir-cases m id),
    )
