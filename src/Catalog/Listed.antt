-- ===== src/Catalog/Listed.antt =====
-- src/core/catalog.rs: the digest and the location of an image are those of one file.
use mathlib.Core.List.{append_assoc}
use flipperos_installer.Base.{
  ℕ, ◌≡◌, ◌≢◌, ◌⊎◌, inl, inr, refl, sym, ap, subst, ◌∙◌, true, false, List, [], ◌∷◌, ◌++◌, map,
  Option, none, some, Text, codes, ok, ok_or, >>=-eq-ok, ok-injective, and_some-eq-some,
  ok_or-eq-ok, if◌then◌else◌, text_eq, text_eq_sound, text_eq_refl, is_empty, option_map,
  strip_prefix, strip_suffix, strip_prefix-append, strip_suffix-append, strip_prefix-of_append,
  strip_suffix-of_append, Lacks, split_last-append, find-eq-true, find-Any, find-none, Any, All,
  arith, Bool-cases, Option-cases,
}
use flipperos_installer.Model.{UbootBuild, FalconImage}
use flipperos_installer.Catalog.{
  Published, Origin, FileEntry, BuildManifest, DirEntry, digest_of, uboot_image, boot_menu_image,
  uboot_build, uboot_builds, list_builds,
}
use flipperos_installer.Catalog.Contents.{
  listed_board_dir, is_wanted, find_for_board, sibling_of, UbootContents, uboot_contents,
  load_uboot_contents, menu_beside,
}

-- A path that is the wanted one, bare or under a leading directory
abbrev pub EndsIn : Text → Text → Type 0
EndsIn wanted path = (path ≡ wanted) ⊎ ((lead : Text) × (path ≡ lead ++ (codes "/" ++ wanted)))

abbrev pub under_board : Text → Text → Text
under_board board image = board ++ (codes "/" ++ image)

-- The manifest lists the board's image with this size and this digest.
abbrev pub IsListed : List FileEntry → (board image : Text) → ℕ → Option Text → Type 0
IsListed files board image size sha256 =
    Any
      (λ f.
        EndsIn (under_board board image) f.path × (size ≡ f.size) × (sha256 ≡ digest_of f.sha256))
      files

is_wanted-EndsIn : (wanted path : Text) → is_wanted wanted path ≡ true → EndsIn wanted path
unfolding is_wanted
is_wanted-EndsIn wanted path h = elim (Bool-cases (text_eq path wanted)) [
  | inl e ↦ inl (text_eq_sound path wanted e)
  | inr e ↦ elim (Option-cases (strip_suffix (codes "/" ++ wanted) path)) [
    | inl n ↦ absurd (ground arith)
    | inr (lead, q) ↦ inr (lead, strip_suffix-append (codes "/" ++ wanted) path q)
  ]
]

EndsIn-is_wanted : (wanted path : Text) → EndsIn wanted path → is_wanted wanted path ≡ true
unfolding is_wanted
EndsIn-is_wanted wanted path (inl e) = rw (e, text_eq_refl wanted) refl
EndsIn-is_wanted wanted path (inr (lead, e)) =
    rw (e, strip_suffix-of_append (codes "/" ++ wanted) lead) (ground arith)

unwanted :
    (wanted : Text) (files : List FileEntry)
    → All (λ f. is_wanted wanted f.path ≡ false) files
    → All (λ f. ¬ EndsIn wanted f.path) files
unwanted wanted [] a = tt
unwanted wanted (f ∷ fs) a =
    (λ e. cc (EndsIn-is_wanted wanted f.path e, a.0), unwanted wanted fs a.1)

found-IsListed :
    (bm : BuildManifest) (board image : Text) {f : FileEntry}
    → find_for_board bm board image ≡ some f
    → IsListed bm.files board image f.size (digest_of f.sha256)
unfolding find_for_board
found-IsListed bm board image {f} h =
    find-Any _ (λ g. is_wanted (under_board board image) g.path) bm.files h
      (
        is_wanted-EndsIn (under_board board image) f.path
            (find-eq-true (λ g. is_wanted (under_board board image) g.path) bm.files h),
        refl,
        refl,
      )

nonempty :
    (dir board : Text)
    → (if is_empty dir then none else some dir) ≡ some board
    → (dir ≡ board) × (board ≢ [])
nonempty [] board h = cc
nonempty (c ∷ dir) board h = (ground arith, λ p. ground arith)

kept :
    (board e : Text) → board ≢ [] → ok_or (if is_empty board then none else some board) e ≡ ok board
kept [] e n = absurd (n refl)
kept (c ∷ board) e n = refl

-- Where a board's directory can be read off a location, it is what stands between the directory of
-- the manifest and the image.
abbrev pub IsBeside : (image_location manifest_location image board : Text) → Type 0
IsBeside image_location manifest_location image board =
    (base : Text) × (manifest_location ≡ base ++ codes "manifest.json")
    × (image_location ≡ base ++ under_board board image)
    × (board ≢ [])

listed_board_dir-IsBeside :
    (i m image : Text) {board : Text}
    → listed_board_dir i m image ≡ ok board
    → IsBeside i m image board
unfolding listed_board_dir
listed_board_dir-IsBeside i m image {board} h =
    let (base, p, h1) =
      and_some-eq-some (strip_suffix (codes "manifest.json") m) _ (ok_or-eq-ok _ _ h) in
    let (rel, q, h2) = and_some-eq-some (strip_prefix base i) _ h1 in
    let (dir, r, h3) = and_some-eq-some (strip_suffix (codes "/" ++ image) rel) _ h2 in
    let same = nonempty dir board h3 in
    (
      base,
      strip_suffix-append (codes "manifest.json") m p,
      strip_prefix-append base i q
          ∙ ap (λ t. base ++ t) (strip_suffix-append (codes "/" ++ image) rel r)
          ∙ ap (λ t. base ++ under_board t image) same.0,
      same.1,
    )

listed_board_dir-of_beside :
    (base board image : Text)
    → board ≢ []
    → listed_board_dir (base ++ under_board board image) (base ++ codes "manifest.json") image
      ≡ ok board
unfolding listed_board_dir
listed_board_dir-of_beside base board image n =
    rw (strip_suffix-of_append (codes "manifest.json") base) (
      rw (strip_prefix-of_append base (under_board board image))
        (rw (strip_suffix-of_append (codes "/" ++ image) board) (kept board _ n)))

Lacks-uboot_image : Lacks b'/' uboot_image
Lacks-uboot_image = refl

sibling_of_lem :
    (dir image name : Text)
    → Lacks b'/' image
    → sibling_of (dir ++ (b'/' ∷ image)) name ≡ dir ++ (codes "/" ++ name)
unfolding sibling_of
sibling_of_lem dir image name l = rw (split_last-append b'/' dir image l, sibling_of) refl

sibling_of-IsBeside :
    (base board name : Text)
    → sibling_of (base ++ under_board board uboot_image) name ≡ base ++ under_board board name
sibling_of-IsBeside base board name =
    ap (λ t. sibling_of t name) (sym (append_assoc base board (codes "/" ++ uboot_image)))
    ∙ sibling_of_lem (base ++ board) uboot_image name Lacks-uboot_image
    ∙ append_assoc base board (codes "/" ++ name)

-- The boot menu that is found beside an image: none where the manifest lists none for the board, and
-- else one in the image's directory, as the manifest lists it.
abbrev pub MenuIsListed :
    List FileEntry → (image_location board : Text) → Option FalconImage → Type 0
MenuIsListed files image_location board none =
    All (λ f. ¬ EndsIn (under_board board boot_menu_image) f.path) files
MenuIsListed files image_location board (some menu) =
    (menu.location ≡ sibling_of image_location boot_menu_image)
    × IsListed files board boot_menu_image menu.size_bytes menu.sha256

menu-IsListed :
    (bm : BuildManifest) (build : UbootBuild) (board : Text) (o : Option FileEntry)
    → find_for_board bm board boot_menu_image ≡ o
    → MenuIsListed bm.files build.image_location board (option_map (menu_beside build) o)
unfolding find_for_board sibling_of
menu-IsListed bm build board none h =
    unwanted (under_board board boot_menu_image) bm.files (find-none _ bm.files h)
menu-IsListed bm build board (some f) h = (refl, found-IsListed bm board boot_menu_image h)

-- What is read of the manifest is about the board's own files.
abbrev pub AreOf : BuildManifest → UbootBuild → Text → UbootContents → Type 0
AreOf bm build board c =
    IsListed bm.files board uboot_image c.size c.sha256
    × MenuIsListed bm.files build.image_location board c.boot_menu

contents_lem :
    (bm : BuildManifest) (build : UbootBuild) (board : Text) {c : UbootContents}
    → listed_board_dir build.image_location build.manifest_location uboot_image ≡ ok board
    → uboot_contents bm build ≡ ok c
    → AreOf bm build board c
unfolding uboot_contents
contents_lem bm build board {c} l h =
    let (f, p, q) = >>=-eq-ok (ok_or (find_for_board bm board uboot_image) _) _ (rw l at h) in
    subst (AreOf bm build board) (ok-injective q)
      (found-IsListed bm board uboot_image (ok_or-eq-ok _ _ p), menu-IsListed bm build board _ refl)

-- Where the contents of a U-Boot build are read, the build's image stands in a board's directory
-- beside the manifest; the size and the digest are those of a file that the manifest lists as that
-- board's image; and a boot menu is found exactly where the manifest lists one for that board, with its
-- size and digest, and is fetched from the image's directory.
pub uboot_contents-AreOf :
    (bm : BuildManifest) (build : UbootBuild) (c : UbootContents)
    → uboot_contents bm build ≡ ok c
    → (base board : Text) × (build.manifest_location ≡ base ++ codes "manifest.json")
      × (build.image_location ≡ base ++ under_board board uboot_image)
      × (sibling_of build.image_location boot_menu_image
          ≡ base ++ under_board board boot_menu_image)
      × AreOf bm build board c
unfolding uboot_contents
uboot_contents-AreOf bm build c h =
    let (board, p, q) =
      >>=-eq-ok (listed_board_dir build.image_location build.manifest_location uboot_image) _ h in
    let (base, m, i, n) = listed_board_dir-IsBeside _ _ _ p in
    (
      base,
      board,
      m,
      i,
      ap (λ t. sibling_of t boot_menu_image) i ∙ sibling_of-IsBeside base board boot_menu_image,
      contents_lem bm build board p h,
    )

-- A build that was listed for a board has its contents read for that board.
uboot_builds-AreOf :
    (net : Published) (o : Origin) (board : Text) (limit : ℕ)
    → board ≢ []
    → All
        (λ build.
          (bm : BuildManifest) (c : UbootContents)
          → net.manifest build.manifest_location ≡ ok bm
          → load_uboot_contents net build ≡ ok c
          → AreOf bm build board c)
        (uboot_builds net o board limit)
unfolding uboot_builds load_uboot_contents uboot_build
uboot_builds-AreOf net o board limit n = each (list_builds net o (codes "u-boot") limit)
  where
    each :
        (ds : List (DirEntry × Text))
        → All
            (λ build.
              (bm : BuildManifest) (c : UbootContents)
              → net.manifest build.manifest_location ≡ ok bm
              → load_uboot_contents net build ≡ ok c
              → AreOf bm build board c)
            (map (uboot_build net o board) ds)
    each [] = tt
    each ((d, base) ∷ ds) = (
      λ bm c m h.
          contents_lem bm (uboot_build net o board (d, base)) board
            (listed_board_dir-of_beside base board uboot_image n) (rw m at h),
      each ds,
    )
