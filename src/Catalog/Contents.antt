-- ===== src/Catalog/Contents.antt =====
-- src/core/catalog.rs: what is read of a build's manifest once the build is selected.
use flipperos_installer.Base.{
  ℕ, Bool, ◌||◌, List, [], ◌∷◌, ◌++◌, map, any, find, Option, none, some, Text, codes, Result, ok,
  err, panicked, ◌>>=◌, ok_or, if◌then◌else◌, text_eq, trim_end, is_empty, and_some, is_some,
  option_map, strip_prefix, strip_suffix, split_last, sort_by,
}
use flipperos_installer.Ufs.Rescan.{text_le, after_last}
use flipperos_installer.Model.{
  BuildDetails, FalconImage, PackFile, ProfilePack, UbootBuild, FalconBuild, SnapshotBuild,
}
use flipperos_installer.Catalog.{
  Published, Origin, join_origin, FileEntry, BuildManifest, details_of, digest_of, uboot_image,
  boot_menu_image, recovery_image, newest_first,
}
use flipperos_installer.Catalog.Packs.{no_packs, add_files, sort_profiles}

-- `listed_board_dir`
unfoldable pub listed_board_dir : (image_location manifest_location image : Text) → Result Text Text
unfolding strip_prefix strip_suffix
listed_board_dir image_location manifest_location image =
    ok_or
      (and_some (strip_suffix (codes "manifest.json") manifest_location) λ base.
        and_some (strip_prefix base image_location) λ rel.
          and_some (strip_suffix (codes "/" ++ image) rel)
            λ dir. if is_empty dir then none else some dir)
      (image_location
        ++ (codes " is not a <board>/" ++ (image ++ (codes " beside " ++ manifest_location))))

-- The file in the board's directory, bare or under a leading directory
unfoldable pub is_wanted : Text → Text → Bool
unfolding text_eq strip_suffix
is_wanted wanted path = text_eq path wanted || is_some (strip_suffix (codes "/" ++ wanted) path)

unfoldable pub find_for_board : BuildManifest → (board_dir name : Text) → Option FileEntry
unfolding is_wanted
find_for_board bm board_dir name =
    find (λ f. is_wanted (board_dir ++ (codes "/" ++ name)) f.path) bm.files

unfoldable pub sibling_of : (location name : Text) → Text
unfolding split_last
sibling_of location name = elim (split_last b'/' location) [
  | some (dir, last) ↦ dir ++ (codes "/" ++ name)
  | none ↦ name
]

pub record FalconContents : Type 0 where
  pub size : ℕ
  pub sha256 : Option Text
  pub mtime : Text
  pub details : BuildDetails

abbrev lists_no : (manifest_location board_dir image : Text) → Text
lists_no manifest_location board_dir image =
    manifest_location ++ (codes " lists no " ++ (board_dir ++ (codes "/" ++ image)))

unfoldable pub falcon_contents : BuildManifest → FalconBuild → Text → Result Text FalconContents
unfolding listed_board_dir find_for_board
falcon_contents bm build image =
    listed_board_dir build.image_location build.manifest_location image >>= λ board_dir.
    ok_or (find_for_board bm board_dir image) (lists_no build.manifest_location board_dir image)
    >>= λ f. ok (record {
      size = f.size;
      sha256 = digest_of f.sha256;
      mtime = f.mtime;
      details = details_of bm;
    })

pub record UbootContents : Type 0 where
  pub size : ℕ
  pub sha256 : Option Text
  pub mtime : Text
  pub details : BuildDetails
  pub boot_menu : Option FalconImage

abbrev pub menu_beside : UbootBuild → FileEntry → FalconImage
unfolding sibling_of
menu_beside build f = record {
  location = sibling_of build.image_location boot_menu_image;
  source = build.source;
  size_bytes = f.size;
  sha256 = digest_of f.sha256;
}

unfoldable pub uboot_contents : BuildManifest → UbootBuild → Result Text UbootContents
unfolding listed_board_dir find_for_board sibling_of
uboot_contents bm build =
    listed_board_dir build.image_location build.manifest_location uboot_image >>= λ board_dir.
    ok_or (find_for_board bm board_dir uboot_image)
      (lists_no build.manifest_location board_dir uboot_image)
    >>= λ image. ok (record {
      size = image.size;
      sha256 = digest_of image.sha256;
      mtime = image.mtime;
      details = details_of bm;
      boot_menu = option_map (menu_beside build) (find_for_board bm board_dir boot_menu_image);
    })

abbrev pub pack_entry : SnapshotBuild → FileEntry → Text × PackFile
unfolding after_last
pack_entry build f =
    let fname = after_last b'/' [] f.path in
    (
      fname,
      record {
        location = build.base_location ++ fname;
        source = build.source;
        size_bytes = f.size;
        sha256 = digest_of f.sha256;
      },
    )

-- What `load_profiles` makes of the manifest: the build's number, its profiles and its `/home` seed
unfoldable pub profiles_of :
    BuildManifest → SnapshotBuild → Option ℕ × List ProfilePack × Option PackFile
unfolding add_files sort_by
profiles_of bm build =
    let packs = add_files (map (pack_entry build) bm.files) no_packs in
    (bm.build.number, sort_profiles packs.profiles, packs.home)

module _ (net : Published) where
  unfoldable pub load_boot_menu_contents : FalconBuild → Result Text FalconContents
  unfolding falcon_contents
  load_boot_menu_contents build =
      net.manifest build.manifest_location >>= λ bm. falcon_contents bm build boot_menu_image

  unfoldable pub load_recovery_contents : FalconBuild → Result Text FalconContents
  unfolding falcon_contents
  load_recovery_contents build =
      net.manifest build.manifest_location >>= λ bm. falcon_contents bm build recovery_image

  unfoldable pub load_uboot_contents : UbootBuild → Result Text UbootContents
  unfolding uboot_contents
  load_uboot_contents build = net.manifest build.manifest_location >>= λ bm. uboot_contents bm build

  unfoldable pub load_profiles :
      SnapshotBuild → Result Text (Option ℕ × List ProfilePack × Option PackFile)
  unfolding profiles_of
  load_profiles build = net.manifest (build.base_location ++ codes "manifest.json") >>= λ bm.
      ok (profiles_of bm build)

-- The board that a file of a U-Boot build is for, if it is the image
abbrev pub image_board : FileEntry → Option Text
unfolding strip_suffix after_last
image_board f =
    and_some (strip_suffix (codes "/" ++ uboot_image) f.path)
      λ dir. let id = after_last b'/' [] dir in if is_empty id then none else some id

abbrev pub add_new : Option Text → List Text → List Text
unfolding text_eq
add_new none types = types
add_new (some id) types = if any (text_eq id) types then types else types ++ id ∷ []

unfoldable pub image_boards : List FileEntry → List Text → List Text
unfolding strip_suffix after_last text_eq
image_boards [] types = types
image_boards (f ∷ fs) types = image_boards fs (add_new (image_board f) types)

abbrev boards_in : Result Text BuildManifest → List Text
unfolding image_boards sort_by text_le
boards_in (ok bm) = sort_by text_le (image_boards bm.files [])
boards_in (err e) = []
boards_in panicked = []

-- `supported_device_types`
unfoldable pub supported_device_types : Published → Origin → List Text
unfolding join_origin newest_first trim_end image_boards sort_by text_le
supported_device_types net o = elim (net.listing (join_origin o (codes "u-boot/manifest.json"))) [
  | ok dirs ↦ elim (newest_first dirs 1) [
    | [] ↦ []
    | newest ∷ older ↦ boards_in (
        net.manifest (
          join_origin o (codes "u-boot/" ++ (trim_end b'/' newest.name ++ codes "/manifest.json"))))
  ]
  | err e ↦ []
  | panicked ↦ []
]
