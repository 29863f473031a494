-- ===== src/Catalog.antt =====
-- src/core/catalog.rs: where the image catalog is read from, the listings and manifests it is made of,
-- and the builds that they list. The fetched and decoded listings are a parameter.
pub mod Names
pub mod Packs
pub mod Contents
pub mod Listed
pub mod Newest
use flipperos_installer.Base.{
  ℕ, Bool, true, false, ◌||◌, List, [], ◌∷◌, ◌++◌, map, any, take, Option, none, some, Text, codes,
  Result, ok, err, panicked, if◌then◌else◌, text_eq, trim_start, trim_end, is_empty, and_some,
  get_or_else, strip_suffix, sort_by,
}
use flipperos_installer.Ufs.Rescan.{text_le, after_last}
use flipperos_installer.Model.{
  Source, server, removable, BuildMeta, BuildDetails, SourceStamp, UbootBuild, FalconBuild,
  SnapshotBuild,
}
use Names.{uboot_label, snapshot_label, revision_label}

-- `UBOOT_IMAGE` and the other names of directories and images
abbrev pub uboot_image : Text
uboot_image = codes "u-boot-rockchip.bin"

abbrev pub boot_menu_dir : Text
boot_menu_dir = codes "falcon-bootmenu"

abbrev pub boot_menu_image : Text
boot_menu_image = codes "bootmenu-falcon.itb"

abbrev pub recovery_dir : Text
recovery_dir = codes "falcon-recovery"

abbrev pub recovery_image : Text
recovery_image = codes "recovery-falcon.itb"

pub data Origin : Type 0 where
  remote_server : (base : Text) → Origin
  media : (device root : Text) → Origin

abbrev base_of : Origin → Text
base_of (remote_server base) = base
base_of (media device root) = root

-- `Origin::source`
abbrev pub source_of : Origin → Source
source_of (remote_server base) = server
source_of (media device root) = removable device root

-- `Origin::join`
unfoldable pub join_origin : Origin → Text → Text
unfolding trim_end trim_start
join_origin o rel = trim_end b'/' (base_of o) ++ (codes "/" ++ trim_start b'/' rel)

pub record DirEntry : Type 0 where
  pub name : Text
  pub mtime : Option Text

pub record FileEntry : Type 0 where
  pub path : Text
  pub size : ℕ
  pub sha256 : Option Text
  pub mtime : Text

-- `FileEntry::digest`: an empty one is none.
abbrev pub digest_of : Option Text → Option Text
digest_of sha256 = and_some sha256 λ s. if is_empty s then none else some s

pub record BuildManifest : Type 0 where
  pub build : BuildMeta
  pub sourcestamps : List SourceStamp
  pub files : List FileEntry

abbrev pub details_of : BuildManifest → BuildDetails
details_of bm = record { build = bm.build; sourcestamps = bm.sourcestamps }

-- `fetch::json`, by the location that is read.
pub record Published : Type 0 where
  pub listing : Text → Result Text (List DirEntry)
  pub manifest : Text → Result Text BuildManifest

abbrev pub generic : Text
generic = codes "generic"

-- `board_dir`
unfoldable pub listed_or_generic : Text → Text
unfolding text_eq
listed_or_generic board_id =
    if text_eq board_id (codes "flipper-one") then codes "flipper-one" else generic

abbrev pub has_none : List Text → Bool
has_none [] = true
has_none (t ∷ ts) = false

unfoldable pub listing_board_dir : Text → List Text → Text
unfolding listed_or_generic text_eq
listing_board_dir board_id offered =
    if has_none offered || any (λ t. text_eq t board_id) offered
    then board_id
    else listed_or_generic board_id

-- The order of modification times, none before any
unfoldable pub time_le : Option Text → Option Text → Bool
unfolding text_le
time_le none t = true
time_le (some s) none = false
time_le (some s) (some t) = text_le s t

abbrev pub newer_first : DirEntry → DirEntry → Bool
unfolding time_le
newer_first a b = time_le b.mtime a.mtime

unfoldable pub newest_first : List DirEntry → ℕ → List DirEntry
unfolding sort_by
newest_first dirs limit = take limit (sort_by newer_first dirs)

abbrev newest_of : Result Text (List DirEntry) → ℕ → List DirEntry
unfolding newest_first
newest_of (ok dirs) limit = newest_first dirs limit
newest_of (err e) limit = []
newest_of panicked limit = []

module _ (net : Published) (o : Origin) where
  -- `list_builds`: each entry with the location that its files hang off
  unfoldable pub list_builds : Text → ℕ → List (DirEntry × Text)
  unfolding join_origin newest_first
  list_builds top_dir limit =
      map (λ d. (d, join_origin o (top_dir ++ (codes "/" ++ d.name))))
        (newest_of (net.listing (join_origin o (top_dir ++ codes "/manifest.json"))) limit)

  abbrev pub uboot_build : Text → DirEntry × Text → UbootBuild
  unfolding uboot_label
  uboot_build board_dir (d, base) = record {
    id = d.name;
    label = uboot_label d.name;
    mtime = get_or_else d.mtime [];
    image_location = base ++ (board_dir ++ (codes "/" ++ uboot_image));
    manifest_location = base ++ codes "manifest.json";
    source = source_of o;
    size_bytes = 0;
    sha256 = none;
    details = none;
    boot_menu = none;
    loaded = false;
  }

  unfoldable pub uboot_builds : Text → ℕ → List UbootBuild
  unfolding list_builds
  uboot_builds board_dir limit = map (uboot_build board_dir) (list_builds (codes "u-boot") limit)

  abbrev pub falcon_build : (top_dir image key board_dir : Text) → DirEntry × Text → FalconBuild
  unfolding revision_label
  falcon_build top_dir image key board_dir (d, base) = record {
    id = d.name;
    label = revision_label d.name key top_dir;
    mtime = get_or_else d.mtime [];
    image_location = base ++ (board_dir ++ (codes "/" ++ image));
    manifest_location = base ++ codes "manifest.json";
    source = source_of o;
    size_bytes = 0;
    sha256 = none;
    details = none;
    loaded = false;
  }

  unfoldable pub falcon_builds : (top_dir image key board_dir : Text) → ℕ → List FalconBuild
  unfolding list_builds
  falcon_builds top_dir image key board_dir limit =
      map (falcon_build top_dir image key board_dir) (list_builds top_dir limit)

  unfoldable pub boot_menu_builds : Text → ℕ → List FalconBuild
  unfolding falcon_builds
  boot_menu_builds = falcon_builds boot_menu_dir boot_menu_image (codes "bootmenu")

  unfoldable pub recovery_builds : Text → ℕ → List FalconBuild
  unfolding falcon_builds
  recovery_builds = falcon_builds recovery_dir recovery_image (codes "recovery")

  abbrev pub snapshot_build : DirEntry × Text → SnapshotBuild
  unfolding snapshot_label
  snapshot_build (d, base) = record {
    id = d.name;
    label = snapshot_label d.name;
    mtime = get_or_else d.mtime [];
    source = source_of o;
    base_location = base;
    build_number = none;
    profiles = [];
    home_pack = none;
    loaded = false;
    details = none;
  }

  unfoldable pub snapshot_builds : ℕ → List SnapshotBuild
  unfolding list_builds
  snapshot_builds limit = map snapshot_build (list_builds (codes "rootfs") limit)
