-- ===== src/Bundle.antt =====
-- src/core/bundle.rs: update bundles, how they are listed and what their manifests say. The fetched and
-- decoded listings and manifests are a parameter.
pub mod Listing
pub mod Query
pub mod Pages
pub mod Resolve
pub mod Pinned
pub mod Staged
pub mod Local
use flipperos_installer.Base.{
  ℕ, Bool, true, false, not, ◌&&◌, List, [], ◌∷◌, ◌++◌, any, Option, none, some, Text, codes,
  if◌then◌else◌, ◌==◌, text_eq, trim_start, trim_end, is_empty, and_some, strip_prefix,
  strip_suffix, sort_by,
}
use flipperos_installer.Ufs.Rescan.{text_le}
use flipperos_installer.Model.{BuildMeta, BuildDetails, SourceStamp}
use flipperos_installer.Catalog.{uboot_image, listed_or_generic}

-- `Repo`
pub record Repo : Type 0 where
  pub list_url : Text
  pub base_url : Text
  pub prefix : Text

-- `trim_matches('/')`
abbrev pub trim_both : Text → Text
unfolding trim_start trim_end
trim_both path = trim_end b'/' (trim_start b'/' path)

unfoldable pub prefix_of : Repo → Text → Text
unfolding trim_start trim_end
prefix_of repo path =
    if is_empty (trim_both path) then repo.prefix else repo.prefix ++ (codes "/" ++ trim_both path)

unfoldable pub url_of : Repo → Text → Text
unfolding prefix_of
url_of repo path = repo.base_url ++ (codes "/" ++ prefix_of repo path)

pub record FileEntry : Type 0 where
  pub path : Text
  pub size : ℕ
  pub mtime : Text
  pub sha256 : Option Text
  pub item : Text

pub record Meta : Type 0 where
  pub name : Text
  pub version : Text
  pub channel : Text
  pub description : Text
  pub archive : Text
  pub build : BuildMeta

pub record Manifest : Type 0 where
  pub schema : ℕ
  pub bundle : Meta
  pub sourcestamps : List SourceStamp
  pub files : List FileEntry

-- `Manifest::details`
abbrev pub bundle_details : Manifest → BuildDetails
bundle_details m = record { build = m.bundle.build; sourcestamps = m.sourcestamps }

abbrev pub has_char : ℕ → Text → Bool
has_char c s = any (λ d. d == c) s

-- The board that a file is the U-Boot image of, if it is one
unfoldable pub board_of_path : Text → Option Text
unfolding strip_suffix strip_prefix
board_of_path path = and_some (strip_suffix (codes "/" ++ uboot_image) path) λ dir.
    and_some (strip_prefix (codes "u-boot/") dir)
      λ board. if not (is_empty board) && not (has_char b'/' board) then some board else none

abbrev add_board : Option Text → List Text → List Text
unfolding text_eq
add_board none out = out
add_board (some board) out = if any (λ b. text_eq b board) out then out else out ++ (board ∷ [])

unfoldable pub boards_of : List FileEntry → List Text → List Text
unfolding board_of_path text_eq
boards_of [] out = out
boards_of (f ∷ fs) out = boards_of fs (add_board (board_of_path f.path) out)

unfoldable pub device_types : Manifest → List Text
unfolding boards_of sort_by text_le
device_types m = sort_by text_le (boards_of m.files [])

-- `Manifest::board_dir`
unfoldable pub bundle_board_dir : Manifest → Text → Text
unfolding device_types text_eq listed_or_generic
bundle_board_dir m board_id =
    if any (λ t. text_eq t board_id) (device_types m) then board_id else listed_or_generic board_id
