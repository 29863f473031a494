-- ===== src/Bundle/Resolve.antt =====
-- src/core/bundle.rs: `resolve`, which pins the artifacts of a bundle, `load`, and the unpacking of one.
use flipperos_installer.Base.{
  ℕ, zero, suc, true, not, List, [], ◌∷◌, ◌++◌, any, find, Option, none, some, option_map, Text,
  codes, Result, ok, ◌>>=◌, ◌>>◌, bail_if, ok_or, if◌then◌else◌, ◌==◌, text_eq, trim_end, is_empty,
  and_some, strip_prefix, strip_suffix, sort_by, decimal, length,
}
use flipperos_installer.Ufs.Rescan.{after_last}
use flipperos_installer.Model.{
  Source, server, local, BundleLocation, remote, dir, join_location, manifest_of, BundleRef,
  SelectedBundle, FalconImage, PackFile, UbootBuild, SnapshotBuild, is_minimal,
}
use flipperos_installer.Catalog.{digest_of, uboot_image, boot_menu_image, recovery_image}
use flipperos_installer.Catalog.Packs.{Packs, no_packs, add_files, sort_profiles, profile_le}
use flipperos_installer.Bundle.{
  Manifest, FileEntry, bundle_details, device_types, bundle_board_dir, has_char,
}

-- `PACKS_DIR` with the slash behind it
abbrev pub packs_prefix : Text
packs_prefix = codes "profile-packs/"

abbrev pub in_dir : (top board image : Text) → Text
in_dir top board image = top ++ (codes "/" ++ (board ++ (codes "/" ++ image)))

abbrev pub uboot_rel : Text → Text
uboot_rel board = in_dir (codes "u-boot") board uboot_image

abbrev pub menu_rel : Text → Text
menu_rel board = in_dir (codes "boot-menu") board boot_menu_image

abbrev pub recovery_rel : Text → Text
recovery_rel board = in_dir (codes "recovery") board recovery_image

abbrev pub source_for : BundleLocation → Source
source_for (remote base) = server
source_for (dir root) = local root

unfoldable pub file_at : Manifest → Text → Option FileEntry
unfolding text_eq
file_at m path = find (λ f. text_eq f.path path) m.files

abbrev pub falcon_at : BundleLocation → Text → FileEntry → FalconImage
falcon_at l path f = record {
  location = join_location l path;
  source = source_for l;
  size_bytes = f.size;
  sha256 = digest_of f.sha256;
}

abbrev pub pack_at : BundleLocation → FileEntry → PackFile
pack_at l f = record {
  location = join_location l f.path;
  source = source_for l;
  size_bytes = f.size;
  sha256 = digest_of f.sha256;
}

-- The name of a file in the packs' directory itself
unfoldable pub pack_name : FileEntry → Option Text
unfolding strip_prefix
pack_name f =
    and_some (strip_prefix packs_prefix f.path)
      λ fname. if has_char b'/' fname then none else some fname

unfoldable pub pack_files : BundleLocation → List FileEntry → List (Text × PackFile)
unfolding pack_name join_location
pack_files l [] = []
pack_files l (f ∷ fs) =
    let rest = pack_files l fs in
    elim (pack_name f) [ none ↦ rest | some fname ↦ (fname, pack_at l f) ∷ rest ]

abbrev pub packs_of : BundleLocation → Manifest → Packs
packs_of l m = add_files (pack_files l m.files) no_packs

abbrev pub uboot_of : BundleRef → BundleLocation → Manifest → Text → FileEntry → UbootBuild
uboot_of r l m board f = record {
  id = r.id;
  label = codes "u-boot " ++ m.bundle.version;
  mtime = f.mtime;
  image_location = join_location l (uboot_rel board);
  manifest_location = manifest_of l;
  source = source_for l;
  size_bytes = f.size;
  sha256 = digest_of f.sha256;
  details = some (bundle_details m);
  boot_menu = none;
  loaded = true;
}

abbrev pub build_of : BundleRef → BundleLocation → Manifest → Packs → SnapshotBuild
build_of r l m packs = record {
  id = r.id;
  label = codes "rootfs " ++ m.bundle.version;
  mtime = m.bundle.build.timestamp;
  source = source_for l;
  base_location = join_location l [];
  build_number = m.bundle.build.number;
  profiles = sort_profiles packs.profiles;
  home_pack = packs.home;
  loaded = true;
  details = some (bundle_details m);
}

abbrev joined_by : Text → List Text → Text
joined_by sep [] = []
joined_by sep (t ∷ []) = t
joined_by sep (t ∷ u ∷ ts) = t ++ (sep ++ joined_by sep (u ∷ ts))

abbrev pub ships_no : BundleRef → Text → Manifest → Text
unfolding device_types
ships_no r path m =
    codes "bundle "
    ++ (r.dir
        ++ (codes " ships no "
            ++ (path
                ++ (codes " (it has: " ++ (joined_by (codes ", ") (device_types m) ++ codes ")")))))

-- What `resolve` makes of the file that it found for U-Boot
abbrev pub selected_with : BundleRef → BundleLocation → Manifest → Text → FileEntry → SelectedBundle
selected_with r l m board f = record {
  reference = r;
  name = m.bundle.name;
  version = m.bundle.version;
  channel = if is_empty m.bundle.channel then r.channel else m.bundle.channel;
  description = m.bundle.description;
  archive = m.bundle.archive;
  board_dir = board;
  device_types = device_types m;
  uboot = uboot_of r l m board f;
  boot_menu = option_map (falcon_at l (menu_rel board)) (file_at m (menu_rel board));
  recovery = option_map (falcon_at l (recovery_rel board)) (file_at m (recovery_rel board));
  build = build_of r l m (packs_of l m);
}

unfoldable pub resolve_for :
    BundleRef → BundleLocation → Manifest → Text → Result Text SelectedBundle
unfolding file_at is_minimal ships_no join_location device_types pack_files add_files sort_by
    profile_le
resolve_for r l m board =
    ok_or (file_at m (uboot_rel board)) (ships_no r (uboot_rel board) m) >>= λ f.
    bail_if (not (any is_minimal (sort_profiles (packs_of l m).profiles)))
      (codes "bundle " ++ (r.dir ++ codes " ships no Minimal profile pack"))
    >> ok (selected_with r l m board f)

-- `resolve`
unfoldable pub resolve_bundle :
    BundleRef → BundleLocation → Manifest → Text → Result Text SelectedBundle
unfolding resolve_for bundle_board_dir
resolve_bundle r l m board_id = resolve_for r l m (bundle_board_dir m board_id)

-- The manifests that can be read: fetched from a location, or out of an archive
pub record Manifests : Type 0 where
  pub fetched : Text → Result Text Manifest
  pub archived : Text → Result Text Manifest

abbrev pub read_for : Manifests → BundleRef → Option Text → Result Text Manifest
unfolding manifest_of
read_for net r (some path) = net.archived path
read_for net r none = net.fetched (manifest_of r.location)

-- `load`
unfoldable pub load_bundle : Manifests → BundleRef → Text → Result Text SelectedBundle
unfolding manifest_of resolve_bundle decimal
load_bundle net r board_id = read_for net r r.archive >>= λ m.
    bail_if (not (m.schema == 1)) (
      codes "bundle "
      ++ (r.dir
          ++ (codes " declares manifest schema "
              ++ (decimal m.schema ++ codes ", which this installer does not understand"))))
    >> resolve_bundle r r.location m board_id

-- `trim_end_matches(".tar.zst")`, on fuel that the text's length never uses up
unfoldable pub trim_suffix : ℕ → Text → Text → Text
unfolding strip_suffix
trim_suffix zero suffix s = s
trim_suffix (suc fuel) suffix s = elim (strip_suffix suffix s) [
  | none ↦ s
  | some r ↦ trim_suffix fuel suffix r
]

abbrev pub archive_suffix : Text
archive_suffix = codes ".tar.zst"

unfoldable pub unpack_dest : (cache_dir archive_path : Text) → Text
unfolding trim_suffix after_last trim_end
unpack_dest cache_dir archive_path =
    let name = after_last b'/' [] (trim_end b'/' archive_path) in
    trim_end b'/' cache_dir ++ (codes "/" ++ trim_suffix (length name) archive_suffix name)
