-- ===== src/Tests/Builds.antt =====
-- The image catalog at concrete inputs.
use mathlib.Core.List.{Perm}
use flipperos_installer.Base.{
  ◌≡◌, refl, true, false, List, [], ◌∷◌, ◌++◌, none, some, Text, codes, ok, min, length,
}
use flipperos_installer.Model.{UbootBuild, server}
use flipperos_installer.Catalog.{
  DirEntry, FileEntry, BuildManifest, uboot_image, boot_menu_image, newest_first,
}
use flipperos_installer.Catalog.Contents.{UbootContents, uboot_contents, sibling_of}
use flipperos_installer.Catalog.Listed.{AreOf, under_board, uboot_contents-AreOf}
use flipperos_installer.Catalog.Newest.{AreNewer, newest_first-AreNewer}
use flipperos_installer.Catalog.Names.{parse_pack, parse_home_pack}

abbrev entry : Text → Text → DirEntry
entry name mtime = record { name = name; mtime = some mtime }

abbrev entries : List DirEntry
entries = entry (codes "a/") (codes "2024") ∷ entry (codes "b/") (codes "2025") ∷ []

newest_first-AreNewer_example :
    (left : List DirEntry) × Perm (newest_first entries 1 ++ left) entries
    × AreNewer (newest_first entries 1) left
    × (length (newest_first entries 1) ≡ min 1 (length (newest_first entries 1 ++ left)))
newest_first-AreNewer_example = newest_first-AreNewer entries 1

abbrev listed : Text → Text → FileEntry
listed path sha256 = record { path = path; size = 10; sha256 = some sha256; mtime = [] }

abbrev manifest : BuildManifest
manifest = record {
  build = record { builder = []; number = some 3; url = []; timestamp = [] };
  sourcestamps = [];
  files =
      listed (codes "out/generic/u-boot-rockchip.bin") (codes "ab")
      ∷ listed (codes "generic/bootmenu-falcon.itb") (codes "cd")
      ∷ [];
}

abbrev build : UbootBuild
build = record {
  id = codes "b/";
  label = [];
  mtime = [];
  image_location = codes "https://i.example/u-boot/b/generic/u-boot-rockchip.bin";
  manifest_location = codes "https://i.example/u-boot/b/manifest.json";
  source = server;
  size_bytes = 0;
  sha256 = none;
  details = none;
  boot_menu = none;
  loaded = false;
}

abbrev contents : UbootContents
contents = record {
  size = 10;
  sha256 = some (codes "ab");
  mtime = [];
  details = record { build = manifest.build; sourcestamps = [] };
  boot_menu = some (record {
    location = codes "https://i.example/u-boot/b/generic/bootmenu-falcon.itb";
    source = server;
    size_bytes = 10;
    sha256 = some (codes "cd");
  });
}

has_contents : uboot_contents manifest build ≡ ok contents
unfolding uboot_contents
has_contents = refl

uboot_contents-AreOf_example :
    (base : Text) × (board : Text) × (build.manifest_location ≡ base ++ codes "manifest.json")
    × (build.image_location ≡ base ++ under_board board uboot_image)
    × (sibling_of build.image_location boot_menu_image ≡ base ++ under_board board boot_menu_image)
    × AreOf manifest build board contents
uboot_contents-AreOf_example = uboot_contents-AreOf manifest build contents has_contents

full_pack :
    parse_pack (codes "Office_Home_15_stock_pack.zst")
    ≡ some (codes "Office_Home", codes "15", false)
unfolding parse_pack
full_pack = refl

incremental_pack :
    parse_pack (codes "Office_15_stock_inc_pack.zst") ≡ some (codes "Office", codes "15", true)
unfolding parse_pack
incremental_pack = refl

home_pack : parse_home_pack (codes "home_15_pack.zst") ≡ some (codes "15")
unfolding parse_home_pack
home_pack = refl
