-- ===== src/Tests/Bundles.antt =====
-- Bundles and archives at concrete inputs.
use flipperos_installer.Base.{
  ◌≡◌, ◌⊎◌, refl, true, List, [], ◌∷◌, All, none, some, Text, codes, ok, ◌==◌, if◌then◌else◌, arith,
  utf8_bytes,
}
use flipperos_installer.Added.{Adds}
use flipperos_installer.Model.{remote, dir, BundleRef, SelectedBundle, server}
use flipperos_installer.Catalog.{generic}
use flipperos_installer.Bundle.{Manifest, FileEntry, Repo, prefix_of}
use flipperos_installer.Bundle.Query.{encode, decode, IsInert, decode-encode}
use flipperos_installer.Bundle.Listing.{ListPage, Answers, children}
use flipperos_installer.Bundle.Pages.{Contents, dirs_on, files_on, children_whole}
use flipperos_installer.Bundle.Resolve.{Manifests, load_bundle, read_for, selected_with}
use flipperos_installer.Bundle.Pinned.{IsPinned, load_bundle-IsPinned}
use flipperos_installer.Bundle.Local.{Folders, discover_local}
use flipperos_installer.Bundle.Local.Readable.{IsReadable, discover_local-IsReadable}
use flipperos_installer.Archive.{
  Unpacking, System, Archive, unpack_into, unpacked_size, unpack_reference,
}
use flipperos_installer.Archive.Counted.{IsUnpackedFor, unpack_reference-IsUnpacked}
use flipperos_installer.Archive.Inside.{IsInside, unpack_into-IsInside}

decode-encode_example :
    (decode (encode (codes "dev/a b")) ≡ utf8_bytes (codes "dev/a b"))
    × All IsInert (encode (codes "dev/a b"))
decode-encode_example = decode-encode (codes "dev/a b") (omega arith)

abbrev repo : Repo
repo = record {
  list_url = codes "https://list.example/o";
  base_url = codes "https://files.example";
  prefix = codes "bundles";
}

abbrev first_page : ListPage
first_page = record {
  prefixes = codes "bundles/nightly/" ∷ [];
  items = [];
  next_page_token = some (codes "more");
}

abbrev last_page : ListPage
last_page = record {
  prefixes = codes "bundles/release/" ∷ [];
  items = codes "bundles/README" ∷ [];
  next_page_token = none;
}

abbrev two_pages : Answers
two_pages n url = ok (if n == 0 then first_page else last_page)

abbrev contents : List Contents
contents =
    record { dirs = codes "nightly" ∷ []; files = [] }
    ∷ record { dirs = codes "release" ∷ []; files = codes "README" ∷ [] }
    ∷ []

children_whole_example :
    children 2 two_pages repo []
    ≡ some (ok (record { dirs = dirs_on contents; files = files_on contents }))
unfolding prefix_of
children_whole_example =
    children_whole two_pages repo [] 2 contents (first_page ∷ last_page ∷ [])
      (
        (((λ p. cc), refl), tt),
        tt,
        refl,
        refl,
        ((((λ p. cc), refl), tt), (((λ p. cc), refl), tt), refl, refl, tt),
      )
      (omega arith) (codes "more", refl, refl, (refl, refl))

abbrev file : Text → Text → FileEntry
file path sha256 = record { path = path; size = 10; mtime = []; sha256 = some sha256; item = [] }

abbrev uboot_file : FileEntry
uboot_file = file (codes "u-boot/generic/u-boot-rockchip.bin") (codes "ab")

abbrev manifest : Manifest
manifest = record {
  schema = 1;
  bundle = record {
    name = codes "update";
    version = codes "1.0";
    channel = [];
    description = [];
    archive = [];
    build = record { builder = []; number = some 15; url = []; timestamp = [] };
  };
  sourcestamps = [];
  files = uboot_file ∷ file (codes "profile-packs/Minimal_15_stock_pack.zst") (codes "cd") ∷ [];
}

abbrev manifests : Manifests
manifests = record { fetched = λ l. ok manifest; archived = λ l. ok manifest }

abbrev reference : BundleRef
reference = record {
  id = codes "nightly/b15";
  channel = codes "nightly";
  dir = codes "b15";
  location = remote (codes "https://files.example/bundles/nightly/b15/");
  source = server;
  archive = none;
}

abbrev loaded : SelectedBundle
loaded = selected_with reference reference.location manifest generic uboot_file

is_loaded : load_bundle manifests reference (codes "radxa") ≡ ok loaded
unfolding load_bundle
is_loaded = refl

load_bundle-IsPinned_example :
    (m : Manifest) × (read_for manifests reference reference.archive ≡ ok m)
    × (m.schema ≡ 1)
    × IsPinned reference.location m loaded
    × ((loaded.board_dir ≡ codes "radxa") ⊎ (loaded.board_dir ≡ generic))
load_bundle-IsPinned_example =
    load_bundle-IsPinned manifests reference (codes "radxa") loaded is_loaded

abbrev folders : Folders
folders = record { dirs = λ path. []; files = λ path. codes "b15.tar.zst" ∷ codes "notes.txt" ∷ [] }

discover_local-IsReadable_example : All (IsReadable manifests (codes "/tmp/cache")) (
    discover_local manifests folders
      (codes "/tmp/cache")
      (codes "/home/b15/" ∷ [])
      ((codes "/dev/sdb1", codes "/run/media") ∷ []))
discover_local-IsReadable_example =
    discover_local-IsReadable manifests folders (codes "/tmp/cache") (codes "/home/b15/" ∷ [])
      ((codes "/dev/sdb1", codes "/run/media") ∷ [])

-- An archive with a member that tries to leave the directory
abbrev archive : Archive
archive = ok (
    ok (record {
      path = ok (codes "b15/../../etc/passwd");
      is_file = true;
      size = some 1;
      reads = ok (1 ∷ []) ∷ [];
    })
    ∷ ok (record {
      path = ok (codes "b15/mcu/fw.bin");
      is_file = true;
      size = some 3;
      reads = ok (1 ∷ 2 ∷ []) ∷ ok (3 ∷ []) ∷ [];
    })
    ∷ [])

abbrev works : System
works = record { failure = λ h e. none }

unpack_into-IsInside_example :
    Adds
      (IsInside (codes "/tmp/cache/b15"))
      (unpack_into works (codes "b15.tar.zst") archive (codes "/tmp/cache/b15"))
unpack_into-IsInside_example =
    unpack_into-IsInside works (codes "b15.tar.zst") archive (codes "/tmp/cache/b15")

-- The member that tries to leave is passed over, and the other one is written.
three_bytes : (unpack_into works (codes "b15.tar.zst") archive (codes "/tmp/cache/b15") []).0 ≡ ok 3
unfolding unpack_into
three_bytes = refl

-- The sizes in the headers count members that are passed over as well.
four_bytes : unpacked_size archive ≡ ok 4
unfolding unpacked_size
four_bytes = refl

abbrev packed : BundleRef
packed = record reference {
  location = dir (codes "/tmp/cache/b15");
  archive = some (codes "b15.tar.zst");
}

abbrev unpacked : List Unpacking
unfolding unpack_reference
unpacked = (unpack_reference works (λ path. archive) packed []).1

is_unpacked : unpack_reference works (λ path. archive) packed [] ≡ (ok 3, unpacked)
unfolding unpack_reference unpacked
is_unpacked = refl

unpack_reference-IsUnpacked_example : IsUnpackedFor (λ path. archive) packed.archive [] unpacked 3
unpack_reference-IsUnpacked_example =
    unpack_reference-IsUnpacked works (λ path. archive) packed [] unpacked 3 is_unpacked

-- A bundle that is not an archive has nothing to unpack.
nothing_to_unpack :
    unpack_reference works (λ path. archive) (record reference { archive = none }) [] ≡ (ok 0, [])
unfolding unpack_reference
nothing_to_unpack = refl
