-- ===== src/Tests/Rig.antt =====
-- A state with a selection that can be installed, and a system on which every command succeeds.
use flipperos_installer.Base.{ℕ, true, false, [], ◌∷◌, none, some, Text, codes, ok}
use flipperos_installer.Machine.{Machine, Log, boot_switched}
use flipperos_installer.Storage.{StorageDevice, ufs}
use flipperos_installer.Layout.{LayoutFiles}
use flipperos_installer.Model.{
  AppState, Selection, FetchMode, custom, ready, UbootBuild, SnapshotBuild, ProfilePack, PackFile,
  local, no_listing,
}

abbrev pub ufs_disk : StorageDevice
ufs_disk = record {
  path = codes "/dev/sda";
  kind = ufs;
  model = codes "FORESEE";
  size_bytes = 512000000000;
  removable = false;
  logical_block_size = 4096;
}

abbrev pub some_uboot : UbootBuild
some_uboot = record {
  id = codes "u";
  label = codes "u-boot";
  mtime = [];
  image_location = codes "/media/stick/u-boot.bin";
  manifest_location = [];
  source = local (codes "/media/stick");
  size_bytes = 1000000;
  sha256 = some (codes "AB");
  details = none;
  boot_menu = none;
  loaded = true;
}

abbrev pub pack : Text → PackFile
pack location = record {
  location = location;
  source = local (codes "/media/stick");
  size_bytes = 5000000;
  sha256 = some (codes "ab");
}

abbrev pub minimal_profile : ProfilePack
minimal_profile = record {
  name = codes "Minimal";
  build = codes "7";
  full = some (pack (codes "/media/stick/minimal.btrfs"));
  incremental = none;
}

abbrev pub some_build : SnapshotBuild
some_build = record {
  id = codes "s";
  label = codes "snapshot";
  mtime = [];
  source = local (codes "/media/stick");
  base_location = codes "/media/stick/";
  build_number = some 7;
  profiles = minimal_profile ∷ [];
  home_pack = none;
  loaded = true;
  details = none;
}

abbrev pub selection : FetchMode → Selection
selection fetch = record {
  target_device = some (codes "/dev/sda");
  uboot = some (codes "u");
  boot_menu = none;
  recovery = none;
  snapshot_build = some (codes "s");
  profiles = [];
  mode = custom;
  bundle = none;
  fetch = fetch;
}

abbrev pub fit_state : FetchMode → AppState
fit_state fetch = record {
  board = record { compatible = []; model = []; soc = []; board_id = [] };
  devices = ufs_disk ∷ [];
  uboot_builds = some_uboot ∷ [];
  boot_menu_builds = [];
  recovery_builds = [];
  snapshot_builds = some_build ∷ [];
  selection = selection fetch;
  phase = ready;
  log = [];
  supported_device_types = [];
  catalog = record { channels = no_listing; builds = []; dirs = []; local = no_listing };
  bundle = none;
  bundle_error = none;
  dry_run = false;
  ufs = none;
  prompt = none;
}

-- The unit that the last switch made active, the first boot unit before any.
abbrev active : Log → ℕ
active [] = 1
active (boot_switched disk id ∷ h) = id
active (e ∷ h) = active h

abbrev pub fit_machine : Machine
fit_machine = record {
  runs = λ h command. none;
  feeds = λ h location command. none;
  opens = λ h location source. none;
  copies = λ h location device. none;
  digest = λ h location. codes "ab";
  stores = λ h image. none;
  initialises = λ h disk. none;
  partitions = λ h disk. none;
  last_usable = λ h disk. some 120000000;
  switches = λ h disk id. none;
  boot_lun_en = λ h disk. ok (active h);
  siblings = λ h disk.
      record {
        name = codes "sdb";
        boot_lun_id = some (codes "0x02");
        node = some (codes "/dev/sdb");
      }
      ∷ [];
  block_size = λ h node. some 4194304;
  in_use = λ h disk. [];
  mount_table = λ h. some (codes "/dev/mmcblk0p1 /media/stick ext4 rw 0 0");
  makes = λ h path. none;
  unpacks = λ h archive. none;
  exists = λ h path. true;
  claimed = λ h disk. false;
  now = λ h. 0;
  free_space = λ h dir. ok 1000000000000;
  file_size = λ h path. 0;
}

abbrev pub no_files : LayoutFiles
no_files = record { file = λ path. none; download = λ url. none; layout_of = λ text. none }
