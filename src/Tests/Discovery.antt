-- ===== src/Tests/Discovery.antt =====
-- Storage and board discovery at concrete inputs.
use flipperos_installer.Base.{
  Option, refl, text_eq, strip_prefix, ◌≡◌, ◌↔◌, ◌⊎◌, true, List, [], ◌∷◌, ◌++◌, none, some, Text,
  codes,
}
use flipperos_installer.Storage.{all_digits, BlockEntry, is_partition_of}
use flipperos_installer.Storage.InUse.{
  device_in_use, lines, words, all_reasons, mount_reasons, swap_reasons, holder_reasons, mounted,
}
use flipperos_installer.Storage.InUse.Free.{Mount, IsFree, device_in_use-IsFree}
use flipperos_installer.Storage.BootLu.{
  read_boot_lun_id, parse_u8, u8_digits, hex_value, Sibling, find_ufs_boot_lu,
}
use flipperos_installer.Storage.Partition.{IsNumber, is_partition_of_iff}

abbrev usb_stick : BlockEntry
usb_stick = record {
  name = codes "sdb";
  real_path = codes "/sys/devices/platform/usb1/host1/sdb";
  size = some 60000000;
  logical_block_size = some 512;
  removable = some 0;
  device_model = some (codes "Stick");
  device_name = none;
  device_type = none;
  device_removable = none;
}

abbrev ufs_disk : BlockEntry
ufs_disk = record {
  name = codes "sda";
  real_path = codes "/sys/devices/platform/2a2d0000.ufs/host0/sda";
  size = some 120000000;
  logical_block_size = some 4096;
  removable = none;
  device_model = some (codes "FORESEE");
  device_name = none;
  device_type = none;
  device_removable = none;
}

is_partition_of_iff_example : (is_partition_of (codes "/dev/sdaa1") (codes "/dev/sda") ≡ true) ↔ (
    (digits : Text) × IsNumber digits
    × ((codes "/dev/sdaa1" ≡ codes "/dev/sda" ++ digits)
        ⊎ (codes "/dev/sdaa1" ≡ codes "/dev/sda" ++ b'p' ∷ digits)))
is_partition_of_iff_example = is_partition_of_iff (codes "/dev/sdaa1") (codes "/dev/sda")

abbrev rock : List Text
rock = codes "vendor,unheard-of" ∷ codes "radxa,rock-4d" ∷ codes "rockchip,rk3576" ∷ []

-- Another disk is mounted, and there is no swap.
abbrev mounts : List Mount
mounts =
    record { source = codes "/dev/sdb1"; mountpoint = codes "/mnt"; rest = codes "ext4 rw 0 0" }
    ∷ []

device_in_use-IsFree_example : IsFree (codes "/dev/sda") mounts [] ((codes "sda", []) ∷ [])
unfolding device_in_use lines words all_reasons mount_reasons swap_reasons holder_reasons
    is_partition_of all_digits text_eq strip_prefix
device_in_use-IsFree_example =
    device_in_use-IsFree mounts (codes "Filename") [] ((codes "sda", []) ∷ []) (codes "/dev/sda")
      ((((λ e. cc), refl), ((λ e. cc), refl), refl), tt) refl tt refl

partition_blocks :
    device_in_use (some (codes "/dev/sda1 / btrfs")) none [] (codes "/dev/sda")
    ≡ mounted (codes "/dev/sda1") (codes "/") ∷ []
unfolding device_in_use lines words all_reasons mount_reasons swap_reasons holder_reasons
    is_partition_of all_digits text_eq strip_prefix
partition_blocks = refl

-- The disk itself is flagged too, and the second unit has no block device yet.
abbrev siblings : List Sibling
siblings =
    sibling_of (codes "0:0:0:0") (codes "0x01") (some (codes "/dev/sda"))
    ∷ sibling_of (codes "0:0:0:1") (codes "0x01") none
    ∷ sibling_of (codes "0:0:0:2") (codes "0x01") (some (codes "/dev/sdc"))
    ∷ []
  where
    sibling_of : Text → Text → Option Text → Sibling
    sibling_of name id node = record { name = name; boot_lun_id = some id; node = node }

boot_lu_found : find_ufs_boot_lu (codes "/dev/sda") 1 siblings ≡ some (codes "/dev/sdc")
unfolding find_ufs_boot_lu read_boot_lun_id parse_u8 u8_digits hex_value strip_prefix text_eq
boot_lu_found = refl
