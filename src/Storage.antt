-- ===== src/Storage.antt =====
-- src/core/storage.rs: which block devices there are, what they are, and in which order they are
-- offered; `StorageKind` and `StorageDevice` of src/core/model.rs.
pub mod Order
pub mod Partition
pub mod InUse
pub mod BootLu
use flipperos_installer.Base.{
  ℕ, ◌+◌, ◌*◌, Bool, true, false, not, ◌&&◌, ◌||◌, List, [], ◌∷◌, ◌++◌, Option, none, some, Text,
  codes, any, filter, map, if◌then◌else◌, ltb, leb, ◌==◌, mul64, get_or_else, starts_with,
  strip_prefix, eq_ignore_case, to_lower, is_empty,
}
use flipperos_installer.Ufs.Rescan.{components, text_le, is_digit}

pub data StorageKind : Type 0 where
  ufs emmc sd_card usb other : StorageKind

-- `StorageKind::boot_rom_capable`
unfoldable pub boot_rom_capable : StorageKind → Bool
boot_rom_capable ufs = true
boot_rom_capable emmc = true
boot_rom_capable sd_card = true
boot_rom_capable usb = false
boot_rom_capable other = false

-- `StorageKind::is_removable`
unfoldable pub is_removable : StorageKind → Bool
is_removable ufs = false
is_removable emmc = false
is_removable sd_card = true
is_removable usb = true
is_removable other = false

pub record StorageDevice : Type 0 where
  pub path : Text
  pub kind : StorageKind
  pub model : Text
  pub size_bytes : ℕ
  pub removable : Bool
  pub logical_block_size : ℕ

-- A directory of /sys/block: its name, the path it resolves to, and what its attributes read as.
pub record BlockEntry : Type 0 where
  pub name : Text
  pub real_path : Text
  pub size : Option ℕ
  pub logical_block_size : Option ℕ
  pub removable : Option ℕ
  pub device_model : Option Text
  pub device_name : Option Text
  pub device_type : Option Text
  pub device_removable : Option Text

-- `str::contains`
unfoldable pub contains : Text → Text → Bool
contains part [] = is_empty part
contains part (c ∷ s) = let rest = contains part s in starts_with part (c ∷ s) || rest

-- `is_virtual`
unfoldable pub is_virtual : Text → Bool
is_virtual name =
    any (λ p. starts_with p name)
      (codes "loop" ∷ codes "ram" ∷ codes "zram" ∷ codes "dm-" ∷ codes "md" ∷ codes "sr" ∷ [])

abbrev slot_kind : Option Text → StorageKind
slot_kind none = sd_card
slot_kind (some s) = if eq_ignore_case s (codes "fixed") then emmc else sd_card

-- `mmc_kind`
unfoldable pub mmc_kind : Option Text → Option Text → StorageKind
mmc_kind none slot = slot_kind slot
mmc_kind (some t) slot =
    if eq_ignore_case t (codes "MMC")
    then emmc
    else if eq_ignore_case t (codes "SD")
        || (eq_ignore_case t (codes "SD-combo") || eq_ignore_case t (codes "SDIO"))
    then sd_card
    else slot_kind slot

-- `has_ufs_host`: some directory on the way up is named after the host.
unfoldable pub has_ufs_host : Text → Bool
has_ufs_host real = any (contains (codes "ufs")) (components [] real)

-- `classify`
unfoldable pub classify : BlockEntry → Bool → StorageKind
classify e block_removable =
    let chain = to_lower e.real_path in
    if starts_with (codes "mmcblk") e.name
    then mmc_kind e.device_type e.device_removable
    else if starts_with (codes "sd") e.name
    then (if contains (codes "usb") chain
        then usb
        else if contains (codes "ufs") chain || has_ufs_host e.real_path
        then ufs
        else if block_removable
        then usb
        else other)
    else other

abbrev pub sector_size : ℕ
sector_size = 512

abbrev or_else : Option Text → Option Text → Option Text
or_else none o = o
or_else (some t) o = some t

-- The device that `enumerate` makes of an entry.
unfoldable pub to_device : BlockEntry → StorageDevice
to_device e =
    let kind = classify e (get_or_else e.removable 0 == 1) in
    record {
      path = codes "/dev/" ++ e.name;
      kind = kind;
      model = get_or_else (or_else e.device_model e.device_name) (codes "unknown");
      size_bytes = mul64 (get_or_else e.size 0) sector_size;
      removable = is_removable kind;
      logical_block_size = get_or_else e.logical_block_size sector_size;
    }

abbrev max : ℕ → ℕ → ℕ
max a b = if ltb a b then b else a

-- The entries that `enumerate` keeps.
unfoldable pub is_candidate : ℕ → BlockEntry → Bool
is_candidate min_size e =
    not (is_virtual e.name) && not (ltb (mul64 (get_or_else e.size 0) sector_size) (max min_size 1))

-- The order of the list: what the boot ROM can boot from first, then by path.
unfoldable pub comes_before : StorageDevice → StorageDevice → Bool
comes_before a b =
    if boot_rom_capable a.kind
    then (if boot_rom_capable b.kind then text_le a.path b.path else true)
    else (if boot_rom_capable b.kind then false else text_le a.path b.path)

unfoldable pub insert_device : StorageDevice → List StorageDevice → List StorageDevice
insert_device d [] = d ∷ []
insert_device d (e ∷ es) =
    let rest = insert_device d es in if comes_before d e then d ∷ (e ∷ es) else e ∷ rest

-- `sort_by`
unfoldable pub sort_devices : List StorageDevice → List StorageDevice
sort_devices [] = []
sort_devices (d ∷ ds) = insert_device d (sort_devices ds)

-- `enumerate`, over the entries of /sys/block.
unfoldable pub enumerate : ℕ → List BlockEntry → List StorageDevice
enumerate min_size entries = sort_devices (map to_device (filter (is_candidate min_size) entries))

abbrev pub without_p : Text → Text
without_p [] = []
without_p (c ∷ s) = if c == b'p' then s else c ∷ s

unfoldable pub all_digits : Text → Bool
all_digits [] = true
all_digits (c ∷ s) = is_digit c && all_digits s

abbrev pub is_number_suffix : Text → Bool
is_number_suffix suffix =
    let digits = without_p suffix in not (is_empty digits) && all_digits digits

-- `is_partition_of`
unfoldable pub is_partition_of : Text → Text → Bool
is_partition_of node disk = elim (strip_prefix disk node) [
  | none ↦ false
  | some suffix ↦ not (is_empty suffix) && is_number_suffix suffix
]
