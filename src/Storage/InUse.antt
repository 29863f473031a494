-- ===== src/Storage/InUse.antt =====
-- src/core/storage.rs: `device_in_use`.
pub mod Free
use flipperos_installer.Base.{
  ℕ, ◌≡◌, refl, Bool, false, not, ◌||◌, ◌&&◌, ◌==◌, leb, text_eq, is_empty, List, [], ◌∷◌, ◌++◌,
  All, Option, none, some, Text, arith, if◌then◌else◌, map,
}
use flipperos_installer.Storage.{is_partition_of}

-- `str::lines`: no line behind a final line break. A carriage return before it is not modelled.
unfoldable pub lines : Text → Text → List Text
lines seen [] = if is_empty seen then [] else seen ∷ []
lines seen (c ∷ s) =
    let rest = lines (if c == 10 then [] else seen ++ c ∷ []) s in
    if c == 10 then seen ∷ rest else rest

-- The white space of ASCII.
abbrev pub is_space : ℕ → Bool
is_space c = (c == 32) || (leb 9 c && leb c 13)

-- `str::split_whitespace`
unfoldable pub words : Text → Text → List Text
words seen [] = if is_empty seen then [] else seen ∷ []
words seen (c ∷ s) =
    let rest = words (if is_space c then [] else seen ++ c ∷ []) s in
    if is_space c && not (is_empty seen) then seen ∷ rest else rest

-- Why a disk is in use: a mounted source, a swap device, or what holds a node.
pub data UseReason : Type 0 where
  mounted : Text → Text → UseReason
  swap : Text → UseReason
  held : Text → Text → UseReason

abbrev pub is_on : Text → Text → Bool
is_on disk src = text_eq src disk || is_partition_of src disk

-- A line of the mount table.
unfoldable pub mount_reasons : Text → List Text → List UseReason
mount_reasons disk [] = []
mount_reasons disk (src ∷ []) = []
mount_reasons disk (src ∷ mnt ∷ more) = if is_on disk src then mounted src mnt ∷ [] else []

-- A line of the swap table.
unfoldable pub swap_reasons : Text → List Text → List UseReason
swap_reasons disk [] = []
swap_reasons disk (src ∷ more) = if is_on disk src then swap src ∷ [] else []

unfoldable pub all_reasons : (List Text → List UseReason) → List Text → List UseReason
all_reasons f [] = []
all_reasons f (line ∷ more) = f (words [] line) ++ all_reasons f more

abbrev pub tail : List Text → List Text
tail [] = []
tail (l ∷ ls) = ls

abbrev pub read_lines : Option Text → List Text
read_lines none = []
read_lines (some text) = lines [] text

-- The directories that hold the disk or a partition, with their holders, as `holder_reasons` lists
-- them.
unfoldable pub holder_reasons : List (Text × List Text) → List UseReason
holder_reasons [] = []
holder_reasons ((owner, holders) ∷ more) = map (held owner) holders ++ holder_reasons more

-- `device_in_use`, over /proc/mounts and /proc/swaps where they can be read, and the holders.
unfoldable pub device_in_use :
    Option Text → Option Text → List (Text × List Text) → Text → List UseReason
device_in_use mounts swaps holders disk =
    all_reasons (mount_reasons disk) (read_lines mounts)
    ++ (all_reasons (swap_reasons disk) (tail (read_lines swaps)) ++ holder_reasons holders)
