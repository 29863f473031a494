-- ===== src/Media.antt =====
-- src/core/removable.rs: the mount table, and which disk a partition belongs to. Not modelled: the
-- mounting of removable media, which only calls other programs.
use flipperos_installer.Base.{
  ℕ, zero, suc, ◌&&◌, ◌||◌, List, [], ◌∷◌, ◌++◌, Option, none, some, Text, codes, length,
  if◌then◌else◌, ◌==◌, any, filter, map, text_eq, starts_with, strip_prefix, split_once,
}
use flipperos_installer.Storage.{all_digits}
use flipperos_installer.Storage.InUse.{words, read_lines}
use flipperos_installer.Ufs.Rescan.{is_digit}

-- One of the replacements of `unescape_mount`: a backslash and three digits by a character.
unfoldable pub replace_escape : (p q r c : ℕ) → Text → Text
replace_escape p q r c (w ∷ x ∷ y ∷ z ∷ s) =
    let found = c ∷ replace_escape p q r c s in
    let kept = w ∷ replace_escape p q r c (x ∷ y ∷ z ∷ s) in
    if (w == b'\\') && ((x == p) && ((y == q) && (z == r))) then found else kept
replace_escape p q r c s = s

unfoldable pub unescape_mount : Text → Text
unfolding replace_escape
unescape_mount s = replace_escape b'1' b'3' b'4' b'\\' (
    replace_escape b'0' b'1' b'2' 10
      (replace_escape b'0' b'1' b'1' 9 (replace_escape b'0' b'4' b'0' b' ' s)))

pub record Mount : Type 0 where
  pub device : Text
  pub mountpoint : Text

-- A line of the mount table
unfoldable pub mount_of : List Text → List Mount
unfolding unescape_mount
mount_of [] = []
mount_of (device ∷ []) = []
mount_of (device ∷ mountpoint ∷ more) =
    if starts_with (codes "/dev/") device
    then record { device = device; mountpoint = unescape_mount mountpoint } ∷ []
    else []

unfoldable pub mounts_of : List Text → List Mount
unfolding mount_of words
mounts_of [] = []
mounts_of (line ∷ more) = mount_of (words [] line) ++ mounts_of more

-- `mounts`, over /proc/mounts where it can be read
abbrev pub mounts : Option Text → List Mount
mounts table = mounts_of (read_lines table)

-- `trim_start_matches("/dev/")`, on fuel that the length of the text bounds
unfoldable pub trim_dev : ℕ → Text → Text
trim_dev zero s = s
trim_dev (suc fuel) s = elim (strip_prefix (codes "/dev/") s) [
  | none ↦ s
  | some rest ↦ trim_dev fuel rest
]

abbrev pub node_name : Text → Text
node_name device = trim_dev (length device) device

unfoldable pub before_digit : Text → Text
before_digit [] = []
before_digit (c ∷ s) = if is_digit c then [] else c ∷ before_digit s

unfoldable pub whole_disk : Text → Text
unfolding trim_dev split_once all_digits before_digit
whole_disk device =
    let name = node_name device in
    let other = codes "/dev/" ++ before_digit name in
    elim (split_once b'p' name) [
      | none ↦ other
      | some (before, after) ↦
          if all_digits after && any is_digit before then codes "/dev/" ++ before else other
    ]

-- `mounts_on`
unfoldable pub mounts_on : Option Text → Text → List Text
unfolding mounts_of whole_disk
mounts_on table disk =
    map (λ m. m.mountpoint)
      (filter (λ m. text_eq (whole_disk m.device) disk || text_eq m.device disk) (mounts table))
