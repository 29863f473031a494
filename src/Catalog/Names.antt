-- ===== src/Catalog/Names.antt =====
-- src/core/catalog.rs: the labels of builds, and the names of pack files.
use flipperos_installer.Base.{
  Bool, true, false, not, ◌&&◌, ◌||◌, List, [], ◌∷◌, ◌++◌, take, Option, none, some, Text, codes,
  if◌then◌else◌, ◌==◌, is_empty, strip_prefix, strip_suffix, split_once, split_last, trim_end,
  and_some, get_or_else, option_map,
}
use flipperos_installer.Ufs.Rescan.{is_digit}

-- `short`
abbrev pub short : Text → Text
short hash = take 7 hash

-- `split('/').next()`
abbrev first_segment : Text → Text
unfolding split_once
first_segment s = get_or_else (option_map (λ parts. parts.0) (split_once b'/' s)) s

unfoldable pub uboot_label : Text → Text
unfolding strip_prefix split_once
uboot_label dir =
    codes "u-boot "
    ++ short (get_or_else (strip_prefix (codes "u=") (first_segment dir)) (first_segment dir))

-- `split("__")`, of which `seen` begins the next segment
unfoldable pub split_underscores : Text → Text → List Text
split_underscores seen [] = seen ∷ []
split_underscores seen (c ∷ []) = (seen ++ c ∷ []) ∷ []
split_underscores seen (c ∷ d ∷ s) =
    let rest = split_underscores [] s in
    let same = split_underscores (seen ++ c ∷ []) (d ∷ s) in
    if (c == b'_') && (d == b'_') then seen ∷ rest else same

-- What follows the prefix in the first segment that has it
unfoldable pub revision_in : Text → List Text → Option Text
unfolding strip_prefix
revision_in prefix [] = none
revision_in prefix (seg ∷ segs) = elim (strip_prefix prefix seg) [
  | some h ↦ some h
  | none ↦ revision_in prefix segs
]

abbrev segments_of : Text → List Text
unfolding split_underscores trim_end
segments_of dir = split_underscores [] (trim_end b'/' dir)

unfoldable pub snapshot_label : Text → Text
unfolding revision_in split_underscores trim_end
snapshot_label dir = elim (revision_in (codes "linux-mainline=") (segments_of dir)) [
  | some h ↦ codes "rootfs ml:" ++ short h
  | none ↦ codes "rootfs"
]

unfoldable pub revision_label : (dir key fallback : Text) → Text
unfolding revision_in split_underscores trim_end
revision_label dir key fallback = elim (revision_in (key ++ codes "=") (segments_of dir)) [
  | some h ↦ key ++ (codes " " ++ short h)
  | none ↦ fallback
]

abbrev pub all_digits : Text → Bool
all_digits [] = true
all_digits (c ∷ s) = is_digit c && all_digits s

abbrev pub is_number : Text → Bool
is_number s = not (is_empty s) && all_digits s

-- The profile and the build before the suffix of a pack's name
unfoldable pub profile_and_build : Text → Option (Text × Text)
unfolding split_last
profile_and_build rest =
    and_some (split_last b'_' rest)
      λ parts. if is_empty parts.0 || not (is_number parts.1) then none else some parts

unfoldable pub pack_stem : Text → Option (Text × Bool)
unfolding strip_suffix
pack_stem stem = elim (strip_suffix (codes "_stock_inc_pack") stem) [
  | some r ↦ some (r, true)
  | none ↦ option_map (λ r. (r, false)) (strip_suffix (codes "_stock_pack") stem)
]

-- `parse_pack`: the profile, the build, and whether the pack is an incremental one
unfoldable pub parse_pack : Text → Option (Text × Text × Bool)
unfolding strip_suffix pack_stem profile_and_build
parse_pack fname = and_some (strip_suffix (codes ".zst") fname) λ stem.
    and_some (pack_stem stem)
      λ r. option_map (λ parts. (parts.0, parts.1, r.1)) (profile_and_build r.0)

unfoldable pub parse_home_pack : Text → Option Text
unfolding strip_suffix strip_prefix
parse_home_pack fname = and_some (strip_suffix (codes ".zst") fname) λ stem.
    and_some (strip_prefix (codes "home_") stem) λ rest.
      and_some (strip_suffix (codes "_pack") rest) λ num. if is_number num then some num else none
