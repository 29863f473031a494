-- ===== src/Catalog/Packs.antt =====
-- src/core/catalog.rs and src/core/bundle.rs: the packs that a manifest's files make up, by profile.
pub mod Good
use flipperos_installer.Base.{
  ℕ, Bool, true, false, List, [], ◌∷◌, ◌++◌, Option, none, some, Text, Result, if◌then◌else◌,
  text_eq, is_some, sort_by,
}
use flipperos_installer.Ufs.Rescan.{text_le}
use flipperos_installer.Model.{PackFile, ProfilePack, is_minimal}
use flipperos_installer.Catalog.Names.{parse_pack, parse_home_pack}

-- The two lists that the loops over a manifest's files fill
pub record Packs : Type 0 where
  pub profiles : List ProfilePack
  pub home : Option PackFile

abbrev pub no_packs : Packs
no_packs = record { profiles = []; home = none }

abbrev pub with_pack : Bool → PackFile → ProfilePack → ProfilePack
with_pack true pack p = record p { incremental = some pack }
with_pack false pack p = record p { full = some pack }

abbrev pub new_profile : (name build : Text) → ProfilePack
new_profile name build = record { name = name; build = build; full = none; incremental = none }

-- The profile of that name, which is added where there is none, gets the pack.
unfoldable pub put_pack :
    (name build : Text) → Bool → PackFile → List ProfilePack → List ProfilePack
unfolding text_eq
put_pack name build is_inc pack [] = with_pack is_inc pack (new_profile name build) ∷ []
put_pack name build is_inc pack (p ∷ ps) =
    if text_eq p.name name
    then with_pack is_inc pack p ∷ ps
    else p ∷ put_pack name build is_inc pack ps

-- What the body of the loop does with a pack, by the name of its file
abbrev pub put_parsed : Option (Text × Text × Bool) → PackFile → Packs → Packs
put_parsed none pack acc = acc
put_parsed (some (name, build, is_inc)) pack acc = record acc {
  profiles = put_pack name build is_inc pack acc.profiles;
}

unfoldable pub add_file : Text → PackFile → Packs → Packs
unfolding parse_pack parse_home_pack put_pack
add_file fname pack acc =
    if is_some (parse_home_pack fname)
    then record acc { home = some pack }
    else put_parsed (parse_pack fname) pack acc

unfoldable pub add_files : List (Text × PackFile) → Packs → Packs
unfolding add_file
add_files [] acc = acc
add_files ((fname, pack) ∷ more) acc = add_files more (add_file fname pack acc)

-- The order of the profiles: the Minimal one first, then by name
unfoldable pub profile_le : ProfilePack → ProfilePack → Bool
unfolding is_minimal text_le
profile_le a b =
    if is_minimal a
    then (if is_minimal b then text_le a.name b.name else true)
    else (if is_minimal b then false else text_le a.name b.name)

abbrev pub sort_profiles : List ProfilePack → List ProfilePack
sort_profiles = sort_by profile_le
