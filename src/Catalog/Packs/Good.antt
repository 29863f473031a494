-- ===== src/Catalog/Packs/Good.antt =====
-- src/core/catalog.rs and src/core/bundle.rs: the packs of a profile are those of its files.
use flipperos_installer.Base.{
  ◌≡◌, refl, sym, subst, Bool, true, false, List, [], ◌∷◌, All, Option, none, some, Text, text_eq,
  text_eq_sound, Bool-cases, Option-cases, inl, inr, sort_by-All,
}
use flipperos_installer.Model.{PackFile, ProfilePack}
use flipperos_installer.Catalog.Names.{parse_pack, parse_home_pack}
use flipperos_installer.Catalog.Packs.{
  Packs, with_pack, new_profile, put_pack, put_parsed, add_file, add_files, profile_le,
  sort_profiles,
}

abbrev pub OnSome : {A : Type 0} → (A → Type 0) → Option A → Type 0
OnSome P none = Unit
OnSome P (some a) = P a

-- What is claimed of a profile's pack by name and kind, and of the `/home` seed
module _ (Q : Text → Bool → PackFile → Type 0) (H : PackFile → Type 0) where
  abbrev pub IsGood : ProfilePack → Type 0
  IsGood p = OnSome (Q p.name false) p.full × OnSome (Q p.name true) p.incremental

  abbrev pub AreGood : Packs → Type 0
  AreGood acc = All IsGood acc.profiles × OnSome H acc.home

  -- What a file's name says of its pack
  abbrev pub FileIsGood : Text × PackFile → Type 0
  FileIsGood (fname, pack) =
      ((name build : Text) (is_inc : Bool)
        → parse_pack fname ≡ some (name, build, is_inc)
        → Q name is_inc pack)
      × ((build : Text) → parse_home_pack fname ≡ some build → H pack)

  with_pack-IsGood :
      (is_inc : Bool) (pack : PackFile) (p : ProfilePack)
      → IsGood p
      → Q p.name is_inc pack
      → IsGood (with_pack is_inc pack p)
  with_pack-IsGood true pack p g q = (g.0, q)
  with_pack-IsGood false pack p g q = (q, g.1)

  put_pack-IsGood :
      (name build : Text) (is_inc : Bool) (pack : PackFile) (ps : List ProfilePack)
      → All IsGood ps
      → Q name is_inc pack
      → All IsGood (put_pack name build is_inc pack ps)
  unfolding put_pack
  put_pack-IsGood name build is_inc pack [] g q =
      (with_pack-IsGood is_inc pack (new_profile name build) (tt, tt) q, tt)
  put_pack-IsGood name build is_inc pack (p ∷ ps) g q = elim (Bool-cases (text_eq p.name name)) [
    | inl e ↦ rw e (
      with_pack-IsGood is_inc pack p g.0
          (subst (λ n. Q n is_inc pack) (sym (text_eq_sound p.name name e)) q),
      g.1,
    )
    | inr e ↦ rw e (g.0, put_pack-IsGood name build is_inc pack ps g.1 q)
  ]

  put_parsed-AreGood :
      (parsed : Option (Text × Text × Bool)) (pack : PackFile) (acc : Packs)
      → AreGood acc
      → ((name build : Text) (is_inc : Bool)
          → parsed ≡ some (name, build, is_inc)
          → Q name is_inc pack)
      → AreGood (put_parsed parsed pack acc)
  put_parsed-AreGood none pack acc g k = g
  put_parsed-AreGood (some (name, build, is_inc)) pack acc g k =
      (put_pack-IsGood name build is_inc pack acc.profiles g.0 (k name build is_inc refl), g.1)

  add_file-AreGood :
      (fname : Text) (pack : PackFile) (acc : Packs)
      → FileIsGood (fname, pack)
      → AreGood acc
      → AreGood (add_file fname pack acc)
  unfolding add_file
  add_file-AreGood fname pack acc f g = elim (Option-cases (parse_home_pack fname)) [
    | inl n ↦ rw n (put_parsed-AreGood (parse_pack fname) pack acc g f.0)
    | inr (build, e) ↦ rw e (g.0, f.1 build e)
  ]

  pub add_files-AreGood :
      (files : List (Text × PackFile)) (acc : Packs)
      → All FileIsGood files
      → AreGood acc
      → AreGood (add_files files acc)
  unfolding add_files
  add_files-AreGood [] acc fs g = g
  add_files-AreGood ((fname, pack) ∷ more) acc fs g =
      add_files-AreGood more (add_file fname pack acc) fs.1 (add_file-AreGood fname pack acc fs.0 g)

  pub sort_profiles-IsGood : (ps : List ProfilePack) → All IsGood ps → All IsGood (sort_profiles ps)
  unfolding profile_le
  sort_profiles-IsGood ps g = sort_by-All profile_le IsGood ps g
