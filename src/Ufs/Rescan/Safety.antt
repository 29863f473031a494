-- ===== src/Ufs/Rescan/Safety.antt =====
-- Which logical units `rescan_logical_units` deletes.
use flipperos_installer.Base.{
  ℕ, ◌≡◌, refl, ◌⊎◌, inl, inr, Bool, true, false, not, List, [], ◌∷◌, some, Option-cases, filter,
  All, Text, if◌then◌else◌, arith,
}
use flipperos_installer.Ufs.Codes.{is_well_known_lun}
use flipperos_installer.Ufs.Error.{Error, rescan_failed}
use flipperos_installer.Ufs.World.{World, Event, sent, deleted, scanned, slept, History, LuDir}
use flipperos_installer.Ufs.World.Trace.{
  Grown, Adds, >>=-Adds, Grown-refl, Grown-trans, raise_if-Adds,
}
use flipperos_installer.Ufs.Rescan.{
  lun_of, is_data_lu, components, components_le, insert_dir, sort_dirs, data_lu_dirs, delete_all,
  rescan_logical_units,
}

abbrev pub Listed : LuDir → List LuDir → Type 0
Listed d [] = ⊥
Listed d (e ∷ es) = (d ≡ e) ⊎ Listed d es

-- The directory of a data unit among the entries: its name ends in a unit number, and that is no
-- well-known unit.
pub record IsDataUnit (entries : List LuDir) (path : Text) : Type 0 where
  pub entry : LuDir
  pub listed : Listed entry entries
  pub same_path : entry.path ≡ path
  pub lun : ℕ
  pub numbered : lun_of entry.name ≡ some lun
  pub ordinary : is_well_known_lun lun ≡ false

-- What a rescan of a host may do.
abbrev pub IsRescanEvent : List LuDir → ℕ → Event → Type 0
IsRescanEvent entries host (deleted path) = IsDataUnit entries path
IsRescanEvent entries host (scanned k) = k ≡ host
IsRescanEvent entries host (sent q) = ⊥
IsRescanEvent entries host (slept ms) = ⊥

abbrev Good : List LuDir → LuDir → Type 0
Good entries d = IsDataUnit entries d.path

data_lu_lem :
    (entries : List LuDir) (d : LuDir) → Listed d entries → is_data_lu d ≡ true → Good entries d
unfolding is_data_lu
data_lu_lem entries d l h = elim (Option-cases (lun_of d.name)) [
  | inl none' ↦ ground arith
  | inr (n, e) ↦ record {
    entry = d;
    listed = l;
    same_path = refl;
    lun = n;
    numbered = e;
    ordinary = ground arith;
  }
]

All-if :
    (P : LuDir → Type 0) (b : Bool) (xs ys : List LuDir)
    → (b ≡ true → All P xs)
    → (b ≡ false → All P ys)
    → All P (if b then xs else ys)
All-if P true xs ys f g = f refl
All-if P false xs ys f g = g refl

filter-Good :
    (entries ds : List LuDir)
    → ((d : LuDir) → Listed d ds → Listed d entries)
    → All (Good entries) (filter is_data_lu ds)
filter-Good entries [] sub = tt
filter-Good entries (d ∷ ds) sub =
    let rest = filter-Good entries ds (λ x l. sub x (inr l)) in
    All-if (Good entries) (is_data_lu d) _ _
      (λ e. (data_lu_lem entries d (sub d (inl refl)) e, rest)) (λ e. rest)

insert_dir-All :
    (P : LuDir → Type 0) (d : LuDir) (ds : List LuDir) → P d → All P ds → All P (insert_dir d ds)
unfolding insert_dir
insert_dir-All P d [] p a = (p, tt)
insert_dir-All P d (e ∷ es) p a =
    All-if P (components_le (components [] d.path) (components [] e.path)) (d ∷ e ∷ es)
      (e ∷ insert_dir d es) (λ b. (p, a)) (λ b. (a.0, insert_dir-All P d es p a.1))

sort_dirs-All : (P : LuDir → Type 0) (ds : List LuDir) → All P ds → All P (sort_dirs ds)
unfolding sort_dirs
sort_dirs-All P [] a = tt
sort_dirs-All P (d ∷ ds) a = insert_dir-All P d (sort_dirs ds) a.0 (sort_dirs-All P ds a.1)

module _ (w : World) (host : ℕ) where
  delete_all-Adds :
      (entries ds : List LuDir)
      → All (Good entries) ds
      → Adds (IsRescanEvent entries host) (delete_all w ds)
  unfolding delete_all
  delete_all-Adds entries [] a h = Grown-refl _ h
  delete_all-Adds entries (d ∷ ds) a h =
      Grown-trans (IsRescanEvent entries host) h (deleted d.path ∷ h) _
        (deleted d.path ∷ [], refl, (a.0, tt)) (delete_all-Adds entries ds a.1 (deleted d.path ∷ h))

  -- A rescan queries nothing; it scans its own host, and deletes nothing but directories, listed
  -- when it begins, of logical units that are not well-known ones.
  pub rescan_logical_units-IsRescanEvent :
      (h : History)
      → Grown (IsRescanEvent (w.target_entries h host) host) h (rescan_logical_units w host h).1
  unfolding rescan_logical_units data_lu_dirs
  rescan_logical_units-IsRescanEvent h =
      let entries = w.target_entries h host in
      let P = IsRescanEvent entries host in
      let dirs = data_lu_dirs w host h in
      let good = sort_dirs-All (Good entries) _ (filter-Good entries entries (λ d l. l)) in
      >>=-Adds {E = Error} P (delete_all w dirs) _ (delete_all-Adds entries dirs good)
        (λ _ h1.
          Grown-trans P h1 (scanned host ∷ h1) _ (scanned host ∷ [], refl, (refl, tt))
            (raise_if-Adds P (not (w.scan_works h1 host)) (rescan_failed host) (scanned host ∷ h1)))
        h
