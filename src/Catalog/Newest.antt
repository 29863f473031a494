-- ===== src/Catalog/Newest.antt =====
-- src/core/catalog.rs: which builds of a listing are offered.
use mathlib.Core.List.{Perm}
use flipperos_installer.Base.{
  ℕ, zero, suc, ◌≡◌, refl, sym, ap, subst, true, false, List, [], ◌∷◌, ◌++◌, All, Option, none,
  some, Text, take, drop, length, length-take, min, arith, sort_by, sort_by-Perm, sort_by-IsSorted,
  IsSorted,
}
use flipperos_installer.Ufs.Rescan.{text_le}
use flipperos_installer.Catalog.{DirEntry, time_le, newer_first, newest_first}

text_le_total : (s t : Text) → text_le s t ≡ false → text_le t s ≡ true
unfolding text_le
text_le_total [] t h = cc
text_le_total (c ∷ s) [] h = refl
text_le_total (c ∷ s) (d ∷ t) h = ground (arith, text_le_total s t)

text_le_trans : (s t u : Text) → text_le s t ≡ true → text_le t u ≡ true → text_le s u ≡ true
unfolding text_le
text_le_trans [] t u h k = refl
text_le_trans (c ∷ s) [] u h k = cc
text_le_trans (c ∷ s) (d ∷ t) [] h k = cc
text_le_trans (c ∷ s) (d ∷ t) (e ∷ u) h k = ground (arith, text_le_trans s t u)

time_le_total : (s t : Option Text) → time_le s t ≡ false → time_le t s ≡ true
unfolding time_le
time_le_total none t h = cc
time_le_total (some s) none h = refl
time_le_total (some s) (some t) h = text_le_total s t h

time_le_trans : (s t u : Option Text) → time_le s t ≡ true → time_le t u ≡ true → time_le s u ≡ true
unfolding time_le
time_le_trans none t u h k = refl
time_le_trans (some s) none u h k = cc
time_le_trans (some s) (some t) none h k = cc
time_le_trans (some s) (some t) (some u) h k = text_le_trans s t u h k

-- No entry of the second list has a later time than one of the first.
abbrev pub AreNewer : List DirEntry → List DirEntry → Type 0
AreNewer kept left = All (λ k. All (λ d. time_le d.mtime k.mtime ≡ true) left) kept

All-drop : (P : DirEntry → Type 0) (n : ℕ) (xs : List DirEntry) → All P xs → All P (drop n xs)
All-drop P zero xs a = a
All-drop P (suc n) [] a = tt
All-drop P (suc n) (x ∷ xs) a = All-drop P n xs a.1

take-AreNewer :
    (n : ℕ) (xs : List DirEntry) → IsSorted newer_first xs → AreNewer (take n xs) (drop n xs)
unfolding time_le newer_first
take-AreNewer zero xs s = tt
take-AreNewer (suc n) [] s = tt
take-AreNewer (suc n) (x ∷ xs) s =
    (All-drop (λ y. newer_first x y ≡ true) n xs s.0, take-AreNewer n xs s.1)

take-drop : (n : ℕ) (xs : List DirEntry) → take n xs ++ drop n xs ≡ xs
take-drop zero xs = refl
take-drop (suc n) [] = refl
take-drop (suc n) (x ∷ xs) = ap (λ l. x ∷ l) (take-drop n xs)

-- The entries that are offered are the newest ones: together with entries that are left out they are
-- the listing, in another order; none of those has a later time than an offered one; the offered ones
-- are at most as many as the limit, and where some are left out just as many.
pub newest_first-AreNewer :
    (dirs : List DirEntry) (limit : ℕ)
    → (left : List DirEntry) × Perm (newest_first dirs limit ++ left) dirs
      × AreNewer (newest_first dirs limit) left
      × (length (newest_first dirs limit) ≡ min limit (length (newest_first dirs limit ++ left)))
unfolding newest_first time_le newer_first
newest_first-AreNewer dirs limit =
    let sorted = sort_by newer_first dirs in
    let whole = take-drop limit sorted in
    (
      drop limit sorted,
      subst (λ l. Perm l dirs) (sym whole) (sort_by-Perm newer_first dirs),
      take-AreNewer limit sorted (
          sort_by-IsSorted newer_first (λ a b h. time_le_total b.mtime a.mtime h)
            (λ a b c h k. time_le_trans c.mtime b.mtime a.mtime k h) dirs),
      subst (λ l. length (take limit sorted) ≡ min limit (length l)) (sym whole)
          (length-take limit sorted),
    )
