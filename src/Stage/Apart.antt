-- ===== src/Stage/Apart.antt =====
-- No artifact is read from a file system of the disk that is about to be wiped.
use flipperos_installer.Base.{
  ◌≡◌, ◌≢◌, refl, ap, subst, ◌∙◌, ◌⊎◌, inl, inr, Bool, true, false, ◌||◌, List, [], ◌∷◌, ◌++◌, All,
  Text, codes, find, Option, none, some, ok, err, Result, arith, starts_with, strip_prefix,
  trim_end, is_empty, if◌then◌else◌,
}
use flipperos_installer.Stage.{Artifact, OnTarget, check_not_on_mounts, under}
use flipperos_installer.Fetch.{is_url}

-- A path inside a directory, whose trailing slashes do not count: the directory itself, or what
-- follows it after a slash.
abbrev pub IsInside : Text → Text → Type 0
IsInside path dir =
    (rest : Text) × (path ≡ trim_end b'/' dir ++ rest)
    × (((rest ≡ []) × (path ≢ [])) ⊎ ((s : Text) × (rest ≡ b'/' ∷ s)))

strip_prefix-append : (p s : Text) → strip_prefix p (p ++ s) ≡ some s
unfolding strip_prefix
strip_prefix-append [] s = refl
strip_prefix-append (c ∷ p) s = ground (arith, strip_prefix-append p s)

slash-starts : (s : Text) → starts_with (codes "/") (b'/' ∷ s) ≡ true
unfolding starts_with
slash-starts s = refl

-- What `under` says of a directory without its trailing slashes
abbrev lies_in : Text → Text → Bool
lies_in mp path =
    if is_empty mp then starts_with (codes "/") path else elim (strip_prefix mp path) [
      | none ↦ false
      | some rest ↦ is_empty rest || starts_with (codes "/") rest
    ]

lies_in-append :
    (mp rest : Text)
    → ((rest ≡ []) × (mp ++ rest ≢ [])) ⊎ ((s : Text) × (rest ≡ b'/' ∷ s))
    → lies_in mp (mp ++ rest) ≡ true
lies_in-append [] rest (inl (e, n)) = absurd (n e)
lies_in-append [] rest (inr (s, e)) = ap (starts_with (codes "/")) e ∙ slash-starts s
lies_in-append (c ∷ mp) rest h = rw (strip_prefix-append (c ∷ mp) rest, ends h)
  where
    ends :
        ((rest ≡ []) × ((c ∷ mp) ++ rest ≢ [])) ⊎ ((s : Text) × (rest ≡ b'/' ∷ s))
        → (is_empty rest || starts_with (codes "/") rest) ≡ true
    ends (inl (e, n)) = ap (λ r. is_empty r || starts_with (codes "/") r) e
    ends (inr (s, e)) = ap (λ r. is_empty r || starts_with (codes "/") r) e ∙ slash-starts s

under-eq-true : (path dir : Text) → IsInside path dir → under path dir ≡ true
unfolding under
under-eq-true path dir (rest, e, h) =
    ap (lies_in (trim_end b'/' dir)) e
    ∙ lies_in-append (trim_end b'/' dir) rest
        (subst (λ p. ((rest ≡ []) × (p ≢ [])) ⊎ ((s : Text) × (rest ≡ b'/' ∷ s))) e h)

if-eq-none :
    {A : Type 0}
    → (b : Bool) (a : A) (o : Option A) → (if b then some a else o) ≡ none
    → (b ≡ false) × (o ≡ none)
if-eq-none true a o e = cc
if-eq-none false a o e = (refl, e)

find-eq-none :
    (path : Text) (mounts : List Text)
    → find (under path) mounts ≡ none
    → All (λ mp. ¬ IsInside path mp) mounts
find-eq-none path [] e = tt
find-eq-none path (mp ∷ mounts) e =
    let (u, rest) = if-eq-none (under path mp) mp (find (under path) mounts) e in
    ((λ i. ground (arith, under-eq-true path mp i)), find-eq-none path mounts rest)

-- A location from the net, or a path inside none of the mount points
abbrev pub IsApart : List Text → Artifact → Type 0
IsApart mounts a = (is_url a.location ≡ true) ⊎ All (λ mp. ¬ IsInside a.location mp) mounts

-- The result for an artifact, from whether it is from the net and the first mount point it lies in
step-IsApart :
    (net : Bool) (found : Option Text) (a : Artifact) (disk : Text)
    (rest : Result OnTarget (Unit {0}))
    → (if net then rest else elim found [
      | some mp ↦ err (record { label = a.label; mountpoint = mp; disk = disk })
      | none ↦ rest
    ])
      ≡ ok tt
    → (rest ≡ ok tt) × ((net ≡ true) ⊎ (found ≡ none))
step-IsApart true found a disk rest e = (e, inl refl)
step-IsApart false none a disk rest e = (e, inr refl)
step-IsApart false (some mp) a disk rest e = cc

-- Where the check lets a plan through, every artifact of it is fetched from the net or lies inside
-- none of the mount points of the disk.
pub check_not_on_mounts-IsApart :
    (plan : List Artifact) (mounts : List Text) (disk : Text)
    → check_not_on_mounts plan mounts disk ≡ ok tt
    → All (IsApart mounts) plan
unfolding check_not_on_mounts
check_not_on_mounts-IsApart [] mounts disk e = tt
check_not_on_mounts-IsApart (a ∷ plan) mounts disk e =
    let (rest, apart) =
      step-IsApart (is_url a.location) (find (under a.location) mounts) a disk
        (check_not_on_mounts plan mounts disk) e in
    (
      elim apart [
        | inl net ↦ inl net
        | inr none_found ↦ inr (find-eq-none a.location mounts none_found)
      ],
      check_not_on_mounts-IsApart plan mounts disk rest,
    )
