-- ===== src/Archive/Inside.antt =====
-- src/core/archive.rs: whatever an archive holds, it is unpacked below the directory it goes to.
use flipperos_installer.Base.{
  ℕ, ◌≡◌, ◌≢◌, refl, subst, Bool, true, false, List, [], ◌∷◌, ◌++◌, All, Option, none, some,
  option_map, Text, codes, Result, if◌then◌else◌, ◌==◌, text_eq, is_empty, starts_with,
  and_some-eq-some, Lacks, Bool-cases, inl, inr, arith, add64, length,
}
use flipperos_installer.Base.Calls.{pure, raise, lift}
use flipperos_installer.Added.{Adds, Grown-refl, >>=-Adds, if-Adds}
use flipperos_installer.Ufs.Rescan.{components}
use flipperos_installer.Archive.{
  Part, normal, root_dir, cur_dir, parent_dir, part_of, first_part, prepend, later_parts,
  parts_from, path_parts, all_normal, below_top, inner_path, Member, Archive, Unpacking, made_dir,
  made_file, wrote, System, acts, push_names, but_last, copy_reads, Tally, unpack_file, unpack_at,
  unpack_member, unpack_all, unpack_into,
}

-- A name that leads nowhere but one level down
abbrev pub IsOrdinary : Text → Type 0
IsOrdinary s =
    (is_empty s ≡ false)
    × Lacks b'/' s
    × (text_eq s (codes ".") ≡ false)
    × (text_eq s (codes "..") ≡ false)

abbrev IsPart : Part → Type 0
IsPart (normal s) = IsOrdinary s
IsPart root_dir = Unit
IsPart cur_dir = Unit
IsPart parent_dir = Unit

Lacks-append : (c d : ℕ) (s : Text) → Lacks c s → (d == c) ≡ false → Lacks c (s ++ (d ∷ []))
Lacks-append c d [] l h = rw h refl
Lacks-append c d (e ∷ s) l h = ground (arith, Lacks-append c d s)

-- A path splits into segments without a slash.
components-Lacks : (seen s : Text) → Lacks b'/' seen → All (Lacks b'/') (components seen s)
unfolding components
components-Lacks seen [] l = (l, tt)
components-Lacks seen (c ∷ s) l = elim (Bool-cases (c == b'/')) [
  | inl e ↦ rw e (l, components-Lacks [] s refl)
  | inr e ↦ rw e (components-Lacks (seen ++ (c ∷ [])) s (Lacks-append b'/' c seen l e))
]

abbrev OnPart : Option Part → Type 0
OnPart none = Unit
OnPart (some p) = IsPart p

part_of-IsPart : (seg : Text) → Lacks b'/' seg → OnPart (part_of seg)
unfolding part_of
part_of-IsPart seg l = elim (Bool-cases (is_empty seg)) [
  | inl e ↦ rw e tt
  | inr e ↦ elim (Bool-cases (text_eq seg (codes "."))) [
    | inl k ↦ rw (e, k) tt
    | inr k ↦ elim (Bool-cases (text_eq seg (codes ".."))) [
      | inl n ↦ rw (e, k, n) tt
      | inr n ↦ rw (e, k, n) (e, l, k, n)
    ]
  ]
]

if-OnPart : (b : Bool) (o p : Option Part) → OnPart o → OnPart p → OnPart (if b then o else p)
if-OnPart true o p a c = a
if-OnPart false o p a c = c

first_part-IsPart : (seg : Text) → Lacks b'/' seg → OnPart (first_part seg)
unfolding first_part
first_part-IsPart seg l =
    if-OnPart (text_eq seg (codes ".")) (some cur_dir) (part_of seg) tt (part_of-IsPart seg l)

prepend-IsPart :
    (o : Option Part) (ps : List Part) → OnPart o → All IsPart ps → All IsPart (prepend o ps)
prepend-IsPart none ps o a = a
prepend-IsPart (some p) ps o a = (o, a)

later_parts-IsPart : (segs : List Text) → All (Lacks b'/') segs → All IsPart (later_parts segs)
unfolding later_parts
later_parts-IsPart [] a = tt
later_parts-IsPart (seg ∷ segs) a =
    prepend-IsPart (part_of seg) (later_parts segs) (part_of-IsPart seg a.0)
      (later_parts-IsPart segs a.1)

parts_from-IsPart : (segs : List Text) → All (Lacks b'/') segs → All IsPart (parts_from segs)
unfolding parts_from
parts_from-IsPart [] a = tt
parts_from-IsPart (seg ∷ segs) a =
    prepend-IsPart (first_part seg) (later_parts segs) (first_part-IsPart seg a.0)
      (later_parts-IsPart segs a.1)

if-IsPart :
    (b : Bool) (ps qs : List Part)
    → All IsPart ps
    → All IsPart qs
    → All IsPart (if b then ps else qs)
if-IsPart true ps qs a c = a
if-IsPart false ps qs a c = c

path_parts-IsPart : (path : Text) → All IsPart (path_parts path)
unfolding path_parts
path_parts-IsPart path =
    let lacks = components-Lacks [] path refl in
    if-IsPart (starts_with (codes "/") path) _ _ (tt, later_parts-IsPart _ lacks)
      (parts_from-IsPart _ lacks)

some-injective : {A : Type 0} → {a b : A} → some a ≡ some b → a ≡ b
some-injective h = cc

option_map-eq-some :
    {A B : Type 0}
    → (f : A → B) (o : Option A) {b : B} → option_map f o ≡ some b
    → (a : A) × (o ≡ some a) × (f a ≡ b)
option_map-eq-some f none h = cc
option_map-eq-some f (some a) h = (a, refl, cc)

all_normal-IsOrdinary :
    (ps : List Part) {names : List Text}
    → All IsPart ps
    → all_normal ps ≡ some names
    → All IsOrdinary names
unfolding all_normal
all_normal-IsOrdinary [] {names} a h = subst (All IsOrdinary) (some-injective h) tt
all_normal-IsOrdinary (normal s ∷ ps) {names} a h =
    let (rest, p, q) = option_map-eq-some (λ names. s ∷ names) (all_normal ps) h in
    subst (All IsOrdinary) q (a.0, all_normal-IsOrdinary ps a.1 p)
all_normal-IsOrdinary (root_dir ∷ ps) a h = cc
all_normal-IsOrdinary (cur_dir ∷ ps) a h = cc
all_normal-IsOrdinary (parent_dir ∷ ps) a h = cc

below_top-IsOrdinary :
    (ps : List Part) {names : List Text}
    → All IsPart ps
    → below_top ps ≡ some names
    → All IsOrdinary names × (names ≢ [])
unfolding below_top
below_top-IsOrdinary [] {names} a h = cc
below_top-IsOrdinary (root_dir ∷ ps) {names} a h = cc
below_top-IsOrdinary (cur_dir ∷ ps) {names} a h = cc
below_top-IsOrdinary (parent_dir ∷ ps) {names} a h = cc
below_top-IsOrdinary (normal s ∷ ps) {names} a h =
    let (found, p, q) = and_some-eq-some (all_normal ps) _ h in
    some_names found (all_normal-IsOrdinary ps a.1 p) q
  where
    some_names :
        (found : List Text)
        → All IsOrdinary found
        → (elim found [ [] ↦ none | n ∷ ns ↦ some (n ∷ ns) ]) ≡ some names
        → All IsOrdinary names × (names ≢ [])
    some_names [] b e = cc
    some_names (n ∷ ns) b e =
        subst (λ l. All IsOrdinary l × (l ≢ [])) (some-injective e) (b, λ k. cc)

-- A place below the directory: at ordinary names under it, one after the other
abbrev pub IsBelow : (dest path : Text) → Type 0
IsBelow dest path = (names : List Text) × All IsOrdinary names × (path ≡ push_names dest names)

-- Directories are made below the directory or are itself, and files are below it.
abbrev pub IsInside : (dest : Text) → Unpacking → Type 0
IsInside dest (made_dir path) = IsBelow dest path
IsInside dest (made_file path) =
    (names : List Text) × All IsOrdinary names × (names ≢ []) × (path ≡ push_names dest names)
IsInside dest (wrote path bytes) =
    (names : List Text) × All IsOrdinary names × (names ≢ []) × (path ≡ push_names dest names)

but_last-IsOrdinary : (names : List Text) → All IsOrdinary names → All IsOrdinary (but_last names)
but_last-IsOrdinary [] a = tt
but_last-IsOrdinary (n ∷ []) a = tt
but_last-IsOrdinary (n ∷ o ∷ ns) a = (a.0, but_last-IsOrdinary (o ∷ ns) a.1)

module _ (sys : System) (dest : Text) where
  acts-Adds : (e : Unpacking) → IsInside dest e → Adds (IsInside dest) (acts sys e)
  acts-Adds e p h = (e ∷ [], refl, (p, tt))

  lift-Adds : {A : Type 0} → (r : Result Text A) → Adds (IsInside dest) (lift r)
  lift-Adds r h = Grown-refl (IsInside dest) h

  copy_reads-Adds :
      (names : List Text) (reads : List (Result Text (List ℕ))) (n : ℕ)
      → All IsOrdinary names
      → names ≢ []
      → Adds (IsInside dest) (copy_reads sys (push_names dest names) reads n)
  unfolding copy_reads
  copy_reads-Adds names [] n a k = λ h. Grown-refl (IsInside dest) h
  copy_reads-Adds names (r ∷ rs) n a k =
      >>=-Adds {E = Text} (IsInside dest) (lift r) _ (lift-Adds r) λ bytes.
        >>=-Adds (IsInside dest) (acts sys (wrote (push_names dest names) bytes)) _
          (acts-Adds (wrote (push_names dest names) bytes) (names, a, k, refl))
          λ _. copy_reads-Adds names rs (add64 n (length bytes)) a k

  unpack_file-Adds :
      (names : List Text) (reads : List (Result Text (List ℕ))) (tally : Tally)
      → All IsOrdinary names
      → names ≢ []
      → Adds (IsInside dest) (unpack_file sys dest names reads tally)
  unfolding unpack_file
  unpack_file-Adds names reads (files, n) a k =
      >>=-Adds (IsInside dest) (acts sys (made_dir (push_names dest (but_last names)))) _
        (acts-Adds _ (but_last names, but_last-IsOrdinary names a, refl))
        λ _.
          >>=-Adds (IsInside dest) (acts sys (made_file (push_names dest names))) _
            (acts-Adds _ (names, a, k, refl))
            λ _.
              >>=-Adds (IsInside dest) (copy_reads sys (push_names dest names) reads n) _
                (copy_reads-Adds names reads n a k) λ n' h. Grown-refl (IsInside dest) h

  unpack_at-Adds :
      (path : Text) (reads : List (Result Text (List ℕ))) (tally : Tally) (o : Option (List Text))
      → inner_path path ≡ o
      → Adds (IsInside dest) (unpack_at sys dest reads tally o)
  unfolding inner_path unpack_at
  unpack_at-Adds path reads tally none e = λ h. Grown-refl (IsInside dest) h
  unpack_at-Adds path reads tally (some names) e =
      let (a, k) = below_top-IsOrdinary (path_parts path) (path_parts-IsPart path) e in
      unpack_file-Adds names reads tally a k

  unpack_member-Adds :
      (m : Member) (tally : Tally) → Adds (IsInside dest) (unpack_member sys dest m tally)
  unfolding unpack_member
  unpack_member-Adds m tally =
      if-Adds (IsInside dest) m.is_file _ (pure tally)
        (>>=-Adds {E = Text} (IsInside dest) (lift m.path) _ (lift-Adds m.path)
          (λ path. unpack_at-Adds path m.reads tally (inner_path path) refl))
        (λ h. Grown-refl (IsInside dest) h)

  unpack_all-Adds :
      (ms : List (Result Text Member)) (tally : Tally)
      → Adds (IsInside dest) (unpack_all sys dest ms tally)
  unfolding unpack_all
  unpack_all-Adds [] tally = λ h. Grown-refl (IsInside dest) h
  unpack_all-Adds (m ∷ ms) tally =
      >>=-Adds {E = Text} (IsInside dest) (lift m) _ (lift-Adds m) λ member.
        >>=-Adds (IsInside dest) (unpack_member sys dest member tally) _
          (unpack_member-Adds member tally) (unpack_all-Adds ms)

-- Whatever an archive holds and whichever action fails: all that unpacking it does is to make that
-- directory and directories below it, and to make and write files below it, each at names one after the
-- other that are neither empty nor `.` nor `..` and hold no slash.
pub unpack_into-IsInside :
    (sys : System) (archive : Text) (opened : Archive) (dest : Text)
    → Adds (IsInside dest) (unpack_into sys archive opened dest)
unfolding unpack_into push_names
unpack_into-IsInside sys archive opened dest =
    >>=-Adds (IsInside dest) (acts sys (made_dir dest)) _ (acts-Adds sys dest _ ([], tt, refl)) λ _.
      >>=-Adds {E = Text} (IsInside dest) (lift opened) _ (lift-Adds sys dest opened) λ members.
        >>=-Adds (IsInside dest) (unpack_all sys dest members (0, 0)) _
          (unpack_all-Adds sys dest members (0, 0))
          λ tally.
            if-Adds (IsInside dest) (tally.0 == 0)
              (raise (archive ++ codes ": archive contained no files")) (pure tally.1)
              (λ h. Grown-refl (IsInside dest) h) (λ h. Grown-refl (IsInside dest) h)
