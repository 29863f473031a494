-- ===== src/Storage/InUse/Free.antt =====
-- What it means that `device_in_use` finds nothing.
use flipperos_installer.Base.{
  ℕ, ◌≡◌, ◌≢◌, refl, sym, ap, ◌∙◌, ◌⊎◌, inl, inr, false, ◌==◌, any, text_eq, text_eq_refl, List, [],
  ◌∷◌, ◌++◌, All, some, Text, arith, map,
}
use mathlib.Core.List.{append_assoc, append-nil}
use flipperos_installer.Storage.Partition.{IsNumber, is_partition_of_iff}
use flipperos_installer.Storage.InUse.{
  is_space, lines, words, UseReason, is_on, mount_reasons, swap_reasons, all_reasons, tail,
  holder_reasons, device_in_use,
}

-- The name of the disk, or the name of a partition of it
abbrev pub IsOn : Text → Text → Type 0
IsOn disk src =
    (src ≡ disk)
    ⊎ ((digits : Text) × IsNumber digits × ((src ≡ disk ++ digits) ⊎ (src ≡ disk ++ b'p' ∷ digits)))

-- A column of a table, and what stands in one line
abbrev pub IsWord : Text → Type 0
IsWord w = (w ≢ []) × (any is_space w ≡ false)

abbrev pub IsLine : Text → Type 0
IsLine l = any (λ c. c == 10) l ≡ false

-- A mounted file system: its source, its mount point, and the rest of its line
pub record Mount : Type 0 where
  pub source : Text
  pub mountpoint : Text
  pub rest : Text

-- A swap device, and the rest of its line
pub record Swap : Type 0 where
  pub source : Text
  pub rest : Text

abbrev pub IsMount : Mount → Type 0
IsMount m = IsWord m.source × IsWord m.mountpoint × IsLine m.rest

abbrev pub IsSwap : Swap → Type 0
IsSwap w = IsWord w.source × IsLine w.rest

abbrev pub mount_line : Mount → Text
mount_line m = m.source ++ (32 ∷ (m.mountpoint ++ (32 ∷ m.rest)))

abbrev pub swap_line : Swap → Text
swap_line w = w.source ++ (32 ∷ w.rest)

-- Lines, each with its line break
abbrev pub text_of : List Text → Text
text_of [] = []
text_of (l ∷ ls) = l ++ (10 ∷ text_of ls)

lines-line : (seen l t : Text) → IsLine l → lines seen (l ++ (10 ∷ t)) ≡ (seen ++ l) ∷ lines [] t
unfolding lines
lines-line seen [] t h = ap (λ s. s ∷ lines [] t) (sym (append-nil seen))
lines-line seen (c ∷ l) t h =
    let (a, b) = not_break c l h in
    rw a (
      lines-line (seen ++ (c ∷ [])) l t b ∙ ap (λ s. s ∷ lines [] t) (append_assoc seen (c ∷ []) l))
  where
    not_break : (c : ℕ) (l : Text) → IsLine (c ∷ l) → ((c == 10) ≡ false) × IsLine l
    not_break c l h = (ground arith, ground arith)

lines-text_of : (ls : List Text) → All IsLine ls → lines [] (text_of ls) ≡ ls
unfolding lines
lines-text_of [] a = refl
lines-text_of (l ∷ ls) a = lines-line [] l (text_of ls) a.0 ∙ ap (λ x. l ∷ x) (lines-text_of ls a.1)

words-word :
    (seen w t : Text)
    → any is_space w ≡ false
    → seen ++ w ≢ []
    → words seen (w ++ (32 ∷ t)) ≡ (seen ++ w) ∷ words [] t
unfolding words
words-word [] [] t h n = absurd (n refl)
words-word (d ∷ seen) [] t h n = ap (λ s. (d ∷ s) ∷ words [] t) (sym (append-nil seen))
words-word seen (c ∷ w) t h n =
    let (a, b) = not_space c w h in
    rw a (
      words-word (seen ++ (c ∷ [])) w t b (λ e. n (sym (append_assoc seen (c ∷ []) w) ∙ e))
      ∙ ap (λ s. s ∷ words [] t) (append_assoc seen (c ∷ []) w))
  where
    not_space :
        (c : ℕ) (w : Text)
        → any is_space (c ∷ w) ≡ false
        → (is_space c ≡ false) × (any is_space w ≡ false)
    not_space c w h = (ground arith, ground arith)

words-first : (w t : Text) → IsWord w → words [] (w ++ (32 ∷ t)) ≡ w ∷ words [] t
words-first w t (n, h) = words-word [] w t h n

is_on-IsOn : (disk src : Text) → is_on disk src ≡ false → ¬ IsOn disk src
is_on-IsOn disk src h (inl e) = cc (ap (λ t. text_eq t disk) e ∙ text_eq_refl disk, h)
is_on-IsOn disk src h (inr p) = ground (arith, (is_partition_of_iff src disk).1 p, h)

append-empty : (xs ys : List UseReason) → xs ++ ys ≡ [] → (xs ≡ []) × (ys ≡ [])
append-empty [] ys h = (refl, h)
append-empty (x ∷ xs) ys h = cc

mount_lem :
    (disk : Text) (m : Mount)
    → IsMount m
    → mount_reasons disk (words [] (mount_line m)) ≡ []
    → ¬ IsOn disk m.source
unfolding mount_reasons
mount_lem disk m (s, p, r) h =
    let first = words-first m.source (m.mountpoint ++ (32 ∷ m.rest)) s in
    let second = words-first m.mountpoint m.rest p in
    let h' = ap (mount_reasons disk) (sym (first ∙ ap (λ x. m.source ∷ x) second)) ∙ h in
    is_on-IsOn disk m.source (ground arith)

swap_lem :
    (disk : Text) (w : Swap)
    → IsSwap w
    → swap_reasons disk (words [] (swap_line w)) ≡ []
    → ¬ IsOn disk w.source
unfolding swap_reasons
swap_lem disk w (s, r) h =
    let h' = ap (swap_reasons disk) (sym (words-first w.source w.rest s)) ∙ h in
    is_on-IsOn disk w.source (ground arith)

each_line :
    {A : Type 0}
    → (line : A → Text) (f : List Text → List UseReason) (P Q : A → Type 0)
    → ((a : A) → P a → f (words [] (line a)) ≡ [] → Q a)
    → (rows : List A) → All P rows
    → all_reasons f (map line rows) ≡ []
    → All Q rows
unfolding all_reasons
each_line line f P Q k [] a h = tt
each_line line f P Q k (r ∷ rs) a h =
    let (x, y) = append-empty (f (words [] (line r))) (all_reasons f (map line rs)) h in
    (k r a.0 x, each_line line f P Q k rs a.1 y)

holders_lem : (hs : List (Text × List Text)) → holder_reasons hs ≡ [] → All (λ h. h.1 ≡ []) hs
unfolding holder_reasons
holders_lem [] h = tt
holders_lem ((owner, []) ∷ more) h = (refl, holders_lem more h)
holders_lem ((owner, x ∷ xs) ∷ more) h = cc

-- The lines of the rows hold no line break.
IsLine-append : (l t : Text) → IsLine l → IsLine t → IsLine (l ++ t)
IsLine-append [] t a b = b
IsLine-append (c ∷ l) t a b = ground (arith, IsLine-append l t)

word-IsLine : (w : Text) → any is_space w ≡ false → IsLine w
word-IsLine [] h = refl
word-IsLine (c ∷ w) h = ground (arith, word-IsLine w)

mount_lines : (ms : List Mount) → All IsMount ms → All IsLine (map mount_line ms)
mount_lines [] a = tt
mount_lines (m ∷ ms) ((s, p, r), a) = (
  IsLine-append m.source _ (word-IsLine m.source s.1)
      (IsLine-append m.mountpoint _ (word-IsLine m.mountpoint p.1) r),
  mount_lines ms a,
)

swap_lines : (ws : List Swap) → All IsSwap ws → All IsLine (map swap_line ws)
swap_lines [] a = tt
swap_lines (w ∷ ws) ((s, r), a) =
    (IsLine-append w.source _ (word-IsLine w.source s.1) r, swap_lines ws a)

-- A disk that nothing uses
pub record IsFree (disk : Text) (ms : List Mount) (ws : List Swap)
    (holders : List (Text × List Text)) : Type 0 where
  pub unmounted : All (λ m. ¬ IsOn disk m.source) ms
  pub unswapped : All (λ w. ¬ IsOn disk w.source) ws
  pub unheld : All (λ h. h.1 ≡ []) holders

-- Where the mount table holds a line for each mounted file system, with its source and its mount point
-- as the first two columns, and the swap table a header and behind it a line for each swap device, with
-- the device as the first column: if `device_in_use` gives no reason, neither the disk nor a partition of
-- it, by its name, is mounted or a swap device, and the directories that it looks for holders in hold none.
pub device_in_use-IsFree :
    (ms : List Mount) (header : Text) (ws : List Swap) (holders : List (Text × List Text))
    (disk : Text)
    → All IsMount ms
    → IsLine header
    → All IsSwap ws
    → device_in_use
        (some (text_of (map mount_line ms)))
        (some (text_of (header ∷ map swap_line ws)))
        holders
        disk
      ≡ []
    → IsFree disk ms ws holders
unfolding device_in_use
device_in_use-IsFree ms header ws holders disk mounts head swaps h =
    let (a, b) =
      append-empty (all_reasons (mount_reasons disk) (lines [] (text_of (map mount_line ms)))) _
        h in
    let (c, d) =
      append-empty
        (all_reasons (swap_reasons disk) (tail (lines [] (text_of (header ∷ map swap_line ws))))) _
        b in
    record {
      unmounted =
          each_line mount_line (mount_reasons disk) IsMount (λ m. ¬ IsOn disk m.source)
            (mount_lem disk) ms mounts
            (ap (all_reasons (mount_reasons disk)) (sym (lines-text_of _ (mount_lines ms mounts)))
              ∙ a);
      unswapped =
          each_line swap_line (swap_reasons disk) IsSwap (λ w. ¬ IsOn disk w.source) (swap_lem disk)
            ws swaps
            (ap (λ ls. all_reasons (swap_reasons disk) (tail ls))
                (sym (lines-text_of (header ∷ map swap_line ws) (head, swap_lines ws swaps)))
              ∙ c);
      unheld = holders_lem holders d;
    }
