-- ===== src/Storage/Partition.antt =====
-- What `is_partition_of` takes for a partition of a disk.
use flipperos_installer.Base.{
  ◌≡◌, ◌≢◌, ◌↔◌, refl, ap, ◌∙◌, ◌⊎◌, inl, inr, true, not, ◌&&◌, [], ◌∷◌, ◌++◌, some, Option-cases,
  Bool-cases, Text, strip_prefix, is_empty, arith, ◌==◌,
}
use flipperos_installer.Storage.{all_digits, is_number_suffix, is_partition_of}

strip_prefix-append : (p s : Text) → strip_prefix p (p ++ s) ≡ some s
unfolding strip_prefix
strip_prefix-append [] s = refl
strip_prefix-append (c ∷ p) s = ground (arith, strip_prefix-append p s)

strip_prefix_lem : (p t s : Text) → strip_prefix p t ≡ some s → t ≡ p ++ s
unfolding strip_prefix
strip_prefix_lem [] t s h = cc
strip_prefix_lem (c ∷ p) [] s h = cc
strip_prefix_lem (c ∷ p) (d ∷ t) s h = ground (arith, strip_prefix_lem p t s)

-- A partition number: digits, at least one.
abbrev pub IsNumber : Text → Type 0
IsNumber digits = (digits ≢ []) × (all_digits digits ≡ true)

abbrev Suffix : Text → Type 0
Suffix s = (not (is_empty s) && is_number_suffix s) ≡ true

to_number :
    (s : Text) → Suffix s → (digits : Text) × IsNumber digits × ((s ≡ digits) ⊎ (s ≡ b'p' ∷ digits))
unfolding all_digits
to_number [] h = cc
to_number (c ∷ s) h = elim (Bool-cases (c == b'p')) [
  | inl p ↦ (s, ((λ e. ground arith), ground arith), inr (ground arith))
  | inr n ↦ (c ∷ s, ((λ e. cc), ground arith), inl refl)
]

of_digits : (digits : Text) → IsNumber digits → Suffix digits
unfolding all_digits
of_digits [] n = absurd (n.0 refl)
of_digits (c ∷ s) n = ground arith

of_p_digits : (digits : Text) → IsNumber digits → Suffix (b'p' ∷ digits)
unfolding all_digits
of_p_digits [] n = absurd (n.0 refl)
of_p_digits (c ∷ s) n = ground arith

suffix_lem : (disk s : Text) → Suffix s → is_partition_of (disk ++ s) disk ≡ true
unfolding is_partition_of
suffix_lem disk s h = rw (is_partition_of, strip_prefix-append disk s) h

-- `node` is a partition of `disk` exactly when it is the disk's name followed by a number, or by a
-- `p` and a number.
pub is_partition_of_iff :
    (node disk : Text)
    → (is_partition_of node disk ≡ true) ↔ (
        (digits : Text) × IsNumber digits
        × ((node ≡ disk ++ digits) ⊎ (node ≡ disk ++ b'p' ∷ digits)))
unfolding is_partition_of
is_partition_of_iff node disk = (to, from)
  where
    to :
        is_partition_of node disk ≡ true
        → (digits : Text) × IsNumber digits
          × ((node ≡ disk ++ digits) ⊎ (node ≡ disk ++ b'p' ∷ digits))
    to h = elim (Option-cases (strip_prefix disk node)) [
      | inl none' ↦ ground arith
      | inr (s, e) ↦
          let (digits, number, cases) = to_number s (rw (is_partition_of, e) at h) in
          let whole = strip_prefix_lem disk node s e in
          elim cases [
            | inl same ↦ (digits, number, inl (whole ∙ ap (λ x. disk ++ x) same))
            | inr same ↦ (digits, number, inr (whole ∙ ap (λ x. disk ++ x) same))
          ]
    ]

    from :
        ((digits : Text) × IsNumber digits
          × ((node ≡ disk ++ digits) ⊎ (node ≡ disk ++ b'p' ∷ digits)))
        → is_partition_of node disk ≡ true
    from (digits, number, e) = elim e [
      | inl same ↦ rw same (suffix_lem disk digits (of_digits digits number))
      | inr same ↦ rw same (suffix_lem disk (b'p' ∷ digits) (of_p_digits digits number))
    ]
