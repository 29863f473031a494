-- ===== src/Board/Recognised.antt =====
-- Which board a list of compatible strings stands for.
use flipperos_installer.Base.{
  ◌≡◌, refl, ap, ◌⊎◌, inl, inr, List, [], ◌∷◌, ◌++◌, All, none, some, Option-cases, Text, codes,
}
use flipperos_installer.Board.{
  compatible_device_types, device_type_row, device_type_for, derive_board_id,
}

abbrev pub Unknown : List Text → Type 0
Unknown = All (λ c. device_type_row c compatible_device_types ≡ none)

-- The first compatible string of the table decides.
pub record IsFirstMatch (compatible : List Text) (id : Text) : Type 0 where
  pub before : List Text
  pub matched : Text
  pub after : List Text
  pub split : compatible ≡ before ++ matched ∷ after
  pub unknown_before : Unknown before
  pub row : device_type_row matched compatible_device_types ≡ some id

device_type_for_lem :
    (cs : List Text)
    → ((device_type_for cs ≡ none) × Unknown cs)
      ⊎ ((id : Text) × (device_type_for cs ≡ some id) × IsFirstMatch cs id)
unfolding device_type_for
device_type_for_lem [] = inl (refl, tt)
device_type_for_lem (c ∷ cs) = elim (Option-cases (device_type_row c compatible_device_types)) [
  | inr (id, e) ↦ inr (
    id,
    rw (device_type_for, e) refl,
    record { before = []; matched = c; after = cs; split = refl; unknown_before = tt; row = e },
  )
  | inl e ↦ elim (device_type_for_lem cs) [
    | inl (n, u) ↦ inl (rw (device_type_for, e) n, (e, u))
    | inr (id, f, m) ↦ inr (
      id,
      rw (device_type_for, e) f,
      record {
        before = c ∷ m.before;
        matched = m.matched;
        after = m.after;
        split = ap (λ l. c ∷ l) m.split;
        unknown_before = (e, m.unknown_before);
        row = m.row;
      },
    )
  ]
]

-- The board is the one of the first compatible string that the table lists; a board with none is
-- never guessed, but generic.
pub derive_board_id_lem :
    (compatible : List Text)
    → ((derive_board_id compatible ≡ codes "generic") × Unknown compatible)
      ⊎ IsFirstMatch compatible (derive_board_id compatible)
unfolding derive_board_id
derive_board_id_lem cs = elim (device_type_for_lem cs) [
  | inl (n, u) ↦ inl (rw n refl, u)
  | inr (id, f, m) ↦ inr (rw f m)
]
