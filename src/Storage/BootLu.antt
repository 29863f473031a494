-- ===== src/Storage/BootLu.antt =====
-- src/core/storage.rs: `read_boot_lun_id`, `find_ufs_boot_lu` and `find_ufs_data_lu`, which find the
-- block node of another logical unit of a device.
use flipperos_installer.Base.{
  ℕ, ◌+◌, ◌-◌, ◌*◌, ◌/◌, ◌%◌, ◌<◌, ◌≡◌, ◌≢◌, refl, inl, inr, Bool, true, false, ◌&&◌, List, [], ◌∷◌,
  ◌++◌, ap, Option, none, some, Option-cases, Bool-cases, Text, codes, text_eq, text_eq_refl,
  is_empty, if◌then◌else◌, ltb, leb, ◌==◌, strip_prefix, arith,
}
use flipperos_installer.Ufs.Rescan.{lun_of, is_digit}

-- The value of a digit in base 16.
unfoldable pub hex_value : ℕ → Option ℕ
hex_value c =
    if is_digit c
    then some (c - b'0')
    else if leb b'A' c && leb c b'F'
    then some (c - b'A' + 10)
    else if leb b'a' c && leb c b'f'
    then some (c - b'a' + 10)
    else none

abbrev dec_value : ℕ → Option ℕ
dec_value c = if is_digit c then some (c - b'0') else none

abbrev next_value : ℕ → ℕ → Option ℕ → Option ℕ
next_value base n none = none
next_value base n (some v) = some (n * base + v)

-- The digits of a `u8`, to be read on from `n`; a value that does not fit is an error.
unfoldable pub u8_digits : ℕ → (ℕ → Option ℕ) → ℕ → Text → Option ℕ
u8_digits base value n [] = if ltb n 256 then some n else none
u8_digits base value n (c ∷ s) = elim (next_value base n (value c)) [
  | none ↦ none
  | some m ↦ u8_digits base value m s
]

abbrev unsigned : Text → Text
unsigned [] = []
unsigned (c ∷ s) = if c == b'+' then s else c ∷ s

-- `u8::from_str_radix`, with its optional sign.
unfoldable pub parse_u8 : ℕ → (ℕ → Option ℕ) → Text → Option ℕ
parse_u8 base value s =
    let digits = unsigned s in if is_empty digits then none else u8_digits base value 0 digits

abbrev or_else : Option Text → Option Text → Option Text
or_else none o = o
or_else (some t) o = some t

abbrev number_of : Text → Option Text → Option ℕ
number_of raw (some hex) = parse_u8 16 hex_value hex
number_of raw none = parse_u8 10 dec_value raw

-- `read_boot_lun_id`, over what the attribute reads as.
unfoldable pub read_boot_lun_id : Option Text → Option ℕ
read_boot_lun_id none = none
read_boot_lun_id (some raw) =
    number_of raw (or_else (strip_prefix (codes "0x") raw) (strip_prefix (codes "0X") raw))

-- A sibling directory: its name, its `boot_lun_id` attribute, and its block node.
pub record Sibling : Type 0 where
  pub name : Text
  pub boot_lun_id : Option Text
  pub node : Option Text

-- A node that is not the disk's own.
abbrev other_node : Text → Option Text → Option Text
other_node disk none = none
other_node disk (some node) = if text_eq node disk then none else some node

abbrev pub is_number : ℕ → Option ℕ → Bool
is_number n none = false
is_number n (some m) = m == n

abbrev pub first_other : Text → (Sibling → Bool) → List Sibling → Option Text
first_other disk wanted [] = none
first_other disk wanted (s ∷ more) =
    or_else (if wanted s then other_node disk s.node else none) (first_other disk wanted more)

-- `find_ufs_boot_lu`, over the siblings of the disk's unit.
unfoldable pub find_ufs_boot_lu : Text → ℕ → List Sibling → Option Text
find_ufs_boot_lu disk id = first_other disk (λ s. is_number id (read_boot_lun_id s.boot_lun_id))

-- `find_ufs_data_lu`
unfoldable pub find_ufs_data_lu : Text → ℕ → List Sibling → Option Text
find_ufs_data_lu disk lun = first_other disk (λ s. is_number lun (lun_of s.name))

-- The digits that the kernel prints: `0x%02X`.
abbrev hex_digit : ℕ → ℕ
hex_digit d = if ltb d 10 then b'0' + d else b'A' + (d - 10)

abbrev pub printed : ℕ → Text
printed n = b'0' ∷ b'x' ∷ hex_digit (n / 16) ∷ hex_digit (n % 16) ∷ []

hex_value-hex_digit : (d : ℕ) → d < 16 → hex_value (hex_digit d) ≡ some d
unfolding hex_value
hex_value-hex_digit d h = ground arith

-- A byte that the kernel has printed with a `0x` prefix is read back.
pub read_boot_lun_id-printed : (n : ℕ) → n < 256 → read_boot_lun_id (some (printed n)) ≡ some n
unfolding read_boot_lun_id parse_u8 u8_digits strip_prefix
read_boot_lun_id-printed n h =
    ground (
      arith,
      hex_value-hex_digit (n / 16) (omega arith),
      hex_value-hex_digit (n % 16) (omega arith),
    )

-- A node of a wanted sibling that is not the disk's own; no wanted sibling before it has one.
pub record IsFirstOther (disk : Text) (wanted : Sibling → Bool) (ss : List Sibling) (node : Text)
    : Type 0 where
  pub before : List Sibling
  pub sibling : Sibling
  pub after : List Sibling
  pub split : ss ≡ before ++ sibling ∷ after
  pub matches : wanted sibling ≡ true
  pub has_node : sibling.node ≡ some node
  pub distinct : node ≢ disk
  pub none_before : first_other disk wanted before ≡ none

offered_lem :
    (disk : Text) (b : Bool) (o : Option Text) (node : Text)
    → (if b then other_node disk o else none) ≡ some node
    → (b ≡ true) × (o ≡ some node) × (node ≢ disk)
offered_lem disk true (some m) node h = elim (Bool-cases (text_eq m disk)) [
  | inl same ↦ ground arith
  | inr other ↦ (refl, rw other at h, λ e. ground (arith, text_eq_refl disk))
]
offered_lem disk true none node h = cc
offered_lem disk false o node h = cc

first_other-IsFirstOther :
    (disk : Text) (wanted : Sibling → Bool) (ss : List Sibling) (node : Text)
    → first_other disk wanted ss ≡ some node
    → IsFirstOther disk wanted ss node
first_other-IsFirstOther disk wanted [] node h = cc
first_other-IsFirstOther disk wanted (s ∷ more) node h =
    elim (Option-cases (if wanted s then other_node disk s.node else none)) [
      | inr (m, e) ↦
          let (matches, has, distinct) = offered_lem disk (wanted s) s.node node (cc) in
          record {
            before = [];
            sibling = s;
            after = more;
            split = refl;
            matches = matches;
            has_node = has;
            distinct = distinct;
            none_before = refl;
          }
      | inl e ↦
          let r = first_other-IsFirstOther disk wanted more node (cc) in
          record {
            before = s ∷ r.before;
            sibling = r.sibling;
            after = r.after;
            split = ap (λ l. s ∷ l) r.split;
            matches = r.matches;
            has_node = r.has_node;
            distinct = r.distinct;
            none_before = cc;
          }
    ]

-- What `find_ufs_boot_lu` finds is the node of the first sibling with the boot flag that has a node
-- other than the disk's own.
pub find_ufs_boot_lu-IsFirstOther :
    (disk : Text) (id : ℕ) (ss : List Sibling) (node : Text)
    → find_ufs_boot_lu disk id ss ≡ some node
    → IsFirstOther disk (λ s. is_number id (read_boot_lun_id s.boot_lun_id)) ss node
unfolding find_ufs_boot_lu
find_ufs_boot_lu-IsFirstOther disk id ss node h = first_other-IsFirstOther disk _ ss node h
