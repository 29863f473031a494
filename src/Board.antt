-- ===== src/Board.antt =====
-- src/core/board.rs: which board this is, from the device tree; `BoardInfo` of src/core/model.rs.
pub mod Recognised
use flipperos_installer.Base.{
  ℕ, Bool, true, false, not, ◌||◌, List, [], ◌∷◌, ◌++◌, Option, none, some, Text, codes, text_eq,
  is_empty, find, filter, if◌then◌else◌, ◌==◌, get_or_else,
}
use flipperos_installer.Storage.{contains}

pub record BoardInfo : Type 0 where
  pub compatible : List Text
  pub model : Text
  pub soc : Text
  pub board_id : Text

-- `COMPATIBLE_DEVICE_TYPES`
abbrev pub compatible_device_types : List (Text × Text)
compatible_device_types =
    (codes "flipper,one-rev-f0b0c1", codes "flipper-one")
    ∷ (codes "flipper,one-rev-f0b1c2", codes "flipper-one")
    ∷ (codes "friendlyarm,nanopi-m5", codes "nanopi-m5")
    ∷ (codes "friendlyarm,nanopi-r76s", codes "nanopi-r76s")
    ∷ (codes "luckfox,omni3576", codes "omni3576")
    ∷ (codes "firefly,roc-rk3576-pc", codes "roc-pc")
    ∷ (codes "radxa,rock-4d", codes "rock-4d")
    ∷ (codes "armsom,sige5", codes "sige5")
    ∷ (codes "rockchip,rk3576-evb1-v10", codes "evb")
    ∷ []

-- The row of a compatible string.
unfoldable pub device_type_row : Text → List (Text × Text) → Option Text
device_type_row c [] = none
device_type_row c ((compat, id) ∷ rows) =
    if text_eq c compat then some id else device_type_row c rows

-- `device_type_for`
unfoldable pub device_type_for : List Text → Option Text
device_type_for [] = none
device_type_for (c ∷ cs) = elim (device_type_row c compatible_device_types) [
  | some id ↦ some id
  | none ↦ device_type_for cs
]

-- `derive_board_id`
unfoldable pub derive_board_id : List Text → Text
derive_board_id compatible = get_or_else (device_type_for compatible) (codes "generic")

-- `bytes_to_string`: up to the first NUL. Bytes that are not UTF-8 are not modelled.
unfoldable pub bytes_to_string : List ℕ → Text
bytes_to_string [] = []
bytes_to_string (b ∷ bs) = if b == 0 then [] else b ∷ bytes_to_string bs

unfoldable pub split_nul : Text → List ℕ → List Text
split_nul seen [] = seen ∷ []
split_nul seen (b ∷ bs) =
    let rest = split_nul (if b == 0 then [] else seen ++ b ∷ []) bs in
    if b == 0 then seen ∷ rest else rest

-- `read_string_list`, over the bytes of the file where it can be read.
unfoldable pub read_string_list : Option (List ℕ) → List Text
read_string_list none = []
read_string_list (some bytes) = filter (λ s. not (is_empty s)) (split_nul [] bytes)

abbrev read_string : Option (List ℕ) → Text
read_string none = []
read_string (some bytes) = bytes_to_string bytes

-- `detect`, over the files `compatible` and `model` of the device tree.
unfoldable pub detect : Option (List ℕ) → Option (List ℕ) → BoardInfo
unfolding bytes_to_string
detect compatible_file model_file =
    let compatible = read_string_list compatible_file in
    let model = read_string model_file in
    record {
      compatible = compatible;
      model = if is_empty model then codes "unknown board" else model;
      soc =
          get_or_else
            (find (λ c. contains (codes "rk35") c || contains (codes "rockchip") c) compatible)
            (codes "unknown");
      board_id = derive_board_id compatible;
    }
