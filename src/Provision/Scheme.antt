-- ===== src/Provision/Scheme.antt =====
-- src/core/provision.rs: `Scheme`, its settings as codes, and `Scheme::validate`.
pub mod Valid
pub mod Resolve
use mathlib.Core.Option
use flipperos_installer.Base.{
  ℕ, zero, suc, ◌/◌, ◌%◌, Bool, true, false, not, ◌&&◌, ◌||◌, List, [], ◌∷◌, Option, none, some,
  Text, codes, text_eq, to_lower, to_upper, if◌then◌else◌, leb, ltb, ◌==◌, any, filter, length,
  Result, ok, err, panicked, bail_if, ok_or, unwrap_or, ◌>>=◌, ◌>>◌,
}
use flipperos_installer.Ufs.Codes.{
  boot_lun_none, boot_lun_a, boot_lun_b, provisioning_thin, lus_per_config_desc,
  memory_type_from_name,
}
use flipperos_installer.Provision.Error.{
  ProvisionResult, parsing_scheme, no_logical_units, id_out_of_range, listed_twice,
  unknown_memory_type, unknown_provisioning, unknown_boot_lu, bad_logical_block_size,
  not_one_unsized, unflagged_boot_lu, unknown_active_boot_lu, Error,
}

pub data WbSize : Type 0 where
  mib : ℕ → WbSize
  keyword : Text → WbSize

pub record WriteBoosterScheme : Type 0 where
  pub size : WbSize
  pub buffer_type : Text

pub record SchemeLu : Type 0 where
  pub id : ℕ
  pub name : Text
  pub memory_type : Text
  pub size_mib : Option ℕ
  pub boot_lun : Option Text
  pub data_reliability : Bool
  pub provisioning : Text
  pub logical_block_size : ℕ

pub record Scheme : Type 0 where
  pub boot_enable : Bool
  pub active_boot_lu : Text
  pub writebooster : WriteBoosterScheme
  pub lus : List SchemeLu

-- `WriteBoosterScheme::default`
abbrev pub default_writebooster : WriteBoosterScheme
default_writebooster = record { size = keyword (codes "max"); buffer_type = codes "shared" }

-- A unit with the defaults of the fields that a scheme file may leave out.
abbrev pub default_lu : ℕ → Text → Text → Option ℕ → Option Text → SchemeLu
default_lu id name memory size boot = record {
  id = id;
  name = name;
  memory_type = memory;
  size_mib = size;
  boot_lun = boot;
  data_reliability = true;
  provisioning = codes "thin";
  logical_block_size = 4096;
}

-- What the compiled-in config/flipperos-ufs.toml says.
abbrev pub default_scheme : Scheme
default_scheme = record {
  boot_enable = true;
  active_boot_lu = codes "A";
  writebooster = default_writebooster;
  lus =
      default_lu 0 (codes "system") (codes "normal") none none
      ∷ default_lu 1 (codes "u-boot-a") (codes "enhanced1") (some 16) (some (codes "A"))
      ∷ default_lu 2 (codes "u-boot-b") (codes "enhanced1") (some 16) (some (codes "B"))
      ∷ default_lu 3 (codes "recovery") (codes "enhanced1") (some 128) none
      ∷ [];
}

-- `Scheme::boot_lun_en`
unfoldable pub boot_lun_en : Scheme → ProvisionResult ℕ
boot_lun_en s =
    let name = to_upper s.active_boot_lu in
    if text_eq name (codes "A")
    then ok boot_lun_a
    else if text_eq name (codes "B")
    then ok boot_lun_b
    else if text_eq name (codes "NONE") || text_eq name (codes "OFF") || text_eq name (codes "")
    then ok boot_lun_none
    else err (unknown_active_boot_lu name)

unfoldable pub memory_type_code : SchemeLu → ProvisionResult ℕ
memory_type_code l =
    ok_or (memory_type_from_name l.memory_type) (unknown_memory_type l.id l.memory_type)

unfoldable pub provisioning_code : SchemeLu → ProvisionResult ℕ
provisioning_code l =
    let name = to_lower l.provisioning in
    if text_eq name (codes "thick")
    then ok 0x00
    else if text_eq name (codes "thin")
    then ok provisioning_thin
    else if text_eq name (codes "thin-read-zeros")
    then ok 0x03
    else err (unknown_provisioning l.id name)

unfoldable pub boot_lun_code : SchemeLu → ProvisionResult ℕ
boot_lun_code l = elim (Option.map to_upper l.boot_lun) [
  | none ↦ ok boot_lun_none
  | some s ↦
      if text_eq s (codes "A")
      then ok boot_lun_a
      else if text_eq s (codes "B")
      then ok boot_lun_b
      else err (unknown_boot_lu l.id s)
]

-- `u32::is_power_of_two` and `u32::trailing_zeros`: 32 halvings see every bit.
unfoldable pub is_power_of_two : ℕ → ℕ → Bool
is_power_of_two zero n = false
is_power_of_two (suc k) n =
    let rest = is_power_of_two k (n / 2) in if n == 1 then true else (n % 2 == 0) && rest

unfoldable pub trailing_zeros : ℕ → ℕ → ℕ
trailing_zeros zero n = 0
trailing_zeros (suc k) n = let rest = trailing_zeros k (n / 2) in if n % 2 == 0 then suc rest else 0

unfoldable pub logical_block_size_exponent : SchemeLu → ProvisionResult ℕ
logical_block_size_exponent l =
    let size = l.logical_block_size in
    if not (is_power_of_two 32 size) || ltb size 4096
    then err (bad_logical_block_size l.id size)
    else ok (trailing_zeros 32 size)

-- The loop of `validate` over the units, with the ids that it has seen.
unfoldable pub check_units : List ℕ → List SchemeLu → ProvisionResult (Unit {0})
check_units seen [] = ok tt
check_units seen (l ∷ ls) = do
  bail_if (leb lus_per_config_desc l.id) (id_out_of_range l.id)
  bail_if (any (λ id. id == l.id) seen) (listed_twice l.id)
  _ ← memory_type_code l
  _ ← provisioning_code l
  _ ← boot_lun_code l
  _ ← logical_block_size_exponent l
  check_units (l.id ∷ seen) ls

abbrev pub is_unsized : SchemeLu → Bool
is_unsized l = elim l.size_mib [ none ↦ true | some _ ↦ false ]

-- `Scheme::validate`
unfoldable pub validate : Scheme → ProvisionResult (Unit {0})
validate s = do
  bail_if (length s.lus == 0) no_logical_units
  check_units [] s.lus
  let unsized_count = length (filter is_unsized s.lus)
  bail_if (not (unsized_count == 1)) (not_one_unsized unsized_count)
  want ← boot_lun_en s
  bail_if
      (not (want == boot_lun_none)
        && not (any (λ l. unwrap_or (boot_lun_code l) boot_lun_none == want) s.lus))
      (unflagged_boot_lu s.active_boot_lu)

-- Where a scheme came from, as `resolve` describes it.
pub data Origin : Type 0 where
  built_in : Origin
  file : Text → Origin
  rejected : Error → Origin
  unreadable : Text → Text → Origin

-- The TOML reader is a library's, and the file system answers reads: each gives its value or a
-- message.
module _ (from_toml : Text → Result Text Scheme) (read_to_string : Text → Result Text Text) where
  -- `Scheme::parse`
  unfoldable pub parse : Text → ProvisionResult Scheme
  parse text = elim (from_toml text) [
    | ok s ↦ validate s >> ok s
    | err e ↦ err (parsing_scheme e)
    | panicked ↦ panicked
  ]

  -- `Scheme::embedded_default`, of the text that is compiled in: where that does not parse, it panics.
  unfoldable pub embedded_default : (default_text : Text) → ProvisionResult Scheme
  unfolding parse
  embedded_default default_text = elim (parse default_text) [
    | ok s ↦ ok s
    | err e ↦ panicked
    | panicked ↦ panicked
  ]

  -- `Scheme::resolve`, over `cfg.ufs_scheme`; a panic of a reader would end the program.
  unfoldable pub resolve : (default_text : Text) → Option Text → ProvisionResult (Scheme × Origin)
  unfolding embedded_default
  resolve default_text none = embedded_default default_text >>= λ s. ok (s, built_in)
  resolve default_text (some path) = elim (read_to_string path) [
    | ok text ↦ elim (parse text) [
      | ok s ↦ ok (s, file path)
      | err e ↦ embedded_default default_text >>= λ s. ok (s, rejected e)
      | panicked ↦ panicked
    ]
    | err e ↦ embedded_default default_text >>= λ s. ok (s, unreadable path e)
    | panicked ↦ panicked
  ]
