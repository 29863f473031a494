-- ===== src/Provision/Error.antt =====
-- src/core/provision.rs: the errors of provisioning, one constructor for each message, with the
-- values that the message shows.
use flipperos_installer.Base.{ℕ, Text, Result, ok, err, panicked}
use flipperos_installer.Ufs.Error.{Error as UfsError}

pub data Error : Type 0 where
  ufs : UfsError → Error
  parsing_scheme : Text → Error
  no_logical_units : Error
  id_out_of_range : ℕ → Error
  listed_twice : ℕ → Error
  unknown_memory_type : ℕ → Text → Error
  unknown_provisioning : ℕ → Text → Error
  unknown_boot_lu : ℕ → Text → Error
  bad_logical_block_size : ℕ → ℕ → Error
  not_one_unsized : ℕ → Error
  unflagged_boot_lu : Text → Error
  unknown_active_boot_lu : Text → Error
  unknown_writebooster_size : Text → Error
  unsupported_memory_type : ℕ → Text → Error
  scheme_too_large : ℕ → ℕ → Error
  over_the_ceiling : ℕ → Text → ℕ → Error
  count_overflows : ℕ → Error
  remainder_too_small : ℕ → ℕ → Error
  config_locked : Text → Error
  in_use : Text → Error
  not_read_back : Text → Error

abbrev pub ProvisionResult : Type 0 → Type 0
ProvisionResult A = Result Error A

-- `?` on a result of the descriptor code: both sides carry a message.
abbrev pub of_ufs : {A : Type 0} → Result UfsError A → ProvisionResult A
of_ufs (ok a) = ok a
of_ufs (err e) = err (ufs e)
of_ufs panicked = panicked
