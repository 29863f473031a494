-- ===== src/Ufs/Error.antt =====
-- src/core/ufs.rs: the errors of the descriptor code, one constructor for each message, with the
-- values that the message shows. The node and the system's own error text are left out.
use flipperos_installer.Base.{ℕ, Text, Result}

pub data Error : Type 0 where
  short_device_descriptor : ℕ → Error
  unusable_layout : ℕ → ℕ → Error
  short_geometry_descriptor : ℕ → Error
  zero_allocation_unit : Error
  unknown_memory_type : ℕ → Error
  zero_cap_adj_fac : Text → Error
  short_config_descriptor : ℕ → ℕ → Error
  short_unit_descriptor : ℕ → Error
  impossible_length : ℕ → ℕ → ℕ → Error
  payload_out_of_range : ℕ → Error
  query_failed : ℕ → ℕ → ℕ → Error
  query_rejected : ℕ → ℕ → ℕ → Text → Error
  ioctl_failed : ℕ → ℕ → ℕ → Error
  reading_device_init : Error → Error
  never_initialised : Error
  open_failed : Text → Error
  rescan_failed : ℕ → Error
  did_not_come_back : Text → Error
  no_logical_units : ℕ → Error

abbrev pub UfsResult : Type 0 → Type 0
UfsResult A = Result Error A
