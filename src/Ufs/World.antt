-- ===== src/Ufs/World.antt =====
-- What src/core/ufs.rs does to the system, as a history of events, and what the system answers.
pub mod Trace
pub use flipperos_installer.Base.Calls.{
  pure, raise, halted, lift, asks, and_then, ◌>>=◌, ◌>>◌, raise_if, perform, caught, attempt,
}
use flipperos_installer.Base.Calls.{Call}
use flipperos_installer.Base.{
  ℕ, Bool, List, [], ◌∷◌, Option, Text, Result, ok, err, panicked, if◌then◌else◌,
}

-- `Dir`: no data, a buffer of a length to read into, or bytes to write.
pub data Dir : Type 0 where
  no_data : Dir
  data_in : ℕ → Dir
  data_out : List ℕ → Dir

-- The arguments of `Bsg::query`.
pub record Query : Type 0 where
  pub opcode : ℕ
  pub idn : ℕ
  pub index : ℕ
  pub length : ℕ
  pub dir : Dir
  pub value : ℕ

-- An action on the system: a query of the device, a `1` to the `delete` file of a logical unit, a
-- host scan, or a sleep of so many milliseconds.
pub data Event : Type 0 where
  sent : Query → Event
  deleted : Text → Event
  scanned : ℕ → Event
  slept : ℕ → Event

-- The latest event comes first.
abbrev pub History : Type 0
History = List Event

-- `BsgReply`, with the bytes that the device sent.
pub record Reply : Type 0 where
  pub result : ℕ
  pub upiu : List ℕ
  pub payload : List ℕ

pub data Answer : Type 0 where
  refused : Answer
  replied : Reply → Answer

-- An entry of a SCSI target directory: its path, its name, and whether it holds `scsi_device`.
pub record LuDir : Type 0 where
  pub path : Text
  pub name : Text
  pub is_device : Bool

-- The system that the installer runs on. Each answer depends on what was done before.
pub record World : Type 0 where
  pub ioctl : History → List ℕ → Dir → Answer
  pub can_open : History → Text → Bool
  pub now : History → ℕ
  pub target_entries : History → ℕ → List LuDir
  pub lu_block_node : History → Text → Option Text
  pub exists : History → Text → Bool
  pub scan_works : History → ℕ → Bool
  pub identity : History → ℕ → Option Text
  pub device_in_use : History → Text → List Text

abbrev pub Io : Type 0 → Type 0 → Type 0
Io = Call Event
