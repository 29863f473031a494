-- ===== src/Machine.antt =====
-- What an installation does to the system (src/core/install.rs, src/core/stage.rs), as a history of
-- effects, and what the system answers. Log lines and the progress bar are left out.
use flipperos_installer.Base.{
  ℕ, Bool, List, ◌∷◌, Option, none, some, Text, Result, ok, err, if◌then◌else◌,
}
use flipperos_installer.Base.Calls.{Call, pure}
use flipperos_installer.Model.{Source}
use flipperos_installer.Storage.BootLu.{Sibling}

-- A partition to be written: its number, its first and last block, its flags and its name.
pub record Part : Type 0 where
  pub index : ℕ
  pub first_lba : ℕ
  pub last_lba : ℕ
  pub flags : ℕ
  pub name : Text

pub data Effect : Type 0 where
  -- a program that is run to its end, alone or with a stream on its input
  ran : (command : List Text) → Effect
  fed : (location : Text) (command : List Text) → Effect
  -- an image that is copied to a device from an offset on, and the partition image of the metadata
  copied : (location device : Text) (offset : ℕ) → Effect
  stored : (image device : Text) → Effect
  -- the protective record and an empty table, and the partitions
  initialised : (disk : Text) → Effect
  partitioned : (disk : Text) (parts : List Part) → Effect
  boot_switched : (disk : Text) (id : ℕ) → Effect
  -- directories and files outside the target: the mount points, the staged copies
  made_dir : Text → Effect
  removed_dir : Text → Effect
  made_file : Text → Effect
  unpacked : (archive : Text) → Effect
  slept : ℕ → Effect

abbrev pub Log : Type 0
Log = List Effect

-- What the system answers, which may depend on all that was done before. An option is an error.
pub record Machine : Type 0 where
  pub runs : Log → List Text → Option Text
  pub feeds : Log → Text → List Text → Option Text
  pub opens : Log → Text → Source → Option Text
  pub copies : Log → Text → Text → Option Text
  pub digest : Log → Text → Text
  pub stores : Log → Text → Option Text
  pub initialises : Log → Text → Option Text
  pub partitions : Log → Text → Option Text
  pub last_usable : Log → Text → Option ℕ
  pub switches : Log → Text → ℕ → Option Text
  pub boot_lun_en : Log → Text → Result Text ℕ
  pub siblings : Log → Text → List Sibling
  pub block_size : Log → Text → Option ℕ
  pub in_use : Log → Text → List Text
  pub mount_table : Log → Option Text
  pub makes : Log → Text → Option Text
  pub unpacks : Log → Text → Option Text
  pub exists : Log → Text → Bool
  pub claimed : Log → Text → Bool
  pub now : Log → ℕ
  pub free_space : Log → Text → Result Text ℕ
  pub file_size : Log → Text → ℕ

abbrev pub Io : Type 0 → Type 0
Io = Call Effect Text

-- An action, and the error that the system gives it.
abbrev pub outcome : Option Text → Result Text (Unit {0})
outcome none = ok tt
outcome (some e) = err e

abbrev pub acts : Effect → (Log → Option Text) → Io (Unit {0})
acts e failure h = (outcome (failure h), e ∷ h)

abbrev pub asked : {A : Type 0} → (Log → A) → Io A
asked f h = (ok (f h), h)

abbrev pub checked : (Log → Option Text) → Io (Unit {0})
checked failure h = (outcome (failure h), h)

-- `exec`: in a dry run a command is only logged.
unfoldable pub exec : Machine → Bool → List Text → Io (Unit {0})
exec m dry_run command = if dry_run then pure tt else acts (ran command) (λ h. m.runs h command)

-- A failure is ignored: `.ok()` and `let _ =`.
abbrev pub ignored : Io (Unit {0}) → Io (Unit {0})
ignored call h = (ok tt, (call h).1)

abbrev pub unless : Bool → Io (Unit {0}) → Io (Unit {0})
unless done call = if done then pure tt else call
