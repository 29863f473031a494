-- ===== src/Install/Gpt.antt =====
-- src/core/install.rs: `write_gpt`, the three partitions of the target.
pub mod Laid
use flipperos_installer.Base.{
  Option, ℕ, ◌+◌, ◌-◌, ◌*◌, ◌/◌, ◌≤◌, ◌≡◌, refl, Bool, true, ◌||◌, List, [], ◌∷◌, ◌++◌, none, some,
  Text, codes, if◌then◌else◌, ltb, ◌==◌, arith, inl, inr, ◌⊎◌, sym, subst,
}
use flipperos_installer.Base.Calls.{pure, raise, ◌>>=◌, ◌>>◌}
use flipperos_installer.Machine.{
  Machine, initialised, partitioned, Part, Io, exec, asked, acts, ignored,
}
use flipperos_installer.Install.Commands.{settle}

abbrev pub loader_start : ℕ
loader_start = 32 * 1024

abbrev pub metadata_start : ℕ
metadata_start = 60 * 1024 * 1024

abbrev pub root_start : ℕ
root_start = 64 * 1024 * 1024

abbrev pub loader_capacity : ℕ
loader_capacity = metadata_start - loader_start

abbrev pub loader_part_index : ℕ
loader_part_index = 1

abbrev pub metadata_part_index : ℕ
metadata_part_index = 2

abbrev pub root_part_index : ℕ
root_part_index = 3

-- The sizes that the `gpt` package knows
abbrev pub is_block_size : ℕ → Bool
is_block_size s = (s == 512) || (s == 4096)

-- The partitions of a disk with blocks of this size and this last usable block
unfoldable pub gpt_parts : (sector_size last_usable : ℕ) → List Part
gpt_parts s last =
    record {
      index = loader_part_index;
      first_lba = loader_start / s;
      last_lba = metadata_start / s - 1;
      flags = 0;
      name = codes "loader";
    }
    ∷ record {
      index = metadata_part_index;
      first_lba = metadata_start / s;
      last_lba = root_start / s - 1;
      flags = 0;
      name = codes "metadata";
    }
    ∷ record {
      index = root_part_index;
      first_lba = root_start / s;
      last_lba = last;
      flags = 4;
      name = codes "root";
    }
    ∷ []

-- The table is read back free of partitions; its first free region ends at the last usable block.
unfoldable pub write_parts : Machine → Bool → Text → (sector_size : ℕ) → Option ℕ → Io (Unit {0})
unfolding exec gpt_parts settle
write_parts m dry_run disk s none = raise (codes "no free space for partitions")
write_parts m dry_run disk s (some last) =
    if ltb last (root_start / s)
    then raise (disk ++ codes " is too small for the FlipperOS layout")
    else acts (partitioned disk (gpt_parts s last)) (λ h. m.partitions h disk)
      >> ignored (exec m dry_run (codes "partprobe" ∷ disk ∷ []))
      >> settle m dry_run

unfoldable pub write_gpt : Machine → Bool → Text → (sector_size : ℕ) → Io (Unit {0})
unfolding write_parts
write_gpt m dry_run disk s =
    if is_block_size s
    then (if dry_run
        then pure tt
        else acts (initialised disk) (λ h. m.initialises h disk)
          >> (asked (λ h. m.last_usable h disk) >>= write_parts m dry_run disk s))
    else raise (disk ++ codes ": unsupported logical block size")
