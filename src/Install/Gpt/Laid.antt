-- ===== src/Install/Gpt/Laid.antt =====
-- What `write_gpt` writes, in bytes.
use flipperos_installer.Base.{ℕ, ◌+◌, ◌*◌, ◌<◌, ◌≡◌, List, [], ◌∷◌, some, Text}
use flipperos_installer.Machine.{Machine, Log, Effect, ran, initialised, partitioned, Part}

-- The bytes that a partition takes on a disk with blocks of this size: from the first, and up to the
-- one behind the last.
abbrev pub first_byte : ℕ → Part → ℕ
first_byte s p = p.first_lba * s

abbrev pub end_byte : ℕ → Part → ℕ
end_byte s p = (p.last_lba + 1) * s

-- The loader from 32 KiB to 60 MiB, the metadata up to 64 MiB, and the root up to the end of the last
-- block, which holds at least one block
abbrev pub AreAt : ℕ → ℕ → List Part → Type 0
AreAt s last (loader ∷ metadata ∷ root ∷ []) =
    (first_byte s loader ≡ 32768)
    × (end_byte s loader ≡ 62914560)
    × (first_byte s metadata ≡ 62914560)
    × (end_byte s metadata ≡ 67108864)
    × (first_byte s root ≡ 67108864)
    × (end_byte s root ≡ (last + 1) * s)
    × (67108864 < (last + 1) * s)
AreAt s last _ = ⊥

-- An empty table on this disk, or the three partitions up to a block that was its last usable one at
-- some moment, or a program that is run.
abbrev pub IsLaid : Machine → Text → ℕ → Effect → Type 0
IsLaid m disk s (initialised d) = d ≡ disk
IsLaid m disk s (partitioned d parts) =
    (d ≡ disk) × ((last : ℕ) × (h : Log) × (m.last_usable h disk ≡ some last) × AreAt s last parts)
IsLaid m disk s (ran command) = Unit {0}
IsLaid m disk s _ = ⊥
