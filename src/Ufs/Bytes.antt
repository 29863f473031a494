-- ===== src/Ufs/Bytes.antt =====
-- src/core/ufs.rs: reading and writing big-endian fields of a descriptor at an offset.
pub mod Laws
use mathlib.Core.Option
use flipperos_installer.Base.{
  ℕ, zero, suc, ◌+◌, ◌*◌, ◌/◌, ◌%◌, ◌^◌, List, [], ◌∷◌, ◌++◌, Option, none, some, if◌then◌else◌,
  leb, length, get_elem?, take, drop, get_or_else, Result, ok, panicked,
}

-- `buf.get(off..off + n)`: the slice, if all of it is in range.
unfoldable pub get_range : List ℕ → ℕ → ℕ → Option (List ℕ)
get_range buf off n = if leb (off + n) (length buf) then some (take n (drop off buf)) else none

-- `uN::from_be_bytes`
unfoldable pub from_be_from : ℕ → List ℕ → ℕ
from_be_from acc [] = acc
from_be_from acc (b ∷ bs) = from_be_from (acc * 256 + b) bs

unfoldable pub from_be : List ℕ → ℕ
unfolding from_be_from
from_be = from_be_from 0

unfoldable pub u8_at : List ℕ → ℕ → ℕ
u8_at buf off = get_or_else (get_elem? buf off) 0

abbrev pub be_at : ℕ → List ℕ → ℕ → ℕ
be_at n buf off = elim (get_range buf off n) [ some s ↦ from_be s | none ↦ 0 ]

unfoldable pub u16_at : List ℕ → ℕ → ℕ
unfolding get_range from_be
u16_at = be_at 2

unfoldable pub u32_at : List ℕ → ℕ → ℕ
unfolding get_range from_be
u32_at = be_at 4

unfoldable pub u64_at : List ℕ → ℕ → ℕ
unfolding get_range from_be
u64_at = be_at 8

-- `u16::to_be_bytes` and `u32::to_be_bytes`
unfoldable pub to_be16 : ℕ → List ℕ
to_be16 v = (v / 2 ^ 8) ∷ (v % 2 ^ 8) ∷ []

unfoldable pub to_be32 : ℕ → List ℕ
to_be32 v = (v / 2 ^ 24) ∷ (v / 2 ^ 16 % 2 ^ 8) ∷ (v / 2 ^ 8 % 2 ^ 8) ∷ (v % 2 ^ 8) ∷ []

-- The list with `vs` in place of what stands from the front on.
unfoldable pub overwrite : List ℕ → List ℕ → List ℕ
overwrite bs [] = bs
overwrite [] (v ∷ vs) = []
overwrite (b ∷ bs) (v ∷ vs) = v ∷ overwrite bs vs

unfoldable pub splice : List ℕ → ℕ → List ℕ → List ℕ
unfolding overwrite
splice bs zero vs = overwrite bs vs
splice [] (suc off) vs = []
splice (b ∷ bs) (suc off) vs = b ∷ splice bs off vs

-- `bytes[off..off + vs.len()].copy_from_slice(vs)`, and `bytes[off] = v` with one byte: out of
-- range it panics.
unfoldable pub write_slice {ℓ} : {E : Type ℓ} → List ℕ → ℕ → List ℕ → Result E (List ℕ)
unfolding splice
write_slice bs off vs =
    if leb (off + length vs) (length bs) then ok (splice bs off vs) else panicked
