-- ===== src/Ufs/Bytes/Laws.antt =====
-- A field that is written reads back, and a field elsewhere is left alone.
use flipperos_installer.Base.{
  ℕ, zero, suc, ◌+◌, ◌≤◌, ◌<◌, ◌^◌, ◌≡◌, refl, ap, ◌⊎◌, inl, inr, List, [], ◌∷◌, length, take, drop,
  arith,
}
use flipperos_installer.Ufs.Bytes.{from_be, to_be16, to_be32, overwrite, splice}

pub length-overwrite : (bs vs : List ℕ) → length (overwrite bs vs) ≡ length bs
unfolding overwrite
length-overwrite bs [] = refl
length-overwrite [] (v ∷ vs) = refl
length-overwrite (b ∷ bs) (v ∷ vs) = ap suc (length-overwrite bs vs)

pub length-splice : (bs : List ℕ) (off : ℕ) (vs : List ℕ) → length (splice bs off vs) ≡ length bs
unfolding splice
length-splice bs zero vs = length-overwrite bs vs
length-splice [] (suc off) vs = refl
length-splice (b ∷ bs) (suc off) vs = ap suc (length-splice bs off vs)

take-overwrite : (bs vs : List ℕ) → length vs ≤ length bs → take (length vs) (overwrite bs vs) ≡ vs
unfolding overwrite
take-overwrite bs [] h = refl
take-overwrite [] (v ∷ vs) h = absurd (omega arith)
take-overwrite (b ∷ bs) (v ∷ vs) h = ap (◌∷◌ v) (take-overwrite bs vs (omega arith))

-- What was written is what stands there.
pub window-splice_self :
    (bs : List ℕ) (off : ℕ) (vs : List ℕ)
    → off + length vs ≤ length bs
    → take (length vs) (drop off (splice bs off vs)) ≡ vs
unfolding splice
window-splice_self bs zero vs h = take-overwrite bs vs (omega arith)
window-splice_self [] (suc off) vs h = absurd (omega arith)
window-splice_self (b ∷ bs) (suc off) vs h = window-splice_self bs off vs (omega arith)

drop-overwrite_after :
    (bs : List ℕ) (k : ℕ) (vs : List ℕ) → length vs ≤ k → drop k (overwrite bs vs) ≡ drop k bs
unfolding overwrite
drop-overwrite_after bs k [] h = refl
drop-overwrite_after [] k (v ∷ vs) h = refl
drop-overwrite_after (b ∷ bs) zero (v ∷ vs) h = absurd (omega arith)
drop-overwrite_after (b ∷ bs) (suc k) (v ∷ vs) h = drop-overwrite_after bs k vs (omega arith)

-- A window behind the written range.
pub drop-splice_after :
    (bs : List ℕ) (off : ℕ) (vs : List ℕ) (k : ℕ)
    → off + length vs ≤ k
    → drop k (splice bs off vs) ≡ drop k bs
unfolding splice
drop-splice_after bs zero vs k h = drop-overwrite_after bs k vs (omega arith)
drop-splice_after [] (suc off) vs k h = refl
drop-splice_after (b ∷ bs) (suc off) vs zero h = absurd (omega arith)
drop-splice_after (b ∷ bs) (suc off) vs (suc k) h = drop-splice_after bs off vs k (omega arith)

take-splice_before :
    (bs : List ℕ) (off : ℕ) (vs : List ℕ) (n : ℕ) → n ≤ off → take n (splice bs off vs) ≡ take n bs
unfolding splice
take-splice_before bs off vs zero h = refl
take-splice_before bs zero vs (suc n) h = absurd (omega arith)
take-splice_before [] (suc off) vs (suc n) h = refl
take-splice_before (b ∷ bs) (suc off) vs (suc n) h =
    ap (◌∷◌ b) (take-splice_before bs off vs n (omega arith))

-- A window before the written range.
pub window-splice_before :
    (bs : List ℕ) (off : ℕ) (vs : List ℕ) (k n : ℕ)
    → k + n ≤ off
    → take n (drop k (splice bs off vs)) ≡ take n (drop k bs)
unfolding splice
window-splice_before bs off vs zero n h = take-splice_before bs off vs n (omega arith)
window-splice_before bs zero vs (suc k) n h = absurd (omega arith)
window-splice_before [] (suc off) vs (suc k) n h = refl
window-splice_before (b ∷ bs) (suc off) vs (suc k) n h =
    window-splice_before bs off vs k n (omega arith)

-- Two ranges that share no byte.
abbrev pub Apart : ℕ → ℕ → ℕ → ℕ → Type 0
Apart off len k n = (k + n ≤ off) ⊎ (off + len ≤ k)

pub window-splice-Apart :
    (bs : List ℕ) (off : ℕ) (vs : List ℕ) (k n : ℕ)
    → Apart off (length vs) k n
    → take n (drop k (splice bs off vs)) ≡ take n (drop k bs)
window-splice-Apart bs off vs k n (inl h) = window-splice_before bs off vs k n h
window-splice-Apart bs off vs k n (inr h) = ap (take n) (drop-splice_after bs off vs k h)

pub from_be-to_be16 : (v : ℕ) → v < 2 ^ 16 → from_be (to_be16 v) ≡ v
unfolding from_be to_be16
from_be-to_be16 v h = omega arith

pub from_be-to_be32 : (v : ℕ) → v < 2 ^ 32 → from_be (to_be32 v) ≡ v
unfolding from_be to_be32
from_be-to_be32 v h = omega arith
