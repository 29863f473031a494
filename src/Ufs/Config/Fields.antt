-- ===== src/Ufs/Config/Fields.antt =====
-- A run of writes into a descriptor: each field is an offset and the bytes that go there.
use flipperos_installer.Base.{
  ℕ, ◌+◌, ◌≤◌, ◌≡◌, refl, List, [], ◌∷◌, ◌++◌, leb, le→leb, if◌then◌else◌, length, All, take, drop,
  Option, some, none, ap, zero, suc, Result, ok, ◌>>=◌, arith,
}
use flipperos_installer.Ufs.Bytes.{write_slice, splice, get_range, from_be, u8_at, be_at}
use flipperos_installer.Ufs.Bytes.Laws.{
  length-splice, window-splice_self, window-splice-Apart, Apart,
}

-- One logical unit's parameters.
pub record LuConfig : Type 0 where
  pub enable : ℕ
  pub boot_lun_id : ℕ
  pub write_protect : ℕ
  pub memory_type : ℕ
  pub num_alloc_units : ℕ
  pub data_reliability : ℕ
  pub logical_block_size : ℕ
  pub provisioning_type : ℕ
  pub context_capabilities : ℕ
  pub writebooster_alloc_units : ℕ

abbrev pub Field : Type 0
Field = ℕ × List ℕ

unfoldable pub write_fields {ℓ} : {E : Type ℓ} → List ℕ → ℕ → List Field → Result E (List ℕ)
unfolding write_slice
write_fields bytes at [] = ok bytes
write_fields bytes at ((off, vs) ∷ fields) =
    write_slice bytes (at + off) vs >>= λ bytes'. write_fields bytes' at fields

-- The bytes after writes that are all in range.
pub splices : List ℕ → ℕ → List Field → List ℕ
splices bytes at [] = bytes
splices bytes at ((off, vs) ∷ fields) = splices (splice bytes (at + off) vs) at fields

abbrev pub Fits : ℕ → ℕ → Field → Type 0
Fits size at (off, vs) = at + off + length vs ≤ size

pub length-splices :
    (bytes : List ℕ) (at : ℕ) (fs : List Field) → length (splices bytes at fs) ≡ length bytes
unfolding splices
length-splices bytes at [] = refl
length-splices bytes at ((off, vs) ∷ fs) =
    omega
      (arith, length-splices (splice bytes (at + off) vs) at fs, length-splice bytes (at + off) vs)

-- Writes that all fit do not panic.
pub write_fields-Fits {ℓ} :
    {E : Type ℓ} (size : ℕ) (bytes : List ℕ) (at : ℕ) (fs : List Field)
    → length bytes ≡ size
    → All (Fits size at) fs
    → write_fields {E = E} bytes at fs ≡ ok (splices bytes at fs)
unfolding write_fields splices
write_fields-Fits size bytes at [] e h = refl
write_fields-Fits size bytes at ((off, vs) ∷ fs) e h =
    rw (le→leb (at + off + length vs) (length bytes) (omega arith)) (
      write_fields-Fits size (splice bytes (at + off) vs) at fs
        (omega (arith, length-splice bytes (at + off) vs)) h.1)

pub be_at-window :
    (n : ℕ) (xs ys : List ℕ) (k : ℕ)
    → length xs ≡ length ys
    → take n (drop k xs) ≡ take n (drop k ys)
    → be_at n xs k ≡ be_at n ys k
unfolding get_range
be_at-window n xs ys k e w = λ i.
    let o : Option (List ℕ) = if leb (k + n) (e i) then some (w i) else none in
    elim o [ some s ↦ from_be s | none ↦ 0 ]

be_at-of :
    (n : ℕ) (xs : List ℕ) (k : ℕ) {w : List ℕ}
    → k + n ≤ length xs
    → take n (drop k xs) ≡ w
    → be_at n xs k ≡ from_be w
unfolding get_range
be_at-of n xs k h e = rw (le→leb (k + n) (length xs) h, be_at) (ap from_be e)

abbrev pub Misses : ℕ → ℕ → ℕ → Field → Type 0
Misses at k n (off, vs) = Apart (at + off) (length vs) k n

-- A field that no write touches keeps its value.
pub be_at-splices_miss :
    (n : ℕ) (bytes : List ℕ) (at k : ℕ) (fs : List Field)
    → All (Misses at k n) fs
    → be_at n (splices bytes at fs) k ≡ be_at n bytes k
unfolding splices
be_at-splices_miss n bytes at k [] h = refl
be_at-splices_miss n bytes at k ((off, vs) ∷ fs) h =
    rw (be_at-splices_miss n (splice bytes (at + off) vs) at k fs h.1) (
      be_at-window n (splice bytes (at + off) vs) bytes k (length-splice bytes (at + off) vs)
        (window-splice-Apart bytes (at + off) vs k n h.0))

be_at-splice_self :
    (bytes : List ℕ) (k : ℕ) (vs : List ℕ)
    → k + length vs ≤ length bytes
    → be_at (length vs) (splice bytes k vs) k ≡ from_be vs
be_at-splice_self bytes k vs h =
    be_at-of (length vs) (splice bytes k vs) k (omega (arith, length-splice bytes k vs))
      (window-splice_self bytes k vs h)

-- A field that was written last among those that touch it reads back.
pub be_at-splices_hit :
    (bytes : List ℕ) (at off : ℕ) (vs : List ℕ) (fs : List Field)
    → at + off + length vs ≤ length bytes
    → All (Misses at (at + off) (length vs)) fs
    → be_at (length vs) (splices bytes at ((off, vs) ∷ fs)) (at + off) ≡ from_be vs
unfolding splices
be_at-splices_hit bytes at off vs fs h apart =
    rw (be_at-splices_miss (length vs) (splice bytes (at + off) vs) at (at + off) fs apart)
      (be_at-splice_self bytes (at + off) vs h)

splices-append :
    (bytes : List ℕ) (at : ℕ) (fs gs : List Field)
    → splices bytes at (fs ++ gs) ≡ splices (splices bytes at fs) at gs
unfolding splices
splices-append bytes at [] gs = refl
splices-append bytes at ((off, vs) ∷ fs) gs = splices-append (splice bytes (at + off) vs) at fs gs

pub be_at-splices_inside :
    (bytes : List ℕ) (at : ℕ) (before : List Field) (off : ℕ) (vs : List ℕ) (after : List Field)
    → at + off + length vs ≤ length bytes
    → All (Misses at (at + off) (length vs)) after
    → be_at (length vs) (splices bytes at (before ++ (off, vs) ∷ after)) (at + off) ≡ from_be vs
be_at-splices_inside bytes at before off vs after h apart =
    rw (splices-append bytes at before ((off, vs) ∷ after)) (
      be_at-splices_hit (splices bytes at before) at off vs after
        (omega (arith, length-splices bytes at before)) apart)

-- One byte is a field of length one.
pub u8_at-eq-be_at : (bytes : List ℕ) (k : ℕ) → u8_at bytes k ≡ be_at 1 bytes k
unfolding u8_at get_range from_be
u8_at-eq-be_at [] k = ground arith
u8_at-eq-be_at (b ∷ bytes) zero = ground arith
u8_at-eq-be_at (b ∷ bytes) (suc k) = ground (arith, u8_at-eq-be_at bytes k)
