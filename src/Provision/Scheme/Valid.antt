-- ===== src/Provision/Scheme/Valid.antt =====
-- What `validate` has checked of a scheme that it accepts.
use native.Mathlib.Nat.{pow-suc}
use flipperos_installer.Base.{
  ◌⊎◌, inl, inr, Bool-cases, unwrap_or, ℕ, zero, suc, ◌/◌, ◌^◌, ◌≤◌, ◌<◌, ◌≡◌, ◌≢◌, ap, true, false,
  not, List, [], ◌∷◌, any, filter, length, All, leb, ◌==◌, ok, >>=-eq-ok, arith, bail_if,
  bail_if-ok,
}
use flipperos_installer.Ufs.Codes.{boot_lun_none}
use flipperos_installer.Provision.Scheme.{
  Scheme, SchemeLu, memory_type_code, provisioning_code, boot_lun_code, logical_block_size_exponent,
  is_power_of_two, trailing_zeros, check_units, validate, is_unsized, boot_lun_en,
}

-- `trailing_zeros` of a power of two is its exponent.
pow_of_zeros : (k n : ℕ) → is_power_of_two k n ≡ true → 2 ^ trailing_zeros k n ≡ n
unfolding is_power_of_two trailing_zeros
pow_of_zeros zero n h = cc
pow_of_zeros (suc k) n h =
    ground (arith, pow_of_zeros k (n / 2), pow-suc 2 (trailing_zeros k (n / 2)))

-- Where `logical_block_size_exponent` gives an exponent, two to it is the unit's block size, which
-- is at least 4096.
pub exponent_lem :
    (l : SchemeLu) (e : ℕ)
    → logical_block_size_exponent l ≡ ok e
    → (2 ^ e ≡ l.logical_block_size) × (4096 ≤ l.logical_block_size)
unfolding logical_block_size_exponent
exponent_lem l e h = ground (arith, pow_of_zeros 32 l.logical_block_size)

-- A unit's own settings are readable.
pub record IsReadable (l : SchemeLu) : Type 0 where
  pub in_range : l.id < 8
  pub memory : (t : ℕ) × (memory_type_code l ≡ ok t)
  pub provisioning : (c : ℕ) × (provisioning_code l ≡ ok c)
  pub boot : (c : ℕ) × (boot_lun_code l ≡ ok c)
  pub exponent : (c : ℕ) × (logical_block_size_exponent l ≡ ok c)

-- No two units share an id.
abbrev pub Distinct : List SchemeLu → Type 0
Distinct [] = Unit {0}
Distinct (l ∷ ls) = All (λ m. m.id ≢ l.id) ls × Distinct ls

abbrev Unseen : List ℕ → List SchemeLu → Type 0
Unseen seen = All (λ l. any (λ id. id == l.id) seen ≡ false)

Unseen-cons :
    (i : ℕ) (seen : List ℕ) (ls : List SchemeLu)
    → Unseen (i ∷ seen) ls
    → All (λ m. m.id ≢ i) ls × Unseen seen ls
Unseen-cons i seen [] u = (tt, tt)
Unseen-cons i seen (l ∷ ls) u =
    let (ne, rest) = Unseen-cons i seen ls u.1 in ((ground arith, ne), (ground arith, rest))

check_units-lem :
    (seen : List ℕ) (ls : List SchemeLu)
    → check_units seen ls ≡ ok tt
    → All IsReadable ls × Distinct ls × Unseen seen ls
unfolding check_units
check_units-lem seen [] h = (tt, tt, tt)
check_units-lem seen (l ∷ ls) h =
    let (_, range, h1) = >>=-eq-ok (bail_if (leb 8 l.id) _) _ h in
    let (_, fresh, h2) = >>=-eq-ok (bail_if (any (λ id. id == l.id) seen) _) _ h1 in
    let (t, memory, h3) = >>=-eq-ok (memory_type_code l) _ h2 in
    let (p, provisioning, h4) = >>=-eq-ok (provisioning_code l) _ h3 in
    let (b, boot, h5) = >>=-eq-ok (boot_lun_code l) _ h4 in
    let (x, exponent, h6) = >>=-eq-ok (logical_block_size_exponent l) _ h5 in
    let (readable, distinct, unseen) = check_units-lem (l.id ∷ seen) ls h6 in
    let (ne, older) = Unseen-cons l.id seen ls unseen in
    let range' = bail_if-ok _ _ range in
    (
      (
        record {
          in_range = ground arith;
          memory = (t, memory);
          provisioning = (p, provisioning);
          boot = (b, boot);
          exponent = (x, exponent);
        },
        readable,
      ),
      (ne, distinct),
      (bail_if-ok _ _ fresh, older),
    )

pub record IsValid (s : Scheme) : Type 0 where
  pub nonempty : s.lus ≢ []
  pub readable : All IsReadable s.lus
  pub distinct : Distinct s.lus
  pub one_unsized : length (filter is_unsized s.lus) ≡ 1
  pub boot : (c : ℕ) × (boot_lun_en s ≡ ok c)
  pub flagged :
      (boot.0 ≡ boot_lun_none)
      ⊎ (any (λ l. unwrap_or (boot_lun_code l) boot_lun_none == boot.0) s.lus ≡ true)

-- A scheme that `validate` accepts has units, each with a readable setting and an id of its own
-- below 8, exactly one of them without a size, and a readable active boot unit that is either none
-- or one that a unit is flagged for.
pub validate-IsValid : (s : Scheme) → validate s ≡ ok tt → IsValid s
unfolding validate
validate-IsValid s h =
    let (_, some_unit, h1) = >>=-eq-ok (bail_if (length s.lus == 0) _) _ h in
    let (u, checked, h2) = >>=-eq-ok (check_units [] s.lus) _ h1 in
    let (_, one, h3) = >>=-eq-ok (bail_if (not (length (filter is_unsized s.lus) == 1)) _) _ h2 in
    let (c, boot, h4) = >>=-eq-ok (boot_lun_en s) _ h3 in
    let (readable, distinct, _) = check_units-lem [] s.lus checked in
    let one' = bail_if-ok _ _ one in
    let some' = bail_if-ok _ _ some_unit in
    record {
      nonempty = λ e. ground (arith, ap length e);
      readable = readable;
      distinct = distinct;
      one_unsized = ground arith;
      boot = (c, boot);
      flagged = elim (Bool-cases (c == boot_lun_none)) [
        | inl z ↦ inl (ground arith)
        | inr n ↦ inr (let all' = bail_if-ok _ _ h4 in ground arith)
      ];
    }
