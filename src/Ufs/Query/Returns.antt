-- ===== src/Ufs/Query/Returns.antt =====
-- src/core/ufs.rs: no query of the device panics.
use flipperos_installer.Base.{
  ℕ, ◌≡◌, ◌≢◌, refl, Bool, true, false, List, Text, Result, ok, err, panicked, if◌then◌else◌, min,
  arith,
}
use flipperos_installer.Ufs.Error.{Error as UfsError}
use flipperos_installer.Ufs.Bytes.{u8_at}
use flipperos_installer.Ufs.World.{
  World, History, Query, Io, and_then, ◌>>=◌, raise_if, attempt, caught,
}
use flipperos_installer.Ufs.Query.{
  query, judge, open_bsg, read_descriptor, read_bytes, write_descriptor, read_attr, read_flag,
  write_attr,
}

-- A call that does not panic.
abbrev pub Returns : {E A : Type 0} → Io E A → Type 0
Returns m = (h : History) → (m h).0 ≢ panicked

module _ {E A B : Type 0} where
  pub and_then-Returns :
      (next : A → Io E B) (r : Result E A × History)
      → r.0 ≢ panicked
      → ((a : A) (h : History) → r ≡ (ok a, h) → (next a h).0 ≢ panicked)
      → (and_then next r).0 ≢ panicked
  and_then-Returns next (ok a, h) n k = k a h refl
  and_then-Returns next (err e, h) n k = λ p. cc
  and_then-Returns next (panicked, h) n k = absurd (n refl)

  pub >>=-Returns :
      (m : Io E A) (next : A → Io E B)
      → Returns m
      → ((a : A) → Returns (next a))
      → Returns (m >>= next)
  >>=-Returns m next r k h = and_then-Returns next (m h) (r h) (λ a h' e. k a h')

pub if-Returns :
    {E A : Type 0}
    → (b : Bool) (m k : Io E A) → Returns m
    → Returns k
    → Returns (if b then m else k)
if-Returns true m k a c = a
if-Returns false m k a c = c

pub raise_if-Returns : {E : Type 0} → (b : Bool) (e : E) → Returns (raise_if b e)
raise_if-Returns true e h = λ p. cc
raise_if-Returns false e h = λ p. cc

pub attempt-Returns :
    {E A : Type 0} (F : Type 0) (m : Io E A) → Returns m → Returns (attempt {F = F} m)
attempt-Returns {E = E} {A = A} F m r h = lem (m h) (r h)
  where
    lem : (r : Result E A × History) → r.0 ≢ panicked → (caught {F = F} r).0 ≢ panicked
    lem (ok a, h) n = λ p. cc
    lem (err e, h) n = λ p. cc
    lem (panicked, h) n = absurd (n refl)

module _ (w : World) where
  query-Returns : (q : Query) → Returns (query w q)
  unfolding query judge
  query-Returns q h p = ground arith

  pub open_bsg-Returns : (node : Text) → Returns (open_bsg w node)
  unfolding open_bsg
  open_bsg-Returns node h = raise_if-Returns _ _ h

  read_bytes-Returns : (idn index n : ℕ) → Returns (read_bytes w idn index n)
  read_bytes-Returns idn index n =
      >>=-Returns {E = UfsError} (query w _) _ (query-Returns _) λ r h p. cc

  pub read_descriptor-Returns : (idn index : ℕ) → Returns (read_descriptor w idn index)
  unfolding read_descriptor
  read_descriptor-Returns idn index =
      >>=-Returns {E = UfsError} (read_bytes w idn index 2) _ (read_bytes-Returns idn index 2)
        λ header.
          >>=-Returns {E = UfsError} (raise_if _ _) _ (raise_if-Returns _ _)
            λ _. read_bytes-Returns idn index (min (u8_at header 0) 255)

  pub read_attr-Returns : (idn : ℕ) → Returns (read_attr w idn)
  unfolding read_attr
  read_attr-Returns idn = >>=-Returns {E = UfsError} (query w _) _ (query-Returns _) λ r h p. cc

  pub read_flag-Returns : (idn : ℕ) → Returns (read_flag w idn)
  unfolding read_flag
  read_flag-Returns idn = >>=-Returns {E = UfsError} (query w _) _ (query-Returns _) λ r h p. cc

  pub write_attr-Returns : (idn value : ℕ) → Returns (write_attr w idn value)
  unfolding write_attr
  write_attr-Returns idn value =
      >>=-Returns {E = UfsError} (query w _) _ (query-Returns _) λ r h p. cc

  pub write_descriptor-Returns :
      (idn index : ℕ) (bytes : List ℕ) → Returns (write_descriptor w idn index bytes)
  unfolding write_descriptor
  write_descriptor-Returns idn index bytes =
      >>=-Returns {E = UfsError} (raise_if _ _) _ (raise_if-Returns _ _)
        λ _. >>=-Returns {E = UfsError} (query w _) _ (query-Returns _) λ r h p. cc
