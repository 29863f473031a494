-- ===== src/Base/Calls.antt =====
-- Calls that act on the system: each returns, fails or panics, and lengthens a history of events.
use mathlib.Core.Bool.{Bool}
use mathlib.Core.List.{List, ◌∷◌}
use flipperos_installer.Base.Tests.{if◌then◌else◌}
use flipperos_installer.Base.Outcome.{Result, ok, err, panicked}

-- The latest event comes first.
abbrev pub Call : Type 0 → Type 0 → Type 0 → Type 0
Call Ev E A = List Ev → Result E A × List Ev

module _ {Ev E A : Type 0} where
  abbrev pub pure : A → Call Ev E A
  pure a h = (ok a, h)

  abbrev pub raise : E → Call Ev E A
  raise e h = (err e, h)

  abbrev pub halted : Call Ev E A
  halted h = (panicked, h)

  abbrev pub lift : Result E A → Call Ev E A
  lift r h = (r, h)

  abbrev pub asks : (List Ev → A) → Call Ev E A
  asks f h = (ok (f h), h)

-- What follows a call that is over.
abbrev pub and_then :
    {Ev E A B : Type 0} → (A → Call Ev E B) → Result E A × List Ev → Result E B × List Ev
and_then next (ok a, h) = next a h
and_then next (err e, h) = (err e, h)
and_then next (panicked, h) = (panicked, h)

infixl 5 ◌>>=◌ ◌>>◌
abbrev pub ◌>>=◌ : {Ev E A B : Type 0} → Call Ev E A → (A → Call Ev E B) → Call Ev E B
◌>>=◌ m next h = and_then next (m h)

abbrev pub ◌>>◌ : {Ev E B : Type 0} → Call Ev E (Unit {0}) → Call Ev E B → Call Ev E B
m >> k = m >>= λ _. k

abbrev pub raise_if : {Ev E : Type 0} → Bool → E → Call Ev E (Unit {0})
raise_if failing e = if failing then raise e else pure tt

abbrev pub perform : {Ev E : Type 0} → Ev → Call Ev E (Unit {0})
perform e h = (ok tt, e ∷ h)

-- A call whose error is handled: it comes back as a value.
abbrev pub caught : {Ev E F A : Type 0} → Result E A × List Ev → Result F (Result E A) × List Ev
caught (ok a, h) = (ok (ok a), h)
caught (err e, h) = (ok (err e), h)
caught (panicked, h) = (panicked, h)

abbrev pub attempt : {Ev E F A : Type 0} → Call Ev E A → Call Ev F (Result E A)
attempt m h = caught (m h)
