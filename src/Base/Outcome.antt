-- ===== src/Base/Outcome.antt =====
-- What a fallible call of the program ends in: a value, the error it returns, or a panic.
use Prim.Native.Nat.{ℕ, ◌+◌, ◌/◌, ◌%◌}
use native.Mathlib.Omega.{arith}
use flipperos_installer.Base.Tests.{◌==◌, if◌then◌else◌}
use mathlib.Core.Path.{◌≡◌, refl}
use mathlib.Core.Logic.{◌≢◌, ◌⊎◌, inl, inr}
use mathlib.Core.Bool.{Bool, true, false}
use mathlib.Core.Option.{Option, none, some}

pub data Result {ℓ κ} (E : Type ℓ) (A : Type κ) : Type (ℓ ⊔ κ) where
  ok : A → Result E A
  err : E → Result E A
  panicked : Result E A

infixl 5 ◌>>=◌ ◌>>◌
abbrev pub ◌>>=◌ {ℓ κ ι} :
    {E : Type ℓ} {A : Type κ} {B : Type ι} → Result E A → (A → Result E B) → Result E B
panicked >>= next = panicked
err e >>= next = err e
ok a >>= next = next a

abbrev pub ◌>>◌ {ℓ ι} : {E : Type ℓ} {B : Type ι} → Result E (Unit {0}) → Result E B → Result E B
m >> k = m >>= λ _. k

-- `if failing { return Err(e) }`
abbrev pub bail_if {ℓ} : {E : Type ℓ} → Bool → E → Result E (Unit {0})
bail_if true e = err e
bail_if false e = ok tt

-- `/` and `div_ceil`, which panic on a zero divisor
abbrev pub div_by {ℓ} : {E : Type ℓ} → ℕ → ℕ → Result E ℕ
div_by a n = if n == 0 then panicked else ok (a / n)

abbrev pub div_ceil_by {ℓ} : {E : Type ℓ} → ℕ → ℕ → Result E ℕ
div_ceil_by a n = if n == 0 then panicked else ok (if a % n == 0 then a / n else a / n + 1)

-- `Option::ok_or_else`
abbrev pub ok_or {ℓ κ} : {E : Type ℓ} {A : Type κ} → Option A → E → Result E A
ok_or none e = err e
ok_or (some a) e = ok a

-- `Result::unwrap_or`
abbrev pub unwrap_or {ℓ κ} : {E : Type ℓ} {A : Type κ} → Result E A → A → A
unwrap_or (ok a) d = a
unwrap_or (err e) d = d
unwrap_or panicked d = d

-- `Option::unwrap_or`
abbrev pub get_or_else {κ} : {A : Type κ} → Option A → A → A
get_or_else none d = d
get_or_else (some a) d = a

-- `Option::and_then`, also what `?` does in a function that gives an option.
abbrev pub and_some {ℓ κ} : {A : Type ℓ} {B : Type κ} → Option A → (A → Option B) → Option B
and_some none next = none
and_some (some a) next = next a

-- `Option::or`, also `or_else` of a call without effects.
abbrev pub or_some {κ} : {A : Type κ} → Option A → Option A → Option A
or_some none o = o
or_some (some a) o = some a

abbrev pub is_some {κ} : {A : Type κ} → Option A → Bool
is_some none = false
is_some (some a) = true

-- A chain that gives a value got one from its first call.
pub >>=-eq-ok {ℓ κ ι} :
    {E : Type ℓ} {A : Type κ} {B : Type ι} (call : Result E A) (next : A → Result E B) {out : B}
    → (call >>= next) ≡ ok out
    → (mid : A) × (call ≡ ok mid) × (next mid ≡ ok out)
>>=-eq-ok panicked next h = cc
>>=-eq-ok (err e) next h = cc
>>=-eq-ok (ok mid) next h = (mid, refl, h)

pub ok-injective {ℓ κ} :
    {E : Type ℓ} {A : Type κ} {a b : A} → ◌≡◌ {A = Result E A} (ok a) (ok b) → a ≡ b
ok-injective h = cc

pub >>=-ne_panicked {ℓ κ ι} :
    {E : Type ℓ} {A : Type κ} {B : Type ι} (m : Result E A) (f : A → Result E B)
    → m ≢ panicked
    → ((a : A) → m ≡ ok a → f a ≢ panicked)
    → (m >>= f) ≢ panicked
>>=-ne_panicked (ok a) f h k = k a refl
>>=-ne_panicked (err e) f h k = λ p. cc
>>=-ne_panicked panicked f h k = λ p. h refl

pub bail_if-ne_panicked {ℓ} : {E : Type ℓ} (b : Bool) (e : E) → bail_if b e ≢ panicked
bail_if-ne_panicked true e = λ p. cc
bail_if-ne_panicked false e = λ p. cc

pub div_by-ne_panicked {ℓ} :
    {E : Type ℓ} (a n : ℕ) → n ≢ 0 → ◌≢◌ {A = Result E ℕ} (div_by a n) panicked
div_by-ne_panicked a n h e = ground arith

pub div_ceil_by-ne_panicked {ℓ} :
    {E : Type ℓ} (a n : ℕ) → n ≢ 0 → ◌≢◌ {A = Result E ℕ} (div_ceil_by a n) panicked
div_ceil_by-ne_panicked a n h e = ground arith

pub bail_if-ok {ℓ} : {E : Type ℓ} (b : Bool) (e : E) {u : Unit {0}} → bail_if b e ≡ ok u → b ≡ false
bail_if-ok true e h = cc
bail_if-ok false e h = refl

pub ok-ne_panicked {ℓ κ} : {E : Type ℓ} {A : Type κ} (a : A) → ◌≢◌ {A = Result E A} (ok a) panicked
ok-ne_panicked a = λ p. cc

pub Result-cases {ℓ κ} :
    {E : Type ℓ} {A : Type κ} (r : Result E A)
    → ((a : A) × (r ≡ ok a)) ⊎ (((e : E) × (r ≡ err e)) ⊎ (r ≡ panicked))
Result-cases (ok a) = inl (a, refl)
Result-cases (err e) = inr (inl (e, refl))
Result-cases panicked = inr (inr refl)

pub and_some-eq-some {ℓ κ} :
    {A : Type ℓ} {B : Type κ} (o : Option A) (next : A → Option B) {b : B}
    → and_some o next ≡ some b
    → (a : A) × (o ≡ some a) × (next a ≡ some b)
and_some-eq-some none next h = cc
and_some-eq-some (some a) next h = (a, refl, h)

pub ok_or-eq-ok {ℓ κ} :
    {E : Type ℓ} {A : Type κ} (o : Option A) (e : E) {a : A} → ok_or o e ≡ ok a → o ≡ some a
ok_or-eq-ok none e h = cc
ok_or-eq-ok (some a) e h = cc
