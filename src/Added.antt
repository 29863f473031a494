-- ===== src/Added.antt =====
-- What calls add to the history.
use mathlib.Core.List.{append_assoc}
use flipperos_installer.Base.{
  ◌≡◌, refl, sym, ap, ◌∙◌, Bool, true, false, List, [], ◌∷◌, ◌++◌, All, All-append, Result, ok, err,
  panicked, ◌≢◌, ◌⊎◌, inl, if◌then◌else◌,
}
use flipperos_installer.Base.Calls.{Call, and_then, ◌>>=◌, caught, attempt, raise_if, pure}

-- `h'` is `h` with events on top that all satisfy `P`.
abbrev pub Grown : {Ev : Type 0} → (Ev → Type 0) → List Ev → List Ev → Type 0
Grown {Ev} P h h' = (new : List Ev) × (h' ≡ new ++ h) × All P new

-- Every event that the call adds satisfies `P`.
abbrev pub Adds : {Ev E A : Type 0} → (Ev → Type 0) → Call Ev E A → Type 0
Adds {Ev} P m = (h : List Ev) → Grown P h (m h).1

pub Grown-refl : {Ev : Type 0} → (P : Ev → Type 0) (h : List Ev) → Grown P h h
Grown-refl P h = ([], refl, tt)

pub Grown-trans :
    {Ev : Type 0} (P : Ev → Type 0) (h h1 h2 : List Ev)
    → Grown P h h1
    → Grown P h1 h2
    → Grown P h h2
Grown-trans P h h1 h2 (xs, e, a) (ys, e', b) =
    (ys ++ xs, e' ∙ ap (λ l. ys ++ l) e ∙ sym (append_assoc ys xs h), All-append P ys xs b a)

module _ {Ev E A B : Type 0} (P : Ev → Type 0) where
  and_then-Grown :
      (next : A → Call Ev E B) (h : List Ev) (r : Result E A × List Ev)
      → Grown P h r.1
      → ((a : A) → Adds P (next a))
      → Grown P h (and_then next r).1
  and_then-Grown next h (ok a, h') g k = Grown-trans P h h' (next a h').1 g (k a h')
  and_then-Grown next h (err e, h') g k = g
  and_then-Grown next h (panicked, h') g k = g

  pub >>=-Adds :
      (m : Call Ev E A) (next : A → Call Ev E B)
      → Adds P m
      → ((a : A) → Adds P (next a))
      → Adds P (m >>= next)
  >>=-Adds m next a k h = and_then-Grown next h (m h) (a h) k

pub if-Adds :
    {Ev E A : Type 0}
    → (P : Ev → Type 0) (b : Bool) (m k : Call Ev E A) → Adds P m
    → Adds P k
    → Adds P (if b then m else k)
if-Adds P true m k a c = a
if-Adds P false m k a c = c

pub raise_if-Adds : {Ev E : Type 0} → (P : Ev → Type 0) (b : Bool) (e : E) → Adds P (raise_if b e)
raise_if-Adds P true e h = Grown-refl P h
raise_if-Adds P false e h = Grown-refl P h

caught-Grown :
    {Ev E A : Type 0} (F : Type 0) (P : Ev → Type 0) (h : List Ev) (r : Result E A × List Ev)
    → Grown P h r.1
    → Grown P h (caught {F = F} r).1
caught-Grown F P h (ok a, h') g = g
caught-Grown F P h (err e, h') g = g
caught-Grown F P h (panicked, h') g = g

pub attempt-Adds :
    {Ev E A : Type 0} (F : Type 0) (P : Ev → Type 0) (m : Call Ev E A)
    → Adds P m
    → Adds P (attempt {F = F} m)
attempt-Adds F P m a h = caught-Grown F P h (m h) (a h)

pub and_then-ne_panicked :
    {Ev E A B : Type 0} (next : A → Call Ev E B) (r : Result E A × List Ev)
    → r.0 ≢ panicked
    → ((a : A) (h : List Ev) → (next a h).0 ≢ panicked)
    → (and_then next r).0 ≢ panicked
and_then-ne_panicked next (ok a, h) n k = k a h
and_then-ne_panicked next (err e, h) n k = λ p. cc
and_then-ne_panicked next (panicked, h) n k = absurd (n refl)

-- A chain that gives a value got one from its first call.
pub and_then-eq-ok :
    {Ev E A B : Type 0} (next : A → Call Ev E B) (r : Result E A × List Ev) {b : B} {h' : List Ev}
    → and_then next r ≡ (ok b, h')
    → (a : A) × (h : List Ev) × (r ≡ (ok a, h)) × (next a h ≡ (ok b, h'))
and_then-eq-ok next (ok a, h) e = (a, h, refl, e)
and_then-eq-ok next (err x, h) e = cc
and_then-eq-ok next (panicked, h) e = cc

-- A guard that lets through leaves the history alone.
pub raise_if_lem :
    {Ev E : Type 0} (b : Bool) (e : E) (h h' : List Ev) (u : Unit {0})
    → raise_if b e h ≡ (ok u, h')
    → (b ≡ false) × (h ≡ h')
raise_if_lem true e h h' u p = cc
raise_if_lem false e h h' u p = (refl, ap (λ r. r.1) p)

pub and_then-pure :
    {Ev E A B : Type 0} (f : A → B) (r : Result E A × List Ev)
    → (and_then (λ a. pure (f a)) r).1 ≡ r.1
and_then-pure f (ok a, h) = refl
and_then-pure f (err e, h) = refl
and_then-pure f (panicked, h) = refl

-- From `h0` on, all events satisfy `P`, and a value satisfies `Q`.
abbrev pub Ends :
    {Ev E A : Type 0} → (Ev → Type 0) → List Ev → (A → Type 0) → Result E A × List Ev → Type 0
Ends P h0 Q (ok a, h) = Grown P h0 h × Q a
Ends P h0 Q (err e, h) = Grown P h0 h
Ends P h0 Q (panicked, h) = Grown P h0 h

module _ {Ev E : Type 0} (P : Ev → Type 0) (h0 : List Ev) where
  pub Grown-Ends :
      {A : Type 0} → (r : Result E A × List Ev) → Grown P h0 r.1 → Ends P h0 (λ a. r.0 ≡ ok a) r
  Grown-Ends (ok a, h) g = (g, refl)
  Grown-Ends (err e, h) g = g
  Grown-Ends (panicked, h) g = g

  pub Ends-Grown :
      {A : Type 0} (Q : A → Type 0) (r : Result E A × List Ev) → Ends P h0 Q r → Grown P h0 r.1
  Ends-Grown Q (ok a, h) e = e.0
  Ends-Grown Q (err x, h) e = e
  Ends-Grown Q (panicked, h) e = e

  pub and_then-Ends :
      {A B : Type 0} (Q : A → Type 0) (R : B → Type 0) (next : A → Call Ev E B)
      (r : Result E A × List Ev)
      → Ends P h0 Q r
      → ((a : A) (h : List Ev) → Grown P h0 h → Q a → Ends P h0 R (next a h))
      → Ends P h0 R (and_then next r)
  and_then-Ends Q R next (ok a, h) (g, q) k = k a h g q
  and_then-Ends Q R next (err x, h) g k = g
  and_then-Ends Q R next (panicked, h) g k = g

  -- A chain of which the second call may do more, where `C` holds.
  pub and_then-Grown_or :
      {A B : Type 0} (Q : A → Type 0) (C : Type 0) (next : A → Call Ev E B)
      (r : Result E A × List Ev)
      → Ends P h0 Q r
      → ((a : A) (h : List Ev) → Grown P h0 h → Q a → Grown P h0 (next a h).1 ⊎ C)
      → Grown P h0 (and_then next r).1 ⊎ C
  and_then-Grown_or Q C next (ok a, h) (g, q) k = k a h g q
  and_then-Grown_or Q C next (err x, h) g k = inl g
  and_then-Grown_or Q C next (panicked, h) g k = inl g

pub Grown-mono :
    {Ev : Type 0} (P Q : Ev → Type 0) (h h' : List Ev)
    → ((e : Ev) → P e → Q e)
    → Grown P h h'
    → Grown Q h h'
Grown-mono P Q h h' f (new, e, a) = (new, e, All-mono new a)
  where
    All-mono : (es : List _) → All P es → All Q es
    All-mono [] a = tt
    All-mono (e ∷ es) a = (f e a.0, All-mono es a.1)
