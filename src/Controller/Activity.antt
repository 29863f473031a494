-- ===== src/Controller/Activity.antt =====
-- What the shared activity log of src/core/controller.rs holds.
use flipperos_installer.Base.{
  ℕ, zero, suc, ◌+◌, ◌-◌, ◌≤◌, ◌≡◌, refl, ap, sym, ◌∙◌, List, [], ◌∷◌, ◌++◌, Text, length, drop,
  length-append, length-drop, arith,
}
use mathlib.Core.List.{append_assoc, append-nil}
use flipperos_installer.Model.{AppState}
use flipperos_installer.Controller.Sections.{push_log, max_log}

-- Lines that are logged one after another.
abbrev pub push_all : List Text → AppState → AppState
push_all [] s = s
push_all (t ∷ ts) s = push_all ts (push_log t s)

-- The lines that a log of limited length keeps of these.
abbrev pub latest : List Text → List Text
latest ts = drop (length ts - max_log) ts

module _ {ℓ} {A : Type ℓ} where
  drop-append : (n : ℕ) (xs ys : List A) → n ≤ length xs → drop n (xs ++ ys) ≡ drop n xs ++ ys
  drop-append zero xs ys h = refl
  drop-append (suc n) [] ys h = absurd (omega arith)
  drop-append (suc n) (x ∷ xs) ys h = drop-append n xs ys (omega arith)

  drop-nil : (n : ℕ) → drop {A = A} n [] ≡ []
  drop-nil zero = refl
  drop-nil (suc n) = refl

  drop-drop : (m n : ℕ) (xs : List A) → drop m (drop n xs) ≡ drop (n + m) xs
  drop-drop m zero xs = ap (λ (k : ℕ). drop k xs) (omega arith)
  drop-drop m (suc n) [] = drop-nil m ∙ sym (drop-nil (suc n + m))
  drop-drop m (suc n) (x ∷ xs) =
      drop-drop m n xs ∙ ap (λ (k : ℕ). drop k (x ∷ xs)) {x = suc (n + m)} (omega arith)

-- One more line on a log that is cut already.
latest-append : (old new : List Text) → latest (latest old ++ new) ≡ latest (old ++ new)
latest-append old new =
    let cut : ℕ = length old - max_log in
    let after : ℕ = length (latest old ++ new) - max_log in
    ap (drop after) (sym (drop-append cut old new (omega arith)))
    ∙ (drop-drop after cut (old ++ new)
        ∙ ap (λ (k : ℕ). drop k (old ++ new))
            (omega
              (arith, length-append (latest old) new, length-append old new, length-drop cut old)))

push_all_lem :
    (ts : List Text) (s : AppState) (old : List Text)
    → s.log ≡ latest old
    → (push_all ts s).log ≡ latest (old ++ ts)
unfolding push_log
push_all_lem [] s old h = rw (append-nil old) h
push_all_lem (t ∷ ts) s old h =
    push_all_lem ts (push_log t s) (old ++ (t ∷ [])) (rw h (latest-append old (t ∷ [])))
    ∙ ap latest (append_assoc old (t ∷ []) ts)

-- However many lines are logged, the log holds the last 500 of them in order, those that it held
-- before included.
pub push_all-log :
    (ts : List Text) (s : AppState)
    → length s.log ≤ max_log
    → (push_all ts s).log ≡ latest (s.log ++ ts)
push_all-log ts s h = push_all_lem ts s s.log (ap (λ (k : ℕ). drop k s.log) {x = 0} (omega arith))
