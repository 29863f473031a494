-- ===== src/Tests/Downloading.antt =====
-- A download that breaks after every chunk.
use flipperos_installer.Base.{
  ℕ, zero, suc, ◌+◌, ◌≤◌, ◌≡◌, refl, sym, ap, ◌∙◌, Bool, true, false, List, [], ◌∷◌, ◌++◌, drop,
  take, length, arith,
}
use flipperos_installer.Fetch.Resume.{
  Answer, chunk, interrupted, broken, Web, Serves, started_at, gave, resumed, Received, nothing,
  received, max_resumes, Received-begins,
}

abbrev five : List ℕ
five = 1 ∷ 2 ∷ 3 ∷ 4 ∷ 5 ∷ []

-- A connection, by where it stands and whether it is broken, which it is after two bytes.
abbrev Place : Type 0
Place = ℕ × Bool

abbrev next_two : Place → Answer × Place
next_two (p, true) = (broken, (p, true))
next_two (p, false) = (chunk (take 2 (drop p five)), (p + length (take 2 (drop p five)), true))

abbrev brittle : Web
brittle = record { Connection = Place; next = next_two; get_range = λ p. (206, (p, false)) }

take-drop : (n : ℕ) (xs : List ℕ) → xs ≡ take n xs ++ drop n xs
take-drop zero xs = refl
take-drop (suc n) [] = refl
take-drop (suc n) (x ∷ xs) = ap (λ l. x ∷ l) (take-drop n xs)

given : Answer → List ℕ
given (chunk bs) = bs
given interrupted = []
given broken = []

chunk_yields :
    (c c' : Place) (p : ℕ) (bs : List ℕ)
    → c.0 ≡ p
    → next_two c ≡ (chunk bs, c')
    → ((rest : List ℕ) × (drop p five ≡ bs ++ rest)) × (c'.0 ≡ p + length bs)
unfolding given
chunk_yields (q, true) c' p bs s e = cc
chunk_yields (q, false) c' p bs s e =
    let same : take 2 (drop q five) ≡ bs = ap (λ r. given r.0) e in
    let after : drop q five ≡ bs ++ drop 2 (drop q five) =
      take-drop 2 (drop q five) ∙ ap (λ l. l ++ drop 2 (drop q five)) same in
    (
      (drop 2 (drop q five), ap (λ k. drop k five) (sym s) ∙ after),
      ap (λ r. r.1.0) (sym e)
          ∙ (ap (λ k. k + length (take 2 (drop q five))) s ∙ ap (λ l. p + length l) same),
    )

never_waits : (c c' : Place) (p : ℕ) → c.0 ≡ p → next_two c ≡ (interrupted, c') → c'.0 ≡ p
never_waits (q, true) c' p s e = cc
never_waits (q, false) c' p s e = cc

brittle-Serves : Serves brittle five
brittle-Serves = record {
  StandsAt = λ c p. c.0 ≡ p;
  yields = chunk_yields;
  waits = never_waits;
  opens = λ p c h e. ap (λ r. r.1.0) (sym e);
}

two_chunks :
    Received {web = brittle}
      (started_at {web = brittle} (0, false))
      (1 ∷ 2 ∷ 3 ∷ 4 ∷ [])
      (record { inner = (4, true); read = 4; resumes = 1 })
two_chunks =
    received (received nothing (gave (1 ∷ 2 ∷ []) refl))
      (resumed refl (omega arith) refl (gave (3 ∷ 4 ∷ []) refl))

Received-begins_example :
    ((rest : List ℕ) × (five ≡ (1 ∷ 2 ∷ 3 ∷ 4 ∷ []) ++ rest)) × (1 ≤ max_resumes)
unfolding brittle-Serves
Received-begins_example =
    Received-begins {web = brittle} {body = five} brittle-Serves (omega arith) (0, false) refl
      two_chunks
