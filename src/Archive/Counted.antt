-- ===== src/Archive/Counted.antt =====
-- src/core/archive.rs: what an archive that is unpacked to the end has given.
use flipperos_installer.Base.{
  ℕ, suc, ◌≡◌, ◌≢◌, refl, sym, ap, ◌∙◌, subst, Bool, true, false, List, [], ◌∷◌, ◌++◌, Option, none,
  some, Text, Result, ok, err, panicked, if◌then◌else◌, ◌&&◌, ◌==◌, ◌+◌, ◌%◌, arith, add64, u64_mod,
  length, is_some, ok-injective,
}
use flipperos_installer.Base.Calls.{◌>>=◌, pure, raise, lift}
use flipperos_installer.Added.{and_then-eq-ok}
use flipperos_installer.Model.{BundleRef, BundleLocation, dir, remote}
use flipperos_installer.Archive.{
  inner_path, Member, Archive, Unpacking, made_dir, made_file, wrote, System, acts, push_names,
  but_last, copy_reads, Tally, unpack_file, unpack_at, unpack_member, unpack_all, unpack_into,
  unpack_to, unpack_behind, unpack_reference,
}

-- The bytes that were written, and the files that were made
abbrev pub written : List Unpacking → ℕ
written [] = 0
written (made_dir path ∷ es) = written es
written (made_file path ∷ es) = written es
written (wrote path bytes ∷ es) = length bytes + written es

abbrev pub files_made : List Unpacking → ℕ
files_made [] = 0
files_made (made_dir path ∷ es) = files_made es
files_made (made_file path ∷ es) = suc (files_made es)
files_made (wrote path bytes ∷ es) = files_made es

abbrev pub leads_inside : Result Text Text → Bool
unfolding inner_path
leads_inside (ok path) = is_some (inner_path path)
leads_inside (err e) = false
leads_inside panicked = false

-- The members that are files at a place inside the archive's own directory
abbrev pub members_inside : List (Result Text Member) → ℕ
members_inside [] = 0
members_inside (ok m ∷ ms) = (if m.is_file && leads_inside m.path then 1 else 0) + members_inside ms
members_inside (err e ∷ ms) = members_inside ms
members_inside (panicked ∷ ms) = members_inside ms

-- Since `h0`, the files of the tally were made and its bytes written.
abbrev IsTally : (h0 h : List Unpacking) → Tally → Type 0
IsTally h0 h (files, total) =
    (new : List Unpacking) × (h ≡ new ++ h0)
    × (files ≡ files_made new)
    × (total ≡ written new % u64_mod)

-- What holds at the end of a call that does nothing held before.
pure_holds :
    {A : Type 0} (P : A → List Unpacking → Type 0) (a : A) (h : List Unpacking) {a' : A}
    {h' : List Unpacking}
    → pure {Ev = Unpacking} {E = Text} a h ≡ (ok a', h')
    → P a h
    → P a' h'
pure_holds P a h {a'} k q =
    subst (P a') (ap (λ r. r.1) k) (subst (λ a. P a h) (ok-injective (ap (λ r. r.0) k)) q)

module _ (sys : System) (h0 : List Unpacking) where
  acts_lem :
      (e : Unpacking) (h : List Unpacking) {h' : List Unpacking} {u : Unit {0}}
      → acts sys e h ≡ (ok u, h')
      → e ∷ h ≡ h'
  acts_lem e h k = ap (λ r. r.1) k

  made_dir-IsTally :
      (path : Text) (h h' : List Unpacking) (t : Tally) {u : Unit {0}}
      → acts sys (made_dir path) h ≡ (ok u, h')
      → IsTally h0 h t
      → IsTally h0 h' t
  made_dir-IsTally path h h' t k (new, e, f, n) =
      (made_dir path ∷ new, sym (acts_lem _ h k) ∙ ap (λ l. made_dir path ∷ l) e, f, n)

  made_file-IsTally :
      (path : Text) (h h' : List Unpacking) (files total : ℕ) {u : Unit {0}}
      → acts sys (made_file path) h ≡ (ok u, h')
      → IsTally h0 h (files, total)
      → IsTally h0 h' (suc files, total)
  made_file-IsTally path h h' files total k (new, e, f, n) =
      (made_file path ∷ new, sym (acts_lem _ h k) ∙ ap (λ l. made_file path ∷ l) e, ap suc f, n)

  wrote-IsTally :
      (path : Text) (bytes : List ℕ) (h h' : List Unpacking) (files total : ℕ) {u : Unit {0}}
      → acts sys (wrote path bytes) h ≡ (ok u, h')
      → IsTally h0 h (files, total)
      → IsTally h0 h' (files, add64 total (length bytes))
  wrote-IsTally path bytes h h' files total k (new, e, f, n) = (
    wrote path bytes ∷ new,
    sym (acts_lem _ h k) ∙ ap (λ l. wrote path bytes ∷ l) e,
    f,
    omega (arith, n),
  )

  copy_reads-IsTally :
      (out : Text) (reads : List (Result Text (List ℕ))) (files total : ℕ) (h : List Unpacking)
      {total' : ℕ} {h' : List Unpacking}
      → copy_reads sys out reads total h ≡ (ok total', h')
      → IsTally h0 h (files, total)
      → IsTally h0 h' (files, total')
  unfolding copy_reads
  copy_reads-IsTally out [] files total h k t =
      pure_holds (λ n h. IsTally h0 h (files, n)) total h k t
  copy_reads-IsTally out (r ∷ rs) files total h k t =
      let (bytes, h1, p, k1) = and_then-eq-ok _ (lift r h) k in
      let (u, h2, q, k2) = and_then-eq-ok _ (acts sys (wrote out bytes) h1) k1 in
      copy_reads-IsTally out rs files (add64 total (length bytes)) h2 k2 (
        wrote-IsTally out bytes h1 h2 files total q
          (subst (λ l. IsTally h0 l (files, total)) (ap (λ r. r.1) p) t))

  unpack_file-IsTally :
      (dest : Text) (names : List Text) (reads : List (Result Text (List ℕ))) (t : Tally)
      (h : List Unpacking) {t' : Tally} {h' : List Unpacking}
      → unpack_file sys dest names reads t h ≡ (ok t', h')
      → IsTally h0 h t
      → IsTally h0 h' t' × (t'.0 ≡ suc t.0)
  unfolding unpack_file
  unpack_file-IsTally dest names reads (files, total) h {t'} {h'} k t =
      let out = push_names dest names in
      let parent = push_names dest (but_last names) in
      let (u, h1, p, k1) = and_then-eq-ok _ (acts sys (made_dir parent) h) k in
      let (v, h2, q, k2) = and_then-eq-ok _ (acts sys (made_file out) h1) k1 in
      let (n, h3, r, k3) = and_then-eq-ok _ (copy_reads sys out reads total h2) k2 in
      let made =
        made_file-IsTally out h1 h2 files total q
          (made_dir-IsTally parent h h1 (files, total) p t) in
      (
        pure_holds (λ t h. IsTally h0 h t) (suc files, n) h3 k3
            (copy_reads-IsTally out reads (suc files) total h2 r made),
        sym (ap (λ t. t.0) (ok-injective (ap (λ r. r.0) k3))),
      )

  unpack_at-IsTally :
      (dest : Text) (reads : List (Result Text (List ℕ))) (t : Tally) (o : Option (List Text))
      (h : List Unpacking) {t' : Tally} {h' : List Unpacking}
      → unpack_at sys dest reads t o h ≡ (ok t', h')
      → IsTally h0 h t
      → IsTally h0 h' t' × (t'.0 ≡ (if is_some o then 1 else 0) + t.0)
  unfolding unpack_at
  unpack_at-IsTally dest reads t none h k q =
      pure_holds (λ t' h. IsTally h0 h t' × (t'.0 ≡ 0 + t.0)) t h k (q, omega arith)
  unpack_at-IsTally dest reads t (some names) h k q =
      let (tally, files) = unpack_file-IsTally dest names reads t h k q in
      (tally, omega (arith, files))

  -- A member by its kind and its path
  member-IsTally :
      (dest : Text) (is_file : Bool) (path : Result Text Text) (reads : List (Result Text (List ℕ)))
      (t : Tally) (h : List Unpacking) {t' : Tally} {h' : List Unpacking}
      → (if is_file then (lift path >>= λ p. unpack_at sys dest reads t (inner_path p)) else pure t)
          h
        ≡ (ok t', h')
      → IsTally h0 h t
      → IsTally h0 h' t' × (t'.0 ≡ (if is_file && leads_inside path then 1 else 0) + t.0)
  unfolding leads_inside inner_path
  member-IsTally dest false path reads t h k q =
      pure_holds (λ t' h. IsTally h0 h t' × (t'.0 ≡ 0 + t.0)) t h k (q, omega arith)
  member-IsTally dest true (ok path) reads t h k q =
      unpack_at-IsTally dest reads t (inner_path path) h k q
  member-IsTally dest true (err e) reads t h k q = cc
  member-IsTally dest true panicked reads t h k q = cc

  unpack_member-IsTally :
      (dest : Text) (m : Member) (t : Tally) (h : List Unpacking) {t' : Tally} {h' : List Unpacking}
      → unpack_member sys dest m t h ≡ (ok t', h')
      → IsTally h0 h t
      → IsTally h0 h' t' × (t'.0 ≡ (if m.is_file && leads_inside m.path then 1 else 0) + t.0)
  unfolding unpack_member
  unpack_member-IsTally dest m t h k q = member-IsTally dest m.is_file m.path m.reads t h k q

  unpack_all-IsTally :
      (dest : Text) (ms : List (Result Text Member)) (t : Tally) (h : List Unpacking) {t' : Tally}
      {h' : List Unpacking}
      → unpack_all sys dest ms t h ≡ (ok t', h')
      → IsTally h0 h t
      → IsTally h0 h' t' × (t'.0 ≡ members_inside ms + t.0)
  unfolding unpack_all
  unpack_all-IsTally dest [] t h k q =
      pure_holds (λ t' h. IsTally h0 h t' × (t'.0 ≡ 0 + t.0)) t h k (q, omega arith)
  unpack_all-IsTally dest (err e ∷ ms) t h k q = cc
  unpack_all-IsTally dest (panicked ∷ ms) t h k q = cc
  unpack_all-IsTally dest (ok m ∷ ms) t h k q =
      let (t1, h1, p, k1) = and_then-eq-ok _ (unpack_member sys dest m t h) k in
      let (q1, e1) = unpack_member-IsTally dest m t h p q in
      let (q2, e2) = unpack_all-IsTally dest ms t1 h1 k1 q1 in (q2, omega (arith, e1, e2))

-- What an archive has given that is unpacked into the directory `dest`
abbrev pub IsUnpacked : (h0 h : List Unpacking) → (n : ℕ) → List (Result Text Member) → Type 0
IsUnpacked h0 h n ms =
    (new : List Unpacking) × (h ≡ new ++ h0)
    × (n ≡ written new % u64_mod)
    × (files_made new ≡ members_inside ms)
    × (members_inside ms ≢ 0)

answer-IsUnpacked :
    (b : Bool) (e : Text) (h0 h : List Unpacking) (t : Tally) (ms : List (Result Text Member))
    {n : ℕ} {h' : List Unpacking}
    → (t.0 == 0) ≡ b
    → (if b then raise e else pure t.1) h ≡ (ok n, h')
    → IsTally h0 h t
    → t.0 ≡ members_inside ms + 0
    → IsUnpacked h0 h' n ms
answer-IsUnpacked true e h0 h t ms z k q f = cc
answer-IsUnpacked false e h0 h t ms z k (new, p, files, total) f =
    pure_holds (λ n h. IsUnpacked h0 h n ms) t.1 h k
      (new, p, total, omega (arith, files, f), λ y. ground (arith, z, f, y))

unpack_into-IsUnpacked :
    (sys : System) (archive : Text) (opened : Archive) (dest : Text) (h0 h : List Unpacking) (n : ℕ)
    → unpack_into sys archive opened dest h0 ≡ (ok n, h)
    → (ms : List (Result Text Member)) × (opened ≡ ok ms) × IsUnpacked h0 h n ms
unfolding unpack_into
unpack_into-IsUnpacked sys archive opened dest h0 h n k =
    let (u, h1, p, k1) = and_then-eq-ok _ (acts sys (made_dir dest) h0) k in
    let (ms, h2, q, k2) = and_then-eq-ok _ (lift opened h1) k1 in
    let (t, h3, r, k3) = and_then-eq-ok _ (unpack_all sys dest ms (0, 0) h2) k2 in
    let start = made_dir-IsTally sys h0 dest h0 h1 (0, 0) p ([], refl, refl, refl) in
    let (tally, files) =
      unpack_all-IsTally sys h0 dest ms (0, 0) h2 r
        (subst (λ l. IsTally h0 l (0, 0)) (ap (λ r. r.1) q) start) in
    (ms, ap (λ r. r.0) q, answer-IsUnpacked (t.0 == 0) _ h0 h3 t ms refl k3 tally files)

-- What is unpacked for a bundle: nothing where it is no archive, and else the archive
abbrev pub IsUnpackedFor :
    (Text → Archive) → Option Text → (h0 h : List Unpacking) → (n : ℕ) → Type 0
IsUnpackedFor archives none h0 h n = (n ≡ 0) × (h ≡ h0)
IsUnpackedFor archives (some archive) h0 h n =
    (ms : List (Result Text Member)) × (archives archive ≡ ok ms) × IsUnpacked h0 h n ms

module _ (sys : System) (archives : Text → Archive) (h0 h : List Unpacking) (n : ℕ) where
  unpack_to-IsUnpackedFor :
      (archive : Text) (location : BundleLocation)
      → unpack_to sys archive (archives archive) location h0 ≡ (ok n, h)
      → IsUnpackedFor archives (some archive) h0 h n
  unfolding unpack_to
  unpack_to-IsUnpackedFor archive (remote base) k = cc
  unpack_to-IsUnpackedFor archive (dir root) k =
      unpack_into-IsUnpacked sys archive (archives archive) root h0 h n k

  unpack_behind-IsUnpackedFor :
      (o : Option Text) (location : BundleLocation)
      → unpack_behind sys archives o location h0 ≡ (ok n, h)
      → IsUnpackedFor archives o h0 h n
  unfolding unpack_behind
  unpack_behind-IsUnpackedFor none location k =
      (sym (ok-injective (ap (λ r. r.0) k)), sym (ap (λ r. r.1) k))
  unpack_behind-IsUnpackedFor (some archive) location k = unpack_to-IsUnpackedFor archive location k

-- Where unpacking a bundle succeeds, either it is no archive and nothing was done, or its archive was read
-- to its end: the answer is the number of bytes that were written since, modulo 2^64, and as many files
-- were made as the archive has members that are files at a place inside its own directory, of which there
-- is one at least.
pub unpack_reference-IsUnpacked :
    (sys : System) (archives : Text → Archive) (reference : BundleRef) (h0 h : List Unpacking)
    (n : ℕ)
    → unpack_reference sys archives reference h0 ≡ (ok n, h)
    → IsUnpackedFor archives reference.archive h0 h n
unfolding unpack_reference
unpack_reference-IsUnpacked sys archives reference h0 h n k =
    unpack_behind-IsUnpackedFor sys archives h0 h n reference.archive reference.location k
