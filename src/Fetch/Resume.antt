-- ===== src/Fetch/Resume.antt =====
-- src/core/fetch.rs: a download that resumes. The connection is of another package: a parameter, with
-- what the code relies on as laws.
use mathlib.Core.List.{append_assoc}
use flipperos_installer.Base.{
  ℕ, ◌+◌, ◌%◌, ◌≤◌, ◌<◌, ◌≡◌, ◌≢◌, refl, sym, ap, subst, ◌∙◌, List, [], ◌∷◌, ◌++◌, drop, length,
  length-append, Result, ok, err, u64_mod, arith,
}

-- What a read of a response body comes to.
pub data Answer : Type 0 where
  chunk : List ℕ → Answer
  interrupted : Answer
  broken : Answer

-- Connections: reading the next bytes of one, and asking for the body from an offset on, which gives
-- an HTTP status and a connection.
pub record Web : Type 1 where
  pub Connection : Type 0
  pub next : Connection → Answer × Connection
  pub get_range : ℕ → ℕ × Connection

-- What the protocol says of a body: a connection stands at an offset of it, yields what follows there,
-- and is opened at the offset that was asked for where the status is 206.
pub record Serves (web : Web) (body : List ℕ) : Type 1 where
  pub StandsAt : web.Connection → ℕ → Type 0
  pub yields :
      (c c' : web.Connection) (p : ℕ) (bs : List ℕ)
      → StandsAt c p
      → web.next c ≡ (chunk bs, c')
      → ((rest : List ℕ) × (drop p body ≡ bs ++ rest)) × StandsAt c' (p + length bs)
  pub waits :
      (c c' : web.Connection) (p : ℕ)
      → StandsAt c p
      → web.next c ≡ (interrupted, c')
      → StandsAt c' p
  pub opens :
      (p : ℕ) (c : web.Connection) → p ≤ length body → web.get_range p ≡ (206, c) → StandsAt c p

-- `MAX_RESUMES`
abbrev pub max_resumes : ℕ
max_resumes = 4

-- The status of a response to a range request
abbrev pub partial_content : ℕ
partial_content = 206

-- `ResumingReader`
pub record Reader (web : Web) : Type 0 where
  pub inner : web.Connection
  pub read : ℕ
  pub resumes : ℕ

module _ {web : Web} where
  abbrev pub advanced : Reader web → web.Connection → List ℕ → Reader web
  advanced r c bs = record { inner = c; read = (r.read + length bs) % u64_mod; resumes = r.resumes }

  abbrev pub reopened : Reader web → web.Connection → Reader web
  reopened r c = record { inner = c; read = r.read; resumes = r.resumes + 1 }

  -- `ResumingReader::start`, once the server has answered
  abbrev pub started_at : web.Connection → Reader web
  started_at c = record { inner = c; read = 0; resumes = 0 }

  -- `read`: the loop of it, round by round, with its result and the reader that it leaves
  pub data Reading : Reader web → Result (Unit {0}) (List ℕ) → Reader web → Type 0 where
    gave :
        {r : Reader web} {c : web.Connection} (bs : List ℕ)
        → web.next r.inner ≡ (chunk bs, c)
        → Reading r (ok bs) (advanced r c bs)
    again :
        {r : Reader web} {c : web.Connection} {out : Result (Unit {0}) (List ℕ)} {r' : Reader web}
        → web.next r.inner ≡ (interrupted, c)
        → Reading (record { inner = c; read = r.read; resumes = r.resumes }) out r'
        → Reading r out r'
    gave_up :
        {r : Reader web} {c : web.Connection}
        → web.next r.inner ≡ (broken, c)
        → max_resumes ≤ r.resumes
        → Reading r (err tt) (record { inner = c; read = r.read; resumes = r.resumes })
    refused :
        {r : Reader web} {c : web.Connection} {status : ℕ} {c' : web.Connection}
        → web.next r.inner ≡ (broken, c)
        → r.resumes < max_resumes
        → web.get_range r.read ≡ (status, c')
        → status ≢ partial_content
        → Reading r (err tt) (reopened r c)
    resumed :
        {r : Reader web} {c c' : web.Connection} {out : Result (Unit {0}) (List ℕ)}
        {r' : Reader web}
        → web.next r.inner ≡ (broken, c)
        → r.resumes < max_resumes
        → web.get_range r.read ≡ (partial_content, c')
        → Reading (reopened r c') out r'
        → Reading r out r'

  -- Reads in a row that all give something, with all that they gave
  pub data Received : Reader web → List ℕ → Reader web → Type 0 where
    nothing : {r : Reader web} → Received r [] r
    received :
        {bs more : List ℕ} {r r' r'' : Reader web}
        → Received r bs r'
        → Reading r' (ok more) r''
        → Received r (bs ++ more) r''

module _ {web : Web} {body : List ℕ} (serves : Serves web body) (fits : length body < u64_mod) where
  -- The reader has read `bs`, which begins the body, and stands behind it.
  record HasRead (bs : List ℕ) (r : Reader web) : Type 0 where
    begun : (rest : List ℕ) × (body ≡ bs ++ rest)
    stands : serves.StandsAt r.inner (length bs)
    counted : r.read ≡ length bs
    few : r.resumes ≤ max_resumes

  drop-append : (bs rest : List ℕ) → drop (length bs) (bs ++ rest) ≡ rest
  drop-append [] rest = refl
  drop-append (b ∷ bs) rest = drop-append bs rest

  within : (bs rest : List ℕ) → body ≡ bs ++ rest → length bs ≤ length body
  within bs rest e = omega (arith, ap length e, length-append bs rest)

  advanced-HasRead :
      {bs : List ℕ} {r : Reader web} (c : web.Connection) (more : List ℕ)
      → HasRead bs r
      → web.next r.inner ≡ (chunk more, c)
      → HasRead (bs ++ more) (advanced r c more)
  advanced-HasRead {bs} {r} c more h e =
      let ((rest, q), st) = serves.yields r.inner c (length bs) more h.stands e in
      let begun : body ≡ (bs ++ more) ++ rest = whole h.begun.0 rest h.begun.1 q in
      record {
        begun = (rest, begun);
        stands = subst (serves.StandsAt c) (sym (length-append bs more)) st;
        counted =
            omega (arith, h.counted, length-append bs more, within (bs ++ more) rest begun, fits);
        few = h.few;
      }
    where
      whole :
          (after rest : List ℕ)
          → body ≡ bs ++ after
          → drop (length bs) body ≡ more ++ rest
          → body ≡ (bs ++ more) ++ rest
      whole after rest e q =
          e
          ∙ (ap (λ l. bs ++ l) (sym (drop-append bs after) ∙ (ap (drop (length bs)) (sym e) ∙ q))
              ∙ sym (append_assoc bs more rest))

  Reading-HasRead :
      {bs more : List ℕ} {r r' : Reader web}
      → Reading r (ok more) r'
      → HasRead bs r
      → HasRead (bs ++ more) r'
  Reading-HasRead (gave more e) h = advanced-HasRead _ more h e
  Reading-HasRead (again {c} e rd) h = Reading-HasRead rd (record {
    begun = h.begun;
    stands = serves.waits _ c _ h.stands e;
    counted = h.counted;
    few = h.few;
  })
  Reading-HasRead {bs} {more} {r} (resumed {c} {c'} e lt e' rd) h = Reading-HasRead rd (record {
    begun = h.begun;
    stands =
        subst (serves.StandsAt c') h.counted
          (serves.opens r.read c' (rw h.counted (within bs h.begun.0 h.begun.1)) e');
    counted = h.counted;
    few = omega arith;
  })

  Received-HasRead :
      {bs : List ℕ} {r r' : Reader web} → Received r bs r' → HasRead [] r → HasRead bs r'
  Received-HasRead nothing h = h
  Received-HasRead (received rs rd) h = Reading-HasRead rd (Received-HasRead rs h)

  -- Where the connections serve a body that is shorter than 2^64 bytes: all that the reads give, in
  -- the order in which they give it, is a beginning of the body, whatever breaks in between; and the
  -- reader resumes at most four times.
  pub Received-begins :
      {bs : List ℕ} {r' : Reader web} (c : web.Connection)
      → serves.StandsAt c 0
      → Received (started_at c) bs r'
      → ((rest : List ℕ) × (body ≡ bs ++ rest)) × (r'.resumes ≤ max_resumes)
  Received-begins c st rs =
      let h =
        Received-HasRead rs
          (record { begun = (body, refl); stands = st; counted = refl; few = omega arith }) in
      (h.begun, h.few)
