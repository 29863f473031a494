-- ===== src/Ufs/Query/Wire.antt =====
-- What a query puts on the wire, and how long a descriptor that it reads is.
use flipperos_installer.Base.{
  ℕ, ◌^◌, ◌≤◌, ◌<◌, ◌≡◌, refl, sym, ap, ◌∙◌, List, ◌++◌, length, replicate, min, ltb, length-append,
  length-replicate, length-take, Result, ok, arith,
}
use flipperos_installer.Ufs.Bytes.{u8_at, u16_at, u32_at, get_range, from_be, from_be_from}
use flipperos_installer.Ufs.Error.{Error, impossible_length}
use flipperos_installer.Ufs.World.{World, Query, Dir, no_data, data_out, data_in, History, raise_if}
use flipperos_installer.Ufs.World.Trace.{and_then-eq-ok, raise_if_lem}
use flipperos_installer.Ufs.Query.{
  request_upiu, segment_length, read_descriptor, read_bytes, query, received, desc_query,
  opcode_read_desc,
}

segment-le : (d : Dir) (n : ℕ) → segment_length d n ≤ n
segment-le no_data n = omega arith
segment-le (data_in k) n = omega arith
segment-le (data_out bytes) n = omega arith

-- The request UPIU has 32 bytes, and a reader at the offsets of the standard finds the arguments of
-- the query in it, the length of the data segment, for a query that sends data, included.
pub record CarriesQuery (q : Query) (upiu : List ℕ) : Type 0 where
  pub whole : length upiu ≡ 32
  pub opcode_at : u8_at upiu 12 ≡ q.opcode
  pub idn_at : u8_at upiu 13 ≡ q.idn
  pub index_at : u8_at upiu 14 ≡ q.index
  pub length_at : u16_at upiu 18 ≡ q.length
  pub value_at : u32_at upiu 20 ≡ q.value
  pub segment_at : u16_at upiu 10 ≡ segment_length q.dir q.length

-- The request of a query whose length and value fit 16 and 32 bits carries its arguments.
pub request_upiu-CarriesQuery :
    (q : Query) → q.length < 2 ^ 16 → q.value < 2 ^ 32 → CarriesQuery q (request_upiu q)
unfolding request_upiu u8_at u16_at u32_at get_range from_be from_be_from
request_upiu-CarriesQuery q small fits = record {
  whole = refl;
  opcode_at = refl;
  idn_at = refl;
  index_at = refl;
  length_at = omega arith;
  value_at = omega arith;
  segment_at = omega (arith, segment-le q.dir q.length);
}

received_length : (n : ℕ) (payload : List ℕ) → length (received n payload) ≡ n
received_length n payload =
    length-take n (payload ++ replicate {A = ℕ} n 0)
    ∙ omega (arith, length-append {A = ℕ} payload (replicate n 0), length-replicate {A = ℕ} n 0)

module _ (w : World) where
  read_bytes_length :
      (idn index n : ℕ) (bytes : List ℕ) (h h' : History)
      → read_bytes w idn index n h ≡ (ok bytes, h')
      → length bytes ≡ n
  unfolding query
  read_bytes_length idn index n bytes h h' e =
      let (r, h1, _, e1) =
        and_then-eq-ok _ (query w (desc_query w opcode_read_desc idn index n (data_in n)) h) e in
      ap length (bytes_of (ap (λ x. x.0) (sym e1))) ∙ received_length n r.payload
    where
      bytes_of : {a b : List ℕ} → ◌≡◌ {A = Result Error (List ℕ)} (ok a) (ok b) → a ≡ b
      bytes_of h = cc

  -- A descriptor that is read has at least its header and at most 255 bytes, whatever the device
  -- answers.
  pub read_descriptor_bounds :
      (idn index : ℕ) (bytes : List ℕ) (h h' : History)
      → read_descriptor w idn index h ≡ (ok bytes, h')
      → (2 ≤ length bytes) × (length bytes ≤ 255)
  unfolding read_descriptor
  read_descriptor_bounds idn index bytes h h' e =
      let (header, h1, _, e1) = and_then-eq-ok _ (read_bytes w idn index 2 h) e in
      let len = u8_at header 0 in
      let (_, h2, g, e2) =
        and_then-eq-ok _ (raise_if (ltb len 2) (impossible_length idn index len) h1) e1 in
      let (long, _) = raise_if_lem (ltb len 2) (impossible_length idn index len) h1 h2 tt g in
      let n = read_bytes_length idn index (min len 255) bytes h2 h' e2 in ground arith
