-- ===== src/Bundle/Query.antt =====
-- src/core/bundle.rs: the percent-encoding of a query parameter, and that it can be read back.
use flipperos_installer.Base.{
  ℕ, ◌+◌, ◌-◌, ◌*◌, ◌/◌, ◌%◌, ◌<◌, ◌≡◌, refl, ap, ◌∙◌, Bool, true, ◌&&◌, ◌||◌, List, [], ◌∷◌, ◌++◌,
  All, All-append, Text, codes, any, false, if◌then◌else◌, ltb, leb, ◌==◌, utf8, utf8_bytes, arith,
  Bool-cases, inl, inr,
}

-- The characters that stay as they are
abbrev pub unreserved : ℕ → Bool
unreserved b =
    (leb b'A' b && leb b b'Z')
    || ((leb b'a' b && leb b b'z')
        || ((leb b'0' b && leb b b'9')
            || ((b == b'-') || ((b == b'_') || ((b == b'.') || (b == b'~'))))))

-- A digit of `{b:02X}`
abbrev hex : ℕ → ℕ
hex d = if ltb d 10 then b'0' + d else b'A' + (d - 10)

unfoldable pub encode_byte : ℕ → Text
encode_byte b = if unreserved b then b ∷ [] else b'%' ∷ hex (b / 16) ∷ hex (b % 16) ∷ []

unfoldable pub encode_bytes : List ℕ → Text
unfolding encode_byte
encode_bytes [] = []
encode_bytes (b ∷ bs) = encode_byte b ++ encode_bytes bs

unfoldable pub encode : Text → Text
unfolding encode_bytes
encode value = encode_bytes (utf8_bytes value)

-- The value of an upper-case digit
abbrev unhex : ℕ → ℕ
unhex c = if ltb c b'A' then c - b'0' else c - b'A' + 10

-- How a server reads a parameter: a `%` with its two digits is one byte.
unfoldable pub decode : Text → List ℕ
decode [] = []
decode (c ∷ []) = c ∷ []
decode (c ∷ x ∷ []) = c ∷ x ∷ []
decode (c ∷ x ∷ y ∷ s) =
    let byte = (unhex x * 16 + unhex y) ∷ decode s in
    let same = c ∷ decode (x ∷ y ∷ s) in if c == b'%' then byte else same

-- The characters that delimit the parts of a location, by RFC 3986
abbrev pub delimiters : Text
delimiters = codes ":/?#[]@!$&'()*+,;="

-- A visible ASCII character that delimits nothing
abbrev pub IsInert : ℕ → Type 0
IsInert c = (32 < c) × (c < 127) × (any (λ d. d == c) delimiters ≡ false)

decode-plain : (b : ℕ) (s : Text) → unreserved b ≡ true → decode (b ∷ s) ≡ b ∷ decode s
unfolding decode
decode-plain b [] h = refl
decode-plain b (x ∷ []) h = refl
decode-plain b (x ∷ y ∷ s) h = ground arith

unhex-hex : (d : ℕ) → d < 16 → unhex (hex d) ≡ d
unhex-hex d h = ground arith

decode-escaped :
    (b : ℕ) (s : Text) → b < 256 → decode (b'%' ∷ hex (b / 16) ∷ hex (b % 16) ∷ s) ≡ b ∷ decode s
unfolding decode
decode-escaped b s h =
    let high = unhex-hex (b / 16) (omega arith) in
    let low = unhex-hex (b % 16) (omega arith) in
    rw (high, low) (ap (λ n. n ∷ decode s) (omega arith))

decode-encode_byte : (b : ℕ) (s : Text) → b < 256 → decode (encode_byte b ++ s) ≡ b ∷ decode s
unfolding encode_byte
decode-encode_byte b s h = elim (Bool-cases (unreserved b)) [
  | inl e ↦ rw e (decode-plain b s e)
  | inr e ↦ rw e (decode-escaped b s h)
]

hex-IsInert : (d : ℕ) → d < 16 → IsInert (hex d)
hex-IsInert d h = (ground arith, ground arith, ground arith)

unreserved-IsInert : (b : ℕ) → unreserved b ≡ true → IsInert b
unreserved-IsInert b h = (ground arith, ground arith, ground arith)

encode_byte-IsInert : (b : ℕ) → b < 256 → All IsInert (encode_byte b)
unfolding encode_byte
encode_byte-IsInert b h = elim (Bool-cases (unreserved b)) [
  | inl e ↦ rw e (unreserved-IsInert b e, tt)
  | inr e ↦ rw e (
    (omega arith, omega arith, refl),
    (hex-IsInert (b / 16) (omega arith), (hex-IsInert (b % 16) (omega arith), tt)),
  )
]

bytes_read_back :
    (bs : List ℕ)
    → All (λ b. b < 256) bs
    → (decode (encode_bytes bs) ≡ bs) × All IsInert (encode_bytes bs)
unfolding encode_bytes decode
bytes_read_back [] a = (refl, tt)
bytes_read_back (b ∷ bs) a =
    let rest = bytes_read_back bs a.1 in
    (
      decode-encode_byte b (encode_bytes bs) a.0 ∙ ap (λ l. b ∷ l) rest.0,
      All-append IsInert (encode_byte b) (encode_bytes bs) (encode_byte-IsInert b a.0) rest.1,
    )

utf8_bytes-small : (s : Text) → All (λ c. c < 0x110000) s → All (λ b. b < 256) (utf8_bytes s)
utf8_bytes-small [] a = tt
utf8_bytes-small (c ∷ s) a =
    All-append (λ b. b < 256) (utf8 c) (utf8_bytes s) (small c a.0) (utf8_bytes-small s a.1)
  where
    small : (c : ℕ) → c < 0x110000 → All (λ b. b < 256) (utf8 c)
    small c h = ground arith

-- What is encoded holds visible ASCII characters only and none that delimits a part of a location, and a
-- server that reads the escapes gets the bytes of the text back, whatever the text is.
pub decode-encode :
    (value : Text)
    → All (λ c. c < 0x110000) value
    → (decode (encode value) ≡ utf8_bytes value) × All IsInert (encode value)
unfolding encode
decode-encode value a = bytes_read_back (utf8_bytes value) (utf8_bytes-small value a)
