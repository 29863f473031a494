-- ===== src/Base/Chars.antt =====
-- Text as its list of code points, which are the bytes of ASCII text.
use Prim.Native.Nat.{ℕ, zero, suc, ◌+◌, ◌-◌, ◌/◌, ◌%◌}
use Prim.Native.Char.{code}
use Prim.Native.String.{String}
use mathlib.Core.Path.{◌≡◌, refl, ap}
use mathlib.Core.Logic.{◌↔◌, ◌≢◌}
use flipperos_installer.Base.Lists.{any, length, length-append}
use mathlib.Core.Bool.{Bool, true, false, ◌&&◌}
use mathlib.Core.List.{List, [], ◌∷◌, ◌++◌, map}
use mathlib.Core.Option
use mathlib.Core.Option.{Option, none, some}
use native.Mathlib.Omega.{arith}
use flipperos_installer.Base.Tests.{
  ltb, leb, ◌==◌, if◌then◌else◌, Bool-cases, Option-cases, ==-refl,
}
use mathlib.Core.Logic.{inl, inr}

abbrev pub Text : Type 0
Text = List ℕ

-- A literal of the source.
abbrev pub codes : String → Text
codes String.[] = []
codes (String.◌∷◌ c s) = code c ∷ codes s

unfoldable pub text_eq : Text → Text → Bool
text_eq [] [] = true
text_eq [] (d ∷ t) = false
text_eq (c ∷ s) [] = false
text_eq (c ∷ s) (d ∷ t) = (c == d) && text_eq s t

-- `u8::to_ascii_lowercase` and `to_ascii_uppercase`
unfoldable pub lower : ℕ → ℕ
lower c = if leb b'A' c && leb c b'Z' then c + 32 else c

unfoldable pub upper : ℕ → ℕ
upper c = if leb b'a' c && leb c b'z' then c - 32 else c

abbrev pub to_lower : Text → Text
to_lower = map lower

abbrev pub to_upper : Text → Text
to_upper = map upper

-- `str::eq_ignore_ascii_case`
unfoldable pub eq_ignore_case : Text → Text → Bool
unfolding text_eq lower
eq_ignore_case s t = text_eq (to_lower s) (to_lower t)

-- `str::strip_prefix`
unfoldable pub strip_prefix : Text → Text → Option Text
strip_prefix [] s = some s
strip_prefix (c ∷ p) [] = none
strip_prefix (c ∷ p) (d ∷ s) = if c == d then strip_prefix p s else none

-- `str::starts_with`
unfoldable pub starts_with : Text → Text → Bool
starts_with [] s = true
starts_with (c ∷ p) [] = false
starts_with (c ∷ p) (d ∷ s) = (c == d) && starts_with p s

abbrev pub is_empty : Text → Bool
is_empty [] = true
is_empty (c ∷ s) = false

-- `{n}` in a format: the decimal digits, on fuel that `n + 1` rounds never use up.
unfoldable pub digits : ℕ → ℕ → Text
digits zero n = []
digits (suc fuel) n =
    let rest = digits fuel (n / 10) ++ ((48 + n % 10) ∷ []) in
    if ltb n 10 then (48 + n) ∷ [] else rest

unfoldable pub decimal : ℕ → Text
unfolding digits
decimal n = digits (n + 1) n

-- `str::strip_suffix`
unfoldable pub strip_suffix : Text → Text → Option Text
unfolding text_eq
strip_suffix p [] = if text_eq [] p then some [] else none
strip_suffix p (c ∷ s) =
    let rest = Option.map (λ r. c ∷ r) (strip_suffix p s) in
    if text_eq (c ∷ s) p then some [] else rest

-- `rsplit_once`: the text before the last such character and the text behind it.
unfoldable pub split_last : ℕ → Text → Option (Text × Text)
split_last c [] = none
split_last c (d ∷ s) = elim (split_last c s) [
  | some (a, b) ↦ some (d ∷ a, b)
  | none ↦ if d == c then some ([], s) else none
]

-- The bytes of a character in UTF-8, and those of a text
abbrev pub utf8 : ℕ → List ℕ
utf8 c =
    if ltb c 0x80
    then c ∷ []
    else if ltb c 0x800
    then (0xc0 + c / 64) ∷ (0x80 + c % 64) ∷ []
    else if ltb c 0x10000
    then (0xe0 + c / 4096) ∷ (0x80 + c / 64 % 64) ∷ (0x80 + c % 64) ∷ []
    else (0xf0 + c / 262144) ∷ (0x80 + c / 4096 % 64) ∷ (0x80 + c / 64 % 64) ∷ (0x80 + c % 64) ∷ []

abbrev pub utf8_bytes : Text → List ℕ
utf8_bytes [] = []
utf8_bytes (c ∷ s) = utf8 c ++ utf8_bytes s

-- `==` of an option with `Some(text)`
abbrev pub is_text : Option Text → Text → Bool
is_text none t = false
is_text (some s) t = text_eq s t

-- `str::trim_end_matches` and `trim_start_matches` of one character
unfoldable pub trim_start : ℕ → Text → Text
trim_start c [] = []
trim_start c (d ∷ s) = if d == c then trim_start c s else d ∷ s

unfoldable pub trim_end : ℕ → Text → Text
trim_end c [] = []
trim_end c (d ∷ s) = elim (trim_end c s) [ [] ↦ if d == c then [] else d ∷ [] | e ∷ t ↦ d ∷ e ∷ t ]

-- `str::split_once`: the text before the first such character and the text behind it.
unfoldable pub split_once : ℕ → Text → Option (Text × Text)
split_once c [] = none
split_once c (d ∷ s) =
    if d == c then some ([], s) else Option.map (λ parts. (d ∷ parts.0, parts.1)) (split_once c s)

pub text_eq_refl : (s : Text) → text_eq s s ≡ true
unfolding text_eq
text_eq_refl [] = refl
text_eq_refl (c ∷ s) = ground (arith, text_eq_refl s)

pub text_eq_sound : (s t : Text) → text_eq s t ≡ true → s ≡ t
unfolding text_eq
text_eq_sound [] [] h = refl
text_eq_sound [] (d ∷ t) h = cc
text_eq_sound (c ∷ s) [] h = cc
text_eq_sound (c ∷ s) (d ∷ t) h = ground (arith, text_eq_sound s t)

pub text_eq_iff : (s t : Text) → (text_eq s t ≡ true) ↔ (s ≡ t)
text_eq_iff s t = (text_eq_sound s t, λ e. rw e (text_eq_refl t))

pub strip_suffix-append : (p s : Text) {r : Text} → strip_suffix p s ≡ some r → s ≡ r ++ p
unfolding strip_suffix text_eq
strip_suffix-append p [] h = ground (arith, text_eq_sound [] p)
strip_suffix-append p (c ∷ s) h = elim (Bool-cases (text_eq (c ∷ s) p)) [
  | inl e ↦ ground (arith, text_eq_sound (c ∷ s) p)
  | inr e ↦ elim (Option-cases (strip_suffix p s)) [
    | inl n ↦ ground arith
    | inr (t, q) ↦ ground (arith, strip_suffix-append p s q)
  ]
]

pub strip_prefix-append : (p s : Text) {r : Text} → strip_prefix p s ≡ some r → s ≡ p ++ r
unfolding strip_prefix
strip_prefix-append [] s {r} h = ground arith
strip_prefix-append (c ∷ p) [] {r} h = cc
strip_prefix-append (c ∷ p) (d ∷ s) {r} h = ground (arith, strip_prefix-append p s {r = r})

pub strip_prefix-of_append : (p r : Text) → strip_prefix p (p ++ r) ≡ some r
unfolding strip_prefix
strip_prefix-of_append [] r = refl
strip_prefix-of_append (c ∷ p) r = ground (arith, strip_prefix-of_append p r)

longer-ne : (c : ℕ) (r p : Text) → c ∷ r ++ p ≢ p
longer-ne c r p h = absurd (omega (arith, ap length h, length-append (c ∷ r) p))

pub strip_suffix-of_append : (p r : Text) → strip_suffix p (r ++ p) ≡ some r
unfolding strip_suffix text_eq
strip_suffix-of_append [] [] = refl
strip_suffix-of_append (c ∷ p) [] = ground (arith, text_eq_refl p)
strip_suffix-of_append p (c ∷ r) = elim (Bool-cases (text_eq (c ∷ r ++ p) p)) [
  | inl e ↦ absurd (longer-ne c r p (text_eq_sound _ _ e))
  | inr e ↦ rw (e, strip_suffix-of_append p r)
]

-- A character that a text does not have
abbrev pub Lacks : ℕ → Text → Type 0
Lacks c s = any (λ d. d == c) s ≡ false

pub split_last-none : (c : ℕ) (s : Text) → Lacks c s → split_last c s ≡ none
unfolding split_last
split_last-none c [] a = refl
split_last-none c (d ∷ s) a = ground (arith, split_last-none c s)

-- A text splits at its last such character.
pub split_last-append : (c : ℕ) (a s : Text) → Lacks c s → split_last c (a ++ (c ∷ s)) ≡ some (a, s)
unfolding split_last
split_last-append c [] s l = rw (split_last-none c s l, ==-refl c)
split_last-append c (d ∷ a) s l = rw (split_last-append c a s l)
