-- ===== src/Provision/Scheme/Resolve.antt =====
-- Where the scheme that `Scheme::resolve` gives comes from.
use flipperos_installer.Base.{
  ◌≡◌, ◌⊎◌, inl, inr, refl, Option, none, some, Text, Result, ok, ok-injective, subst, >>=-eq-ok,
  ◌>>=◌, Result-cases, arith, eq_ignore_case, upper,
}
use flipperos_installer.Ufs.Codes.{memory_type_from_name}
use flipperos_installer.Provision.Error.{Error}
use flipperos_installer.Provision.Scheme.{
  Scheme, Origin, built_in, default_scheme, file, rejected, unreadable, embedded_default, validate,
  parse, resolve, check_units, boot_lun_en, memory_type_code, provisioning_code, boot_lun_code,
  is_power_of_two, trailing_zeros, logical_block_size_exponent,
}

-- The built-in scheme passes its own check.
pub default_scheme_validates : validate default_scheme ≡ ok tt
unfolding validate check_units boot_lun_en memory_type_code provisioning_code boot_lun_code
    is_power_of_two trailing_zeros logical_block_size_exponent memory_type_from_name eq_ignore_case
    upper
default_scheme_validates = refl

module _ (from_toml : Text → Result Text Scheme) (read_to_string : Text → Result Text Text) where
  parse-validates :
      (text : Text) (s : Scheme) → parse from_toml read_to_string text ≡ ok s → validate s ≡ ok tt
  unfolding parse
  parse-validates text s h = ground arith

  embedded_default_validates :
      (default_text : Text) (s : Scheme)
      → embedded_default from_toml read_to_string default_text ≡ ok s
      → validate s ≡ ok tt
  unfolding embedded_default parse
  embedded_default_validates default_text s h = ground arith

  -- What `resolve` gives: a valid scheme, the built-in one or what the file holds.
  abbrev pub Given : (default_text : Text) → Option Text → Scheme × Origin → Type 0
  Given default_text path (s, o) =
      (validate s ≡ ok tt)
      × ((embedded_default from_toml read_to_string default_text ≡ ok s)
          ⊎ ((p text : Text) × (path ≡ some p)
              × (o ≡ file p)
              × (read_to_string p ≡ ok text)
              × (parse from_toml read_to_string text ≡ ok s)))

  falls_back :
      (default_text : Text) (path : Option Text) (o : Origin) (r : Scheme × Origin)
      → (embedded_default from_toml read_to_string default_text >>= λ s. ok (s, o)) ≡ ok r
      → Given default_text path r
  falls_back default_text path o r h =
      let (s, e, k) = >>=-eq-ok (embedded_default from_toml read_to_string default_text) _ h in
      subst (Given default_text path) (ok-injective k)
        (embedded_default_validates default_text s e, inl e)

  -- Whatever the scheme file holds, the scheme in force is one that `validate` accepts, and a scheme
  -- other than the built-in one is what parsing the named file gave.
  pub resolve-Given :
      (default_text : Text) (path : Option Text) (r : Scheme × Origin)
      → resolve from_toml read_to_string default_text path ≡ ok r
      → Given default_text path r
  unfolding resolve
  resolve-Given default_text none r h = falls_back default_text none built_in r h
  resolve-Given default_text (some p) r h = elim (Result-cases (read_to_string p)) [
    | inl (text, e) ↦ elim (Result-cases (parse from_toml read_to_string text)) [
      | inl (s, e') ↦
          subst (Given default_text (some p)) (ok-injective {E = Error} {a = (s, file p)} cc)
            (parse-validates text s e', inr (p, text, refl, refl, e, e'))
      | inr (inl (x, e')) ↦
          falls_back default_text (some p) (rejected x) r (rw (resolve, e, e') at h)
      | inr (inr e') ↦ ground arith
    ]
    | inr (inl (x, e)) ↦ falls_back default_text (some p) (unreadable p x) r (rw (resolve, e) at h)
    | inr (inr e) ↦ ground arith
  ]
