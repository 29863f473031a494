-- ===== src/Provision/Apply/ProbeReturns.antt =====
-- `probe` returns: it neither panics nor waits for ever.
use flipperos_installer.Base.{
  ℕ, ◌≡◌, ◌≢◌, refl, ap, sym, ◌∙◌, List, [], ◌∷◌, Result, ok, err, panicked, ok-ne_panicked,
  ok-injective, arith, zero, suc, ◌*◌,
}
use flipperos_installer.Ufs.Error.{Error as UfsError, UfsResult}
use flipperos_installer.Ufs.Bytes.{u8_at, u32_at}
use flipperos_installer.Ufs.Device.{DeviceDescriptor, parse_device}
use flipperos_installer.Ufs.Geometry.{GeometryDescriptor, parse_geometry, alloc_unit_sectors}
use flipperos_installer.Ufs.Config.{wrap_config, empty_config, set_conf_desc_continue}
use flipperos_installer.Ufs.Config.Layout.{IsUsable, parse_device-IsUsable}
use flipperos_installer.Ufs.World.{World, History, Io, and_then, ◌>>=◌, lift, attempt}
use flipperos_installer.Ufs.Query.{open_bsg, read_descriptor, read_attr, read_flag}
use flipperos_installer.Provision.Error.{Error, of_ufs}
use flipperos_installer.Provision.Scheme.{Scheme, Origin, validate}
use flipperos_installer.Provision.Plan.NoPanic.{HasUnits}
use flipperos_installer.Provision.Plan.Start.{cleared_lem}
use flipperos_installer.Provision.Plan.Whole.{plan-ne_panicked}
use flipperos_installer.Provision.Compare.{Target}
use flipperos_installer.Provision.Apply.{
  Readings, in_ufs, of_ufs_result, extra_descriptors, holds_units, read_device, status_of, probe,
}
use flipperos_installer.Ufs.Query.Returns.{
  Returns, and_then-Returns, >>=-Returns, if-Returns, attempt-Returns, open_bsg-Returns,
  read_descriptor-Returns, read_attr-Returns, read_flag-Returns,
}

pub in_ufs-Returns : {A : Type 0} → (m : Io UfsError A) → Returns m → Returns (in_ufs m)
in_ufs-Returns {A = A} m r h = lem (m h) (r h)
  where
    lem : (r : Result UfsError A × History) → r.0 ≢ panicked → (of_ufs_result r).0 ≢ panicked
    lem (ok a, h) n = λ p. cc
    lem (err e, h) n = λ p. cc
    lem (panicked, h) n = absurd (n refl)

module _ (w : World) where
  extra-Returns :
      (dev : DeviceDescriptor) (is : List ℕ) → IsUsable dev → Returns (extra_descriptors w dev is)
  unfolding extra_descriptors
  extra-Returns dev [] u = λ h p. cc
  extra-Returns dev (i ∷ is) u =
      let (d, e, built, marked) = cleared_lem dev u in
      >>=-Returns {E = Error} (attempt (read_descriptor w 0x01 i)) _
        (attempt-Returns Error (read_descriptor w 0x01 i) (read_descriptor-Returns w 0x01 i))
        λ bytes.
          if-Returns {E = Error} (holds_units dev bytes) _ _
            (λ h.
              and_then-Returns {E = Error} _ (lift (empty_config dev) h)
                (λ p. ok-ne_panicked d (sym built ∙ p))
                λ d' h1 q.
                  let same : d ≡ d' = ok-injective {E = Error} (sym built ∙ ap (λ r. r.0) q) in
                  >>=-Returns {E = Error} (lift (set_conf_desc_continue d' 1)) _
                    (λ h p.
                      ok-ne_panicked e (sym marked ∙ ap (λ x. set_conf_desc_continue x 1) same ∙ p))
                    (λ m.
                      >>=-Returns {E = Error} (extra_descriptors w dev is) _
                        (extra-Returns dev is u) λ rest h p. cc)
                    h1)
            (extra-Returns dev is u)

parse_device-ne_panicked : (buf : List ℕ) → parse_device buf ≢ panicked
unfolding parse_device
parse_device-ne_panicked buf p = ground arith

parse_geometry-ne_panicked : (buf : List ℕ) → parse_geometry buf ≢ panicked
unfolding parse_geometry
parse_geometry-ne_panicked buf p = ground arith

wrap_config-ne_panicked : (buf : List ℕ) (dev : DeviceDescriptor) → wrap_config buf dev ≢ panicked
unfolding wrap_config
wrap_config-ne_panicked buf dev p = ground arith

-- A product of two numbers that are not zero is not zero.
product_zero : (a b : ℕ) → a ≢ 0 → b ≢ 0 → a * b ≢ 0
product_zero zero b n m z = n refl
product_zero (suc a) zero n m z = m refl
product_zero (suc a) (suc b) n m z = omega (arith, z)

parse_geometry-HasUnits :
    (buf : List ℕ) (g : GeometryDescriptor) → parse_geometry buf ≡ ok g → HasUnits g
unfolding parse_geometry alloc_unit_sectors
parse_geometry-HasUnits buf g h =
    (ground arith, λ z. ground (arith, product_zero (u32_at buf 13) (u8_at buf 17)))

-- A call that has ended well: without a panic, and a value that it gives satisfies `P`.
abbrev Good : {A : Type 0} → (A → Type 0) → Result Error A × History → Type 0
Good P (ok a, h) = P a
Good P (err e, h) = Unit {0}
Good P (panicked, h) = ⊥

abbrev Gives : {A : Type 0} → (A → Type 0) → Io Error A → Type 0
Gives P m = (h : History) → Good P (m h)

module _ {A B : Type 0} (Q : A → Type 0) (P : B → Type 0) where
  Good-then :
      (next : A → Io Error B) (r : Result Error A × History)
      → Good Q r
      → ((a : A) → Q a → Gives P (next a))
      → Good P (and_then next r)
  Good-then next (ok a, h) g k = k a g h
  Good-then next (err e, h) g k = tt
  Good-then next (panicked, h) g k = g

  Gives-then :
      (m : Io Error A) (next : A → Io Error B)
      → Gives Q m
      → ((a : A) → Q a → Gives P (next a))
      → Gives P (m >>= next)
  Gives-then m next g k h = Good-then next (m h) (g h) k

abbrev Any : {A : Type 0} → A → Type 0
Any a = Unit {0}

Returns-Gives : {A : Type 0} → (m : Io Error A) → Returns m → Gives Any m
Returns-Gives {A = A} m r h = lem (m h) (r h)
  where
    lem : (r : Result Error A × History) → r.0 ≢ panicked → Good Any r
    lem (ok a, h) n = tt
    lem (err e, h) n = tt
    lem (panicked, h) n = n refl

Gives-Returns : {A : Type 0} → (P : A → Type 0) (m : Io Error A) → Gives P m → Returns m
Gives-Returns {A = A} P m g h = lem (m h) (g h)
  where
    lem : (r : Result Error A × History) → Good P r → r.0 ≢ panicked
    lem (ok a, h) n = λ p. cc
    lem (err e, h) n = λ p. cc
    lem (panicked, h) n = absurd n

parsed-Gives :
    {A : Type 0}
    → (P : A → Type 0) (r : UfsResult A) → r ≢ panicked
    → ((a : A) → r ≡ ok a → P a)
    → Gives P (lift (of_ufs r))
parsed-Gives P (ok a) n k h = k a refl
parsed-Gives P (err e) n k h = tt
parsed-Gives P panicked n k h = n refl

abbrev IsPlannable : Readings → Type 0
IsPlannable r = IsUsable r.dev × HasUnits r.geo

-- A step of the descriptor code, and one whose error is handled.
reads :
    {A : Type 0}
    → (m : Io UfsError A) (next : A → Io Error Readings) → Returns m
    → ((a : A) → Gives IsPlannable (next a))
    → Gives IsPlannable (in_ufs m >>= next)
reads m next r k =
    Gives-then Any IsPlannable (in_ufs m) next (Returns-Gives (in_ufs m) (in_ufs-Returns m r))
      λ a _. k a

tries :
    {A : Type 0}
    → (m : Io UfsError A) (next : Result UfsError A → Io Error Readings) → Returns m
    → ((a : Result UfsError A) → Gives IsPlannable (next a))
    → Gives IsPlannable (attempt m >>= next)
tries m next r k =
    Gives-then Any IsPlannable (attempt m) next
      (Returns-Gives (attempt m) (attempt-Returns Error m r)) λ a _. k a

module _ (w : World) where
  read_device-Gives : (target : Target) → Gives IsPlannable (read_device w target)
  unfolding read_device
  read_device-Gives target = reads (open_bsg w target.bsg) _ (open_bsg-Returns w target.bsg) λ _.
      reads (read_descriptor w 0x00 0) _ (read_descriptor-Returns w 0x00 0) λ dev_bytes.
        Gives-then IsUsable IsPlannable (lift (of_ufs (parse_device dev_bytes))) _
          (parsed-Gives IsUsable (parse_device dev_bytes) (parse_device-ne_panicked dev_bytes)
            (λ dev e. parse_device-IsUsable dev_bytes dev e))
          λ dev usable.
            reads (read_descriptor w 0x07 0) _ (read_descriptor-Returns w 0x07 0) λ geo_bytes.
              Gives-then HasUnits IsPlannable (lift (of_ufs (parse_geometry geo_bytes))) _
                (parsed-Gives HasUnits (parse_geometry geo_bytes)
                  (parse_geometry-ne_panicked geo_bytes)
                  (λ geo e. parse_geometry-HasUnits geo_bytes geo e))
                λ geo full.
                  reads (read_descriptor w 0x01 0) _ (read_descriptor-Returns w 0x01 0) λ cfg_bytes.
                    Gives-then Any IsPlannable (lift (of_ufs (wrap_config cfg_bytes dev))) _
                      (parsed-Gives Any (wrap_config cfg_bytes dev)
                        (wrap_config-ne_panicked cfg_bytes dev) (λ d e. tt))
                      λ current _. reads (read_attr w 0x00) _ (read_attr-Returns w 0x00) λ boot.
                        reads (read_attr w 0x0B) _ (read_attr-Returns w 0x0B) λ lock.
                          tries (read_flag w 0x03) _ (read_flag-Returns w 0x03) λ power_on.
                            tries (read_flag w 0x02) _ (read_flag-Returns w 0x02) λ permanent.
                              Gives-then Any IsPlannable (extra_descriptors w dev _) _
                                (Returns-Gives _ (extra-Returns w dev _ usable))
                                λ clear _ h. (usable, full)

  -- Probing with a valid scheme always returns: a status or an error.
  pub probe-Returns :
      (target : Target) (scheme : Scheme) (origin : Origin)
      → validate scheme ≡ ok tt
      → Returns (probe w target scheme origin)
  unfolding probe status_of
  probe-Returns target scheme origin valid = Gives-Returns Any (probe w target scheme origin) (
      Gives-then IsPlannable Any (read_device w target) _ (read_device-Gives target) λ r fine.
        Returns-Gives _
          λ h p. ground (arith, plan-ne_panicked scheme r.dev r.geo valid fine.0 fine.1))
