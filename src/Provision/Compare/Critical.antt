-- ===== src/Provision/Compare/Critical.antt =====
-- What a comparison without critical mismatches says about the device.
use flipperos_installer.Base.{
  ℕ, ◌≡◌, ◌↔◌, refl, Bool, true, false, ◌||◌, List, [], ◌∷◌, ◌++◌, map, Text, any, All, text_eq_iff,
  ◌==◌, arith,
}
use flipperos_installer.Ufs.Codes.{memory_type_name}
use flipperos_installer.Ufs.Config.{ConfigDescriptor, LuConfig, enabled, lu, boot_enable}
use flipperos_installer.Provision.Plan.{Plan}
use flipperos_installer.Provision.Compare.{
  Mismatch, Subject, diff, diff_names, boot_lun_name, shl1, acceptable, compare_boot_lun,
  extra_mismatch, compare_fields, compare_unit, compare_units, compare_header, compare, unit_ids,
  has_critical, has_critical_write,
}

-- The two units are the same in everything that a reprovision is for.
abbrev FieldsAgree : LuConfig → LuConfig → Type 0
FieldsAgree w c =
    (memory_type_name w.memory_type ≡ memory_type_name c.memory_type)
    × (boot_lun_name w.boot_lun_id ≡ boot_lun_name c.boot_lun_id)
    × (w.num_alloc_units ≡ c.num_alloc_units)
    × (shl1 w.logical_block_size ≡ shl1 c.logical_block_size)

abbrev pub Agrees : LuConfig → LuConfig → Type 0
Agrees w c = (w.enable ≡ c.enable) × (enabled w ≡ true → FieldsAgree w c)

-- The device agrees with the wanted descriptor in the boot feature and in every unit.
abbrev pub LayoutAgrees : ConfigDescriptor → ConfigDescriptor → Type 0
LayoutAgrees want current =
    (boot_enable want ≡ boot_enable current) × All (λ i. Agrees (lu want i) (lu current i)) unit_ids

any-append {ℓ} :
    {A : Type ℓ} (p : A → Bool) (xs ys : List A) → any p (xs ++ ys) ≡ (any p xs || any p ys)
any-append p [] ys = refl
any-append p (x ∷ xs) ys = ground (arith, any-append p xs ys)

none-append {ℓ} :
    {A : Type ℓ} (p : A → Bool) (xs ys : List A)
    → (any p (xs ++ ys) ≡ false) ↔ ((any p xs ≡ false) × (any p ys ≡ false))
none-append p xs ys =
    (λ h. ground (arith, any-append p xs ys), λ h. ground (arith, any-append p xs ys))

-- A test of mismatches that reads the two flags, holds of what must be rewritten, and does not hold
-- of what is tolerated.
module _ (f : Bool → Bool → Bool) (hit : f true true ≡ true) (miss : f false true ≡ false) where
  abbrev marked : List Mismatch → Bool
  marked = any (λ m. f m.critical m.descriptor_write)

  append-quiet :
      (xs ys : List Mismatch)
      → (marked (xs ++ ys) ≡ false) ↔ ((marked xs ≡ false) × (marked ys ≡ false))
  append-quiet = none-append (λ m. f m.critical m.descriptor_write)

  diff-quiet : (s : Subject) (w h : ℕ) → (marked (diff true s w h) ≡ false) ↔ (w ≡ h)
  unfolding diff
  diff-quiet s w h = (λ e. ground arith, λ e. ground arith)

  diff_names-quiet : (s : Subject) (w h : Text) → (marked (diff_names true s w h) ≡ false) ↔ (w ≡ h)
  unfolding diff_names
  diff_names-quiet s w h =
      (λ e. ground (arith, text_eq_iff w h), λ e. ground (arith, text_eq_iff w h))

  diff-tolerated : (s : Subject) (w h : ℕ) → marked (diff false s w h) ≡ false
  unfolding diff
  diff-tolerated s w h = ground arith

  tolerated-append :
      (s : Subject) (w h : ℕ) (ys : List Mismatch)
      → marked ys ≡ false
      → marked (diff false s w h ++ ys) ≡ false
  tolerated-append s w h ys q = (append-quiet (diff false s w h) ys).1 (diff-tolerated s w h, q)

  fields-quiet :
      (i : ℕ) (w c : LuConfig) → (marked (compare_fields i w c) ≡ false) ↔ FieldsAgree w c
  unfolding compare_fields
  fields-quiet i w c = (to, from)
    where
      kind :
          (s : Subject)
          → (marked (
                diff_names true s (memory_type_name w.memory_type) (memory_type_name c.memory_type))
              ≡ false)
            ↔ (memory_type_name w.memory_type ≡ memory_type_name c.memory_type)
      kind s = diff_names-quiet s (memory_type_name w.memory_type) (memory_type_name c.memory_type)

      flag :
          (s : Subject)
          → (marked (diff_names true s (boot_lun_name w.boot_lun_id) (boot_lun_name c.boot_lun_id))
              ≡ false)
            ↔ (boot_lun_name w.boot_lun_id ≡ boot_lun_name c.boot_lun_id)
      flag s = diff_names-quiet s (boot_lun_name w.boot_lun_id) (boot_lun_name c.boot_lun_id)

      to : marked (compare_fields i w c) ≡ false → FieldsAgree w c
      to h =
          let a = (append-quiet _ _).0 h in
          let b = (append-quiet _ _).0 a.1 in
          let d = (append-quiet _ _).0 b.1 in
          let e = (append-quiet _ _).0 d.1 in
          ((kind _).0 a.0, (flag _).0 b.0, (diff-quiet _ _ _).0 d.0, (diff-quiet _ _ _).0 e.0)

      from : FieldsAgree w c → marked (compare_fields i w c) ≡ false
      from (k, g, u, b) = (append-quiet _ _).1 (
        (kind _).1 k,
        (append-quiet _ _).1 (
          (flag _).1 g,
          (append-quiet _ _).1 (
            (diff-quiet _ _ _).1 u,
            (append-quiet _ _).1 (
              (diff-quiet _ _ _).1 b,
              tolerated-append _ _ _ _
                  (tolerated-append _ _ _ _ (tolerated-append _ _ _ _ (diff-tolerated _ _ _))),
            ),
          ),
        ),
      )

  unit-quiet : (i : ℕ) (w c : LuConfig) → (marked (compare_unit i w c) ≡ false) ↔ Agrees w c
  unfolding compare_unit
  unit-quiet i w c =
      (λ h. ground (arith, fields-quiet i w c), λ a. ground (arith, fields-quiet i w c))

  units-quiet :
      (want current : ConfigDescriptor) (is : List ℕ)
      → (marked (compare_units want current is) ≡ false)
        ↔ All (λ i. Agrees (lu want i) (lu current i)) is
  unfolding compare_units
  units-quiet want current [] = (λ h. tt, λ a. refl)
  units-quiet want current (i ∷ is) = (
    λ h.
        let parts = (append-quiet _ _).0 h in
        (
          (unit-quiet i (lu want i) (lu current i)).0 parts.0,
          (units-quiet want current is).0 parts.1,
        ),
    λ a.
        (append-quiet _ _).1
          ((unit-quiet i (lu want i) (lu current i)).1 a.0, (units-quiet want current is).1 a.1),
  )

  header-quiet : (want current : ConfigDescriptor) → marked (compare_header want current) ≡ false
  unfolding compare_header
  header-quiet want current = tolerated-append _ _ _ _ (
      tolerated-append _ _ _ _ (
        tolerated-append _ _ _ _ (
          tolerated-append _ _ _ _ (
            tolerated-append _ _ _ _ (
              tolerated-append _ _ _ _
                (tolerated-append _ _ _ _ (tolerated-append _ _ _ _ (diff-tolerated _ _ _))))))))

  extra-quiet : (extra : List ℕ) → (marked (map extra_mismatch extra) ≡ false) ↔ (extra ≡ [])
  extra-quiet [] = (λ h. refl, λ e. refl)
  extra-quiet (x ∷ xs) = (λ h. ground arith, λ e. cc)

  -- Nothing is marked exactly when the layout agrees, no further unit is enabled, and the active
  -- boot unit is not marked.
  pub compare-quiet :
      (plan : Plan) (current : ConfigDescriptor) (en : ℕ) (extra : List ℕ)
      → (marked (compare plan current en extra) ≡ false) ↔ (
          LayoutAgrees plan.descriptor current
          × (marked (compare_boot_lun plan en) ≡ false)
          × (extra ≡ []))
  unfolding compare
  compare-quiet plan current en extra = (to, from)
    where
      to :
          marked (compare plan current en extra) ≡ false
          → LayoutAgrees plan.descriptor current
            × (marked (compare_boot_lun plan en) ≡ false)
            × (extra ≡ [])
      to h =
          let a = (append-quiet _ _).0 h in
          let b = (append-quiet _ _).0 a.1 in
          let c = (append-quiet _ _).0 b.1 in
          let d = (append-quiet _ _).0 c.1 in
          (((diff-quiet _ _ _).0 a.0, (units-quiet _ _ _).0 d.0), b.0, (extra-quiet extra).0 c.0)

      from :
          LayoutAgrees plan.descriptor current
            × (marked (compare_boot_lun plan en) ≡ false)
            × (extra ≡ [])
          → marked (compare plan current en extra) ≡ false
      from (a, b, c) = (append-quiet _ _).1 (
        (diff-quiet _ _ _).1 a.0,
        (append-quiet _ _).1 (
          b,
          (append-quiet _ _).1 (
            (extra-quiet extra).1 c,
            (append-quiet _ _).1 (
              (units-quiet plan.descriptor current unit_ids).1 a.1,
              header-quiet plan.descriptor current,
            ),
          ),
        ),
      )

pub boot_lun-quiet :
    (plan : Plan) (en : ℕ)
    → (has_critical (compare_boot_lun plan en) ≡ false)
      ↔ (any (λ id. id == en) (acceptable plan) ≡ true)
unfolding compare_boot_lun
boot_lun-quiet plan en = (λ h. ground arith, λ h. ground arith)

pub boot_lun-no_write :
    (plan : Plan) (en : ℕ) → has_critical_write (compare_boot_lun plan en) ≡ false
unfolding compare_boot_lun
boot_lun-no_write plan en = ground arith
