-- ===== src/Provision/Plan/Whole.antt =====
-- The whole plan: what its descriptor says of every logical unit.
use flipperos_installer.Base.{
  ℕ, zero, suc, ap, Bool-cases, inl, inr, not, ◌||◌, ◌==◌, leb, ◌≤◌, ◌<◌, ◌^◌, ◌≡◌, ◌≢◌, refl, sym,
  subst, ◌∙◌, List, [], ◌∷◌, All, ok, panicked, >>=-eq-ok, >>=-ne_panicked, ok-ne_panicked,
  ok-injective, arith, div_ceil_by, mul64, min,
}
use flipperos_installer.Ufs.Device.{
  DeviceDescriptor, writebooster_supported, lu_block_has_writebooster,
}
use flipperos_installer.Ufs.Geometry.{GeometryDescriptor, total_alloc_units, alloc_unit_bytes}
use flipperos_installer.Ufs.Config.{lu, has_lu_writebooster}
use flipperos_installer.Ufs.Config.Layout.{IsUsable, IsShaped}
use flipperos_installer.Provision.Scheme.{
  Scheme, SchemeLu, validate, boot_lun_en, WbSize, mib, keyword,
}
use flipperos_installer.Provision.Scheme.Valid.{Distinct, IsReadable, IsValid, validate-IsValid}
use flipperos_installer.Provision.WriteBooster.{
  WbPlan, plan_writebooster, no_writebooster, requested_units, place_buffer, Request, disabled,
  to_u32_or, units,
}
use flipperos_installer.Provision.Plan.{
  SizedLu, Plan, plan, sized_units, start_descriptor, place_units,
}
use flipperos_installer.Provision.Plan.Placed.{
  WbFits, DistinctIds, IdsInRange, Others, Holds, place_units-Filled,
}
use flipperos_installer.Provision.Plan.Capacity.{entries, entries-sized_units}
use flipperos_installer.Provision.Plan.Start.{start_descriptor-IsBlank, IsBlank-disabled}
use flipperos_installer.Provision.Plan.NoPanic.{
  HasUnits, sized_units-ne_panicked, total_alloc_units-ne_panicked, place_units-ne_panicked,
  plan_writebooster-ne_panicked, boot_lun_en-ne_panicked,
}

-- A property of the units of a scheme, read at the entries of a list of sized units.
All-entries :
    (P : SchemeLu → Type 0) (us : List SizedLu) → All P (entries us) → All (λ u. P u.entry) us
All-entries P [] a = tt
All-entries P (u ∷ us) a = (a.0, All-entries P us a.1)

All-range : (us : List SizedLu) → All (λ u. IsReadable u.entry) us → IdsInRange us
All-range [] a = tt
All-range (u ∷ us) a = (a.0.in_range, All-range us a.1)

entries-DistinctIds : (us : List SizedLu) → Distinct (entries us) → DistinctIds us
entries-DistinctIds [] d = tt
entries-DistinctIds (u ∷ us) d =
    (All-entries (λ m. m.id ≢ u.entry.id) us d.0, entries-DistinctIds us d.1)

-- What the units of a plan for a valid scheme are like.
units_lem :
    (s : Scheme) (geo : GeometryDescriptor) (wb : WbPlan) (us : List SizedLu)
    → IsValid s
    → sized_units s geo wb ≡ ok us
    → DistinctIds us × IdsInRange us
units_lem s geo wb us v h =
    let e = sym (entries-sized_units s geo wb us h) in
    (
      entries-DistinctIds us (subst Distinct e v.distinct),
      All-range us (All-entries IsReadable us (subst (All IsReadable) e v.readable)),
    )

requested_units-lt :
    (size : WbSize) (geo : GeometryDescriptor) (n : ℕ)
    → geo.writebooster_max_alloc_units < 2 ^ 32
    → requested_units size geo ≡ ok (units n)
    → n < 2 ^ 32
unfolding requested_units
requested_units-lt (keyword k) geo n max h = ground arith
requested_units-lt (mib zero) geo n max h = ground arith
requested_units-lt (mib (suc m)) geo n max h =
    let (want, e, h') =
      >>=-eq-ok (div_ceil_by (mul64 (mul64 (suc m) 1024) 1024) (alloc_unit_bytes geo))
        (λ want. ok (
          units (
            to_u32_or (min want geo.writebooster_max_alloc_units)
              geo.writebooster_max_alloc_units)))
        h in
    ground arith

place_buffer-WbFits :
    (s : Scheme) (dev : DeviceDescriptor) (geo : GeometryDescriptor) (r : Request)
    → ((n : ℕ) → r ≡ units n → n < 2 ^ 32)
    → WbFits (place_buffer s dev geo r) (lu_block_has_writebooster dev)
unfolding place_buffer
place_buffer-WbFits s dev geo disabled h = record { small = omega arith; kept = λ p. ground arith }
place_buffer-WbFits s dev geo (units n) h =
    let lt = h n refl in record { small = ground arith; kept = λ p. ground arith }

plan_writebooster-WbFits :
    (s : Scheme) (dev : DeviceDescriptor) (geo : GeometryDescriptor) (wb : WbPlan)
    → geo.writebooster_max_alloc_units < 2 ^ 32
    → plan_writebooster s dev geo ≡ ok wb
    → WbFits wb (lu_block_has_writebooster dev)
unfolding plan_writebooster
plan_writebooster-WbFits s dev geo wb max h =
    elim (Bool-cases
      (not (writebooster_supported dev) || (geo.writebooster_max_alloc_units == 0))) [
        | inl off ↦
            subst (λ w. WbFits w (lu_block_has_writebooster dev))
              (ok-injective {a = no_writebooster} (rw off at h))
              (record { small = omega arith; kept = λ p. ground arith })
        | inr on ↦
            let (r, r_e, h') = >>=-eq-ok (requested_units s.writebooster.size geo) _ (rw on at h) in
            subst (λ w. WbFits w (lu_block_has_writebooster dev)) (ok-injective h')
              (place_buffer-WbFits s dev geo r
                (λ n e. requested_units-lt s.writebooster.size geo n max (r_e ∙ ap ok e)))
      ]

-- What a plan for a scheme puts on the device: the buffer, the sized units, and the descriptor.
pub record Realises (s : Scheme) (dev : DeviceDescriptor) (geo : GeometryDescriptor) (p : Plan)
    : Type 0 where
  pub buffer : WbPlan
  pub buffer_planned : plan_writebooster s dev geo ≡ ok buffer
  pub sizes : List SizedLu
  pub sizes_planned : sized_units s geo buffer ≡ ok sizes
  pub same_units : entries sizes ≡ s.lus
  pub shaped : IsShaped p.descriptor
  pub holds : All (Holds buffer p.descriptor) sizes
  pub rest_disabled :
      0x16 ≤ dev.ud0_base_offset → (j : ℕ) → Others j sizes → (lu p.descriptor j).enable ≡ 0
  pub boot : boot_lun_en s ≡ ok p.boot_lun_en

-- If `validate` accepts the scheme, the device's block layout is usable, the largest WriteBooster
-- buffer of the device fits 32 bits and `plan` succeeds, then its descriptor has the device's shape
-- and every unit of the scheme holds there what was computed for it; every other unit is disabled,
-- where the blocks start behind the header; and the boot attribute is the scheme's.
pub plan-Realises :
    (s : Scheme) (dev : DeviceDescriptor) (geo : GeometryDescriptor) (p : Plan)
    → validate s ≡ ok tt
    → IsUsable dev
    → geo.writebooster_max_alloc_units < 2 ^ 32
    → plan s dev geo ≡ ok p
    → Realises s dev geo p
unfolding plan has_lu_writebooster lu_block_has_writebooster
plan-Realises s dev geo p valid usable max h =
    let v = validate-IsValid s valid in
    let (total, total_e, h0) = >>=-eq-ok (total_alloc_units geo) _ h in
    let (wb, wb_e, h1) = >>=-eq-ok (plan_writebooster s dev geo) _ h0 in
    let (us, us_e, h2) = >>=-eq-ok (sized_units s geo wb) _ h1 in
    let (d, d_e, blank) = start_descriptor-IsBlank s dev wb usable in
    let (d0, d0_e, h3) = >>=-eq-ok (start_descriptor s dev wb) _ h2 in
    let same = ok-injective (sym d_e ∙ d0_e) in
    let (d', d'_e, h4) = >>=-eq-ok (place_units geo wb us d0) _ h3 in
    let (b, b_e, h5) = >>=-eq-ok (boot_lun_en s) _ h4 in
    let (distinct, range) = units_lem s geo wb us v us_e in
    let filled =
      place_units-Filled geo wb us d d' blank.shaped
        (subst (λ n. WbFits wb (leb 0x1A n)) (sym blank.same_stride)
          (plan_writebooster-WbFits s dev geo wb max wb_e))
        range distinct (subst (λ x. place_units geo wb us x ≡ ok d') (sym same) d'_e) in
    subst (Realises s dev geo) (ok-injective h5) (record {
      buffer = wb;
      buffer_planned = wb_e;
      sizes = us;
      sizes_planned = us_e;
      same_units = entries-sized_units s geo wb us us_e;
      shaped = filled.shaped;
      holds = filled.holds;
      rest_disabled =
          λ big j o. ap (λ l. l.enable) (filled.kept j o) ∙ IsBlank-disabled dev d j blank big;
      boot = b_e;
    })

-- `plan` does not panic on a scheme that `validate` accepts, a device with a usable block layout and
-- a geometry with a factor for each of the seven memory types and an allocation unit that is not empty.
pub plan-ne_panicked :
    (s : Scheme) (dev : DeviceDescriptor) (geo : GeometryDescriptor)
    → validate s ≡ ok tt
    → IsUsable dev
    → HasUnits geo
    → plan s dev geo ≢ panicked
unfolding plan
plan-ne_panicked s dev geo valid usable full =
    let v = validate-IsValid s valid in
    >>=-ne_panicked (total_alloc_units geo) _ (total_alloc_units-ne_panicked geo full) λ total _.
      >>=-ne_panicked (plan_writebooster s dev geo) _
        (plan_writebooster-ne_panicked s dev geo full.1)
        λ wb _.
          >>=-ne_panicked (sized_units s geo wb) _ (sized_units-ne_panicked s geo wb full) λ us e.
            let (_, range) = units_lem s geo wb us v e in
            let (d, d_e, blank) = start_descriptor-IsBlank s dev wb usable in
            >>=-ne_panicked (start_descriptor s dev wb) _ (λ q. ok-ne_panicked d (sym d_e ∙ q))
              λ d0 d0_e.
                let same = ok-injective (sym d_e ∙ d0_e) in
                >>=-ne_panicked (place_units geo wb us d0) _
                  (place_units-ne_panicked geo wb us d0 (subst IsShaped same blank.shaped) range)
                  λ d' _.
                    >>=-ne_panicked (boot_lun_en s) _ (boot_lun_en-ne_panicked s)
                      λ b _. ok-ne_panicked _
