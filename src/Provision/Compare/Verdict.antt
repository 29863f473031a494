-- ===== src/Provision/Compare/Verdict.antt =====
-- The verdicts of `Status` on a device: provisioned or not, and rewritten or only switched.
use flipperos_installer.Base.{
  ℕ, ◌≡◌, ◌↔◌, refl, ap, Bool, true, false, not, ◌&&◌, List, [], ◌∷◌, Text, any, text_eq_refl,
  ==-refl, ◌==◌, if◌then◌else◌, arith,
}
use flipperos_installer.Ufs.Config.{ConfigDescriptor, LuConfig, enabled}
use flipperos_installer.Provision.Plan.{Plan}
use flipperos_installer.Provision.Compare.{
  Subject, diff, diff_names, acceptable, compare_boot_lun, compare_fields, compare_unit,
  compare_units, compare_header, compare, Status, is_provisioned, needs_descriptor_write,
}
use flipperos_installer.Provision.Compare.Critical.{
  LayoutAgrees, compare-quiet, boot_lun-quiet, boot_lun-no_write,
}

-- `s` holds the comparison of `current` with its own plan.
abbrev pub Compared : Status → ConfigDescriptor → ℕ → List ℕ → Type 0
Compared s current en extra = s.mismatches ≡ compare s.plan current en extra

-- A status that holds the comparison of a device with its plan counts as provisioned exactly when
-- the boot feature and all eight logical units agree with the plan, the active boot unit is one that
-- the plan accepts, and no unit above the eighth is enabled.
pub is_provisioned_iff :
    (s : Status) (current : ConfigDescriptor) (en : ℕ) (extra : List ℕ)
    → Compared s current en extra
    → (is_provisioned s ≡ true) ↔ (
        LayoutAgrees s.plan.descriptor current
        × (any (λ id. id == en) (acceptable s.plan) ≡ true)
        × (extra ≡ []))
unfolding is_provisioned
is_provisioned_iff s current en extra e =
    let quiet = compare-quiet (λ c w. c) refl refl s.plan current en extra in
    let active = boot_lun-quiet s.plan en in
    (
      λ h.
          let (layout, boot, more) = quiet.0 (rw e at (not-true h)) in
          (layout, active.0 boot, more),
      λ (layout, boot, more). rw e (ap not (quiet.1 (layout, active.1 boot, more))),
    )
  where
    not-true : {b : Bool} → not b ≡ true → b ≡ false
    not-true h = ground arith

-- A status that holds the comparison of a device with its plan asks for no descriptor write exactly
-- when the layout agrees and no unit above the eighth is enabled: the active boot unit alone never
-- asks for one.
pub needs_descriptor_write_iff :
    (s : Status) (current : ConfigDescriptor) (en : ℕ) (extra : List ℕ)
    → Compared s current en extra
    → (needs_descriptor_write s ≡ false) ↔ (LayoutAgrees s.plan.descriptor current × (extra ≡ []))
unfolding needs_descriptor_write
needs_descriptor_write_iff s current en extra e =
    let quiet = compare-quiet (λ c w. c && w) refl refl s.plan current en extra in
    (
      λ h. let (layout, boot, more) = quiet.0 (rw e at h) in (layout, more),
      λ (layout, more). rw e (quiet.1 (layout, boot_lun-no_write s.plan en, more)),
    )

diff_self : (c : Bool) (s : Subject) (n : ℕ) → diff c s n n ≡ []
unfolding diff
diff_self c s n = ground arith

diff_names_self : (c : Bool) (s : Subject) (t : Text) → diff_names c s t t ≡ []
unfolding diff_names
diff_names_self c s t = rw (text_eq_refl t)

unit_self : (i : ℕ) (w : LuConfig) → compare_unit i w w ≡ []
unfolding compare_unit compare_fields
unit_self i w = rw (==-refl w.enable) (fields (enabled w))
  where
    fields : (b : Bool) → (if b then compare_fields i w w else []) ≡ []
    fields true = simp (diff_self, diff_names_self)
    fields false = refl

units_self : (d : ConfigDescriptor) (is : List ℕ) → compare_units d d is ≡ []
unfolding compare_units
units_self d [] = refl
units_self d (i ∷ is) = simp (unit_self, units_self d is)

header_self : (d : ConfigDescriptor) → compare_header d d ≡ []
unfolding compare_header
header_self d = simp diff_self

-- A device that reads back as the plan's own descriptor, with an accepted active boot unit, has no
-- mismatch at all, not even a tolerated one.
pub compare_self :
    (plan : Plan) (en : ℕ)
    → any (λ id. id == en) (acceptable plan) ≡ true
    → compare plan plan.descriptor en [] ≡ []
unfolding compare compare_boot_lun
compare_self plan en h = rw h (simp (diff_self, units_self, header_self))
