-- ===== src/Install/Guards/Spare.antt =====
-- Which boot unit an installation writes: the board keeps the one that it boots from.
use flipperos_installer.Base.{
  ℕ, ◌≡◌, ◌≢◌, refl, Bool, true, false, ◌==◌, ◌⊎◌, inl, inr, Option, none, some, Text, ok,
  if◌then◌else◌, arith,
}
use flipperos_installer.Ufs.Codes.{boot_lun_none}
use flipperos_installer.Install.Guards.{BootLuPlan, spare_boot_lu, first_boot_lu, boot_lu_plan}

-- The plan is for a unit whose node is there, which is one of the two boot units, or the one that is
-- active; where the other unit than the active one has a node, that one is not active.
abbrev pub IsSpareFirst : ℕ → (ℕ → Option Text) → Option BootLuPlan → Type 0
IsSpareFirst active node_of none =
    (node_of (spare_boot_lu active) ≡ none) × ((active ≡ boot_lun_none) ⊎ (node_of active ≡ none))
IsSpareFirst active node_of (some plan) =
    (node_of plan.id ≡ some plan.node)
    × (plan.active ≡ active)
    × (((plan.id ≡ spare_boot_lu active) × (plan.id ≢ active))
        ⊎ ((plan.id ≡ active) × (active ≢ boot_lun_none) × (node_of (spare_boot_lu active) ≡ none)))

spare-ne : (active : ℕ) → spare_boot_lu active ≢ active
unfolding spare_boot_lu
spare-ne active e = ground arith

spare-ne-none : (active : ℕ) → (spare_boot_lu active == boot_lun_none) ≡ false
unfolding spare_boot_lu
spare-ne-none active = ground arith

-- With the active unit known, a plan is for the other boot unit, which is not the active one, if that
-- has a node, and else for the active one, if there is one and it has a node; and it is for a node
-- that the unit has. There is no plan only where neither has a node, or where no unit is active.
pub boot_lu_plan-IsSpareFirst :
    (active : ℕ) (node_of : ℕ → Option Text)
    → IsSpareFirst active node_of (boot_lu_plan (ok active) node_of)
unfolding boot_lu_plan first_boot_lu
boot_lu_plan-IsSpareFirst active node_of = rw (spare-ne-none active) (
    chosen (node_of (spare_boot_lu active)) (node_of active) (active == boot_lun_none) refl refl
      refl)
  where
    planned : ℕ → Text → BootLuPlan
    planned id node = record { node = node; id = id; active = active }

    chosen :
        (spare own : Option Text) (b : Bool)
        → node_of (spare_boot_lu active) ≡ spare
        → node_of active ≡ own
        → (active == boot_lun_none) ≡ b
        → IsSpareFirst active node_of (elim spare [
          | none ↦
              if b then none else elim own [ none ↦ none | some node ↦ some (planned active node) ]
          | some node ↦ some (planned (spare_boot_lu active) node)
        ])
    chosen (some node) own b e e' q = (e, refl, inl (refl, spare-ne active))
    chosen none own true e e' q = (e, inl (ground arith))
    chosen none none false e e' q = (e, inr e')
    chosen none (some node) false e e' q = (e', refl, inr (refl, (λ p. ground arith), e))
