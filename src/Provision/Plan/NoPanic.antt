-- ===== src/Provision/Plan/NoPanic.antt =====
-- No step of `plan` panics: every index is in range.
use flipperos_installer.Base.{
  ℕ, zero, suc, get_elem?, ◌<◌, ◌≡◌, ◌≢◌, refl, not, List, [], ◌∷◌, Option-cases, inl, inr, Option,
  none, some, panicked, map, sub64, add64, ok-ne_panicked, >>=-ne_panicked, bail_if-ne_panicked,
  bail_if, length, arith, if◌then◌else◌, ok, err, div_by-ne_panicked, div_ceil_by,
  div_ceil_by-ne_panicked,
}
use flipperos_installer.Ufs.Device.{DeviceDescriptor}
use flipperos_installer.Ufs.Geometry.{
  GeometryDescriptor, cap_adj_fac, memory_type_index, supports_memory_type, total_alloc_units,
  alloc_unit_sectors, alloc_unit_bytes,
}
use flipperos_installer.Ufs.Config.{ConfigDescriptor, set_lu, LuConfig}
use flipperos_installer.Ufs.Config.Layout.{IsShaped, set_lu_lem}
use flipperos_installer.Provision.Error.{Error, ProvisionResult, of_ufs}
use flipperos_installer.Ufs.Error.{UfsResult}
use flipperos_installer.Provision.Scheme.{
  Scheme, SchemeLu, boot_lun_code, logical_block_size_exponent, provisioning_code, memory_type_code,
  is_unsized, boot_lun_en, WbSize, mib, keyword,
}
use flipperos_installer.Provision.WriteBooster.{WbPlan, plan_writebooster, requested_units}
use flipperos_installer.Provision.Plan.Placed.{IdsInRange, place_unit-IsShaped}
use flipperos_installer.Provision.Plan.{
  fill, memory_type_ceilings, SizedLu, lu_config, place_unit, place_units, fixed_count, size_unit,
  size_units, check_ceilings, sized_units, alloc_units_for,
}

pub boot_lun_code-ne_panicked : (l : SchemeLu) → boot_lun_code l ≢ panicked
unfolding boot_lun_code
boot_lun_code-ne_panicked l e = ground arith

pub exponent-ne_panicked : (l : SchemeLu) → logical_block_size_exponent l ≢ panicked
unfolding logical_block_size_exponent
exponent-ne_panicked l e = ground arith

pub provisioning_code-ne_panicked : (l : SchemeLu) → provisioning_code l ≢ panicked
unfolding provisioning_code
provisioning_code-ne_panicked l e = ground arith

pub memory_type_code-ne_panicked : (l : SchemeLu) → memory_type_code l ≢ panicked
unfolding memory_type_code
memory_type_code-ne_panicked l e = ground arith

pub boot_lun_en-ne_panicked : (s : Scheme) → boot_lun_en s ≢ panicked
unfolding boot_lun_en
boot_lun_en-ne_panicked s e = ground arith

lu_config-ne_panicked : (wb : WbPlan) (u : SizedLu) → lu_config wb u ≢ panicked
unfolding lu_config
lu_config-ne_panicked wb u e = ground (
  arith,
  boot_lun_code-ne_panicked u.entry,
  exponent-ne_panicked u.entry,
  provisioning_code-ne_panicked u.entry,
)

requested_units-ne_panicked :
    (size : WbSize) (geo : GeometryDescriptor)
    → alloc_unit_sectors geo ≢ 0
    → requested_units size geo ≢ panicked
unfolding requested_units alloc_unit_bytes
requested_units-ne_panicked (keyword k) geo n = λ e. ground arith
requested_units-ne_panicked (mib zero) geo n = λ e. ground arith
requested_units-ne_panicked (mib (suc m)) geo n =
    >>=-ne_panicked (div_ceil_by _ (alloc_unit_bytes geo)) _
      (div_ceil_by-ne_panicked _ (alloc_unit_bytes geo) (λ z. n (omega (arith, z))))
      λ want _. ok-ne_panicked _

pub plan_writebooster-ne_panicked :
    (s : Scheme) (dev : DeviceDescriptor) (geo : GeometryDescriptor)
    → alloc_unit_sectors geo ≢ 0
    → plan_writebooster s dev geo ≢ panicked
unfolding plan_writebooster
plan_writebooster-ne_panicked s dev geo n e =
    ground (arith, requested_units-ne_panicked s.writebooster.size geo n)

get_elem?-in : (xs : List ℕ) (i : ℕ) → i < length xs → (a : ℕ) × (get_elem? xs i ≡ some a)
get_elem?-in [] i h = absurd (omega arith)
get_elem?-in (x ∷ xs) zero h = (x, refl)
get_elem?-in (x ∷ xs) (suc i) h = get_elem?-in xs i (omega arith)

memory_type_index-lt : (t i : ℕ) → memory_type_index t ≡ some i → i < 7
unfolding memory_type_index
memory_type_index-lt t i h = ground arith

-- The table of factors has an entry for every memory type, and an allocation unit is not empty.
abbrev pub HasUnits : GeometryDescriptor → Type 0
HasUnits geo = (length geo.cap_adj_fac_table ≡ 7) × (alloc_unit_sectors geo ≢ 0)

pub total_alloc_units-ne_panicked :
    (geo : GeometryDescriptor)
    → HasUnits geo
    → ◌≢◌ {A = ProvisionResult ℕ} (total_alloc_units geo) panicked
unfolding total_alloc_units
total_alloc_units-ne_panicked geo full = div_by-ne_panicked _ _ full.1

cap_adj_fac-ne_panicked :
    (geo : GeometryDescriptor) (t : ℕ) → HasUnits geo → cap_adj_fac geo t ≢ panicked
unfolding cap_adj_fac
cap_adj_fac-ne_panicked geo t full e = elim (Option-cases (memory_type_index t)) [
  | inl none' ↦ ground arith
  | inr (i, at) ↦
      let (a, got) =
        get_elem?-in geo.cap_adj_fac_table i (omega (arith, memory_type_index-lt t i at, full.0)) in
      ground arith
]

of_ufs-ne_panicked : {A : Type 0} → (r : UfsResult A) → r ≢ panicked → of_ufs r ≢ panicked
of_ufs-ne_panicked (ok a) n = λ p. cc
of_ufs-ne_panicked (err e) n = λ p. cc
of_ufs-ne_panicked panicked n = absurd (n refl)

fixed_count-ne_panicked :
    (geo : GeometryDescriptor) (t : ℕ) (size : Option ℕ)
    → HasUnits geo
    → fixed_count geo t size ≢ panicked
unfolding fixed_count alloc_units_for
fixed_count-ne_panicked geo t none full = λ e. cc
fixed_count-ne_panicked geo t (some m) full =
    >>=-ne_panicked (of_ufs (cap_adj_fac geo t)) _
      (of_ufs-ne_panicked (cap_adj_fac geo t) (cap_adj_fac-ne_panicked geo t full))
      λ fac _. div_ceil_by-ne_panicked _ _ full.1

size_unit-ne_panicked :
    (geo : GeometryDescriptor) (l : SchemeLu) → HasUnits geo → size_unit geo l ≢ panicked
unfolding size_unit
size_unit-ne_panicked geo l full =
    >>=-ne_panicked (memory_type_code l) _ (memory_type_code-ne_panicked l) λ t _.
      >>=-ne_panicked (bail_if (not (supports_memory_type geo t)) _) _ (bail_if-ne_panicked _ _)
        λ _ _.
          >>=-ne_panicked (fixed_count geo t l.size_mib) _
            (fixed_count-ne_panicked geo t l.size_mib full) λ _ _. ok-ne_panicked _

size_units-ne_panicked :
    (geo : GeometryDescriptor) (used : ℕ) (ls : List SchemeLu)
    → HasUnits geo
    → size_units geo used ls ≢ panicked
unfolding size_units
size_units-ne_panicked geo used [] full = λ p. cc
size_units-ne_panicked geo used (l ∷ ls) full =
    >>=-ne_panicked (size_unit geo l) _ (size_unit-ne_panicked geo l full) λ u _.
      >>=-ne_panicked (size_units geo (if is_unsized l then used else add64 used u.count) ls) _
        (size_units-ne_panicked geo (if is_unsized l then used else add64 used u.count) ls full)
        λ _ _. ok-ne_panicked _

check_ceilings-ne_panicked :
    (us : List SizedLu) (cs : List (ℕ × ℕ)) → check_ceilings us cs ≢ panicked
unfolding check_ceilings
check_ceilings-ne_panicked us [] = λ p. cc
check_ceilings-ne_panicked us ((t, c) ∷ cs) =
    >>=-ne_panicked (bail_if _ _) _ (bail_if-ne_panicked _ _)
      λ _ _. check_ceilings-ne_panicked us cs

pub sized_units-ne_panicked :
    (s : Scheme) (geo : GeometryDescriptor) (wb : WbPlan)
    → HasUnits geo
    → sized_units s geo wb ≢ panicked
unfolding sized_units
sized_units-ne_panicked s geo wb full =
    >>=-ne_panicked (total_alloc_units geo) _ (total_alloc_units-ne_panicked geo full) λ total _.
      >>=-ne_panicked (size_units geo wb.capacity_cost_alloc_units s.lus) _
        (size_units-ne_panicked geo wb.capacity_cost_alloc_units s.lus full)
        λ r _ p.
          let units = map (fill (sub64 total r.1)) r.0 in
          ground (arith, check_ceilings-ne_panicked units (memory_type_ceilings geo [] units))

place_unit-ne_panicked :
    (geo : GeometryDescriptor) (wb : WbPlan) (u : SizedLu) (d : ConfigDescriptor)
    → IsShaped d
    → u.entry.id < 8
    → place_unit geo wb u d ≢ panicked
unfolding place_unit
place_unit-ne_panicked geo wb u d s range =
    >>=-ne_panicked (lu_config wb u) _ (lu_config-ne_panicked wb u) λ cfg _.
      >>=-ne_panicked (bail_if _ _) _ (bail_if-ne_panicked _ _) λ _ _ p. set_lu-ne_panicked cfg p
  where
    set_lu-ne_panicked : (cfg : LuConfig) → set_lu {E = Error} d u.entry.id cfg ≢ panicked
    set_lu-ne_panicked cfg p = cc (set_lu_lem {E = Error} d u.entry.id cfg s range)

pub place_units-ne_panicked :
    (geo : GeometryDescriptor) (wb : WbPlan) (us : List SizedLu) (d : ConfigDescriptor)
    → IsShaped d
    → IdsInRange us
    → place_units geo wb us d ≢ panicked
unfolding place_units
place_units-ne_panicked geo wb [] d s r = λ p. cc
place_units-ne_panicked geo wb (u ∷ us) d s r =
    >>=-ne_panicked (place_unit geo wb u d) _ (place_unit-ne_panicked geo wb u d s r.0)
      λ d' e. place_units-ne_panicked geo wb us d' (place_unit-IsShaped geo wb u d d' s r.0 e) r.1
