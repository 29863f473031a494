-- ===== src/Provision/Plan/Capacity.antt =====
-- The sizes: the units of a plan are the scheme's, and they use the whole device.
use flipperos_installer.Base.{
  ℕ, ◌+◌, ◌*◌, ◌≤◌, ◌<◌, ◌≡◌, refl, ap, sym, subst, ◌∙◌, true, false, Bool-cases, inl, inr, List,
  [], ◌∷◌, map, filter, length, All, ok, >>=-eq-ok, bail_if, bail_if-ok, ok-injective, leb, arith,
  add64, sub64, u64_mod, if◌then◌else◌,
}
use flipperos_installer.Ufs.Geometry.{GeometryDescriptor, total_alloc_units}
use flipperos_installer.Provision.Error.{Error}
use flipperos_installer.Provision.Scheme.{Scheme, SchemeLu, is_unsized}
use flipperos_installer.Provision.WriteBooster.{WbPlan}
use flipperos_installer.Provision.Plan.{
  SizedLu, size_unit, size_units, fixed_count, fill, check_ceilings, memory_type_ceilings,
  sized_units,
}

-- The allocation units of a list of entries, added up without a wrap.
unfoldable pub total_count : List SizedLu → ℕ
total_count [] = 0
total_count (u ∷ us) = u.count + total_count us

abbrev pub entries : List SizedLu → List SchemeLu
entries = map (λ u. u.entry)

size_unit_lem :
    (geo : GeometryDescriptor) (l : SchemeLu) (u : SizedLu)
    → size_unit geo l ≡ ok u
    → (u.entry ≡ l) × (is_unsized l ≡ true → u.count ≡ 0)
unfolding size_unit fixed_count
size_unit_lem geo l u h = ground arith

-- A unit without a size counts nothing before the rest is handed out.
abbrev UnsizedIsZero : List SizedLu → Type 0
UnsizedIsZero = All (λ u. is_unsized u.entry ≡ true → u.count ≡ 0)

abbrev Counted : List SchemeLu → ℕ → List SizedLu × ℕ → Type 0
Counted ls used (us, total) =
    (entries us ≡ ls)
    × UnsizedIsZero us
    × (used + total_count us < u64_mod → total ≡ used + total_count us)

-- The loop keeps the entries in order, and counts what the fixed ones use.
size_units_lem :
    (geo : GeometryDescriptor) (used : ℕ) (ls : List SchemeLu) (r : List SizedLu × ℕ)
    → size_units geo used ls ≡ ok r
    → Counted ls used r
unfolding size_units total_count
size_units_lem geo used [] r h =
    subst (Counted [] used) (ok-injective h) (refl, tt, λ small. omega arith)
size_units_lem geo used (l ∷ ls) r h =
    let (u, e, h1) = >>=-eq-ok (size_unit geo l) _ h in
    let used' = if is_unsized l then used else add64 used u.count in
    let (r', e', h2) = >>=-eq-ok (size_units geo used' ls) _ h1 in
    let (same, zero') = size_unit_lem geo l u e in
    let (sames, zeros, counted) = size_units_lem geo used' ls r' e' in
    subst (Counted (l ∷ ls) used) (ok-injective h2)
      (cc, (λ un. zero' (rw same at un), zeros), λ small. ground arith)

entries-fill : (rest : ℕ) (us : List SizedLu) → entries (map (fill rest) us) ≡ entries us
entries-fill rest [] = refl
entries-fill rest (u ∷ us) = ground (arith, entries-fill rest us)

-- The units of fixed size alone.
unfoldable pub fixed_total : List SizedLu → ℕ
fixed_total [] = 0
fixed_total (u ∷ us) = if is_unsized u.entry then fixed_total us else u.count + fixed_total us

fixed_total-fill :
    (rest : ℕ) (us : List SizedLu)
    → UnsizedIsZero us
    → fixed_total (map (fill rest) us) ≡ total_count us
unfolding fixed_total total_count
fixed_total-fill rest [] z = refl
fixed_total-fill rest (u ∷ us) z = ground (arith, z.0, fixed_total-fill rest us z.1)

total_count-fill :
    (rest : ℕ) (us : List SizedLu)
    → UnsizedIsZero us
    → total_count (map (fill rest) us)
      ≡ total_count us + length (filter is_unsized (entries us)) * rest
unfolding total_count
total_count-fill rest [] z = omega arith
total_count-fill rest (u ∷ us) z = elim (Bool-cases (is_unsized u.entry)) [
  | inl e ↦ rw e (omega (arith, z.0 e, total_count-fill rest us z.1))
  | inr e ↦ rw e (omega (arith, total_count-fill rest us z.1))
]

total_alloc_units-le :
    {E : Type 0}
    → (geo : GeometryDescriptor) (total : ℕ) → total_alloc_units {E = E} geo ≡ ok total
    → total ≤ geo.total_raw_capacity
unfolding total_alloc_units
total_alloc_units-le {E} geo total h = ground arith

-- With one unit to take the rest, everything is used.
filled_total :
    (cost used total : ℕ) (us : List SizedLu)
    → UnsizedIsZero us
    → length (filter is_unsized (entries us)) ≡ 1
    → (cost + total_count us < u64_mod → used ≡ cost + total_count us)
    → leb total used ≡ false
    → total < u64_mod
    → cost + fixed_total (map (fill (sub64 total used)) us) < u64_mod
    → cost + total_count (map (fill (sub64 total used)) us) ≡ total
filled_total cost used total us z one counted left small fits =
    let rest = sub64 total used in
    let used' = counted (omega (arith, fixed_total-fill rest us z)) in
    let more : used < total = ground arith in
    omega (arith, total_count-fill rest us z, ap (λ (n : ℕ). n * rest) one)

sized_units_parts :
    (s : Scheme) (geo : GeometryDescriptor) (wb : WbPlan) (units : List SizedLu)
    → sized_units s geo wb ≡ ok units
    → (entries units ≡ s.lus)
      × (length (filter is_unsized s.lus) ≡ 1
          → geo.total_raw_capacity < u64_mod
          → wb.capacity_cost_alloc_units + fixed_total units < u64_mod
          → total_alloc_units {E = Error} geo
            ≡ ok (wb.capacity_cost_alloc_units + total_count units))
unfolding sized_units
sized_units_parts s geo wb units h =
    let (total, total_e, h0) = >>=-eq-ok (total_alloc_units geo) _ h in
    let (r, e, h1) = >>=-eq-ok (size_units geo wb.capacity_cost_alloc_units s.lus) _ h0 in
    let (_, b, h2) = >>=-eq-ok (bail_if (leb total r.1) _) _ h1 in
    let rest = sub64 total r.1 in
    let filled = map (fill rest) r.0 in
    let (_, c, h3) = >>=-eq-ok (check_ceilings filled (memory_type_ceilings geo [] filled)) _ h2 in
    let (same, zeros, counted) = size_units_lem geo wb.capacity_cost_alloc_units s.lus r e in
    subst
      (λ us.
        (entries us ≡ s.lus)
        × (length (filter is_unsized s.lus) ≡ 1
            → geo.total_raw_capacity < u64_mod
            → wb.capacity_cost_alloc_units + fixed_total us < u64_mod
            → total_alloc_units {E = Error} geo
              ≡ ok (wb.capacity_cost_alloc_units + total_count us)))
      (ok-injective h3)
      (
        entries-fill rest r.0 ∙ same,
        λ one raw fits.
            total_e
            ∙ ap ok (
                sym (
                  filled_total wb.capacity_cost_alloc_units r.1 total r.0 zeros
                    (ap (λ ls. length (filter is_unsized ls)) same ∙ one) counted (bail_if-ok _ _ b)
                    (omega (arith, total_alloc_units-le geo total total_e)) fits)),
      )

pub entries-sized_units :
    (s : Scheme) (geo : GeometryDescriptor) (wb : WbPlan) (units : List SizedLu)
    → sized_units s geo wb ≡ ok units
    → entries units ≡ s.lus
entries-sized_units s geo wb units h = (sized_units_parts s geo wb units h).0

-- For a scheme with one unit that takes the rest and a device whose raw capacity fits 64 bits, the
-- sizes that the plan computes and the cost of the WriteBooster buffer are exactly the device's
-- allocation units, where the fixed sizes and that cost do not wrap around 64 bits.
pub sized_units_total :
    (s : Scheme) (geo : GeometryDescriptor) (wb : WbPlan) (units : List SizedLu)
    → length (filter is_unsized s.lus) ≡ 1
    → geo.total_raw_capacity < u64_mod
    → sized_units s geo wb ≡ ok units
    → wb.capacity_cost_alloc_units + fixed_total units < u64_mod
    → total_alloc_units {E = Error} geo ≡ ok (wb.capacity_cost_alloc_units + total_count units)
sized_units_total s geo wb units one raw h fits =
    (sized_units_parts s geo wb units h).1 one raw fits
