-- ===== src/Provision/Plan/Placed.antt =====
-- Placing the units: each logical unit of the descriptor holds what the plan gave to it.
use flipperos_installer.Base.{
  ℕ, ◌<◌, ◌^◌, ◌≡◌, ◌≢◌, refl, sym, ap, subst, ◌∙◌, Bool, true, ◌&&◌, List, [], ◌∷◌, All, ok,
  >>=-eq-ok, bail_if, ltb, arith, ok-injective,
}
use flipperos_installer.Ufs.Geometry.{GeometryDescriptor}
use flipperos_installer.Ufs.Config.{ConfigDescriptor, LuConfig, lu, has_lu_writebooster, size_bytes}
use flipperos_installer.Ufs.Config.Layout.{IsShaped, after_lu, set_lu_lem, after_lu-IsShaped}
use flipperos_installer.Ufs.Config.RoundTrip.{IsWritable, block_written, lu_kept}
use flipperos_installer.Provision.Scheme.{is_unsized}
use flipperos_installer.Provision.WriteBooster.{WbPlan, dedicated}
use flipperos_installer.Provision.Plan.{
  SizedLu, lu_config, place_unit, place_units, min_target_size_bytes,
}

-- The buffer fits its field, and a dedicated one is only asked of blocks that have the field.
pub record WbFits (wb : WbPlan) (has_wb : Bool) : Type 0 where
  pub small : wb.alloc_units < 2 ^ 32
  pub kept : wb.placement ≡ dedicated → has_wb ≡ true

lu_config-IsWritable :
    (wb : WbPlan) (u : SizedLu) (has_wb : Bool) (cfg : LuConfig)
    → WbFits wb has_wb
    → lu_config wb u ≡ ok cfg
    → IsWritable has_wb cfg
unfolding lu_config
lu_config-IsWritable wb u has_wb cfg f h = ground (arith, f.kept)

abbrev pub Others : ℕ → List SizedLu → Type 0
Others i = All (λ u. u.entry.id ≢ i)

abbrev pub DistinctIds : List SizedLu → Type 0
DistinctIds [] = Unit {0}
DistinctIds (u ∷ us) = Others u.entry.id us × DistinctIds us

abbrev pub IdsInRange : List SizedLu → Type 0
IdsInRange = All (λ u. u.entry.id < 8)

-- A unit of the descriptor holds the parameters that the plan computed for it.
abbrev pub Holds : WbPlan → ConfigDescriptor → SizedLu → Type 0
Holds wb d u = lu_config wb u ≡ ok (lu d u.entry.id)

abbrev pub SameShape : ConfigDescriptor → ConfigDescriptor → Type 0
SameShape d d' = (d'.base ≡ d.base) × (d'.stride ≡ d.stride)

-- The descriptor after `set_lu`.
abbrev with_lu : ConfigDescriptor → ℕ → LuConfig → ConfigDescriptor
with_lu d i cfg = record d { bytes = after_lu d i cfg }

-- A unit that is placed: its parameters, and the descriptor that holds them.
place_unit_lem :
    (geo : GeometryDescriptor) (wb : WbPlan) (u : SizedLu) (d d' : ConfigDescriptor)
    → IsShaped d
    → u.entry.id < 8
    → place_unit geo wb u d ≡ ok d'
    → (cfg : LuConfig) × (lu_config wb u ≡ ok cfg) × (d' ≡ with_lu d u.entry.id cfg)
unfolding place_unit
place_unit_lem geo wb u d d' s range h =
    let (cfg, e, h1) = >>=-eq-ok (lu_config wb u) _ h in
    let (_, big, h2) =
      >>=-eq-ok (bail_if (is_unsized u.entry && ltb (size_bytes cfg geo) min_target_size_bytes) _) _
        h1 in
    (cfg, e, sym (ok-injective (sym (set_lu_lem d u.entry.id cfg s range) ∙ h2)))

pub place_unit-IsShaped :
    (geo : GeometryDescriptor) (wb : WbPlan) (u : SizedLu) (d d' : ConfigDescriptor)
    → IsShaped d
    → u.entry.id < 8
    → place_unit geo wb u d ≡ ok d'
    → IsShaped d'
place_unit-IsShaped geo wb u d d' s range h =
    let (cfg, _, e) = place_unit_lem geo wb u d d' s range h in
    rw e (after_lu-IsShaped d u.entry.id cfg s)

-- Placing units keeps the shape, fills each of them, and changes no other.
pub record Filled (wb : WbPlan) (us : List SizedLu) (d d' : ConfigDescriptor) : Type 0 where
  pub shaped : IsShaped d'
  pub same_base : d'.base ≡ d.base
  pub same_stride : d'.stride ≡ d.stride
  pub holds : All (Holds wb d') us
  pub kept : (j : ℕ) → Others j us → lu d' j ≡ lu d j

pub place_units-Filled :
    (geo : GeometryDescriptor) (wb : WbPlan) (us : List SizedLu) (d d' : ConfigDescriptor)
    → IsShaped d
    → WbFits wb (has_lu_writebooster d)
    → IdsInRange us
    → DistinctIds us
    → place_units geo wb us d ≡ ok d'
    → Filled wb us d d'
unfolding place_units has_lu_writebooster
place_units-Filled geo wb [] d d' s f r ds h =
    subst (Filled wb [] d) (ok-injective h)
      (record { shaped = s; same_base = refl; same_stride = refl; holds = tt; kept = λ j o. refl })
place_units-Filled geo wb (u ∷ us) d d' s f r ds h =
    let (d1, e1, h1) = >>=-eq-ok (place_unit geo wb u d) _ h in
    let (cfg, c, p) = place_unit_lem geo wb u d d1 s r.0 e1 in
    let rest =
      place_units-Filled geo wb us (with_lu d u.entry.id cfg) d'
        (after_lu-IsShaped d u.entry.id cfg s) f r.1 ds.1
        (subst (λ x. place_units geo wb us x ≡ ok d') p h1) in
    let written =
      block_written d u.entry.id cfg s r.0
        (lu_config-IsWritable wb u (has_lu_writebooster d) cfg f c) in
    record {
      shaped = rest.shaped;
      same_base = rest.same_base;
      same_stride = rest.same_stride;
      holds = (c ∙ ap ok (sym (rest.kept u.entry.id ds.0 ∙ written)), rest.holds);
      kept = λ j o. rest.kept j o.1 ∙ lu_kept d u.entry.id j cfg s o.0;
    }
