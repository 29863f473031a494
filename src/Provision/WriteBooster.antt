-- ===== src/Provision/WriteBooster.antt =====
-- src/core/provision.rs: `plan_writebooster`, where the buffer goes and what it costs.
use flipperos_installer.Base.{
  ℕ, zero, suc, Bool, not, ◌&&◌, ◌||◌, codes, eq_ignore_case, if◌then◌else◌, ltb, ◌==◌, min, ok,
  err, ◌>>=◌, mul64, div_ceil_by, u32_mod,
}
use flipperos_installer.Ufs.Device.{
  DeviceDescriptor, writebooster_supported, lu_block_has_writebooster,
}
use flipperos_installer.Ufs.Geometry.{
  GeometryDescriptor, alloc_unit_bytes, writebooster_can_preserve_user_space,
  writebooster_supports_shared,
}
use flipperos_installer.Provision.Error.{ProvisionResult, unknown_writebooster_size}
use flipperos_installer.Provision.Scheme.{Scheme, WbSize, mib, keyword}

pub data WbPlacement : Type 0 where
  nowhere shared dedicated : WbPlacement

pub record WbPlan : Type 0 where
  pub placement : WbPlacement
  pub alloc_units : ℕ
  pub preserve_user_space : ℕ
  pub capacity_cost_alloc_units : ℕ

abbrev pub no_writebooster : WbPlan
no_writebooster = record {
  placement = nowhere;
  alloc_units = 0;
  preserve_user_space = 0;
  capacity_cost_alloc_units = 0;
}

abbrev pub max1 : ℕ → ℕ
max1 n = if n == 0 then 1 else n

abbrev pub to_u32_or : ℕ → ℕ → ℕ
to_u32_or n d = if ltb n u32_mod then n else d

-- The size that the scheme asks for; none disables the buffer.
pub data Request : Type 0 where
  disabled : Request
  units : ℕ → Request

unfoldable pub requested_units : WbSize → GeometryDescriptor → ProvisionResult Request
requested_units (keyword k) geo =
    if eq_ignore_case k (codes "max")
    then ok (units geo.writebooster_max_alloc_units)
    else err (unknown_writebooster_size k)
requested_units (mib zero) geo = ok disabled
requested_units (mib (suc m)) geo =
    let max = geo.writebooster_max_alloc_units in
    div_ceil_by (mul64 (mul64 (suc m) 1024) 1024) (alloc_unit_bytes geo) >>= λ want.
    ok (units (to_u32_or (min want max) max))

abbrev pub placed : WbPlacement → ℕ → Bool → ℕ → WbPlan
placed p requested preserve cost = record {
  placement = p;
  alloc_units = requested;
  preserve_user_space = if preserve then 1 else 0;
  capacity_cost_alloc_units = if preserve then 0 else cost;
}

-- The part of `plan_writebooster` behind the choice of the size.
unfoldable pub place_buffer : Scheme → DeviceDescriptor → GeometryDescriptor → Request → WbPlan
place_buffer scheme dev geo disabled = no_writebooster
place_buffer scheme dev geo (units requested) =
    let preserve = writebooster_can_preserve_user_space geo in
    let cost = mul64 requested (max1 geo.writebooster_cap_adj_fac) in
    let want_shared = not (eq_ignore_case scheme.writebooster.buffer_type (codes "lu")) in
    if want_shared && writebooster_supports_shared geo
    then placed shared requested preserve cost
    else if not (geo.writebooster_buffer_types == 0x01) && lu_block_has_writebooster dev
    then placed dedicated requested preserve cost
    else if writebooster_supports_shared geo
    then placed shared requested preserve cost
    else no_writebooster

unfoldable pub plan_writebooster :
    Scheme → DeviceDescriptor → GeometryDescriptor → ProvisionResult WbPlan
plan_writebooster scheme dev geo =
    if not (writebooster_supported dev) || (geo.writebooster_max_alloc_units == 0)
    then ok no_writebooster
    else (requested_units scheme.writebooster.size geo >>= λ request.
        ok (place_buffer scheme dev geo request))
