-- ===== src/Provision/Compare.antt =====
-- src/core/provision.rs: `compare`, which lists how a device differs from the plan, and what
-- `Status` concludes from the list.
pub mod Critical
pub mod Verdict
use flipperos_installer.Base.{
  ℕ, zero, suc, ◌+◌, ◌%◌, ◌^◌, Bool, true, false, not, ◌&&◌, ◌||◌, List, [], ◌∷◌, ◌++◌, Option,
  none, some, Text, codes, text_eq, is_empty, if◌then◌else◌, ◌==◌, any, filter, map,
}
use flipperos_installer.Ufs.Codes.{
  boot_lun_none, boot_lun_a, boot_lun_b, memory_type_name, boot_lu_name,
}
use flipperos_installer.Ufs.Geometry.{GeometryDescriptor}
use flipperos_installer.Ufs.Config.{
  ConfigDescriptor, LuConfig, enabled, lu, lus, boot_enable, descr_access_en, init_power_mode,
  high_priority_lun, secure_removal_type, init_active_icc_level, periodic_rtc_update,
  writebooster_preserve_user_space, writebooster_buffer_type, writebooster_shared_alloc_units,
}
use flipperos_installer.Provision.Scheme.{Origin}
use flipperos_installer.Provision.Plan.{Plan}

-- What a line of the comparison is about.
pub data Subject : Type 0 where
  boot_feature active_boot_lu : Subject
  extra_index : ℕ → Subject
  existence memory_kind boot_flag unit_size block_size : ℕ → Subject
  protection reliability provisioning_kind buffer_units : ℕ → Subject
  buffer_type shared_size space_preservation access power_mode : Subject
  priority_lun removal_type icc_level rtc_update : Subject

-- A value as the message shows it.
pub data Shown : Type 0 where
  number : ℕ → Shown
  name : Text → Shown
  names : List Text → Shown

pub record Mismatch : Type 0 where
  pub subject : Subject
  pub want : Shown
  pub have : Shown
  pub critical : Bool
  pub descriptor_write : Bool

-- `diff`, at numbers and at names.
unfoldable pub diff : Bool → Subject → ℕ → ℕ → List Mismatch
diff critical subject want have =
    if want == have
    then []
    else record {
      subject = subject;
      want = number want;
      have = number have;
      critical = critical;
      descriptor_write = true;
    }
      ∷ []

unfoldable pub diff_names : Bool → Subject → Text → Text → List Mismatch
diff_names critical subject want have =
    if text_eq want have
    then []
    else record {
      subject = subject;
      want = name want;
      have = name have;
      critical = critical;
      descriptor_write = true;
    }
      ∷ []

-- `boot_lun_name`
unfoldable pub boot_lun_name : ℕ → Text
boot_lun_name code =
    if code == boot_lun_a
    then codes "boot LU A"
    else if code == boot_lun_b
    then codes "boot LU B"
    else codes "not bootable"

-- `1u32 << n`, whose shift a release build takes modulo 32.
abbrev pub shl1 : ℕ → ℕ
shl1 n = 2 ^ (n % 32)

abbrev pub presence : LuConfig → Shown
presence l = if enabled l then name (codes "enabled") else name (codes "absent")

-- The values of `bBootLunEn` that the plan accepts.
unfoldable pub acceptable : Plan → List ℕ
acceptable plan =
    let bootable =
      map (λ l. l.boot_lun_id)
        (filter (λ l. enabled l && not (l.boot_lun_id == boot_lun_none)) (lus plan.descriptor)) in
    elim bootable [ [] ↦ plan.boot_lun_en ∷ [] | i ∷ is ↦ i ∷ is ]

unfoldable pub compare_boot_lun : Plan → ℕ → List Mismatch
compare_boot_lun plan en =
    if any (λ id. id == en) (acceptable plan)
    then []
    else record {
      subject = active_boot_lu;
      want = names (map boot_lu_name (acceptable plan));
      have = name (boot_lu_name en);
      critical = true;
      descriptor_write = false;
    }
      ∷ []

abbrev pub extra_mismatch : ℕ → Mismatch
extra_mismatch index = record {
  subject = extra_index index;
  want = names [];
  have = number index;
  critical = true;
  descriptor_write = true;
}

abbrev pub existence_mismatch : ℕ → LuConfig → LuConfig → Mismatch
existence_mismatch i w c = record {
  subject = existence i;
  want = presence w;
  have = presence c;
  critical = true;
  descriptor_write = true;
}

-- The parameters of a unit that both sides have.
unfoldable pub compare_fields : ℕ → LuConfig → LuConfig → List Mismatch
compare_fields i w c =
    diff_names true (memory_kind i) (memory_type_name w.memory_type)
      (memory_type_name c.memory_type)
    ++ (diff_names true (boot_flag i) (boot_lun_name w.boot_lun_id) (boot_lun_name c.boot_lun_id)
        ++ (diff true (unit_size i) w.num_alloc_units c.num_alloc_units
            ++ (diff true (block_size i) (shl1 w.logical_block_size) (shl1 c.logical_block_size)
                ++ (diff false (protection i) w.write_protect c.write_protect
                    ++ (diff false (reliability i) w.data_reliability c.data_reliability
                        ++ (diff false (provisioning_kind i) w.provisioning_type c.provisioning_type
                            ++ diff false (buffer_units i) w.writebooster_alloc_units
                                c.writebooster_alloc_units))))))

unfoldable pub compare_unit : ℕ → LuConfig → LuConfig → List Mismatch
compare_unit i w c =
    if w.enable == c.enable
    then (if enabled w then compare_fields i w c else [])
    else existence_mismatch i w c ∷ []

unfoldable pub compare_units : ConfigDescriptor → ConfigDescriptor → List ℕ → List Mismatch
compare_units want current [] = []
compare_units want current (i ∷ is) =
    compare_unit i (lu want i) (lu current i) ++ compare_units want current is

unfoldable pub compare_header : ConfigDescriptor → ConfigDescriptor → List Mismatch
compare_header want current =
    diff false buffer_type (writebooster_buffer_type want) (writebooster_buffer_type current)
    ++ (diff false shared_size (writebooster_shared_alloc_units want)
          (writebooster_shared_alloc_units current)
        ++ (diff false space_preservation (writebooster_preserve_user_space want)
              (writebooster_preserve_user_space current)
            ++ (diff false access (descr_access_en want) (descr_access_en current)
                ++ (diff false power_mode (init_power_mode want) (init_power_mode current)
                    ++ (diff false priority_lun (high_priority_lun want) (high_priority_lun current)
                        ++ (diff false removal_type (secure_removal_type want)
                              (secure_removal_type current)
                            ++ (diff false icc_level (init_active_icc_level want)
                                  (init_active_icc_level current)
                                ++ diff false rtc_update (periodic_rtc_update want)
                                    (periodic_rtc_update current))))))))

abbrev pub unit_ids : List ℕ
unit_ids = 0 ∷ 1 ∷ 2 ∷ 3 ∷ 4 ∷ 5 ∷ 6 ∷ 7 ∷ []

-- `compare`
unfoldable pub compare : Plan → ConfigDescriptor → ℕ → List ℕ → List Mismatch
compare plan current en extra =
    diff true boot_feature (boot_enable plan.descriptor) (boot_enable current)
    ++ (compare_boot_lun plan en
        ++ (map extra_mismatch extra
            ++ (compare_units plan.descriptor current unit_ids
                ++ compare_header plan.descriptor current)))

pub record Target : Type 0 where
  pub bsg : Text
  pub host : ℕ
  pub disk : Option Text
  pub name : Text

pub record Status : Type 0 where
  pub target : Target
  pub scheme_origin : Origin
  pub current : List LuConfig
  pub plan : Plan
  pub boot_enable : ℕ
  pub boot_lun_en : ℕ
  pub config_locked : Bool
  pub power_on_wp : Bool
  pub permanent_wp : Bool
  pub geometry : GeometryDescriptor
  pub mismatches : List Mismatch

abbrev pub has_critical : List Mismatch → Bool
has_critical = any (λ m. m.critical)

abbrev pub has_critical_write : List Mismatch → Bool
has_critical_write = any (λ m. m.critical && m.descriptor_write)

unfoldable pub is_provisioned : Status → Bool
is_provisioned s = not (has_critical s.mismatches)

-- `self.critical().any(|m| m.descriptor_write)`
unfoldable pub needs_descriptor_write : Status → Bool
needs_descriptor_write s = has_critical_write s.mismatches

unfoldable pub is_blank : Status → Bool
is_blank s = not (any enabled s.current)

unfoldable pub short_label : Status → Text
short_label s =
    if s.config_locked && not (is_provisioned s)
    then codes "locked"
    else if is_provisioned s
    then codes "ok"
    else codes "unprovisioned"
