-- ===== src/Provision/Plan/Start.antt =====
-- The descriptor before the units are placed: the header is written and every unit is disabled.
use flipperos_installer.Base.{
  ℕ, zero, suc, ◌≤◌, ◌≡◌, refl, sym, ap, ◌∙◌, inr, List, [], ◌∷◌, All, ok, length, replicate,
  length-replicate, arith,
}
use flipperos_installer.Ufs.Bytes.{u8_at, to_be16, to_be32}
use flipperos_installer.Ufs.Device.{DeviceDescriptor, config_desc_len}
use flipperos_installer.Ufs.Config.{
  ConfigDescriptor, Field, lu, lu_offset, empty_config, set_conf_desc_continue, set_header,
  set_shared_writebooster, set_lu_dedicated_writebooster, header_fields, shared_fields,
  dedicated_fields,
}
use flipperos_installer.Ufs.Config.Fields.{
  write_fields, splices, length-splices, Fits, Misses, write_fields-Fits, be_at-splices_miss,
  u8_at-eq-be_at,
}
use flipperos_installer.Ufs.Config.Layout.{IsUsable, IsShaped, empty_config_lem, empty_fields}
use flipperos_installer.Provision.Error.{Error}
use flipperos_installer.Provision.Scheme.{Scheme}
use flipperos_installer.Provision.WriteBooster.{WbPlan, WbPlacement, nowhere, shared, dedicated}
use flipperos_installer.Provision.Plan.{set_writebooster, start_descriptor, from_bool}

-- Writes inside the header of a descriptor.
abbrev InHeader : List Field → Type 0
InHeader = All (Fits 0x16 0)

Fits-mono : (m n : ℕ) (fs : List Field) → m ≤ n → All (Fits m 0) fs → All (Fits n 0) fs
Fits-mono m n [] h f = tt
Fits-mono m n (x ∷ fs) h f = (omega arith, Fits-mono m n fs h f.1)

header-Misses : (k n : ℕ) (fs : List Field) → 0x16 ≤ k → InHeader fs → All (Misses 0 k n) fs
header-Misses k n [] h f = tt
header-Misses k n (x ∷ fs) h f = (inr (omega arith), header-Misses k n fs h f.1)

abbrev with_header : ConfigDescriptor → List Field → ConfigDescriptor
with_header d fs = record d { bytes = splices d.bytes 0 fs }

header_writes {ℓ} :
    {E : Type ℓ} (d : ConfigDescriptor) (fs : List Field)
    → IsShaped d
    → InHeader fs
    → write_fields {E = E} d.bytes 0 fs ≡ ok (splices d.bytes 0 fs)
header_writes d fs s f =
    write_fields-Fits (length d.bytes) d.bytes 0 fs refl
      (Fits-mono 0x16 (length d.bytes) fs (omega (arith, s.covers, s.base_big, s.stride_big)) f)

-- A descriptor of the device's shape whose units all read as disabled.
pub record IsBlank (dev : DeviceDescriptor) (d : ConfigDescriptor) : Type 0 where
  pub same_base : d.base ≡ dev.ud0_base_offset
  pub same_stride : d.stride ≡ dev.ud_config_p_length
  pub shaped : IsShaped d
  pub zeros : (k : ℕ) → 0x16 ≤ k → u8_at d.bytes k ≡ 0

with_header-IsBlank :
    (dev : DeviceDescriptor) (d : ConfigDescriptor) (fs : List Field)
    → InHeader fs
    → IsBlank dev d
    → IsBlank dev (with_header d fs)
with_header-IsBlank dev d fs f b = record {
  same_base = b.same_base;
  same_stride = b.same_stride;
  shaped = record {
    base_big = b.shaped.base_big;
    stride_big = b.shaped.stride_big;
    covers = omega (arith, length-splices d.bytes 0 fs, b.shaped.covers);
  };
  zeros = λ k h.
      u8_at-eq-be_at (splices d.bytes 0 fs) k
      ∙ be_at-splices_miss 1 d.bytes 0 k fs (header-Misses k 1 fs h f)
      ∙ sym (u8_at-eq-be_at d.bytes k)
      ∙ b.zeros k h;
}

zeros_at : (n k : ℕ) → u8_at (replicate n 0) k ≡ 0
unfolding u8_at
zeros_at zero k = refl
zeros_at (suc n) zero = refl
zeros_at (suc n) (suc k) = zeros_at n k

empty-IsBlank :
    (dev : DeviceDescriptor)
    → IsUsable dev
    → (d : ConfigDescriptor) × (empty_config {E = Error} dev ≡ ok d) × IsBlank dev d
empty-IsBlank dev u =
    let (d, e, bytes, base, stride) = empty_config_lem {E = Error} dev u in
    let zeros : List ℕ = replicate (config_desc_len dev) 0 in
    let len = length-replicate {A = ℕ} (config_desc_len dev) 0 in
    let fits : InHeader (empty_fields dev) = omega arith in
    (
      d,
      e,
      record {
        same_base = base;
        same_stride = stride;
        shaped = record {
          base_big = omega (arith, u.base_big);
          stride_big = omega (arith, u.stride_big);
          covers =
              unfold config_desc_len in
              omega (arith, ap length bytes, length-splices zeros 0 (empty_fields dev), len);
        };
        zeros = λ k h.
            ap (λ xs. u8_at xs k) bytes
            ∙ u8_at-eq-be_at (splices zeros 0 (empty_fields dev)) k
            ∙ be_at-splices_miss 1 zeros 0 k (empty_fields dev)
                (header-Misses k 1 (empty_fields dev) h fits)
            ∙ sym (u8_at-eq-be_at zeros k)
            ∙ zeros_at (config_desc_len dev) k;
      },
    )

-- Setting header fields of a blank descriptor.
set_header-IsBlank :
    (dev : DeviceDescriptor) (d : ConfigDescriptor) (boot access power lun removal icc rtc : ℕ)
    → IsBlank dev d
    → (d' : ConfigDescriptor) × (set_header {E = Error} d boot access power lun removal icc rtc
        ≡ ok d')
      × IsBlank dev d'
unfolding set_header to_be16
set_header-IsBlank dev d boot access power lun removal icc rtc b =
    let fs = header_fields boot access power lun removal icc rtc in
    let fits : InHeader fs = omega arith in
    (
      with_header d fs,
      rw (header_writes {E = Error} d fs b.shaped fits),
      with_header-IsBlank dev d fs fits b,
    )

set_writebooster-IsBlank :
    (dev : DeviceDescriptor) (d : ConfigDescriptor) (wb : WbPlan) (p : WbPlacement)
    → wb.placement ≡ p
    → IsBlank dev d
    → (d' : ConfigDescriptor) × (set_writebooster wb d ≡ ok d') × IsBlank dev d'
unfolding set_writebooster set_shared_writebooster set_lu_dedicated_writebooster to_be32
set_writebooster-IsBlank dev d wb nowhere e b = (d, rw e, b)
set_writebooster-IsBlank dev d wb shared e b =
    let fs = shared_fields wb.preserve_user_space wb.alloc_units in
    let fits : InHeader fs = omega arith in
    (
      with_header d fs,
      rw (e, header_writes {E = Error} d fs b.shaped fits),
      with_header-IsBlank dev d fs fits b,
    )
set_writebooster-IsBlank dev d wb dedicated e b =
    let fs = dedicated_fields wb.preserve_user_space in
    let fits : InHeader fs = omega arith in
    (
      with_header d fs,
      rw (e, header_writes {E = Error} d fs b.shaped fits),
      with_header-IsBlank dev d fs fits b,
    )

-- On a usable device the header is always written, and leaves a blank descriptor.
pub start_descriptor-IsBlank :
    (scheme : Scheme) (dev : DeviceDescriptor) (wb : WbPlan)
    → IsUsable dev
    → (d : ConfigDescriptor) × (start_descriptor scheme dev wb ≡ ok d) × IsBlank dev d
unfolding start_descriptor
start_descriptor-IsBlank scheme dev wb u =
    let (d, e, b) = empty-IsBlank dev u in
    let (d1, e1, b1) =
      set_header-IsBlank dev d (from_bool scheme.boot_enable) 0x00 0x01 0x7F 0x00 0x00 0x0000 b in
    let (d2, e2, b2) = set_writebooster-IsBlank dev d1 wb wb.placement refl b1 in
    (d2, rw (e, e1, e2), b2)

-- Every unit of a blank descriptor is disabled, where no unit lies under the header.
pub IsBlank-disabled :
    (dev : DeviceDescriptor) (d : ConfigDescriptor) (j : ℕ)
    → IsBlank dev d
    → 0x16 ≤ dev.ud0_base_offset
    → (lu d j).enable ≡ 0
unfolding lu lu_offset
IsBlank-disabled dev d j b h = b.zeros _ (omega (arith, b.same_base))

-- The descriptor that clears one of the others can always be built.
pub cleared_lem :
    (dev : DeviceDescriptor)
    → IsUsable dev
    → (d e : ConfigDescriptor) × (empty_config {E = Error} dev ≡ ok d)
      × (set_conf_desc_continue {E = Error} d 1 ≡ ok e)
unfolding set_conf_desc_continue
cleared_lem dev u =
    let (d, built, b) = empty-IsBlank dev u in
    let fs : List Field = (0x02, 1 ∷ []) ∷ [] in
    let fits : InHeader fs = omega arith in
    (d, with_header d fs, built, rw (header_writes {E = Error} d fs b.shaped fits))
