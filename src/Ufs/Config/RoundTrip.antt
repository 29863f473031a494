-- ===== src/Ufs/Config/RoundTrip.antt =====
-- `lu` after `set_lu`: the same unit reads back, and no other unit and no header field changes.
use flipperos_installer.Base.{
  ℕ, ◌+◌, ◌*◌, ◌^◌, ◌≤◌, ◌<◌, ◌≡◌, ◌≢◌, refl, sym, ◌∙◌, Bool, true, false, inl, inr, List, [], ◌∷◌,
  ◌++◌, length, take, drop, All, ok, arith, if◌then◌else◌, ok-injective,
}
use native.Mathlib.Decide.{dec_lt}
use flipperos_installer.Ufs.Bytes.{be_at, u8_at, u16_at, u32_at, from_be, to_be16, to_be32}
use flipperos_installer.Ufs.Bytes.Laws.{Apart, from_be-to_be16, from_be-to_be32}
use flipperos_installer.Ufs.Error.{Error}
use flipperos_installer.Ufs.Config.{
  ConfigDescriptor, Field, LuConfig, block_fields, read_block, set_lu, lu, lu_offset,
  has_lu_writebooster,
}
use flipperos_installer.Ufs.Config.Fields.{
  splices, Misses, be_at-splices_inside, be_at-splices_miss, u8_at-eq-be_at,
}
use flipperos_installer.Ufs.Config.Layout.{
  IsShaped, set_lu_lem, after_lu-IsShaped, after_lu, offset_in, block_fields-Misses,
  has_lu_writebooster-le,
}

-- The parameters fit the widths of their fields, and a block with no room for a WriteBooster size
-- asks for none.
pub record IsWritable (has_wb : Bool) (cfg : LuConfig) : Type 0 where
  pub units_fit : cfg.num_alloc_units < 2 ^ 32
  pub context_fits : cfg.context_capabilities < 2 ^ 16
  pub writebooster_fits : cfg.writebooster_alloc_units < 2 ^ 32
  pub writebooster_kept : has_wb ≡ false → cfg.writebooster_alloc_units ≡ 0

module _ (cfg : LuConfig) (bytes : List ℕ) (at : ℕ) (room : at + 16 ≤ length bytes) where
  byte_back :
      (before : List Field) (off v : ℕ) (after : List Field)
      → off < 16
      → All (Misses at (at + off) 1) after
      → u8_at (splices bytes at (before ++ (off, v ∷ []) ∷ after)) (at + off) ≡ v
  unfolding from_be
  byte_back before off v after h apart =
      u8_at-eq-be_at _ _
      ∙ be_at-splices_inside bytes at before off (v ∷ []) after (omega arith) apart
      ∙ omega arith

  word_back :
      (before : List Field) (off v : ℕ) (after : List Field)
      → at + off + 4 ≤ length bytes
      → v < 2 ^ 32
      → All (Misses at (at + off) 4) after
      → u32_at (splices bytes at (before ++ (off, to_be32 v) ∷ after)) (at + off) ≡ v
  unfolding u32_at to_be32
  word_back before off v after h small apart =
      be_at-splices_inside bytes at before off (to_be32 v) after h apart ∙ from_be-to_be32 v small

  half_back :
      (before : List Field) (off v : ℕ) (after : List Field)
      → at + off + 2 ≤ length bytes
      → v < 2 ^ 16
      → All (Misses at (at + off) 2) after
      → u16_at (splices bytes at (before ++ (off, to_be16 v) ∷ after)) (at + off) ≡ v
  unfolding u16_at to_be16
  half_back before off v after h small apart =
      be_at-splices_inside bytes at before off (to_be16 v) after h apart ∙ from_be-to_be16 v small

  -- A block reads back as what was written, with or without the WriteBooster field.
  block_back :
      (has_wb : Bool)
      → IsWritable has_wb cfg
      → (has_wb ≡ true → at + 26 ≤ length bytes)
      → read_block (splices bytes at (block_fields has_wb cfg)) has_wb at ≡ cfg
  unfolding to_be16 to_be32
  block_back true w wb =
      let fs = block_fields true cfg in
      λ i. record {
        enable = byte_back (take 0 fs) 0x0 cfg.enable (drop 1 fs) (omega arith) (omega arith) i;
        boot_lun_id =
            byte_back (take 1 fs) 0x1 cfg.boot_lun_id (drop 2 fs) (omega arith) (omega arith) i;
        write_protect =
            byte_back (take 2 fs) 0x2 cfg.write_protect (drop 3 fs) (omega arith) (omega arith) i;
        memory_type =
            byte_back (take 3 fs) 0x3 cfg.memory_type (drop 4 fs) (omega arith) (omega arith) i;
        num_alloc_units =
            word_back (take 4 fs) 0x4 cfg.num_alloc_units (drop 5 fs) (omega arith) w.units_fit
              (omega arith) i;
        data_reliability =
            byte_back (take 5 fs) 0x8 cfg.data_reliability (drop 6 fs) (omega arith) (omega arith)
              i;
        logical_block_size =
            byte_back (take 6 fs) 0x9 cfg.logical_block_size (drop 7 fs) (omega arith) (omega arith)
              i;
        provisioning_type =
            byte_back (take 7 fs) 0xa cfg.provisioning_type (drop 8 fs) (omega arith) (omega arith)
              i;
        context_capabilities =
            half_back (take 8 fs) 0xb cfg.context_capabilities (drop 9 fs) (omega arith)
              w.context_fits (omega arith) i;
        writebooster_alloc_units =
            word_back (take 9 fs) 0x16 cfg.writebooster_alloc_units [] (omega (arith, wb refl))
              w.writebooster_fits tt i;
      }
  block_back false w wb =
      let fs = block_fields false cfg in
      λ i. record {
        enable = byte_back (take 0 fs) 0x0 cfg.enable (drop 1 fs) (omega arith) (omega arith) i;
        boot_lun_id =
            byte_back (take 1 fs) 0x1 cfg.boot_lun_id (drop 2 fs) (omega arith) (omega arith) i;
        write_protect =
            byte_back (take 2 fs) 0x2 cfg.write_protect (drop 3 fs) (omega arith) (omega arith) i;
        memory_type =
            byte_back (take 3 fs) 0x3 cfg.memory_type (drop 4 fs) (omega arith) (omega arith) i;
        num_alloc_units =
            word_back (take 4 fs) 0x4 cfg.num_alloc_units (drop 5 fs) (omega arith) w.units_fit
              (omega arith) i;
        data_reliability =
            byte_back (take 5 fs) 0x8 cfg.data_reliability (drop 6 fs) (omega arith) (omega arith)
              i;
        logical_block_size =
            byte_back (take 6 fs) 0x9 cfg.logical_block_size (drop 7 fs) (omega arith) (omega arith)
              i;
        provisioning_type =
            byte_back (take 7 fs) 0xa cfg.provisioning_type (drop 8 fs) (omega arith) (omega arith)
              i;
        context_capabilities =
            half_back (take 8 fs) 0xb cfg.context_capabilities (drop 9 fs) (omega arith)
              w.context_fits (omega arith) i;
        writebooster_alloc_units = sym (w.writebooster_kept refl) i;
      }

pub block_written :
    (d : ConfigDescriptor) (i : ℕ) (cfg : LuConfig)
    → IsShaped d
    → i < 8
    → IsWritable (has_lu_writebooster d) cfg
    → lu (record d { bytes = after_lu d i cfg }) i ≡ cfg
unfolding lu
block_written d i cfg s h w =
    block_back cfg d.bytes (lu_offset d i) (omega (arith, offset_in d i s h, s.stride_big))
      (has_lu_writebooster d) w (λ e. omega (arith, offset_in d i s h, has_lu_writebooster-le d e))

-- Each of the eight logical units of a descriptor that covers them is written without a panic, which
-- keeps the shape, and reads back as it was written, if its parameters fit their fields.
pub lu-set_lu :
    (d : ConfigDescriptor) (i : ℕ) (cfg : LuConfig)
    → IsShaped d
    → i < 8
    → IsWritable (has_lu_writebooster d) cfg
    → (d' : ConfigDescriptor) × (set_lu {E = Error} d i cfg ≡ ok d') × IsShaped d' × (lu d' i ≡ cfg)
lu-set_lu d i cfg s h w = (
  record d { bytes = after_lu d i cfg },
  set_lu_lem d i cfg s h,
  after_lu-IsShaped d i cfg s,
  block_written d i cfg s h w,
)

-- A field outside the block of unit `i` is not written.
pub field_kept :
    (d : ConfigDescriptor) (i : ℕ) (cfg : LuConfig) (k n : ℕ)
    → IsShaped d
    → Apart (lu_offset d i) d.stride k n
    → be_at n (after_lu d i cfg) k ≡ be_at n d.bytes k
field_kept d i cfg k n s apart =
    be_at-splices_miss n d.bytes (lu_offset d i) k (block_fields (has_lu_writebooster d) cfg) (
      block_fields-Misses (has_lu_writebooster d) cfg (lu_offset d i) d.stride k n s.stride_big
        (has_lu_writebooster-le d) apart)

mul_step : (i j s : ℕ) → i < j → i * s + s ≤ j * s
mul_step i j s h = grind arith

-- Blocks of different units share no byte.
blocks-Apart :
    (d : ConfigDescriptor) (i j k n : ℕ)
    → i ≢ j
    → k + n ≤ d.stride
    → Apart (lu_offset d i) d.stride (lu_offset d j + k) n
unfolding lu_offset
blocks-Apart d i j k n ne h = elim (dec_lt i j) [
  | yes p ↦ inr (omega (arith, mul_step i j d.stride p))
  | no p ↦ inl (omega (arith, mul_step j i d.stride (omega arith)))
]

-- Two byte lists that agree on every field of a block hold the same block.
block_same :
    (xs ys : List ℕ) (has_wb : Bool) (at stride : ℕ)
    → 16 ≤ stride
    → (has_wb ≡ true → 26 ≤ stride)
    → ((off n : ℕ) → off + n ≤ stride → be_at n xs (at + off) ≡ be_at n ys (at + off))
    → read_block xs has_wb at ≡ read_block ys has_wb at
unfolding u16_at u32_at
block_same xs ys has_wb at stride least wb same = λ i. record {
  enable = byte 0x00 (omega arith) i;
  boot_lun_id = byte 0x01 (omega arith) i;
  write_protect = byte 0x02 (omega arith) i;
  memory_type = byte 0x03 (omega arith) i;
  num_alloc_units = same 0x04 4 (omega arith) i;
  data_reliability = byte 0x08 (omega arith) i;
  logical_block_size = byte 0x09 (omega arith) i;
  provisioning_type = byte 0x0A (omega arith) i;
  context_capabilities = same 0x0B 2 (omega arith) i;
  writebooster_alloc_units = tail has_wb wb i;
}
  where
    byte : (off : ℕ) → off + 1 ≤ stride → u8_at xs (at + off) ≡ u8_at ys (at + off)
    byte off h = u8_at-eq-be_at xs (at + off) ∙ same off 1 h ∙ sym (u8_at-eq-be_at ys (at + off))

    tail :
        (b : Bool)
        → (b ≡ true → 26 ≤ stride)
        → (if b then u32_at xs (at + 0x16) else 0) ≡ (if b then u32_at ys (at + 0x16) else 0)
    tail true h = same 0x16 4 (h refl)
    tail false h = refl

pub lu_kept :
    (d : ConfigDescriptor) (i j : ℕ) (cfg : LuConfig)
    → IsShaped d
    → i ≢ j
    → lu (record d { bytes = after_lu d i cfg }) j ≡ lu d j
unfolding lu
lu_kept d i j cfg s ne =
    block_same (after_lu d i cfg) d.bytes (has_lu_writebooster d) (lu_offset d j) d.stride
      s.stride_big (has_lu_writebooster-le d)
      λ off n fits. field_kept d i cfg (lu_offset d j + off) n s (blocks-Apart d i j off n ne fits)

-- Writing one of the eight logical units of a descriptor that covers them changes no other unit, and
-- no field before the blocks.
pub set_lu_frame :
    (d d' : ConfigDescriptor) (i : ℕ) (cfg : LuConfig)
    → IsShaped d
    → i < 8
    → set_lu {E = Error} d i cfg ≡ ok d'
    → ((j : ℕ) → i ≢ j → lu d' j ≡ lu d j)
      × ((k n : ℕ) → k + n ≤ d.base → be_at n d'.bytes k ≡ be_at n d.bytes k)
set_lu_frame d d' i cfg s h e =
    let e' = ok-injective (sym e ∙ set_lu_lem d i cfg s h) in
    rw e' (
      λ j ne. lu_kept d i j cfg s ne,
      λ k n fits. field_kept d i cfg k n s (inl (before_blocks d i (k + n) fits)),
    )
  where
    before_blocks : (d : ConfigDescriptor) (i m : ℕ) → m ≤ d.base → m ≤ lu_offset d i
    before_blocks d i m h = unfold lu_offset in omega arith
