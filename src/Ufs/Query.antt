-- ===== src/Ufs/Query.antt =====
-- src/core/ufs.rs: `Bsg`, the queries that the device answers.
pub mod Wire
pub mod Returns
use flipperos_installer.Base.{
  ℕ, ◌/◌, ◌%◌, ◌+◌, Bool, true, false, not, ◌||◌, ◌&&◌, List, [], ◌∷◌, ◌++◌, if◌then◌else◌, ltb,
  leb, ◌==◌, min, length, take, replicate, Text, Result, ok, err,
}
use flipperos_installer.Ufs.Codes.{query_response_name}
use flipperos_installer.Ufs.Error.{
  Error, open_failed, ioctl_failed, query_failed, query_rejected, impossible_length,
  payload_out_of_range,
}
use flipperos_installer.Ufs.Bytes.{u8_at, u32_at}
use flipperos_installer.Ufs.World.{
  World, Query, Dir, no_data, data_in, data_out, sent, History, Reply, Answer, refused, replied, Io,
  pure, raise, raise_if, ◌>>=◌, ◌>>◌, asks, lift,
}

abbrev pub idn_device : ℕ
idn_device = 0x00

abbrev pub idn_configuration : ℕ
idn_configuration = 0x01

abbrev pub idn_geometry : ℕ
idn_geometry = 0x07

abbrev pub attr_boot_lun_en : ℕ
attr_boot_lun_en = 0x00

abbrev pub attr_config_descr_lock : ℕ
attr_config_descr_lock = 0x0B

abbrev pub flag_device_init : ℕ
flag_device_init = 0x01

abbrev pub flag_permanent_wp_en : ℕ
flag_permanent_wp_en = 0x02

abbrev pub flag_power_on_wp_en : ℕ
flag_power_on_wp_en = 0x03

abbrev pub opcode_read_desc : ℕ
opcode_read_desc = 0x01

abbrev pub opcode_write_desc : ℕ
opcode_write_desc = 0x02

abbrev pub opcode_read_attr : ℕ
opcode_read_attr = 0x03

abbrev pub opcode_write_attr : ℕ
opcode_write_attr = 0x04

abbrev pub opcode_read_flag : ℕ
opcode_read_flag = 0x05

abbrev pub opcode_set_flag : ℕ
opcode_set_flag = 0x06

abbrev pub opcode_clear_flag : ℕ
opcode_clear_flag = 0x07

abbrev pub query_desc_max_size : ℕ
query_desc_max_size = 255

abbrev pub query_desc_hdr_size : ℕ
query_desc_hdr_size = 2

-- The opcodes that change the device.
abbrev pub is_write : ℕ → Bool
is_write opcode =
    (opcode == opcode_write_desc)
    || ((opcode == opcode_write_attr)
        || ((opcode == opcode_set_flag) || (opcode == opcode_clear_flag)))

abbrev pub segment_length : Dir → ℕ → ℕ
segment_length no_data n = 0
segment_length (data_in k) n = 0
segment_length (data_out bytes) n = n

-- The request UPIU that `query` fills in.
unfoldable pub request_upiu : Query → List ℕ
request_upiu q =
    let seg = segment_length q.dir q.length in
    0x16
    ∷ 0
    ∷ 0
    ∷ 0
    ∷ 0
    ∷ (if is_write q.opcode then 0x81 else 0x01)
    ∷ 0
    ∷ 0
    ∷ 0
    ∷ 0
    ∷ (seg / 256 % 256)
    ∷ (seg % 256)
    ∷ q.opcode
    ∷ q.idn
    ∷ q.index
    ∷ 0
    ∷ 0
    ∷ 0
    ∷ (q.length / 256 % 256)
    ∷ (q.length % 256)
    ∷ (q.value / 0x1000000 % 256)
    ∷ (q.value / 0x10000 % 256)
    ∷ (q.value / 0x100 % 256)
    ∷ (q.value % 256)
    ∷ 0
    ∷ 0
    ∷ 0
    ∷ 0
    ∷ 0
    ∷ 0
    ∷ 0
    ∷ 0
    ∷ []

-- A zeroed buffer after the device has sent its bytes.
abbrev pub received : ℕ → List ℕ → List ℕ
received n payload = take n (payload ++ replicate n 0)

-- How `query` reads the answer.
unfoldable pub judge : Query → Answer → Result Error Reply
judge q refused = err (ioctl_failed q.opcode q.idn q.index)
judge q (replied r) =
    let response = u8_at r.upiu 6 in
    if not (r.result == 0)
    then err (query_failed q.opcode q.idn q.index)
    else if not (response == 0)
    then err (query_rejected q.opcode q.idn q.index (query_response_name response))
    else ok r

module _ (w : World) where
  -- `Bsg::open`
  unfoldable pub open_bsg : Text → Io Error (Unit {0})
  open_bsg node = do fine ← asks (λ h. w.can_open h node); raise_if (not fine) (open_failed node)

  -- `Bsg::query`
  unfoldable pub query : Query → Io Error Reply
  unfolding judge
  query q h = (judge q (w.ioctl h (request_upiu q) q.dir), sent q ∷ h)

  abbrev pub desc_query : ℕ → ℕ → ℕ → ℕ → Dir → Query
  desc_query opcode idn index n dir = record {
    opcode = opcode;
    idn = idn;
    index = index;
    length = n;
    dir = dir;
    value = 0;
  }

  abbrev pub plain_query : ℕ → ℕ → ℕ → Query
  plain_query opcode idn value = record {
    opcode = opcode;
    idn = idn;
    index = 0;
    length = 0;
    dir = no_data;
    value = value;
  }

  -- The two halves of `read_descriptor`.
  abbrev pub read_bytes : ℕ → ℕ → ℕ → Io Error (List ℕ)
  read_bytes idn index n = do
    r ← query (desc_query opcode_read_desc idn index n (data_in n))
    pure (received n r.payload)

  -- `Bsg::read_descriptor`
  unfoldable pub read_descriptor : ℕ → ℕ → Io Error (List ℕ)
  unfolding query
  read_descriptor idn index = do
    header ← read_bytes idn index query_desc_hdr_size
    let len = u8_at header 0
    raise_if (ltb len query_desc_hdr_size) (impossible_length idn index len)
    read_bytes idn index (min len query_desc_max_size)

  -- `Bsg::write_descriptor`
  unfoldable pub write_descriptor : ℕ → ℕ → List ℕ → Io Error (Unit {0})
  unfolding query
  write_descriptor idn index bytes = do
    let n = length bytes
    raise_if ((n == 0) || ltb query_desc_max_size n) (payload_out_of_range n)
    _ ← query (desc_query opcode_write_desc idn index n (data_out bytes))
    pure tt

  -- `Bsg::read_attr`
  unfoldable pub read_attr : ℕ → Io Error ℕ
  unfolding query
  read_attr idn = do r ← query (plain_query opcode_read_attr idn 0); pure (u32_at r.upiu 20)

  -- `Bsg::write_attr`
  unfoldable pub write_attr : ℕ → ℕ → Io Error (Unit {0})
  unfolding query
  write_attr idn value = do _ ← query (plain_query opcode_write_attr idn value); pure tt

  -- `Bsg::write_flag`
  unfoldable pub write_flag : ℕ → Bool → Io Error (Unit {0})
  unfolding query
  write_flag idn on = do
    _ ← query (plain_query (if on then opcode_set_flag else opcode_clear_flag) idn 0)
    pure tt

  -- `Bsg::read_flag`
  unfoldable pub read_flag : ℕ → Io Error Bool
  unfolding query
  read_flag idn = do
    r ← query (plain_query opcode_read_flag idn 0)
    pure (not (u8_at r.upiu 23 == 0))
