-- ===== src/Ufs/Rescan.antt =====
-- src/core/ufs.rs: the logical units as the kernel lists them, `rescan_logical_units` and
-- `apply_configuration`.
pub mod Safety
pub mod Ends
use flipperos_installer.Base.{
  ℕ, zero, suc, ◌+◌, ◌-◌, ◌*◌, ◌^◌, Bool, true, false, not, ◌&&◌, ◌||◌, List, [], ◌∷◌, ◌++◌, Option,
  none, some, map, filter, any, find, Text, codes, is_empty, if◌then◌else◌, ltb, leb, ◌==◌, u32_mod,
  Result, ok, err, panicked,
}
use flipperos_installer.Ufs.Codes.{is_well_known_lun}
use flipperos_installer.Ufs.Error.{
  Error, rescan_failed, never_initialised, reading_device_init, did_not_come_back, no_logical_units,
}
use flipperos_installer.Ufs.World.{
  World, LuDir, History, deleted, scanned, slept, Io, pure, halted, raise, raise_if, ◌>>=◌, ◌>>◌,
  asks, perform, attempt,
}
use flipperos_installer.Ufs.Query.{write_flag, read_flag, flag_device_init}

-- The text behind the last `sep`, as `rsplit(sep).next()` gives it.
unfoldable pub after_last : ℕ → Text → Text → Text
after_last sep seen [] = seen
after_last sep seen (c ∷ s) = after_last sep (if c == sep then [] else seen ++ c ∷ []) s

abbrev pub is_digit : ℕ → Bool
is_digit c = leb b'0' c && leb c b'9'

-- `str::parse::<u32>`: a sign `+` is allowed, and the value has to fit.
unfoldable pub parse_digits : ℕ → Text → Option ℕ
parse_digits n [] = if ltb n u32_mod then some n else none
parse_digits n (c ∷ s) =
    let more = parse_digits (n * 10 + (c - b'0')) s in if is_digit c then more else none

abbrev unsigned : Text → Text
unsigned [] = []
unsigned (c ∷ s) = if c == b'+' then s else c ∷ s

unfoldable pub parse_u32 : Text → Option ℕ
unfolding parse_digits
parse_u32 s = let digits = unsigned s in if is_empty digits then none else parse_digits 0 digits

-- `lun_of`
unfoldable pub lun_of : Text → Option ℕ
unfolding after_last parse_u32
lun_of name = parse_u32 (after_last b':' [] name)

-- What the walk of `data_lu_dirs` keeps: devices whose unit is not a well-known one.
unfoldable pub is_data_lu : LuDir → Bool
is_data_lu d =
    d.is_device && (elim (lun_of d.name) [ none ↦ false | some lun ↦ not (is_well_known_lun lun) ])

-- The order of paths: by their components, each by its bytes.
unfoldable pub components : Text → Text → List Text
components seen [] = seen ∷ []
components seen (c ∷ s) =
    let rest = components (if c == b'/' then [] else seen ++ c ∷ []) s in
    if c == b'/' then seen ∷ rest else rest

unfoldable pub text_le : Text → Text → Bool
text_le [] t = true
text_le (c ∷ s) [] = false
text_le (c ∷ s) (d ∷ t) = let rest = text_le s t in ltb c d || ((c == d) && rest)

unfoldable pub components_le : List Text → List Text → Bool
unfolding text_le
components_le [] t = true
components_le (c ∷ s) [] = false
components_le (c ∷ s) (d ∷ t) =
    let rest = components_le s t in
    if text_le c d then (if text_le d c then rest else true) else false

unfoldable pub insert_dir : LuDir → List LuDir → List LuDir
unfolding components components_le
insert_dir d [] = d ∷ []
insert_dir d (e ∷ es) =
    let rest = insert_dir d es in
    if components_le (components [] d.path) (components [] e.path) then d ∷ (e ∷ es) else e ∷ rest

unfoldable pub sort_dirs : List LuDir → List LuDir
unfolding insert_dir
sort_dirs [] = []
sort_dirs (d ∷ ds) = insert_dir d (sort_dirs ds)

-- The time limits, in milliseconds.
abbrev pub rescan_timeout : ℕ
rescan_timeout = 20000

abbrev pub device_init_timeout : ℕ
device_init_timeout = 10000

module _ (w : World) where
  -- `data_lu_dirs`
  unfoldable pub data_lu_dirs : ℕ → History → List LuDir
  unfolding is_data_lu sort_dirs
  data_lu_dirs host h = sort_dirs (filter is_data_lu (w.target_entries h host))

  -- The loop of `rescan_logical_units`, whose failures it ignores.
  unfoldable pub delete_all : List LuDir → Io Error (Unit {0})
  delete_all [] = pure tt
  delete_all (d ∷ ds) = perform (deleted d.path) >> delete_all ds

  -- `rescan_logical_units`
  unfoldable pub rescan_logical_units : ℕ → Io Error (Unit {0})
  unfolding delete_all
  rescan_logical_units host = do
    dirs ← asks (data_lu_dirs host)
    delete_all dirs
    works ← asks (λ h. w.scan_works h host)
    perform (scanned host)
    raise_if (not works) (rescan_failed host)

  -- What the wait for `fDeviceInit` does with an answer; `again` is the next round.
  unfoldable pub after_answer : ℕ → Io Error (Unit {0}) → Result Error Bool → Io Error (Unit {0})
  after_answer deadline again (ok false) = pure tt
  after_answer deadline again (ok true) = do
    time ← asks w.now
    if ltb time deadline then perform (slept 50) >> again else raise never_initialised
  after_answer deadline again (err e) = raise (reading_device_init e)
  after_answer deadline again panicked = halted

  -- Waiting for the device to clear `fDeviceInit`; fuel that runs out counts as no return.
  unfoldable pub await_init : ℕ → ℕ → Io Error (Unit {0})
  await_init zero deadline = halted
  await_init (suc fuel) deadline =
      attempt (read_flag w flag_device_init) >>= after_answer deadline (await_init fuel deadline)

  -- Whether the units are back: the disk's node exists, or some data unit has a block device.
  unfoldable pub units_back : ℕ → Option Text → History → Bool
  units_back host (some disk) h = w.exists h disk
  units_back host none h = any (λ d. has_node (w.lu_block_node h d.path)) (data_lu_dirs host h)
    where
      has_node : Option Text → Bool
      has_node none = false
      has_node (some node) = true

  abbrev missing : ℕ → Option Text → Error
  missing host (some disk) = did_not_come_back disk
  missing host none = no_logical_units host

  unfoldable pub await_units : ℕ → ℕ → ℕ → Option Text → Io Error (Unit {0})
  await_units zero deadline host disk = halted
  await_units (suc fuel) deadline host disk = do
    back ← asks (units_back host disk)
    time ← asks w.now
    if back
        then pure tt
        else if leb deadline time
        then raise (missing host disk)
        else (perform (slept 100) >> await_units fuel deadline host disk)

  -- `apply_configuration`: each loop sleeps at most 200 times before its deadline has passed.
  unfoldable pub apply_configuration : ℕ → Option Text → Io Error (Unit {0})
  unfolding await_init await_units rescan_logical_units
  apply_configuration host disk = do
    write_flag w flag_device_init true
    start ← asks w.now
    await_init 201 (start + device_init_timeout)
    rescan_logical_units host
    again ← asks w.now
    await_units 201 (again + rescan_timeout) host disk
