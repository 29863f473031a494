-- ===== src/Simulator.antt =====
-- A simulated system with the Foresee part of Samples, for the tests of the work on a device.
use flipperos_installer.Base.{
  ℕ, ◌+◌, ◌≤◌, true, false, ◌&&◌, List, [], ◌∷◌, ◌++◌, replicate, some, codes, if◌then◌else◌, ◌==◌,
  arith,
}
use flipperos_installer.Samples.{foresee_device, foresee_geometry, foresee_config}
use flipperos_installer.Ufs.Bytes.{u8_at}
use flipperos_installer.Ufs.World.{
  World, Dir, no_data, data_in, data_out, Query, Event, sent, deleted, scanned, slept, History,
  Answer, refused, replied, LuDir,
}
use flipperos_installer.Ufs.Rescan.Ends.{Ticks}

-- The Configuration Descriptor of index 0 that was written last.
abbrev config_of : Query → Dir → List ℕ → List ℕ
config_of q (data_out bytes) old = if (q.opcode == 2) && (q.index == 0) then bytes else old
config_of q (data_in n) old = old
config_of q no_data old = old

abbrev config_now : History → List ℕ
config_now [] = foresee_config
config_now (sent q ∷ h) = let old = config_now h in config_of q q.dir old
config_now (deleted p ∷ h) = config_now h
config_now (scanned n ∷ h) = config_now h
config_now (slept n ∷ h) = config_now h

abbrev boot_now : History → ℕ
boot_now [] = 0
boot_now (sent q ∷ h) =
    let old = boot_now h in if (q.opcode == 4) && (q.idn == 0) then q.value else old
boot_now (deleted p ∷ h) = boot_now h
boot_now (scanned n ∷ h) = boot_now h
boot_now (slept n ∷ h) = boot_now h

abbrev clock : History → ℕ
clock [] = 0
clock (sent q ∷ h) = clock h
clock (deleted p ∷ h) = clock h
clock (scanned n ∷ h) = clock h
clock (slept n ∷ h) = n + clock h

abbrev fine : ℕ → List ℕ → Answer
fine value payload = replied (record {
  result = 0;
  upiu = replicate 20 0 ++ (0 ∷ 0 ∷ 0 ∷ value ∷ replicate 8 0);
  payload = payload;
})

abbrev descriptor_of : History → ℕ → ℕ → Answer
descriptor_of h idn index =
    if idn == 0
    then fine 0 foresee_device
    else if idn == 7
    then fine 0 foresee_geometry
    else if index == 0
    then fine 0 (config_now h)
    else refused

abbrev answer : History → List ℕ → Dir → Answer
answer h upiu dir =
    let opcode = u8_at upiu 12 in
    let idn = u8_at upiu 13 in
    if opcode == 1
    then descriptor_of h idn (u8_at upiu 14)
    else if (opcode == 3) && (idn == 0)
    then fine (boot_now h) []
    else fine 0 []

-- Two data units and a well-known one.
abbrev entries : List LuDir
entries =
    record { path = codes "t/0:0:0:49488"; name = codes "0:0:0:49488"; is_device = true }
    ∷ record { path = codes "t/0:0:0:1"; name = codes "0:0:0:1"; is_device = true }
    ∷ record { path = codes "t/power"; name = codes "power"; is_device = false }
    ∷ record { path = codes "t/0:0:0:0"; name = codes "0:0:0:0"; is_device = true }
    ∷ []

abbrev pub simulated : World
simulated = record {
  ioctl = answer;
  can_open = λ h node. true;
  now = clock;
  target_entries = λ h host. entries;
  lu_block_node = λ h path. some (codes "/dev/sda");
  exists = λ h path. true;
  scan_works = λ h host. true;
  identity = λ h host. some (codes "FORESEE");
  device_in_use = λ h node. [];
}

pub simulated-Ticks : Ticks simulated
simulated-Ticks = record { never_back = back; sleeps = λ h ms. omega arith }
  where
    back : (h : History) (e : Event) → clock h ≤ clock (e ∷ h)
    back h (sent q) = omega arith
    back h (deleted p) = omega arith
    back h (scanned n) = omega arith
    back h (slept n) = omega arith
