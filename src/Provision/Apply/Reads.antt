-- ===== src/Provision/Apply/Reads.antt =====
-- `probe`, and every way for `apply` to stop early, only read from the device.
use flipperos_installer.Base.{
  ℕ, ◌≡◌, refl, sym, ap, subst, ◌∙◌, ◌⊎◌, inl, inr, Bool, true, false, not, Bool-cases, ◌&&◌, List,
  [], ◌∷◌, Option, none, some, Text, Result, ok, err, if◌then◌else◌, ltb, min, arith,
}
use flipperos_installer.Ufs.Error.{Error as UfsError, impossible_length, open_failed}
use flipperos_installer.Ufs.Bytes.{u8_at}
use flipperos_installer.Ufs.Config.{wrap_config, empty_config, set_conf_desc_continue}
use flipperos_installer.Ufs.Geometry.{parse_geometry}
use flipperos_installer.Ufs.Device.{DeviceDescriptor, parse_device}
use flipperos_installer.Ufs.World.{
  World, Event, pure, ◌>>◌, sent, deleted, scanned, slept, History, Query, data_in, Io, ◌>>=◌,
  raise_if, lift, attempt, and_then,
}
use flipperos_installer.Ufs.World.Trace.{
  Grown, Adds, >>=-Adds, Grown-refl, raise_if-Adds, if-Adds, attempt-Adds, and_then-pure,
}
use flipperos_installer.Ufs.Query.{
  is_write, query, opcode_read_desc, opcode_read_attr, opcode_read_flag, plain_query, read_bytes,
  open_bsg, read_descriptor, read_attr, read_flag, desc_query,
}
use flipperos_installer.Provision.Error.{Error, of_ufs, in_use}
use flipperos_installer.Provision.Scheme.{Scheme, Origin}
use flipperos_installer.Provision.Compare.{Target, Status, is_provisioned, needs_descriptor_write}
use flipperos_installer.Provision.Apply.{
  in_ufs, of_ufs_result, extra_descriptors, read_device, probe, check_idle, is_idle, act, apply,
  reprovision, holds_units,
}

-- A query that does not change the device.
abbrev pub IsRead : Event → Type 0
IsRead (sent q) = is_write q.opcode ≡ false
IsRead (deleted path) = ⊥
IsRead (scanned host) = ⊥
IsRead (slept ms) = ⊥

pub in_ufs-Adds :
    {A : Type 0} (P : Event → Type 0) (m : Io UfsError A) → Adds P m → Adds P (in_ufs m)
in_ufs-Adds {A = A} P m a h = go (m h) (a h)
  where
    go : (r : Result UfsError A × History) → Grown P h r.1 → Grown P h (of_ufs_result r).1
    go (r, h') g = g

module _ {A B : Type 0} where
  -- A pure step, then the rest.
  lift_then :
      (r : Result Error A) (next : A → Io Error B)
      → ((a : A) → Adds IsRead (next a))
      → Adds IsRead (lift r >>= next)
  lift_then r next k = >>=-Adds {E = Error} IsRead (lift r) next (λ h. Grown-refl IsRead h) k

  -- A step of the descriptor code, then the rest.
  ufs_then :
      (m : Io UfsError A) (next : A → Io Error B)
      → Adds IsRead m
      → ((a : A) → Adds IsRead (next a))
      → Adds IsRead (in_ufs m >>= next)
  ufs_then m next a k = >>=-Adds {E = Error} IsRead (in_ufs m) next (in_ufs-Adds IsRead m a) k

module _ (w : World) where
  query-Adds : (q : Query) → is_write q.opcode ≡ false → Adds IsRead (query w q)
  unfolding query
  query-Adds q e h = (sent q ∷ [], refl, (e, tt))

  open_bsg-Adds : (node : Text) → Adds IsRead (open_bsg w node)
  unfolding open_bsg
  open_bsg-Adds node h = raise_if-Adds IsRead (not (w.can_open h node)) (open_failed node) h

  -- One query of a descriptor's first bytes.
  read_bytes-Adds : (idn index n : ℕ) → Adds IsRead (read_bytes w idn index n)
  unfolding query
  read_bytes-Adds idn index n =
      >>=-Adds {E = UfsError} IsRead
        (query w (desc_query w opcode_read_desc idn index n (data_in n))) _
        (query-Adds (desc_query w opcode_read_desc idn index n (data_in n)) refl)
        λ r h. Grown-refl IsRead h

  read_descriptor-Adds : (idn index : ℕ) → Adds IsRead (read_descriptor w idn index)
  unfolding read_descriptor
  read_descriptor-Adds idn index =
      >>=-Adds {E = UfsError} IsRead (read_bytes w idn index 2) _ (read_bytes-Adds idn index 2)
        λ header.
          let len = u8_at header 0 in
          >>=-Adds {E = UfsError} IsRead (raise_if (ltb len 2) (impossible_length idn index len)) _
            (raise_if-Adds IsRead (ltb len 2) (impossible_length idn index len))
            λ _. read_bytes-Adds idn index (min len 255)

  read_attr-Adds : (idn : ℕ) → Adds IsRead (read_attr w idn)
  unfolding read_attr
  read_attr-Adds idn =
      >>=-Adds {E = UfsError} IsRead (query w (plain_query w opcode_read_attr idn 0)) _
        (query-Adds (plain_query w opcode_read_attr idn 0) refl) λ r h. Grown-refl IsRead h

  read_flag-Adds : (idn : ℕ) → Adds IsRead (read_flag w idn)
  unfolding read_flag
  read_flag-Adds idn =
      >>=-Adds {E = UfsError} IsRead (query w (plain_query w opcode_read_flag idn 0)) _
        (query-Adds (plain_query w opcode_read_flag idn 0) refl) λ r h. Grown-refl IsRead h

  extra-Adds : (dev : DeviceDescriptor) (is : List ℕ) → Adds IsRead (extra_descriptors w dev is)
  unfolding extra_descriptors
  extra-Adds dev [] = λ h. Grown-refl IsRead h
  extra-Adds dev (i ∷ is) =
      >>=-Adds {E = Error} IsRead (attempt (read_descriptor w 0x01 i)) _
        (attempt-Adds Error IsRead (read_descriptor w 0x01 i) (read_descriptor-Adds 0x01 i))
        λ bytes.
          if-Adds {E = Error} IsRead (holds_units dev bytes) _ _
            (lift_then (empty_config dev) _ λ blank.
              lift_then (set_conf_desc_continue blank 1) _ λ empty.
                >>=-Adds {E = Error} IsRead (extra_descriptors w dev is) _ (extra-Adds dev is)
                  λ rest h. Grown-refl IsRead h)
            (extra-Adds dev is)

  read_device-Adds : (target : Target) → Adds IsRead (read_device w target)
  unfolding read_device
  read_device-Adds target = ufs_then (open_bsg w target.bsg) _ (open_bsg-Adds target.bsg) λ _.
      ufs_then (read_descriptor w 0x00 0) _ (read_descriptor-Adds 0x00 0) λ dev_bytes.
        lift_then (of_ufs (parse_device dev_bytes)) _ λ dev.
          ufs_then (read_descriptor w 0x07 0) _ (read_descriptor-Adds 0x07 0) λ geo_bytes.
            lift_then (of_ufs (parse_geometry geo_bytes)) _ λ geo.
              ufs_then (read_descriptor w 0x01 0) _ (read_descriptor-Adds 0x01 0) λ cfg_bytes.
                lift_then (of_ufs (wrap_config cfg_bytes dev)) _ λ current.
                  ufs_then (read_attr w 0x00) _ (read_attr-Adds 0x00) λ boot_lun.
                    ufs_then (read_attr w 0x0B) _ (read_attr-Adds 0x0B) λ lock.
                      >>=-Adds {E = Error} IsRead (attempt (read_flag w 0x03)) _
                        (attempt-Adds Error IsRead (read_flag w 0x03) (read_flag-Adds 0x03))
                        λ power_on.
                          >>=-Adds {E = Error} IsRead (attempt (read_flag w 0x02)) _
                            (attempt-Adds Error IsRead (read_flag w 0x02) (read_flag-Adds 0x02))
                            λ permanent.
                              >>=-Adds {E = Error} IsRead _ _ (extra-Adds dev _)
                                λ clear h. Grown-refl IsRead h

  -- Probing a device only reads from it.
  pub probe-IsRead :
      (target : Target) (scheme : Scheme) (origin : Origin)
      → Adds IsRead (probe w target scheme origin)
  unfolding probe
  probe-IsRead target scheme origin =
      >>=-Adds {E = Error} IsRead (read_device w target) _ (read_device-Adds target)
        λ r h. Grown-refl IsRead h

  -- Some process holds the disk open.
  abbrev pub Busy : Option Text → History → Type 0
  Busy none h = ⊥
  Busy (some node) h = is_idle w (w.device_in_use h node) ≡ false

  -- Why `apply` leaves a device alone.
  pub data Reason (dry_run : Bool) (target : Target) (status : Status) (h : History) : Type 0 where
    only_dry : dry_run ≡ true → Reason dry_run target status h
    already : is_provisioned status ≡ true → Reason dry_run target status h
    locked :
        (status.config_locked && needs_descriptor_write status) ≡ true
        → Reason dry_run target status h
    busy : Busy target.disk h → Reason dry_run target status h

  busy_lem :
      (disk : Option Text) (h : History)
      → Busy disk h
      → (node : Text) × (disk ≡ some node) × (check_idle w disk h ≡ (err (in_use node), h))
  unfolding check_idle
  busy_lem none h e = elim e [ ]
  busy_lem (some node) h e = (node, refl, rw e)

  idle_lem : (disk : Option Text) (h : History) → (check_idle w disk h).1 ≡ h
  unfolding check_idle
  idle_lem none h = refl
  idle_lem (some node) h = ground arith

  unlocked_stops :
      (dry_run : Bool) (target : Target) (scheme : Scheme) (origin : Origin) (status : Status)
      (h : History)
      → (dry_run ≡ true) ⊎ Busy target.disk h
      → ((check_idle w target.disk
            >> (if dry_run then pure tt else reprovision w target scheme origin status))
          h).1
        ≡ h
  unlocked_stops dry_run target scheme origin status h (inl e) =
      rw e (
        and_then-pure {B = Unit {0}} (λ _. tt) (check_idle w target.disk h)
        ∙ idle_lem target.disk h)
  unlocked_stops dry_run target scheme origin status h (inr b) =
      let (node, _, e) = busy_lem target.disk h b in rw e refl

  -- What a guarded call of `act` does to the history: nothing.
  act_stops :
      (dry_run : Bool) (target : Target) (scheme : Scheme) (origin : Origin) (status : Status)
      (h : History)
      → Reason dry_run target status h
      → (act w dry_run target scheme origin status h).1 ≡ h
  unfolding act
  act_stops dry_run target scheme origin status h reason =
      elim (Bool-cases (is_provisioned status)) [
        | inl p ↦ rw p refl
        | inr n ↦ elim (Bool-cases (status.config_locked && needs_descriptor_write status)) [
          | inl l ↦ rw (n, l) refl
          | inr u ↦
              rw (n, u) (unlocked_stops dry_run target scheme origin status h (still n u reason))
        ]
      ]
    where
      still :
          is_provisioned status ≡ false
          → (status.config_locked && needs_descriptor_write status) ≡ false
          → Reason dry_run target status h
          → (dry_run ≡ true) ⊎ Busy target.disk h
      still n u (only_dry e) = inl e
      still n u (already e) = absurd (ground arith)
      still n u (locked e) = absurd (ground arith)
      still n u (busy b) = inr b

  -- Where the run is a dry one, the device is provisioned already, its configuration is locked
  -- though it has to be written, or its disk is in use, `apply` only reads from the device.
  pub apply-IsRead :
      (dry_run : Bool) (target : Target) (scheme : Scheme) (origin : Origin) (status : Status)
      (h h1 : History)
      → probe w target scheme origin h ≡ (ok status, h1)
      → Reason dry_run target status h1
      → Grown IsRead h (apply w dry_run target scheme origin h).1
  unfolding apply
  apply-IsRead dry_run target scheme origin status h h1 e reason =
      let next = act w dry_run target scheme origin in
      let same =
        ap (λ r. (and_then next r).1) e
        ∙ act_stops dry_run target scheme origin status h1 reason
        ∙ sym (ap (λ r. r.1) e) in
      let g = probe-IsRead target scheme origin h in subst (Grown IsRead h) (sym same) g
