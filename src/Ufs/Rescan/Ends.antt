-- ===== src/Ufs/Rescan/Ends.antt =====
-- The waiting loops of `apply_configuration` end: the fuel outlasts the deadlines.
use flipperos_installer.Base.{
  ℕ, zero, suc, ◌+◌, ◌*◌, ◌≤◌, ◌<◌, ◌≢◌, refl, Bool, true, false, Bool-cases, inl, inr, List, [],
  ◌∷◌, Option, Result, ok, err, panicked, ltb, if◌then◌else◌, arith, Text,
}
use flipperos_installer.Ufs.World.{
  World, Event, History, sent, slept, deleted, Io, and_then, caught, LuDir,
}
use flipperos_installer.Ufs.World.Trace.{and_then-ne_panicked}
use flipperos_installer.Ufs.Error.{Error}
use flipperos_installer.Ufs.Query.{
  plain_query, opcode_read_flag, opcode_set_flag, opcode_clear_flag, query, judge, read_flag,
  write_flag, flag_device_init,
}
use flipperos_installer.Ufs.Rescan.{
  await_init, after_answer, await_units, apply_configuration, rescan_logical_units, delete_all,
  data_lu_dirs,
}

-- The clock never runs back, and a sleep takes at least its time.
pub record Ticks (w : World) : Type 0 where
  pub never_back : (h : History) (e : Event) → w.now h ≤ w.now (e ∷ h)
  pub sleeps : (h : History) (ms : ℕ) → w.now h + ms ≤ w.now (slept ms ∷ h)

-- A call does not panic, and does not turn the clock back.
abbrev pub Steady : {A : Type 0} → World → Io Error A → Type 0
Steady w m = (h : History) → ((m h).0 ≢ panicked) × (w.now h ≤ w.now (m h).1)

module _ (w : World) (t : Ticks w) where
  read_flag-Steady : (idn : ℕ) → Steady w (read_flag w idn)
  unfolding read_flag query judge
  read_flag-Steady idn h = (
    λ p. ground arith,
    ground (arith, t.never_back h (sent (plain_query w opcode_read_flag idn 0))),
  )

  write_flag-Steady : (idn : ℕ) (on : Bool) → Steady w (write_flag w idn on)
  unfolding write_flag query judge
  write_flag-Steady idn on h = (
    λ p. ground arith,
    ground (
      arith,
      t.never_back h
          (sent (plain_query w (if on then opcode_set_flag else opcode_clear_flag) idn 0)),
    ),
  )

  init_round :
      (fuel deadline : ℕ) (h : History) (r : Result Error Bool × History)
      → (again : (h' : History)
          → w.now h + 50 ≤ w.now h'
          → w.now h < deadline
          → (await_init w fuel deadline h').0 ≢ panicked)
      → r.0 ≢ panicked
      → w.now h ≤ w.now r.1
      → (and_then (after_answer w deadline (await_init w fuel deadline)) (caught r)).0 ≢ panicked
  unfolding after_answer
  init_round fuel deadline h (ok false, h1) again n le = λ p. cc
  init_round fuel deadline h (ok true, h1) again n le =
      elim (Bool-cases (ltb (w.now h1) deadline)) [
        | inl early ↦
            rw early (again (slept 50 ∷ h1) (omega (arith, t.sleeps h1 50)) (ground arith))
        | inr late ↦ rw late λ p. cc
      ]
  init_round fuel deadline h (err e, h1) again n le = λ p. cc
  init_round fuel deadline h (panicked, h1) again n le = absurd (n refl)

  await_init-ne_panicked :
      (fuel deadline : ℕ) (h : History)
      → deadline ≤ w.now h + 50 * fuel
      → (await_init w (suc fuel) deadline h).0 ≢ panicked
  unfolding await_init
  await_init-ne_panicked zero deadline h lt =
      init_round zero deadline h (read_flag w flag_device_init h)
        (λ h' le early. absurd (omega arith)) (read_flag-Steady flag_device_init h).0
        (read_flag-Steady flag_device_init h).1
  await_init-ne_panicked (suc fuel) deadline h lt =
      init_round (suc fuel) deadline h (read_flag w flag_device_init h)
        (λ h' le early. await_init-ne_panicked fuel deadline h' (omega arith))
        (read_flag-Steady flag_device_init h).0 (read_flag-Steady flag_device_init h).1

  await_units-ne_panicked :
      (fuel deadline host : ℕ) (disk : Option Text) (h : History)
      → deadline ≤ w.now h + 100 * fuel
      → (await_units w (suc fuel) deadline host disk h).0 ≢ panicked
  unfolding await_units
  await_units-ne_panicked zero deadline host disk h lt = λ p. ground arith
  await_units-ne_panicked (suc fuel) deadline host disk h lt = λ p.
      ground
        (arith, t.sleeps h 100, await_units-ne_panicked fuel deadline host disk (slept 100 ∷ h))

  delete_all-ne_panicked : (ds : List LuDir) (h : History) → (delete_all w ds h).0 ≢ panicked
  unfolding delete_all
  delete_all-ne_panicked [] h = λ p. cc
  delete_all-ne_panicked (d ∷ ds) h = delete_all-ne_panicked ds (deleted d.path ∷ h)

  rescan-ne_panicked : (host : ℕ) (h : History) → (rescan_logical_units w host h).0 ≢ panicked
  unfolding rescan_logical_units
  rescan-ne_panicked host h =
      let dirs = data_lu_dirs w host h in
      and_then-ne_panicked _ (delete_all w dirs h) (delete_all-ne_panicked dirs h)
        λ _ h1 p. ground arith

  -- Where the clock keeps its promises, `apply_configuration` returns: neither wait outlasts its
  -- fuel, whatever the device and the file system answer.
  pub apply_configuration-ne_panicked :
      (host : ℕ) (disk : Option Text) (h : History)
      → (apply_configuration w host disk h).0 ≢ panicked
  unfolding apply_configuration
  apply_configuration-ne_panicked host disk h =
      and_then-ne_panicked _ (write_flag w flag_device_init true h)
        (write_flag-Steady flag_device_init true h).0
        λ _ h1.
          and_then-ne_panicked _ (await_init w 201 (w.now h1 + 10000) h1)
            (await_init-ne_panicked 200 (w.now h1 + 10000) h1 (omega arith))
            λ _ h2.
              and_then-ne_panicked _ (rescan_logical_units w host h2) (rescan-ne_panicked host h2)
                λ _ h3. await_units-ne_panicked 200 (w.now h3 + 20000) host disk h3 (omega arith)
