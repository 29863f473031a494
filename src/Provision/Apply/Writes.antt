-- ===== src/Provision/Apply/Writes.antt =====
-- Which writes `apply` sends for a plan, and in which order.
use flipperos_installer.Base.{
  ℕ, ◌≡◌, ◌≢◌, refl, ap, sym, ◌∙◌, true, false, ◌||◌, List, [], ◌∷◌, ◌++◌, Result, ok, err,
  panicked, length, ltb, ◌==◌,
}
use flipperos_installer.Ufs.Error.{Error as UfsError, payload_out_of_range}
use flipperos_installer.Ufs.Config.{ConfigDescriptor}
use flipperos_installer.Ufs.World.{
  World, Event, sent, History, data_out, raise_if, and_then, ◌>>◌, attempt, caught,
}
use flipperos_installer.Ufs.World.Trace.{and_then-eq-ok, and_then-pure, raise_if_lem}
use flipperos_installer.Ufs.Query.{
  query, read_descriptor, write_descriptor, write_attr, desc_query, plain_query, opcode_write_desc,
  opcode_write_attr,
}
use flipperos_installer.Provision.Error.{Error}
use flipperos_installer.Provision.Plan.{Plan}
use flipperos_installer.Provision.Apply.{
  in_ufs, of_ufs_result, write_clears, after_main, write_main, write_configuration,
}

module _ (w : World) where
  -- The query that writes a Configuration Descriptor.
  abbrev pub config_write : ℕ → ConfigDescriptor → Event
  config_write index d =
      sent (desc_query w opcode_write_desc 0x01 index (length d.bytes) (data_out d.bytes))

  -- The queries that clear the other descriptors, the latest first.
  unfoldable pub clear_writes : List (ℕ × ConfigDescriptor) → History
  clear_writes [] = []
  clear_writes ((index, d) ∷ more) = clear_writes more ++ config_write index d ∷ []

  -- The query that sets `bBootLunEn`.
  abbrev pub boot_write : ℕ → Event
  boot_write value = sent (plain_query w opcode_write_attr 0x00 value)

  of_ufs-ok :
      {A : Type 0} (r : Result UfsError A × History) (a : A) (h : History)
      → of_ufs_result r ≡ (ok a, h)
      → r ≡ (ok a, h)
  of_ufs-ok (ok b, h') a h e = cc
  of_ufs-ok (err x, h') a h e = cc
  of_ufs-ok (panicked, h') a h e = cc

  of_ufs-history : {A : Type 0} (r : Result UfsError A × History) → (of_ufs_result r).1 ≡ r.1
  of_ufs-history (r, h) = refl

  -- A refusal of the main descriptor is returned, whatever re-reading it gives.
  failed : (x : Error) (h1 h' : History) (u : Unit {0}) → after_main w (err x) h1 ≢ (ok u, h')
  failed x h1 h' u e =
      let (_, h2, _, e2) = and_then-eq-ok _ (attempt {F = Error} (read_descriptor w 0x01 0) h1) e in
      cc

  write_descriptor_lem :
      (index : ℕ) (d : ConfigDescriptor) (u : Unit {0}) (h h' : History)
      → in_ufs (write_descriptor w 0x01 index d.bytes) h ≡ (ok u, h')
      → h' ≡ config_write index d ∷ h
  unfolding write_descriptor
  write_descriptor_lem index d u h h' e =
      let n = length d.bytes in
      let q = desc_query w opcode_write_desc 0x01 index n (data_out d.bytes) in
      let e0 = of_ufs-ok (write_descriptor w 0x01 index d.bytes h) u h' e in
      let (_, h1, g, e1) =
        and_then-eq-ok _ (raise_if ((n == 0) || ltb 255 n) (payload_out_of_range n) h) e0 in
      let (_, same) = raise_if_lem ((n == 0) || ltb 255 n) (payload_out_of_range n) h h1 tt g in
      let (_, h2, a, e2) = and_then-eq-ok _ (query w q h1) e1 in
      sym (ap (λ r. r.1) e2) ∙ sym (ap (λ r. r.1) a) ∙ ap (λ l. sent q ∷ l) (sym same)

  write_attr_lem :
      (value : ℕ) (u : Unit {0}) (h h' : History)
      → in_ufs (write_attr w 0x00 value) h ≡ (ok u, h')
      → h' ≡ boot_write value ∷ h
  unfolding write_attr
  write_attr_lem value u h h' e =
      let q = plain_query w opcode_write_attr 0x00 value in
      let e0 = of_ufs-ok (write_attr w 0x00 value h) u h' e in
      let (_, h1, a, e1) = and_then-eq-ok _ (query w q h) e0 in
      sym (ap (λ r. r.1) e1) ∙ sym (ap (λ r. r.1) a)

  append_snoc : (xs : History) (x : Event) (ys : History) → (xs ++ x ∷ []) ++ ys ≡ xs ++ x ∷ ys
  append_snoc [] x ys = refl
  append_snoc (y ∷ xs) x ys = ap (λ l. y ∷ l) (append_snoc xs x ys)

  write_clears_lem :
      (cs : List (ℕ × ConfigDescriptor)) (u : Unit {0}) (h h' : History)
      → write_clears w cs h ≡ (ok u, h')
      → h' ≡ clear_writes cs ++ h
  unfolding write_clears clear_writes
  write_clears_lem [] u h h' e = ap (λ r. r.1) (sym e)
  write_clears_lem ((index, d) ∷ more) u h h' e =
      let (_, h1, w1, e1) = and_then-eq-ok _ (in_ufs (write_descriptor w 0x01 index d.bytes) h) e in
      write_clears_lem more u h1 h' e1
      ∙ ap (λ l. clear_writes more ++ l) (write_descriptor_lem index d tt h h1 w1)
      ∙ sym (append_snoc (clear_writes more) (config_write index d) h)

  write_main_lem :
      (d : ConfigDescriptor) (u : Unit {0}) (h h' : History)
      → write_main w d h ≡ (ok u, h')
      → h' ≡ config_write 0 d ∷ h
  unfolding write_main
  write_main_lem d u h h' e =
      main_case (in_ufs (write_descriptor w 0x01 0 d.bytes) h)
        (λ v h1 g. write_descriptor_lem 0 d v h h1 g) e
    where
      main_case :
          (r : Result Error (Unit {0}) × History)
          → ((v : Unit {0}) (h1 : History) → r ≡ (ok v, h1) → h1 ≡ config_write 0 d ∷ h)
          → and_then (after_main w) (caught r) ≡ (ok u, h')
          → h' ≡ config_write 0 d ∷ h
      main_case (ok v, h1) k e = sym (ap (λ r. r.1) e) ∙ k v h1 refl
      main_case (err x, h1) k e = absurd (failed x h1 h' u e)
      main_case (panicked, h1) k e = cc

  -- When the writes for a plan that needs its descriptor written all succeed, they are: first each
  -- descriptor that has to be cleared, in order, then the descriptor of index 0, then the active
  -- boot unit, and nothing else.
  pub write_configuration_order :
      (p : Plan) (h h' : History)
      → write_configuration w true p h ≡ (ok tt, h')
      → h' ≡ boot_write p.boot_lun_en ∷ config_write 0 p.descriptor ∷ (clear_writes p.clear ++ h)
  unfolding write_configuration
  write_configuration_order p h h' e =
      let (_, h1, e0, e1) =
        and_then-eq-ok _ ((write_clears w p.clear >> write_main w p.descriptor) h) e in
      let (_, h2, c, m) = and_then-eq-ok _ (write_clears w p.clear h) e0 in
      write_attr_lem p.boot_lun_en tt h1 h' e1
      ∙ ap (λ l. boot_write p.boot_lun_en ∷ l)
          (write_main_lem p.descriptor tt h2 h1 m
            ∙ ap (λ l. config_write 0 p.descriptor ∷ l) (write_clears_lem p.clear tt h h2 c))

  -- For a device whose layout is right, the only write is that of the active boot unit, whether it
  -- succeeds or not: nothing is erased.
  pub write_configuration_only_boot :
      (p : Plan) (h : History) → (write_configuration w false p h).1 ≡ boot_write p.boot_lun_en ∷ h
  unfolding write_configuration write_attr
  write_configuration_only_boot p h =
      let q = plain_query w opcode_write_attr 0x00 p.boot_lun_en in
      of_ufs-history (write_attr w 0x00 p.boot_lun_en h) ∙ and_then-pure (λ _. tt {0}) (query w q h)
