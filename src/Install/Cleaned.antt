-- ===== src/Install/Cleaned.antt =====
-- src/core/install.rs: once the target is mounted, every way that the installation ends unmounts it.
use flipperos_installer.Base.{
  ◌≡◌, ◌≢◌, ◌⊎◌, refl, sym, ap, ◌∙◌, false, List, [], ◌∷◌, ◌++◌, All, All-append, Any, Option, none,
  some, Text, codes, Result, ok, err, panicked, inl, inr,
}
use mathlib.Core.List.{append_assoc}
use flipperos_installer.Base.Calls.{pure, lift, ◌>>=◌, ◌>>◌, attempt, caught, and_then}
use flipperos_installer.Machine.{Machine, Log, Effect, ran, Io, exec, outcome}
use flipperos_installer.Model.{ProfilePack}
use flipperos_installer.Layout.{Layout}
use flipperos_installer.Stage.Run.{OnMismatch}
use flipperos_installer.Install.{write_images, deploy, install}
use flipperos_installer.Install.VerifyFirst.{real}
use flipperos_installer.Install.Selected.{Installation}
use flipperos_installer.Install.Gpt.{root_part_index}
use flipperos_installer.Install.Commands.{
  umount_recursive, umount_all, umount_one, lazily, raise_some, unmount, mountpoints_under, failure,
  first_failure, target_mnt, partition_path, failure, first_failure,
}
use flipperos_installer.Install.Filesystem.{
  mount_filesystem, make_filesystem, create_skeleton, finally, on_failure,
}
use flipperos_installer.Install.Calm.{IsCalm, deploy-IsCalm, create_skeleton-IsCalm}

abbrev pub umount_of : Text → Effect
umount_of mp = ran (codes "umount" ∷ mp ∷ [])

abbrev pub IsUmount : Effect → Type 0
IsUmount (ran (program ∷ args)) = program ≡ codes "umount"
IsUmount _ = ⊥

-- What was done last: from some moment on nothing but unmounts, of every mount point that the mount
-- table listed at or under the directory at that moment.
abbrev pub IsCleaned : Machine → Text → Log → Type 0
IsCleaned m dir h' =
    (h : Log) × (new : List Effect) × (h' ≡ new ++ h)
    × All IsUmount new
    × All (λ mp. Any (λ e. e ≡ umount_of mp) new) (mountpoints_under m dir h)

Any-behind : (P : Effect → Type 0) (xs ys : List Effect) → Any P ys → Any P (xs ++ ys)
Any-behind P [] ys a = a
Any-behind P (x ∷ xs) ys a = inr (Any-behind P xs ys a)

Any-before : (P : Effect → Type 0) (xs ys : List Effect) → Any P xs → Any P (xs ++ ys)
Any-before P [] ys a = elim a [ ]
Any-before P (x ∷ xs) ys (inl p) = inl p
Any-before P (x ∷ xs) ys (inr a) = inr (Any-before P xs ys a)

All-widen :
    (new more : List Effect) (mps : List Text)
    → All (λ mp. Any (λ e. e ≡ umount_of mp) new) mps
    → All (λ mp. Any (λ e. e ≡ umount_of mp) (new ++ more)) mps
All-widen new more [] a = tt
All-widen new more (mp ∷ mps) a =
    (Any-before (λ e. e ≡ umount_of mp) new more a.0, All-widen new more mps a.1)

-- An unmount of one mount point adds that unmount, and perhaps a lazy one.
umount_one-ok :
    (m : Machine) (mp : Text) (h : Log)
    → (o : Option Text) × (new : List Effect) × (umount_one m mp h
        ≡ (ok o, new ++ (umount_of mp ∷ h)))
      × All IsUmount new
unfolding umount_one lazily exec
umount_one-ok m mp h = tried (m.runs h (codes "umount" ∷ mp ∷ []))
  where
    lazy : Effect
    lazy = ran (codes "umount" ∷ codes "-l" ∷ mp ∷ [])

    again :
        (o : Option Text)
        → (p : Option Text) × (new : List Effect) × (and_then {Ev = Effect} {E = Text}
              (λ r. pure (failure r))
              (caught (outcome o, lazy ∷ umount_of mp ∷ h))
            ≡ (ok p, new ++ (umount_of mp ∷ h)))
          × All IsUmount new
    again none = (none, lazy ∷ [], refl, (refl, tt))
    again (some e) = (some e, lazy ∷ [], refl, (refl, tt))

    tried :
        (o : Option Text)
        → (p : Option Text) × (new : List Effect) × (and_then {Ev = Effect} {E = Text}
              (lazily m mp)
              (caught (outcome o, umount_of mp ∷ h))
            ≡ (ok p, new ++ (umount_of mp ∷ h)))
          × All IsUmount new
    tried none = (none, [], refl, tt)
    tried (some e) = again (m.runs (umount_of mp ∷ h) (codes "umount" ∷ codes "-l" ∷ mp ∷ []))

-- The loop over mount points unmounts each of them.
umount_all-ok :
    (m : Machine) (mps : List Text) (h : Log)
    → (o : Option Text) × (new : List Effect) × (umount_all m mps h ≡ (ok o, new ++ h))
      × All IsUmount new
      × All (λ mp. Any (λ e. e ≡ umount_of mp) new) mps
unfolding umount_all
umount_all-ok m [] h = (none, [], refl, tt, tt)
umount_all-ok m (mp ∷ mps) h =
    let (o, new, e, a) = umount_one-ok m mp h in
    let (o', more, e', a', each) = umount_all-ok m mps (new ++ (umount_of mp ∷ h)) in
    let all_new = more ++ (new ++ (umount_of mp ∷ [])) in
    (
      first_failure o o',
      all_new,
      ap (and_then (λ x. umount_all m mps >>= λ y. pure (first_failure x y))) e
          ∙ ap (and_then (λ y. pure (first_failure o y))) e'
          ∙ ap (λ l. (ok (first_failure o o'), l))
              (ap (λ l. more ++ l) (sym (append_assoc new (umount_of mp ∷ []) h))
                ∙ sym (append_assoc more (new ++ (umount_of mp ∷ [])) h)),
      All-append IsUmount more _ a' (All-append IsUmount new _ a (refl, tt)),
      (
        Any-behind (λ x. x ≡ umount_of mp) more _
            (Any-behind (λ x. x ≡ umount_of mp) new _ (inl refl)),
        All-widen more (new ++ (umount_of mp ∷ [])) mps each,
      ),
    )

raise_some-log : (o : Option Text) (h : Log) → (raise_some o h).1 ≡ h
raise_some-log none h = refl
raise_some-log (some e) h = refl

umount_recursive-IsCleaned :
    (m : Machine) (dir : Text) (h : Log) → IsCleaned m dir (umount_recursive m false dir h).1
unfolding umount_recursive
umount_recursive-IsCleaned m dir h =
    let (o, new, e, a, each) = umount_all-ok m (mountpoints_under m dir h) h in
    (h, new, ap (λ r. (and_then raise_some r).1) e ∙ raise_some-log o (new ++ h), a, each)

unmount-IsCleaned :
    (m : Machine) (h : Log) → IsCleaned m target_mnt (unmount m false target_mnt h).1
unfolding unmount exec
unmount-IsCleaned m h = umount_recursive-IsCleaned m target_mnt (ran (codes "sync" ∷ []) ∷ h)

-- What ends by a second call does that last, unless the first panics.
finally-IsCleaned :
    (m : Machine) (work cleanup : Io (Unit {0})) (h : Log)
    → IsCalm work
    → ((h : Log) → IsCleaned m target_mnt (cleanup h).1)
    → IsCleaned m target_mnt (finally work cleanup h).1
finally-IsCleaned m work cleanup h c k = done (work h) (c h)
  where
    ended :
        (r : Result Text (Unit {0})) (r' : Result Text (Unit {0}) × Log)
        → IsCleaned m target_mnt r'.1
        → IsCleaned m target_mnt
            (and_then {Ev = Effect} {E = Text} (λ x. lift r >> lift x) (caught r')).1
    ended r (panicked, h') d = d
    ended (ok u) (ok v, h') d = d
    ended (ok u) (err e, h') d = d
    ended (err e) (ok v, h') d = d
    ended (err e) (err f, h') d = d
    ended panicked (ok v, h') d = d
    ended panicked (err e, h') d = d

    done :
        (r : Result Text (Unit {0}) × Log)
        → r.0 ≢ panicked
        → IsCleaned m target_mnt
            (and_then {Ev = Effect} {E = Text}
              (λ x. attempt cleanup >>= λ y. lift x >> lift y)
              (caught r)).1
    done (panicked, h') n = absurd (n refl)
    done (ok u, h') n = ended (ok u) (cleanup h') (k h')
    done (err e, h') n = ended (err e) (cleanup h') (k h')

-- A call that fails ends a chain, which then leaves the log as the call did.
abbrev pub EndsAt : Result Text (Unit {0}) × Log → Result Text (Unit {0}) × Log → Type 0
EndsAt part whole = (part.0 ≢ ok tt) × (whole.0 ≢ ok tt) × (whole.1 ≡ part.1)

module _ (m : Machine) (c u : Text) (layout : Layout) (policy : OnMismatch)
    (json : Result Text Text) (j : Installation) (base : ProfilePack) where
  abbrev work : Io (Unit {0})
  work = deploy m (real c u) layout policy json j base

  abbrev skeleton : Io (Unit {0})
  skeleton =
      on_failure (create_skeleton m false target_mnt layout.subvolumes)
        (umount_recursive m false target_mnt)

  abbrev tidied : Io (Unit {0})
  tidied = finally work (unmount m false target_mnt)

  -- After the mount: the skeleton, and the rest unless it failed
  skeleton_then :
      (r : Result Text (Unit {0}) × Log)
      → r.0 ≢ panicked
      → IsCleaned m target_mnt
          (and_then {Ev = Effect} {E = Text}
            (λ _. tidied)
            (on_failure (λ _. r) (umount_recursive m false target_mnt) [])).1
  skeleton_then (ok v, h) n =
      finally-IsCleaned m work (unmount m false target_mnt) h
        (deploy-IsCalm m (real c u) layout policy json j base) (unmount-IsCleaned m)
  skeleton_then (err e, h) n = umount_recursive-IsCleaned m target_mnt h
  skeleton_then (panicked, h) n = absurd (n refl)

  mount_then :
      (r : Result Text (Unit {0}) × Log)
      → EndsAt r (
          and_then {Ev = Effect} {E = Text}
            (λ _. tidied)
            (and_then {Ev = Effect} {E = Text} (λ _. skeleton) r))
        ⊎ IsCleaned m target_mnt
            (and_then {Ev = Effect} {E = Text}
              (λ _. tidied)
              (and_then {Ev = Effect} {E = Text} (λ _. skeleton) r)).1
  mount_then (ok v, h) = inr (
      skeleton_then (create_skeleton m false target_mnt layout.subvolumes h)
        (create_skeleton-IsCalm m false target_mnt layout.subvolumes h))
  mount_then (err e, h) = inl (λ p. cc, λ p. cc, refl)
  mount_then (panicked, h) = inl (λ p. cc, λ p. cc, refl)

  abbrev mounting : Io (Unit {0})
  mounting = mount_filesystem m false (partition_path j.device.path root_part_index) layout

  images_then :
      (r : Result Text (Unit {0}) × Log)
      → EndsAt r (and_then {Ev = Effect} {E = Text} (λ _. (mounting >> skeleton) >> tidied) r)
        ⊎ (EndsAt
              (mounting r.1)
              (and_then {Ev = Effect} {E = Text} (λ _. (mounting >> skeleton) >> tidied) r)
            ⊎ IsCleaned m target_mnt
                (and_then {Ev = Effect} {E = Text} (λ _. (mounting >> skeleton) >> tidied) r).1)
  images_then (ok v, h) = inr (mount_then (mounting h))
  images_then (err e, h) = inl (λ p. cc, λ p. cc, refl)
  images_then (panicked, h) = inl (λ p. cc, λ p. cc, refl)

-- An installation that is no dry run ends in one of three ways: it fails with the writing of the
-- images, and does nothing more; or with the making and mounting of the file system, and does
-- nothing more; or the target is mounted, and then, whether the rest succeeds, fails or meets a
-- mismatch, the last that is done is to unmount everything that the mount table lists at or under
-- the target's mount point.
pub install-IsCleaned :
    (m : Machine) (c u : Text) (layout : Layout) (policy : OnMismatch) (json : Result Text Text)
    (j : Installation) (base : ProfilePack) (h : Log)
    → EndsAt
        (write_images m (real c u) policy j h)
        (install m (real c u) layout policy json j base h)
      ⊎ (EndsAt
            (mount_filesystem m false
              (partition_path j.device.path root_part_index)
              layout
              (write_images m (real c u) policy j h).1)
            (install m (real c u) layout policy json j base h)
          ⊎ IsCleaned m target_mnt (install m (real c u) layout policy json j base h).1)
unfolding install make_filesystem
install-IsCleaned m c u layout policy json j base h =
    images_then m c u layout policy json j base (write_images m (real c u) policy j h)
