-- ===== src/Install/Harmless.antt =====
-- What an installation does before it stages its artifacts erases nothing.
use flipperos_installer.Base.{
  ℕ, ◌≡◌, refl, Bool, true, false, List, [], ◌∷◌, ◌++◌, Option, none, some, Text, codes, Result, ok,
  err, panicked, if◌then◌else◌,
}
use flipperos_installer.Base.Calls.{attempt, pure, raise, lift, ◌>>=◌, ◌>>◌}
use flipperos_installer.Added.{Adds, Grown, Grown-refl, Grown-trans, >>=-Adds, attempt-Adds}
use flipperos_installer.Machine.{
  Machine, Log, Effect, ran, removed_dir, made_dir, made_file, unpacked, slept, Io, acts, checked,
  exec,
}
use flipperos_installer.Model.{BundleRef}
use flipperos_installer.Stage.Run.{ensure_space, has_room, unpack_archive, unpack_bundle}
use flipperos_installer.Install.{
  Config, prepare, unpack, unmount_ours, unmount_media, media_on, check,
}
use flipperos_installer.Install.Idle.{
  IsIdle, >>=-IsIdle, lift-IsIdle, if-IsIdle, pure-IsIdle, raise-IsIdle, idle-Adds, check-IsIdle,
}
use flipperos_installer.Install.Selected.{Installation}
use flipperos_installer.Install.Commands.{
  release_own_mounts, umount_recursive, umount_all, umount_one, lazily, target_mnt, profile_mnt,
  mountpoints_under, failure, first_failure, raise_some,
}

-- What erases nothing on the target: unmounting, and the files and directories beside it.
abbrev pub IsHarmless : Effect → Type 0
IsHarmless (ran (program ∷ args)) = program ≡ codes "umount"
IsHarmless (made_dir dir) = Unit {0}
IsHarmless (removed_dir dir) = Unit {0}
IsHarmless (made_file file) = Unit {0}
IsHarmless (unpacked archive) = Unit {0}
IsHarmless (slept ms) = Unit {0}
IsHarmless _ = ⊥

abbrev pub HarmlessCall : {A : Type 0} → Io A → Type 0
HarmlessCall call = Adds IsHarmless call

one : (e : Effect) (h : Log) → IsHarmless e → Grown IsHarmless h (e ∷ h)
one e h p = (e ∷ [], refl, (p, tt))

pub acts-Adds : (e : Effect) (f : Log → Option Text) → IsHarmless e → HarmlessCall (acts e f)
acts-Adds e f p h = one e h p

checked-IsIdle : (f : Log → Option Text) → IsIdle (checked f)
checked-IsIdle f h = refl

umount-Adds : (m : Machine) (args : List Text) → HarmlessCall (exec m false (codes "umount" ∷ args))
unfolding exec
umount-Adds m args h = one (ran (codes "umount" ∷ args)) h refl

unmount_media-Adds :
    (m : Machine) (disk : Text) (mps : List Text) → HarmlessCall (unmount_media m disk mps)
unfolding unmount_media exec
unmount_media-Adds m disk [] h = Grown-refl IsHarmless h
unmount_media-Adds m disk (mp ∷ mps) h =
    Grown-trans IsHarmless h (removed_dir mp ∷ ran (codes "umount" ∷ mp ∷ []) ∷ h) _
      (removed_dir mp ∷ ran (codes "umount" ∷ mp ∷ []) ∷ [], refl, (tt, (refl, tt)))
      (unmount_media-Adds m disk mps (removed_dir mp ∷ ran (codes "umount" ∷ mp ∷ []) ∷ h))

unmount_ours-Adds : (m : Machine) (disk : Text) → HarmlessCall (unmount_ours m disk)
unfolding unmount_ours
unmount_ours-Adds m disk h = unmount_media-Adds m disk (media_on (m.mount_table h) disk) h

lazily-Adds : (m : Machine) (mp : Text) (r : Result Text (Unit {0})) → HarmlessCall (lazily m mp r)
unfolding lazily
lazily-Adds m mp (ok u) = λ h. Grown-refl IsHarmless h
lazily-Adds m mp (err e) =
    >>=-Adds {E = Text} IsHarmless (attempt (exec m false (codes "umount" ∷ codes "-l" ∷ mp ∷ [])))
      (λ r. pure (failure r))
      (attempt-Adds Text IsHarmless (exec m false (codes "umount" ∷ codes "-l" ∷ mp ∷ []))
        (umount-Adds m (codes "-l" ∷ mp ∷ [])))
      (λ r h. Grown-refl IsHarmless h)
lazily-Adds m mp panicked = λ h. Grown-refl IsHarmless h

umount_one-Adds : (m : Machine) (mp : Text) → HarmlessCall (umount_one m mp)
unfolding umount_one
umount_one-Adds m mp =
    >>=-Adds {E = Text} IsHarmless (attempt (exec m false (codes "umount" ∷ mp ∷ []))) (lazily m mp)
      (attempt-Adds Text IsHarmless (exec m false (codes "umount" ∷ mp ∷ []))
        (umount-Adds m (mp ∷ [])))
      (lazily-Adds m mp)

umount_all-Adds : (m : Machine) (mps : List Text) → HarmlessCall (umount_all m mps)
unfolding umount_all
umount_all-Adds m [] = λ h. Grown-refl IsHarmless h
umount_all-Adds m (mp ∷ mps) =
    >>=-Adds {E = Text} IsHarmless (umount_one m mp)
      (λ e. umount_all m mps >>= λ e'. pure (first_failure e e')) (umount_one-Adds m mp)
      λ e.
        >>=-Adds {E = Text} IsHarmless (umount_all m mps) (λ e'. pure (first_failure e e'))
          (umount_all-Adds m mps) (λ e' h. Grown-refl IsHarmless h)

raise_some-IsIdle : (e : Option Text) → IsIdle (raise_some e)
raise_some-IsIdle none h = refl
raise_some-IsIdle (some e) h = refl

umount_recursive-Adds :
    (m : Machine) (dry : Bool) (dir : Text) → HarmlessCall (umount_recursive m dry dir)
unfolding umount_recursive
umount_recursive-Adds m true dir h = Grown-refl IsHarmless h
umount_recursive-Adds m false dir h =
    >>=-Adds {E = Text} IsHarmless (umount_all m (mountpoints_under m dir h)) raise_some
      (umount_all-Adds m (mountpoints_under m dir h))
      (λ e. idle-Adds IsHarmless (raise_some e) (raise_some-IsIdle e)) h

release_own_mounts-Adds : (m : Machine) (dry : Bool) → HarmlessCall (release_own_mounts m dry)
unfolding release_own_mounts
release_own_mounts-Adds m dry h =
    Grown-trans IsHarmless h _ _ (umount_recursive-Adds m dry profile_mnt h)
      (umount_recursive-Adds m dry target_mnt (umount_recursive m dry profile_mnt h).1)

pub prepare-Adds : (m : Machine) (cfg : Config) (j : Installation) → HarmlessCall (prepare m cfg j)
unfolding prepare
prepare-Adds m cfg j =
    >>=-Adds {E = Text} IsHarmless (release_own_mounts m cfg.dry_run)
      (λ _. unmount_ours m j.device.path >> check m cfg j) (release_own_mounts-Adds m cfg.dry_run)
      λ _.
        >>=-Adds {E = Text} IsHarmless (unmount_ours m j.device.path) (λ _. check m cfg j)
          (unmount_ours-Adds m j.device.path)
          λ _. idle-Adds IsHarmless (check m cfg j) (check-IsIdle m cfg j)

pub ensure_space-IsIdle : (m : Machine) (dir : Text) (n : ℕ) → IsIdle (ensure_space m dir n)
unfolding ensure_space
ensure_space-IsIdle m dir n h =
    >>=-IsIdle (lift (m.free_space h dir))
      (λ room. if has_room room n then pure tt else raise (codes "not enough space in " ++ dir))
      (lift-IsIdle (m.free_space h dir))
      (λ room.
        if-IsIdle (has_room room n) (pure tt) (raise (codes "not enough space in " ++ dir))
          (pure-IsIdle tt) (raise-IsIdle (Unit {0}) (codes "not enough space in " ++ dir)))
      h

unpack_archive-Adds :
    (m : Machine) (dry : Bool) (dir path : Text) → HarmlessCall (unpack_archive m dry dir path)
unfolding unpack_archive
unpack_archive-Adds m true dir path h = Grown-refl IsHarmless h
unpack_archive-Adds m false dir path h =
    >>=-Adds {E = Text} IsHarmless (ensure_space m dir (m.file_size h path))
      (λ _. acts (unpacked path) (λ h'. m.unpacks h' path))
      (idle-Adds IsHarmless (ensure_space m dir (m.file_size h path))
        (ensure_space-IsIdle m dir (m.file_size h path)))
      (λ _. acts-Adds (unpacked path) (λ h'. m.unpacks h' path) tt) h

unpack_bundle-Adds :
    (m : Machine) (dry : Bool) (dir : Text) (r : BundleRef)
    → HarmlessCall (unpack_bundle m dry dir r)
unfolding unpack_bundle
unpack_bundle-Adds m dry dir r h =
    elim r.archive
      as (λ a.
        Grown IsHarmless h
          (elim a as (λ _. Io (Unit {0})) [
            | none ↦ pure tt
            | some path ↦ unpack_archive m dry dir path
          ]
            h).1) [
              | none ↦ Grown-refl IsHarmless h
              | some path ↦ unpack_archive-Adds m dry dir path h
            ]

pub unpack-Adds :
    (m : Machine) (cfg : Config) (r : Option BundleRef) → HarmlessCall (unpack m cfg r)
unfolding unpack
unpack-Adds m cfg none = λ h. Grown-refl IsHarmless h
unpack-Adds m cfg (some r) = unpack_bundle-Adds m cfg.dry_run cfg.cache_dir r
