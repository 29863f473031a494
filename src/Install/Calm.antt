-- ===== src/Install/Calm.antt =====
-- The steps of src/core/install.rs while the target is mounted never panic.
use flipperos_installer.Base.{
  Bool, true, false, List, [], ◌∷◌, Option, none, some, Text, codes, Result, ok, err, panicked, ◌≡◌,
  ◌≢◌, refl, Option-cases, inl, inr, if◌then◌else◌,
}
use flipperos_installer.Base.Calls.{pure, raise, lift, ◌>>=◌, ◌>>◌, attempt, caught, and_then}
use flipperos_installer.Added.{and_then-ne_panicked}
use flipperos_installer.Machine.{
  Machine, Log, Effect, ran, fed, made_dir, outcome, Io, acts, checked, exec, unless,
}
use flipperos_installer.Model.{PackFile, ProfilePack, stock_subvol, root_subvol}
use flipperos_installer.Fetch.{Verdict, matched, unpublished, mismatch, verify}
use flipperos_installer.Layout.{Layout, Subvolume, boot_subvol}
use flipperos_installer.Stage.Run.{OnMismatch, fail, warn, apply_verdict}
use flipperos_installer.Install.{
  Config, deploy, seed_home, delete_subvolume, deploy_minimal, deploy_extras, record_metadata,
}
use flipperos_installer.Install.Selected.{Installation}
use flipperos_installer.Install.Commands.{
  umount_recursive, umount_all, umount_one, lazily, raise_some, mountpoints_under, target_mnt,
  profile_mnt,
}
use flipperos_installer.Install.Filesystem.{
  receive_pack, make_writable_snapshot, make_dirs, set_compression, create_skeleton, mount_profile,
  install_kernel, deploy_profile, finally, kernel_script, slash, home_subvol, stock_snapshots_dir,
}

-- A call that returns or fails.
abbrev pub IsCalm : {A : Type 0} → Io A → Type 0
IsCalm call = (h : Log) → (call h).0 ≢ panicked

outcome-ne_panicked : (o : Option Text) → outcome o ≢ panicked
outcome-ne_panicked none = λ p. cc
outcome-ne_panicked (some e) = λ p. cc

pub >>=-IsCalm :
    {A B : Type 0}
    → (call : Io A) (next : A → Io B) → IsCalm call
    → ((a : A) → IsCalm (next a))
    → IsCalm (call >>= next)
>>=-IsCalm call next c k h = and_then-ne_panicked next (call h) (c h) k

pub if-IsCalm :
    {A : Type 0} → (b : Bool) (x y : Io A) → IsCalm x → IsCalm y → IsCalm (if b then x else y)
if-IsCalm true x y c k = c
if-IsCalm false x y c k = k

pure-IsCalm : {A : Type 0} → (a : A) → IsCalm (pure a)
pure-IsCalm a h = λ p. cc

raise-IsCalm : (A : Type 0) (e : Text) → IsCalm {A = A} (raise e)
raise-IsCalm A e h = λ p. cc

acts-IsCalm : (e : Effect) (failure : Log → Option Text) → IsCalm (acts e failure)
acts-IsCalm e failure h = outcome-ne_panicked (failure h)

checked-IsCalm : (failure : Log → Option Text) → IsCalm (checked failure)
checked-IsCalm failure h = outcome-ne_panicked (failure h)

caught-ne_panicked :
    {A : Type 0} → (r : Result Text A × Log) → r.0 ≢ panicked → (caught {F = Text} r).0 ≢ panicked
caught-ne_panicked (ok a, h) n = λ p. cc
caught-ne_panicked (err e, h) n = λ p. cc
caught-ne_panicked (panicked, h) n = absurd (n refl)

attempt-IsCalm : {A : Type 0} → (call : Io A) → IsCalm call → IsCalm (attempt {F = Text} call)
attempt-IsCalm call c h = caught-ne_panicked (call h) (c h)

exec-IsCalm : (m : Machine) (dry : Bool) (command : List Text) → IsCalm (exec m dry command)
unfolding exec
exec-IsCalm m dry command =
    if-IsCalm dry _ _ (pure-IsCalm tt) (acts-IsCalm (ran command) (λ h. m.runs h command))

-- A call that always ends by a second one panics only if one of them does.
finally-IsCalm :
    (work cleanup : Io (Unit {0})) → IsCalm work → IsCalm cleanup → IsCalm (finally work cleanup)
finally-IsCalm work cleanup c k h = after (work h) (c h)
  where
    both :
        (r : Result Text (Unit {0})) (r' : Result Text (Unit {0}) × Log)
        → r ≢ panicked
        → r'.0 ≢ panicked
        → (and_then {Ev = Effect} {E = Text} (λ x. lift r >> lift x) (caught r')).0 ≢ panicked
    both r (panicked, h') n k = absurd (k refl)
    both (ok u) (ok v, h') n k = λ p. cc
    both (ok u) (err e, h') n k = λ p. cc
    both (err e) (ok v, h') n k = λ p. cc
    both (err e) (err f, h') n k = λ p. cc
    both panicked (ok v, h') n k = absurd (n refl)
    both panicked (err e, h') n k = absurd (n refl)

    after :
        (r : Result Text (Unit {0}) × Log)
        → r.0 ≢ panicked
        → (and_then {Ev = Effect} {E = Text}
            (λ x. attempt cleanup >>= λ y. lift x >> lift y)
            (caught r)).0
          ≢ panicked
    after (panicked, h') n = absurd (n refl)
    after (ok u, h') n = both (ok u) (cleanup h') n (k h')
    after (err e, h') n = both (err e) (cleanup h') n (k h')

apply_verdict-IsCalm :
    (what : Text) (v : Verdict) (policy : OnMismatch) → IsCalm (apply_verdict what v policy)
unfolding apply_verdict
apply_verdict-IsCalm what matched policy = pure-IsCalm tt
apply_verdict-IsCalm what unpublished policy = pure-IsCalm tt
apply_verdict-IsCalm what (mismatch got want) fail = raise-IsCalm (Unit {0}) _
apply_verdict-IsCalm what (mismatch got want) warn = pure-IsCalm tt

receive_pack-IsCalm :
    (m : Machine) (dry : Bool) (target : Text) (p : PackFile) (what : Text) (policy : OnMismatch)
    → IsCalm (receive_pack m dry target p what policy)
unfolding receive_pack
receive_pack-IsCalm m dry target p what policy = if-IsCalm dry (pure tt) _ (pure-IsCalm tt) (
    >>=-IsCalm (checked (λ h. m.opens h p.location p.source)) _
      (checked-IsCalm (λ h. m.opens h p.location p.source))
      λ _.
        >>=-IsCalm (acts (fed p.location command) (λ h. m.feeds h p.location command)) _
          (acts-IsCalm (fed p.location command) (λ h. m.feeds h p.location command))
          λ _ h. apply_verdict-IsCalm what (verify (m.digest h p.location) p.sha256) policy h)
  where
    command : List Text
    command = codes "btrfs" ∷ codes "receive" ∷ target ∷ []

lazily-IsCalm : (m : Machine) (mp : Text) (r : Result Text (Unit {0})) → IsCalm (lazily m mp r)
unfolding lazily
lazily-IsCalm m mp (ok u) = pure-IsCalm none
lazily-IsCalm m mp panicked = pure-IsCalm none
lazily-IsCalm m mp (err e) =
    >>=-IsCalm (attempt {F = Text} (exec m false (codes "umount" ∷ codes "-l" ∷ mp ∷ []))) _
      (attempt-IsCalm (exec m false (codes "umount" ∷ codes "-l" ∷ mp ∷ []))
        (exec-IsCalm m false _))
      λ r. pure-IsCalm _

umount_all-IsCalm : (m : Machine) (mps : List Text) → IsCalm (umount_all m mps)
unfolding umount_all umount_one
umount_all-IsCalm m [] = pure-IsCalm none
umount_all-IsCalm m (mp ∷ mps) =
    >>=-IsCalm (umount_one m mp) _
      (>>=-IsCalm (attempt {F = Text} (exec m false (codes "umount" ∷ mp ∷ []))) (lazily m mp)
        (attempt-IsCalm (exec m false (codes "umount" ∷ mp ∷ [])) (exec-IsCalm m false _))
        (lazily-IsCalm m mp))
      λ e. >>=-IsCalm (umount_all m mps) _ (umount_all-IsCalm m mps) λ e'. pure-IsCalm _

raise_some-IsCalm : (o : Option Text) → IsCalm (raise_some o)
raise_some-IsCalm none = pure-IsCalm tt
raise_some-IsCalm (some e) = raise-IsCalm (Unit {0}) e

umount_recursive-IsCalm :
    (m : Machine) (dry : Bool) (dir : Text) → IsCalm (umount_recursive m dry dir)
unfolding umount_recursive
umount_recursive-IsCalm m dry dir = if-IsCalm dry (pure tt) _ (pure-IsCalm tt) λ h.
    >>=-IsCalm (umount_all m (mountpoints_under m dir h)) raise_some (umount_all-IsCalm m _)
      raise_some-IsCalm h

set_compression-IsCalm :
    (m : Machine) (dry : Bool) (path : Text) (c : Option Text)
    → IsCalm (set_compression m dry path c)
unfolding set_compression
set_compression-IsCalm m dry path none = pure-IsCalm tt
set_compression-IsCalm m dry path (some c) = exec-IsCalm m dry _

make_dirs-IsCalm :
    (m : Machine) (dry : Bool) (base : Text) (dirs : List Text) → IsCalm (make_dirs m dry base dirs)
unfolding make_dirs
make_dirs-IsCalm m dry base [] = pure-IsCalm tt
make_dirs-IsCalm m dry base (d ∷ ds) =
    >>=-IsCalm _ _ (>>=-IsCalm (exec m dry _) _ (exec-IsCalm m dry _) λ _. exec-IsCalm m dry _)
      λ _. make_dirs-IsCalm m dry base ds

pub create_skeleton-IsCalm :
    (m : Machine) (dry : Bool) (mnt : Text) (svs : List Subvolume)
    → IsCalm (create_skeleton m dry mnt svs)
unfolding create_skeleton
create_skeleton-IsCalm m dry mnt [] = pure-IsCalm tt
create_skeleton-IsCalm m dry mnt (sv ∷ svs) =
    >>=-IsCalm _ _
      (>>=-IsCalm _ _
        (>>=-IsCalm (exec m dry _) _ (exec-IsCalm m dry _)
          λ _. set_compression-IsCalm m dry _ sv.compression)
        λ _. make_dirs-IsCalm m dry _ sv.nodatacow)
      λ _. create_skeleton-IsCalm m dry mnt svs

make_writable_snapshot-IsCalm :
    (m : Machine) (dry : Bool) (mnt stock root : Text)
    → IsCalm (make_writable_snapshot m dry mnt stock root)
unfolding make_writable_snapshot
make_writable_snapshot-IsCalm m dry mnt stock root = exec-IsCalm m dry _

mount_profile-IsCalm : (m : Machine) (part subvol : Text) → IsCalm (mount_profile m part subvol)
unfolding mount_profile
mount_profile-IsCalm m part subvol =
    >>=-IsCalm (acts (made_dir profile_mnt) (λ h. m.makes h profile_mnt)) _
      (acts-IsCalm (made_dir profile_mnt) (λ h. m.makes h profile_mnt)) λ _. exec-IsCalm m false _

install_kernel-IsCalm :
    (m : Machine) (dry : Bool) (mnt part boot root profile : Text)
    → IsCalm (install_kernel m dry mnt part boot root profile)
unfolding install_kernel
install_kernel-IsCalm m dry mnt part boot root profile =
    if-IsCalm dry (pure tt) _ (pure-IsCalm tt) (
      >>=-IsCalm (mount_profile m part root) _ (mount_profile-IsCalm m part root) λ _.
        finally-IsCalm _ (umount_recursive m dry profile_mnt)
          (acts-IsCalm (fed kernel_script command) (λ h. m.feeds h kernel_script command))
          (umount_recursive-IsCalm m dry profile_mnt))
  where
    command : List Text
    command = codes "sh" ∷ codes "-s" ∷ profile_mnt ∷ slash mnt boot ∷ profile ∷ []

deploy_profile-IsCalm :
    (m : Machine) (dry : Bool) (mnt part : Text) (l : Layout) (p : ProfilePack) (pack : PackFile)
    (what : Text) (policy : OnMismatch)
    → IsCalm (deploy_profile m dry mnt part l p pack what policy)
unfolding deploy_profile
deploy_profile-IsCalm m dry mnt part l p pack what policy =
    >>=-IsCalm (receive_pack m dry _ pack what policy) _
      (receive_pack-IsCalm m dry _ pack what policy)
      λ _.
        >>=-IsCalm (make_writable_snapshot m dry mnt (stock_subvol p) (root_subvol p)) _
          (make_writable_snapshot-IsCalm m dry mnt (stock_subvol p) (root_subvol p))
          λ _. install_kernel-IsCalm m dry mnt part (boot_subvol l) (root_subvol p) p.name

delete_subvolume-IsCalm :
    (m : Machine) (dry : Bool) (path : Text) → IsCalm (delete_subvolume m dry path)
unfolding delete_subvolume
delete_subvolume-IsCalm m dry path = exec-IsCalm m dry _

seed_home-IsCalm :
    (m : Machine) (dry : Bool) (l : Layout) (o : Option PackFile) (policy : OnMismatch)
    → IsCalm (seed_home m dry l o policy)
unfolding seed_home
seed_home-IsCalm m dry l none policy = pure-IsCalm tt
seed_home-IsCalm m dry l (some pack) policy =
    >>=-IsCalm (receive_pack m dry _ pack _ policy) _ (receive_pack-IsCalm m dry _ pack _ policy)
      λ _.
        >>=-IsCalm (unless _ (delete_subvolume m dry _)) _
          (if-IsCalm _ (pure tt) _ (pure-IsCalm tt) (delete_subvolume-IsCalm m dry _))
          λ _.
            >>=-IsCalm (make_writable_snapshot m dry target_mnt home_subvol home_subvol) _
              (make_writable_snapshot-IsCalm m dry target_mnt home_subvol home_subvol)
              λ _.
                delete_subvolume-IsCalm m dry
                  (slash (slash target_mnt stock_snapshots_dir) home_subvol)

deploy_minimal-IsCalm :
    (m : Machine) (dry : Bool) (part : Text) (l : Layout) (p : ProfilePack) (o : Option PackFile)
    (policy : OnMismatch)
    → p.full ≡ o
    → IsCalm (deploy_minimal m dry part l p policy)
unfolding deploy_minimal
deploy_minimal-IsCalm m dry part l p none policy e = rw e (raise-IsCalm (Unit {0}) _)
deploy_minimal-IsCalm m dry part l p (some pack) policy e =
    rw e (deploy_profile-IsCalm m dry target_mnt part l p pack _ policy)

deploy_extras-IsCalm :
    (m : Machine) (dry : Bool) (part : Text) (l : Layout) (ps : List ProfilePack)
    (policy : OnMismatch)
    → IsCalm (deploy_extras m dry part l ps policy)
unfolding deploy_extras
deploy_extras-IsCalm m dry part l [] policy = pure-IsCalm tt
deploy_extras-IsCalm m dry part l (p ∷ ps) policy = elim (Option-cases p.incremental) [
  | inl n ↦ rw n (raise-IsCalm (Unit {0}) _)
  | inr (pack, e) ↦ rw e (
      >>=-IsCalm (deploy_profile m dry target_mnt part l p pack _ policy) _
        (deploy_profile-IsCalm m dry target_mnt part l p pack _ policy)
        λ _. deploy_extras-IsCalm m dry part l ps policy)
]

-- The work on the mounted target returns or fails.
pub deploy-IsCalm :
    (m : Machine) (cfg : Config) (l : Layout) (policy : OnMismatch) (json : Result Text Text)
    (j : Installation) (base : ProfilePack)
    → IsCalm (deploy m cfg l policy json j base)
unfolding deploy record_metadata
deploy-IsCalm m cfg l policy json j base =
    >>=-IsCalm (exec m cfg.dry_run _) _ (exec-IsCalm m cfg.dry_run _) λ _.
      >>=-IsCalm (seed_home m cfg.dry_run l j.build.home_pack policy) _
        (seed_home-IsCalm m cfg.dry_run l j.build.home_pack policy)
        λ _.
          >>=-IsCalm (deploy_minimal m cfg.dry_run _ l base policy) _
            (deploy_minimal-IsCalm m cfg.dry_run _ l base base.full policy refl)
            λ _.
              >>=-IsCalm (deploy_extras m cfg.dry_run _ l j.extras policy) _
                (deploy_extras-IsCalm m cfg.dry_run _ l j.extras policy) λ _ h p. cc
