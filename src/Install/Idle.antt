-- ===== src/Install/Idle.antt =====
-- Calls that ask the system and do nothing to it; the guards before an installation are such.
use flipperos_installer.Base.{
  ℕ, ◌≡◌, refl, ◌∙◌, Bool, true, false, not, ◌&&◌, [], ◌++◌, Option, none, some, Text, codes,
  Result, ok, err, panicked, if◌then◌else◌,
}
use flipperos_installer.Base.Calls.{pure, raise, lift, ◌>>=◌, ◌>>◌, raise_if, and_then}
use flipperos_installer.Added.{Adds}
use flipperos_installer.Machine.{Machine, Log, Effect, Io, asked}
use flipperos_installer.Model.{UbootBuild, FalconImage}
use flipperos_installer.Stage.{OnTarget}
use flipperos_installer.Install.{
  Config, settled, check_apart, check_recovery, check_boot, check, guarded, guard_apart,
  capacity_of,
}
use flipperos_installer.Install.Selected.{Installation}
use flipperos_installer.Install.Guards.{
  BootLuPlan, guard_target, refuse_incapable, refuse_used, is_nonempty, ufs_boot_lu_plan,
  guard_ufs_boot_lu, guard_boot_menu_fits, ufs_recovery_lu, guard_recovery_fits,
}
use flipperos_installer.Storage.{StorageDevice, boot_rom_capable}

-- A call that does nothing to the system.
abbrev pub IsIdle : {A : Type 0} → Io A → Type 0
IsIdle call = (h : Log) → (call h).1 ≡ h

module _ {A B : Type 0} where
  after-IsIdle :
      (next : A → Io B) (h : Log) (r : Result Text A × Log)
      → r.1 ≡ h
      → ((a : A) → IsIdle (next a))
      → (and_then next r).1 ≡ h
  after-IsIdle next h (ok a, h') e k = k a h' ∙ e
  after-IsIdle next h (err x, h') e k = e
  after-IsIdle next h (panicked, h') e k = e

  pub >>=-IsIdle :
      (call : Io A) (next : A → Io B)
      → IsIdle call
      → ((a : A) → IsIdle (next a))
      → IsIdle (call >>= next)
  >>=-IsIdle call next i k h = after-IsIdle next h (call h) (i h) k

pub if-IsIdle :
    {A : Type 0} → (b : Bool) (x y : Io A) → IsIdle x → IsIdle y → IsIdle (if b then x else y)
if-IsIdle true x y i k = i
if-IsIdle false x y i k = k

pub pure-IsIdle : {A : Type 0} → (a : A) → IsIdle (pure a)
pure-IsIdle a h = refl

pub raise-IsIdle : (A : Type 0) (e : Text) → IsIdle {A = A} (raise e)
raise-IsIdle A e h = refl

pub raise_if-IsIdle : (b : Bool) (e : Text) → IsIdle (raise_if b e)
raise_if-IsIdle b e = if-IsIdle b (raise e) (pure tt) (raise-IsIdle (Unit {0}) e) (pure-IsIdle tt)

pub asked-IsIdle : {A : Type 0} → (f : Log → A) → IsIdle (asked f)
asked-IsIdle f h = refl

guard_target-IsIdle : (m : Machine) (dry : Bool) (d : StorageDevice) → IsIdle (guard_target m dry d)
unfolding guard_target boot_rom_capable
guard_target-IsIdle m dry d =
    >>=-IsIdle (refuse_incapable d) (λ _. refuse_used m dry d)
      (λ h.
        raise_if-IsIdle (not (boot_rom_capable d.kind))
          (d.path ++ codes " is not a boot-ROM capable target") h)
      λ _ h.
        raise_if-IsIdle (is_nonempty (m.in_use h d.path) && not dry) (d.path ++ codes " is in use")
          h

guard_ufs_boot_lu-IsIdle :
    (m : Machine) (dry : Bool) (d : StorageDevice) (u : UbootBuild) (p : Option BootLuPlan)
    → IsIdle (guard_ufs_boot_lu m dry d u p)
unfolding guard_ufs_boot_lu
guard_ufs_boot_lu-IsIdle m dry d u none = raise_if-IsIdle _ _
guard_ufs_boot_lu-IsIdle m dry d u (some plan) = λ h. raise_if-IsIdle _ _ h

guard_boot_menu_fits-IsIdle :
    (dry : Bool) (i : Option FalconImage) → IsIdle (guard_boot_menu_fits dry i)
unfolding guard_boot_menu_fits
guard_boot_menu_fits-IsIdle dry none = pure-IsIdle tt
guard_boot_menu_fits-IsIdle dry (some i) = raise_if-IsIdle _ _

guard_recovery_fits-IsIdle :
    (dry : Bool) (i : Option FalconImage) (lu : Option Text) (c : Option ℕ)
    → IsIdle (guard_recovery_fits dry i lu c)
unfolding guard_recovery_fits
guard_recovery_fits-IsIdle dry none lu c = pure-IsIdle tt
guard_recovery_fits-IsIdle dry (some i) none c = pure-IsIdle tt
guard_recovery_fits-IsIdle dry (some i) (some node) c = raise_if-IsIdle _ _

guarded-IsIdle : (r : Result OnTarget (Unit {0})) → IsIdle (guarded r)
guarded-IsIdle (ok u) h = refl
guarded-IsIdle (err e) h = refl
guarded-IsIdle panicked h = refl

check_apart-IsIdle :
    (m : Machine) (j : Installation) (p : Option BootLuPlan) (lu : Option Text)
    → IsIdle (check_apart m j p lu)
unfolding check_apart
check_apart-IsIdle m j p lu h =
    >>=-IsIdle (guarded (guard_apart (m.mount_table h) j)) (λ _. pure (settled j p lu))
      (guarded-IsIdle (guard_apart (m.mount_table h) j)) (λ _ h'. refl) h

check_recovery-IsIdle :
    (m : Machine) (cfg : Config) (j : Installation) (p : Option BootLuPlan)
    → IsIdle (check_recovery m cfg j p)
unfolding check_recovery
check_recovery-IsIdle m cfg j p h =
    >>=-IsIdle (guard_recovery_fits cfg.dry_run j.recovery lu (capacity_of m lu h))
      (λ _. check_apart m j p lu)
      (guard_recovery_fits-IsIdle cfg.dry_run j.recovery lu (capacity_of m lu h))
      (λ _. check_apart-IsIdle m j p lu) h
  where
    lu : Option Text
    lu = ufs_recovery_lu m j.device h

check_boot-IsIdle :
    (m : Machine) (cfg : Config) (j : Installation) (p : Option BootLuPlan)
    → IsIdle (check_boot m cfg j p)
unfolding check_boot
check_boot-IsIdle m cfg j p =
    >>=-IsIdle (guard_ufs_boot_lu m cfg.dry_run j.device j.uboot p)
      (λ _. guard_boot_menu_fits cfg.dry_run j.boot_menu >> check_recovery m cfg j p)
      (guard_ufs_boot_lu-IsIdle m cfg.dry_run j.device j.uboot p)
      λ _.
        >>=-IsIdle (guard_boot_menu_fits cfg.dry_run j.boot_menu) (λ _. check_recovery m cfg j p)
          (guard_boot_menu_fits-IsIdle cfg.dry_run j.boot_menu) λ _. check_recovery-IsIdle m cfg j p

-- The guards themselves ask and do nothing.
pub check-IsIdle : (m : Machine) (cfg : Config) (j : Installation) → IsIdle (check m cfg j)
unfolding check
check-IsIdle m cfg j =
    >>=-IsIdle (guard_target m cfg.dry_run j.device)
      (λ _. asked (ufs_boot_lu_plan m j.device) >>= check_boot m cfg j)
      (guard_target-IsIdle m cfg.dry_run j.device)
      λ _ h. check_boot-IsIdle m cfg j (ufs_boot_lu_plan m j.device h) h

pub lift-IsIdle : {A : Type 0} → (r : Result Text A) → IsIdle (lift r)
lift-IsIdle r h = refl

pub idle-Adds : {A : Type 0} → (P : Effect → Type 0) (call : Io A) → IsIdle call → Adds P call
idle-Adds P call i h = ([], i h, tt)
