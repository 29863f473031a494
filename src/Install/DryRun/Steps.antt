-- ===== src/Install/DryRun/Steps.antt =====
-- The steps on the target do nothing in a dry run.
use flipperos_installer.Base.{
  ℕ, ◌≡◌, refl, ◌∙◌, true, false, ◌||◌, ◌==◌, List, [], ◌∷◌, ◌++◌, Option, none, some, Text, codes,
  Result, ok, err, panicked, arith,
}
use flipperos_installer.Base.Calls.{caught, attempt, pure, raise, lift, ◌>>=◌, ◌>>◌, and_then}
use flipperos_installer.Machine.{Machine, Log, Io}
use flipperos_installer.Model.{UbootBuild, FalconImage, PackFile, ProfilePack}
use flipperos_installer.Layout.{Layout, Subvolume}
use flipperos_installer.Stage.Run.{OnMismatch}
use flipperos_installer.Install.{
  Config, write_images, install, deploy, seed_home, deploy_minimal, deploy_extras, record_metadata,
}
use flipperos_installer.Install.Idle.{IsIdle, >>=-IsIdle, if-IsIdle, pure-IsIdle, raise-IsIdle}
use flipperos_installer.Install.Selected.{Installation}
use flipperos_installer.Install.Commands.{unmount, target_mnt, partition_path}
use flipperos_installer.Install.Gpt.{write_gpt, is_block_size, root_part_index}
use flipperos_installer.Install.Guards.{BootLuPlan, is_ufs}
use flipperos_installer.Install.Images.{install_uboot, install_boot_menu, install_recovery}
use flipperos_installer.Storage.{StorageDevice}
use flipperos_installer.Install.Filesystem.{
  make_filesystem, create_skeleton, make_dirs, deploy_profile, set_compression, slash, on_failure,
  finally,
}

abbrev pub dry : (cache_dir server_url : Text) → Config
dry cache_dir server_url = record { dry_run = true; cache_dir = cache_dir; server_url = server_url }

write_gpt-IsIdle : (m : Machine) (disk : Text) (s : ℕ) → IsIdle (write_gpt m true disk s)
unfolding write_gpt
write_gpt-IsIdle m disk s =
    if-IsIdle (is_block_size s) (pure tt) (raise (disk ++ codes ": unsupported logical block size"))
      (pure-IsIdle tt) (raise-IsIdle (Unit {0}) (disk ++ codes ": unsupported logical block size"))

install_uboot-IsIdle :
    (m : Machine) (d : StorageDevice) (u : UbootBuild) (p : Option BootLuPlan) (o : OnMismatch)
    → IsIdle (install_uboot m true d u p o)
unfolding install_uboot
install_uboot-IsIdle m d u none o =
    if-IsIdle (is_ufs d.kind) (pure tt) (pure tt) (pure-IsIdle tt) (pure-IsIdle tt)
install_uboot-IsIdle m d u (some plan) o =
    if-IsIdle (is_ufs d.kind) _ (pure tt)
      (λ h.
        if-IsIdle ((plan.id == plan.active) || false) (pure tt) (pure tt) (pure-IsIdle tt)
          (pure-IsIdle tt) h)
      (pure-IsIdle tt)

install_boot_menu-IsIdle :
    (m : Machine) (d : StorageDevice) (i : Option FalconImage) (o : OnMismatch)
    → IsIdle (install_boot_menu m true d i o)
unfolding install_boot_menu
install_boot_menu-IsIdle m d none o = pure-IsIdle tt
install_boot_menu-IsIdle m d (some i) o =
    if-IsIdle (is_ufs d.kind) (pure tt) (pure tt) (pure-IsIdle tt) (pure-IsIdle tt)

install_recovery-IsIdle :
    (m : Machine) (i : Option FalconImage) (lu : Option Text) (o : OnMismatch)
    → IsIdle (install_recovery m true i lu o)
unfolding install_recovery
install_recovery-IsIdle m none lu o = pure-IsIdle tt
install_recovery-IsIdle m (some i) none o = pure-IsIdle tt
install_recovery-IsIdle m (some i) (some node) o = pure-IsIdle tt

write_images-IsIdle :
    (m : Machine) (c u : Text) (policy : OnMismatch) (j : Installation)
    → IsIdle (write_images m (dry c u) policy j)
unfolding write_images
write_images-IsIdle m c u policy j =
    >>=-IsIdle (write_gpt m true j.device.path j.device.logical_block_size) _
      (write_gpt-IsIdle m j.device.path j.device.logical_block_size)
      λ _.
        >>=-IsIdle (install_uboot m true j.device j.uboot j.boot_lu policy) _
          (install_uboot-IsIdle m j.device j.uboot j.boot_lu policy)
          λ _.
            >>=-IsIdle (install_boot_menu m true j.device j.boot_menu policy) _
              (install_boot_menu-IsIdle m j.device j.boot_menu policy)
              λ _. install_recovery-IsIdle m j.recovery j.recovery_lu policy

make_dirs-IsIdle :
    (m : Machine) (base : Text) (dirs : List Text) → IsIdle (make_dirs m true base dirs)
unfolding make_dirs
make_dirs-IsIdle m base [] h = refl
make_dirs-IsIdle m base (d ∷ ds) h = make_dirs-IsIdle m base ds h

set_compression-IsIdle :
    (m : Machine) (path : Text) (c : Option Text) → IsIdle (set_compression m true path c)
unfolding set_compression
set_compression-IsIdle m path none h = refl
set_compression-IsIdle m path (some c) h = refl

create_skeleton-IsIdle :
    (m : Machine) (mnt : Text) (svs : List Subvolume) → IsIdle (create_skeleton m true mnt svs)
unfolding create_skeleton
create_skeleton-IsIdle m mnt [] = pure-IsIdle tt
create_skeleton-IsIdle m mnt (sv ∷ svs) =
    >>=-IsIdle _ (λ _. create_skeleton m true mnt svs)
      (>>=-IsIdle (set_compression m true (slash mnt sv.name) sv.compression) _
        (set_compression-IsIdle m (slash mnt sv.name) sv.compression)
        λ _. make_dirs-IsIdle m (slash mnt sv.name) sv.nodatacow)
      λ _. create_skeleton-IsIdle m mnt svs

make_filesystem-IsIdle :
    (m : Machine) (part : Text) (l : Layout) → IsIdle (make_filesystem m true part l)
unfolding make_filesystem
make_filesystem-IsIdle m part l h =
    failure-same (create_skeleton m true target_mnt l.subvolumes h)
    ∙ create_skeleton-IsIdle m target_mnt l.subvolumes h
  where
    failure-same : (r : Result Text (Unit {0}) × Log) → (on_failure (λ _. r) (pure tt) h).1 ≡ r.1
    failure-same (ok u, h') = refl
    failure-same (err e, h') = refl
    failure-same (panicked, h') = refl

deploy_profile-IsIdle :
    (m : Machine) (mnt root : Text) (l : Layout) (p : ProfilePack) (pack : PackFile) (what : Text)
    (o : OnMismatch)
    → IsIdle (deploy_profile m true mnt root l p pack what o)
unfolding deploy_profile
deploy_profile-IsIdle m mnt root l p pack what o = pure-IsIdle tt

seed_home-IsIdle :
    (m : Machine) (l : Layout) (pack : Option PackFile) (o : OnMismatch)
    → IsIdle (seed_home m true l pack o)
unfolding seed_home
seed_home-IsIdle m l none o h = refl
seed_home-IsIdle m l (some p) o h = ground arith

deploy_minimal-IsIdle :
    (m : Machine) (root : Text) (l : Layout) (p : ProfilePack) (o : OnMismatch)
    → IsIdle (deploy_minimal m true root l p o)
unfolding deploy_minimal
deploy_minimal-IsIdle m root l p o h = ground arith

deploy_extras-IsIdle :
    (m : Machine) (root : Text) (l : Layout) (ps : List ProfilePack) (o : OnMismatch)
    → IsIdle (deploy_extras m true root l ps o)
unfolding deploy_extras
deploy_extras-IsIdle m root l [] o h = refl
deploy_extras-IsIdle m root l (p ∷ ps) o h = ground (arith, deploy_extras-IsIdle m root l ps o h)

finally-IsIdle :
    (work cleanup : Io (Unit {0})) → IsIdle work → IsIdle cleanup → IsIdle (finally work cleanup)
finally-IsIdle work cleanup i k h = over (work h) (i h)
  where
    done :
        (r : Result Text (Unit {0})) (r' : Result Text (Unit {0}) × Log)
        → r'.1 ≡ h
        → (and_then {E = Text} (λ x. lift r >> lift x) (caught r')).1 ≡ h
    done (ok u) (ok u', h') e = e
    done (ok u) (err x, h') e = e
    done (ok u) (panicked, h') e = e
    done (err y) (ok u', h') e = e
    done (err y) (err x, h') e = e
    done (err y) (panicked, h') e = e
    done panicked (ok u', h') e = e
    done panicked (err x, h') e = e
    done panicked (panicked, h') e = e

    over :
        (r : Result Text (Unit {0}) × Log)
        → r.1 ≡ h
        → (and_then {E = Text} (λ x. attempt cleanup >>= λ y. lift x >> lift y) (caught r)).1 ≡ h
    over (ok u, h') e = done (ok u) (cleanup h') (k h' ∙ e)
    over (err x, h') e = done (err x) (cleanup h') (k h' ∙ e)
    over (panicked, h') e = e

record_metadata-IsIdle :
    (m : Machine) (disk root : Text) (p : ProfilePack) (json : Result Text Text)
    → IsIdle (record_metadata m true disk root p json)
unfolding record_metadata
record_metadata-IsIdle m disk root p (ok t) h = refl
record_metadata-IsIdle m disk root p (err e) h = refl
record_metadata-IsIdle m disk root p panicked h = refl

deploy-IsIdle :
    (m : Machine) (c u : Text) (l : Layout) (o : OnMismatch) (json : Result Text Text)
    (j : Installation) (base : ProfilePack)
    → IsIdle (deploy m (dry c u) l o json j base)
unfolding deploy
deploy-IsIdle m c u l o json j base =
    >>=-IsIdle (seed_home m true l j.build.home_pack o) _ (seed_home-IsIdle m l j.build.home_pack o)
      λ _.
        >>=-IsIdle (deploy_minimal m true root l base o) _ (deploy_minimal-IsIdle m root l base o)
          λ _.
            >>=-IsIdle (deploy_extras m true root l j.extras o) _
              (deploy_extras-IsIdle m root l j.extras o)
              λ _. record_metadata-IsIdle m j.device.path root base json
  where
    root : Text
    root = partition_path j.device.path root_part_index

-- A dry run of the steps on the target does nothing, whatever they find.
pub install-IsIdle :
    (m : Machine) (c u : Text) (l : Layout) (o : OnMismatch) (json : Result Text Text)
    (j : Installation) (base : ProfilePack)
    → IsIdle (install m (dry c u) l o json j base)
unfolding install unmount
install-IsIdle m c u l o json j base =
    >>=-IsIdle (write_images m (dry c u) o j) _ (write_images-IsIdle m c u o j) λ _.
      >>=-IsIdle (make_filesystem m true root l) _ (make_filesystem-IsIdle m root l) λ _.
        finally-IsIdle (deploy m (dry c u) l o json j base) (unmount m true target_mnt)
          (deploy-IsIdle m c u l o json j base) (λ h. refl)
  where
    root : Text
    root = partition_path j.device.path root_part_index
