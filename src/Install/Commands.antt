-- ===== src/Install/Commands.antt =====
-- src/core/install.rs: device nodes, waiting for them, and unmounting.
use flipperos_installer.Base.{
  utf8_bytes, ℕ, zero, suc, ◌+◌, Bool, false, not, ◌||◌, List, [], ◌∷◌, ◌++◌, map, filter, Option,
  none, some, Text, codes, Result, ok, err, panicked, if◌then◌else◌, length, leb, text_eq,
  starts_with, decimal,
}
use flipperos_installer.Base.Calls.{pure, raise, ◌>>=◌, ◌>>◌, attempt}
use flipperos_installer.Machine.{Machine, Log, slept, Io, exec, asked, ignored}
use flipperos_installer.Media.{node_name, unescape_mount, trim_dev}
use flipperos_installer.Storage.InUse.{words, read_lines}
use flipperos_installer.Ufs.Rescan.{is_digit, text_le}

abbrev pub target_mnt : Text
target_mnt = codes "/run/flipperos-install"

abbrev pub profile_mnt : Text
profile_mnt = codes "/run/flipperos-install-root"

-- Whether the last character is a digit
unfoldable pub ends_in_digit : Text → Bool
ends_in_digit [] = false
ends_in_digit (c ∷ []) = is_digit c
ends_in_digit (c ∷ d ∷ s) = ends_in_digit (d ∷ s)

unfoldable pub partition_path : Text → ℕ → Text
unfolding ends_in_digit decimal trim_dev
partition_path disk index =
    if ends_in_digit (node_name disk)
    then disk ++ (codes "p" ++ decimal index)
    else disk ++ decimal index

-- The second column of a line of the mount table
abbrev pub second_column : List Text → List Text
second_column [] = []
second_column (a ∷ []) = []
second_column (a ∷ b ∷ more) = b ∷ []

abbrev pub is_under : Text → Text → Bool
is_under dir mp = text_eq mp dir || starts_with (dir ++ codes "/") mp

unfoldable pub points_under : Text → List Text → List Text
unfolding unescape_mount words
points_under dir [] = []
points_under dir (line ∷ more) =
    filter (is_under dir) (map unescape_mount (second_column (words [] line)))
    ++ points_under dir more

-- `sort` and `dedup`
unfoldable pub insert_sorted : Text → List Text → List Text
insert_sorted t [] = t ∷ []
insert_sorted t (u ∷ us) =
    if text_eq t u then u ∷ us else if text_le t u then t ∷ u ∷ us else u ∷ insert_sorted t us

unfoldable pub sort_unique : List Text → List Text
unfolding insert_sorted
sort_unique [] = []
sort_unique (t ∷ ts) = insert_sorted t (sort_unique ts)

-- `sort_by_key(|mp| Reverse(mp.len()))`, which is stable; lengths are of bytes.
unfoldable pub insert_longest : Text → List Text → List Text
insert_longest t [] = t ∷ []
insert_longest t (u ∷ us) =
    if leb (length (utf8_bytes u)) (length (utf8_bytes t))
    then t ∷ u ∷ us
    else u ∷ insert_longest t us

unfoldable pub sort_longest : List Text → List Text
unfolding insert_longest
sort_longest [] = []
sort_longest (t ∷ ts) = insert_longest t (sort_longest ts)

-- `mountpoints_in`, over the lines of the mount table
unfoldable pub mountpoints_in : List Text → Text → List Text
unfolding points_under sort_unique sort_longest
mountpoints_in table dir = sort_longest (sort_unique (points_under dir table))

abbrev pub mountpoints_under : Machine → Text → Log → List Text
unfolding mountpoints_in
mountpoints_under m dir h = mountpoints_in (read_lines (m.mount_table h)) dir

abbrev pub failure : Result Text (Unit {0}) → Option Text
failure (ok u) = none
failure (err e) = some e
failure panicked = none

-- What the loop of `umount_recursive` does to one mount point: the error of the lazy unmount, if it
-- comes to one and that fails too.
unfoldable pub lazily : Machine → Text → Result Text (Unit {0}) → Io (Option Text)
unfolding exec
lazily m mp (ok u) = pure none
lazily m mp (err e) =
    attempt (exec m false (codes "umount" ∷ codes "-l" ∷ mp ∷ [])) >>= λ r. pure (failure r)
lazily m mp panicked = pure none

unfoldable pub umount_one : Machine → Text → Io (Option Text)
unfolding exec
umount_one m mp = attempt (exec m false (codes "umount" ∷ mp ∷ [])) >>= lazily m mp

-- `failed.get_or_insert(e)` over the loop: the first error
abbrev pub first_failure : Option Text → Option Text → Option Text
first_failure none later = later
first_failure (some e) later = some e

unfoldable pub umount_all : Machine → List Text → Io (Option Text)
unfolding umount_one
umount_all m [] = pure none
umount_all m (mp ∷ mps) =
    umount_one m mp >>= λ e. umount_all m mps >>= λ e'. pure (first_failure e e')

abbrev pub raise_some : Option Text → Io (Unit {0})
raise_some none = pure tt
raise_some (some e) = raise e

unfoldable pub umount_recursive : Machine → Bool → Text → Io (Unit {0})
unfolding umount_all
umount_recursive m dry_run dir =
    if dry_run
    then pure tt
    else asked (mountpoints_under m dir) >>= λ mps. umount_all m mps >>= raise_some

-- `unmount`
unfoldable pub unmount : Machine → Bool → Text → Io (Unit {0})
unfolding exec umount_recursive
unmount m dry_run mnt =
    ignored (exec m dry_run (codes "sync" ∷ [])) >> umount_recursive m dry_run mnt

abbrev pub release_one : Machine → Bool → Text → Io (Unit {0})
unfolding umount_recursive
release_one m dry_run mnt = ignored (umount_recursive m dry_run mnt)

-- `release_own_mounts`; where nothing is mounted there is nothing to unmount.
unfoldable pub release_own_mounts : Machine → Bool → Io (Unit {0})
unfolding umount_recursive
release_own_mounts m dry_run = release_one m dry_run profile_mnt >> release_one m dry_run target_mnt

unfoldable pub settle : Machine → Bool → Io (Unit {0})
unfolding exec
settle m dry_run = ignored (exec m dry_run (codes "udevadm" ∷ codes "settle" ∷ []))

-- The polling of `wait_for_device`, every 100 ms until the deadline
unfoldable pub await_node : ℕ → Machine → ℕ → Text → Io (Unit {0})
await_node zero m deadline path h = (err (codes "timed out waiting for " ++ path), h)
await_node (suc fuel) m deadline path h =
    if leb deadline (m.now h)
    then (err (codes "timed out waiting for " ++ path), h)
    else if m.exists h path
    then (ok tt, h)
    else await_node fuel m deadline path (slept 100 ∷ h)

-- 100 sleeps of 100 ms pass the deadline of 10 s.
unfoldable pub wait_for_device : Machine → Bool → Text → Io (Unit {0})
unfolding await_node exec
wait_for_device m dry_run path h =
    if dry_run || m.exists h path
    then (ok tt, h)
    else (settle m false >> asked (λ h. m.now h) >>= λ now. await_node 101 m (now + 10000) path) h

-- `wait_for_exclusive_access`, every 200 ms until the deadline
unfoldable pub await_release : ℕ → Machine → ℕ → Text → Io (Unit {0})
await_release zero m deadline disk h = (ok tt, h)
await_release (suc fuel) m deadline disk h =
    if not (m.claimed h disk)
    then (ok tt, h)
    else if leb deadline (m.now h)
    then (ok tt, h)
    else await_release fuel m deadline disk (slept 200 ∷ h)

unfoldable pub wait_for_exclusive_access : Machine → Bool → Text → Io (Unit {0})
unfolding await_release
wait_for_exclusive_access m dry_run disk =
    if dry_run
    then pure tt
    else asked (λ h. m.now h) >>= λ now. await_release 51 m (now + 10000) disk
