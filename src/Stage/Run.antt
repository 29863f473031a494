-- ===== src/Stage/Run.antt =====
-- src/core/stage.rs: the staging, which copies and checks every artifact before anything is erased.
use flipperos_installer.Base.{
  ℕ, ◌+◌, ◌-◌, ◌*◌, ◌%◌, ◌^◌, u64_mod, Bool, not, ◌&&◌, List, [], ◌∷◌, ◌++◌, none, some, Text,
  codes, if◌then◌else◌, ltb, total, min,
}
use flipperos_installer.Base.Calls.{pure, raise, lift, ◌>>=◌, ◌>>◌}
use flipperos_installer.Fetch.{is_url, verify, Verdict, matched, unpublished, mismatch}
use flipperos_installer.Model.{BundleRef, FetchMode, verify_first, stream}
use flipperos_installer.Machine.{Machine, made_file, made_dir, unpacked, Io, acts, asked, checked}
use flipperos_installer.Stage.{Artifact, Staged, join_path, same_path}

-- `FREE_SPACE_MARGIN`
abbrev pub free_space_margin : ℕ
free_space_margin = 64 * 1024 * 1024

pub data OnMismatch : Type 0 where
  fail warn : OnMismatch

-- `OnMismatch::for_mode`
abbrev pub policy_of : FetchMode → OnMismatch
policy_of verify_first = fail
policy_of stream = warn

-- `apply_verdict`
unfoldable pub apply_verdict : Text → Verdict → OnMismatch → Io (Unit {0})
apply_verdict what matched policy = pure tt
apply_verdict what unpublished policy = pure tt
apply_verdict what (mismatch computed expected) fail = raise (codes "sha256 mismatch for " ++ what)
apply_verdict what (mismatch computed expected) warn = pure tt

-- Whether so much room is left with the headroom; `saturating_add` stops at the largest `u64`.
abbrev pub has_room : (available needed : ℕ) → Bool
has_room available needed = not (ltb available (min (needed + free_space_margin) (2 ^ 64 - 1)))

-- `ensure_space`
unfoldable pub ensure_space : Machine → Text → ℕ → Io (Unit {0})
ensure_space m dir needed = do
  available ← asked (λ h. m.free_space h dir)
  room ← lift available
  if has_room room needed then pure tt else raise (codes "not enough space in " ++ dir)

-- `unpack_bundle`
unfoldable pub unpack_archive : Machine → Bool → Text → Text → Io (Unit {0})
unfolding ensure_space
unpack_archive m dry_run cache_dir path =
    if dry_run
    then pure tt
    else asked (λ h. m.file_size h path) >>= λ estimate.
        ensure_space m cache_dir estimate >> acts (unpacked path) (λ h. m.unpacks h path)

unfoldable pub unpack_bundle : Machine → Bool → Text → BundleRef → Io (Unit {0})
unfolding unpack_archive
unpack_bundle m dry_run cache_dir reference = elim reference.archive [
  | none ↦ pure tt
  | some path ↦ unpack_archive m dry_run cache_dir path
]

-- The copy of an artifact, unless it lies there already
unfoldable pub copy_artifact : Machine → Artifact → Text → Io (Unit {0})
unfolding is_url same_path
copy_artifact m a dest =
    if not (is_url a.location) && same_path a.location dest
    then checked (λ h. m.copies h a.location dest)
    else acts (made_file dest) (λ h. m.makes h dest) >> checked (λ h. m.copies h a.location dest)

-- The digest of a copy, and the pair that is kept of it
unfoldable pub check_copy : Machine → Artifact → Text → Io (Text × Text)
unfolding verify apply_verdict
check_copy m a dest = asked (λ h. m.digest h a.location) >>= λ digest.
    apply_verdict a.label (verify digest a.sha256) fail >> pure (a.location, dest)

-- The body of the loop in `run`
unfoldable pub stage_artifact : Machine → Text → Artifact → Io (Text × Text)
unfolding copy_artifact check_copy join_path
stage_artifact m dir a =
    let dest = join_path dir a.rel in
    checked (λ h. m.opens h a.location a.source) >> (copy_artifact m a dest >> check_copy m a dest)

unfoldable pub stage_all : Machine → Text → List Artifact → Io (List (Text × Text))
unfolding stage_artifact
stage_all m dir [] = pure []
stage_all m dir (a ∷ more) =
    stage_artifact m dir a >>= λ copy. stage_all m dir more >>= λ copies. pure (copy ∷ copies)

-- `run`
unfoldable pub run_staging : Machine → Bool → Text → List Artifact → Io Staged
unfolding ensure_space stage_all
run_staging m dry_run dir plan = if dry_run then pure (record { dir = dir; copies = [] }) else do
  ensure_space m dir (total (λ a. a.size) plan % u64_mod)
  acts (made_dir dir) (λ h. m.makes h dir)
  copies ← stage_all m dir plan
  pure (record { dir = dir; copies = copies })
