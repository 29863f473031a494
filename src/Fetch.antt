-- ===== src/Fetch.antt =====
-- src/core/fetch.rs: where an artifact is fetched from, the digests, and a download that resumes. The
-- hash itself is of another package; a digest is a parameter.
pub mod Resume
use flipperos_installer.Base.{
  Bool, true, false, ◌||◌, Option, none, some, Text, codes, starts_with, eq_ignore_case, to_lower,
  if◌then◌else◌,
}

unfoldable pub is_url : Text → Bool
is_url location = starts_with (codes "http://") location || starts_with (codes "https://") location

pub data Verdict : Type 0 where
  matched unpublished : Verdict
  mismatch : (computed expected : Text) → Verdict

-- `verify`, with the digest that was computed
unfoldable pub verify : Text → Option Text → Verdict
unfolding eq_ignore_case
verify got none = unpublished
verify got (some want) = if eq_ignore_case want got then matched else mismatch got (to_lower want)

abbrev pub is_mismatch : Verdict → Bool
is_mismatch matched = false
is_mismatch unpublished = false
is_mismatch (mismatch computed expected) = true
