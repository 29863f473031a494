-- ===== src/Ufs/World/Trace.antt =====
-- What the calls of src/core/ufs.rs add to the history, by the lemmas on calls.
pub use flipperos_installer.Added.{
  Grown, Adds, Grown-refl, Grown-trans, >>=-Adds, if-Adds, raise_if-Adds, attempt-Adds,
  and_then-ne_panicked, and_then-eq-ok, raise_if_lem, and_then-pure,
}
