-- ===== src/Install/VerifyFirst.antt =====
-- An installation that verifies first erases nothing before every artifact is verified.
mod Parts
use flipperos_installer.Base.{◌≡◌, false, Text, ok}
use flipperos_installer.Machine.{Machine, Log}
use flipperos_installer.Model.{AppState}
use flipperos_installer.Stage.{Artifact}
use flipperos_installer.Install.{Config, prepare}
use Parts.{IsVerifiedAt, PartsAreVerified}
use flipperos_installer.Install.Selected.{Installation, selected}

abbrev pub real : (cache_dir server_url : Text) → Config
real cache_dir server_url = record {
  dry_run = false;
  cache_dir = cache_dir;
  server_url = server_url;
}

abbrev pub IsVerified : Machine → Log → Artifact → Type 0
IsVerified m h0 a = IsVerifiedAt m h0 a.location a.sha256

-- What the guards settled of the selection
abbrev pub IsPrepared : Machine → Config → AppState → Log → Installation → Type 0
IsPrepared m cfg s h j =
    (chosen : Installation) × (selected s ≡ ok chosen) × ((prepare m cfg chosen h).0 ≡ ok j)

-- Every part of what is prepared is verified.
abbrev pub AreVerified : Machine → Config → AppState → Log → Type 0
AreVerified m cfg s h = (j : Installation) × IsPrepared m cfg s h j × PartsAreVerified m h j
