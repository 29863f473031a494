-- ===== src/Model/Bundles.antt =====
-- src/core/model.rs: update bundles, and the hierarchy of them as far as it has been listed.
use flipperos_installer.Base.{
  Bool, true, false, List, [], ◌∷◌, ◌++◌, Option, none, some, Text, codes, trim_start, trim_end,
  text_eq, if◌then◌else◌, decimal,
}
use flipperos_installer.Model.Builds.{
  Source, FalconImage, UbootBuild, SnapshotBuild, resolved_build_number, source_kind_label,
}

pub data BundleLocation : Type 0 where
  remote : (base : Text) → BundleLocation
  dir : (root : Text) → BundleLocation

abbrev location_root : BundleLocation → Text
location_root (remote base) = base
location_root (dir root) = root

-- `BundleLocation::join`
unfoldable pub join_location : BundleLocation → Text → Text
unfolding trim_end trim_start
join_location l rel = trim_end b'/' (location_root l) ++ (codes "/" ++ trim_start b'/' rel)

unfoldable pub manifest_of : BundleLocation → Text
unfolding join_location
manifest_of l = join_location l (codes "manifest.json")

pub record BundleRef : Type 0 where
  pub id : Text
  pub channel : Text
  pub dir : Text
  pub location : BundleLocation
  pub source : Source
  pub archive : Option Text

-- `BundleRef::summary`
unfoldable pub bundle_summary : BundleRef → Text
unfolding source_kind_label
bundle_summary r =
    r.dir
    ++ (codes " (" ++ (r.channel ++ (codes ", " ++ (source_kind_label r.source ++ codes ")"))))

pub record SelectedBundle : Type 0 where
  pub reference : BundleRef
  pub name : Text
  pub version : Text
  pub channel : Text
  pub description : Text
  pub archive : Text
  pub board_dir : Text
  pub device_types : List Text
  pub uboot : UbootBuild
  pub boot_menu : Option FalconImage
  pub recovery : Option FalconImage
  pub build : SnapshotBuild

-- `SelectedBundle::label`
unfoldable pub bundle_label : SelectedBundle → Text
unfolding resolved_build_number decimal
bundle_label b = elim (resolved_build_number b.build) [
  | some n ↦ b.channel ++ (codes " #" ++ decimal n)
  | none ↦ b.channel ++ (codes " " ++ b.reference.dir)
]

pub data LoadState : Type 0 where
  idle loading complete : LoadState
  failed : Text → LoadState

pub record Listing {ℓ} (A : Type ℓ) : Type ℓ where
  pub items : List A
  pub state : LoadState

-- `Listing::default`
abbrev pub no_listing {ℓ} : {A : Type ℓ} → Listing A
no_listing = record { items = []; state = idle }

abbrev pending : LoadState → Bool
pending idle = true
pending loading = true
pending complete = false
pending (failed e) = false

unfoldable pub is_pending {ℓ} : {A : Type ℓ} → Listing A → Bool
is_pending l = pending l.state

-- A `HashMap`, as the list of its entries in the order in which it is iterated.
abbrev pub Entries {ℓ} : Type ℓ → Type ℓ
Entries A = List (Text × A)

module _ {ℓ} {A : Type ℓ} where
  -- `HashMap::get`
  unfoldable pub entry : Text → Entries A → Option A
  entry key [] = none
  entry key ((k, a) ∷ m) = if text_eq k key then some a else entry key m

  -- `HashMap::insert`
  unfoldable pub insert_entry : Text → A → Entries A → Entries A
  insert_entry key a [] = (key, a) ∷ []
  insert_entry key a ((k, b) ∷ m) =
      if text_eq k key then (key, a) ∷ m else (k, b) ∷ insert_entry key a m

  -- `entry(key).or_default()` with an assignment to the entry
  unfoldable pub change_entry : Text → A → (A → A) → Entries A → Entries A
  change_entry key d f [] = (key, f d) ∷ []
  change_entry key d f ((k, b) ∷ m) =
      if text_eq k key then (k, f b) ∷ m else (k, b) ∷ change_entry key d f m

pub record CatalogCache : Type 0 where
  pub channels : Listing Text
  pub builds : Entries (Listing BundleRef)
  pub dirs : Entries (Listing Text)
  pub local : Listing BundleRef
