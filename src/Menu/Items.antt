-- ===== src/Menu/Items.antt =====
-- src/core/menu.rs: the rows of the menu, and the texts on them. How a size is printed, which takes
-- floats, and the capital letters of a character are parameters.
use flipperos_installer.Base.{
  ℕ, suc, Bool, true, false, not, List, [], ◌∷◌, ◌++◌, map, filter, any, Option, none, some, Text,
  codes, if◌then◌else◌, text_eq, ◌==◌, trim_start, trim_end, split_once,
}
use flipperos_installer.Model.{
  Source, server, removable, local, FetchMode, LoadState, idle, loading, complete,
}
use flipperos_installer.Provision.Compare.{Target}
use flipperos_installer.Ufs.Rescan.{text_le}
use flipperos_installer.Stage.{last_segment}
use flipperos_installer.Menu.Nav.{MenuKey}

pub record Printing : Type 0 where
  pub size : ℕ → Text
  pub capital : ℕ → Text

pub data Action : Type 0 where
  open_level : MenuKey → Action
  pick_device pick_uboot pick_boot_menu pick_recovery pick_snapshot pick_bundle : Text → Action
  pick_fetch : FetchMode → Action
  toggle_one : (name : Text) → (on : Bool) → Action
  toggle_all : Bool → Action
  install inert : Action
  reprovision : Target → Action

pub data LoadRequest : Type 0 where
  load_channels load_local : LoadRequest
  load_builds load_dirs load_bundle load_uboot load_boot_menu load_recovery load_snapshot :
      Text → LoadRequest

pub data DetailsTarget : Type 0 where
  of_uboot of_boot_menu of_recovery of_snapshot of_bundle of_ufs : Text → DetailsTarget

pub data Marker : Type 0 where
  no_marker unchecked checked : Marker

pub data Icon : Type 0 where
  no_icon network sd_card : Icon

-- `Icon::for_source`
abbrev pub icon_of : Source → Icon
icon_of server = network
icon_of (removable device mountpoint) = sd_card
icon_of (local root) = sd_card

pub data LevelKind : Type 0 where
  menu single_pick multi_pick : LevelKind

pub record MenuItem : Type 0 where
  pub text : Text
  pub detail : Text
  pub icon : Icon
  pub marker : Marker
  pub selected : Bool
  pub drill : Bool
  pub dim : Bool
  pub action : Action
  pub on_focus : Option LoadRequest
  pub details : Option DetailsTarget

abbrev opens : Action → Bool
opens (open_level key) = true
opens _ = false

-- `MenuItem::plain`, with the detail and with whether it is the level's choice
abbrev pub plain : Text → Action → MenuItem
plain text action = record {
  text = text;
  detail = [];
  icon = no_icon;
  marker = no_marker;
  selected = false;
  drill = opens action;
  dim = false;
  action = action;
  on_focus = none;
  details = none;
}

-- `MenuItem::inert`
abbrev pub inert_item : Text → MenuItem
inert_item text = record (plain text inert) { dim = true }

pub record Level : Type 0 where
  pub key : MenuKey
  pub title : Text
  pub crumb : Text
  pub kind : LevelKind
  pub items : List MenuItem
  pub loading : Bool
  pub load : Option LoadRequest
  pub preferred_cursor : Option ℕ
  pub can_refresh : Bool

-- The `suc` of a position further on
abbrev pub one_on : Option ℕ → Option ℕ
one_on none = none
one_on (some i) = some (suc i)

-- `iter().position(|i| i.selected)`
unfoldable pub selected_position : List MenuItem → Option ℕ
selected_position [] = none
selected_position (i ∷ is) = if i.selected then some 0 else one_on (selected_position is)

unfoldable pub level_of : MenuKey → Text → LevelKind → List MenuItem → Level
unfolding selected_position
level_of key title kind items = record {
  key = key;
  title = title;
  crumb = title;
  kind = kind;
  items = items;
  loading = false;
  load = none;
  preferred_cursor = selected_position items;
  can_refresh = false;
}

-- `placeholder`, which always gives a row
unfoldable pub placeholder : LoadState → Text → MenuItem
placeholder idle what = inert_item (codes "(loading…)")
placeholder loading what = inert_item (codes "(loading…)")
placeholder complete what = inert_item (codes "(no " ++ (what ++ codes " found)"))
placeholder (LoadState.failed e) what = inert_item (codes "(failed: " ++ (e ++ codes ")"))

-- Sorting of texts, by their code points
unfoldable pub insert_text : Text → List Text → List Text
insert_text t [] = t ∷ []
insert_text t (u ∷ us) = if text_le t u then t ∷ u ∷ us else u ∷ insert_text t us

unfoldable pub sort_texts : List Text → List Text
unfolding insert_text
sort_texts [] = []
sort_texts (t ∷ ts) = insert_text t (sort_texts ts)

abbrev pub dev_channel : Text
dev_channel = codes "dev"

-- `CHANNEL_ORDER`
abbrev pub channel_order : List Text
channel_order = codes "release" ∷ codes "release-candidate" ∷ codes "nightly" ∷ dev_channel ∷ []

-- The first loop of `ordered_channels`
unfoldable pub known_channels : List Text → List Text → List Text
known_channels [] names = []
known_channels (wanted ∷ more) names =
    if any (λ n. text_eq n wanted) names
    then wanted ∷ known_channels more names
    else known_channels more names

unfoldable pub ordered_channels : List Text → List Text
unfolding known_channels sort_texts
ordered_channels names =
    known_channels channel_order names
    ++ sort_texts (filter (λ n. not (any (text_eq n) channel_order)) names)

-- `split('/')`, of which `seen` begins the next segment
unfoldable pub split_slash : Text → Text → List Text
split_slash seen [] = seen ∷ []
split_slash seen (c ∷ s) =
    let rest = split_slash [] s in
    let same = split_slash (seen ++ (c ∷ [])) s in if c == b'/' then seen ∷ rest else same

abbrev pub trim_slashes : Text → Text
trim_slashes path = trim_end b'/' (trim_start b'/' path)

abbrev at_least_three : List Text → Bool
at_least_three (a ∷ b ∷ c ∷ more) = true
at_least_three _ = false

-- `bundle::is_dev_leaf`
unfoldable pub is_dev_leaf : Text → Bool
unfolding split_slash trim_start trim_end
is_dev_leaf path = at_least_three (split_slash [] (trim_slashes path))

module _ (print : Printing) where
  unfoldable pub title_case : Text → Text
  title_case [] = []
  title_case (c ∷ s) = print.capital c ++ s

  unfoldable pub channel_label : Text → Text
  unfolding title_case
  channel_label name = title_case (map (λ c. if c == b'-' then b' ' else c) name)

  abbrev joined : List Text → Text
  joined [] = []
  joined (t ∷ ts) = codes " › " ++ (title_case t ++ joined ts)

  abbrev crumb_segments : List Text → Text
  crumb_segments [] = []
  crumb_segments (t ∷ ts) = channel_label t ++ joined ts

  unfoldable pub crumb : Text → Text
  unfolding split_slash trim_start trim_end channel_label title_case
  crumb path = crumb_segments (split_slash [] (trim_slashes path))

  unfoldable pub crumb_title : Text → Text
  unfolding split_once last_segment trim_start trim_end channel_label title_case
  crumb_title path = elim (split_once b'/' (trim_slashes path)) [
    | none ↦ channel_label (trim_slashes path)
    | some (head, tail) ↦ title_case (last_segment [] tail)
  ]
