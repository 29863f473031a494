-- ===== src/Layout.antt =====
-- src/core/layout.rs: the btrfs layout to create. The TOML reader and the file system are parameters.
use flipperos_installer.Base.{
  List, [], ◌∷◌, ◌++◌, Option, none, some, option_map, Text, codes, find, any, is_text, text_eq,
  and_some, get_or_else, trim_end, if◌then◌else◌,
}
use flipperos_installer.Model.{Source, server, removable, local, source_kind_label}

pub record Subvolume : Type 0 where
  pub name : Text
  pub mountpoint : Option Text
  pub compression : Option Text
  pub nodatacow : List Text

pub record Layout : Type 0 where
  pub label : Text
  pub options : Text
  pub subvolumes : List Subvolume

abbrev subvolume : Text → (mountpoint compression : Option Text) → List Text → Subvolume
subvolume name mountpoint compression nodatacow = record {
  name = name;
  mountpoint = mountpoint;
  compression = compression;
  nodatacow = nodatacow;
}

-- `Layout::embedded_default`, what config/flipperos-btrfs.toml says
abbrev pub default_layout : Layout
default_layout = record {
  label = codes "flipperos";
  options = codes "compress=zstd,noatime,ssd,discard=async";
  subvolumes =
      subvolume (codes "boot") (some (codes "/boot")) (some (codes "none")) []
      ∷ subvolume (codes "@home") (some (codes "/home")) none []
      ∷ subvolume (codes "@var-log") (some (codes "/var/log")) none (codes "journal" ∷ [])
      ∷ subvolume (codes "@var-cache") (some (codes "/var/cache")) none []
      ∷ subvolume (codes "@snapshots") none none []
      ∷ [];
}

unfoldable pub boot_subvol : Layout → Text
boot_subvol l =
    get_or_else
      (option_map (λ s. s.name) (find (λ s. is_text s.mountpoint (codes "/boot")) l.subvolumes))
      (codes "boot")

-- Reading a text file or a small download, and the layout in it
pub record LayoutFiles : Type 0 where
  pub file : Text → Option Text
  pub download : Text → Option Text
  pub layout_of : Text → Option Layout

abbrev layout_path : Text → Text → Text
layout_path root board_id =
    trim_end b'/' root ++ (codes "/flipperos/" ++ (board_id ++ codes "/btrfs-layout.toml"))

-- `try_load`; where the layout came from is left out.
unfoldable pub try_load : LayoutFiles → (server_url board_id : Text) → Source → Option Layout
unfolding trim_end
try_load fs server_url board_id (removable device root) =
    and_some (fs.file (layout_path root board_id)) fs.layout_of
try_load fs server_url board_id (local root) =
    and_some (fs.file (layout_path root board_id)) fs.layout_of
try_load fs server_url board_id server =
    and_some
      (fs.download (
        trim_end b'/' server_url ++ (codes "/boards/" ++ (board_id ++ codes "/btrfs-layout.toml"))))
      fs.layout_of

-- The loop of `resolve`, with the sources that were tried by their labels
unfoldable pub first_layout :
    LayoutFiles → (server_url board_id : Text) → List Text → List Source → Layout
unfolding try_load source_kind_label
first_layout fs url board tried [] = default_layout
first_layout fs url board tried (s ∷ more) =
    let skip = first_layout fs url board tried more in
    let rest = first_layout fs url board (tried ++ (source_kind_label s ∷ [])) more in
    if any (text_eq (source_kind_label s)) tried
    then skip
    else elim (try_load fs url board s) [ some l ↦ l | none ↦ rest ]
