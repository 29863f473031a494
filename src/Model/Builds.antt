-- ===== src/Model/Builds.antt =====
-- src/core/model.rs: where files come from, the builds that can be installed and what they carry.
use flipperos_installer.Base.{
  ℕ, Bool, not, List, [], ◌∷◌, ◌++◌, Option, none, some, Text, codes, find, filter, if◌then◌else◌,
  and_some, or_some, decimal, is_empty, eq_ignore_case, split_once, take, length, ltb,
}

pub data Source : Type 0 where
  server : Source
  removable : (device mountpoint : Text) → Source
  local : (root : Text) → Source

-- `Source::label`
unfoldable pub source_kind_label : Source → Text
source_kind_label server = codes "server"
source_kind_label (removable device mountpoint) = codes "media " ++ device
source_kind_label (local root) = codes "local"

pub record SourceStamp : Type 0 where
  pub codebase : Text
  pub repository : Text
  pub branch : Text
  pub revision : Text

pub record BuildMeta : Type 0 where
  pub builder : Text
  pub number : Option ℕ
  pub url : Text
  pub timestamp : Text

pub record BuildDetails : Type 0 where
  pub build : BuildMeta
  pub sourcestamps : List SourceStamp

pub record FalconImage : Type 0 where
  pub location : Text
  pub source : Source
  pub size_bytes : ℕ
  pub sha256 : Option Text

pub record UbootBuild : Type 0 where
  pub id : Text
  pub label : Text
  pub mtime : Text
  pub image_location : Text
  pub manifest_location : Text
  pub source : Source
  pub size_bytes : ℕ
  pub sha256 : Option Text
  pub details : Option BuildDetails
  pub boot_menu : Option FalconImage
  pub loaded : Bool

pub record FalconBuild : Type 0 where
  pub id : Text
  pub label : Text
  pub mtime : Text
  pub image_location : Text
  pub manifest_location : Text
  pub source : Source
  pub size_bytes : ℕ
  pub sha256 : Option Text
  pub details : Option BuildDetails
  pub loaded : Bool

-- `FalconBuild::image`
unfoldable pub image : FalconBuild → Option FalconImage
image b =
    if b.loaded
    then some (record {
      location = b.image_location;
      source = b.source;
      size_bytes = b.size_bytes;
      sha256 = b.sha256;
    })
    else none

pub record PackFile : Type 0 where
  pub location : Text
  pub source : Source
  pub size_bytes : ℕ
  pub sha256 : Option Text

pub record ProfilePack : Type 0 where
  pub name : Text
  pub build : Text
  pub full : Option PackFile
  pub incremental : Option PackFile

unfoldable pub is_minimal : ProfilePack → Bool
unfolding eq_ignore_case
is_minimal p = eq_ignore_case p.name (codes "minimal")

unfoldable pub stock_subvol : ProfilePack → Text
stock_subvol p = codes "@" ++ (p.name ++ (codes "_" ++ (p.build ++ codes "_stock")))

unfoldable pub root_subvol : ProfilePack → Text
root_subvol p = codes "@" ++ p.name

pub record SnapshotBuild : Type 0 where
  pub id : Text
  pub label : Text
  pub mtime : Text
  pub source : Source
  pub base_location : Text
  pub build_number : Option ℕ
  pub profiles : List ProfilePack
  pub home_pack : Option PackFile
  pub loaded : Bool
  pub details : Option BuildDetails

-- `UbootBuild::build_number` and `FalconBuild::build_number`, from the details
abbrev pub number_of : Option BuildDetails → Option ℕ
number_of details = and_some details (λ d. d.build.number)

unfoldable pub resolved_build_number : SnapshotBuild → Option ℕ
resolved_build_number b = or_some b.build_number (number_of b.details)

-- `display_name` of a build with this number and this label
unfoldable pub numbered : Option ℕ → Text → Text
unfolding decimal
numbered none label = label
numbered (some n) label = codes "#" ++ decimal n

-- Texts are code points; `get(0..5)` counts bytes, which are the same in a time stamp.
unfoldable pub human_time : Text → Text
unfolding split_once
human_time mtime = elim (split_once b'T' mtime) [
  | none ↦ mtime
  | some (date, rest) ↦ if ltb (length rest) 5 then date else date ++ (codes " " ++ take 5 rest)
]

-- `summary` of a build with this name, modification time and source
unfoldable pub build_summary : Text → Text → Source → Text
unfolding human_time source_kind_label
build_summary name mtime source =
    name
    ++ (codes " (" ++ (human_time mtime ++ (codes ", " ++ (source_kind_label source ++ codes ")"))))

unfoldable pub uboot_display_name : UbootBuild → Text
unfolding numbered
uboot_display_name b = numbered (number_of b.details) b.label

unfoldable pub uboot_summary : UbootBuild → Text
unfolding uboot_display_name build_summary
uboot_summary b = build_summary (uboot_display_name b) b.mtime b.source

unfoldable pub falcon_display_name : FalconBuild → Text
unfolding numbered
falcon_display_name b = numbered (number_of b.details) b.label

unfoldable pub falcon_summary : FalconBuild → Text
unfolding falcon_display_name build_summary
falcon_summary b = build_summary (falcon_display_name b) b.mtime b.source

unfoldable pub snapshot_display_name : SnapshotBuild → Text
unfolding numbered resolved_build_number
snapshot_display_name b = numbered (resolved_build_number b) b.label

unfoldable pub snapshot_summary : SnapshotBuild → Text
unfolding snapshot_display_name build_summary
snapshot_summary b = build_summary (snapshot_display_name b) b.mtime b.source

unfoldable pub minimal : SnapshotBuild → Option ProfilePack
unfolding is_minimal
minimal b = find is_minimal b.profiles

unfoldable pub extra_profiles : SnapshotBuild → List ProfilePack
unfolding is_minimal
extra_profiles b = filter (λ p. not (is_minimal p)) b.profiles

-- The first line of `format_details`
unfoldable pub build_line : BuildMeta → Text
unfolding decimal
build_line b = elim b.number [
  | some n ↦
      if is_empty b.builder
      then codes "Build #" ++ decimal n
      else codes "Build #" ++ (decimal n ++ (codes " (" ++ (b.builder ++ codes ")")))
  | none ↦ if is_empty b.builder then codes "Build" else codes "Build (" ++ (b.builder ++ codes ")")
]

abbrev pub line_break : Text
line_break = 10 ∷ []

-- A line of its own, indented by two spaces
abbrev pub indented : Text → Text
indented t = line_break ++ (codes "  " ++ t)

unfoldable pub stamp_lines : List SourceStamp → Text
stamp_lines [] = []
stamp_lines (s ∷ ss) =
    (line_break
      ++ (line_break
          ++ (s.codebase
              ++ (indented (codes "branch: " ++ s.branch)
                  ++ (indented (codes "rev: " ++ s.revision) ++ indented s.repository)))))
    ++ stamp_lines ss

unfoldable pub format_details : Option BuildDetails → Text
unfolding build_line stamp_lines human_time
format_details none = codes "Loading…"
format_details (some d) =
    build_line d.build
    ++ ((if is_empty d.build.timestamp then [] else indented (human_time d.build.timestamp))
        ++ ((if is_empty d.build.url then [] else indented d.build.url)
            ++ stamp_lines d.sourcestamps))
