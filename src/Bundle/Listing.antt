-- ===== src/Bundle/Listing.antt =====
-- src/core/bundle.rs: the listing of a level of the bucket, page by page, and what is offered of it.
use flipperos_installer.Base.{
  ℕ, zero, suc, ◌+◌, Bool, true, not, ◌&&◌, List, [], ◌∷◌, ◌++◌, map, any, Option, none, some,
  option_map, Text, codes, Result, ok, err, panicked, if◌then◌else◌, text_eq, is_empty, trim_start,
  trim_end, and_some, strip_prefix, sort_by,
}
use flipperos_installer.Ufs.Rescan.{text_le}
use flipperos_installer.Model.{server, remote, BundleRef}
use flipperos_installer.Bundle.{Repo, prefix_of, url_of, trim_both, has_char}
use flipperos_installer.Bundle.Query.{encode}

-- `ListPage`; an item is its name.
pub record ListPage : Type 0 where
  pub prefixes : List Text
  pub items : List Text
  pub next_page_token : Option Text

-- `fetch::json` of a page, by how many were fetched before it and by its location
abbrev pub Answers : Type 0
Answers = ℕ → Text → Result Text ListPage

pub record Children : Type 0 where
  pub dirs : List Text
  pub files : List Text

abbrev pub no_children : Children
no_children = record { dirs = []; files = [] }

unfoldable pub is_build_dir : Children → Bool
unfolding text_eq
is_build_dir c = any (λ f. text_eq f (codes "manifest.json")) c.files

unfoldable pub dir_name : Text → Text → Option Text
unfolding strip_prefix trim_end
dir_name prefix p =
    and_some (option_map (trim_end b'/') (strip_prefix prefix p))
      λ name. if is_empty name then none else some name

unfoldable pub item_name : Text → Text → Option Text
unfolding strip_prefix
item_name prefix p =
    and_some (strip_prefix prefix p)
      λ name. if not (is_empty name) && not (has_char b'/' name) then some name else none

-- The loop over names that pushes those it recognises
unfoldable pub collect : (Text → Option Text) → List Text → List Text
collect name_of [] = []
collect name_of (p ∷ ps) =
    let rest = collect name_of ps in elim (name_of p) [ none ↦ rest | some name ↦ name ∷ rest ]

unfoldable pub add_page : Text → ListPage → Children → Children
unfolding collect dir_name item_name
add_page prefix page out = record {
  dirs = out.dirs ++ collect (dir_name prefix) page.prefixes;
  files = out.files ++ collect (item_name prefix) page.items;
}

unfoldable pub token_parameter : Option Text → Text
unfolding encode
token_parameter none = []
token_parameter (some t) = codes "&pageToken=" ++ encode t

unfoldable pub page_url : Repo → Text → Option Text → Text
unfolding encode token_parameter
page_url repo prefix token =
    repo.list_url
    ++ (codes "?prefix="
        ++ (encode prefix
            ++ (codes "&delimiter=%2F&fields=prefixes,items(name),nextPageToken"
                ++ token_parameter token)))

-- The loop of `children`, on fuel: `none` is a server that goes on naming a next page.
unfoldable pub read_pages :
    ℕ → Answers → Repo → Text → ℕ → Option Text → Children → Option (Result Text Children)
unfolding add_page page_url
read_pages zero net repo prefix n token out = none
read_pages (suc fuel) net repo prefix n token out = elim (net n (page_url repo prefix token)) [
  | err e ↦ some (err e)
  | panicked ↦ some panicked
  | ok page ↦ elim page.next_page_token [
    | none ↦ some (ok (add_page prefix page out))
    | some t ↦ read_pages fuel net repo prefix (n + 1) (some t) (add_page prefix page out)
  ]
]

-- The fetches of a listing, `net`, are those of one walk.
unfoldable pub children : ℕ → Answers → Repo → Text → Option (Result Text Children)
unfolding prefix_of read_pages
children fuel net repo path =
    read_pages fuel net repo (prefix_of repo path ++ codes "/") 0 none no_children

abbrev pub then_ok {ℓ κ} :
    {A : Type ℓ} {B : Type κ} → (A → B) → Option (Result Text A) → Option (Result Text B)
then_ok f none = none
then_ok f (some (ok a)) = some (ok (f a))
then_ok f (some (err e)) = some (err e)
then_ok f (some panicked) = some panicked

module _ (fuel : ℕ) (net : Answers) (repo : Repo) where
  unfoldable pub channels : Option (Result Text (List Text))
  unfolding children
  channels = then_ok (λ c. c.dirs) (children fuel net repo [])

  unfoldable pub dirs_of : Text → Option (Result Text (List Text))
  unfolding children sort_by text_le
  dirs_of path = then_ok (λ c. sort_by (λ a b. text_le b a) c.dirs) (children fuel net repo path)

  unfoldable pub remote_ref : (channel dir : Text) → BundleRef
  unfolding url_of trim_start trim_end
  remote_ref channel dir = record {
    id = trim_both channel ++ (codes "/" ++ dir);
    channel = trim_both channel;
    dir = dir;
    location = remote (url_of repo (trim_both channel ++ (codes "/" ++ dir)) ++ codes "/");
    source = server;
    archive = none;
  }

  unfoldable pub builds_in : Text → Option (Result Text (List BundleRef))
  unfolding children remote_ref sort_by text_le
  builds_in path =
      then_ok (λ c. sort_by (λ a b. text_le b.dir a.dir) (map (remote_ref path) c.dirs))
        (children fuel net repo path)

-- `level_holds_builds`, with the answers of both listings
abbrev holds_builds : ℕ → Answers → Repo → Text → List Text → Option (Result Text Bool)
unfolding children is_build_dir
holds_builds fuel net repo path [] = some (ok true)
holds_builds fuel net repo path (first ∷ more) =
    then_ok is_build_dir (children fuel net repo (path ++ (codes "/" ++ first)))

unfoldable pub level_holds_builds :
    ℕ → (first second : Answers) → Repo → Text → Option (Result Text Bool)
unfolding children holds_builds
level_holds_builds fuel first second repo path = elim (children fuel first repo path) [
  | none ↦ none
  | some (ok c) ↦ holds_builds fuel second repo path c.dirs
  | some (err e) ↦ some (err e)
  | some panicked ↦ some panicked
]
