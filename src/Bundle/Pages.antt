-- ===== src/Bundle/Pages.antt =====
-- src/core/bundle.rs: a listing that takes several pages is read whole.
use mathlib.Core.List.{append_assoc, append-nil}
use flipperos_installer.Base.{
  ℕ, zero, suc, ◌+◌, ◌≤◌, ◌≡◌, ◌≢◌, refl, sym, All, map, Lacks, trim_end, is_empty, if◌then◌else◌,
  strip_prefix-of_append, ap, ◌∙◌, List, [], ◌∷◌, ◌++◌, Option, none, some, Text, codes, ok, length,
  arith,
}
use flipperos_installer.Bundle.{Repo, prefix_of}
use flipperos_installer.Bundle.Query.{encode}
use flipperos_installer.Bundle.Listing.{
  ListPage, Answers, Children, no_children, add_page, collect, dir_name, item_name, page_url,
  read_pages, children, token_parameter,
}

-- Where a page is asked for: the names below the prefix up to the next slash, from the token on
abbrev pub location_of : Repo → Text → Option Text → Text
location_of repo prefix none =
    repo.list_url
    ++ (codes "?prefix="
        ++ (encode prefix ++ codes "&delimiter=%2F&fields=prefixes,items(name),nextPageToken"))
location_of repo prefix (some t) =
    repo.list_url
    ++ (codes "?prefix="
        ++ (encode prefix
            ++ (codes "&delimiter=%2F&fields=prefixes,items(name),nextPageToken"
                ++ (codes "&pageToken=" ++ encode t))))

location_of_lem :
    (repo : Repo) (prefix : Text) (token : Option Text)
    → location_of repo prefix token ≡ page_url repo prefix token
unfolding page_url token_parameter
location_of_lem repo prefix none = refl
location_of_lem repo prefix (some t) = refl

-- The server answers with these pages, from the `n`th request on, each naming the next one's token and
-- the last one none.
abbrev pub Serves : Answers → Repo → Text → ℕ → Option Text → List ListPage → Type 0
Serves net repo prefix n token [] = ⊥
Serves net repo prefix n token (p ∷ []) =
    (net n (location_of repo prefix token) ≡ ok p) × (p.next_page_token ≡ none)
Serves net repo prefix n token (p ∷ q ∷ ps) =
    (t : Text) × (net n (location_of repo prefix token) ≡ ok p)
    × (p.next_page_token ≡ some t)
    × Serves net repo prefix (n + 1) (some t) (q ∷ ps)

-- The directories and the files of a level that are on one page
pub record Contents : Type 0 where
  pub dirs : List Text
  pub files : List Text

abbrev pub IsName : Text → Type 0
IsName name = (name ≢ []) × Lacks b'/' name

-- The pages hold these contents: a directory is named with the prefix before it and a slash behind it,
-- and a file with the prefix before it.
abbrev pub Holds : Text → List Contents → List ListPage → Type 0
Holds prefix [] [] = Unit {0}
Holds prefix (c ∷ cs) (p ∷ ps) =
    All IsName c.dirs
    × All IsName c.files
    × (p.prefixes ≡ map (λ d. prefix ++ (d ++ codes "/")) c.dirs)
    × (p.items ≡ map (λ f. prefix ++ f) c.files)
    × Holds prefix cs ps
Holds prefix cs ps = ⊥

abbrev pub dirs_on : List Contents → List Text
dirs_on [] = []
dirs_on (c ∷ cs) = c.dirs ++ dirs_on cs

abbrev pub files_on : List Contents → List Text
files_on [] = []
files_on (c ∷ cs) = c.files ++ files_on cs

trim_end-slash : (d : Text) → Lacks b'/' d → trim_end b'/' (d ++ codes "/") ≡ d
unfolding trim_end
trim_end-slash [] l = refl
trim_end-slash (c ∷ []) l = ground arith
trim_end-slash (c ∷ d ∷ s) l = rw (trim_end-slash (d ∷ s) (ground arith)) refl

filled_name : (d : Text) → d ≢ [] → (if is_empty d then none else some d) ≡ some d
filled_name [] n = absurd (n refl)
filled_name (c ∷ d) n = refl

dir_name_lem : (prefix d : Text) → IsName d → dir_name prefix (prefix ++ (d ++ codes "/")) ≡ some d
unfolding dir_name
dir_name_lem prefix d (n, l) =
    rw (strip_prefix-of_append prefix (d ++ codes "/")) (rw (trim_end-slash d l) (filled_name d n))

item_name_lem : (prefix f : Text) → IsName f → item_name prefix (prefix ++ f) ≡ some f
unfolding item_name
item_name_lem prefix [] (n, l) = absurd (n refl)
item_name_lem prefix (c ∷ f) (n, l) = rw (strip_prefix-of_append prefix (c ∷ f)) (rw l refl)

collect_lem :
    (name_of : Text → Option Text) (f : Text → Text) (ds : List Text)
    → ((d : Text) → IsName d → name_of (f d) ≡ some d)
    → All IsName ds
    → collect name_of (map f ds) ≡ ds
unfolding collect
collect_lem name_of f [] k a = refl
collect_lem name_of f (d ∷ ds) k a = rw (k d a.0) (ap (λ l. d ∷ l) (collect_lem name_of f ds k a.1))

-- The names on all the pages, in their order
abbrev pub all_dirs : Text → List ListPage → List Text
all_dirs prefix [] = []
all_dirs prefix (p ∷ ps) = collect (dir_name prefix) p.prefixes ++ all_dirs prefix ps

abbrev pub all_files : Text → List ListPage → List Text
all_files prefix [] = []
all_files prefix (p ∷ ps) = collect (item_name prefix) p.items ++ all_files prefix ps

abbrev pub extended : Text → List ListPage → Children → Children
extended prefix ps out = record {
  dirs = out.dirs ++ all_dirs prefix ps;
  files = out.files ++ all_files prefix ps;
}

extended-nil : (prefix : Text) (out : Children) → extended prefix [] out ≡ out
extended-nil prefix out =
    λ i. record { dirs = append-nil out.dirs i; files = append-nil out.files i }

extended-add_page :
    (prefix : Text) (p : ListPage) (ps : List ListPage) (out : Children)
    → extended prefix ps (add_page prefix p out) ≡ extended prefix (p ∷ ps) out
unfolding add_page
extended-add_page prefix p ps out = λ i. record {
  dirs = append_assoc out.dirs (collect (dir_name prefix) p.prefixes) (all_dirs prefix ps) i;
  files = append_assoc out.files (collect (item_name prefix) p.items) (all_files prefix ps) i;
}

module _ (net : Answers) (repo : Repo) (prefix : Text) where
  read_pages_whole :
      (fuel n : ℕ) (token : Option Text) (ps : List ListPage) (out : Children)
      → length ps ≤ fuel
      → Serves net repo prefix n token ps
      → read_pages fuel net repo prefix n token out ≡ some (ok (extended prefix ps out))
  unfolding read_pages
  read_pages_whole fuel n token [] out h s = elim s [ ]
  read_pages_whole zero n token (p ∷ ps) out h s = absurd (omega arith)
  read_pages_whole (suc fuel) n token (p ∷ []) out h s =
      rw (sym (ap (net n) (location_of_lem repo prefix token)) ∙ s.0, read_pages)
        (rw s.1 (
          ap (λ c. some (ok c))
            (sym (extended-nil prefix (add_page prefix p out))
              ∙ extended-add_page prefix p [] out)))
  read_pages_whole (suc fuel) n token (p ∷ q ∷ ps) out h (t, a, b, s) =
      rw (sym (ap (net n) (location_of_lem repo prefix token)) ∙ a, read_pages)
        (rw b (
          read_pages_whole fuel (n + 1) (some t) (q ∷ ps) (add_page prefix p out) (omega arith) s
          ∙ ap (λ c. some (ok c)) (extended-add_page prefix p (q ∷ ps) out)))

module _ (prefix : Text) where
  all_dirs_lem :
      (cs : List Contents) (ps : List ListPage)
      → Holds prefix cs ps
      → all_dirs prefix ps ≡ dirs_on cs
  all_dirs_lem [] [] h = refl
  all_dirs_lem [] (p ∷ ps) h = elim h [ ]
  all_dirs_lem (c ∷ cs) [] h = elim h [ ]
  all_dirs_lem (c ∷ cs) (p ∷ ps) (d, f, e, i, h) =
      rw (e, all_dirs_lem cs ps h)
        (ap (λ l. l ++ dirs_on cs)
          (collect_lem (dir_name prefix) (λ d. prefix ++ (d ++ codes "/")) c.dirs
            (dir_name_lem prefix) d))

  all_files_lem :
      (cs : List Contents) (ps : List ListPage)
      → Holds prefix cs ps
      → all_files prefix ps ≡ files_on cs
  all_files_lem [] [] h = refl
  all_files_lem [] (p ∷ ps) h = elim h [ ]
  all_files_lem (c ∷ cs) [] h = elim h [ ]
  all_files_lem (c ∷ cs) (p ∷ ps) (d, f, e, i, h) =
      rw (i, all_files_lem cs ps h)
        (ap (λ l. l ++ files_on cs)
          (collect_lem (item_name prefix) (λ f. prefix ++ f) c.files (item_name_lem prefix) f))

-- Where the server answers the requests for a level with pages of which each names the next one's token
-- and the last one none, the pages hold directories and files whose names are neither empty nor hold a
-- slash, and the fuel is as many pages or more: the listing of the level has those directories and those
-- files, of all the pages, in their order, and no others.
pub children_whole :
    (net : Answers) (repo : Repo) (path : Text) (fuel : ℕ) (cs : List Contents) (ps : List ListPage)
    → Holds (prefix_of repo path ++ codes "/") cs ps
    → length ps ≤ fuel
    → Serves net repo (prefix_of repo path ++ codes "/") 0 none ps
    → children fuel net repo path ≡ some (ok (record { dirs = dirs_on cs; files = files_on cs }))
unfolding children
children_whole net repo path fuel cs ps held h s =
    read_pages_whole net repo (prefix_of repo path ++ codes "/") fuel 0 none ps no_children h s
    ∙ (λ i. some (
        ok (record {
          dirs = all_dirs_lem (prefix_of repo path ++ codes "/") cs ps held i;
          files = all_files_lem (prefix_of repo path ++ codes "/") cs ps held i;
        })))
