-- ===== src/Archive.antt =====
-- src/core/archive.rs: bundles that come as an archive. Reading the archive and its compression are of
-- other packages: an archive is what it yields, member by member.
pub mod Counted
pub mod Inside
use flipperos_installer.Base.{
  ℕ, zero, suc, Bool, true, false, ◌||◌, List, [], ◌∷◌, ◌++◌, Option, none, some, option_map, Text,
  codes, Result, ok, err, panicked, if◌then◌else◌, ◌==◌, text_eq, is_empty, starts_with, and_some,
  add64, length, get_or_else,
}
use flipperos_installer.Base.Calls.{Call, pure, raise, lift, ◌>>=◌, ◌>>◌, perform}
use flipperos_installer.Ufs.Rescan.{components}
use flipperos_installer.Model.{BundleRef, BundleLocation, dir, remote}
use flipperos_installer.Stage.{texts_eq}

-- `Component`, of a path as the standard library splits it
pub data Part : Type 0 where
  normal : Text → Part
  root_dir cur_dir parent_dir : Part

-- A segment that is not the first: empty ones and dots are passed over.
abbrev pub part_of : Text → Option Part
unfolding text_eq
part_of seg =
    if is_empty seg || text_eq seg (codes ".")
    then none
    else if text_eq seg (codes "..")
    then some parent_dir
    else some (normal seg)

abbrev pub first_part : Text → Option Part
unfolding text_eq
first_part seg = if text_eq seg (codes ".") then some cur_dir else part_of seg

abbrev pub prepend : Option Part → List Part → List Part
prepend none ps = ps
prepend (some p) ps = p ∷ ps

unfoldable pub later_parts : List Text → List Part
unfolding part_of text_eq
later_parts [] = []
later_parts (seg ∷ segs) = prepend (part_of seg) (later_parts segs)

abbrev pub parts_from : List Text → List Part
unfolding first_part part_of text_eq later_parts
parts_from [] = []
parts_from (seg ∷ segs) = prepend (first_part seg) (later_parts segs)

-- `Path::components`
unfoldable pub path_parts : Text → List Part
unfolding components later_parts parts_from first_part part_of text_eq starts_with
path_parts path =
    let segs = components [] path in
    if starts_with (codes "/") path then root_dir ∷ later_parts segs else parts_from segs

-- The names of parts that are all ordinary ones
unfoldable pub all_normal : List Part → Option (List Text)
all_normal [] = some []
all_normal (normal s ∷ ps) = option_map (λ names. s ∷ names) (all_normal ps)
all_normal (root_dir ∷ ps) = none
all_normal (cur_dir ∷ ps) = none
all_normal (parent_dir ∷ ps) = none

abbrev pub below_top : List Part → Option (List Text)
unfolding all_normal
below_top (normal s ∷ ps) =
    and_some (all_normal ps) λ names. elim names [ [] ↦ none | n ∷ ns ↦ some (n ∷ ns) ]
below_top _ = none

-- `inner_path`, as the names that it pushes
unfoldable pub inner_path : Text → Option (List Text)
unfolding path_parts below_top all_normal components
inner_path path = below_top (path_parts path)

-- What a member yields: its path, its kind, the size in its header if that can be read, and what its
-- reads give up to the first failure. A read that is interrupted is repeated, and yields nothing here.
pub record Member : Type 0 where
  pub path : Result Text Text
  pub is_file : Bool
  pub size : Option ℕ
  pub reads : List (Result Text (List ℕ))

-- An archive as it is read: it may fail to open, and at any member.
abbrev pub Archive : Type 0
Archive = Result Text (List (Result Text Member))

abbrev pub is_manifest : Option (List Text) → Bool
unfolding texts_eq text_eq
is_manifest none = false
is_manifest (some names) = texts_eq names (codes "manifest.json" ∷ [])

abbrev pub result_then : {A B : Type 0} → Result Text A → (A → Result Text B) → Result Text B
result_then (ok a) next = next a
result_then (err e) next = err e
result_then panicked next = panicked

-- `read_to_end`
unfoldable pub read_to_end : List (Result Text (List ℕ)) → Result Text (List ℕ)
read_to_end [] = ok []
read_to_end (r ∷ rs) =
    result_then r λ bytes. result_then (read_to_end rs) λ more. ok (bytes ++ more)

unfoldable pub find_manifest : Text → List (Result Text Member) → Result Text (List ℕ)
unfolding inner_path is_manifest read_to_end
find_manifest archive [] = err (archive ++ codes ": no manifest.json in the archive")
find_manifest archive (m ∷ ms) =
    let rest = find_manifest archive ms in
    result_then m λ member.
      result_then member.path
        λ path. if is_manifest (inner_path path) then read_to_end member.reads else rest

-- `read_manifest`
unfoldable pub read_manifest : Text → Archive → Result Text (List ℕ)
unfolding find_manifest
read_manifest archive opened = result_then opened (find_manifest archive)

unfoldable pub add_sizes : List (Result Text Member) → ℕ → Result Text ℕ
add_sizes [] total = ok total
add_sizes (m ∷ ms) total = result_then m λ member.
    add_sizes ms (if member.is_file then add64 total (get_or_else member.size 0) else total)

-- `unpacked_size`
unfoldable pub unpacked_size : Archive → Result Text ℕ
unfolding add_sizes
unpacked_size opened = result_then opened λ members. add_sizes members 0

-- What unpacking does
pub data Unpacking : Type 0 where
  made_dir made_file : (path : Text) → Unpacking
  wrote : (path : Text) (bytes : List ℕ) → Unpacking

-- The error that the system gives an action, if it fails
pub record System : Type 0 where
  pub failure : List Unpacking → Unpacking → Option Text

abbrev pub Io : Type 0 → Type 0
Io = Call Unpacking Text

abbrev pub result_of : Option Text → Result Text (Unit {0})
result_of none = ok tt
result_of (some e) = err e

abbrev pub acts : System → Unpacking → Io (Unit {0})
acts sys e h = (result_of (sys.failure h e), e ∷ h)

-- `PathBuf::push` of an ordinary name
abbrev ends_in_slash : Text → Bool
ends_in_slash [] = false
ends_in_slash (c ∷ []) = c == b'/'
ends_in_slash (c ∷ d ∷ s) = ends_in_slash (d ∷ s)

unfoldable pub push_name : Text → Text → Text
push_name path name =
    if is_empty path || ends_in_slash path then path ++ name else path ++ (codes "/" ++ name)

unfoldable pub push_names : Text → List Text → Text
unfolding push_name
push_names path [] = path
push_names path (n ∷ ns) = push_names (push_name path n) ns

-- `parent`: all names but the last
abbrev pub but_last : List Text → List Text
but_last [] = []
but_last (n ∷ []) = []
but_last (n ∷ o ∷ ns) = n ∷ but_last (o ∷ ns)

-- The loop that copies a member's bytes
unfoldable pub copy_reads : System → Text → List (Result Text (List ℕ)) → ℕ → Io ℕ
copy_reads sys out [] total = pure total
copy_reads sys out (r ∷ rs) total = lift r >>= λ bytes.
    acts sys (wrote out bytes) >> copy_reads sys out rs (add64 total (length bytes))

-- How many files there were, and how many bytes
abbrev pub Tally : Type 0
Tally = ℕ × ℕ

unfoldable pub unpack_file :
    System → Text → List Text → List (Result Text (List ℕ)) → Tally → Io Tally
unfolding push_names copy_reads
unpack_file sys dest names reads (files, total) =
    let out = push_names dest names in
    acts sys (made_dir (push_names dest (but_last names)))
    >> (acts sys (made_file out)
        >> (copy_reads sys out reads total >>= λ total'. pure (suc files, total')))

abbrev pub unpack_at :
    System → Text → List (Result Text (List ℕ)) → Tally → Option (List Text) → Io Tally
unfolding unpack_file
unpack_at sys dest reads tally none = pure tally
unpack_at sys dest reads tally (some names) = unpack_file sys dest names reads tally

-- The body of the loop over the members
unfoldable pub unpack_member : System → Text → Member → Tally → Io Tally
unfolding inner_path unpack_at unpack_file
unpack_member sys dest m tally =
    if m.is_file
    then (lift m.path >>= λ path. unpack_at sys dest m.reads tally (inner_path path))
    else pure tally

unfoldable pub unpack_all : System → Text → List (Result Text Member) → Tally → Io Tally
unfolding unpack_member
unpack_all sys dest [] tally = pure tally
unpack_all sys dest (m ∷ ms) tally =
    lift m >>= λ member. unpack_member sys dest member tally >>= unpack_all sys dest ms

-- `unpack`
unfoldable pub unpack_into : System → (archive : Text) → Archive → (dest : Text) → Io ℕ
unfolding unpack_all
unpack_into sys archive opened dest = do
  acts sys (made_dir dest)
  members ← lift opened
  tally ← unpack_all sys dest members (0, 0)
  if tally.0 == 0 then raise (archive ++ codes ": archive contained no files") else pure tally.1

abbrev pub unpack_to : System → (archive : Text) → Archive → BundleLocation → Io ℕ
unfolding unpack_into
unpack_to sys archive opened (dir root) = unpack_into sys archive opened root
unpack_to sys archive opened (remote base) =
    raise (archive ++ codes ": an archive bundle must unpack to a directory")

abbrev pub unpack_behind : System → (Text → Archive) → Option Text → BundleLocation → Io ℕ
unfolding unpack_to
unpack_behind sys archives none location = pure 0
unpack_behind sys archives (some archive) location =
    unpack_to sys archive (archives archive) location

-- `bundle::unpack`
unfoldable pub unpack_reference : System → (Text → Archive) → BundleRef → Io ℕ
unfolding unpack_behind
unpack_reference sys archives reference =
    unpack_behind sys archives reference.archive reference.location
