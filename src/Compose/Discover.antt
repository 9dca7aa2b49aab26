-- ===== src/Compose/Discover.antt =====
-- `Discover` of internal/compose/discover.go: the stacks of a compose directory. Cached has
-- the cache in front of it, which answers from the last result while the files' fingerprint stays.
use Prim.Native.Char.{code}
use Prim.Native.String.{compare}
use text.Mathlib.Text.{is_le, starts_with}
use compose_lock.Prelude.{
  ℕ, String, ◌<>◌, Bool, true, false, not, ◌&&◌, ◌||◌, Option, none, some, List, [], ◌∷◌, ◌++◌, ltb,
  leb, beq, ◌==◌, contains, length, if◌then◌else◌,
}
use compose_lock.Strings.{to_lower, has_suffix, trim_suffix, ext_of}
use compose_lock.Paths.{FilePath, join_path, show_path}
use compose_lock.Errors.{Err, plain, wrap, Try, ok, err}
use compose_lock.Compose.{Stack, Entry, Fs}
use compose_lock.Compose.Kinds.{
  is_compose_candidate, sub_dir_of, Kind, foreign, compose, check_compose_file,
}
use compose_lock.Compose.Yaml.{
  Documents, Yaml, mapping, sequence, cons, Fields, end, field, at_key, has_key, yaml_mappings,
}
pub mod Distinct
pub mod Cached
mod Tests

base_names : List String
base_names = "compose.yaml" ∷ "compose.yml" ∷ "docker-compose.yaml" ∷ "docker-compose.yml" ∷ []

-- The compose files of a directory, and whether one of them defines a workload.
pub record Files : Type 0 where
  pub files : List (String × FilePath)
  pub workloads : Bool

add_kind : String → FilePath → Kind → Files → Files
add_kind name path foreign rest = rest
add_kind name path (compose w) rest = record {
  files = (name, path) ∷ rest.files;
  workloads = w || rest.workloads;
}

merge_rank : String → ℕ
unfolding base_names
merge_rank n =
    let name = to_lower n in
    if contains base_names name
    then 0
    else if has_suffix (trim_suffix name (ext_of name)) ".override"
    then 2
    else 1

before : String × FilePath → String × FilePath → Bool
unfolding merge_rank
before (a, p) (b, q) =
    if beq (merge_rank a) (merge_rank b)
    then is_le (compare (show_path p) (show_path q))
    else ltb (merge_rank a) (merge_rank b)

insert_file : String × FilePath → List (String × FilePath) → List (String × FilePath)
unfolding before
insert_file f [] = f ∷ []
insert_file f (g ∷ gs) = let rest = insert_file f gs in if before f g then f ∷ g ∷ gs else g ∷ rest

sort_by_merge_order : List (String × FilePath) → List (String × FilePath)
unfolding insert_file
sort_by_merge_order [] = []
sort_by_merge_order (f ∷ fs) = insert_file f (sort_by_merge_order fs)

add_checked : String → FilePath → Try Kind → Try Files → Try Files
unfolding add_kind
add_checked name path (err e) rest = err e
add_checked name path (ok k) (err e) = err e
add_checked name path (ok k) (ok rest) = ok (add_kind name path k rest)

compose_files_in : Fs → FilePath → List Entry → Try Files
unfolding is_compose_candidate check_compose_file add_checked
compose_files_in fs dir [] = ok (record { files = []; workloads = false })
compose_files_in fs dir (e ∷ es) =
    let path = join_path dir (record { absolute = false; parts = e.name ∷ [] }) in
    let rest = compose_files_in fs dir es in
    if not (is_compose_candidate e)
    then rest
    else add_checked e.name path (check_compose_file fs path) rest

file_paths : List (String × FilePath) → List FilePath
file_paths [] = []
file_paths ((n, p) ∷ fs) = p ∷ file_paths fs

-- The stack of a directory, if its files define a workload; files that define none are skipped
-- with a warning.
stack_of : String → FilePath → Files → List Stack
unfolding file_paths sort_by_merge_order
stack_of project_name dir r = elim r.files [
  | [] ↦ []
  | f ∷ fs ↦
      if r.workloads
      then record {
        project_name = project_name;
        dir = some dir;
        files = file_paths (sort_by_merge_order (f ∷ fs));
      }
        ∷ []
      else []
]

stack_found : String → FilePath → Try Files → Try (List Stack)
unfolding stack_of
stack_found project_name dir (err e) = err e
stack_found project_name dir (ok r) = ok (stack_of project_name dir r)

stack_in : Fs → String → FilePath → Try (List Entry) → Try (List Stack)
unfolding compose_files_in stack_found
stack_in fs project_name dir (err e) = err (wrap ("reading " <> show_path dir) e)
stack_in fs project_name dir (ok entries) =
    stack_found project_name dir (compose_files_in fs dir entries)

suffix_piece : ℕ → String → String
suffix_piece c s =
    if (leb b'a' c && leb c b'z') || ((leb b'0' c && leb c b'9') || (beq c b'_' || beq c b'-'))
    then s
    else "-"

suffix_from : String → String
unfolding suffix_piece
suffix_from String.[] = ""
suffix_from (String.◌∷◌ c s) = suffix_piece (code c) (String.◌∷◌ c "") <> suffix_from s

-- `to_lower` is on the letters of ASCII: the two signs outside them that `strings.ToLower` maps into them,
-- U+0130 and U+212A, become dashes here and i and k in the source.
unfoldable pub sanitize_project_suffix : String → String
unfolding suffix_from
sanitize_project_suffix name = suffix_from (to_lower name)

add_stacks : Try (List Stack) → Try (List Stack) → Try (List Stack)
add_stacks (err e) rest = err e
add_stacks (ok found) (err e) = err e
add_stacks (ok found) (ok more) = ok (found ++ more)

sub_name : String → String → String
sub_name base name = base <> ("-" <> sanitize_project_suffix name)

-- The stack of one entry, if it is a directory, before those of the others.
sub_stack : Fs → String → Option FilePath → Try (List Stack) → Try (List Stack)
unfolding stack_in add_stacks
sub_stack fs name none rest = rest
sub_stack fs name (some sub) rest = add_stacks (stack_in fs name sub (fs.read_dir sub)) rest

sub_stacks : Fs → FilePath → String → List Entry → Try (List Stack)
unfolding sub_stack sub_dir_of sub_name
sub_stacks fs dir base [] = ok []
sub_stacks fs dir base (e ∷ es) =
    sub_stack fs (sub_name base e.name) (sub_dir_of dir e) (sub_stacks fs dir base es)

unfoldable pub insert_stack : Stack → List Stack → List Stack
insert_stack s [] = s ∷ []
insert_stack s (t ∷ ts) =
    let rest = insert_stack s ts in
    if is_le (compare s.project_name t.project_name) then s ∷ t ∷ ts else t ∷ rest

unfoldable pub sort_stacks : List Stack → List Stack
unfolding insert_stack
sort_stacks [] = []
sort_stacks (s ∷ ss) = insert_stack s (sort_stacks ss)

dir_text : Option FilePath → String
dir_text none = ""
dir_text (some p) = show_path p

-- The first two neighbours with one name.
unfoldable pub clash : List Stack → Option Err
unfolding dir_text
clash [] = none
clash (s ∷ []) = none
clash (s ∷ t ∷ ts) =
    let rest = clash (t ∷ ts) in
    if t.project_name == s.project_name
    then some (
        plain (
          "directories "
          <> (dir_text s.dir
              <> (" and "
                  <> (dir_text t.dir
                      <> (" both map to compose project \""
                          <> (t.project_name <> "\": rename one so the names differ")))))))
    else rest

-- What a discovery finds. `no_stacks` is an error that wraps `ErrNoStacks`.
pub data Discovery : Type 0 where
  stacks : List Stack → Discovery
  no_stacks broken : Err → Discovery

unfoldable pub clash_or : List Stack → Option Err → Discovery
clash_or sorted none = stacks sorted
clash_or sorted (some e) = broken e

unfoldable pub finish : FilePath → List Stack → Discovery
unfolding clash_or
finish dir [] = no_stacks (
    plain
      ("no compose stacks found in " <> (show_path dir <> " (or its immediate subdirectories)")))
finish dir (s ∷ ss) = let sorted = sort_stacks (s ∷ ss) in clash_or sorted (clash sorted)

unfoldable pub finish_with : FilePath → List Stack → Try (List Stack) → Discovery
unfolding finish
finish_with dir root (err e) = broken e
finish_with dir root (ok subs) = finish dir (root ++ subs)

unfoldable pub find_below : Fs → FilePath → String → List Entry → Try (List Stack) → Discovery
unfolding finish_with sub_stacks
find_below fs dir base entries (err e) = broken e
find_below fs dir base entries (ok root) = finish_with dir root (sub_stacks fs dir base entries)

unfoldable pub find_stacks : Fs → FilePath → String → Try (List Entry) → Discovery
unfolding find_below stack_in
find_stacks fs dir base (err e) = broken (wrap ("reading compose_dir " <> show_path dir) e)
find_stacks fs dir base (ok entries) =
    find_below fs dir base entries (stack_in fs base dir (ok entries))

-- `discover`: the root stack has the base name, the stack of a directory below it the base name
-- with the directory's own. A directory that does not exist has an error text of its own in the
-- source; here it is one of the errors of the read.
unfoldable pub discover : Fs → FilePath → String → Discovery
unfolding find_stacks
discover fs dir base = find_stacks fs dir base (fs.read_dir dir)
