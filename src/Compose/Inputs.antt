-- ===== src/Compose/Inputs.antt =====
-- `ProjectInputs` of internal/compose/inputs.go: the files that a project depends on, and whether
-- all of them are known.
use compose_lock.Prelude.{
  ℕ, zero, suc, String, Bool, true, false, ◌&&◌, ◌||◌, Option, none, some, List, [], ◌∷◌, ◌++◌,
  ◌==◌, map, sort, keys, lookup, if◌then◌else◌,
}
use text.Mathlib.Text.{starts_with}
use compose_lock.Paths.{FilePath, parse, clean, join_path, dir_of, contains_path, show_path}
use compose_lock.Errors.{Try, ok}
use compose_lock.Compose.{Service, Build, Project}
use compose_lock.Compose.Yaml.{
  Yaml, null, str, sequence, mapping, Items, nil, cons, Fields, end, field, Documents, at_key,
  yaml_mappings,
}

abbrev pub max_include_depth : ℕ
max_include_depth = 16

-- strings.Contains
has_substring : String → String → Bool
has_substring String.[] t = t == ""
has_substring (String.◌∷◌ c s) t = starts_with (String.◌∷◌ c s) t || has_substring s t

unfoldable pub is_remote_ref : String → Bool
unfolding has_substring
is_remote_ref p = has_substring p "://" || starts_with p "git@"

-- A base directory; `none` is the empty text.
unfoldable pub resolve_input : Option FilePath → String → Option FilePath
unfolding has_substring
resolve_input base p =
    let path = parse p in
    if p == "" || (has_substring p "$" || is_remote_ref p)
    then none
    else if path.absolute
    then some (clean path)
    else elim base [ none ↦ none | some dir ↦ some (join_path dir path) ]

-- What has been found so far: the paths and whether they are all.
pub record Found : Type 0 where
  pub paths : List FilePath
  pub complete : Bool

add : Option FilePath → String → Found → Found
add base p w = if p == "" || is_remote_ref p then w else elim (resolve_input base p) [
  | none ↦ record w { complete = false }
  | some abs ↦ record w { paths = w.paths ++ abs ∷ [] }
]

add_all : Option FilePath → List String → Found → Found
unfolding add
add_all base [] w = w
add_all base (p ∷ ps) w = add_all base ps (add base p w)

dir_path : String → Option FilePath
dir_path dir = if dir == "" then none else some (parse dir)

build_context_dir : String → String → Option FilePath
unfolding dir_path
build_context_dir working_dir context =
    if context == "" then dir_path working_dir else resolve_input (dir_path working_dir) context

add_dockerfile : String → Build → Found → Found
unfolding add build_context_dir
add_dockerfile dir b w =
    if is_remote_ref b.context then w else elim (build_context_dir dir b.context) [
      | some ctx ↦ add (some ctx) b.dockerfile w
      | none ↦ if b.dockerfile == "" then w else record w { complete = false }
    ]

add_build : String → Option Build → Found → Found
unfolding add_dockerfile add_all dir_path
add_build dir none w = w
add_build dir (some b) w =
    add_all (dir_path dir) b.additional_contexts
      (add_dockerfile dir b (add (dir_path dir) b.context w))

add_service : String → Service → Found → Found
unfolding add_build add_all add dir_path
add_service dir svc w = add_build dir svc.build (elim svc.extends_file [
  | none ↦ add_all (dir_path dir) (map (λ ef. ef.path) svc.env_files) w
  | some f ↦ add (dir_path dir) f (add_all (dir_path dir) (map (λ ef. ef.path) svc.env_files) w)
])

add_services : String → List (String × Service) → List String → Found → Found
unfolding add_service
add_services dir services [] w = w
add_services dir services (name ∷ names) w =
    add_services dir services names
      (elim (lookup name services) [ none ↦ w | some svc ↦ add_service dir svc w ])

-- The implicit `.env` is inferred: where it does not resolve, nothing is missing.
declared_paths : Project → Found
unfolding add_services add_all dir_path
declared_paths project =
    let dir = dir_path project.working_dir in
    let start : List FilePath = elim (resolve_input dir ".env") [
      | none ↦ []
      | some abs ↦ abs ∷ []
    ] in
    add_all dir project.secret_files (
      add_all dir project.config_files (
        add_services project.working_dir project.services (sort (keys project.services))
          (record { paths = start; complete = true })))

-- The texts of a YAML value that may be one text or a sequence of them.
items_texts : Items → Option (List String)
items_texts nil = some []
items_texts (cons (str s) rest) = elim (items_texts rest) [ none ↦ none | some ts ↦ some (s ∷ ts) ]
items_texts (cons _ rest) = none

string_list : Yaml → Option (List String)
unfolding items_texts
string_list null = some []
string_list (str s) = some (s ∷ [])
string_list (sequence items) = items_texts items
string_list _ = none

optional_string : Yaml → Option String
optional_string null = some ""
optional_string (str s) = some s
optional_string _ = none

-- `inputWalker`
pub record Walker : Type 0 where
  pub found : List FilePath
  pub seen : List FilePath
  pub all_known : Bool

abbrev gap : Walker → Walker
gap w = record w { all_known = false }

abbrev note : FilePath → Walker → Walker
note p w = record w { found = w.found ++ p ∷ [] }

-- A visit of a file one level deeper: the reference, the directory that it is relative to, and the
-- directory that the contents of the file are relative to.
abbrev Visit : Type 0
Visit = String → Option FilePath → Option FilePath → Walker → Walker

walk_env_files : Option FilePath → List String → Walker → Walker
walk_env_files base [] w = w
walk_env_files base (f ∷ fs) w =
    walk_env_files base fs (elim (resolve_input base f) [ none ↦ gap w | some abs ↦ note abs w ])

-- The `.env` beside an included project that names no env file.
walk_implicit_env : List String → Option FilePath → Walker → Walker
walk_implicit_env [] (some dir) w = elim (resolve_input (some dir) ".env") [
  | none ↦ w
  | some abs ↦ note abs w
]
walk_implicit_env _ _ w = w

visit_all : Visit → List String → Option FilePath → Option FilePath → Walker → Walker
visit_all visit [] base dir w = w
visit_all visit (p ∷ ps) base dir w = visit_all visit ps base dir (visit p base dir w)

-- The rest of `walkInclude`, once the directory of the included project is known.
include_in : Visit → List String → List String → Option FilePath → Option FilePath → Walker → Walker
unfolding walk_env_files walk_implicit_env visit_all
include_in visit paths env_files base dir w =
    visit_all visit paths base dir
      (walk_implicit_env env_files dir (walk_env_files base env_files w))

walk_include : Visit → List String → String → List String → Option FilePath → Walker → Walker
unfolding include_in
walk_include visit [] project_dir env_files base w = gap w
walk_include visit (p ∷ ps) project_dir env_files base w =
    if project_dir == ""
    then include_in visit (p ∷ ps) env_files base
        (elim (resolve_input base p) [ none ↦ none | some abs ↦ some (dir_of abs) ]) w
    else elim (resolve_input base project_dir) [
      | none ↦ gap w
      | some abs ↦ include_in visit (p ∷ ps) env_files base (some abs) w
    ]

walk_mapping :
    Visit
    → Option FilePath
    → Option (List String)
    → Option String
    → Option (List String)
    → Walker
    → Walker
unfolding walk_include
walk_mapping visit base (some paths) (some project_dir) (some env_files) w =
    walk_include visit paths project_dir env_files base w
walk_mapping visit base _ _ _ w = gap w

walk_entry : Visit → Option FilePath → Yaml → Walker → Walker
unfolding walk_include walk_mapping string_list optional_string
walk_entry visit base (str s) w = walk_include visit (s ∷ []) "" [] base w
walk_entry visit base (mapping m) w =
    walk_mapping visit base (string_list (at_key "path" m))
      (optional_string (at_key "project_directory" m)) (string_list (at_key "env_file" m)) w
walk_entry visit base _ w = gap w

walk_entries : Visit → Option FilePath → Items → Walker → Walker
unfolding walk_entry
walk_entries visit base nil w = w
walk_entries visit base (cons e rest) w = walk_entries visit base rest (walk_entry visit base e w)

walk_includes : Visit → Yaml → Option FilePath → Walker → Walker
unfolding walk_entries
walk_includes visit null base w = w
walk_includes visit (sequence items) base w = walk_entries visit base items w
walk_includes visit _ base w = gap w

-- A service that names a file to extend.
extend_file : Visit → Option FilePath → Option String → Walker → Walker
extend_file visit base none w = gap w
extend_file visit base (some file) w = if file == "" then w else elim (resolve_input base file) [
  | some abs ↦ visit (show_path abs) base (some (dir_of abs)) w
  | none ↦ gap w
]

extends_of : Visit → Option FilePath → Yaml → Walker → Walker
unfolding extend_file optional_string
extends_of visit base (mapping m) w = extend_file visit base (optional_string (at_key "file" m)) w
extends_of visit base _ w = w

extend_service : Visit → Option FilePath → Yaml → Walker → Walker
unfolding extends_of
extend_service visit base (mapping m) w = extends_of visit base (at_key "extends" m) w
extend_service visit base _ w = w

field_names : Fields → List String
field_names end = []
field_names (field k v m) = k ∷ field_names m

extend_services : Visit → Option FilePath → Fields → List String → Walker → Walker
unfolding extend_service
extend_services visit base services [] w = w
extend_services visit base services (name ∷ names) w =
    extend_services visit base services names (extend_service visit base (at_key name services) w)

walk_extends : Visit → Yaml → Option FilePath → Walker → Walker
unfolding extend_services field_names
walk_extends visit null base w = w
walk_extends visit (mapping services) base w =
    extend_services visit base services (sort (field_names services)) w
walk_extends visit _ base w = gap w

walk_documents : Visit → Try (List Fields) → Option FilePath → Walker → Walker
unfolding walk_includes walk_extends
walk_documents visit (ok (d ∷ ds)) dir w =
    walk_extends visit (at_key "services" d) dir (walk_includes visit (at_key "include" d) dir w)
walk_documents visit _ dir w = gap w

-- The part of `visit` that reads a file which has not been seen before; `none` is a file that
-- cannot be read.
open_file : Visit → Option Documents → Option FilePath → Walker → Walker
unfolding walk_documents
open_file visit none dir w = gap w
open_file visit (some docs) dir w = walk_documents visit (yaml_mappings docs) dir w

-- What `visit` does with a reference that resolves to a file: `deeper` reads the contents, unless
-- the file has been seen.
visit_file : (Walker → Walker) → FilePath → Walker → Walker
visit_file deeper abs w =
    if contains_path w.seen abs then w else deeper (note abs (record w { seen = abs ∷ w.seen }))

-- `ok` of `resolveInput` is the Option; a remote reference is passed over.
visit_ref : (FilePath → Walker → Walker) → String → Option FilePath → Walker → Walker
visit_ref file ref base w =
    if is_remote_ref ref
    then w
    else elim (resolve_input base ref) [ none ↦ gap w | some abs ↦ file abs w ]

module _ (read : FilePath → Option Documents) where
  -- The first argument is what is left of `maxIncludeDepth`.
  unfoldable pub visit : ℕ → Visit
  unfolding open_file visit_file visit_ref
  visit zero ref base dir w = visit_ref (visit_file gap) ref base w
  visit (suc levels) ref base dir w =
      visit_ref (λ abs. visit_file (open_file (visit levels) (read abs) dir) abs) ref base w

  visit_files : Option FilePath → List String → Walker → Walker
  unfolding visit
  visit_files dir [] w = w
  visit_files dir (f ∷ fs) w = visit_files dir fs (visit max_include_depth f dir dir w)

  -- The paths stand in the order in which they are found; the source sorts them and drops repeats,
  -- which no user of the set can tell.
  unfoldable pub project_inputs : Project → Found
  unfolding visit_files declared_paths
  project_inputs project =
      let w =
        visit_files (dir_path project.working_dir) project.compose_files
          (record { found = []; seen = []; all_known = true }) in
      let declared = declared_paths project in
      record { paths = w.found ++ declared.paths; complete = w.all_known && declared.complete }
