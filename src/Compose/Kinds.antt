-- ===== src/Compose/Kinds.antt =====
-- What the entries of a compose directory are, of internal/compose/discover.go: compose files with or
-- without workloads, other files, and directories.
use text.Mathlib.Text.{starts_with}
use compose_lock.Prelude.{
  String, ◌<>◌, Bool, true, false, not, ◌&&◌, ◌||◌, Option, none, some, List, [], ◌∷◌, ltb, ◌==◌,
  contains, length, if◌then◌else◌,
}
use compose_lock.Strings.{to_lower, ext_of}
use compose_lock.Paths.{FilePath, join_path, show_path}
use compose_lock.Errors.{plain, wrap, Try, ok, err}
use compose_lock.Compose.{Entry, Fs}
use compose_lock.Compose.Yaml.{
  Documents, Yaml, mapping, sequence, cons, Fields, end, field, at_key, has_key, yaml_mappings,
}

unfoldable pub is_compose_file : String → Bool
is_compose_file name = let e = to_lower (ext_of name) in e == ".yaml" || e == ".yml"

compose_keys : List String
compose_keys =
    "configs" ∷ "include" ∷ "models" ∷ "name" ∷ "networks" ∷ "secrets" ∷ "services" ∷ "version"
    ∷ "volumes" ∷ []

is_hidden : String → Bool
is_hidden name = starts_with name "."

unfoldable pub is_compose_candidate : Entry → Bool
unfolding is_hidden
is_compose_candidate e =
    if is_hidden e.name || not (is_compose_file e.name)
    then false
    else elim e.is_directory [ none ↦ false | some d ↦ not d ]

unfoldable pub sub_dir_of : FilePath → Entry → Option FilePath
unfolding is_hidden
sub_dir_of parent e =
    let path = join_path parent (record { absolute = false; parts = e.name ∷ [] }) in
    if is_hidden e.name then none else elim e.is_directory [ some true ↦ some path | _ ↦ none ]

only_compose_keys : Fields → Bool
unfolding compose_keys
only_compose_keys end = true
only_compose_keys (field k v m) =
    (contains compose_keys k || starts_with k "x-") && only_compose_keys m

looks_like_compose : Fields → Bool
unfolding only_compose_keys
looks_like_compose end = false
looks_like_compose (field k v m) =
    has_key "services" (field k v m)
    || (has_key "include" (field k v m) || only_compose_keys (field k v m))

has_items : Yaml → Bool
has_items (sequence (cons x xs)) = true
has_items _ = false

has_fields : Yaml → Bool
has_fields (mapping (field k v m)) = true
has_fields _ = false

-- A key that holds nothing declares no workload.
defines_workloads : Fields → Bool
unfolding has_items has_fields
defines_workloads model = has_fields (at_key "services" model) || has_items (at_key "include" model)

-- What one file is: no compose file, or one with or without workloads.
pub data Kind : Type 0 where
  foreign : Kind
  compose : Bool → Kind

unfoldable pub kind_of : Fs → FilePath → Try (List Fields) → Try Kind
unfolding looks_like_compose defines_workloads
kind_of fs path (err e) = err (wrap ("parsing " <> show_path path) e)
kind_of fs path (ok []) = ok foreign
kind_of fs path (ok (d ∷ ds)) =
    if not (looks_like_compose d)
    then ok foreign
    else if ltb 1 (length (d ∷ ds))
    then err (
        plain (
          "multi-document compose file "
          <> (show_path path <> ": only the first document would be applied")))
    else elim (fs.schema_error d) [
      | some e ↦ err (wrap ("invalid compose file " <> show_path path) e)
      | none ↦ ok (compose (defines_workloads d))
    ]

unfoldable pub kind_read : Fs → FilePath → Try Documents → Try Kind
unfolding kind_of
kind_read fs path (err e) = err (wrap ("reading " <> show_path path) e)
kind_read fs path (ok docs) = kind_of fs path (yaml_mappings docs)

unfoldable pub check_compose_file : Fs → FilePath → Try Kind
unfolding kind_read
check_compose_file fs path = kind_read fs path (fs.read_yaml path)
