-- ===== src/Compose/Yaml.antt =====
-- What the YAML decoder hands to internal/compose, and `yamlMappings` of discover.go.
use compose_lock.Prelude.{
  String, ◌<>◌, Bool, true, false, List, [], ◌∷◌, ◌++◌, ◌==◌, length, show, ◌+◌, if◌then◌else◌,
}
use compose_lock.Errors.{Err, plain, Try, ok, err}

-- `any` as the decoder fills it; `scalar` is a number, a Boolean or a time.
mutual
  pub data Yaml : Type 0 where
    null : Yaml
    scalar : Yaml
    str : String → Yaml
    sequence : Items → Yaml
    mapping : Fields → Yaml

  pub data Items : Type 0 where
    nil : Items
    cons : Yaml → Items → Items

  pub data Fields : Type 0 where
    end : Fields
    field : String → Yaml → Fields → Fields

-- The documents that `Decode` returns one after another, up to the end of the file or an error.
pub data Documents : Type 0 where
  eof : Documents
  broken : Err → Documents
  document : Yaml → Documents → Documents

-- `m[key]`, which is nil where the key is missing.
unfoldable pub at_key : String → Fields → Yaml
at_key k end = null
at_key k (field j v m) = if j == k then v else at_key k m

unfoldable pub has_key : String → Fields → Bool
has_key k end = false
has_key k (field j v m) = if j == k then true else has_key k m

not_a_mapping : List Fields → Try (List Fields)
not_a_mapping [] = ok []
not_a_mapping (d ∷ ds) =
    err (plain ("document " <> (show (length (d ∷ ds) + 1) <> " is not a mapping")))

mappings_from : List Fields → Documents → Try (List Fields)
unfolding not_a_mapping
mappings_from docs eof = ok docs
mappings_from docs (broken e) = err e
mappings_from docs (document null rest) = mappings_from docs rest
mappings_from docs (document (mapping m) rest) = mappings_from (docs ++ m ∷ []) rest
mappings_from docs (document (str s) rest) = not_a_mapping docs
mappings_from docs (document scalar rest) = not_a_mapping docs
mappings_from docs (document (sequence s) rest) = not_a_mapping docs

-- Empty documents are passed over. A first document that is no mapping makes the whole file none of
-- the program's business; a later one is an error.
unfoldable pub yaml_mappings : Documents → Try (List Fields)
unfolding mappings_from
yaml_mappings docs = mappings_from [] docs
