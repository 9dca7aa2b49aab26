-- ===== src/Config/Settings/Loading.antt =====
-- `Load` and `Init` of internal/config/config.go. JSON is encoding/json's: `decode` reads a text over
-- the fields that are set already, `is_object` is whether it is an object at all.
pub mod Same
use compose_lock.Prelude.{
  ℕ, String, ◌<>◌, Bool, true, false, not, ◌&&◌, Option, none, some, ◌==◌, if◌then◌else◌,
}
use compose_lock.Prelude.Int.{ℤ, pos, ltz, same_int, show_int}
use compose_lock.Errors.{Err, plain, wrap, Try, ok, err}
use compose_lock.Config.Settings.{
  Settings, Overrides, default, load_defaults, overridden, override_error,
}
use compose_lock.Config.Settings.Valid.{Library, validate}

-- The JSON library, `canonicalPath`, `absPath`, the texts of durations, and `os.WriteFile`, of a path
-- and a text.
pub record Codec : Type 0 where
  pub is_object : String → Option Err
  pub decode : String → Settings → Try Settings
  pub encode : Settings → Try String
  pub canonical_path : String → String
  pub abs_path : String → String
  pub show_duration : ℤ → String
  pub write_file : String → String → Option Err

-- What `os.Stat` answers for the file that `Init` would write.
pub data Existing : Type 0 where
  present absent : Existing
  unknown : Err → Existing

-- A schema of 0 is one that is missing.
unfoldable pub with_schema : Settings → Settings
with_schema c = if same_int c.schema (pos 0) then record c { schema = pos 1 } else c

module _ (lib : Library) (codec : Codec) where
  unfoldable pub located : Settings → Settings
  located c = record c {
    state_file = codec.canonical_path c.state_file;
    repo_path = if c.repo_path == "" then "" else codec.abs_path c.repo_path;
  }

  accept : Settings → Option Err → Try Settings
  accept c none = ok c
  accept c (some e) = err e

  validated : Settings → Try Settings
  unfolding accept
  validated c = accept c (validate lib c)

  -- `c.Apply(overrides)` and what follows it.
  applied : Settings → Overrides → Option Err → Try Settings
  unfolding validated located
  applied c o (some e) = err e
  applied c o none = validated (located (overridden c o))

  checked_schema : String → Settings → Overrides → Try Settings
  unfolding applied
  checked_schema path c o =
      if ltz (pos 1) c.schema
      then err (
          plain (
            "config file "
            <> (path
                <> (" has schema_version "
                    <> (show_int c.schema <> ", this build understands 1: upgrade composelock")))))
      else applied c o (override_error codec.show_duration o)

  decoded : String → Overrides → Try Settings → Try Settings
  unfolding checked_schema with_schema
  decoded path o (err e) = err (wrap ("parsing config file " <> path) e)
  decoded path o (ok c) = checked_schema path (with_schema c) o

  object : String → String → Overrides → Option Err → Try Settings
  unfolding decoded
  object path text o (some e) = err (wrap ("parsing config file " <> path) e)
  object path text o none = decoded path o (codec.decode text load_defaults)

  -- `Load`, of what `os.ReadFile` answers.
  unfoldable pub load : String → Overrides → Try String → Try Settings
  unfolding object
  load path o (err e) = err (wrap ("reading config file " <> path) e)
  load path o (ok text) = object path text o (codec.is_object text)

  written : String → String → Settings → Option Err → Try (String × Settings)
  written path text c none = ok (text, c)
  written path text c (some e) = err (wrap ("writing config file " <> path) e)

  marshaled : String → Settings → Try String → Try (String × Settings)
  unfolding written
  marshaled path c (err e) = err (wrap "marshaling default config" e)
  marshaled path c (ok json) =
      let text = json <> "\n" in written path text c (codec.write_file path text)

  initial : String → Overrides → Option Err → Try (String × Settings)
  unfolding marshaled
  initial path o (some e) = err e
  initial path o none = let c = overridden default o in marshaled path c (codec.encode c)

  refused : String → Existing → Option Err
  refused path present =
      some (plain ("config file " <> (path <> " already exists (use --force to overwrite)")))
  refused path absent = none
  refused path (unknown e) = some (wrap ("checking config file " <> path) e)

  begun : String → Overrides → Option Err → Try (String × Settings)
  unfolding initial
  begun path o (some e) = err e
  begun path o none = initial path o (override_error codec.show_duration o)

  -- `Init`: the text that is written, and the configuration.
  unfoldable pub init : String → Bool → Overrides → Existing → Try (String × Settings)
  unfolding begun refused
  init path force o existing = begun path o (if force then none else refused path existing)
