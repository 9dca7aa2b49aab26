-- ===== src/Compose.antt =====
-- internal/compose: the stacks of a repository, and what a compose project is to the rest of the
-- program. A project comes from the Compose SDK; only the fields that the program reads are here.
pub mod EnvFiles
pub mod Calls
pub mod Yaml
pub mod Inputs
pub mod Kinds
pub mod Discover
use Yaml.{Documents, Fields}
use compose_lock.Prelude.{String, Bool, Option, List}
use compose_lock.Paths.{FilePath}
use compose_lock.Errors.{Err, Try}

-- `Stack` of discover.go; a stack with no directory has the empty `Dir`.
pub record Stack : Type 0 where
  pub project_name : String
  pub dir : Option FilePath
  pub files : List FilePath

pub record EnvFile : Type 0 where
  pub path : String
  pub required : Bool

pub record Build : Type 0 where
  pub context : String
  pub dockerfile : String
  pub additional_contexts : List String

-- `has_provider` is `Provider != nil`.
pub record Service : Type 0 where
  pub env_files : List EnvFile
  pub extends_file : Option String
  pub build : Option Build
  pub image : String
  pub has_provider : Bool
  pub pull_policy : String

-- `types.Project` of the SDK: its services by name, and the files of its configs and secrets.
pub record Project : Type 0 where
  pub name : String
  pub working_dir : String
  pub compose_files : List String
  pub services : List (String × Service)
  pub config_files : List String
  pub secret_files : List String

-- What `os.Stat` answers.
pub data Stat : Type 0 where
  missing : Stat
  stat_failed : Err → Stat
  is_file is_dir : Stat

-- One entry of a directory, in the order of `os.ReadDir`. `is_directory` is what `entryIsDir` finds
-- of it: a symbolic link counts as what it points to, and where that is nothing there is no answer.
pub record Entry : Type 0 where
  pub name : String
  pub is_directory : Option Bool

-- The file system at one moment: directories, YAML files as the decoder reads them, the schema of
-- compose files as the SDK knows it, and `os.Stat`.
pub record Fs : Type 0 where
  pub read_dir : FilePath → Try (List Entry)
  pub read_yaml : FilePath → Try Documents
  pub schema_error : Fields → Option Err
  pub stat : FilePath → Stat
