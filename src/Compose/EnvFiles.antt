-- ===== src/Compose/EnvFiles.antt =====
-- `CheckEnvFiles` of internal/compose/compose.go
use compose_lock.Prelude.{
  String, ◌<>◌, not, Option, none, some, List, [], ◌∷◌, sort, keys, lookup, if◌then◌else◌,
}
use compose_lock.Paths.{FilePath, parse, join_path, show_path}
use compose_lock.Errors.{Err, plain, wrap, first}
use compose_lock.Compose.{Service, EnvFile, Project, Stat, missing, stat_failed, is_file, is_dir}
pub mod Present

-- The path that is looked up: an absolute one as it stands.
pub env_path : String → EnvFile → FilePath
env_path working_dir ef =
    let p = parse ef.path in if p.absolute then p else join_path (parse working_dir) p

module _ (stat : FilePath → Stat) (working_dir : String) where
  -- `%q` of a service name is the name in quotes.
  referenced : String → EnvFile → String
  referenced service ef =
      show_path (env_path working_dir ef) <> (" (referenced by service \"" <> (service <> "\")"))

  unfoldable pub check_stat : String → EnvFile → Stat → Option Err
  unfolding referenced
  check_stat service ef missing = some (plain ("env_file not found: " <> referenced service ef))
  check_stat service ef (stat_failed e) =
      some (wrap ("checking env_file " <> referenced service ef) e)
  check_stat service ef is_file = none
  check_stat service ef is_dir = some (plain ("env_file is a directory: " <> referenced service ef))

  unfoldable pub check_files : String → List EnvFile → Option Err
  unfolding check_stat first
  check_files service [] = none
  check_files service (ef ∷ efs) =
      let rest = check_files service efs in
      if not ef.required
      then rest
      else first (check_stat service ef (stat (env_path working_dir ef))) rest

  unfoldable pub check_found : String → Option Service → Option Err
  unfolding check_files
  check_found name none = none
  check_found name (some svc) = check_files name svc.env_files

  unfoldable pub check_services : List (String × Service) → List String → Option Err
  unfolding check_found first
  check_services services [] = none
  check_services services (name ∷ names) =
      first (check_found name (lookup name services)) (check_services services names)

-- `none` where each required file is there.
unfoldable pub check_env_files : (FilePath → Stat) → Project → Option Err
unfolding check_services
check_env_files stat project =
    check_services stat project.working_dir project.services (sort (keys project.services))
