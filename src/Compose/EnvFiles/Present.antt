-- ===== src/Compose/EnvFiles/Present.antt =====
-- What the check of the env files promises about the files of the services.
use compose_lock.Prelude.{
  ◌≡◌, refl, arith, String, Bool, true, false, not, ◌&&◌, ◌||◌, Option, none, some, List, [], ◌∷◌,
  eq_iff, contains, contains-sort, sort, keys, lookup,
}
use compose_lock.Paths.{FilePath}
use compose_lock.Errors.{Err, first}
use compose_lock.Compose.{Service, EnvFile, Project, Stat, missing, stat_failed, is_file, is_dir}
use compose_lock.Compose.EnvFiles.{
  env_path, check_stat, check_files, check_found, check_services, check_env_files,
}

is_none : Option Err → Bool
is_none none = true
is_none (some e) = false

is_none-first : (a b : Option Err) → is_none (first a b) ≡ (is_none a && is_none b)
unfolding first is_none
is_none-first none b = ground arith
is_none-first (some e) b = ground arith

none_of : (a : Option Err) → is_none a ≡ true → a ≡ none
unfolding is_none
none_of none e = refl
none_of (some x) e = ground (arith, e)

exists : Stat → Bool
exists is_file = true
exists _ = false

module _ (stat : FilePath → Stat) (dir : String) where
  -- An env file that may be missing, or that is there and is no directory.
  unfoldable pub present : EnvFile → Bool
  unfolding exists
  present ef = not ef.required || exists (stat (env_path dir ef))

  unfoldable pub all_present : List EnvFile → Bool
  unfolding present
  all_present [] = true
  all_present (ef ∷ efs) = present ef && all_present efs

  is_none-check_stat :
      (service : String) (ef : EnvFile) (s : Stat)
      → is_none (check_stat stat dir service ef s) ≡ exists s
  unfolding check_stat is_none exists
  is_none-check_stat service ef missing = refl
  is_none-check_stat service ef (stat_failed e) = refl
  is_none-check_stat service ef is_file = refl
  is_none-check_stat service ef is_dir = refl

  is_none-check_files :
      (service : String) (efs : List EnvFile)
      → is_none (check_files stat dir service efs) ≡ all_present efs
  unfolding check_files all_present present is_none
  is_none-check_files service [] = refl
  is_none-check_files service (ef ∷ efs) = ground (
    arith,
    is_none-check_files service efs,
    is_none-check_stat service ef (stat (env_path dir ef)),
    is_none-first (check_stat stat dir service ef (stat (env_path dir ef)))
        (check_files stat dir service efs),
  )

  present_at : Option Service → Bool
  present_at none = true
  present_at (some svc) = all_present svc.env_files

  is_none-check_found :
      (name : String) (found : Option Service)
      → is_none (check_found stat dir name found) ≡ present_at found
  unfolding check_found present_at is_none
  is_none-check_found name none = refl
  is_none-check_found name (some svc) = is_none-check_files name svc.env_files

  is_none-check_services :
      (services : List (String × Service)) (n : String) (names : List String)
      → is_none (check_services stat dir services (n ∷ names))
        ≡ (present_at (lookup n services) && is_none (check_services stat dir services names))
  unfolding check_services
  is_none-check_services services n names = ground (
    arith,
    is_none-check_found n (lookup n services),
    is_none-first (check_found stat dir n (lookup n services))
        (check_services stat dir services names),
  )

  check_services-present :
      (services : List (String × Service)) (names : List String) (n : String)
      → is_none (check_services stat dir services names) ≡ true
      → contains names n ≡ true
      → present_at (lookup n services) ≡ true
  unfolding contains
  check_services-present services [] n fine found = ground (arith, found)
  check_services-present services (m ∷ names) n fine found = ground (
    arith,
    found,
    fine,
    eq_iff m n,
    is_none-check_services services m names,
    check_services-present services names n,
  )

  present-check_services :
      (services : List (String × Service)) (names : List String)
      → ((n : String) → present_at (lookup n services) ≡ true)
      → is_none (check_services stat dir services names) ≡ true
  unfolding check_services is_none
  present-check_services services [] all = refl
  present-check_services services (m ∷ names) all = ground (
    arith,
    all m,
    is_none-check_services services m names,
    present-check_services services names all,
  )

contains-keys :
    (services : List (String × Service)) (n : String) (svc : Service)
    → lookup n services ≡ some svc
    → contains (keys services) n ≡ true
unfolding lookup keys contains
contains-keys [] n svc found = ground (arith, found)
contains-keys ((m, s) ∷ rest) n svc found = ground (arith, found, contains-keys rest n svc)

-- A project that passes the check has every env file that one of its services requires, as a file.
pub all_present-check_env_files :
    (stat : FilePath → Stat) (project : Project) (name : String) (svc : Service)
    → check_env_files stat project ≡ none
    → lookup name project.services ≡ some svc
    → all_present stat project.working_dir svc.env_files ≡ true
unfolding check_env_files present_at is_none
all_present-check_env_files stat project name svc fine found = ground (
  arith,
  found,
  fine,
  contains-keys project.services name svc found,
  contains-sort (keys project.services) name,
  check_services-present stat project.working_dir project.services (sort (keys project.services))
      name,
)

present_as :
    (stat : FilePath → Stat) (dir : String) (found : Option Service)
    → ((svc : Service) → found ≡ some svc → all_present stat dir svc.env_files ≡ true)
    → present_at stat dir found ≡ true
unfolding present_at
present_as stat dir none all = refl
present_as stat dir (some svc) all = all svc refl

-- A project whose services have all the env files that they require, as files, passes the check.
check_env_files-all_present :
    (stat : FilePath → Stat) (project : Project)
    → ((name : String) (svc : Service)
        → lookup name project.services ≡ some svc
        → all_present stat project.working_dir svc.env_files ≡ true)
    → check_env_files stat project ≡ none
unfolding check_env_files
check_env_files-all_present stat project all = none_of _ (
    present-check_services stat project.working_dir project.services (sort (keys project.services))
      (λ n. present_as stat project.working_dir (lookup n project.services) (all n)))
