-- ===== src/Tests/Projects.antt =====
-- The theorems on the env files of a project, at a concrete one.
use compose_lock.Prelude.{◌≡◌, refl, String, true, false, none, some, [], ◌∷◌, sort, keys, lookup}
use compose_lock.Paths.{FilePath}
use compose_lock.Compose.{Service, Project, Stat, is_file}
use compose_lock.Errors.{ext, deadline_exceeded, ok}
use compose_lock.Compose.Calls.{Sdk, Deadline, up, pull, images_to_pull, chosen, pulls}
use compose_lock.Compose.Calls.Blame.{IsBlamed, up-IsBlamed, pull-IsBlamed}
use compose_lock.Compose.EnvFiles.{check_env_files}
use compose_lock.Compose.EnvFiles.Present.{all_present, all_present-check_env_files}

abbrev with_env : Service
with_env = record {
  env_files = record { path = "web.env"; required = true } ∷ [];
  extends_file = none;
  build = none;
  image = "nginx";
  has_provider = false;
  pull_policy = "";
}

abbrev site : Project
site = record {
  name = "site";
  working_dir = "/srv/app";
  compose_files = [];
  services = ("web", with_env) ∷ [];
  config_files = [];
  secret_files = [];
}

abbrev all_there : FilePath → Stat
all_there p = is_file

all_present-check_env_files_example :
    all_present all_there site.working_dir with_env.env_files ≡ true
unfolding check_env_files sort keys lookup
all_present-check_env_files_example =
    all_present-check_env_files all_there site "web" with_env refl refl

-- An SDK whose calls take too long, on a host that has no image yet.
abbrev slow : Sdk String
slow = record {
  load_project = λ files name. ok site;
  pull_policy = λ s. ok "always";
  inspect = λ image. none;
  is_not_found = λ e. false;
  is_invalid_argument = λ e. false;
  is_unauthorized = λ e. false;
  is_permission_denied = λ e. false;
  up = λ p. some (ext deadline_exceeded "context deadline exceeded");
  pull = λ p. some (ext deadline_exceeded "context deadline exceeded");
  down = λ name. none;
  ps = λ name. ok [];
  quote = λ s. s;
}

abbrev half_an_hour : Deadline
half_an_hour = record { caller_done = false; exceeded = true; budget = "30m0s" }

up-IsBlamed_example : IsBlamed false (up slow half_an_hour site)
up-IsBlamed_example =
    up-IsBlamed slow half_an_hour site (ext deadline_exceeded "context deadline exceeded") refl

pull-IsBlamed_example : IsBlamed true (pull slow half_an_hour site)
unfolding images_to_pull chosen pulls
pull-IsBlamed_example =
    pull-IsBlamed slow half_an_hour site ("web", with_env) []
      (ext deadline_exceeded "context deadline exceeded") refl refl
