-- ===== src/Tests/Worlds.antt =====
-- A world for the tests: the branch has moved from aaaa1111 to bbbb2222, a compose file changed, and
-- every call answers well.
use compose_lock.Prelude.{String, true, false, none, some, [], ◌∷◌}
use compose_lock.Errors.{Try, ok}
use compose_lock.State.{State}
use compose_lock.Health.{Snapshot, ContainerStatus}
use compose_lock.Paths.{FilePath}
use compose_lock.Compose.Yaml.{eof}
use compose_lock.Compose.{Project, Service, is_file}
use compose_lock.Config.{Config}
use compose_lock.World.{
  Command, fetch, rev_parse_head, rev_parse_remote, diff, checkout, saved, Env, World,
}
use compose_lock.Reconcile.{Options}

unfoldable pub scripted_git : Command → Try String
scripted_git fetch = ok ""
scripted_git rev_parse_head = ok "aaaa1111"
scripted_git rev_parse_remote = ok "bbbb2222"
scripted_git (diff a b) = ok "compose.yml"
scripted_git (checkout c) = ok ""

abbrev pub web : ContainerStatus
web = record {
  service = "web";
  id = "1";
  state = "running";
  exit_code = 0;
  health = "healthy";
  restart_count = 0;
}

abbrev pub web_running : Snapshot
web_running = record { containers = web ∷ [] }

abbrev pub web_service : Service
web_service = record {
  env_files = [];
  extends_file = none;
  build = none;
  image = "nginx";
  has_provider = false;
  pull_policy = "";
}

abbrev pub web_project : Project
web_project = record {
  name = "app";
  working_dir = "/srv/app";
  compose_files = "compose.yml" ∷ [];
  services = ("web", web_service) ∷ [];
  config_files = [];
  secret_files = [];
}

abbrev srv_app : FilePath
srv_app = record { absolute = true; parts = "" ∷ "srv" ∷ "app" ∷ [] }

abbrev pub good_env : Env
good_env = record {
  run_git = λ h c. scripted_git c;
  load_state = λ h. none;
  save_state = λ h s. saved;
  now = λ h. 1000;
  minute_of_day = λ t. 600;
  cancelled = λ h. false;
  sleep = λ h. true;
  load_project = λ h files name. ok web_project;
  pull = λ h p. none;
  up = λ h p. none;
  down = λ h n. none;
  snapshot = λ h n. ok web_running;
  feed = λ h n. record {
    first = ok web_running;
    start = 0;
    polls = record { snapshot = ok web_running; now = 60000000000 } ∷ [];
  };
  fs = λ h. record {
    read_dir = λ p. ok [];
    read_yaml = λ p. ok eof;
    schema_error = λ f. none;
    stat = λ p. is_file;
  };
  cwd = some srv_app;
  try_lock = λ h. ok true;
  unlock = λ h. none;
}

abbrev pub conf : Config
conf = record {
  repo_path = srv_app;
  remote = "origin";
  branch = "main";
  compose_file = "compose.yml";
  compose_dir = "";
  project_name = "app";
  state_file = "/var/lib/composelock/state.json";
  retry_attempts = 3;
  deploy_window = "";
  health_watch_seconds = 60;
  health_poll_interval_seconds = 5;
  health_unhealthy_streak = 3;
  health_restart_tolerance = 0;
}

abbrev pub plain_run : Options
plain_run = record { dry_run = false; force = false }

abbrev pub dry : Options
dry = record { dry_run = true; force = false }

-- A world in which `s` is on disk.
abbrev pub with_state : State → World
with_state s = record { disk = s; st = s; tree = "aaaa1111"; history = [] }
