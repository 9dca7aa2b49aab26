-- ===== src/Config/Settings.antt =====
-- The whole configuration: the fields, the defaults and the overrides from the command line of
-- internal/config/config.go and internal/config/overrides.go. Where a number may be negative it is an
-- integer; durations of the overrides are nanoseconds.
pub mod Names
pub mod Valid
pub mod Usable
pub mod Loading
use compose_lock.Prelude.{
  ℕ, String, ◌<>◌, Bool, true, false, not, Option, none, some, List, [], ◌∷◌, if◌then◌else◌,
}
use compose_lock.Prelude.Int.{ℤ, pos, divides, quotient}
use compose_lock.Errors.{Err, plain, join_errors}

pub record NotifyWebhookConfig : Type 0 where
  pub url : String
  pub headers : List (String × String)

pub record WebhookConfig : Type 0 where
  pub listen : String
  pub path : String
  pub secret : String

-- `Config`
pub record Settings : Type 0 where
  pub schema : ℤ
  pub repo_path : String
  pub remote : String
  pub branch : String
  pub compose_file : String
  pub compose_dir : String
  pub project_name : String
  pub ssh_key : String
  pub state_file : String
  pub retry_attempts : ℤ
  pub retry_delay_seconds : ℤ
  pub docker_timeout_seconds : ℤ
  pub docker_up_timeout_seconds : ℤ
  pub poll_interval_seconds : ℤ
  pub monitor_interval_seconds : ℤ
  pub deploy_window : String
  pub health_watch_seconds : ℤ
  pub health_poll_interval_seconds : ℤ
  pub health_unhealthy_streak : ℤ
  pub health_restart_tolerance : ℤ
  pub discord_webhook : String
  pub repo_url : String
  pub heartbeat_url : String
  pub log_format : String
  pub log_level : String
  pub pprof_listen : String
  pub webhook : WebhookConfig
  pub notify_webhook : NotifyWebhookConfig

unfoldable pub default : Settings
default = record {
  schema = pos 1;
  repo_path = ".";
  remote = "origin";
  branch = "main";
  compose_file = "./docker-compose.yml";
  compose_dir = "";
  project_name = "my-stack";
  ssh_key = "";
  state_file = "./state.json";
  retry_attempts = pos 3;
  retry_delay_seconds = pos 20;
  docker_timeout_seconds = pos 60;
  docker_up_timeout_seconds = pos 1800;
  poll_interval_seconds = pos 0;
  monitor_interval_seconds = pos 60;
  deploy_window = "";
  health_watch_seconds = pos 300;
  health_poll_interval_seconds = pos 5;
  health_unhealthy_streak = pos 3;
  health_restart_tolerance = pos 1;
  discord_webhook = "";
  repo_url = "";
  heartbeat_url = "";
  log_format = "json";
  log_level = "info";
  pprof_listen = "";
  webhook = record { listen = "127.0.0.1:8080"; path = "/webhook"; secret = "" };
  notify_webhook = record { url = ""; headers = [] };
}

-- `loadDefaults`
unfoldable pub load_defaults : Settings
unfolding default
load_defaults = record default { repo_path = ""; project_name = ""; compose_file = "" }

pub record Overrides : Type 0 where
  pub repo_path : Option String
  pub remote : Option String
  pub branch : Option String
  pub compose_file : Option String
  pub compose_dir : Option String
  pub project_name : Option String
  pub state_file : Option String
  pub ssh_key : Option String
  pub discord : Option String
  pub repo_url : Option String
  pub log_format : Option String
  pub log_level : Option String
  pub pprof_listen : Option String
  pub window : Option String
  pub webhook_listen : Option String
  pub webhook_path : Option String
  pub retry_attempts : Option ℤ
  pub restart_tolerance : Option ℤ
  pub health_streak : Option ℤ
  pub retry_delay : Option ℤ
  pub poll_interval : Option ℤ
  pub monitor_interval : Option ℤ
  pub health_watch : Option ℤ
  pub health_interval : Option ℤ
  pub docker_timeout : Option ℤ
  pub docker_up : Option ℤ

-- `setString` and `setInt`
unfoldable pub set {ℓ} : {A : Type ℓ} → A → Option A → A
set old none = old
set old (some new) = new

abbrev second : ℕ
second = 1000000000

-- `setSeconds`: the number afterwards, and its error. `show_duration` is `time.Duration.String`.
unfoldable pub set_seconds : ℤ → Option ℤ → ℤ
set_seconds old none = old
set_seconds old (some d) = if divides second d then quotient d second else old

unfoldable pub seconds_error : (ℤ → String) → Option ℤ → String → Option Err
seconds_error show_duration none field = none
seconds_error show_duration (some d) field =
    if divides second d
    then none
    else some (
        plain (
          "config: " <> (field <> (" must be a whole number of seconds, got " <> show_duration d))))

-- The fields as `Apply` leaves them.
unfoldable pub overridden : Settings → Overrides → Settings
unfolding set set_seconds
overridden c o = record c {
  repo_path = set c.repo_path o.repo_path;
  remote = set c.remote o.remote;
  branch = set c.branch o.branch;
  compose_file = set c.compose_file o.compose_file;
  compose_dir = set c.compose_dir o.compose_dir;
  project_name = set c.project_name o.project_name;
  state_file = set c.state_file o.state_file;
  ssh_key = set c.ssh_key o.ssh_key;
  discord_webhook = set c.discord_webhook o.discord;
  repo_url = set c.repo_url o.repo_url;
  log_format = set c.log_format o.log_format;
  log_level = set c.log_level o.log_level;
  pprof_listen = set c.pprof_listen o.pprof_listen;
  deploy_window = set c.deploy_window o.window;
  webhook = record c.webhook {
    listen = set c.webhook.listen o.webhook_listen;
    path = set c.webhook.path o.webhook_path;
  };
  retry_attempts = set c.retry_attempts o.retry_attempts;
  health_restart_tolerance = set c.health_restart_tolerance o.restart_tolerance;
  health_unhealthy_streak = set c.health_unhealthy_streak o.health_streak;
  retry_delay_seconds = set_seconds c.retry_delay_seconds o.retry_delay;
  poll_interval_seconds = set_seconds c.poll_interval_seconds o.poll_interval;
  monitor_interval_seconds = set_seconds c.monitor_interval_seconds o.monitor_interval;
  health_watch_seconds = set_seconds c.health_watch_seconds o.health_watch;
  health_poll_interval_seconds = set_seconds c.health_poll_interval_seconds o.health_interval;
  docker_timeout_seconds = set_seconds c.docker_timeout_seconds o.docker_timeout;
  docker_up_timeout_seconds = set_seconds c.docker_up_timeout_seconds o.docker_up;
}

-- The error of `Apply`.
unfoldable pub override_error : (ℤ → String) → Overrides → Option Err
unfolding seconds_error
override_error show_duration o =
    let error = seconds_error show_duration in
    join_errors (error o.retry_delay "retry_delay_seconds") (
      join_errors (error o.poll_interval "poll_interval_seconds") (
        join_errors (error o.monitor_interval "monitor_interval_seconds") (
          join_errors (error o.health_watch "health_watch_seconds") (
            join_errors (error o.health_interval "health_poll_interval_seconds") (
              join_errors (error o.docker_timeout "docker_timeout_seconds")
                (error o.docker_up "docker_up_timeout_seconds"))))))
