-- ===== src/Commands/Args.antt =====
-- The command line: cmd/composelock/flags.go, and `parseArgs`, `checkFlagsFor` and the choice of a
-- command in cmd/composelock/main.go. The flag package is a parameter: it reads flags up to the first
-- argument that is none.
pub mod Parsed
pub mod Safe
pub mod Starting
use compose_lock.Prelude.{
  ℕ, zero, suc, String, ◌<>◌, Bool, true, false, not, ◌&&◌, ◌||◌, Option, none, some, List, [], ◌∷◌,
  ◌++◌, ◌==◌, contains, length, join, if◌then◌else◌,
}
use compose_lock.Prelude.Int.{ℤ, pos, ltz}
use compose_lock.Errors.{Err, plain, Try, ok, err, first}
use compose_lock.Config.Settings.{Overrides}

-- `cliFlags`; `given` has the names of the flags that were set, which `Visit` goes through.
pub record CliFlags : Type 0 where
  pub given : List String
  pub config_path : String
  pub repo : String
  pub remote : String
  pub branch : String
  pub compose_file : String
  pub compose_dir : String
  pub project_name : String
  pub state_file : String
  pub discord : String
  pub repo_url : String
  pub ssh_key : String
  pub log_format : String
  pub log_level : String
  pub pprof_listen : String
  pub window : String
  pub webhook_listen : String
  pub webhook_path : String
  pub retry_attempts : ℤ
  pub restart_tolerance : ℤ
  pub health_streak : ℤ
  pub retry_delay : ℤ
  pub poll_interval : ℤ
  pub monitor_interval : ℤ
  pub health_watch : ℤ
  pub health_interval : ℤ
  pub docker_timeout : ℤ
  pub docker_up : ℤ
  pub pause_for : ℤ
  pub pause_reason : String
  pub dry_run : Bool
  pub force : Bool
  pub init_flag : Bool
  pub with_state : Bool
  pub version_flag : Bool

unfoldable pub if_given {ℓ} : {A : Type ℓ} → CliFlags → String → A → Option A
if_given f name value = if contains f.given name then some value else none

unfoldable pub overrides : CliFlags → Overrides
unfolding if_given
overrides f = record {
  repo_path = if_given f "repo" f.repo;
  remote = if_given f "remote" f.remote;
  branch = if_given f "branch" f.branch;
  compose_file = if_given f "compose-file" f.compose_file;
  compose_dir = if_given f "compose-dir" f.compose_dir;
  project_name = if_given f "project-name" f.project_name;
  state_file = if_given f "state-file" f.state_file;
  ssh_key = if_given f "ssh-key" f.ssh_key;
  discord = if_given f "discord" f.discord;
  repo_url = if_given f "repo-url" f.repo_url;
  log_format = if_given f "log-format" f.log_format;
  log_level = if_given f "log-level" f.log_level;
  pprof_listen = if_given f "pprof-listen" f.pprof_listen;
  window = if_given f "deploy-window" f.window;
  webhook_listen = if_given f "webhook-listen" f.webhook_listen;
  webhook_path = if_given f "webhook-path" f.webhook_path;
  retry_attempts = if_given f "retry-attempts" f.retry_attempts;
  restart_tolerance = if_given f "restart-tolerance" f.restart_tolerance;
  health_streak = if_given f "health-streak" f.health_streak;
  retry_delay = if_given f "retry-delay" f.retry_delay;
  poll_interval = if_given f "poll-interval" f.poll_interval;
  monitor_interval = if_given f "monitor-interval" f.monitor_interval;
  health_watch = if_given f "health-watch" f.health_watch;
  health_interval = if_given f "health-interval" f.health_interval;
  docker_timeout = if_given f "docker-timeout" f.docker_timeout;
  docker_up = if_given f "docker-up-timeout" f.docker_up;
}

-- What `f.fs.Parse` leaves: the flags, and the arguments from the first on that is no flag.
abbrev pub Parser : Type 0
Parser = CliFlags → List String → Try (CliFlags × List String)

abbrev pub Again : Type 0
Again = String → CliFlags → List String → Option (Try (String × CliFlags))

-- The first argument is the command; the parse goes on after each.
parsed : Again → String → Try (CliFlags × List String) → Option (Try (String × CliFlags))
parsed again command (err e) = some (err e)
parsed again command (ok (f, [])) = some (ok (command, f))
parsed again command (ok (f, arg ∷ more)) = again (if command == "" then arg else command) f more

-- The command and the flags; `none` is a parse that has run out of fuel.
module _ (parse : Parser) where
  unfoldable pub parse_from : ℕ → String → CliFlags → List String → Option (Try (String × CliFlags))
  unfolding parsed
  parse_from zero command f rest = none
  parse_from (suc fuel) command f rest = parsed (parse_from fuel) command (parse f rest)

  -- One round for each argument, and a last one, are enough.
  unfoldable pub parse_args : CliFlags → List String → Option (Try (String × CliFlags))
  parse_args f args = parse_from (suc (length args)) "" f args

-- The flags of a list that were set, each with a dash; `Visit` goes through them by name.
unfoldable pub dashed : (String → Bool) → List String → List String
dashed is_on [] = []
dashed is_on (name ∷ names) =
    let rest = dashed is_on names in if is_on name then ("-" <> name) ∷ rest else rest

unfoldable pub is_rejected : CliFlags → String → Bool
is_rejected f name = contains f.given name && (if name == "dry-run" then f.dry_run else f.force)

unfoldable pub any_of : List String → String → Option Err
any_of [] text = none
any_of (name ∷ names) text = some (plain text)

-- The commands behind the set-up.
pub data Task : Type 0 where
  once : (dry_run force : Bool) → Task
  status poll webhook resume unknown : Task
  pause : ℤ → String → Task

-- What `run` does: it ends at once, or sets up and then runs a command.
pub data Plan : Type 0 where
  print_version scaffold : Plan
  refuse : Err → Plan
  proceed : (read_only : Bool) → Task → Plan

unfoldable pub read_only : String → CliFlags → Bool
read_only command f =
    command == "status" || (command == "check" || (command == "sync" && f.dry_run))

chosen : String → CliFlags → Task
chosen command f =
    if command == "sync"
    then once f.dry_run f.force
    else if command == "check"
    then once true f.force
    else if command == "status"
    then status
    else if command == "poll"
    then poll
    else if command == "webhook"
    then webhook
    else if command == "pause"
    then pause f.pause_for f.pause_reason
    else if command == "resume"
    then resume
    else unknown

unfoldable pub named : String → CliFlags → String
named command f = if command == "" then (if f.init_flag then "init" else "sync") else command

-- `show_duration` is `time.Duration.String`.
module _ (show_duration : ℤ → String) where
  unfoldable pub misplaced_error : String → CliFlags → Option Err
  unfolding dashed any_of
  misplaced_error command f =
      if command == "pause"
      then none
      else (let names = dashed (contains f.given) ("for" ∷ "reason" ∷ []) in
          any_of names (join " and " names <> " only applies to the pause command"))

  unfoldable pub negative_error : String → CliFlags → Option Err
  negative_error command f =
      if command == "pause" && ltz f.pause_for (pos 0)
      then some (plain ("-for must not be negative, got " <> show_duration f.pause_for))
      else none

  unfoldable pub rejected_error : String → CliFlags → Option Err
  unfolding is_rejected dashed any_of
  rejected_error command f =
      if not (command == "poll") && not (command == "webhook")
      then none
      else (let names = dashed (is_rejected f) ("dry-run" ∷ "force" ∷ []) in
          any_of names (
            command
            <> (" does not accept " <> (join " and " names <> ": it always reconciles for real"))))

  unfoldable pub check_flags_for : String → CliFlags → Option Err
  check_flags_for command f =
      first (misplaced_error command f)
        (first (negative_error command f) (rejected_error command f))

  checked : String → CliFlags → Option Err → Plan
  unfolding chosen read_only
  checked command f (some e) = refuse e
  checked command f none = proceed (read_only command f) (chosen command f)

  unfoldable pub run : String → CliFlags → Plan
  unfolding checked
  run given f =
      let command = named given f in
      if f.version_flag || command == "version"
      then print_version
      else if command == "init"
      then scaffold
      else checked command f (check_flags_for command f)
