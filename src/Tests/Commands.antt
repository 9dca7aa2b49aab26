-- ===== src/Tests/Commands.antt =====
-- A pause of an hour and what follows it.
use compose_lock.Prelude.{
  List, ◌≡◌, inr, refl, arith, ℕ, String, true, false, none, is_some, [], ◌∷◌,
}
use compose_lock.Prelude.Int.{ℤ, pos}
use compose_lock.State.{State, new, paused, pause, resume}
use compose_lock.World.{World, ◌>>=◌, pure, call, load_state, save_state, read_clock}
use compose_lock.Reconcile.Run.{reconcile_locked}
use compose_lock.Reconcile.Run.Guards.{IsPausedRun}
use compose_lock.Commands.{Exit}
use compose_lock.Commands.Pausing.{
  wait_for_lock, pause_description, cmd_pause, cmd_resume, pausing, update_state, pause_end,
}
use compose_lock.Commands.Pausing.Waits.{settles, update_state-returns}
use compose_lock.Commands.Pausing.Holds.{cmd_pause-IsPausedRun, cmd_resume-cmd_pause}
use compose_lock.State.Limits.{IsBounded, new-IsBounded}
use compose_lock.Commands.Session.{
  Action, reconciled, polled, paused_for, resumed, session, session-IsBounded,
}
use compose_lock.Errors.{Try, ok}
use compose_lock.World.Calls.{IsIdle}
use compose_lock.Commands.Status.{Today, cmd_status}
use compose_lock.Commands.Status.ReadOnly.{cmd_status-IsIdle}
use compose_lock.Commands.Args.{CliFlags}
use compose_lock.Commands.Args.Starting.{Found}
use compose_lock.Tests.Worlds.{good_env, conf, plain_run, dry, with_state}

abbrev show : ℕ → String
show t = "noon"

abbrev for_noon : World
for_noon = with_state (pause new 1000 4600 "release")

abbrev done : Exit
done = record { code = 0; printed = "deployments paused until noon (release)"; error = none }

cmd_pause-IsPausedRun_example :
    IsPausedRun for_noon (reconcile_locked good_env conf plain_run for_noon)
unfolding cmd_pause ◌>>=◌ pure update_state wait_for_lock call load_state save_state
    pause_description pause_end read_clock
cmd_pause-IsPausedRun_example =
    cmd_pause-IsPausedRun good_env conf plain_run show 1 (pos 3600) "release" (with_state new)
      for_noon done refl refl refl refl (omega arith) (inr (omega arith))

cmd_resume-cmd_pause_example :
    ((cmd_resume good_env 1 for_noon).1.disk ≡ resume new)
    × ((now : ℕ) → paused (cmd_resume good_env 1 for_noon).1.disk now ≡ false)
unfolding cmd_pause ◌>>=◌ pure update_state wait_for_lock call load_state save_state
    pause_description pause_end read_clock cmd_resume paused pause
cmd_resume-cmd_pause_example =
    cmd_resume-cmd_pause good_env show 1 1 (pos 3600) "release" (with_state new) for_noon done
      (record { code = 0; printed = "deployments resumed"; error = none }) refl refl refl refl refl

update_state-returns_example :
    is_some (update_state good_env (pausing good_env 1000 4600 "release") 1 (with_state new)).0
    ≡ true
unfolding settles
update_state-returns_example =
    update_state-returns good_env (pausing good_env 1000 4600 "release") 0 1 (with_state new) refl
      (omega arith)

-- `poll -retry-attempts 5`
abbrev polling : CliFlags
polling = record {
  given = "retry-attempts" ∷ [];
  config_path = "";
  repo = "";
  remote = "";
  branch = "";
  compose_file = "";
  compose_dir = "";
  project_name = "";
  state_file = "";
  discord = "";
  repo_url = "";
  ssh_key = "";
  log_format = "";
  log_level = "";
  pprof_listen = "";
  window = "";
  webhook_listen = "";
  webhook_path = "";
  retry_attempts = pos 5;
  restart_tolerance = pos 0;
  health_streak = pos 0;
  retry_delay = pos 0;
  poll_interval = pos 0;
  monitor_interval = pos 0;
  health_watch = pos 0;
  health_interval = pos 0;
  docker_timeout = pos 0;
  docker_up = pos 0;
  pause_for = pos 0;
  pause_reason = "";
  dry_run = false;
  force = false;
  init_flag = false;
  with_state = false;
  version_flag = false;
}

abbrev no_text : ℤ → String
no_text d = ""

abbrev all_well : Found
all_well = record { config = none; services = none; state = none; writable = none }

-- A deploy, a pause of an hour, a check, and the end of the pause.
abbrev a_day : List Action
a_day =
    reconciled plain_run
    ∷ paused_for 10 (pos 3600) "release"
    ∷ reconciled dry
    ∷ resumed 10
    ∷ polled (pos 300) 3
    ∷ []

session-IsBounded_example : IsBounded (session good_env conf show a_day (with_state new)).disk
session-IsBounded_example =
    session-IsBounded good_env conf show a_day (with_state new) new-IsBounded new-IsBounded

abbrev noon : Today
noon = record { now = 1000; minute_of_day = 720; in_day = 43200000000000 }

abbrev as_json : State → Try String
as_json s = ok "{}"

cmd_status-IsIdle_example :
    IsIdle
      (with_state new)
      (cmd_status good_env conf show as_json noon "composelock.json" (with_state new)).1
cmd_status-IsIdle_example =
    cmd_status-IsIdle good_env conf show as_json noon "composelock.json" (with_state new)
