-- ===== src/Tests/Files.antt =====
-- The theorems on the state file and the deploy window, at concrete ones.
use compose_lock.Prelude.{◌≡◌, refl, arith, String, none, some}
use compose_lock.Errors.{Try, ok, plain}
use compose_lock.State.{State, new, degraded}
use compose_lock.State.File.{Disk, Answers, save, load}
use compose_lock.State.File.Atomic.{Ends, file_after, save-refines}
use compose_lock.World.{SaveOutcome, save_error, disk_after}
use compose_lock.Config.Window.{DeployWindow, parse_deploy_window, show_window}
use compose_lock.Config.Window.Written.{parse_deploy_window-show_window}
use compose_lock.Tests.Worlds.{good_env}

-- A full disk: the temporary file cannot be synced.
abbrev full : Answers
full = record {
  create = none;
  write = none;
  part = "";
  sync = some (plain "no space left on device");
  close = none;
  rename = none;
  sync_dir = none;
}

abbrev stuck : State
stuck = record new { last_result = degraded }

abbrev decode : String → Try State
decode text = ok stuck

abbrev no_file : Disk
no_file = record { file = none; temp = none }

save-refines_example :
    (o : SaveOutcome) × Ends none "{}" (save full (ok "{}") no_file) o
    × ((save full (ok "{}") no_file).0 ≡ save_error good_env o)
    × (load decode "state.json" (file_after (save full (ok "{}") no_file).1)
        ≡ ok (disk_after good_env o stuck new))
unfolding load new
save-refines_example =
    save-refines decode "state.json" "{}" full no_file stuck new good_env refl refl refl

abbrev night : DeployWindow
night = record { start = 1320; end = 360 }

parse_deploy_window-show_window_example : parse_deploy_window (show_window night) ≡ some night
parse_deploy_window-show_window_example = parse_deploy_window-show_window night (record {
  start_in_day = omega arith;
  end_in_day = omega arith;
  not_empty = λ e. absurd (omega arith);
})
