-- ===== src/Health/Watch/Tests.antt =====
-- The theorems on a watch, at two polls of one container.
use compose_lock.Prelude.{
  ◌≡◌, refl, arith, true, List, [], ◌∷◌, ◌++◌, lookup, insert, sort, keys, contains, erase,
}
use compose_lock.Errors.{ok}
use compose_lock.Health.{ContainerStatus, Snapshot, completed, evaluate_from, evaluate}
use compose_lock.Health.Watch.{
  Options, WatchResult, Poll, watch, watch_loop, check_populated, check_poll, check_container,
  check_containers, missing_containers, final_verdict, services_of, counts_of, ids, restarts_of,
  first_missing, is_empty, running, wedged, restart_delta, success as watch_success,
}
use compose_lock.Health.Watch.Clean.{Passes, watch-Passes}
use compose_lock.Health.Watch.Total.{watch_total}

abbrev web : ContainerStatus
web = record {
  service = "web";
  id = "1";
  state = "running";
  exit_code = 0;
  health = "healthy";
  restart_count = 0;
}

abbrev web_running : Snapshot
web_running = record { containers = web ∷ [] }

abbrev minute_watch : Options
minute_watch = record {
  project_name = "app";
  commit = "bbbb2222";
  watch_duration = 10;
  poll_interval = 5;
  unhealthy_streak_limit = 3;
  restart_tolerance = 0;
  expect_containers = true;
}

abbrev two_polls : List Poll
two_polls =
    record { snapshot = ok web_running; now = 6 }
    ∷ record { snapshot = ok web_running; now = 12 }
    ∷ []

watch-Passes_example : Passes minute_watch web_running 10 two_polls
unfolding watch check_populated watch_loop check_poll missing_containers sort keys services_of
    insert contains ids check_containers check_container restart_delta lookup restarts_of completed
    final_verdict counts_of first_missing is_empty running wedged evaluate evaluate_from erase
watch-Passes_example =
    watch-Passes minute_watch web_running 0 two_polls (watch_success web_running) (omega arith) refl
      refl

watch_total_example :
    (r : WatchResult) × ((more : List Poll)
      → watch minute_watch (ok web_running) 0 (two_polls ++ more) ≡ ok r)
watch_total_example =
    watch_total minute_watch web_running 0 two_polls (omega arith)
      ((web_running, refl), omega arith, ((web_running, refl), omega arith, tt)) (omega arith)
