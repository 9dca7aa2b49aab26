-- ===== src/Tests/Ends.antt =====
-- The theorems on the ends of runs, at concrete states.
use compose_lock.Prelude.{
  refl, arith, ◌+◌, ◌≤◌, ◌≡◌, none, contains, [], ◌∷◌, true, beq, if◌then◌else◌,
}
use compose_lock.State.{State, new, revert_in_progress}
use compose_lock.Compose.{Stack}
use compose_lock.Reconcile.Stacks.{stack_names}
use compose_lock.Reconcile.Projects.Downs.{downs}
use compose_lock.Reconcile.Revert.{revert_stacks}
use compose_lock.Reconcile.Revert.TornDown.{downs-revert_stacks}
use compose_lock.Git.{retry, fetch_once}
use compose_lock.Git.Retries.{fetches, fetches-retry}
use compose_lock.Reconcile.Recovery.{recover_from_crash}
use compose_lock.Reconcile.Recovery.Limits.{IsDropped, recover_from_crash-IsDropped}
use compose_lock.Tests.Worlds.{good_env, conf, plain_run, with_state}

abbrev app : Stack
app = record { project_name = "app"; dir = none; files = [] }

abbrev db : Stack
db = record { project_name = "db"; dir = none; files = [] }

-- The commit that is gone back to has no stack `app`.
downs-revert_stacks_example :
    contains
      (downs
        (revert_stacks good_env conf "bbbb2222" "aaaa1111" "unhealthy"
          (app ∷ db ∷ [])
          (db ∷ [])
          (with_state new)).1.history)
      "app"
    ≡ true
unfolding contains stack_names downs
downs-revert_stacks_example =
    downs-revert_stacks good_env conf "bbbb2222" "aaaa1111" "unhealthy" (app ∷ db ∷ []) (db ∷ [])
      (with_state new) "app"

abbrev reverting : State
reverting = record new {
  pending_revert = true;
  pending_commit = "bbbb2222";
  last_healthy_commit = "aaaa1111";
  pending_attempts = 3;
}

fetches-retry_example :
    fetches (retry good_env 3 (fetch_once good_env) (with_state new)).1.history
    ≤ fetches (with_state new).history + (if beq 3 0 then 1 else 3)
fetches-retry_example = fetches-retry good_env 3 (with_state new)

recover_from_crash-IsDropped_example :
    IsDropped
      (with_state reverting)
      (recover_from_crash good_env conf plain_run (with_state reverting))
unfolding revert_in_progress new
recover_from_crash-IsDropped_example =
    recover_from_crash-IsDropped good_env conf plain_run (with_state reverting) refl refl refl
      (omega arith)
