-- ===== src/Tests/Runs.antt =====
-- The theorems on whole runs, in the world of the tests.
use compose_lock.Prelude.{◌≡◌, refl, true, [], ◌∷◌, contains}
use compose_lock.State.{State, new, degraded, paused, is_known_bad}
use compose_lock.Strings.{trim_space, split_on}
use compose_lock.Git.{GitResult, fetch_and_preview, check_commit, valid_commit, split_nul}
use compose_lock.World.{
  World, ◌>>=◌, pure, run_git, git, diff, rev_parse_head, rev_parse_remote, fetch,
}
use compose_lock.World.Calls.{compose_calls}
use compose_lock.Reconcile.Change.Pause.{IsPausedAs}
use compose_lock.Reconcile.Normal.{run_normal}
use compose_lock.Reconcile.Normal.Guards.{IsSkipped, run_normal-known_bad}
use compose_lock.Reconcile.Run.{reconcile, reconcile_locked}
use compose_lock.Reconcile.Answers.{IsConsistent}
use compose_lock.Reconcile.Run.Answers.{reconcile-IsConsistent}
use compose_lock.Reconcile.Run.Journal.{IsJournalled}
use compose_lock.Reconcile.Run.WriteAhead.{reconcile-IsJournalled}
use compose_lock.Reconcile.Run.DryRun.{reconcile-dry_run}
use compose_lock.Reconcile.Run.Guards.{IsPausedRun, reconcile_locked-paused}
use compose_lock.Reconcile.Run.LockedOut.{IsLockedOut, reconciles, reconciles-IsLockedOut}
use compose_lock.Reconcile.Run.Reached.{reconcile-pause}
use compose_lock.Tests.Worlds.{scripted_git, good_env, conf, plain_run, dry, with_state}

abbrev stuck : State
stuck = record new { last_result = degraded; last_attempt_commit = "bbbb2222" }

abbrev resting : State
resting = record new { paused_at = 900; pause_reason = "maintenance" }

abbrev wary : State
wary = record new { last_healthy_commit = "aaaa1111"; failed_commits = "bbbb2222" ∷ [] }

reconcile-pause_example :
    IsPausedAs resting (reconcile good_env conf plain_run (with_state resting)).1.disk
reconcile-pause_example =
    reconcile-pause good_env conf plain_run (with_state resting)
      (record { same_at = refl; same_until = refl; same_reason = refl; same_schema = refl })

reconcile-dry_run_example :
    compose_calls (reconcile good_env conf dry (with_state new)).1.history ≡ []
unfolding compose_calls
reconcile-dry_run_example = reconcile-dry_run good_env conf dry (with_state new) refl

reconciles-IsLockedOut_example :
    IsLockedOut
      (with_state stuck)
      (reconciles good_env conf (plain_run ∷ dry ∷ plain_run ∷ []) (with_state stuck))
reconciles-IsLockedOut_example =
    reconciles-IsLockedOut good_env conf (plain_run ∷ dry ∷ plain_run ∷ []) (with_state stuck)
      (refl, (refl, (refl, tt))) refl refl

reconcile_locked-paused_example :
    IsPausedRun (with_state resting) (reconcile_locked good_env conf plain_run (with_state resting))
unfolding paused new
reconcile_locked-paused_example =
    reconcile_locked-paused good_env conf plain_run (with_state resting) refl refl

-- What the fetch of the tests finds.
abbrev found : GitResult
found = record {
  changed = true;
  old_commit = "aaaa1111";
  new_commit = "bbbb2222";
  changed_files = "compose.yml" ∷ [];
}

abbrev after_fetch : World
after_fetch = record (with_state wary) {
  history =
      git (diff "aaaa1111" "bbbb2222") ∷ git rev_parse_remote ∷ git rev_parse_head ∷ git fetch ∷ [];
}

run_normal-known_bad_example :
    IsSkipped after_fetch (run_normal good_env conf plain_run (with_state wary))
unfolding fetch_and_preview is_known_bad new ◌>>=◌ pure run_git scripted_git trim_space check_commit
    valid_commit split_nul split_on contains
run_normal-known_bad_example =
    run_normal-known_bad good_env conf plain_run (with_state wary) after_fetch found refl refl refl
      refl

reconcile-IsConsistent_example :
    IsConsistent (reconcile good_env conf plain_run (with_state wary)).0
reconcile-IsConsistent_example = reconcile-IsConsistent good_env conf plain_run (with_state wary)

reconcile-IsJournalled_example :
    IsJournalled (reconcile good_env conf plain_run (with_state new)).1.history
reconcile-IsJournalled_example =
    reconcile-IsJournalled good_env conf plain_run (with_state new) refl tt
