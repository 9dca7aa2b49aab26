-- ===== src/Reconcile/Normal/Guards.antt =====
-- The guard of `runNormal` against a commit that has failed before.
use compose_lock.Prelude.{◌≡◌, refl, true, false}
use compose_lock.Errors.{ok}
use compose_lock.State.{skipped_known_bad, is_known_bad}
use compose_lock.Config.{Config}
use compose_lock.Git.{GitResult, fetch_and_preview}
use compose_lock.World.{World, Env, pure, gets, ◌>>=◌}
use compose_lock.World.Calls.{IsNoted, IsNoted-saves}
use compose_lock.Reconcile.{Options, Result}
use compose_lock.Reconcile.Recovery.{upstream}
use compose_lock.Reconcile.Saving.{record_outcome}
use compose_lock.Reconcile.Saving.Keeping.{Keeps-record_outcome}
use compose_lock.Reconcile.Normal.{of_fetch, run_normal, after_fetch, guard_commit}

guard_commit-known_bad :
    (env : Env) (cfg : Config) (opts : Options) (w : World) (r : Result)
    → r.changed ≡ true
    → is_known_bad w.st r.new_commit ≡ true
    → opts.force ≡ false
    → guard_commit env cfg opts r w
      ≡ (record r { skipped = true }, (record_outcome env skipped_known_bad r.new_commit w).1)
unfolding guard_commit ◌>>=◌ gets pure
guard_commit-known_bad env cfg opts w r new bad gentle = rw (new, bad, gentle)

-- What came of a skipped commit, and what the run has left alone since `w`.
pub record IsSkipped (w : World) (answer : Result × World) : Type 0 where
  pub skipped : answer.0.skipped ≡ true
  pub not_applied : answer.0.applied ≡ false
  pub noted : IsNoted w answer.1

-- A commit that is known to be bad is skipped without force: it is not checked out, and Compose is
-- not called, from the fetch that finds it on.
pub run_normal-known_bad :
    (env : Env) (cfg : Config) (opts : Options) (w w' : World) (g : GitResult)
    → fetch_and_preview env cfg.retry_attempts (upstream cfg) w ≡ (ok g, w')
    → g.changed ≡ true
    → is_known_bad w'.st g.new_commit ≡ true
    → opts.force ≡ false
    → IsSkipped w' (run_normal env cfg opts w)
unfolding run_normal after_fetch ◌>>=◌
run_normal-known_bad env cfg opts w w' g fetched new bad gentle =
    rw (fetched, guard_commit-known_bad env cfg opts w' (of_fetch g) new bad gentle)
      (record {
        skipped = refl;
        not_applied = refl;
        noted =
            (Keeps-record_outcome env (IsNoted-saves w') (record { change = λ c q. tt })
                skipped_known_bad g.new_commit).at
              w' (record { same_tree = refl; same_calls = refl });
      })
