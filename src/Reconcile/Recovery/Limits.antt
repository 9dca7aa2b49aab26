-- ===== src/Reconcile/Recovery/Limits.antt =====
-- The limit on how often a recovery is tried.
use compose_lock.Prelude.{◌≡◌, refl, arith, ◌≤◌, String, true, false, leb, []}
use compose_lock.State.{revert_in_progress}
use compose_lock.Errors.{Err}
use compose_lock.Config.{Config}
use compose_lock.World.{World, Env, pure, gets, ◌>>=◌}
use compose_lock.World.Calls.{IsNoted, IsNoted-saves}
use compose_lock.Reconcile.{Options, Result}
use compose_lock.Reconcile.Revert.{degrade}
use compose_lock.Reconcile.Revert.Keeping.{Keeps-degrade}
use compose_lock.Reconcile.Recovery.{
  recover_from_crash, recover, recover_pending, forced_reset, within_limits, give_up,
  max_recovery_attempts,
}

-- What came of a recovery that was not tried again, and what it has left alone since `w`.
pub record IsDropped (w : World) (answer : Result × World) : Type 0 where
  pub gave_up : answer.0.degraded ≡ true
  pub noted : IsNoted w answer.1

degrade-IsDropped :
    (env : Env) (cfg : Config) (w : World) (failed target : String) (e : Err)
    → IsDropped w (degrade env cfg failed target [] e w)
unfolding degrade ◌>>=◌ pure
degrade-IsDropped env cfg w failed target e = record {
  gave_up = refl;
  noted =
      (Keeps-degrade env cfg (IsNoted-saves w) (record { change = λ c q. tt }) failed target []
          e).at
        w (record { same_tree = refl; same_calls = refl });
}

-- After three attempts an interrupted revert is not resumed again without force: the run ends DEGRADED,
-- checks nothing out and does not call Compose.
pub recover_from_crash-IsDropped :
    (env : Env) (cfg : Config) (opts : Options) (w : World)
    → opts.dry_run ≡ false
    → opts.force ≡ false
    → revert_in_progress w.st ≡ true
    → 3 ≤ w.st.pending_attempts
    → IsDropped w (recover_from_crash env cfg opts w)
unfolding recover_from_crash recover recover_pending forced_reset within_limits give_up ◌>>=◌ gets
    pure
recover_from_crash-IsDropped env cfg opts w live gentle reverting tried =
    let spent : leb max_recovery_attempts w.st.pending_attempts ≡ true = ground (arith, tried) in
    rw (live, gentle, reverting, spent) (degrade-IsDropped env cfg w w.st.pending_commit "" _)
