-- ===== src/Reconcile/Run/Answers.antt =====
-- What a whole reconcile answers.
use compose_lock.Prelude.{arith, Bool, true, false}
use compose_lock.Errors.{Try, ok, err}
use compose_lock.Config.{Config}
use compose_lock.World.{World, Env, lock_released, pinged}
use compose_lock.World.Yields.{
  Yields, Yields-bind, Yields-then, Yields-bind_try, Yields-pure, Yields-call, Yields-if,
}
use compose_lock.Reconcile.{Options}
use compose_lock.Reconcile.Answers.{IsConsistent}
use compose_lock.Reconcile.Recovery.Answers.{Yields-recover_from_crash}
use compose_lock.Reconcile.Normal.Answers.{Yields-run_normal}
use compose_lock.Reconcile.Run.{
  paused_result, paused_run, run_loaded, after_load, reconcile_locked, locked_run, run_if_held,
  run_or_skip, reconcile,
}
use compose_lock.Git.{GitResult}

paused_result-IsConsistent : (o : Try GitResult) → IsConsistent (paused_result o)
unfolding paused_result
paused_result-IsConsistent (err e) = ground arith
paused_result-IsConsistent (ok g) = ground arith

module _ (env : Env) (cfg : Config) (opts : Options) where
  Yields-run_loaded : Yields IsConsistent (run_loaded env cfg opts)
  unfolding run_loaded paused_run
  Yields-run_loaded = Yields-bind _ _ (λ s. Yields-bind _ _ (λ now.
      Yields-if _ _ _ (Yields-bind _ _ (λ o. Yields-pure _ (paused_result-IsConsistent o))) (
        Yields-if _ _ _ (Yields-pure _ (ground arith)) (
          Yields-if _ _ _ (Yields-recover_from_crash env cfg opts)
            (Yields-run_normal env cfg opts)))))

  Yields-reconcile_locked : Yields IsConsistent (reconcile_locked env cfg opts)
  unfolding reconcile_locked after_load
  Yields-reconcile_locked =
      Yields-bind_try _ _ (λ e. Yields-pure _ (ground arith))
        (λ s. Yields-bind _ _ (λ _. Yields-run_loaded))

  Yields-locked_run : Yields IsConsistent (locked_run env cfg opts)
  unfolding locked_run
  Yields-locked_run = Yields-bind _ _ (λ at.
      Yields-then _ _ Yields-reconcile_locked
        (λ r q. Yields-bind _ _ (λ _. Yields-call lock_released _ (λ w. q))))

  Yields-run_if_held : (o : Try Bool) → Yields IsConsistent (run_if_held env cfg opts o)
  unfolding run_if_held
  Yields-run_if_held (err e) = Yields-pure _ (ground arith)
  Yields-run_if_held (ok false) = Yields-pure _ (ground arith)
  Yields-run_if_held (ok true) = Yields-locked_run

  Yields-reconcile : Yields IsConsistent (reconcile env cfg opts)
  unfolding reconcile run_or_skip
  Yields-reconcile =
      Yields-then _ _ (Yields-bind _ _ Yields-run_if_held)
        (λ r q. Yields-if _ _ _ (Yields-call pinged _ (λ w. q)) (Yields-pure r q))

-- Whatever the world answers, the result of a reconcile is consistent: a run that reverted or is
-- degraded reports an error and is not both, and a run that skipped has neither applied, reverted nor
-- degraded.
pub reconcile-IsConsistent :
    (env : Env) (cfg : Config) (opts : Options) (w : World)
    → IsConsistent (reconcile env cfg opts w).0
reconcile-IsConsistent env cfg opts w = (Yields-reconcile env cfg opts).at w
