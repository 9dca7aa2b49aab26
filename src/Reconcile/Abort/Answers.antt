-- ===== src/Reconcile/Abort/Answers.antt =====
-- What the early ends of an apply answer.
use compose_lock.Prelude.{arith, String, List}
use compose_lock.Errors.{Err}
use compose_lock.Compose.{Stack}
use compose_lock.Config.{Config}
use compose_lock.World.{Env}
use compose_lock.World.Yields.{Yields, Yields-bind, Yields-then, Yields-pure, Yields-if}
use compose_lock.Reconcile.{Result}
use compose_lock.Reconcile.Answers.{IsConsistent, IsOpen}
use compose_lock.Reconcile.Revert.Answers.{Yields-do_revert}
use compose_lock.Reconcile.Abort.{
  abort_before_up, abort_apply, apply_incomplete, apply_interrupted, fail_and_revert,
}

module _ (env : Env) (cfg : Config) where
  -- An abort reports whatever the run has found: the result stays consistent.
  pub Yields-abort_before_up :
      (r : Result) (title : String) (e : Err)
      → IsConsistent r
      → Yields IsConsistent (abort_before_up env cfg r title e)
  unfolding abort_before_up
  Yields-abort_before_up r title e h = Yields-bind _ _ (λ o. Yields-bind _ _ (λ c.
      Yields-if c _ _ (Yields-pure _ (ground (arith, h)))
        (Yields-bind _ _ (λ _. Yields-pure _ (ground (arith, h))))))

  pub Yields-abort_apply :
      (r : Result) (title : String) (e : Err)
      → IsConsistent r
      → Yields IsConsistent (abort_apply env cfg r title e)
  unfolding abort_apply
  Yields-abort_apply r title e h =
      Yields-if _ _ _ (Yields-abort_before_up r title e h)
        (Yields-bind _ _ (λ _. Yields-abort_before_up r title e h))

  pub Yields-apply_incomplete :
      (r : Result) (title key : String) (e : Err)
      → IsConsistent r
      → Yields IsConsistent (apply_incomplete env cfg r title key e)
  unfolding apply_incomplete
  Yields-apply_incomplete r title key e h = Yields-bind _ _ (λ c.
      Yields-if c _ _ (Yields-pure _ (ground (arith, h)))
        (Yields-bind _ _ (λ _. Yields-pure _ (ground (arith, h)))))

  pub Yields-apply_interrupted :
      (r : Result) (name : String) (e : Err)
      → IsConsistent r
      → Yields IsConsistent (apply_interrupted env cfg r name e)
  unfolding apply_interrupted
  Yields-apply_interrupted r name e h = Yields-bind _ _ (λ _. Yields-pure _ (ground (arith, h)))

  pub Yields-fail_and_revert :
      (stacks : List Stack) (r : Result) (reason : String)
      → IsOpen r
      → Yields IsConsistent (fail_and_revert env cfg stacks r reason)
  unfolding fail_and_revert
  Yields-fail_and_revert stacks r reason h = Yields-bind _ _ (λ _. Yields-bind _ _ (λ _.
      Yields-bind _ _ (λ s. Yields-bind _ _ (λ o.
        Yields-then _ _ (Yields-do_revert env cfg stacks r.new_commit reason)
          (λ a q. Yields-pure _ (ground (arith, h, q)))))))
