-- ===== src/Reconcile/Revert/Answers.antt =====
-- What a revert answers.
use compose_lock.Prelude.{refl, String, List}
use compose_lock.Errors.{Err}
use compose_lock.Health.{Outcome, unknown, healthy, unhealthy}
use compose_lock.Compose.{Stack, Project}
use compose_lock.Config.{Config}
use compose_lock.World.{Env}
use compose_lock.World.Yields.{
  Yields, Yields-bind, Yields-bind_option, Yields-bind_try, Yields-pure, Yields-if,
}
use compose_lock.Reconcile.Answers.{IsReverted}
use compose_lock.Reconcile.Projects.{
  Loaded, loaded, load_failed, env_failed, Raised, raised, up_failed,
}
use compose_lock.Reconcile.Revert.{
  degrade, interrupted_report, revert_interrupted, revert_failed, reverted_report, finish_revert,
  watched_revert, judge_revert, watch_revert, raise_revert, revert_stacks, revert_to, do_revert,
}

module _ (env : Env) (cfg : Config) where
  pub Yields-degrade :
      (failed target : String) (stacks : List String) (e : Err)
      → Yields IsReverted (degrade env cfg failed target stacks e)
  unfolding degrade
  Yields-degrade failed target stacks e = Yields-bind _ _ (λ now. Yields-bind _ _ (λ s.
      Yields-bind _ _
        (λ o. Yields-pure _ (record { fails = refl; exclusive = refl; not_skipped = refl }))))

  Yields-revert_interrupted :
      (failed target : String) (stacks : List Stack) (e : Err)
      → Yields IsReverted (revert_interrupted env cfg failed target stacks e)
  unfolding revert_interrupted interrupted_report
  Yields-revert_interrupted failed target stacks e = Yields-bind _ _ (λ now. Yields-bind _ _ (λ s.
      Yields-bind _ _ (λ o. Yields-bind _ _ (λ c.
        Yields-if c _ _
          (Yields-pure _ (record { fails = refl; exclusive = refl; not_skipped = refl }))
          (Yields-pure _ (record { fails = refl; exclusive = refl; not_skipped = refl }))))))

  Yields-revert_failed :
      (failed target : String) (stacks : List Stack) (e : Err)
      → Yields IsReverted (revert_failed env cfg failed target stacks e)
  unfolding revert_failed
  Yields-revert_failed failed target stacks e = Yields-bind _ _ (λ c.
      Yields-if _ _ _ (Yields-revert_interrupted failed target stacks e)
        (Yields-degrade failed target _ e))

  Yields-finish_revert :
      (failed target reason : String) (stacks : List Stack) (services : List String)
      → Yields IsReverted (finish_revert env cfg failed target reason stacks services)
  unfolding finish_revert reverted_report
  Yields-finish_revert failed target reason stacks services = Yields-bind _ _ (λ s.
      Yields-bind _ _ (λ now.
        Yields-bind_option _ _
          (Yields-pure _ (record { fails = refl; exclusive = refl; not_skipped = refl }))
          (λ e. Yields-pure _ (record { fails = refl; exclusive = refl; not_skipped = refl }))))

  Yields-watched_revert :
      (failed target reason : String) (stacks : List Stack) (services : List String) (o : Outcome)
      (why : String)
      → Yields IsReverted (watched_revert env cfg failed target reason stacks services o why)
  unfolding watched_revert
  Yields-watched_revert failed target reason stacks services healthy why =
      Yields-finish_revert failed target reason stacks services
  Yields-watched_revert failed target reason stacks services unknown why =
      Yields-degrade failed target _ _
  Yields-watched_revert failed target reason stacks services unhealthy why =
      Yields-degrade failed target _ _

  Yields-watch_revert :
      (failed target reason : String) (stacks : List Stack) (projects : List (Stack × Project))
      (o : Raised)
      → Yields IsReverted (watch_revert env cfg failed target reason stacks projects o)
  unfolding watch_revert judge_revert
  Yields-watch_revert failed target reason stacks projects (up_failed s e) =
      Yields-revert_failed failed target stacks _
  Yields-watch_revert failed target reason stacks projects (raised services) =
      Yields-bind_try _ _ (λ e. Yields-revert_interrupted failed target stacks _)
        (λ r. Yields-watched_revert failed target reason stacks services r.outcome r.reason)

  Yields-raise_revert :
      (failed target reason : String) (stacks : List Stack) (o : Loaded)
      → Yields IsReverted (raise_revert env cfg failed target reason stacks o)
  unfolding raise_revert
  Yields-raise_revert failed target reason stacks (load_failed s e) =
      Yields-revert_failed failed target stacks _
  Yields-raise_revert failed target reason stacks (env_failed s e) =
      Yields-revert_failed failed target stacks _
  Yields-raise_revert failed target reason stacks (loaded projects) =
      Yields-bind _ _ (Yields-watch_revert failed target reason stacks projects)

  Yields-revert_to :
      (failed target reason : String) (stacks : List Stack)
      → Yields IsReverted (revert_to env cfg failed target reason stacks)
  unfolding revert_to revert_stacks
  Yields-revert_to failed target reason stacks =
      Yields-bind_option _ _
        (Yields-bind _ _ (λ _.
          Yields-bind_try _ _ (λ e. Yields-revert_failed failed target stacks _)
            (λ found.
              Yields-bind_option _ _ (Yields-bind _ _ (Yields-raise_revert failed target reason _))
                (λ e. Yields-revert_failed failed target stacks e))))
        (λ e. Yields-revert_failed failed target stacks _)

  -- Every revert reports an error, skips nothing, and is not at once done and given up.
  pub Yields-do_revert :
      (stacks : List Stack) (failed reason : String)
      → Yields IsReverted (do_revert env cfg stacks failed reason)
  unfolding do_revert
  Yields-do_revert stacks failed reason = Yields-bind _ _ (λ s.
      Yields-if _ _ _ (Yields-degrade failed "" _ _)
        (Yields-revert_to failed s.last_healthy_commit reason stacks))
