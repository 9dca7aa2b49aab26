-- ===== src/Reconcile/Revert/Keeping.antt =====
-- What a revert keeps.
use compose_lock.Prelude.{refl, ◌∷◌, String, List, []}
use compose_lock.Errors.{Err, Try, ok, err}
use compose_lock.State.{State}
use compose_lock.Health.{Outcome, unknown, healthy, unhealthy}
use compose_lock.Compose.{Stack, Project}
use compose_lock.Config.{Config}
use compose_lock.Git.Keeping.{Leads-checkout}
use compose_lock.World.{World, git, checkout, up, watched, Env}
use compose_lock.World.Rules.{Leads-of, Keeps, Keeps-bind, Keeps-pure, Keeps-if}
use compose_lock.World.Keeping.{
  Keeps-bind_option, Keeps-bind_try, Keeps-read_clock, Keeps-is_cancelled,
}
use compose_lock.World.Acting.{Saves, Acts, Leads-get_st, Keeps-get_st, Keeps-modify_st}
use compose_lock.Reconcile.Change.{Lasts, given_up, interrupted, went_back, target_checked_out}
use compose_lock.Reconcile.Live.Keeping.{Keeps-stacks_allowing_empty}
use compose_lock.Reconcile.Projects.{
  Loaded, loaded, load_failed, env_failed, Raised, raised, up_failed,
}
use compose_lock.Reconcile.Projects.Keeping.{
  Raises, is_up, Keeps-load_all, Keeps-up_all, Keeps-tear_down_stacks,
}
use compose_lock.Reconcile.Saving.Keeping.{Keeps-commit_state}
use compose_lock.Reconcile.Watching.{Watched}
use compose_lock.Reconcile.Watching.Keeping.{Keeps-watch_stacks}
use compose_lock.Reconcile.Revert.{
  degrade, revert_interrupted, revert_failed, finish_revert, watched_revert, judge_revert,
  watch_revert, raise_revert, revert_stacks, revert_to, do_revert,
}

module _ {ℓ} {Q : State → Type ℓ} {P : World → Type ℓ} (env : Env) (cfg : Config) (h : Saves Q P)
    (l : Lasts Q) where
  pub Keeps-degrade :
      (failed target : String) (stacks : List String) (e : Err)
      → Keeps P (degrade env cfg failed target stacks e)
  unfolding degrade
  Keeps-degrade failed target stacks e = Keeps-bind _ _ (Keeps-read_clock env h.looks) (λ now.
      Keeps-get_st env h _ (λ s q.
        Keeps-bind _ _ (Keeps-commit_state env h _ (l.change (given_up now failed) q))
          (λ _. Keeps-pure _)))

  Keeps-revert_interrupted :
      (failed target : String) (stacks : List Stack) (e : Err)
      → Keeps P (revert_interrupted env cfg failed target stacks e)
  unfolding revert_interrupted
  Keeps-revert_interrupted failed target stacks e =
      Keeps-bind _ _ (Keeps-read_clock env h.looks) (λ now. Keeps-get_st env h _ (λ s q.
        Keeps-bind _ _ (Keeps-commit_state env h _ (l.change (interrupted now failed _) q)) (λ _.
          Keeps-bind _ _ (Keeps-is_cancelled env h.looks)
            (λ c. Keeps-if c _ _ (Keeps-pure _) (Keeps-pure _)))))

  pub Keeps-revert_failed :
      (failed target : String) (stacks : List Stack) (e : Err)
      → Keeps P (revert_failed env cfg failed target stacks e)
  unfolding revert_failed
  Keeps-revert_failed failed target stacks e = Keeps-bind _ _ (Keeps-is_cancelled env h.looks) (λ c.
      Keeps-if _ _ _ (Keeps-revert_interrupted failed target stacks e)
        (Keeps-degrade failed target _ e))

  module _
      (raise : (name : String) (w : World)
        → P w
        → P (record w { history = up name w.tree w.disk ∷ w.history }))
      (seen : (c : String) (o : Outcome) (w : World)
        → P w
        → P (record w { history = watched c o ∷ w.history })) where
    Keeps-finish_revert :
        (failed target reason : String) (stacks : List Stack) (services : List String)
        → Keeps P (finish_revert env cfg failed target reason stacks services)
    unfolding finish_revert
    Keeps-finish_revert failed target reason stacks services = Keeps-get_st env h _ (λ s q.
        Keeps-bind _ _ (Keeps-read_clock env h.looks) (λ now.
          Keeps-bind_option _ _
            (Keeps-commit_state env h _ (l.change (went_back now failed target) q)) (Keeps-pure _)
            (λ e. Keeps-pure _)))

    Keeps-watched_revert :
        (failed target reason : String) (stacks : List Stack) (services : List String) (o : Outcome)
        (why : String)
        → Keeps P (watched_revert env cfg failed target reason stacks services o why)
    unfolding watched_revert
    Keeps-watched_revert failed target reason stacks services healthy why =
        Keeps-finish_revert failed target reason stacks services
    Keeps-watched_revert failed target reason stacks services unknown why =
        Keeps-degrade failed target _ _
    Keeps-watched_revert failed target reason stacks services unhealthy why =
        Keeps-degrade failed target _ _

    Keeps-judge_revert :
        (failed target reason : String) (stacks : List Stack) (services : List String)
        (verdict : Try Watched)
        → Keeps P (judge_revert env cfg failed target reason stacks services verdict)
    unfolding judge_revert
    Keeps-judge_revert failed target reason stacks services (err e) =
        Keeps-revert_interrupted failed target stacks _
    Keeps-judge_revert failed target reason stacks services (ok r) =
        Keeps-watched_revert failed target reason stacks services r.outcome r.reason

    Keeps-watch_revert :
        (failed target reason : String) (stacks : List Stack) (projects : List (Stack × Project))
        (o : Raised)
        → Keeps P (watch_revert env cfg failed target reason stacks projects o)
    unfolding watch_revert
    Keeps-watch_revert failed target reason stacks projects (up_failed s e) =
        Keeps-revert_failed failed target stacks _
    Keeps-watch_revert failed target reason stacks projects (raised services) =
        Keeps-bind _ _ (Keeps-watch_stacks env cfg seen projects target)
          (Keeps-judge_revert failed target reason stacks services)

    pub Keeps-raise_revert :
        (failed target reason : String) (stacks : List Stack) (o : Loaded)
        → Keeps P (raise_revert env cfg failed target reason stacks o)
    unfolding raise_revert
    Keeps-raise_revert failed target reason stacks (load_failed s e) =
        Keeps-revert_failed failed target stacks _
    Keeps-raise_revert failed target reason stacks (env_failed s e) =
        Keeps-revert_failed failed target stacks _
    Keeps-raise_revert failed target reason stacks (loaded projects) =
        Keeps-bind _ _ (Keeps-up_all env raise [] projects)
          (Keeps-watch_revert failed target reason stacks projects)

  module _ (k : Raises P) where
    Keeps-revert_stacks :
        (failed target reason : String) (stacks found : List Stack)
        → Keeps P (revert_stacks env cfg failed target reason stacks found)
    unfolding revert_stacks is_up
    Keeps-revert_stacks failed target reason stacks found =
        Keeps-bind_option _ _ (Keeps-tear_down_stacks env k.works _)
          (Keeps-bind _ _ (Keeps-load_all env h.looks _) (
            Keeps-raise_revert k.raise (λ c o w q. k.works.event (watched c o) w refl q) failed
              target reason _))
          (λ e. Keeps-revert_failed failed target stacks e)

-- A checkout of the last healthy commit leads from `P` to `P'`, which a revert keeps, and which is
-- not less than `P`.
pub record Returns {ℓ} (Q : State → Type ℓ) (P P' : World → Type ℓ) : Type ℓ where
  pub saves : Saves Q P'
  pub raises : Raises P'
  pub moved :
      (s : State) (w : World)
      → Q s
      → P w
      → P' (record w {
        tree = s.last_healthy_commit;
        history = git (checkout s.last_healthy_commit) ∷ w.history;
      })
  pub home : (w : World) → P' w → P w

module _ {ℓ} {Q : State → Type ℓ} {P P' : World → Type ℓ} (env : Env) (cfg : Config) (h : Acts Q P)
    (l : Lasts Q) (r : Returns Q P P') where
  Keeps-revert_to :
      (s : State) (failed reason : String) (stacks : List Stack)
      → Q s
      → Keeps P (revert_to env cfg failed s.last_healthy_commit reason stacks)
  unfolding revert_to
  Keeps-revert_to s failed reason stacks q =
      Leads-checkout env h s.last_healthy_commit _ (λ w p. r.moved s w q p)
        (Leads-of r.home _ (
          Keeps-bind _ _ (Keeps-modify_st env r.saves _ (λ s. l.change (target_checked_out _)))
            (λ _.
              Keeps-bind_try _ _ (Keeps-stacks_allowing_empty env cfg r.saves.looks)
                (λ e. Keeps-revert_failed env cfg r.saves l failed _ stacks _)
                (Keeps-revert_stacks env cfg r.saves l r.raises failed _ reason stacks))))
        (λ e. Keeps-revert_failed env cfg h.saves l failed _ stacks _)

  pub Keeps-do_revert :
      (stacks : List Stack) (failed reason : String)
      → Keeps P (do_revert env cfg stacks failed reason)
  unfolding do_revert
  Keeps-do_revert stacks failed reason = Leads-get_st env h.saves _ (λ s q.
      Keeps-if _ _ _ (Keeps-degrade env cfg h.saves l failed "" _ _)
        (Keeps-revert_to s failed reason stacks q))
