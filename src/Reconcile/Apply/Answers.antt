-- ===== src/Reconcile/Apply/Answers.antt =====
-- What an apply answers.
use compose_lock.Prelude.{arith, String, Bool, true, Option, none, some, List, [], ◌∷◌}
use compose_lock.Errors.{Err, Try, ok, err}
use compose_lock.Health.{Snapshot, Outcome, unknown, healthy, unhealthy}
use compose_lock.Compose.{Stack, Project}
use compose_lock.Config.{Config}
use compose_lock.World.{Env}
use compose_lock.World.Yields.{Yields, Yields-bind, Yields-bind_option, Yields-pure, Yields-if}
use compose_lock.Reconcile.{Result}
use compose_lock.Reconcile.Answers.{
  IsConsistent, IsOpen, IsFresh, IsOpen-IsConsistent, IsFresh-IsConsistent,
}
use compose_lock.Reconcile.Abort.Answers.{
  Yields-abort_before_up, Yields-abort_apply, Yields-apply_incomplete, Yields-apply_interrupted,
  Yields-fail_and_revert,
}
use compose_lock.Reconcile.Projects.{
  Loaded, loaded, load_failed, env_failed, Raised, raised, up_failed,
}
use compose_lock.Reconcile.Watching.{Watched}
use compose_lock.Reconcile.Apply.{
  Plan, with_error, success_result, finish_apply, watched_apply, judge_apply, watch_apply,
  raise_apply, pull_apply, apply_nothing, apply_listed, apply_changed, apply_at, apply_and_watch,
}

with_error-IsConsistent :
    (r : Result) (o : Option Err) → IsConsistent r → IsConsistent (with_error r o)
unfolding with_error
with_error-IsConsistent r none h = h
with_error-IsConsistent r (some e) h = ground (arith, h)

module _ (env : Env) (cfg : Config) where
  finished : Result → Plan → List Stack → Watched → Option Err → Result
  finished r plan changed w o = elim o [
    | some e ↦ record r { error = some e }
    | none ↦ success_result env cfg r plan changed w
  ]

  finished-IsConsistent :
      (r : Result) (plan : Plan) (changed : List Stack) (w : Watched) (o : Option Err)
      → IsOpen r
      → IsConsistent (finished r plan changed w o)
  unfolding finished success_result
  finished-IsConsistent r plan changed w none h = ground (arith, h)
  finished-IsConsistent r plan changed w (some e) h = ground (arith, h)

  Yields-finish_apply :
      (r : Result) (plan : Plan) (changed : List Stack) (w : Watched)
      → IsOpen r
      → Yields IsConsistent (finish_apply env cfg r plan changed w)
  unfolding finish_apply finished
  Yields-finish_apply r plan changed w h =
      Yields-bind_option _ _
        (Yields-bind _ _ (λ o. Yields-pure _ (finished-IsConsistent r plan changed w o h)))
        (λ e. Yields-apply_incomplete env cfg r _ _ e (IsOpen-IsConsistent r h))

  Yields-watched_apply :
      (r : Result) (plan : Plan) (changed : List Stack) (w : Watched) (o : Outcome)
      → IsOpen r
      → Yields IsConsistent (watched_apply env cfg r plan changed w o)
  unfolding watched_apply
  Yields-watched_apply r plan changed w healthy h = Yields-finish_apply r plan changed w h
  Yields-watched_apply r plan changed w unknown h = Yields-fail_and_revert env cfg changed r _ h
  Yields-watched_apply r plan changed w unhealthy h = Yields-fail_and_revert env cfg changed r _ h

  Yields-judge_apply :
      (r : Result) (plan : Plan) (changed : List Stack) (verdict : Try Watched)
      → IsOpen r
      → Yields IsConsistent (judge_apply env cfg r plan changed verdict)
  unfolding judge_apply
  Yields-judge_apply r plan changed (err e) h =
      Yields-apply_incomplete env cfg r _ _ _ (IsOpen-IsConsistent r h)
  Yields-judge_apply r plan changed (ok w) h =
      Yields-watched_apply _ plan changed w w.outcome (ground (arith, h))

  Yields-watch_apply :
      (r : Result) (plan : Plan) (changed : List Stack) (projects : List (Stack × Project))
      (o : Raised)
      → IsFresh r
      → Yields IsConsistent (watch_apply env cfg r plan changed projects o)
  unfolding watch_apply
  Yields-watch_apply r plan changed projects (up_failed s e) h = Yields-bind _ _ (λ c.
      Yields-if c _ _ (Yields-pure _ (ground (arith, h))) (
        Yields-if _ _ _
          (Yields-apply_interrupted env cfg r s.project_name e (IsFresh-IsConsistent r h))
          (Yields-fail_and_revert env cfg changed r _ (ground (arith, h)))))
  Yields-watch_apply r plan changed projects (raised services) h =
      Yields-bind _ _ (λ v. Yields-judge_apply _ plan changed v (ground (arith, h)))

  Yields-raise_apply :
      (r : Result) (plan : Plan) (changed : List Stack) (projects : List (Stack × Project))
      → IsFresh r
      → Yields IsConsistent (raise_apply env cfg r plan changed projects)
  unfolding raise_apply
  Yields-raise_apply r plan changed projects h = Yields-bind _ _ (λ now. Yields-bind _ _ (λ s.
      Yields-bind_option _ _ (Yields-bind _ _ (λ o. Yields-watch_apply r plan changed projects o h))
        (λ e. Yields-abort_before_up env cfg r _ _ (IsFresh-IsConsistent r h))))

  Yields-pull_apply :
      (r : Result) (plan : Plan) (changed : List Stack) (o : Loaded)
      → IsFresh r
      → Yields IsConsistent (pull_apply env cfg r plan changed o)
  unfolding pull_apply
  Yields-pull_apply r plan changed (load_failed s e) h =
      Yields-abort_apply env cfg r _ _ (IsFresh-IsConsistent r h)
  Yields-pull_apply r plan changed (env_failed s e) h =
      Yields-abort_apply env cfg r _ _ (IsFresh-IsConsistent r h)
  Yields-pull_apply r plan changed (loaded projects) h =
      Yields-bind_option _ _ (Yields-raise_apply r plan changed projects h)
        (λ (s, e). Yields-abort_apply env cfg r _ _ (IsFresh-IsConsistent r h))

  Yields-apply_nothing :
      (r : Result) (plan : Plan) (undetermined : Bool)
      → IsFresh r
      → Yields IsConsistent (apply_nothing env cfg r plan undetermined)
  unfolding apply_nothing
  Yields-apply_nothing r plan undetermined h =
      Yields-bind_option _ _
        (Yields-if undetermined _ _ (Yields-pure _ (ground (arith, h))) (
          Yields-bind _ _ (λ o.
            Yields-pure _
              (with_error-IsConsistent (record r { skipped = true }) o (ground (arith, h))))))
        (λ e. Yields-apply_incomplete env cfg r _ _ e (IsFresh-IsConsistent r h))

  Yields-apply_listed :
      (r : Result) (plan : Plan) (undetermined : Bool) (changed : List Stack)
      → IsFresh r
      → Yields IsConsistent (apply_listed env cfg r plan undetermined changed)
  unfolding apply_listed
  Yields-apply_listed r plan undetermined [] h = Yields-apply_nothing r plan undetermined h
  Yields-apply_listed r plan undetermined (s ∷ ss) h =
      Yields-bind _ _ (λ o. Yields-pull_apply r plan (s ∷ ss) o h)

  Yields-apply_at :
      (r : Result) (previous : List Stack) (pending : List String)
      (before : List (String × Snapshot)) (o : Try (List Stack))
      → IsFresh r
      → Yields IsConsistent (apply_at env cfg r previous pending before o)
  unfolding apply_at apply_changed
  Yields-apply_at r previous pending before (err e) h =
      Yields-abort_apply env cfg r _ e (IsFresh-IsConsistent r h)
  Yields-apply_at r previous pending before (ok stacks) h =
      Yields-bind _ _
        (λ s. Yields-bind _ _ (λ c. Yields-apply_listed r _ c.undetermined c.changed h))

  pub Yields-apply_and_watch :
      (r : Result) (previous : List Stack) (pending : List String)
      (before : List (String × Snapshot))
      → IsFresh r
      → Yields IsConsistent (apply_and_watch env cfg r previous pending before)
  unfolding apply_and_watch
  Yields-apply_and_watch r previous pending before h =
      Yields-bind_option _ _ (Yields-bind _ _ (λ o. Yields-apply_at r previous pending before o h))
        (λ e. Yields-abort_before_up env cfg r _ e (IsFresh-IsConsistent r h))
