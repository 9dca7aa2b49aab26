-- ===== src/Reconcile/Apply/Keeping.antt =====
-- Where an apply leads, stage by stage.
use compose_lock.Prelude.{refl, String, Bool, none, List, [], ◌∷◌, ℕ}
use compose_lock.Errors.{Try, ok, err, Err}
use compose_lock.State.{State}
use compose_lock.Health.{Snapshot, Outcome, unknown, healthy, unhealthy}
use compose_lock.Compose.{Stack, Project}
use compose_lock.Config.{Config}
use compose_lock.Git.Keeping.{Leads-checkout}
use compose_lock.World.{git, checkout, state_saved, World, Env, watched, pulled, pull, call}
use compose_lock.World.Rules.{
  Keeps, Leads, Keeps-pure, Keeps-if, Leads-bind, Leads-bind_option, Leads-after, Leads-pure,
  Leads-if, Leads-of, Leads-from,
}
use compose_lock.World.Keeping.{Looks, Keeps-bind_option, Keeps-read_clock, Keeps-is_cancelled}
use compose_lock.World.Acting.{Acts, Leads-read_st}
use compose_lock.Reconcile.{Result}
use compose_lock.Reconcile.Stacks.{stack_names}
use compose_lock.Reconcile.Abort.{abort_apply, apply_incomplete, fail_and_revert}
use compose_lock.Reconcile.Change.{Lasts, begun}
use compose_lock.Reconcile.Live.Keeping.{Keeps-stacks_allowing_empty, Keeps-filter_changed}
use compose_lock.Reconcile.Projects.{
  Loaded, loaded, load_failed, env_failed, Raised, raised, up_failed,
}
use compose_lock.Reconcile.Projects.Keeping.{
  Works, Raises, is_up, Keeps-load_all, Keeps-up_all, Keeps-tear_down_stacks,
}
use compose_lock.Reconcile.Saving.Keeping.{Leads-commit_state}
use compose_lock.Reconcile.Saving.{promote_healthy}
use compose_lock.Reconcile.Revert.{do_revert}
use compose_lock.Reconcile.Watching.{Watched}
use compose_lock.Reconcile.Watching.Keeping.{Keeps-watch_stacks}
use compose_lock.Reconcile.Abort.Keeping.{
  Keeps-abort_before_up, Keeps-abort_apply, Keeps-apply_incomplete, Keeps-apply_interrupted,
  Keeps-fail_and_revert,
}
use compose_lock.Reconcile.Apply.{
  pending_state, Plan, pull_all, finish_apply, watched_apply, judge_apply, watch_apply, raise_apply,
  pull_apply, apply_nothing, apply_listed, apply_changed, stacks_touched, choose_stacks, apply_at,
  apply_and_watch,
}

-- The stages of an apply: `P` before it and after its end, `A c` while `c` is checked out, `U c` once
-- `c` is pending on disk, too, and `R` after a promotion.
pub record Stages {ℓ} (Q : State → Type ℓ) (P : World → Type ℓ) (A U : String → World → Type ℓ)
    (R : World → Type ℓ) : Type ℓ where
  pub acts : Acts Q P
  pub lasts : Lasts Q
  pub looks : (c : String) → Looks (A c)
  pub works : (c : String) → Works (A c)
  pub moved :
      (c : String) (w : World)
      → P w
      → A c (record w { tree = c; history = git (checkout c) ∷ w.history })
  pub left : (c : String) (w : World) → A c w → P w
  pub begun :
      (c : String) (s : State) (at : ℕ) (names : List String) (w : World)
      → Q s
      → A c w
      → U c (record w {
        disk = pending_state s at c names;
        st = pending_state s at c names;
        history = state_saved (pending_state s at c names) ∷ w.history;
      })
  pub raises : (c : String) → Raises (U c)
  pub raised_all : (c : String) (w : World) → U c w → P w
  pub tears : Works P
  pub promotes :
      (env : Env) (commit : String) (stacks : List String)
      → Leads P (promote_healthy env commit stacks) R
  pub stop : (w : World) → P w → R w

module _ {ℓ} {P : World → Type ℓ} (env : Env) (cfg : Config) (k : Works P) where
  Keeps-pull : (p : Project) → Keeps P (pull env p)
  unfolding pull call is_up
  Keeps-pull p = record { at = λ w q. k.event (pulled p.name) w refl q }

  Keeps-pull_all : (ps : List (Stack × Project)) → Keeps P (pull_all env cfg ps)
  unfolding pull_all
  Keeps-pull_all [] = Keeps-pure none
  Keeps-pull_all ((s, p) ∷ rest) =
      Keeps-bind_option _ _ (Keeps-pull p) (Keeps-pull_all rest) (λ e. Keeps-pure _)

module _ {ℓ} {Q : State → Type ℓ} {P R : World → Type ℓ} {A U : String → World → Type ℓ} (env : Env)
    (cfg : Config) (g : Stages Q P A U R)
    (back : (ss : List Stack) (failed reason : String)
      → Keeps P (do_revert env cfg ss failed reason)) where
  Leads-incomplete :
      (r : Result) (title key : String) (e : Err)
      → Leads P (apply_incomplete env cfg r title key e) R
  Leads-incomplete r title key e =
      Leads-of g.stop _ (Keeps-apply_incomplete env cfg g.acts g.lasts r title key e)

  Leads-fail :
      (ss : List Stack) (r : Result) (why : String) → Leads P (fail_and_revert env cfg ss r why) R
  Leads-fail ss r why =
      Leads-of g.stop _ (Keeps-fail_and_revert env cfg g.acts g.lasts back ss r why)

  Leads-abort :
      (c : String) (r : Result) (title : String) (e : Err)
      → Leads (A c) (abort_apply env cfg r title e) R
  Leads-abort c r title e =
      Leads-from (g.left c) _
        (Leads-of g.stop _ (Keeps-abort_apply env cfg g.acts g.lasts r title e))

  Leads-finish_apply :
      (r : Result) (plan : Plan) (changed : List Stack) (w : Watched)
      → Leads P (finish_apply env cfg r plan changed w) R
  unfolding finish_apply
  Leads-finish_apply r plan changed w =
      Leads-bind_option _ _ (Keeps-tear_down_stacks env g.tears plan.vanished)
        (Leads-after _ _ (g.promotes env r.new_commit _) (λ _. Keeps-pure _))
        (λ e. Leads-incomplete r _ _ e)

  Leads-watched_apply :
      (r : Result) (plan : Plan) (changed : List Stack) (w : Watched) (o : Outcome)
      → Leads P (watched_apply env cfg r plan changed w o) R
  unfolding watched_apply
  Leads-watched_apply r plan changed w healthy = Leads-finish_apply r plan changed w
  Leads-watched_apply r plan changed w unknown = Leads-fail changed r _
  Leads-watched_apply r plan changed w unhealthy = Leads-fail changed r _

  Leads-judge_apply :
      (r : Result) (plan : Plan) (changed : List Stack) (verdict : Try Watched)
      → Leads P (judge_apply env cfg r plan changed verdict) R
  unfolding judge_apply
  Leads-judge_apply r plan changed (err e) = Leads-incomplete r _ _ _
  Leads-judge_apply r plan changed (ok w) = Leads-watched_apply _ plan changed w w.outcome

  Leads-watch_apply :
      (r : Result) (plan : Plan) (changed : List Stack) (projects : List (Stack × Project))
      (o : Raised)
      → Leads P (watch_apply env cfg r plan changed projects o) R
  unfolding watch_apply is_up
  Leads-watch_apply r plan changed projects (up_failed s e) =
      Leads-bind _ _ (Keeps-is_cancelled env g.acts.saves.looks) (λ c.
        Leads-if c _ _ (Leads-pure g.stop _) (
          Leads-if _ _ _
            (Leads-of g.stop _ (Keeps-apply_interrupted env cfg g.acts g.lasts r s.project_name e))
            (Leads-fail changed r _)))
  Leads-watch_apply r plan changed projects (raised services) =
      Leads-bind _ _
        (Keeps-watch_stacks env cfg (λ c o w q. g.tears.event (watched c o) w refl q) projects
          r.new_commit)
        (Leads-judge_apply _ plan changed)

  Leads-raise_apply :
      (r : Result) (plan : Plan) (changed : List Stack) (projects : List (Stack × Project))
      → Leads (A r.new_commit) (raise_apply env cfg r plan changed projects) R
  unfolding raise_apply
  Leads-raise_apply r plan changed projects =
      Leads-bind _ _ (Keeps-read_clock env (g.looks r.new_commit)) (λ now.
        Leads-read_st (g.left r.new_commit) g.acts.saves.memory _ (λ s q.
          Leads-commit_state env g.acts.saves (g.left r.new_commit)
            (pending_state s now r.new_commit (stack_names changed))
            (g.lasts.change (begun now r.new_commit (stack_names changed)) q) _
            (λ w a. g.begun r.new_commit s now (stack_names changed) w q a)
            (Leads-bind _ _ (Keeps-up_all env (g.raises r.new_commit).raise [] projects) (λ o.
              Leads-from (g.raised_all r.new_commit) _
                (Leads-watch_apply r plan changed projects o)))
            (λ e. Leads-of g.stop _ (Keeps-abort_before_up env cfg g.acts g.lasts r _ _))))

  Leads-pull_apply :
      (r : Result) (plan : Plan) (changed : List Stack) (o : Loaded)
      → Leads (A r.new_commit) (pull_apply env cfg r plan changed o) R
  unfolding pull_apply
  Leads-pull_apply r plan changed (load_failed s e) = Leads-abort _ r _ _
  Leads-pull_apply r plan changed (env_failed s e) = Leads-abort _ r _ _
  Leads-pull_apply r plan changed (loaded projects) =
      Leads-bind_option _ _ (Keeps-pull_all env cfg (g.works r.new_commit) projects)
        (Leads-raise_apply r plan changed projects) (λ (s, e). Leads-abort _ r _ _)

  Leads-apply_nothing :
      (r : Result) (plan : Plan) (undetermined : Bool)
      → Leads P (apply_nothing env cfg r plan undetermined) R
  unfolding apply_nothing
  Leads-apply_nothing r plan undetermined =
      Leads-bind_option _ _ (Keeps-tear_down_stacks env g.tears plan.vanished)
        (Leads-if undetermined _ _ (Leads-pure g.stop _)
          (Leads-after _ _ (g.promotes env r.new_commit _) (λ _. Keeps-pure _)))
        (λ e. Leads-incomplete r _ _ e)

  Leads-apply_listed :
      (r : Result) (plan : Plan) (undetermined : Bool) (changed : List Stack)
      → Leads (A r.new_commit) (apply_listed env cfg r plan undetermined changed) R
  unfolding apply_listed
  Leads-apply_listed r plan undetermined [] =
      Leads-from (g.left r.new_commit) _ (Leads-apply_nothing r plan undetermined)
  Leads-apply_listed r plan undetermined (s ∷ ss) =
      Leads-bind _ _ (Keeps-load_all env (g.looks r.new_commit) (s ∷ ss))
        (Leads-pull_apply r plan (s ∷ ss))

  Keeps-stacks_touched :
      (c : String) (previous stacks : List Stack) (pending files : List String)
      → Keeps (A c) (stacks_touched env cfg previous stacks pending files)
  unfolding stacks_touched
  Keeps-stacks_touched c previous stacks pending [] = Keeps-pure _
  Keeps-stacks_touched c previous stacks pending (f ∷ fs) =
      Keeps-filter_changed env cfg (g.looks c) stacks previous (f ∷ fs)

  Keeps-choose_stacks :
      (c : String) (s : State) (r : Result) (previous stacks : List Stack) (pending : List String)
      → Keeps (A c) (choose_stacks env cfg s r previous stacks pending)
  unfolding choose_stacks
  Keeps-choose_stacks c s r previous stacks pending =
      Keeps-if _ _ _ (Keeps-pure _) (Keeps-stacks_touched c previous stacks pending r.changed_files)

  Leads-apply_at :
      (r : Result) (previous : List Stack) (pending : List String)
      (before : List (String × Snapshot)) (o : Try (List Stack))
      → Leads (A r.new_commit) (apply_at env cfg r previous pending before o) R
  unfolding apply_at apply_changed
  Leads-apply_at r previous pending before (err e) = Leads-abort _ r _ e
  Leads-apply_at r previous pending before (ok stacks) =
      Leads-read_st (g.left r.new_commit) g.acts.saves.memory _ (λ s q.
        Leads-bind _ _ (Keeps-choose_stacks r.new_commit s r previous stacks pending)
          (λ c. Leads-apply_listed r _ c.undetermined c.changed))

  pub Leads-apply_and_watch :
      (r : Result) (previous : List Stack) (pending : List String)
      (before : List (String × Snapshot))
      → Leads P (apply_and_watch env cfg r previous pending before) R
  unfolding apply_and_watch
  Leads-apply_and_watch r previous pending before =
      Leads-checkout env g.acts r.new_commit _ (g.moved r.new_commit)
        (Leads-bind _ _ (Keeps-stacks_allowing_empty env cfg (g.looks r.new_commit))
          (Leads-apply_at r previous pending before))
        (λ e. Leads-of g.stop _ (Keeps-abort_before_up env cfg g.acts g.lasts r _ e))
