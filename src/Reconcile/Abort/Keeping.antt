-- ===== src/Reconcile/Abort/Keeping.antt =====
-- What the early ends of an apply keep.
use compose_lock.Prelude.{String, none, List}
use compose_lock.Errors.{Err}
use compose_lock.State.{State}
use compose_lock.Compose.{Stack}
use compose_lock.Config.{Config}
use compose_lock.Git.Keeping.{Keeps-checkout_commit}
use compose_lock.World.{World, Env}
use compose_lock.World.Rules.{Keeps, Keeps-bind, Keeps-pure, Keeps-if}
use compose_lock.World.Keeping.{Keeps-read_clock, Keeps-is_cancelled}
use compose_lock.World.Acting.{Acts, Keeps-get_st, Keeps-modify_st, Keeps-save_state}
use compose_lock.Reconcile.{Result}
use compose_lock.Reconcile.Change.{Lasts, blamed, apply_failed}
use compose_lock.Reconcile.Saving.Keeping.{Keeps-record_outcome}
use compose_lock.Reconcile.Revert.{do_revert}
use compose_lock.Reconcile.Abort.{
  restore_checkout, abort_before_up, mark_failed_now, abort_apply, apply_incomplete,
  apply_interrupted, fail_and_revert,
}

module _ {ℓ} {Q : State → Type ℓ} {P : World → Type ℓ} (env : Env) (cfg : Config) (h : Acts Q P)
    (l : Lasts Q) where
  Keeps-restore_checkout : (commit : String) → Keeps P (restore_checkout env cfg commit)
  unfolding restore_checkout
  Keeps-restore_checkout commit =
      Keeps-if _ _ _ (Keeps-pure none)
        (Keeps-bind _ _ (Keeps-checkout_commit env h commit) (λ o. Keeps-pure _))

  pub Keeps-abort_before_up :
      (r : Result) (title : String) (e : Err) → Keeps P (abort_before_up env cfg r title e)
  unfolding abort_before_up
  Keeps-abort_before_up r title e = Keeps-bind _ _ (Keeps-restore_checkout r.old_commit) (λ o.
      Keeps-bind _ _ (Keeps-is_cancelled env h.saves.looks) (λ c.
        Keeps-if c _ _ (Keeps-pure _)
          (Keeps-bind _ _ (Keeps-record_outcome env h.saves l _ r.new_commit) (λ _. Keeps-pure _))))

  Keeps-mark_failed_now : (commit : String) → Keeps P (mark_failed_now env cfg commit)
  unfolding mark_failed_now
  Keeps-mark_failed_now commit =
      Keeps-bind _ _ (Keeps-read_clock env h.saves.looks)
        (λ now. Keeps-modify_st env h.saves _ (λ s. l.change (blamed now commit)))

  pub Keeps-abort_apply :
      (r : Result) (title : String) (e : Err) → Keeps P (abort_apply env cfg r title e)
  unfolding abort_apply
  Keeps-abort_apply r title e =
      Keeps-if _ _ _ (Keeps-abort_before_up r title e)
        (Keeps-bind _ _ (Keeps-mark_failed_now r.new_commit) (λ _. Keeps-abort_before_up r title e))

  pub Keeps-apply_incomplete :
      (r : Result) (title key : String) (e : Err) → Keeps P (apply_incomplete env cfg r title key e)
  unfolding apply_incomplete
  Keeps-apply_incomplete r title key e = Keeps-bind _ _ (Keeps-is_cancelled env h.saves.looks) (λ c.
      Keeps-if c _ _ (Keeps-pure _)
        (Keeps-bind _ _ (Keeps-record_outcome env h.saves l _ r.new_commit) (λ _. Keeps-pure _)))

  pub Keeps-apply_interrupted :
      (r : Result) (name : String) (e : Err) → Keeps P (apply_interrupted env cfg r name e)
  unfolding apply_interrupted
  Keeps-apply_interrupted r name e =
      Keeps-bind _ _ (Keeps-record_outcome env h.saves l _ r.new_commit) (λ _. Keeps-pure _)

  pub Keeps-fail_and_revert :
      (back : (ss : List Stack) (failed reason : String)
        → Keeps P (do_revert env cfg ss failed reason))
      (stacks : List Stack) (r : Result) (reason : String)
      → Keeps P (fail_and_revert env cfg stacks r reason)
  unfolding fail_and_revert
  Keeps-fail_and_revert back stacks r reason =
      Keeps-bind _ _ (Keeps-mark_failed_now r.new_commit) (λ _.
        Keeps-bind _ _ (Keeps-modify_st env h.saves _ (λ s. l.change apply_failed)) (λ _.
          Keeps-get_st env h.saves _ (λ s q.
            Keeps-bind _ _ (Keeps-save_state env h.saves s q)
              (λ _. Keeps-bind _ _ (back stacks r.new_commit reason) (λ _. Keeps-pure _)))))
