-- ===== src/Reconcile/Change/Pause.antt =====
-- No change of a state touches what `Pause` and `Resume` set, nor the schema.
use compose_lock.Prelude.{ℕ, List, String, ◌≡◌, arith}
use compose_lock.State.{State, mark_failed, forget_all_failed, record_deployment}
use compose_lock.Reconcile.Saving.{promoted}
use compose_lock.Reconcile.Revert.{degraded_state, interrupted_state, reverted_state}
use compose_lock.Reconcile.Apply.{pending_state}
use compose_lock.Reconcile.Change.{
  Change, attempted, checked_out, unblocked, blocked, counted, given_up, interrupted, went_back,
  begun, blamed, apply_failed, target_checked_out, forced, entered,
}

-- `t` is paused as `s` is, and of the same schema.
pub record IsPausedAs (s t : State) : Type 0 where
  pub same_at : t.paused_at ≡ s.paused_at
  pub same_until : t.paused_until ≡ s.paused_until
  pub same_reason : t.pause_reason ≡ s.pause_reason
  pub same_schema : t.schema ≡ s.schema

pub Change-IsPausedAs : (r : State) {s t : State} → Change s t → IsPausedAs r s → IsPausedAs r t
unfolding degraded_state interrupted_state reverted_state pending_state mark_failed
    record_deployment
Change-IsPausedAs r (attempted o at c) b = ground (arith, b)
Change-IsPausedAs r (checked_out at c) b = ground (arith, b)
Change-IsPausedAs r unblocked b = ground (arith, b)
Change-IsPausedAs r blocked b = ground (arith, b)
Change-IsPausedAs r counted b = ground (arith, b)
Change-IsPausedAs r (given_up at c) b = ground (arith, b)
Change-IsPausedAs r (interrupted at c ns) b = ground (arith, b)
Change-IsPausedAs r (went_back at c t) b = ground (arith, b)
Change-IsPausedAs r (begun at c ns) b = ground (arith, b)
Change-IsPausedAs r (blamed at c) b = ground (arith, b)
Change-IsPausedAs r apply_failed b = ground (arith, b)
Change-IsPausedAs r (target_checked_out t) b = ground (arith, b)
Change-IsPausedAs r (forced at) b = ground (arith, b)
Change-IsPausedAs r (entered d) b = ground (arith, b)

pub promoted-IsPausedAs :
    (r s : State) (at : ℕ) (commit : String) (stacks : List String)
    → IsPausedAs r s
    → IsPausedAs r (promoted s at commit stacks)
unfolding promoted forget_all_failed
promoted-IsPausedAs r s at commit stacks b = ground (arith, b)
