-- ===== src/Reconcile/Change/Bounds.antt =====
-- Every change of a state keeps the bounds of internal/state/state.go.
use compose_lock.Prelude.{ℕ, List, String, arith}
use compose_lock.State.{State, mark_failed, forget_all_failed}
use compose_lock.State.Limits.{IsBounded, mark_failed-IsBounded, record_deployment-IsBounded}
use compose_lock.Reconcile.Saving.{promoted}
use compose_lock.Reconcile.Revert.{degraded_state, interrupted_state, reverted_state}
use compose_lock.Reconcile.Apply.{pending_state}
use compose_lock.Reconcile.Change.{
  Change, attempted, checked_out, unblocked, blocked, counted, given_up, interrupted, went_back,
  begun, blamed, apply_failed, target_checked_out, forced, entered,
}

pub Change-IsBounded : {s t : State} → Change s t → IsBounded s → IsBounded t
unfolding degraded_state interrupted_state reverted_state pending_state mark_failed
Change-IsBounded (attempted r at c) b = ground (arith, b)
Change-IsBounded (checked_out at c) b = ground (arith, b)
Change-IsBounded unblocked b = ground (arith, b)
Change-IsBounded blocked b = ground (arith, b)
Change-IsBounded counted b = ground (arith, b)
Change-IsBounded {s = s} (given_up at c) b = ground (arith, mark_failed-IsBounded s c at b)
Change-IsBounded {s = s} (interrupted at c ns) b = ground (arith, mark_failed-IsBounded s c at b)
Change-IsBounded (went_back at c t) b = ground (arith, b)
Change-IsBounded (begun at c ns) b = ground (arith, b)
Change-IsBounded (blamed at c) b = ground (arith, mark_failed-IsBounded _ c at b)
Change-IsBounded apply_failed b = ground (arith, b)
Change-IsBounded (target_checked_out t) b = ground (arith, b)
Change-IsBounded (forced at) b = ground (arith, b)
Change-IsBounded (entered d) b = ground (arith, record_deployment-IsBounded _ d b)

pub promoted-IsBounded :
    (s : State) (at : ℕ) (commit : String) (stacks : List String)
    → IsBounded s
    → IsBounded (promoted s at commit stacks)
unfolding promoted forget_all_failed
promoted-IsBounded s at commit stacks b = ground (arith, b)
