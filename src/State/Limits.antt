-- ===== src/State/Limits.antt =====
-- What bounds the state file: at most sixteen failed commits, none twice, and twenty deployments.
use compose_lock.Prelude.{
  ℕ, ◌≤◌, String, [], ◌∷◌, ◌++◌, arith, contains-delete_self, delete, length-last_n, length,
  IsDistinct,
}
use compose_lock.State.{
  State, Deployment, max_failed_commits, max_history, new, mark_failed, forget_failed,
  record_deployment, append_entry,
}
use compose_lock.State.Failed.{
  length-delete, IsDistinct-delete, IsDistinct-append_one, IsDistinct-last_n,
}

pub record IsBounded (s : State) : Type 0 where
  pub failed_capped : length s.failed_commits ≤ max_failed_commits
  pub failed_distinct : IsDistinct s.failed_commits
  pub history_capped : length s.history ≤ max_history

pub new-IsBounded : IsBounded new
unfolding new
new-IsBounded = omega arith

-- Marking a commit as failed keeps the state bounded: at most sixteen failed commits, none twice.
pub mark_failed-IsBounded :
    (s : State) (commit : String) (at : ℕ) → IsBounded s → IsBounded (mark_failed s commit at)
unfolding mark_failed
mark_failed-IsBounded s commit at h = ground (
  arith,
  length-last_n max_failed_commits (delete commit s.failed_commits ++ commit ∷ []),
  IsDistinct-last_n max_failed_commits (delete commit s.failed_commits ++ commit ∷ []) (
      IsDistinct-append_one (delete commit s.failed_commits) commit
        (contains-delete_self commit s.failed_commits)
        (IsDistinct-delete commit s.failed_commits h.failed_distinct)),
)

pub forget_failed-IsBounded :
    (s : State) (commit : String) → IsBounded s → IsBounded (forget_failed s commit)
unfolding forget_failed
forget_failed-IsBounded s commit h = ground (
  arith,
  length-delete commit s.failed_commits,
  IsDistinct-delete commit s.failed_commits h.failed_distinct,
)

-- Recording a deployment keeps the state bounded: at most twenty entries of history.
pub record_deployment-IsBounded :
    (s : State) (d : Deployment) → IsBounded s → IsBounded (record_deployment s d)
unfolding record_deployment
record_deployment-IsBounded s d h =
    ground (arith, length-last_n max_history (append_entry s.history d))
