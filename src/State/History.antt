-- ===== src/State/History.antt =====
-- The deployment history: what `Record` of state.go keeps of the runs.
use compose_lock.Prelude.{
  ℕ, ◌+◌, String, Bool, ◌&&◌, List, [], ◌∷◌, Option, none, some, ◌==◌, if◌then◌else◌,
}
use compose_lock.State.{State, Deployment, LastResult, same_result}

-- A deployment of this commit that ended so.
unfoldable pub is_of : String → LastResult → Deployment → Bool
is_of commit result d = d.commit == commit && same_result d.result result

-- The number of runs of a commit with a result that the entries stand for: an entry with `n` repeats
-- stands for n + 1.
unfoldable pub runs : String → LastResult → List Deployment → ℕ
unfolding is_of
runs commit result [] = 0
runs commit result (d ∷ ds) =
    let rest = runs commit result ds in if is_of commit result d then d.repeats + 1 + rest else rest

pub newest : List Deployment → Option Deployment
newest [] = none
newest (d ∷ []) = some d
newest (d ∷ e ∷ es) = newest (e ∷ es)
