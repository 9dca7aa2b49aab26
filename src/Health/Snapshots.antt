-- ===== src/Health/Snapshots.antt =====
-- internal/health/snapshotter.go: the containers of a project. What Docker lists and inspects is a
-- parameter. The inspections run at once in the source, where the error that comes first in time is
-- returned; here it is the first in the order of the list.
use compose_lock.Prelude.{ℕ, String, ◌<>◌, Bool, Option, none, some, List, [], ◌∷◌, if◌then◌else◌}
use compose_lock.Errors.{Err, wrap, Try, ok, err}
use compose_lock.Health.{ContainerStatus, Snapshot}

-- `api.ContainerSummary`, as far as it is read.
pub record Summary : Type 0 where
  pub id : String
  pub service : String
  pub state : String
  pub health : String
  pub exit_code : ℕ

-- `restart_count` is that of `ContainerInspect`, `is_not_found` is `isNotFound`.
module _ (restart_count : String → Try ℕ) (is_not_found : Err → Bool) where
  status_of : Summary → Try ℕ → Try (Option ContainerStatus)
  status_of s (err e) =
      if is_not_found e then ok none else err (wrap ("inspecting container " <> s.id) e)
  status_of s (ok count) = ok (
      some (record {
        id = s.id;
        service = s.service;
        state = s.state;
        health = s.health;
        restart_count = count;
        exit_code = s.exit_code;
      }))

  -- A container that has vanished since it was listed is left out.
  add_status :
      Try (Option ContainerStatus) → Try (List ContainerStatus) → Try (List ContainerStatus)
  add_status (err e) rest = err e
  add_status (ok found) (err e) = err e
  add_status (ok none) (ok rest) = ok rest
  add_status (ok (some c)) (ok rest) = ok (c ∷ rest)

  statuses : List Summary → Try (List ContainerStatus)
  unfolding status_of add_status
  statuses [] = ok []
  statuses (s ∷ ss) = add_status (status_of s (restart_count s.id)) (statuses ss)

  snapshot_of : Try (List ContainerStatus) → Try Snapshot
  snapshot_of (err e) = err e
  snapshot_of (ok cs) = ok (record { containers = cs })

  unfoldable pub build_snapshot : List Summary → Try Snapshot
  unfolding statuses snapshot_of
  build_snapshot summaries = snapshot_of (statuses summaries)

  -- `Snapshot`, of what `Ps` answers.
  unfoldable pub snapshot : Try (List Summary) → Try Snapshot
  snapshot (err e) = err (wrap "listing containers" e)
  snapshot (ok summaries) = build_snapshot summaries
