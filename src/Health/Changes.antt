-- ===== src/Health/Changes.antt =====
-- Which services an apply changed or restarted: `ChangedServices` and `RestartedServices` of
-- internal/health/health.go.
use compose_lock.Prelude.{
  ℕ, String, Bool, true, false, ◌&&◌, none, some, List, [], ◌∷◌, ◌++◌, ltb, ◌==◌, sort, compact,
  lookup, insert, keys, get_or, if◌then◌else◌,
}
use compose_lock.Health.{ContainerStatus, Snapshot}
use compose_lock.Health.Watch.{restarts_of, restart_delta}

same_names : List String → List String → Bool
same_names [] [] = true
same_names [] (b ∷ bs) = false
same_names (a ∷ as') [] = false
same_names (a ∷ as') (b ∷ bs) = a == b && same_names as' bs

ids_by_service : List ContainerStatus → List (String × List String) → List (String × List String)
ids_by_service [] m = m
ids_by_service (c ∷ cs) m =
    ids_by_service cs (insert c.service (get_or m c.service [] ++ c.id ∷ []) m)

-- `containerIDs`, at one service: its ids in order, none for a service that has no container.
ids_of : Snapshot → String → List String
unfolding ids_by_service
ids_of snap service = sort (get_or (ids_by_service snap.containers []) service [])

services_in : Snapshot → List String
unfolding ids_by_service
services_in snap = keys (ids_by_service snap.containers [])

changed_in : Snapshot → Snapshot → List String → List String
unfolding ids_of same_names
changed_in before after [] = []
changed_in before after (s ∷ ss) =
    let rest = changed_in before after ss in
    if same_names (ids_of after s) (ids_of before s) then rest else s ∷ rest

gone_in : Snapshot → List String → List String
unfolding ids_by_service
gone_in after [] = []
gone_in after (s ∷ ss) =
    let rest = gone_in after ss in
    elim (lookup s (ids_by_service after.containers [])) [ none ↦ s ∷ rest | some ids ↦ rest ]

unfoldable pub changed_services : Snapshot → Snapshot → List String
unfolding changed_in gone_in services_in
changed_services before after =
    sort (changed_in before after (services_in after) ++ gone_in after (services_in before))

restarted_in : List (String × ℕ) → List ContainerStatus → List String
restarted_in m [] = []
restarted_in m (c ∷ cs) =
    let rest = restarted_in m cs in if ltb 0 (restart_delta m c) then c.service ∷ rest else rest

unfoldable pub restarted_services : Snapshot → Snapshot → List String
unfolding restarted_in
restarted_services before after =
    compact (sort (restarted_in (restarts_of before.containers []) after.containers))
