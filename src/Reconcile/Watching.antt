-- ===== src/Reconcile/Watching.antt =====
-- `watchStacks` of internal/reconcile/watch.go. The watches run at once and may end each other
-- early; what each of them reads is a feed of the environment, in which a cancelled watch is one
-- whose polls end. The loop over the outcomes, in the order of the stacks, is as in the source.
pub mod Keeping
use compose_lock.Prelude.{
  ℕ, ◌*◌, String, ◌<>◌, Bool, true, false, not, ◌&&◌, Option, none, some, List, [], ◌∷◌, ◌++◌, join,
  insert, if◌then◌else◌,
}
use compose_lock.Errors.{Err, wrap, Try, ok, err, is_canceled}
use compose_lock.Health.{Snapshot, Outcome, unknown, healthy, unhealthy}
use compose_lock.Health.Watch
use compose_lock.Health.Watch.{WatchResult, empty_snapshot}
use compose_lock.Compose.{Stack, Project}
use compose_lock.Config.{Config}
use compose_lock.World.{World, M, Env, watched}

-- A second in the unit of durations, which is the nanosecond.
abbrev pub second : ℕ
second = 1000000000

unfoldable pub health_options : Config → String → String → Bool → Watch.Options
health_options cfg project_name commit expect_containers = record {
  project_name = project_name;
  commit = commit;
  watch_duration = cfg.health_watch_seconds * second;
  poll_interval = cfg.health_poll_interval_seconds * second;
  unhealthy_streak_limit = cfg.health_unhealthy_streak;
  restart_tolerance = cfg.health_restart_tolerance;
  expect_containers = expect_containers;
}

expects_containers : Project → Bool
expects_containers p = elim p.services [ [] ↦ false | s ∷ ss ↦ true ]

-- What the loop over the outcomes has gathered: the combined verdict, the baselines by project, the
-- reasons, and the stacks whose watch another one's failure ended.
pub record Combined : Type 0 where
  pub outcome : Outcome
  pub failures : List String
  pub baselines : List (String × Snapshot)
  pub reasons : List String
  pub not_evaluated : List String

abbrev nothing_yet : Combined
nothing_yet = record {
  outcome = healthy;
  failures = [];
  baselines = [];
  reasons = [];
  not_evaluated = [];
}

prefixed : String → List String → List String
prefixed name [] = []
prefixed name (f ∷ fs) = (name <> (": " <> f)) ∷ prefixed name fs

add_result : String → WatchResult → Combined → Combined
unfolding prefixed
add_result name r c =
    let c' = record c { baselines = insert name r.baseline c.baselines } in
    elim r.outcome [
      | healthy ↦ c'
      | _ ↦ record c' {
        outcome = unhealthy;
        failures = c.failures ++ prefixed name r.failures;
        reasons = c.reasons ++ (name <> (": " <> r.reason)) ∷ [];
      }
    ]

combine : Bool → List (String × Try WatchResult) → Combined → Try Combined
unfolding add_result
combine cancelled [] c = ok c
combine cancelled ((name, ok r) ∷ rest) c = combine cancelled rest (add_result name r c)
combine cancelled ((name, err e) ∷ rest) c =
    let next = combine cancelled rest (record c { not_evaluated = c.not_evaluated ++ name ∷ [] }) in
    if not cancelled && is_canceled e then next else err (wrap ("stack " <> name) e)

early : List String → List String
early [] = []
early (n ∷ ns) = ("not evaluated, stopped early: " <> join ", " (n ∷ ns)) ∷ []

-- The verdict on all stacks and the baselines.
pub record Watched : Type 0 where
  pub outcome : Outcome
  pub reason : String
  pub failures : List String
  pub baselines : List (String × Snapshot)

combined_result : Combined → Watched
unfolding early
combined_result c = record {
  outcome = c.outcome;
  reason = join "; " (c.reasons ++ early c.not_evaluated);
  failures = c.failures;
  baselines = c.baselines;
}

verdict_of : Try Combined → Outcome
verdict_of (ok c) = c.outcome
verdict_of (err e) = unknown

to_watched : Try Combined → Try Watched
unfolding combined_result
to_watched (ok c) = ok (combined_result c)
to_watched (err e) = err e

module _ (env : Env) (cfg : Config) where
  outcome_of : World → String → Stack → Project → Try WatchResult
  unfolding health_options expects_containers
  outcome_of w commit s p =
      let feed = env.feed w.history s.project_name in
      Watch.watch (health_options cfg s.project_name commit (expects_containers p)) feed.first
        feed.start feed.polls

  outcomes_of : World → String → List (Stack × Project) → List (String × Try WatchResult)
  unfolding outcome_of
  outcomes_of w commit [] = []
  outcomes_of w commit ((s, p) ∷ rest) =
      (s.project_name, outcome_of w commit s p) ∷ outcomes_of w commit rest

  combined_in : World → String → List (Stack × Project) → Try Combined
  unfolding outcomes_of combine
  combined_in w commit stacks =
      combine (env.cancelled w.history) (outcomes_of w commit stacks) nothing_yet

  unfoldable pub watch_stacks : List (Stack × Project) → String → M (Try Watched)
  unfolding combined_in verdict_of to_watched
  watch_stacks [] commit w =
      (ok (record { outcome = healthy; reason = ""; failures = []; baselines = [] }), w)
  watch_stacks (s ∷ ss) commit w =
      let combined = combined_in w commit (s ∷ ss) in
      (to_watched combined, record w { history = watched commit (verdict_of combined) ∷ w.history })
