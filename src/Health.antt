-- ===== src/Health.antt =====
-- internal/health/health.go: the verdict on one snapshot of a project's containers. The watch over
-- time is in Health/Watch. A container's state and health are the strings that Docker reports;
-- counts and exit codes are numbers that are not negative.
pub mod Verdict
pub mod Snapshots
pub mod Changes
pub mod Watch
use compose_lock.Prelude.{
  ℕ, String, ◌<>◌, Bool, true, false, not, ◌&&◌, ◌||◌, List, [], ◌∷◌, beq, ◌==◌, if◌then◌else◌,
}

pub record ContainerStatus : Type 0 where
  pub id : String
  pub service : String
  pub state : String
  pub health : String
  pub restart_count : ℕ
  pub exit_code : ℕ

unfoldable pub completed : ContainerStatus → Bool
completed c = c.state == "exited" && beq c.exit_code 0

-- `Snapshot`; the time at which it was taken is used by nothing that is modelled.
pub record Snapshot : Type 0 where
  pub containers : List ContainerStatus

pub data Outcome : Type 0 where
  unknown healthy unhealthy : Outcome

-- A verdict and its reason; the reason is empty where the verdict is good.
pub record Evaluation : Type 0 where
  pub is_healthy : Bool
  pub reason : String

abbrev pub passed : Evaluation
passed = record { is_healthy = true; reason = "" }

abbrev pub failed : String → Evaluation
failed reason = record { is_healthy = false; reason = reason }

-- A healthcheck that is absent, `none` or `healthy`.
abbrev pub probe_passes : ContainerStatus → Bool
probe_passes c = c.health == "" || c.health == "none" || c.health == "healthy"

evaluate_from : List ContainerStatus → Bool → Bool → Evaluation
evaluate_from [] tolerate_starting tolerate_restarting = passed
evaluate_from (c ∷ cs) tolerate_starting tolerate_restarting =
    let rest = evaluate_from cs tolerate_starting tolerate_restarting in
    if completed c
    then rest
    else if tolerate_restarting && c.state == "restarting"
    then rest
    else if not (c.state == "running")
    then failed ("not running: " <> (c.service <> (" (state=" <> (c.state <> ")"))))
    else if tolerate_starting && c.health == "starting"
    then rest
    else if not (probe_passes c)
    then failed ("not healthy: " <> (c.service <> (" (health=" <> (c.health <> ")"))))
    else rest

-- The private `evaluate` of the package.
unfoldable pub evaluate : Snapshot → Bool → Bool → Evaluation
unfolding evaluate_from
evaluate snap tolerate_starting tolerate_restarting =
    evaluate_from snap.containers tolerate_starting tolerate_restarting

-- The exported `Evaluate`.
unfoldable pub evaluate_live : Snapshot → Evaluation
evaluate_live snap = evaluate snap false false

unfoldable pub evaluate_preflight : Snapshot → Evaluation
evaluate_preflight snap = evaluate snap true true
