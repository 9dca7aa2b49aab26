-- ===== src/Config.antt =====
-- internal/config/config.go: the fields of the configuration that the modelled code reads.
pub mod Window
pub mod Settings
use compose_lock.Prelude.{ℕ, String}
use compose_lock.Paths.{FilePath}

pub record Config : Type 0 where
  pub repo_path : FilePath
  pub remote : String
  pub branch : String
  pub compose_file : String
  pub compose_dir : String
  pub project_name : String
  pub state_file : String
  pub retry_attempts : ℕ
  pub deploy_window : String
  pub health_watch_seconds : ℕ
  pub health_poll_interval_seconds : ℕ
  pub health_unhealthy_streak : ℕ
  pub health_restart_tolerance : ℕ
