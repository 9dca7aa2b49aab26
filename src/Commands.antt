-- ===== src/Commands.antt =====
-- The commands of cmd/composelock.
pub mod Pausing
pub mod Args
pub mod Polling
pub mod Session
pub mod Showing
pub mod Status
use compose_lock.Prelude.{ℕ, Bool, Option, none, some, String, if◌then◌else◌}
use compose_lock.Errors.{Err}
use compose_lock.Reconcile.{Result}

-- How a command ends: its exit code, what it prints, and the error that goes to stderr.
pub record Exit : Type 0 where
  pub code : ℕ
  pub printed : String
  pub error : Option Err

unfoldable pub exit_code : Result → ℕ
exit_code r = if r.degraded then 3 else elim r.error [ some e ↦ 1 | none ↦ 0 ]
