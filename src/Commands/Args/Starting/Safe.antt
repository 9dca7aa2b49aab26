-- ===== src/Commands/Args/Starting/Safe.antt =====
-- What the flags and the set-up make sure of before a command runs.
use compose_lock.Prelude.{◌≡◌, Bool, true, none, if◌then◌else◌}
use compose_lock.Commands.Args.{CliFlags}
use compose_lock.Commands.Args.Safe.{may_write, Allowed}
use compose_lock.Commands.Args.Starting.{
  Found, Lock, exclusive, shared, Start, prints, inits, fails, runs,
}

-- The set-up went well, and the lock is the command's alone, with a state file that can be written,
-- exactly where the command may write.
pub record IsSetUp (found : Found) (writes : Bool) (lock : Lock) : Type 0 where
  pub configured : found.config ≡ none
  pub served : found.services ≡ none
  pub loaded : found.state ≡ none
  pub locked : lock ≡ (if writes then exclusive else shared)
  pub can_write : writes ≡ true → found.writable ≡ none

unfoldable pub IsSafe : Found → CliFlags → Start → Type 0
IsSafe found f prints = Unit
IsSafe found f inits = Unit
IsSafe found f (fails e) = Unit
IsSafe found f (runs lock task) = Allowed f task × IsSetUp found (may_write task) lock
