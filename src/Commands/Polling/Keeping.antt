-- ===== src/Commands/Polling/Keeping.antt =====
-- What the commands that reconcile keep of the state file.
use compose_lock.Prelude.{ℕ, zero, suc, Bool, true, false, Option, none, some}
use compose_lock.Prelude.Int.{ℤ, pos, ltz}
use compose_lock.State.{State}
use compose_lock.Config.{Config}
use compose_lock.World.{M, Env}
use compose_lock.World.Rules.{Keeps, Keeps-bind, Keeps-pure, Keeps-if}
use compose_lock.World.Keeping.{Keeps-is_cancelled, Keeps-sleep_ctx}
use compose_lock.Reconcile.{Options}
use compose_lock.Reconcile.Change.{Evolves}
use compose_lock.Reconcile.Run.{reconcile}
use compose_lock.Reconcile.Run.Reached.{Both, Both-acts, lasting_kept}
use compose_lock.Commands.Polling.{
  cmd_reconcile, next_tick, after_tick, poll_loop, cmd_poll, poll_options,
}

module _ {ℓ} {Q : State → Type ℓ} (env : Env) (cfg : Config) (l : Evolves Q) where
  Keeps-next_tick :
      (again : M (Option ℕ)) (awake : Bool)
      → Keeps (Both Q) again
      → Keeps (Both Q) (next_tick env cfg again awake)
  unfolding next_tick
  Keeps-next_tick again true k = k
  Keeps-next_tick again false k = Keeps-pure _

  Keeps-after_tick :
      (again : M (Option ℕ)) (stopped : Bool)
      → Keeps (Both Q) again
      → Keeps (Both Q) (after_tick env cfg again stopped)
  unfolding after_tick
  Keeps-after_tick again true k = Keeps-pure _
  Keeps-after_tick again false k =
      Keeps-bind _ _ (Keeps-sleep_ctx env (Both-acts Q).saves.looks)
        (λ awake. Keeps-next_tick again awake k)

  Keeps-reconcile : (opts : Options) → Keeps (Both Q) (reconcile env cfg opts)
  Keeps-reconcile opts = record { at = λ w b. lasting_kept l env cfg opts w b.on_disk b.in_memory }

  Keeps-poll_loop : (fuel : ℕ) → Keeps (Both Q) (poll_loop env cfg fuel)
  unfolding poll_loop
  Keeps-poll_loop zero = Keeps-pure none
  Keeps-poll_loop (suc fuel) = Keeps-bind _ _ (Keeps-reconcile poll_options) (λ r.
      Keeps-bind _ _ (Keeps-is_cancelled env (Both-acts Q).saves.looks)
        (λ stopped. Keeps-after_tick (poll_loop env cfg fuel) stopped (Keeps-poll_loop fuel)))

  pub Keeps-cmd_reconcile : (opts : Options) → Keeps (Both Q) (cmd_reconcile env cfg opts)
  unfolding cmd_reconcile
  Keeps-cmd_reconcile opts = Keeps-bind _ _ (Keeps-reconcile opts) (λ r. Keeps-pure _)

  pub Keeps-cmd_poll : (interval : ℤ) (fuel : ℕ) → Keeps (Both Q) (cmd_poll env cfg interval fuel)
  unfolding cmd_poll
  Keeps-cmd_poll interval fuel =
      Keeps-if (ltz (pos 0) interval) _ _ (Keeps-poll_loop fuel) (Keeps-pure (some 2))
