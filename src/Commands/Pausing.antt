-- ===== src/Commands/Pausing.antt =====
-- cmd/composelock/pause.go: the commands `pause` and `resume`, which change the state under the lock
-- that a reconcile holds. The note that a command waits is left out. A wait tries the lock at most as
-- often as its fuel; `none` is one that still waits.
pub mod Keeping
pub mod Waits
pub mod Holds
use compose_lock.Prelude.{
  ℕ, zero, suc, ◌+◌, String, ◌<>◌, Bool, true, false, Option, none, some, beq, ◌==◌, if◌then◌else◌,
}
use compose_lock.Prelude.Int.{ℤ, pos, negsuc}
use compose_lock.Errors.{Err, ext, canceled, wrap, Try, ok, err}
use compose_lock.State.{State, paused, pause, resume}
use compose_lock.World.{
  World, M, pure, call, ◌>>=◌, ◌>>◌, Env, load_state, save_state, read_clock, sleep_ctx, lock_tried,
  lock_released,
}
use compose_lock.Commands.{Exit}

unfoldable pub pause_description : (ℕ → String) → ℕ → String → String
pause_description show_time until reason =
    (if beq until 0 then "until resumed" else "until " <> show_time until)
    <> (if reason == "" then "" else " (" <> (reason <> ")"))

-- The end of a pause that lasts so long from `now` on, or none.
unfoldable pub pause_end : ℕ → ℤ → ℕ
pause_end now (pos zero) = 0
pause_end now (pos (suc n)) = now + suc n
pause_end now (negsuc n) = 0

failure : Err → Exit
failure e = record { code = 1; printed = ""; error = some e }

module _ (env : Env) where
  slept_on : M (Option (Option Err)) → Bool → M (Option (Option Err))
  slept_on again true = again
  slept_on again false =
      pure
        (some (some (wrap "gave up waiting for the state lock" (ext canceled "context canceled"))))

  tried : M (Option (Option Err)) → Try Bool → M (Option (Option Err))
  unfolding slept_on
  tried again (err e) = pure (some (some (wrap "acquiring state lock" e)))
  tried again (ok true) = pure (some none)
  tried again (ok false) = do awake ← sleep_ctx env; slept_on again awake

  unfoldable pub wait_for_lock : ℕ → M (Option (Option Err))
  unfolding tried
  wait_for_lock zero = pure none
  wait_for_lock (suc fuel) = do
    held ← call lock_tried (λ w. env.try_lock w.history)
    tried (wait_for_lock fuel) held

  module _ {A : Type 0} (change : State → M (A × State)) where
    outcome : A → Option Err → Try A
    outcome a none = ok a
    outcome a (some e) = err (wrap "saving state" e)

    changed : Try State → M (Try A)
    unfolding outcome
    changed (err e) = pure (err (wrap "reading state" e))
    changed (ok s) = do (a, next) ← change s; failed ← save_state env next; pure (outcome a failed)

    after_wait : Option (Option Err) → M (Option (Try A))
    unfolding changed
    after_wait none = pure none
    after_wait (some (some e)) = pure (some (err e))
    after_wait (some none) = do
      loaded ← load_state env
      r ← changed loaded
      call lock_released (λ w. some r)

    unfoldable pub update_state : ℕ → M (Option (Try A))
    unfolding after_wait
    update_state fuel = do waited ← wait_for_lock fuel; after_wait waited

  unfoldable pub pausing : ℕ → ℕ → String → State → M (Unit {0} × State)
  pausing now until reason s = pure (tt, pause s now until reason)

  ended_pause : (ℕ → String) → ℕ → String → Option (Try (Unit {0})) → Option Exit
  unfolding failure
  ended_pause show_time until reason none = none
  ended_pause show_time until reason (some (err e)) = some (failure e)
  ended_pause show_time until reason (some (ok _)) = some (record {
    code = 0;
    printed = "deployments paused " <> pause_description show_time until reason;
    error = none;
  })

  unfoldable pub cmd_pause : (ℕ → String) → ℕ → ℤ → String → M (Option Exit)
  unfolding pausing ended_pause
  cmd_pause show_time fuel pause_for reason = do
    now ← read_clock env
    let until = pause_end now pause_for
    r ← update_state (pausing now until reason) fuel
    pure (ended_pause show_time until reason r)

  -- Whether the state was paused.
  resuming : State → M (Bool × State)
  resuming s = do now ← read_clock env; pure (paused s now, resume s)

  ended_resume : Option (Try Bool) → Option Exit
  unfolding failure
  ended_resume none = none
  ended_resume (some (err e)) = some (failure e)
  ended_resume (some (ok false)) =
      some (record { code = 0; printed = "deployments were not paused"; error = none })
  ended_resume (some (ok true)) =
      some (record { code = 0; printed = "deployments resumed"; error = none })

  unfoldable pub cmd_resume : ℕ → M (Option Exit)
  unfolding resuming ended_resume
  cmd_resume fuel = do r ← update_state resuming fuel; pure (ended_resume r)
