-- ===== src/Commands/Pausing/Keeping.antt =====
-- What a pause and a resume keep: every property of worlds that looks and saves keep, if it holds of a
-- state whose pause changes.
use compose_lock.Prelude.{ℕ, zero, suc, refl, String, Bool, true, false, Option, none, some}
use compose_lock.Prelude.Int.{ℤ}
use compose_lock.Errors.{Err, Try, ok, err}
use compose_lock.State.{State, pause, resume}
use compose_lock.World.{World, M, pure, call, ◌>>=◌, Env, lock_tried, lock_released}
use compose_lock.World.Rules.{Triple, Triple-bind, Keeps, Keeps-bind, Keeps-pure}
use compose_lock.World.Keeping.{is_look, Keeps-call, Keeps-read_clock, Keeps-sleep_ctx}
use compose_lock.World.Acting.{Saves, Leads-load_state, Keeps-save_state}
use compose_lock.Commands.Pausing.{
  outcome, slept_on, tried, wait_for_lock, changed, after_wait, update_state, pause_end, pausing,
  cmd_pause, resuming, cmd_resume,
}

-- A pause and a resume keep `Q`, whatever the time and the reason.
pub record Outlasts {ℓ} (Q : State → Type ℓ) : Type ℓ where
  pub pausing : (s : State) (at until : ℕ) (reason : String) → Q s → Q (pause s at until reason)
  pub resuming : (s : State) → Q s → Q (resume s)

module _ {ℓ} {Q : State → Type ℓ} {P : World → Type ℓ} (env : Env) (h : Saves Q P) where
  Keeps-slept_on :
      (again : M (Option (Option Err))) (awake : Bool)
      → Keeps P again
      → Keeps P (slept_on env again awake)
  unfolding slept_on
  Keeps-slept_on again true k = k
  Keeps-slept_on again false k = Keeps-pure _

  Keeps-tried :
      (again : M (Option (Option Err))) (held : Try Bool)
      → Keeps P again
      → Keeps P (tried env again held)
  unfolding tried
  Keeps-tried again (err e) k = Keeps-pure _
  Keeps-tried again (ok true) k = Keeps-pure _
  Keeps-tried again (ok false) k =
      Keeps-bind _ _ (Keeps-sleep_ctx env h.looks) (λ awake. Keeps-slept_on again awake k)

  Keeps-wait_for_lock : (fuel : ℕ) → Keeps P (wait_for_lock env fuel)
  unfolding wait_for_lock is_look
  Keeps-wait_for_lock zero = Keeps-pure none
  Keeps-wait_for_lock (suc fuel) =
      Keeps-bind _ _ (Keeps-call env h.looks lock_tried _ refl)
        (λ held. Keeps-tried (wait_for_lock env fuel) held (Keeps-wait_for_lock fuel))

  -- A change of the state that keeps `Q`, and the world as it is.
  record Steady {A : Type 0} (change : State → M (A × State)) : Type ℓ where
    keeps : (s : State) → Q s → Triple P (change s) (λ r w. P w × Q r.1)

  module _ {A : Type 0} (change : State → M (A × State)) (steady : Steady change) where
    Keeps-changed : (s : State) → Q s → Keeps P (changed env change (ok s))
    unfolding changed
    Keeps-changed s q = Triple-bind (change s) _ (steady.keeps s q) (λ r. record {
      at = λ w p.
          (Keeps-bind _ _ (Keeps-save_state env h r.1 p.1)
              (λ failed. Keeps-pure (outcome env change r.0 failed))).at
            w p.0;
    })

    Keeps-unread : (e : Err) → Keeps P (changed env change (err e))
    unfolding changed
    Keeps-unread e = Keeps-pure _

    released : (r : Try A) → Keeps P (call lock_released (λ w. some r))
    unfolding is_look
    released r = Keeps-call env h.looks lock_released _ refl

    Keeps-after_wait : (r : Option (Option Err)) → Keeps P (after_wait env change r)
    unfolding after_wait is_look
    Keeps-after_wait none = Keeps-pure none
    Keeps-after_wait (some (some e)) = Keeps-pure _
    Keeps-after_wait (some none) =
        Leads-load_state env h _ (λ e. Keeps-bind _ _ (Keeps-unread e) released)
          (λ s q. Keeps-bind _ _ (Keeps-changed s q) released)

    Keeps-update_state : (fuel : ℕ) → Keeps P (update_state env change fuel)
    unfolding update_state
    Keeps-update_state fuel = Keeps-bind _ _ (Keeps-wait_for_lock fuel) Keeps-after_wait

module _ {ℓ} {Q : State → Type ℓ} {P : World → Type ℓ} (env : Env) (h : Saves Q P)
    (o : Outlasts Q) where
  pausing-Steady : (now until : ℕ) (reason : String) → Steady env h (pausing env now until reason)
  unfolding pausing pure
  pausing-Steady now until reason = record {
    keeps = λ s q. record { at = λ w p. (p, o.pausing s now until reason q) };
  }

  resuming-Steady : Steady env h (resuming env)
  unfolding resuming pure ◌>>=◌
  resuming-Steady = record {
    keeps = λ s q. record { at = λ w p. ((Keeps-read_clock env h.looks).at w p, o.resuming s q) };
  }

  pub Keeps-cmd_pause :
      (show_time : ℕ → String) (fuel : ℕ) (d : ℤ) (reason : String)
      → Keeps P (cmd_pause env show_time fuel d reason)
  unfolding cmd_pause
  Keeps-cmd_pause show_time fuel d reason = Keeps-bind _ _ (Keeps-read_clock env h.looks) (λ now.
      Keeps-bind _ _ (Keeps-update_state env h _ (pausing-Steady now (pause_end now d) reason) fuel)
        (λ r. Keeps-pure _))

  pub Keeps-cmd_resume : (fuel : ℕ) → Keeps P (cmd_resume env fuel)
  unfolding cmd_resume
  Keeps-cmd_resume fuel =
      Keeps-bind _ _ (Keeps-update_state env h _ resuming-Steady fuel) (λ r. Keeps-pure _)
