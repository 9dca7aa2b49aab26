-- ===== src/Git/Retries.antt =====
-- How often the retry of git fetches.
use compose_lock.Prelude.{
  arith, ℕ, zero, suc, ◌+◌, ◌-◌, ◌≤◌, Option, none, [], ◌∷◌, beq, if◌then◌else◌,
}
use compose_lock.Errors.{Err}
use compose_lock.World.{
  World, History, Event, git, fetch, M, Env, pure, ◌>>=◌, call, run_git, sleep_ctx,
}
use compose_lock.World.Rules.{Keeps, Leads, Leads-bind, Leads-through_option, Leads-if, Leads-pure}
use compose_lock.Git.{fetch_once, run_trimmed, sleep_then, retry_after, retry}

fetches_of : Event → ℕ
fetches_of (git fetch) = 1
fetches_of _ = 0

-- The fetches in a history.
pub fetches : History → ℕ
unfolding fetches_of
fetches [] = 0
fetches (e ∷ es) = fetches_of e + fetches es

record IsWithin (k : ℕ) (w : World) : Type 0 where
  within : fetches w.history ≤ k

module _ (env : Env) where
  Leads-fetch_once : (k : ℕ) → Leads (IsWithin k) (fetch_once env) (IsWithin (k + 1))
  unfolding fetch_once run_trimmed ◌>>=◌ pure run_git fetches fetches_of
  Leads-fetch_once k = record { at = λ w p. record { within = ground (arith, p) } }

  Keeps-sleep : (k : ℕ) → Keeps (IsWithin k) (sleep_ctx env)
  unfolding sleep_ctx call fetches fetches_of
  Keeps-sleep k = record { at = λ w p. record { within = ground (arith, p) } }

  weaker : (k m : ℕ) → k ≤ m → (w : World) → IsWithin k w → IsWithin m w
  weaker k m l w p = record { within = omega (arith, p) }

  Leads-sleep_then :
      (k m : ℕ) (rest : M (Option Err))
      → k ≤ m
      → Leads (IsWithin k) rest (IsWithin m)
      → Leads (IsWithin k) (sleep_then env rest) (IsWithin m)
  unfolding sleep_then
  Leads-sleep_then k m rest l h =
      Leads-bind _ _ (Keeps-sleep k) (λ awake. Leads-if awake _ _ h (Leads-pure (weaker k m l) _))

  Leads-retry_after :
      (left k : ℕ) (e : Err)
      → Leads (IsWithin k) (retry_after env (fetch_once env) left e) (IsWithin (k + left))
  unfolding retry_after
  Leads-retry_after zero k e = Leads-pure (weaker k (k + 0) (omega arith)) _
  Leads-retry_after (suc left) k e =
      let stop = weaker k (k + suc left) (omega arith) in
      Leads-if _ _ _ (Leads-pure stop _) (
        Leads-sleep_then k (k + suc left) _ (omega arith) (
          Leads-through_option _ _ (Leads-fetch_once k)
            (Leads-pure (weaker (k + 1) (k + suc left) (omega arith)) none)
            (λ e'. record {
              at = λ w p.
                  weaker (k + 1 + left) (k + suc left) (omega arith) _
                    ((Leads-retry_after left (k + 1) e').at w p);
            })))

-- Whatever git answers, a retry of the fetch runs at most as many fetches as it may attempt, where 0
-- attempts count as 1.
pub fetches-retry :
    (env : Env) (attempts : ℕ) (w : World)
    → fetches (retry env attempts (fetch_once env) w).1.history
      ≤ fetches w.history + (if beq attempts 0 then 1 else attempts)
unfolding retry
fetches-retry env attempts w =
    let k = fetches w.history in
    let all =
      Leads-through_option _ _ (Leads-fetch_once env k)
        (Leads-pure (weaker env (k + 1) (k + 1 + (attempts - 1)) (omega arith)) none)
        (λ e. Leads-retry_after env (attempts - 1) (k + 1) e) in
    let end : IsWithin (k + 1 + (attempts - 1)) (retry env attempts (fetch_once env) w).1 =
      all.at w (record { within = omega arith }) in
    ground (arith, end)
