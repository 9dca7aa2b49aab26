-- ===== src/Notify/Sending.antt =====
-- The sinks of internal/notify/notifier.go and what is posted to them.
pub mod Held
pub mod Repeats
use compose_lock.Prelude.{
  ℕ, ◌*◌, String, ◌<>◌, Bool, true, false, not, ◌&&◌, ◌||◌, Option, none, some, List, [], ◌∷◌, ◌++◌,
  leb, ltb, beq, ◌==◌, if◌then◌else◌,
}
use compose_lock.Errors.{Try, ok, err}
use compose_lock.Notify.Embed.{Embed, second}
use compose_lock.Notify.Throttle.{Sent, claim, release, reset}

pub data Encoding : Type 0 where
  discord webhook : Encoding

pub record Sink : Type 0 where
  pub name : String
  pub url : String
  pub headers : List (String × String)
  pub encode : Encoding

-- What `http.Client.Do` answers: an error, or a status with the header `Retry-After`, as
-- `strconv.ParseFloat` reads it: no number, one that is not positive, or a positive one, of which the
-- conversion to a `time.Duration` makes so many nanoseconds, where 0 stands for none or fewer.
pub data RetryAfter : Type 0 where
  no_number not_positive : RetryAfter
  nanoseconds : ℕ → RetryAfter

pub data Answer : Type 0 where
  failed : Answer
  answered : ℕ → RetryAfter → Answer

-- A call of the outside, and what an `Outside` answers to it after the calls before.
pub data Call : Type 0 where
  posted : String → Call
  slept clock_read : Call

pub record Outside : Type 0 where
  pub marshals : Encoding → Embed → Bool
  pub post : List Call → Sink → Embed → Answer
  pub now : List Call → ℕ
  pub sleep : List Call → Bool

-- What a notifier keeps, and the calls so far, the last one first.
pub record Session : Type 0 where
  pub sent : Sent
  pub calls : List Call

unfoldable pub with_webhook : String → List (String × String) → List Sink → List Sink
with_webhook webhook_url headers sinks =
    if webhook_url == ""
    then sinks
    else sinks
      ++ record { name = "webhook"; url = webhook_url; headers = headers; encode = webhook } ∷ []

-- `New` with the option `WithWebhook`.
unfoldable pub new_sinks : String → String → List (String × String) → List Sink
unfolding with_webhook
new_sinks discord_url webhook_url headers = with_webhook webhook_url headers (
    if discord_url == ""
    then []
    else record { name = "discord"; url = discord_url; headers = []; encode = discord } ∷ [])

unfoldable pub enabled : List Sink → Bool
enabled [] = false
enabled (s ∷ ss) = true

abbrev pub max_rate_limit_wait : ℕ
max_rate_limit_wait = 15 * second

unfoldable pub rate_limit_delay : RetryAfter → ℕ
rate_limit_delay no_number = second
rate_limit_delay not_positive = second
rate_limit_delay (nanoseconds n) = if ltb n max_rate_limit_wait then n else max_rate_limit_wait

-- `post`: an error, or how long to wait before the next attempt, 0 where there is no need of one.
unfoldable pub delay_of : Answer → Option ℕ
unfolding rate_limit_delay
delay_of failed = none
delay_of (answered status retry_after) =
    if beq status 429
    then some (rate_limit_delay retry_after)
    else if leb 300 status
    then none
    else some 0

module _ (net : Outside) where
  unfoldable pub post : Sink → Embed → Session → Option ℕ × Session
  unfolding delay_of
  post s e n = (delay_of (net.post n.calls s e), record n { calls = posted s.name ∷ n.calls })

  sleep : Session → Bool × Session
  sleep n = (net.sleep n.calls, record n { calls = slept ∷ n.calls })

  last_attempt : Option ℕ × Session → Bool × Session
  last_attempt (none, n) = (false, n)
  last_attempt (some delay, n) = (leb delay 0, n)

  after_sleep : Sink → Embed → Bool × Session → Bool × Session
  unfolding last_attempt
  after_sleep s e (false, n) = (false, n)
  after_sleep s e (true, n) = last_attempt (post s e n)

  first_attempt : Sink → Embed → Option ℕ × Session → Bool × Session
  unfolding after_sleep sleep
  first_attempt s e (none, n) = (false, n)
  first_attempt s e (some delay, n) = if leb delay 0 then (true, n) else after_sleep s e (sleep n)

  -- Two attempts at most.
  unfoldable pub deliver : Sink → Embed → Session → Bool × Session
  unfolding first_attempt
  deliver s e n = if net.marshals s.encode e then first_attempt s e (post s e n) else (false, n)

  unfoldable pub deliver_all : List Sink → Embed → Session → Bool × Session
  deliver_all [] e n = (true, n)
  deliver_all (s ∷ ss) e n =
      let (delivered, n') = deliver s e n in
      let (rest, n'') = deliver_all ss e n' in (delivered && rest, n'')

  -- The method `Send`.
  unfoldable pub send : List Sink → Embed → Session → Bool × Session
  send [] e n = (false, n)
  send (s ∷ ss) e n = deliver_all (s ∷ ss) e n

  unfoldable pub claim_key : String → Session → Bool × Session
  claim_key key n =
      let (granted, sent) = claim key (net.now n.calls) n.sent in
      (granted, record { sent = sent; calls = clock_read ∷ n.calls })

  unfoldable pub settled : String → Bool × Session → Bool × Session
  settled key (true, n) = (true, n)
  settled key (false, n) = (false, record n { sent = release key n.sent })

  unfoldable pub claimed : Sink → String → Embed → Bool × Session → Bool × Session
  unfolding settled
  claimed s key e (false, n) = (true, n)
  claimed s key e (true, n) = settled key (deliver s e n)

  -- One round of the loop of `SendThrottled`: what is suppressed counts as delivered.
  unfoldable pub send_once : Sink → String → Embed → Session → Bool × Session
  unfolding claimed claim_key
  send_once s key e n =
      let sink_key = s.name <> (":" <> key) in claimed s sink_key e (claim_key sink_key n)

  unfoldable pub send_each : List Sink → String → Embed → Session → Bool × Session
  send_each [] key e n = (true, n)
  send_each (s ∷ ss) key e n =
      let (delivered, n') = send_once s key e n in
      let (rest, n'') = send_each ss key e n' in (delivered && rest, n'')

  -- The method `SendThrottled`; no key clears what was sent.
  unfoldable pub send_throttled : List Sink → String → Embed → Session → Bool × Session
  send_throttled sinks key e n =
      if key == "" then send sinks e (record n { sent = reset n.sent }) else send_each sinks key e n
