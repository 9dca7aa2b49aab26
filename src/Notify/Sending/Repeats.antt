-- ===== src/Notify/Sending/Repeats.antt =====
-- A notification that was delivered is not posted again within the hour.
use compose_lock.Prelude.{
  ℕ, ◌+◌, ◌≤◌, ◌<◌, ◌≡◌, refl, ap, ◌∙◌, String, ◌<>◌, Bool, true, false, List, [], ◌∷◌, arith, ◌==◌,
  lookup, All,
}
use compose_lock.Notify.Embed.{Embed}
use compose_lock.Notify.Throttle.{repeat_interval, prune, claim}
use compose_lock.Notify.Throttle.Once.{Since, lookup-prune, claim_in-blocked}
use compose_lock.Notify.Sending.{
  Sink, Outside, Session, Call, posted, slept, clock_read, claim_key, claimed, send_once, send_each,
  send_throttled,
}
use compose_lock.Notify.Sending.Held.{Recent, send_once-Recent, send_once-Since, send_once-held}

-- What was posted, in a list of calls.
unfoldable pub posts : List Call → List String
posts [] = []
posts (posted name ∷ cs) = name ∷ posts cs
posts (slept ∷ cs) = posts cs
posts (clock_read ∷ cs) = posts cs

module _ (net : Outside) (t : ℕ) (after : (h : List Call) → t ≤ net.now h)
    (before : (h : List Call) → net.now h < t + repeat_interval) where
  posts-claimed :
      (s : Sink) (k : String) (e : Embed) (p : Bool × Session)
      → p.0 ≡ false
      → ((claimed net s k e p).0 ≡ true) × ((claimed net s k e p).1 ≡ p.1)
  unfolding claimed
  posts-claimed s k e (false, n) d = (refl, refl)
  posts-claimed s k e (true, n) d = absurd (cc)

  claim-held :
      (k : String) (n : Session) → Since t (lookup k n.sent) → (claim_key net k n).0 ≡ false
  unfolding claim_key claim
  claim-held k n h =
      let now = net.now n.calls in
      claim_in-blocked t now k (prune now n.sent) (lookup k (prune now n.sent))
        (rw (lookup-prune t now k n.sent (before n.calls) h) h)

  posts-claim_key : (k : String) (n : Session) → posts (claim_key net k n).1.calls ≡ posts n.calls
  unfolding claim_key posts
  posts-claim_key k n = refl

  -- A held key is not posted again.
  send_once-quiet :
      (s : Sink) (key : String) (e : Embed) (n : Session)
      → Since t (lookup (s.name <> (":" <> key)) n.sent)
      → ((send_once net s key e n).0 ≡ true)
        × (posts (send_once net s key e n).1.calls ≡ posts n.calls)
  unfolding send_once
  send_once-quiet s key e n h =
      let k = s.name <> (":" <> key) in
      let same = posts-claimed s k e (claim_key net k n) (claim-held k n h) in
      (same.0, ap (λ (m : Session). posts m.calls) same.1 ∙ posts-claim_key k n)

  -- All sinks hold the key.
  AllHeld : List Sink → String → Session → Type 0
  AllHeld sinks key n = All (λ s. Since t (lookup (s.name <> (":" <> key)) n.sent)) sinks

  AllHeld-send_once :
      (ss : List Sink) (s : Sink) (key : String) (e : Embed) (n : Session)
      → AllHeld ss key n
      → AllHeld ss key (send_once net s key e n).1
  unfolding AllHeld
  AllHeld-send_once [] s key e n h = tt
  AllHeld-send_once (r ∷ ss) s key e n h = (
    send_once-Since net t after before s key (r.name <> (":" <> key)) e n h.0,
    AllHeld-send_once ss s key e n h.1,
  )

  Since-send_each :
      (ss : List Sink) (key k : String) (e : Embed) (n : Session)
      → Since t (lookup k n.sent)
      → Since t (lookup k (send_each net ss key e n).1.sent)
  unfolding send_each
  Since-send_each [] key k e n h = h
  Since-send_each (s ∷ ss) key k e n h =
      Since-send_each ss key k e (send_once net s key e n).1
        (send_once-Since net t after before s key k e n h)

  send_each-held :
      (ss : List Sink) (key : String) (e : Embed) (n : Session)
      → Recent t n.sent
      → (send_each net ss key e n).0 ≡ true
      → AllHeld ss key (send_each net ss key e n).1
  unfolding send_each AllHeld
  send_each-held [] key e n h d = tt
  send_each-held (s ∷ ss) key e n h d =
      let n' = (send_once net s key e n).1 in
      let first : (send_once net s key e n).0 ≡ true = ground (arith, d) in
      let others : (send_each net ss key e n').0 ≡ true = ground (arith, d) in
      (
        Since-send_each ss key (s.name <> (":" <> key)) e n'
            (send_once-held net t after before s key e n h first),
        send_each-held ss key e n' (send_once-Recent net t after before s key e n h) others,
      )

  send_each-quiet :
      (ss : List Sink) (key : String) (e : Embed) (n : Session)
      → AllHeld ss key n
      → posts (send_each net ss key e n).1.calls ≡ posts n.calls
  unfolding send_each AllHeld
  send_each-quiet [] key e n h = refl
  send_each-quiet (s ∷ ss) key e n h =
      send_each-quiet ss key e (send_once net s key e n).1 (AllHeld-send_once ss s key e n h.1)
      ∙ (send_once-quiet s key e n h.0).1

-- A notification with a key that was delivered to every sink, or suppressed there, is not posted to
-- any of them again, whatever it then says, as long as all that was sent before was sent at `t` or
-- later and the clock shows no time outside the hour from `t` on.
pub send_throttled-repeat :
    (net : Outside) (t : ℕ) (sinks : List Sink) (key : String) (e e' : Embed) (n : Session)
    → ((h : List Call) → t ≤ net.now h)
    → ((h : List Call) → net.now h < t + repeat_interval)
    → (key == "") ≡ false
    → Recent t n.sent
    → (send_throttled net sinks key e n).0 ≡ true
    → let n' = (send_throttled net sinks key e n).1 in
      posts (send_throttled net sinks key e' n').1.calls ≡ posts n'.calls
unfolding send_throttled
send_throttled-repeat net t sinks key e e' n after before keyed recent delivered =
    let sent : (send_each net sinks key e n).0 ≡ true = rw keyed at delivered in
    rw keyed (
      send_each-quiet net t after before sinks key e' (send_each net sinks key e n).1
        (send_each-held net t after before sinks key e n recent sent))
