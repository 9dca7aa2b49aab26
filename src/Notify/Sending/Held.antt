-- ===== src/Notify/Sending/Held.antt =====
-- The keys that a notifier holds while it sends: each sink's key, sent within the hour.
use mathlib.Core.Path.{subst}
use compose_lock.Prelude.{
  ℕ, ◌+◌, ◌≤◌, ◌<◌, ◌≡◌, refl, sym, String, ◌<>◌, Bool, true, false, Option, none, some, List, [],
  ◌∷◌, arith, ◌==◌, eq_iff, eq_refl, lookup, erase, insert, lookup-erase_ne, lookup-insert,
  Bool-cases, inl, inr,
}
use compose_lock.Notify.Embed.{Embed}
use compose_lock.Notify.Throttle.{
  Sent, repeat_interval, prune, claim, claim_in, release, claims, step,
}
use compose_lock.Notify.Throttle.Once.{Since, lookup-step, lookup-prune, claim_in-blocked}
use compose_lock.Notify.Sending.{
  Sink, Outside, Session, Call, post, sleep, last_attempt, after_sleep, first_attempt, deliver,
  claim_key, settled, claimed, send_once,
}

-- All that was sent was sent at `t` or later.
abbrev pub Recent : ℕ → Sent → Type 0
Recent t [] = Unit
Recent t ((k, at) ∷ m) = (t ≤ at) × Recent t m

Recent-prune : (t now : ℕ) (m : Sent) → Recent t m → Recent t (prune now m)
unfolding prune
Recent-prune t now [] h = tt
Recent-prune t now ((k, at) ∷ m) h = ground (arith, Recent-prune t now m h.1)

Recent-erase : (t : ℕ) (k : String) (m : Sent) → Recent t m → Recent t (erase k m)
unfolding erase
Recent-erase t k [] h = tt
Recent-erase t k ((j, at) ∷ m) h = ground (arith, Recent-erase t k m h.1)

Recent-insert :
    (t now : ℕ) (k : String) (m : Sent) → t ≤ now → Recent t m → Recent t (insert k now m)
unfolding insert
Recent-insert t now k [] p h = (p, tt)
Recent-insert t now k ((j, at) ∷ m) p h = ground (arith, p, Recent-insert t now k m p h.1)

Recent-claim_in :
    (t now : ℕ) (k : String) (m : Sent) (found : Option ℕ)
    → t ≤ now
    → Recent t m
    → Recent t (claim_in k now m found).1
unfolding claim_in
Recent-claim_in t now k m none p h = Recent-insert t now k m p h
Recent-claim_in t now k m (some at) p h = h

Recent-lookup : (t at : ℕ) (k : String) (m : Sent) → Recent t m → lookup k m ≡ some at → t ≤ at
unfolding lookup
Recent-lookup t at k [] h e = ground (arith, e)
Recent-lookup t at k ((j, b) ∷ m) h e = ground (arith, e, Recent-lookup t at k m h.1)

Since-found :
    (t now : ℕ) (k : String) (m : Sent) (found : Option ℕ)
    → lookup k m ≡ found
    → t ≤ now
    → Recent t m
    → Since t (lookup k (claim_in k now m found).1)
unfolding claim_in
Since-found t now k m none e p h = rw (lookup-insert m k k now, eq_refl k) p
Since-found t now k m (some at) e p h = rw e (Recent-lookup t at k m h e)

claim-Since :
    (t now : ℕ) (j k : String) (m : Sent)
    → now < t + repeat_interval
    → Since t (lookup k m)
    → Since t (lookup k (claim j now m).1)
unfolding step
claim-Since t now j k m soon held =
    subst (Since t) (sym (lookup-step t k (claims j now) m soon held)) held

-- A granted claim is at a key that was not held.
claim-other :
    (t now : ℕ) (j k : String) (m : Sent)
    → (claim j now m).0 ≡ true
    → now < t + repeat_interval
    → Since t (lookup k m)
    → (j == k) ≡ false
unfolding claim
claim-other t now j k m granted soon held = elim (Bool-cases (j == k)) [
  | inr other ↦ other
  | inl same ↦
      let held' : Since t (lookup j m) =
        subst (λ i. Since t (lookup i m)) (sym ((eq_iff j k).0 same)) held in
      absurd (
        cc (
          granted,
          claim_in-blocked t now j (prune now m) (lookup j (prune now m))
              (rw (lookup-prune t now j m soon held') held'),
        ))
]

module _ (net : Outside) where
  last_attempt-sent : (p : Option ℕ × Session) → (last_attempt net p).1.sent ≡ p.1.sent
  unfolding last_attempt
  last_attempt-sent (none, n) = refl
  last_attempt-sent (some d, n) = refl

  after_sleep-sent :
      (s : Sink) (e : Embed) (p : Bool × Session) → (after_sleep net s e p).1.sent ≡ p.1.sent
  unfolding after_sleep post
  after_sleep-sent s e (false, n) = refl
  after_sleep-sent s e (true, n) = last_attempt-sent (post net s e n)

  first_attempt-sent :
      (s : Sink) (e : Embed) (p : Option ℕ × Session) → (first_attempt net s e p).1.sent ≡ p.1.sent
  unfolding first_attempt
  first_attempt-sent s e (none, n) = refl
  first_attempt-sent s e (some d, n) = ground (arith, after_sleep-sent s e (sleep net n))

  -- A delivery does not touch what was sent.
  deliver-sent : (s : Sink) (e : Embed) (n : Session) → (deliver net s e n).1.sent ≡ n.sent
  unfolding deliver post
  deliver-sent s e n = ground (arith, first_attempt-sent s e (post net s e n))

module _ (net : Outside) (t : ℕ) (after : (h : List Call) → t ≤ net.now h)
    (before : (h : List Call) → net.now h < t + repeat_interval) where
  settled-Recent :
      (k : String) (p : Bool × Session) → Recent t p.1.sent → Recent t (settled net k p).1.sent
  unfolding settled release
  settled-Recent k (true, n) h = h
  settled-Recent k (false, n) h = Recent-erase t k n.sent h

  settled-Since :
      (j k : String) (p : Bool × Session)
      → (j == k) ≡ false
      → Since t (lookup k p.1.sent)
      → Since t (lookup k (settled net j p).1.sent)
  unfolding settled release
  settled-Since j k (true, n) other h = h
  settled-Since j k (false, n) other h = rw (lookup-erase_ne j k n.sent other) h

  claimed-Recent :
      (s : Sink) (k : String) (e : Embed) (p : Bool × Session)
      → Recent t p.1.sent
      → Recent t (claimed net s k e p).1.sent
  unfolding claimed
  claimed-Recent s k e (false, n) h = h
  claimed-Recent s k e (true, n) h =
      settled-Recent k (deliver net s e n) (rw (deliver-sent net s e n) h)

  pub send_once-Recent :
      (s : Sink) (key : String) (e : Embed) (n : Session)
      → Recent t n.sent
      → Recent t (send_once net s key e n).1.sent
  unfolding send_once claim_key claim
  send_once-Recent s key e n h =
      let k = s.name <> (":" <> key) in
      let now = net.now n.calls in
      claimed-Recent s k e (claim_key net k n) (
        Recent-claim_in t now k (prune now n.sent) (lookup k (prune now n.sent)) (after n.calls)
          (Recent-prune t now n.sent h))

  claimed-Since :
      (s : Sink) (j k : String) (e : Embed) (p : Bool × Session)
      → (p.0 ≡ true → (j == k) ≡ false)
      → Since t (lookup k p.1.sent)
      → Since t (lookup k (claimed net s j e p).1.sent)
  unfolding claimed
  claimed-Since s j k e (false, n) other h = h
  claimed-Since s j k e (true, n) other h =
      settled-Since j k (deliver net s e n) (other refl) (rw (deliver-sent net s e n) h)

  -- A key that is held stays held, whatever is sent.
  pub send_once-Since :
      (s : Sink) (key k : String) (e : Embed) (n : Session)
      → Since t (lookup k n.sent)
      → Since t (lookup k (send_once net s key e n).1.sent)
  unfolding send_once claim_key
  send_once-Since s key k e n h =
      let j = s.name <> (":" <> key) in
      let now = net.now n.calls in
      claimed-Since s j k e (claim_key net j n)
        (λ granted. claim-other t now j k n.sent granted (before n.calls) h)
        (claim-Since t now j k n.sent (before n.calls) h)

  claimed-held :
      (s : Sink) (k : String) (e : Embed) (p : Bool × Session)
      → Since t (lookup k p.1.sent)
      → (claimed net s k e p).0 ≡ true
      → Since t (lookup k (claimed net s k e p).1.sent)
  unfolding claimed
  claimed-held s k e (false, n) h d = h
  claimed-held s k e (true, n) h d = delivered (deliver net s e n) d (rw (deliver-sent net s e n) h)
    where
      delivered :
          (p : Bool × Session)
          → (settled net k p).0 ≡ true
          → Since t (lookup k p.1.sent)
          → Since t (lookup k (settled net k p).1.sent)
      delivered (true, m) d h = h
      delivered (false, m) d h = absurd (cc)

  -- What was delivered or suppressed is held.
  pub send_once-held :
      (s : Sink) (key : String) (e : Embed) (n : Session)
      → Recent t n.sent
      → (send_once net s key e n).0 ≡ true
      → Since t (lookup (s.name <> (":" <> key)) (send_once net s key e n).1.sent)
  unfolding send_once claim_key claim
  send_once-held s key e n h d =
      let k = s.name <> (":" <> key) in
      let now = net.now n.calls in
      let m = prune now n.sent in
      claimed-held s k e (claim_key net k n)
        (Since-found t now k m (lookup k m) refl (after n.calls) (Recent-prune t now n.sent h)) d
