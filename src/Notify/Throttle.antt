-- ===== src/Notify/Throttle.antt =====
-- The keys that the `Notifier` of internal/notify/notifier.go has sent, with the times. `claim`,
-- `release` and `reset` hold its mutex, so that each of them is one step.
pub mod Once
use compose_lock.Prelude.{
  ℕ, ◌+◌, ◌*◌, String, Bool, true, false, Option, none, some, List, [], ◌∷◌, leb, lookup, erase,
  insert, if◌then◌else◌,
}

-- An hour, in nanoseconds.
abbrev pub repeat_interval : ℕ
repeat_interval = 3600000000000

abbrev pub Sent : Type 0
Sent = List (String × ℕ)

-- The loop of `claim` that deletes what was sent an interval ago or longer.
unfoldable pub prune : ℕ → Sent → Sent
prune now [] = []
prune now ((k, at) ∷ sent) =
    let kept = prune now sent in if leb (at + repeat_interval) now then kept else (k, at) ∷ kept

unfoldable pub claim_in : String → ℕ → Sent → Option ℕ → Bool × Sent
claim_in key now sent (some at) = (false, sent)
claim_in key now sent none = (true, insert key now sent)

unfoldable pub claim : String → ℕ → Sent → Bool × Sent
unfolding claim_in
claim key now sent = let sent' = prune now sent in claim_in key now sent' (lookup key sent')

-- `delete(n.sent, key)`; `reset` clears the map.
unfoldable pub release : String → Sent → Sent
release key sent = erase key sent

abbrev pub reset : Sent → Sent
reset sent = []

-- The steps of several goroutines on one notifier, in the order in which they get the mutex.
pub data Op : Type 0 where
  claims : String → ℕ → Op
  releases : String → Op
  resets : Op

unfoldable pub step : Op → Sent → Sent
step (claims key now) sent = (claim key now sent).1
step (releases key) sent = release key sent
step resets sent = reset sent

unfoldable pub steps : List Op → Sent → Sent
unfolding step
steps [] sent = sent
steps (op ∷ ops) sent = steps ops (step op sent)
