-- ===== src/Notify/Throttle/Once.antt =====
-- A key is claimed once in an interval, however the goroutines interleave.
use compose_lock.Prelude.{
  ℕ, ◌+◌, ◌≤◌, ◌<◌, ◌≡◌, refl, sym, ap, ◌∙◌, Bool-cases, String, true, false, Option, none, some,
  List, [], ◌∷◌, arith, ◌==◌, eq_iff, eq_refl, lookup, lookup-insert, lookup-erase_ne, All, inl,
  inr,
}
use mathlib.Core.Path.{subst}
use compose_lock.Notify.Throttle.{
  Sent, Op, claims, releases, resets, repeat_interval, prune, claim, claim_in, release, step, steps,
}

-- The key was sent at `t` or later.
abbrev pub Since : ℕ → Option ℕ → Type 0
Since t none = ⊥
Since t (some at) = t ≤ at

pub lookup-prune :
    (t now : ℕ) (k : String) (m : Sent)
    → now < t + repeat_interval
    → Since t (lookup k m)
    → lookup k (prune now m) ≡ lookup k m
unfolding lookup prune
lookup-prune t now k [] h p = refl
lookup-prune t now k ((i, at) ∷ m) h p = ground (arith, p, lookup-prune t now k m h)

-- What a step at another key, or a claim of this one, does to a key that was sent since `t`.
abbrev pub Leaves : ℕ → String → Op → Type 0
Leaves t k (claims j now) = now < t + repeat_interval
Leaves t k (releases j) = (j == k) ≡ false
Leaves t k resets = ⊥

lookup-claim_in :
    (j k : String) (now : ℕ) (m : Sent) (found : Option ℕ)
    → lookup j m ≡ found
    → (t : ℕ) → Since t (lookup k m)
    → lookup k (claim_in j now m found).1 ≡ lookup k m
unfolding claim_in
lookup-claim_in j k now m (some at) e t p = refl
lookup-claim_in j k now m none e t p = elim (Bool-cases (j == k)) [
  | inl same ↦ absurd (subst (Since t) (ap (λ i. lookup i m) (sym ((eq_iff j k).0 same)) ∙ e) p)
  | inr other ↦ rw (lookup-insert m j k now, other) refl
]

pub lookup-step :
    (t : ℕ) (k : String) (op : Op) (m : Sent)
    → Leaves t k op
    → Since t (lookup k m)
    → lookup k (step op m) ≡ lookup k m
unfolding step claim release
lookup-step t k (claims j now) m h p =
    let kept = lookup-prune t now k m h p in
    lookup-claim_in j k now (prune now m) (lookup j (prune now m)) refl t (rw kept p) ∙ kept
lookup-step t k (releases j) m h p = lookup-erase_ne j k m h
lookup-step t k resets m h p = absurd h

Since-steps :
    (t : ℕ) (k : String) (ops : List Op) (m : Sent)
    → All (Leaves t k) ops
    → Since t (lookup k m)
    → Since t (lookup k (steps ops m))
unfolding steps
Since-steps t k [] m h p = p
Since-steps t k (op ∷ ops) m h p =
    Since-steps t k ops (step op m) h.1 (rw (lookup-step t k op m h.0 p) p)

pub Since-claim_in :
    (k : String) (t : ℕ) (m : Sent) (found : Option ℕ)
    → (claim_in k t m found).0 ≡ true
    → Since t (lookup k (claim_in k t m found).1)
unfolding claim_in
Since-claim_in k t m (some at) e = absurd (cc)
Since-claim_in k t m none e = rw (lookup-insert m k k t, eq_refl k) (omega arith)

pub claim_in-blocked :
    (t now : ℕ) (k : String) (m : Sent) (found : Option ℕ)
    → Since t found
    → (claim_in k now m found).0 ≡ false
unfolding claim_in
claim_in-blocked t now k m (some at) p = refl
claim_in-blocked t now k m none p = absurd p

-- However several goroutines interleave: once a key is claimed, no claim of it succeeds within the
-- next hour, as long as it is not released, the notifier is not reset, and the clock shows no time
-- beyond that hour.
pub claim-blocked :
    (k : String) (t now : ℕ) (m : Sent) (ops : List Op)
    → (claim k t m).0 ≡ true
    → All (Leaves t k) ops
    → now < t + repeat_interval
    → (claim k now (steps ops (claim k t m).1)).0 ≡ false
unfolding claim
claim-blocked k t now m ops granted quiet soon =
    let first = Since-claim_in k t (prune t m) (lookup k (prune t m)) granted in
    let m' = steps ops (claim k t m).1 in
    let held : Since t (lookup k m') = Since-steps t k ops (claim k t m).1 quiet first in
    claim_in-blocked t now k (prune now m') (lookup k (prune now m'))
      (rw (lookup-prune t now k m' soon held) held)
