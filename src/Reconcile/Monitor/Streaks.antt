-- ===== src/Reconcile/Monitor/Streaks.antt =====
-- The alerts of one stack over its checks.
use mathlib.Core.Path.{subst}
use compose_lock.Prelude.{
  ℕ, ◌+◌, ◌<◌, ◌≡◌, ◌⊎◌, inl, inr, refl, ap, ◌∙◌, arith, String, true, false, ◌||◌, List, [], ◌∷◌,
  ltb, beq, ◌==◌, eq_refl, ◌++◌, contains, length, lookup, insert, lookup-insert, Bool-cases,
  if◌then◌else◌,
}
use compose_lock.State.{State}
use compose_lock.Health.{Snapshot, ContainerStatus}
use compose_lock.Notify.Sending.{Outside}
use compose_lock.Reconcile.Monitor.{
  Monitor, Memory, Setting, problem, remember, remember_each, memory_of, put, begin_incident,
  count_bad, judge, observe,
}

module _ (net : Outside) (cfg : Setting) (st : State) (name : String) where
  -- What the monitor knows of the stack.
  unfoldable pub known : Monitor → Memory
  unfolding memory_of
  known mon = memory_of net cfg st (lookup name mon.stacks)

  -- The checks of the stack one after another, each with its snapshot and its time.
  pub observes : List (Snapshot × ℕ) → Monitor → Monitor
  observes [] mon = mon
  observes ((snap, now) ∷ rest) mon = observes rest (observe net cfg st name snap now mon)

  -- In each of the checks the stack has a problem.
  unfoldable pub AllBad : List (Snapshot × ℕ) → Monitor → Type 0
  unfolding known
  AllBad [] mon = Unit
  AllBad ((snap, now) ∷ rest) mon =
      ((problem (known mon) snap == "") ≡ false)
      × AllBad rest (observe net cfg st name snap now mon)

  -- A problem that is not to be told of yet, or any more.
  IsQuiet : ℕ → Monitor → Type 0
  unfolding known
  IsQuiet n mon = ((known mon).alerted ≡ true) ⊎ ((known mon).streak + n < cfg.alert_after)

  -- What a snapshot is remembered by leaves the streak and the alert as they are.
  record IsKept (m m' : Memory) : Type 0 where
    same_streak : m'.streak ≡ m.streak
    same_alerted : m'.alerted ≡ m.alerted

  remember_each-IsKept : (cs : List ContainerStatus) (m : Memory) → IsKept m (remember_each cs m)
  unfolding remember_each
  remember_each-IsKept [] m = record { same_streak = refl; same_alerted = refl }
  remember_each-IsKept (c ∷ cs) m =
      let rest = remember_each-IsKept cs (record m {
        services =
            if contains m.services c.service then m.services else m.services ++ c.service ∷ [];
        restarts = insert c.id c.restart_count m.restarts;
      }) in
      record { same_streak = rest.same_streak; same_alerted = rest.same_alerted }

  known-put : (m : Memory) (mon : Monitor) → known (put net cfg st name m mon) ≡ m
  unfolding known put memory_of
  known-put m mon = rw (lookup-insert mon.stacks name name m, eq_refl name) refl

  -- What a quiet check leaves: no post, and a streak that is longer by one.
  record IsCounted (m : Memory) (mon mon' : Monitor) : Type 0 where
    silent : mon'.session ≡ mon.session
    longer : (known mon').streak ≡ m.streak + 1
    same_alerted : (known mon').alerted ≡ m.alerted

  put-IsCounted :
      (m m' : Memory) (mon mon' : Monitor)
      → mon'.session ≡ mon.session
      → m'.streak ≡ m.streak + 1
      → m'.alerted ≡ m.alerted
      → IsCounted m mon (put net cfg st name m' mon')
  unfolding put
  put-IsCounted m m' mon mon' p q r = record {
    silent = p;
    longer = rw (known-put m' mon') q;
    same_alerted = rw (known-put m' mon') r;
  }

  judge-IsCounted :
      (p : String) (now : ℕ) (m : Memory) (mon : Monitor)
      → (p == "") ≡ false
      → (m.alerted || ltb (m.streak + 1) cfg.alert_after) ≡ true
      → IsCounted m mon (judge net cfg st name p now m mon)
  unfolding judge begin_incident count_bad
  judge-IsCounted p now m mon bad quiet = elim (Bool-cases (beq m.streak 0)) [
    | inl first ↦ rw (bad, first, quiet) (put-IsCounted m _ mon _ refl refl refl)
    | inr later ↦ rw (bad, later, quiet) (put-IsCounted m _ mon _ refl refl refl)
  ]

  quiet_test :
      (n : ℕ) (mon : Monitor) (m : Memory)
      → IsKept (known mon) m
      → IsQuiet (n + 1) mon
      → (m.alerted || ltb (m.streak + 1) cfg.alert_after) ≡ true
  unfolding IsQuiet
  quiet_test n mon m k (inl told) = rw (k.same_alerted, told) refl
  quiet_test n mon m k (inr early) =
      let short : ltb (m.streak + 1) cfg.alert_after ≡ true =
        ground (arith, k.same_streak, early) in
      ground (arith, short)

  observe-IsCounted :
      (n : ℕ) (snap : Snapshot) (now : ℕ) (mon : Monitor)
      → (problem (known mon) snap == "") ≡ false
      → IsQuiet (n + 1) mon
      → IsCounted (known mon) mon (observe net cfg st name snap now mon)
  unfolding observe known remember
  observe-IsCounted n snap now mon bad quiet =
      let m = remember snap (known mon) in
      let kept : IsKept (known mon) m =
        let k = remember_each-IsKept snap.containers (record (known mon) { restarts = [] }) in
        record { same_streak = k.same_streak; same_alerted = k.same_alerted } in
      let counted =
        judge-IsCounted (problem (known mon) snap) now m mon bad (quiet_test n mon m kept quiet) in
      record {
        silent = counted.silent;
        longer = counted.longer ∙ ap (λ (k : ℕ). k + 1) kept.same_streak;
        same_alerted = counted.same_alerted ∙ kept.same_alerted;
      }

  IsQuiet-observe :
      (n : ℕ) (mon mon' : Monitor)
      → IsCounted (known mon) mon mon'
      → IsQuiet (n + 1) mon
      → IsQuiet n mon'
  unfolding IsQuiet
  IsQuiet-observe n mon mon' c (inl told) = inl (c.same_alerted ∙ told)
  IsQuiet-observe n mon mon' c (inr early) = inr (omega (arith, c.longer, early))

  observes-silent :
      (checks : List (Snapshot × ℕ)) (mon : Monitor)
      → AllBad checks mon
      → IsQuiet (length checks) mon
      → (observes checks mon).session ≡ mon.session
  unfolding observes AllBad
  observes-silent [] mon bad quiet = refl
  observes-silent ((snap, now) ∷ rest) mon bad quiet =
      let more : IsQuiet (length rest + 1) mon =
        subst (λ (k : ℕ). IsQuiet k mon) (omega arith) quiet in
      let counted = observe-IsCounted (length rest) snap now mon bad.0 more in
      observes-silent rest (observe net cfg st name snap now mon) bad.1
        (IsQuiet-observe (length rest) mon _ counted more)
      ∙ counted.silent

-- While a stack has a problem in one check after another, nothing is posted as long as the checks in a
-- row with a problem, those before included, are fewer than the configured streak, nor at any of them
-- once the alert for the incident is out.
pub session-observes :
    (net : Outside) (cfg : Setting) (st : State) (name : String) (checks : List (Snapshot × ℕ))
    (mon : Monitor)
    → AllBad net cfg st name checks mon
    → ((known net cfg st name mon).alerted ≡ true)
      ⊎ ((known net cfg st name mon).streak + length checks < cfg.alert_after)
    → (observes net cfg st name checks mon).session ≡ mon.session
unfolding IsQuiet
session-observes net cfg st name checks mon bad quiet =
    observes-silent net cfg st name checks mon bad quiet
