-- ===== src/Reconcile/Normal/Answers.antt =====
-- What a run that finds nothing interrupted answers.
use compose_lock.Prelude.{arith, String, true, none, some, List}
use compose_lock.Errors.{Err}
use compose_lock.Compose.{Stack}
use compose_lock.Config.{Config}
use compose_lock.World.{Env, pure}
use compose_lock.World.Yields.{
  Yields, Yields-bind, Yields-then, Yields-bind_option, Yields-bind_try, Yields-pure, Yields-if,
}
use compose_lock.Reconcile.{Options, Result}
use compose_lock.Reconcile.Answers.{
  IsConsistent, IsReverted, IsFresh, IsReverted-IsConsistent, IsFresh-IsConsistent,
}
use compose_lock.Reconcile.Live.{Live}
use compose_lock.Reconcile.Revert.Answers.{Yields-degrade, Yields-do_revert}
use compose_lock.Reconcile.Abort.Answers.{Yields-abort_before_up}
use compose_lock.Reconcile.Apply.Answers.{Yields-apply_and_watch}
use compose_lock.Reconcile.Normal.{
  with_commits, recover_preflight, degrade_preflight, preflight_blocked, advance_checkout,
  judge_gate, gate_failed, pass_gate, gate, weigh_change, proceed, check_window, guard_commit,
  fetch_failed, after_fetch, run_normal,
}

-- The commits that a run has found change nothing of what a revert answered.
with_commits-IsConsistent : (found r : Result) → IsReverted r → IsConsistent (with_commits found r)
with_commits-IsConsistent found r h = IsReverted-IsConsistent _ (ground (arith, h))

module _ (env : Env) (cfg : Config) (opts : Options) where
  Yields-preflight_blocked :
      (r : Result) (previous : List Stack) (reason : String)
      → Yields IsConsistent (preflight_blocked env cfg opts r previous reason)
  unfolding preflight_blocked recover_preflight degrade_preflight
  Yields-preflight_blocked r previous reason = Yields-bind _ _ (λ _. Yields-bind _ _ (λ s.
      Yields-if _ _ _
        (Yields-then _ _ (Yields-degrade env cfg _ _ _ _)
          (λ a q. Yields-pure _ (with_commits-IsConsistent r a q)))
        (Yields-bind _ _ (λ t. Yields-bind _ _ (λ o.
          Yields-then _ _ (Yields-do_revert env cfg _ _ _)
            (λ a q. Yields-pure _ (with_commits-IsConsistent r a q)))))))

  Yields-advance_checkout :
      (r : Result) → IsConsistent r → Yields IsConsistent (advance_checkout env cfg r)
  unfolding advance_checkout
  Yields-advance_checkout r h =
      Yields-bind_option _ _
        (Yields-bind _ _ (λ o.
          elim o
            as (λ x.
              Yields IsConsistent
                (pure (elim x [ none ↦ r | some e ↦ record r { error = some e } ]))) [
                  | none ↦ Yields-pure r h
                  | some e ↦ Yields-pure (record r { error = some e }) (ground (arith, h))
                ]))
        (λ e. Yields-abort_before_up env cfg r _ e h)

  Yields-judge_gate :
      (r : Result) (previous : List Stack) (live : Live)
      → IsFresh r
      → Yields IsConsistent (judge_gate env cfg opts r previous live)
  unfolding judge_gate
  Yields-judge_gate r previous live h =
      Yields-if opts.dry_run _ _ (Yields-pure _ (ground (arith, h))) (
        Yields-if _ _ _ (Yields-preflight_blocked r previous live.reason)
          (Yields-bind _ _ (λ _. Yields-bind _ _ (λ s. Yields-apply_and_watch env cfg _ _ _ _ h))))

  Yields-gate_failed :
      (r : Result) (e : Err) → IsFresh r → Yields IsConsistent (gate_failed env cfg r e)
  unfolding gate_failed
  Yields-gate_failed r e h = Yields-bind _ _ (λ c.
      Yields-if c _ _ (Yields-pure _ (ground (arith, h)))
        (Yields-bind _ _ (λ _. Yields-pure _ (ground (arith, h)))))

  Yields-pass_gate :
      (r : Result) (previous : List Stack)
      → IsFresh r
      → Yields IsConsistent (pass_gate env cfg opts r previous)
  unfolding pass_gate
  Yields-pass_gate r previous h =
      Yields-bind_try _ _ (λ e. Yields-gate_failed r e h)
        (λ live. Yields-judge_gate r previous live h)

  Yields-gate : (r : Result) → IsFresh r → Yields IsConsistent (gate env cfg opts r)
  unfolding gate
  Yields-gate r h =
      Yields-bind_try _ _
        (λ e. Yields-bind _ _ (λ s.
          Yields-bind _ _
            (λ c. Yields-if c _ _ (Yields-pure _ (ground (arith, h))) (Yields-pass_gate r _ h))))
        (λ ss. Yields-bind _ _ (λ s. Yields-bind _ _ (λ c. Yields-pass_gate r ss h)))

  Yields-proceed : (r : Result) → IsFresh r → Yields IsConsistent (proceed env cfg opts r)
  unfolding proceed weigh_change
  Yields-proceed r h = Yields-if _ _ _ (Yields-gate _ (ground (arith, h))) (
      Yields-bind _ _ (λ s.
        Yields-bind _ _
          (λ b. Yields-if b _ _ (Yields-gate r h) (Yields-advance_checkout _ (ground (arith, h))))))

  Yields-check_window : (r : Result) → IsFresh r → Yields IsConsistent (check_window env cfg opts r)
  unfolding check_window
  Yields-check_window r h =
      Yields-if _ _ _
        (Yields-bind _ _
          (λ now. Yields-if _ _ _ (Yields-pure _ (ground (arith, h))) (Yields-proceed r h)))
        (Yields-proceed r h)

  Yields-guard_commit : (r : Result) → IsFresh r → Yields IsConsistent (guard_commit env cfg opts r)
  unfolding guard_commit
  Yields-guard_commit r h = Yields-bind _ _ (λ s.
      Yields-if _ _ _ (Yields-pure r (IsFresh-IsConsistent r h)) (
        Yields-if _ _ _
          (Yields-bind _ _ (λ _. Yields-pure (record r { skipped = true }) (ground (arith, h))))
          (Yields-check_window r h)))

  Yields-fetch_failed : (e : Err) → Yields IsConsistent (fetch_failed env cfg e)
  unfolding fetch_failed
  Yields-fetch_failed e = Yields-bind _ _ (λ c.
      Yields-if c _ _ (Yields-pure _ (ground arith))
        (Yields-bind _ _ (λ _. Yields-pure _ (ground arith))))

  pub Yields-run_normal : Yields IsConsistent (run_normal env cfg opts)
  unfolding run_normal after_fetch
  Yields-run_normal =
      Yields-bind_try _ _ Yields-fetch_failed (λ g. Yields-guard_commit _ (ground arith))
