-- ===== src/Reconcile/Normal/Keeping.antt =====
-- Where a run that finds nothing interrupted leads, given what an apply and a revert do. A dry run
-- leads further than the others, since it applies nothing, so that the parts before the gate take the
-- gate's verdict as a parameter.
use compose_lock.Prelude.{◌≡◌, String, true, List}
use compose_lock.Errors.{Err}
use compose_lock.State.{State}
use compose_lock.Compose.{Stack}
use compose_lock.Config.{Config}
use compose_lock.Git.Keeping.{Keeps-checkout_commit, Keeps-fetch_and_preview}
use compose_lock.World.{World, Env}
use compose_lock.World.Rules.{
  Keeps, Leads, Keeps-pure, Keeps-if, Leads-bind, Leads-bind_option, Leads-bind_try, Leads-pure,
  Leads-if, Leads-if_true, Leads-of,
}
use compose_lock.World.Keeping.{Keeps-read_clock, Keeps-is_cancelled}
use compose_lock.World.Acting.{Acts, Leads-get_st, Keeps-modify_st}
use compose_lock.Reconcile.{Options, Result}
use compose_lock.Reconcile.Change.{Lasts, blocked, unblocked}
use compose_lock.Reconcile.Live.{Live}
use compose_lock.Reconcile.Live.Keeping.{
  Keeps-stacks_allowing_empty, Keeps-evaluate_live, Keeps-relevant_change,
}
use compose_lock.Reconcile.Saving.Keeping.{
  Keeps-commit_state, Keeps-record_outcome, Keeps-record_checkout, Keeps-clear_preflight_blocks,
}
use compose_lock.Reconcile.Revert.Keeping.{Keeps-degrade}
use compose_lock.Reconcile.Abort.Keeping.{Keeps-abort_before_up}
use compose_lock.Reconcile.Apply.{apply_and_watch}
use compose_lock.Health.{Snapshot}
use compose_lock.Reconcile.Revert.{do_revert}
use compose_lock.Reconcile.Normal.{
  recover_preflight, degrade_preflight, preflight_blocked, advance_checkout, judge_gate,
  gate_failed, pass_gate, gate, weigh_change, proceed, check_window, guard_commit, fetch_failed,
  after_fetch, run_normal,
}

module _ {ℓ} {Q : State → Type ℓ} {P R : World → Type ℓ} (env : Env) (cfg : Config) (opts : Options)
    (h : Acts Q P) (l : Lasts Q) (stop : (w : World) → P w → R w) where
  Leads-advance_checkout : (r : Result) → Leads P (advance_checkout env cfg r) R
  unfolding advance_checkout
  Leads-advance_checkout r =
      Leads-bind_option _ _ (Keeps-checkout_commit env h r.new_commit)
        (Leads-bind _ _ (Keeps-record_checkout env h.saves l r.new_commit) (λ _. Leads-pure stop _))
        (λ e. Leads-of stop _ (Keeps-abort_before_up env cfg h l r _ e))

  Leads-gate_failed : (r : Result) (e : Err) → Leads P (gate_failed env cfg r e) R
  unfolding gate_failed
  Leads-gate_failed r e = Leads-bind _ _ (Keeps-is_cancelled env h.saves.looks) (λ c.
      Leads-if c _ _ (Leads-pure stop _) (
        Leads-bind _ _ (Keeps-record_outcome env h.saves l _ r.new_commit)
          (λ _. Leads-pure stop _)))

  Leads-fetch_failed : (e : Err) → Leads P (fetch_failed env cfg e) R
  unfolding fetch_failed
  Leads-fetch_failed e = Leads-bind _ _ (Keeps-is_cancelled env h.saves.looks) (λ c.
      Leads-if c _ _ (Leads-pure stop _)
        (Leads-bind _ _ (Keeps-record_outcome env h.saves l _ "") (λ _. Leads-pure stop _)))

  module _
      (judge : (r : Result) (previous : List Stack) (live : Live)
        → Leads P (judge_gate env cfg opts r previous live) R) where
    Leads-pass_gate :
        (r : Result) (previous : List Stack) → Leads P (pass_gate env cfg opts r previous) R
    unfolding pass_gate
    Leads-pass_gate r previous =
        Leads-bind_try _ _ (Keeps-evaluate_live env cfg h.saves.looks previous)
          (Leads-gate_failed r) (judge r previous)

    Leads-gate : (r : Result) → Leads P (gate env cfg opts r) R
    unfolding gate
    Leads-gate r =
        Leads-bind_try _ _ (Keeps-stacks_allowing_empty env cfg h.saves.looks)
          (λ e. Leads-get_st env h.saves _ (λ s q.
            Leads-bind _ _ (Keeps-is_cancelled env h.saves.looks)
              (λ c. Leads-if c _ _ (Leads-pure stop _) (Leads-pass_gate r _))))
          (λ ss. Leads-get_st env h.saves _ (λ s q.
            Leads-bind _ _ (Keeps-is_cancelled env h.saves.looks) (λ c. Leads-pass_gate r ss)))

    Leads-weigh_change : (r : Result) → Leads P (weigh_change env cfg opts r) R
    unfolding weigh_change
    Leads-weigh_change r = Leads-get_st env h.saves _ (λ s q.
        Leads-bind _ _
          (Keeps-if _ _ _ (Keeps-pure true)
            (Keeps-relevant_change env cfg h.saves.looks r.changed_files))
          (λ b. Leads-if b _ _ (Leads-gate r) (Leads-advance_checkout _)))

    Leads-proceed : (r : Result) → Leads P (proceed env cfg opts r) R
    unfolding proceed
    Leads-proceed r = Leads-if _ _ _ (Leads-gate _) (Leads-weigh_change r)

    Leads-check_window : (r : Result) → Leads P (check_window env cfg opts r) R
    unfolding check_window
    Leads-check_window r =
        Leads-if _ _ _
          (Leads-bind _ _ (Keeps-read_clock env h.saves.looks)
            (λ now. Leads-if _ _ _ (Leads-pure stop _) (Leads-proceed r)))
          (Leads-proceed r)

    Leads-guard_commit : (r : Result) → Leads P (guard_commit env cfg opts r) R
    unfolding guard_commit
    Leads-guard_commit r = Leads-get_st env h.saves _ (λ s q. Leads-if _ _ _ (Leads-pure stop r) (
        Leads-if _ _ _
          (Leads-bind _ _ (Keeps-record_outcome env h.saves l _ r.new_commit)
            (λ _. Leads-pure stop _))
          (Leads-check_window r)))

    Leads-judged : Leads P (run_normal env cfg opts) R
    unfolding run_normal after_fetch
    Leads-judged =
        Leads-bind_try _ _ (Keeps-fetch_and_preview env h.saves.looks _ _) Leads-fetch_failed
          (λ g. Leads-guard_commit _)

  -- A dry run stops at the gate.
  pub Leads-run_normal_dry : opts.dry_run ≡ true → Leads P (run_normal env cfg opts) R
  unfolding judge_gate
  Leads-run_normal_dry d =
      Leads-judged (λ r previous live. Leads-if_true opts.dry_run _ _ d (Leads-pure stop _))

  module _
      (apply : (r : Result) (previous : List Stack) (pending : List String)
          (before : List (String × Snapshot))
        → Leads P (apply_and_watch env cfg r previous pending before) R)
      (back : (ss : List Stack) (failed reason : String)
        → Keeps P (do_revert env cfg ss failed reason)) where
    Leads-preflight_blocked :
        (r : Result) (previous : List Stack) (reason : String)
        → Leads P (preflight_blocked env cfg opts r previous reason) R
    unfolding preflight_blocked recover_preflight degrade_preflight
    Leads-preflight_blocked r previous reason =
        Leads-bind _ _
          (Keeps-if opts.force _ _ (Keeps-modify_st env h.saves _ (λ s. l.change unblocked))
            (Keeps-pure tt))
          (λ _. Leads-get_st env h.saves _ (λ s q.
            Leads-if _ _ _
              (Leads-bind _ _ (Keeps-degrade env cfg h.saves l _ _ _ _) (λ _. Leads-pure stop _))
              (Leads-get_st env h.saves _ (λ t q'.
                Leads-bind _ _ (Keeps-commit_state env h.saves _ (l.change blocked q'))
                  (λ _. Leads-bind _ _ (back _ _ _) (λ _. Leads-pure stop _))))))

    Leads-judge_gate :
        (r : Result) (previous : List Stack) (live : Live)
        → Leads P (judge_gate env cfg opts r previous live) R
    unfolding judge_gate
    Leads-judge_gate r previous live = Leads-if opts.dry_run _ _ (Leads-pure stop _) (
        Leads-if _ _ _ (Leads-preflight_blocked r previous live.reason) (
          Leads-bind _ _ (Keeps-clear_preflight_blocks env h.saves l)
            (λ _. Leads-get_st env h.saves _ (λ s q. apply _ _ _ _))))

    pub Leads-run_normal : Leads P (run_normal env cfg opts) R
    Leads-run_normal = Leads-judged Leads-judge_gate
