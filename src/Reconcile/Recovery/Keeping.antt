-- ===== src/Reconcile/Recovery/Keeping.antt =====
-- Where a recovery leads, given what an apply and a revert do: from worlds with `P` to worlds with `R`.
use compose_lock.Prelude.{◌≡◌, String, true, Option, none, some, List}
use compose_lock.Errors.{Try, ok, err}
use compose_lock.State.{State}
use compose_lock.Compose.{Stack}
use compose_lock.Config.{Config}
use compose_lock.Git.Keeping.{Keeps-fetch_and_preview}
use compose_lock.World.{World, Env}
use compose_lock.World.Rules.{
  Keeps, Leads, Keeps-bind, Keeps-pure, Keeps-if, Leads-bind, Leads-bind_option, Leads-pure,
  Leads-if, Leads-if_true, Leads-of,
}
use compose_lock.World.Keeping.{Keeps-read_clock}
use compose_lock.World.Acting.{Saves, Leads-get_st, Keeps-get_st, Keeps-modify_st}
use compose_lock.Reconcile.{Options, Result}
use compose_lock.Reconcile.Change.{Lasts, forced}
use compose_lock.Reconcile.Live.{Live}
use compose_lock.Reconcile.Live.Keeping.{Keeps-stacks_allowing_empty, Keeps-evaluate_live}
use compose_lock.Reconcile.Saving.Keeping.{Keeps-count_recovery_attempt}
use compose_lock.Reconcile.Revert.Keeping.{Keeps-degrade}
use compose_lock.Reconcile.Apply.{apply_and_watch}
use compose_lock.Health.{Snapshot}
use compose_lock.Reconcile.Revert.{do_revert}
use compose_lock.Reconcile.Recovery.{
  superseding_commit, revert_pending, apply_pending, judge_live, resume_revert, recover_from,
  discover_and_recover, give_up, within_limits, forced_reset, recover_pending, recover,
  recover_from_crash,
}

module _ {ℓ} {Q : State → Type ℓ} {P R : World → Type ℓ} (env : Env) (cfg : Config) (opts : Options)
    (h : Saves Q P) (l : Lasts Q) (stop : (w : World) → P w → R w) where
  module _
      (apply : (r : Result) (previous : List Stack) (pending : List String)
          (before : List (String × Snapshot))
        → Leads P (apply_and_watch env cfg r previous pending before) R)
      (back : (ss : List Stack) (failed reason : String)
        → Keeps P (do_revert env cfg ss failed reason))
      (commit : String) where
    Keeps-superseding_commit : Keeps P (superseding_commit env cfg opts commit)
    unfolding superseding_commit
    Keeps-superseding_commit =
        Keeps-bind _ _ (Keeps-fetch_and_preview env h.looks _ _)
          (λ o. Keeps-get_st env h _ (λ s q. Keeps-pure _))

    Leads-revert_pending :
        (ss : List Stack) (reason : String)
        → Leads P (revert_pending env cfg opts commit ss reason) R
    unfolding revert_pending
    Leads-revert_pending ss reason =
        Leads-get_st env h _ (λ s q. Leads-bind _ _ (back _ commit reason) (λ r. Leads-pure stop _))

    Leads-apply_pending :
        (ss : List Stack) (live : Live) (o : Option String)
        → Leads P (apply_pending env cfg opts commit ss live o) R
    unfolding apply_pending
    Leads-apply_pending ss live (some newer) = Leads-get_st env h _ (λ s q. apply _ _ _ _)
    Leads-apply_pending ss live none = Leads-get_st env h _ (λ s q. apply _ _ _ _)

    Leads-judge_live :
        (ss : List Stack) (newer : Option String) (o : Try Live)
        → Leads P (judge_live env cfg opts commit ss newer o) R
    unfolding judge_live
    Leads-judge_live ss newer (err e) = Leads-pure stop _
    Leads-judge_live ss newer (ok live) =
        Leads-bind_option _ _ (Keeps-count_recovery_attempt env h l)
          (Leads-if _ _ _ (Leads-revert_pending ss _) (Leads-apply_pending ss live newer))
          (λ e. Leads-pure stop _)

    Leads-resume_revert : (ss : List Stack) → Leads P (resume_revert env cfg opts commit ss) R
    unfolding resume_revert
    Leads-resume_revert ss =
        Leads-bind_option _ _ (Keeps-count_recovery_attempt env h l) (Leads-revert_pending ss _)
          (λ e. Leads-pure stop _)

    Leads-recover_from :
        (newer : Option String) (o : Try (List Stack))
        → Leads P (recover_from env cfg opts commit newer o) R
    unfolding recover_from
    Leads-recover_from newer (err e) = Leads-pure stop _
    Leads-recover_from newer (ok ss) = Leads-get_st env h _ (λ s q.
        Leads-if _ _ _ (Leads-resume_revert ss)
          (Leads-bind _ _ (Keeps-evaluate_live env cfg h.looks ss) (Leads-judge_live ss newer)))

    Leads-discover_and_recover :
        (newer : Option String) → Leads P (discover_and_recover env cfg opts commit newer) R
    unfolding discover_and_recover
    Leads-discover_and_recover newer =
        Leads-bind _ _ (Keeps-stacks_allowing_empty env cfg h.looks) (Leads-recover_from newer)

    Leads-within_limits : (o : Option String) → Leads P (within_limits env cfg opts commit o) R
    unfolding within_limits give_up
    Leads-within_limits (some newer) = Leads-discover_and_recover (some newer)
    Leads-within_limits none = Leads-get_st env h _ (λ s q.
        Leads-if _ _ _ (Leads-of stop _ (Keeps-degrade env cfg h l commit _ _ _)) (
          Leads-bind _ _ (Keeps-read_clock env h.looks) (λ now.
            Leads-if _ _ _ (Leads-of stop _ (Keeps-degrade env cfg h l commit _ _ _))
              (Leads-discover_and_recover none))))

    Keeps-forced_reset : Keeps P (forced_reset env cfg opts commit)
    unfolding forced_reset
    Keeps-forced_reset =
        Keeps-if opts.force _ _
          (Keeps-bind _ _ (Keeps-read_clock env h.looks)
            (λ now. Keeps-modify_st env h _ (λ s. l.change (forced now))))
          (Keeps-pure tt)

    Leads-recover_pending : Leads P (recover_pending env cfg opts commit) R
    unfolding recover_pending
    Leads-recover_pending = Leads-bind _ _ Keeps-forced_reset (λ _. Leads-get_st env h _ (λ s q.
        Leads-bind _ _ (Keeps-if _ _ _ (Keeps-pure none) Keeps-superseding_commit)
          Leads-within_limits))

  pub Leads-recover_from_crash :
      (apply : (r : Result) (previous : List Stack) (pending : List String)
          (before : List (String × Snapshot))
        → Leads P (apply_and_watch env cfg r previous pending before) R)
      (back : (ss : List Stack) (failed reason : String)
        → Keeps P (do_revert env cfg ss failed reason))
      → Leads P (recover_from_crash env cfg opts) R
  unfolding recover_from_crash recover
  Leads-recover_from_crash apply back = Leads-get_st env h _ (λ s q.
      Leads-if _ _ _ (Leads-pure stop _) (Leads-recover_pending apply back s.pending_commit))

  -- A dry run recovers nothing.
  pub Leads-recover_from_crash_dry :
      opts.dry_run ≡ true → Leads P (recover_from_crash env cfg opts) R
  unfolding recover_from_crash recover
  Leads-recover_from_crash_dry d =
      Leads-get_st env h _ (λ s q. Leads-if_true opts.dry_run _ _ d (Leads-pure stop _))
