-- ===== src/Reconcile/Recovery/Answers.antt =====
-- What a recovery answers.
use compose_lock.Prelude.{arith, String, Option, none, some, List}
use compose_lock.Errors.{Err, Try, ok, err}
use compose_lock.Compose.{Stack}
use compose_lock.Config.{Config}
use compose_lock.World.{Env, pure}
use compose_lock.World.Yields.{
  Yields, Yields-bind, Yields-then, Yields-bind_option, Yields-pure, Yields-if,
}
use compose_lock.Reconcile.{Options}
use compose_lock.Reconcile.Answers.{IsConsistent, IsReverted-IsConsistent}
use compose_lock.Reconcile.Live.{Live}
use compose_lock.Reconcile.Revert.Answers.{Yields-degrade, Yields-do_revert}
use compose_lock.Reconcile.Apply.Answers.{Yields-apply_and_watch}
use compose_lock.Reconcile.Recovery.{
  failed_with, revert_pending, apply_pending, judge_live, resume_revert, recover_from,
  discover_and_recover, give_up, within_limits, recover_pending, recover, recover_from_crash,
}

module _ (env : Env) (cfg : Config) (opts : Options) (commit : String) where
  -- A recovery that ends before it has begun reports its error and nothing else.
  Yields-failed : (e : Err) → Yields IsConsistent (pure (failed_with commit e))
  unfolding failed_with
  Yields-failed e = Yields-pure _ (ground arith)

  Yields-given_up : (why : String) → Yields IsConsistent (give_up env cfg opts commit why)
  unfolding give_up
  Yields-given_up why = record {
    at = λ w. IsReverted-IsConsistent _ ((Yields-degrade env cfg commit "" _ _).at w);
  }

  Yields-revert_pending :
      (ss : List Stack) (reason : String)
      → Yields IsConsistent (revert_pending env cfg opts commit ss reason)
  unfolding revert_pending
  Yields-revert_pending ss reason = Yields-bind _ _ (λ s.
      Yields-then _ _ (Yields-do_revert env cfg _ commit reason)
        (λ r q. Yields-pure _ (IsReverted-IsConsistent _ (ground (arith, q)))))

  Yields-apply_pending :
      (ss : List Stack) (live : Live) (o : Option String)
      → Yields IsConsistent (apply_pending env cfg opts commit ss live o)
  unfolding apply_pending
  Yields-apply_pending ss live (some newer) =
      Yields-bind _ _ (λ s. Yields-apply_and_watch env cfg _ _ _ _ (ground arith))
  Yields-apply_pending ss live none =
      Yields-bind _ _ (λ s. Yields-apply_and_watch env cfg _ _ _ _ (ground arith))

  Yields-judge_live :
      (ss : List Stack) (newer : Option String) (o : Try Live)
      → Yields IsConsistent (judge_live env cfg opts commit ss newer o)
  unfolding judge_live
  Yields-judge_live ss newer (err e) = Yields-failed _
  Yields-judge_live ss newer (ok live) =
      Yields-bind_option _ _
        (Yields-if _ _ _ (Yields-revert_pending ss _) (Yields-apply_pending ss live newer))
        Yields-failed

  Yields-recover_from :
      (newer : Option String) (o : Try (List Stack))
      → Yields IsConsistent (recover_from env cfg opts commit newer o)
  unfolding recover_from resume_revert
  Yields-recover_from newer (err e) = Yields-failed _
  Yields-recover_from newer (ok ss) = Yields-bind _ _ (λ s.
      Yields-if _ _ _ (Yields-bind_option _ _ (Yields-revert_pending ss _) Yields-failed)
        (Yields-bind _ _ (Yields-judge_live ss newer)))

  Yields-discover_and_recover :
      (newer : Option String) → Yields IsConsistent (discover_and_recover env cfg opts commit newer)
  unfolding discover_and_recover
  Yields-discover_and_recover newer = Yields-bind _ _ (Yields-recover_from newer)

  Yields-within_limits :
      (o : Option String) → Yields IsConsistent (within_limits env cfg opts commit o)
  unfolding within_limits
  Yields-within_limits (some newer) = Yields-discover_and_recover (some newer)
  Yields-within_limits none = Yields-bind _ _ (λ s. Yields-if _ _ _ (Yields-given_up _) (
      Yields-bind _ _ (λ now.
        Yields-if _ _ _ (Yields-given_up " has been pending longer than the recovery budget")
          (Yields-discover_and_recover none))))

  Yields-recover : Yields IsConsistent (recover env cfg opts commit)
  unfolding recover recover_pending
  Yields-recover =
      Yields-if opts.dry_run _ _ (Yields-pure _ (ground arith))
        (Yields-bind _ _ (λ _. Yields-bind _ _ (λ s. Yields-bind _ _ Yields-within_limits)))

pub Yields-recover_from_crash :
    (env : Env) (cfg : Config) (opts : Options)
    → Yields IsConsistent (recover_from_crash env cfg opts)
unfolding recover_from_crash
Yields-recover_from_crash env cfg opts =
    Yields-bind _ _ (λ s. Yields-recover env cfg opts s.pending_commit)
