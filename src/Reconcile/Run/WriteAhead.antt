-- ===== src/Reconcile/Run/WriteAhead.antt =====
-- What a crash in the middle of a run leaves for the next: whenever a project is brought up, the state
-- file names the commit that is being deployed, as pending or as the last healthy one.
use compose_lock.Prelude.{◌≡◌, refl, sym, ◌∙◌, inl, inr, ℕ, String, false, List, ◌∷◌}
use compose_lock.State.{State}
use compose_lock.Config.{Config}
use compose_lock.World.{World, Env, Event, state_saved}
use compose_lock.World.Keeping.{Looks}
use compose_lock.World.Acting.{Saves, Acts}
use compose_lock.World.Rules.{Leads-from}
use compose_lock.Reconcile.{Options}
use compose_lock.Reconcile.Change.{Lasts, begun}
use compose_lock.Reconcile.Projects.Keeping.{Works, Raises, is_up}
use compose_lock.Reconcile.Revert.Keeping.{Returns, Keeps-do_revert}
use compose_lock.Reconcile.Apply.{pending_state}
use compose_lock.Reconcile.Apply.Keeping.{Stages, Leads-apply_and_watch}
use compose_lock.Reconcile.Saving.Keeping.{Keeps-promote_healthy}
use compose_lock.Reconcile.Run.Journal.{
  IsJournalled, IsJournalled-event, look_is_no_up, Journalled, Journalled-saves,
  Change-last_healthy,
}
use compose_lock.Reconcile.Run.{reconcile}
use compose_lock.Reconcile.Run.Keeping.{Leads-reconcile}

-- The last healthy commit is `c`, on disk and in memory.
record IsSafe (c : String) (w : World) : Type 0 where
  journal : IsJournalled w.history
  on_disk : w.disk.last_healthy_commit ≡ c
  in_memory : w.st.last_healthy_commit ≡ c

-- And `t` is checked out.
record IsAt (c t : String) (w : World) : Type 0 where
  safe : IsSafe c w
  at_tree : w.tree ≡ t

-- And `t` is pending on disk.
record IsPending (c t : String) (w : World) : Type 0 where
  at : IsAt c t w
  is_pending : w.disk.pending_commit ≡ t

module _ (c : String) where
  abbrev HasHealthy : State → Type 0
  HasHealthy s = s.last_healthy_commit ≡ c

  healthy_lasts : Lasts HasHealthy
  healthy_lasts = record { change = λ k h. Change-last_healthy k ∙ h }

  IsSafe-event :
      (e : Event) (w : World)
      → is_up e ≡ false
      → IsSafe c w
      → IsSafe c (record w { history = e ∷ w.history })
  IsSafe-event e w f p = record {
    journal = IsJournalled-event e w.history f p.journal;
    on_disk = p.on_disk;
    in_memory = p.in_memory;
  }

  IsSafe-saves : Saves HasHealthy (IsSafe c)
  IsSafe-saves = record {
    looks = record { look = λ e w q p. IsSafe-event e w (look_is_no_up e q) p };
    memory = λ w p. p.in_memory;
    stored = λ w p. p.on_disk;
    put = λ s w q p. record { journal = p.journal; on_disk = p.on_disk; in_memory = q };
    save_new = λ s w q p. record { journal = p.journal; on_disk = q; in_memory = p.in_memory };
    save_lost =
        λ s w p. record { journal = p.journal; on_disk = p.on_disk; in_memory = p.in_memory };
  }

  IsSafe-acts : Acts HasHealthy (IsSafe c)
  IsSafe-acts = record {
    saves = IsSafe-saves;
    move = λ d t w p. record { journal = p.journal; on_disk = p.on_disk; in_memory = p.in_memory };
  }

  IsAt-looks : (t : String) → Looks (IsAt c t)
  IsAt-looks t = record {
    look = λ e w q p. record {
      safe = IsSafe-event e w (look_is_no_up e q) p.safe;
      at_tree = p.at_tree;
    };
  }

  IsAt-works : (t : String) → Works (IsAt c t)
  IsAt-works t = record {
    event = λ e w f p. record { safe = IsSafe-event e w f p.safe; at_tree = p.at_tree };
  }

  -- While the last healthy commit is checked out, a revert may save what it likes and raise stacks.
  IsAt-saves : Saves HasHealthy (IsAt c c)
  IsAt-saves = record {
    looks = IsAt-looks c;
    memory = λ w p. p.safe.in_memory;
    stored = λ w p. p.safe.on_disk;
    put = λ s w q p. record { safe = IsSafe-saves.put s w q p.safe; at_tree = p.at_tree };
    save_new = λ s w q p. record { safe = IsSafe-saves.save_new s w q p.safe; at_tree = p.at_tree };
    save_lost = λ s w p. record { safe = IsSafe-saves.save_lost s w p.safe; at_tree = p.at_tree };
  }

  IsAt-raises : Raises (IsAt c c)
  IsAt-raises = record {
    works = IsAt-works c;
    raise = λ n w p. record {
      safe = record {
        journal = (inr (p.safe.on_disk ∙ sym p.at_tree), p.safe.journal);
        on_disk = p.safe.on_disk;
        in_memory = p.safe.in_memory;
      };
      at_tree = p.at_tree;
    };
  }

  IsSafe-returns : Returns HasHealthy (IsSafe c) (IsAt c c)
  IsSafe-returns = record {
    saves = IsAt-saves;
    raises = IsAt-raises;
    moved = λ s w q p. record { safe = IsSafe-acts.move _ _ w p; at_tree = q };
    home = λ w p. p.safe;
  }

  IsPending-raises : (t : String) → Raises (IsPending c t)
  IsPending-raises t = record {
    works = record {
      event = λ e w f p. record { at = (IsAt-works t).event e w f p.at; is_pending = p.is_pending };
    };
    raise = λ n w p. record {
      at = record {
        safe = record {
          journal = (inl (p.is_pending ∙ sym p.at.at_tree), p.at.safe.journal);
          on_disk = p.at.safe.on_disk;
          in_memory = p.at.safe.in_memory;
        };
        at_tree = p.at.at_tree;
      };
      is_pending = p.is_pending;
    };
  }

  IsPending-begun :
      (t : String) (s : State) (at : ℕ) (names : List String) (w : World)
      → HasHealthy s
      → IsAt c t w
      → IsPending c t (record w {
        disk = pending_state s at t names;
        st = pending_state s at t names;
        history = state_saved (pending_state s at t names) ∷ w.history;
      })
  unfolding pending_state
  IsPending-begun t s at names w q p =
      let next = healthy_lasts.change (begun at t names) q in
      record {
        at = record {
          safe = record { journal = p.safe.journal; on_disk = next; in_memory = next };
          at_tree = p.at_tree;
        };
        is_pending = refl;
      }

  IsSafe-stages : Stages HasHealthy (IsSafe c) (IsAt c) (IsPending c) Journalled
  unfolding Journalled
  IsSafe-stages = record {
    acts = IsSafe-acts;
    lasts = healthy_lasts;
    looks = IsAt-looks;
    works = IsAt-works;
    moved = λ t w p. record { safe = IsSafe-acts.move _ _ w p; at_tree = refl };
    left = λ t w p. p.safe;
    begun = IsPending-begun;
    raises = IsPending-raises;
    raised_all = λ t w p. p.at.safe;
    tears = record { event = IsSafe-event };
    promotes = λ env commit stacks.
        Leads-from (λ w p. p.journal) _
          (Keeps-promote_healthy env Journalled-saves
            (record { lasts = record { change = λ k h. tt }; promote = λ s t d n h. tt }) commit
            stacks);
    stop = λ w p. p.journal;
  }

-- Whatever the world answers, a run that finds the state in memory with the last healthy commit of the
-- one on disk, after a history in which each project was brought up at a checkout that the state file
-- named, goes on so: at each up the state on disk names the commit that is checked out, as the pending
-- or as the last healthy one.
pub reconcile-IsJournalled :
    (env : Env) (cfg : Config) (opts : Options) (w : World)
    → w.st.last_healthy_commit ≡ w.disk.last_healthy_commit
    → IsJournalled w.history
    → IsJournalled (reconcile env cfg opts w).1.history
unfolding Journalled
reconcile-IsJournalled env cfg opts w same before =
    let c = w.disk.last_healthy_commit in
    let lasts = healthy_lasts c in
    let back = Keeps-do_revert env cfg (IsSafe-acts c) lasts (IsSafe-returns c) in
    (Leads-reconcile env cfg opts (IsSafe-acts c) lasts Journalled-saves
        (record { change = λ k h. tt }) (λ w' p. p.journal)
        (Leads-apply_and_watch env cfg (IsSafe-stages c) back) back).at
      w (record { journal = before; on_disk = refl; in_memory = same })
