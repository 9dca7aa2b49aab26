-- ===== src/Reconcile/Run/Reached.antt =====
-- What a reconcile makes of the state file: only the changes of Reconcile/Change, and so whatever all
-- of them keep.
use compose_lock.Prelude.{refl}
use compose_lock.State.{State}
use compose_lock.State.Limits.{IsBounded}
use compose_lock.Config.{Config}
use compose_lock.World.{World, Env}
use compose_lock.World.Acting.{Acts}
use compose_lock.Reconcile.{Options}
use compose_lock.Reconcile.Change.{begun, Evolves}
use compose_lock.Reconcile.Change.Bounds.{Change-IsBounded, promoted-IsBounded}
use compose_lock.Reconcile.Change.Pause.{IsPausedAs, Change-IsPausedAs, promoted-IsPausedAs}
use compose_lock.Reconcile.Projects.Keeping.{Raises}
use compose_lock.Reconcile.Saving.Keeping.{Keeps-promote_healthy}
use compose_lock.Reconcile.Revert.Keeping.{Returns, Keeps-do_revert}
use compose_lock.Reconcile.Apply.Keeping.{Stages, Leads-apply_and_watch}
use compose_lock.Reconcile.Run.{reconcile}
use compose_lock.Reconcile.Run.Keeping.{Leads-reconcile}

-- Both the state file and the state in memory have `Q`.
pub record Both {ℓ} (Q : State → Type ℓ) (w : World) : Type ℓ where
  pub on_disk : Q w.disk
  pub in_memory : Q w.st

pub Both-acts {ℓ} : (Q : State → Type ℓ) → Acts Q (Both Q)
Both-acts Q = record {
  saves = record {
    looks = record { look = λ e w q p. record { on_disk = p.on_disk; in_memory = p.in_memory } };
    memory = λ w p. p.in_memory;
    stored = λ w p. p.on_disk;
    put = λ s w q p. record { on_disk = p.on_disk; in_memory = q };
    save_new = λ s w q p. record { on_disk = q; in_memory = p.in_memory };
    save_lost = λ s w p. record { on_disk = p.on_disk; in_memory = p.in_memory };
  };
  move = λ c t w p. record { on_disk = p.on_disk; in_memory = p.in_memory };
}

Both-raises {ℓ} : (Q : State → Type ℓ) → Raises (Both Q)
Both-raises Q = record {
  works = record { event = λ e w f p. record { on_disk = p.on_disk; in_memory = p.in_memory } };
  raise = λ n w p. record { on_disk = p.on_disk; in_memory = p.in_memory };
}

Both-returns {ℓ} : (Q : State → Type ℓ) → Returns Q (Both Q) (Both Q)
Both-returns Q = record {
  saves = (Both-acts Q).saves;
  raises = Both-raises Q;
  moved = λ s w q p. record { on_disk = p.on_disk; in_memory = p.in_memory };
  home = λ w p. p;
}

Both-stages {ℓ} :
    {Q : State → Type ℓ} → Evolves Q → Stages Q (Both Q) (λ c. Both Q) (λ c. Both Q) (Both Q)
Both-stages {Q = Q} l = record {
  acts = Both-acts Q;
  lasts = l.lasts;
  looks = λ c. (Both-acts Q).saves.looks;
  works = λ c. (Both-raises Q).works;
  moved = λ c w p. record { on_disk = p.on_disk; in_memory = p.in_memory };
  left = λ c w p. p;
  begun = λ c s at names w q p.
      let next = l.lasts.change (begun at c names) q in record { on_disk = next; in_memory = next };
  raises = λ c. Both-raises Q;
  raised_all = λ c w p. p;
  tears = (Both-raises Q).works;
  promotes = λ env commit stacks. Keeps-promote_healthy env (Both-acts Q).saves l commit stacks;
  stop = λ w p. p;
}

-- A property of states that every change keeps outlives a reconcile, on disk and in memory.
pub lasting_kept {ℓ} :
    {Q : State → Type ℓ} (l : Evolves Q) (env : Env) (cfg : Config) (opts : Options) (w : World)
    → Q w.disk
    → Q w.st
    → Both Q (reconcile env cfg opts w).1
lasting_kept {Q = Q} l env cfg opts w d m =
    let acts = Both-acts Q in
    let back = Keeps-do_revert env cfg acts l.lasts (Both-returns Q) in
    (Leads-reconcile env cfg opts acts l.lasts acts.saves l.lasts (λ w' p. p)
        (Leads-apply_and_watch env cfg (Both-stages l) back) back).at
      w (record { on_disk = d; in_memory = m })

-- A reconcile that finds bounded states on disk and in memory leaves a bounded state on disk, whatever
-- the world answers: at most sixteen failed commits, none twice, and at most twenty deployments.
reconcile-IsBounded :
    (env : Env) (cfg : Config) (opts : Options) (w : World)
    → IsBounded w.disk
    → IsBounded w.st
    → IsBounded (reconcile env cfg opts w).1.disk
reconcile-IsBounded env cfg opts w d m =
    (lasting_kept
      (record { lasts = record { change = Change-IsBounded }; promote = promoted-IsBounded }) env
      cfg opts w d m).on_disk

-- A reconcile neither pauses nor resumes, and keeps the schema: whatever it saves is paused as the
-- state that it found on disk, if the state in memory is at first.
pub reconcile-pause :
    (env : Env) (cfg : Config) (opts : Options) (w : World)
    → IsPausedAs w.disk w.st
    → IsPausedAs w.disk (reconcile env cfg opts w).1.disk
reconcile-pause env cfg opts w m =
    (lasting_kept {Q = IsPausedAs w.disk}
      (record {
        lasts = record { change = Change-IsPausedAs _ };
        promote = promoted-IsPausedAs w.disk;
      })
      env cfg opts w
      (record { same_at = refl; same_until = refl; same_reason = refl; same_schema = refl })
      m).on_disk
