-- ===== src/Reconcile/Watching/Keeping.antt =====
-- What the watch of several stacks keeps.
use compose_lock.Prelude.{◌∷◌, String, List, []}
use compose_lock.Health.{Outcome}
use compose_lock.Compose.{Stack, Project}
use compose_lock.Config.{Config}
use compose_lock.World.{World, Env, watched}
use compose_lock.World.Rules.{Keeps}
use compose_lock.Reconcile.Watching.{watch_stacks, verdict_of, combined_in}

module _ {ℓ} {P : World → Type ℓ} (env : Env) (cfg : Config)
    (seen : (c : String) (o : Outcome) (w : World)
      → P w
      → P (record w { history = watched c o ∷ w.history })) where
  pub Keeps-watch_stacks :
      (projects : List (Stack × Project)) (commit : String)
      → Keeps P (watch_stacks env cfg projects commit)
  unfolding watch_stacks
  Keeps-watch_stacks [] commit = record { at = λ w p. p }
  Keeps-watch_stacks (p ∷ ps) commit = record {
    at = λ w q. seen commit (verdict_of (combined_in env cfg w commit (p ∷ ps))) w q;
  }
