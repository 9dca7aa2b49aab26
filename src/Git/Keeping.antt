-- ===== src/Git/Keeping.antt =====
-- What fetching and comparing commits leave alone.
use compose_lock.Prelude.{◌∷◌, ◌≡◌, refl, ℕ, zero, suc, ◌-◌, String, Option, none, some, true}
use compose_lock.Errors.{Try, ok, err, Err, wrap, err}
use compose_lock.World.{
  run_git, moved_tree, ◌>>=◌, pure, checkout, World, M, Env, Command, git, fetch, rev_parse_head,
  rev_parse_remote, diff,
}
use compose_lock.State.{State}
use compose_lock.World.Acting.{Acts, Keeps-checkout}
use compose_lock.World.Rules.{Leads, Keeps, Keeps-bind, Keeps-pure, Keeps-if}
use compose_lock.World.Keeping.{Looks, is_look, looking_rules, Keeps-run_git}
use compose_lock.Git.{
  check_commit, run_trimmed, fetch_once, retry_after, sleep_then, retry, preview_from, diff_valid,
  checkout_outcome, trimmed, checkout_valid, checkout_commit, compare_commits, changed_between,
  preview, fetch_and_preview,
}

module _ {ℓ} {P : World → Type ℓ} (env : Env) (h : Looks P) where
  Keeps-run_trimmed : (c : Command) → is_look (git c) ≡ true → Keeps P (run_trimmed env c)
  unfolding run_trimmed
  Keeps-run_trimmed c q = search (looking_rules, Keeps-run_git)

  Keeps-fetch_once : Keeps P (fetch_once env)
  unfolding fetch_once is_look
  Keeps-fetch_once = search (looking_rules, Keeps-run_trimmed fetch refl)

  Keeps-retry_after :
      (fn : M (Option Err)) (n : ℕ) (e : Err) → Keeps P fn → Keeps P (retry_after env fn n e)
  unfolding retry_after sleep_then
  Keeps-retry_after fn zero e k = search (looking_rules)
  Keeps-retry_after fn (suc n) e k =
      let rest : (e' : Err) → Keeps P (retry_after env fn n e') =
        λ e'. Keeps-retry_after fn n e' k in
      search (looking_rules, rest) depth 9

  Keeps-retry : (fn : M (Option Err)) (n : ℕ) → Keeps P fn → Keeps P (retry env n fn)
  unfolding retry
  Keeps-retry fn n k =
      let rest : (e : Err) → Keeps P (retry_after env fn (n - 1) e) =
        λ e. Keeps-retry_after fn (n - 1) e k in
      search (looking_rules, rest) depth 9

  Keeps-changed_between : (a b : String) → Keeps P (changed_between env a b)
  unfolding changed_between is_look
  Keeps-changed_between a b = search (looking_rules, Keeps-run_git {P = P} env h (diff a b) refl)

  Keeps-diff_valid : (a b : String) (o : Option Err) → Keeps P (diff_valid env a b o)
  unfolding diff_valid
  Keeps-diff_valid a b (some e) = Keeps-pure (err (wrap "git rev-parse" e))
  Keeps-diff_valid a b none = Keeps-changed_between a b

  Keeps-compare_commits : (a b : String) → Keeps P (compare_commits env a b)
  unfolding compare_commits
  Keeps-compare_commits a b = search (Keeps-if, Keeps-pure, Keeps-diff_valid)

  Keeps-preview : (up : String) → Keeps P (preview env up)
  unfolding preview preview_from is_look
  Keeps-preview up =
      search
        (
          looking_rules,
          Keeps-compare_commits,
          Keeps-run_trimmed rev_parse_head refl,
          Keeps-run_trimmed rev_parse_remote refl,
        )
        depth 12

  pub Keeps-fetch_and_preview : (n : ℕ) (up : String) → Keeps P (fetch_and_preview env n up)
  unfolding fetch_and_preview
  Keeps-fetch_and_preview n up =
      search (looking_rules, Keeps-retry, Keeps-fetch_once, Keeps-preview) depth 9

module _ {ℓ} {Q : State → Type ℓ} {P : World → Type ℓ} (env : Env) (h : Acts Q P) where
  Keeps-checkout_valid : (c : String) (o : Option Err) → Keeps P (checkout_valid env c o)
  unfolding checkout_valid run_trimmed
  Keeps-checkout_valid c (some e) = Keeps-pure _
  Keeps-checkout_valid c none =
      Keeps-bind _ _ (Keeps-bind _ _ (Keeps-checkout env h c) (λ out. Keeps-pure _))
        (λ out. Keeps-pure _)

  pub Keeps-checkout_commit : (c : String) → Keeps P (checkout_commit env c)
  unfolding checkout_commit
  Keeps-checkout_commit c = Keeps-checkout_valid c (check_commit c)

module _ {ℓ} {B : Type 0} {Q : State → Type ℓ} {P P' R : World → Type ℓ} (env : Env) (h : Acts Q P)
    (c : String) (f : Option Err → M B)
    (moved : (w : World) → P w → P' (record w { tree = c; history = git (checkout c) ∷ w.history }))
    (done : Leads P' (f none) R) (failed : (e : Err) → Leads P (f (some e)) R) where
  Leads-checked :
      (answer : Try String) (w : World)
      → P w
      → R
          (f (checkout_outcome env c (trimmed env answer)) (record w {
            tree = moved_tree env (checkout c) answer w.tree;
            history = git (checkout c) ∷ w.history;
          })).1
  unfolding moved_tree checkout_outcome trimmed
  Leads-checked (ok out) w p = done.at _ (moved w p)
  Leads-checked (err e) w p = (failed _).at _ (h.move c w.tree w p)

  Leads-valid : (o : Option Err) → Leads P (checkout_valid env c o >>= f) R
  unfolding checkout_valid run_trimmed ◌>>=◌ pure run_git
  Leads-valid (some e) = record { at = λ w p. (failed _).at w p }
  Leads-valid none = record { at = λ w p. Leads-checked (env.run_git w.history (checkout c)) w p }

  -- The rest of the block may use that the tree is at `c` if the checkout went well.
  pub Leads-checkout : Leads P (checkout_commit env c >>= f) R
  unfolding checkout_commit
  Leads-checkout = Leads-valid (check_commit c)
