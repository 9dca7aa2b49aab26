-- ===== src/Git.antt =====
-- internal/git/git.go: fetching, comparing and checking out commits. The commands themselves run
-- outside; what they print is in `Env`.
pub mod Keeping
pub mod Retries
pub mod Describing
use Prim.Native.Char.{code}
use compose_lock.Prelude.{
  ℕ, zero, suc, ◌+◌, ◌-◌, String, ◌<>◌, len, Bool, true, false, not, ◌&&◌, ◌||◌, Option, none, some,
  List, [], ◌∷◌, ltb, leb, beq, ◌==◌, if◌then◌else◌,
}
use compose_lock.Strings.{trim_space, split_on, has_substring, to_lower}
use compose_lock.Errors.{Err, plain, ext, wrap, canceled, Try, ok, err, message, join_errors}
use compose_lock.World.{
  World, M, pure, gets, ◌>>=◌, ◌>>◌, Env, Command, fetch, rev_parse_head, rev_parse_remote, diff,
  checkout, run_git, is_cancelled, sleep_ctx,
}

pub record GitResult : Type 0 where
  pub changed : Bool
  pub old_commit : String
  pub new_commit : String
  pub changed_files : List String

hex_digit : ℕ → Bool
hex_digit c =
    (leb b'0' c && leb c b'9') || ((leb b'a' c && leb c b'f') || (leb b'A' c && leb c b'F'))

all_hex : String → Bool
unfolding hex_digit
all_hex String.[] = true
all_hex (String.◌∷◌ c s) = hex_digit (code c) && all_hex s

unfoldable pub valid_commit : String → Bool
unfolding all_hex
valid_commit c = if ltb (len c) 4 || ltb 64 (len c) then false else all_hex c

unfoldable pub check_commit : String → Option Err
check_commit c =
    if valid_commit c
    then none
    else some (plain ("\"" <> (c <> "\" is not a commit id (expected 4 to 64 hex characters)")))

drop_empty : List String → List String
drop_empty [] = []
drop_empty (f ∷ fs) = let rest = drop_empty fs in if f == "" then rest else f ∷ rest

unfoldable pub split_nul : String → List String
unfolding drop_empty
split_nul out = drop_empty (split_on 0 out)

module _ (env : Env) where
  trimmed : Try String → Try String
  trimmed (ok s) = ok (trim_space s)
  trimmed (err e) = err e

  -- The method `git`: what a command prints, with the spaces around it gone.
  run_trimmed : Command → M (Try String)
  unfolding trimmed
  run_trimmed cmd = do out ← run_git env cmd; pure (trimmed out)

  pub fetch_once : M (Option Err)
  unfolding run_trimmed
  fetch_once = do
    out ← run_trimmed fetch
    pure (elim out [ ok s ↦ none | err e ↦ some (wrap "git fetch" e) ])

  changed_between : String → String → M (Try GitResult)
  changed_between old_commit new_commit = do
    out ← run_git env (diff old_commit new_commit)
    pure (elim out [
      | err e ↦ err (wrap "git diff" e)
      | ok s ↦ ok (record {
        changed = true;
        old_commit = old_commit;
        new_commit = new_commit;
        changed_files = split_nul s;
      })
    ])

  -- The diff, unless one of the two is no commit.
  diff_valid : String → String → Option Err → M (Try GitResult)
  unfolding changed_between
  diff_valid old_commit new_commit (some e) = pure (err (wrap "git rev-parse" e))
  diff_valid old_commit new_commit none = changed_between old_commit new_commit

  compare_commits : String → String → M (Try GitResult)
  unfolding diff_valid
  compare_commits old_commit new_commit =
      if old_commit == new_commit
      then pure (
          ok (record {
            changed = false;
            old_commit = old_commit;
            new_commit = new_commit;
            changed_files = [];
          }))
      else diff_valid old_commit new_commit
          (join_errors (check_commit old_commit) (check_commit new_commit))

  preview_from : String → Try String → M (Try GitResult)
  unfolding run_trimmed compare_commits
  preview_from upstream (err e) = pure (err (wrap "git rev-parse HEAD" e))
  preview_from upstream (ok old_commit) = do
    new ← run_trimmed rev_parse_remote
    elim new [
      | err e ↦ pure (err (wrap ("git rev-parse " <> upstream) e))
      | ok new_commit ↦ compare_commits old_commit new_commit
    ]

  -- A nil slice is an empty list: `splitNUL` answers nil where there is no file.
  unfoldable pub preview : String → M (Try GitResult)
  unfolding preview_from run_trimmed
  preview upstream = do old ← run_trimmed rev_parse_head; preview_from upstream old

  checkout_outcome : String → Try String → Option Err
  checkout_outcome commit (ok s) = none
  checkout_outcome commit (err e) = some (wrap ("git checkout " <> commit) e)

  -- The checkout, unless `commit` is no commit.
  checkout_valid : String → Option Err → M (Option Err)
  unfolding run_trimmed checkout_outcome
  checkout_valid commit (some e) = pure (some (wrap "git checkout" e))
  checkout_valid commit none = do
    out ← run_trimmed (checkout commit)
    pure (checkout_outcome commit out)

  unfoldable pub checkout_commit : String → M (Option Err)
  unfolding checkout_valid
  checkout_commit commit = checkout_valid commit (check_commit commit)

  permanent_text : String → Bool
  permanent_text msg =
      has_substring msg "not a git repository"
      || (has_substring msg "does not appear to be a git repository"
          || (has_substring msg "couldn't find remote ref"
              || (has_substring msg "repository not found" || has_substring msg "invalid refspec")))

  permanent : Err → Bool
  unfolding permanent_text
  permanent e = permanent_text (to_lower (message e))

  -- `sleepCtx`, and the rest of the loop if it slept to the end.
  sleep_then : M (Option Err) → M (Option Err)
  sleep_then rest = do
    awake ← sleep_ctx env
    if awake then rest else pure (some (ext canceled "context canceled"))

  -- The loop of `retry` on an action that has just failed with `e`: `left` attempts remain.
  retry_after : M (Option Err) → ℕ → Err → M (Option Err)
  unfolding permanent sleep_then
  retry_after fn zero e = pure (some (wrap "git sync failed" e))
  retry_after fn (suc left) e =
      if permanent e
      then pure (some (wrap "git sync failed" e))
      else sleep_then
          (fn >>= λ outcome. elim outcome [ none ↦ pure none | some e' ↦ retry_after fn left e' ])

  -- `attempts` below 1 count as 1.
  unfoldable pub retry : ℕ → M (Option Err) → M (Option Err)
  unfolding retry_after
  retry attempts fn = do
    outcome ← fn
    elim outcome [ none ↦ pure none | some e ↦ retry_after fn (attempts - 1) e ]

  unfoldable pub fetch_and_preview : ℕ → String → M (Try GitResult)
  unfolding retry fetch_once preview
  fetch_and_preview attempts upstream = do
    outcome ← retry attempts fetch_once
    elim outcome [ some e ↦ pure (err e) | none ↦ preview upstream ]
