-- ===== src/Reconcile/CommitContext.antt =====
-- internal/reconcile/commitcontext.go: the commits that a notification names. The timeout of ten
-- seconds is in what git answers.
use compose_lock.Prelude.{
  ℕ, String, Bool, not, ◌&&◌, ◌||◌, Option, none, some, List, ◌==◌, if◌then◌else◌,
}
use compose_lock.Strings.{trim_suffix}
use compose_lock.Errors.{Try, ok, err}
use compose_lock.Git.Describing.{RemoteUrl, describe, count_commits, remote_url, web_url}
use compose_lock.Notify.Embed.{Embed}
use compose_lock.Notify.Context.{CommitInfo, CommitContext}
use compose_lock.Notify.Context

module _ (git : List String → Try String) (parse_url : String → Option RemoteUrl) where
  info_of : String → Try (String × String) → Try CommitInfo
  info_of commit (err e) = err e
  info_of commit (ok (subject, author)) =
      ok (record { id = commit; subject = subject; author = author })

  unfoldable pub describe_commit : String → Try CommitInfo
  unfolding info_of
  describe_commit commit = info_of commit (describe git commit)

  from_remote : Try String → String
  from_remote (err e) = ""
  from_remote (ok remote) = web_url parse_url remote

  -- `repo_url` and `remote` are of the configuration.
  unfoldable pub repo_web_url : String → String → String
  unfolding from_remote
  repo_web_url repo_url remote =
      if repo_url == "" then from_remote (remote_url git remote) else trim_suffix repo_url "/"

  with_rollback : String → CommitContext → Try CommitInfo → CommitContext
  with_rollback rollback c (err e) = c
  with_rollback rollback c (ok r) = record c { rollback = some r; base = rollback }

  with_count : CommitContext → Try ℕ → CommitContext
  with_count c (err e) = c
  with_count c (ok n) = record c { count = n }

  -- The context of `commit`, whose description is known.
  unfoldable pub context_of : String → CommitInfo → String → String → CommitContext
  unfolding with_rollback with_count
  context_of repo_url info base rollback =
      let c : CommitContext = record {
        repo_url = repo_url;
        commit = info;
        base = "";
        count = 0;
        rollback = none;
      } in
      if not (rollback == "") && not (rollback == info.id)
      then with_rollback rollback c (describe_commit rollback)
      else if not (base == "") && not (base == info.id)
      then with_count (record c { base = base }) (count_commits git base info.id)
      else c

  described_embed : String → Embed → String → String → Try CommitInfo → Embed
  described_embed repo_url embed base rollback (err e) = embed
  described_embed repo_url embed base rollback (ok info) =
      Context.add_commit_context embed (context_of repo_url info base rollback)

  -- `addCommitContext`, where there is a git; `enabled` is whether the notifier has a sink.
  unfoldable pub add_commit_context : Bool → String → String → Embed → String → String → Embed
  unfolding described_embed
  add_commit_context enabled repo_url remote embed base rollback =
      if embed.commit == "" || not enabled
      then embed
      else described_embed (repo_web_url repo_url remote) embed base rollback
          (describe_commit embed.commit)
