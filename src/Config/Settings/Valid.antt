-- ===== src/Config/Settings/Valid.antt =====
-- `Validate` of internal/config/config.go and the tests that it calls.
use text.Mathlib.Text.{starts_with}
use compose_lock.Prelude.{
  String, ◌<>◌, Bool, true, false, not, ◌&&◌, ◌||◌, Option, none, some, is_some, List, [], ◌∷◌,
  ◌==◌, contains, if◌then◌else◌,
}
use compose_lock.Prelude.Int.{pos, ltz, show_int}
use compose_lock.Config.Settings.Names.{valid_git_ref, contains_any, valid_header_name}
use compose_lock.Errors.{Err, plain, wrap, first}
use compose_lock.Paths.{FilePath, parse, join_path, show_path}
use compose_lock.Compose.{Stat, missing, stat_failed, is_file, is_dir}
use compose_lock.Config.Window.{DeployWindow, parse_deploy_window}
use compose_lock.Config.Settings.{Settings, NotifyWebhookConfig, WebhookConfig}

-- `url.URL`, as far as it is looked at.
pub record Url : Type 0 where
  pub scheme : String
  pub host : String
  pub has_user : Bool

-- What the code calls of net/url, net, net/netip and compose-go, and `os.Stat`. `split_host` is the
-- host of `net.SplitHostPort`; `is_loopback_ip` is of an address that parses,
-- `quote` is the text of `%q`.
pub record Library : Type 0 where
  pub parse_url : String → Option Url
  pub split_host : String → Option String
  pub is_loopback_ip : String → Bool
  pub normalize_name : String → String
  pub stat : FilePath → Stat
  pub quote : String → String

-- Tests that refuse, in their order, each with what the error says.
abbrev pub Tests : Type 0
Tests = List (Bool × String)

unfoldable pub first_refused : Tests → Option Err
first_refused [] = none
first_refused ((refused, text) ∷ rest) =
    if refused then some (plain ("config: " <> text)) else first_refused rest

is_http : Option Url → Bool
is_http none = false
is_http (some u) = (u.scheme == "https" || u.scheme == "http") && not (u.host == "")

no_user : Option Url → Bool
no_user none = true
no_user (some u) = not u.has_user

unfoldable pub no_window : Option DeployWindow → Bool
no_window none = true
no_window (some w) = false

module _ (lib : Library) where
  unfoldable pub is_loopback : String → Bool
  is_loopback hostport = elim (lib.split_host hostport) [
    | none ↦ false
    | some host ↦ host == "localhost" || lib.is_loopback_ip host
  ]

  -- The order in which the headers of a map are looked at is open in the source.
  header_tests : List (String × String) → Tests
  unfolding valid_header_name contains_any
  header_tests [] = []
  header_tests ((name, value) ∷ rest) =
      (
        not (valid_header_name name),
        "notify_webhook.headers has an invalid header name " <> lib.quote name,
      )
      ∷ (
        contains_any (13 ∷ 10 ∷ 0 ∷ []) value,
        "notify_webhook.headers[" <> (lib.quote name <> "] must not contain line breaks"),
      )
      ∷ header_tests rest

  -- `validate` of `NotifyWebhookConfig`
  unfoldable pub notify_tests : NotifyWebhookConfig → Tests
  unfolding header_tests is_http
  notify_tests w =
      if w.url == ""
      then ((
        elim w.headers [ [] ↦ false | h ∷ hs ↦ true ],
        "notify_webhook.headers is set but notify_webhook.url is empty",
      )
          ∷ [])
      else ((not (is_http (lib.parse_url w.url)), "notify_webhook.url must be an http(s) URL")
          ∷ header_tests w.headers)

  -- `validate` of `WebhookConfig`
  unfoldable pub webhook_tests : WebhookConfig → Tests
  unfolding contains_any
  webhook_tests w =
      (not (starts_with w.path "/"), "webhook.path must start with \"/\", got " <> lib.quote w.path)
      ∷ (
        contains_any (32 ∷ 9 ∷ []) w.path,
        "webhook.path must not contain whitespace, got " <> lib.quote w.path,
      )
      ∷ (
        not (is_some (lib.split_host w.listen)),
        "webhook.listen must be host:port, got " <> lib.quote w.listen,
      )
      ∷ (
        w.secret == "" && not (is_loopback w.listen),
        "webhook.secret is required when webhook.listen "
            <> (lib.quote w.listen
                <> (" is not a loopback address: every request to webhook.path would trigger "
                    <> "a deploy")),
      )
      ∷ []

  -- The first part of `validateRequired`.
  unfoldable pub required_tests : Settings → Tests
  required_tests c =
      (c.repo_path == "", "repo_path is required")
      ∷ (c.project_name == "", "project_name is required")
      ∷ (c.remote == "", "remote is required")
      ∷ (c.branch == "", "branch is required")
      ∷ (c.state_file == "", "state_file is required")
      ∷ (
        c.compose_file == "" && c.compose_dir == "",
        "one of compose_file or compose_dir is required",
      )
      ∷ (
        not (c.project_name == lib.normalize_name c.project_name),
        "project_name "
            <> (lib.quote c.project_name
                <> (" must consist only of lowercase letters, digits, hyphens and underscores, and start"
                    <> " with a letter or digit")),
      )
      ∷ (
        not (valid_git_ref c.remote),
        "remote "
            <> (lib.quote c.remote
                <> (" must consist only of letters, digits, \"._/-\" and must not start with \"-\" or"
                    <> " contain \"..\"")),
      )
      ∷ (
        not (valid_git_ref c.branch),
        "branch "
            <> (lib.quote c.branch
                <> (" must consist only of letters, digits, \"._/-\" and must not start with \"-\" or"
                    <> " contain \"..\"")),
      )
      ∷ []

  compose_stat : String → FilePath → Bool → Stat → Option Err
  compose_stat field path want_dir missing = none
  compose_stat field path want_dir (stat_failed e) =
      some (wrap ("config: checking " <> (field <> (" " <> show_path path))) e)
  compose_stat field path want_dir is_file =
      if want_dir
      then some
          (plain ("config: " <> (field <> (" " <> (show_path path <> " must be a directory")))))
      else none
  compose_stat field path want_dir is_dir =
      if want_dir
      then none
      else some (plain ("config: " <> (field <> (" " <> (show_path path <> " must be a file")))))

  under_repo : String → FilePath → FilePath
  under_repo repo_path p = if p.absolute then p else join_path (parse repo_path) p

  unfoldable pub validate_compose_path : Settings → Option Err
  unfolding compose_stat under_repo
  validate_compose_path c =
      let want_dir = not (c.compose_dir == "") in
      let field : String = if want_dir then "compose_dir" else "compose_file" in
      let path =
        under_repo c.repo_path (parse (if want_dir then c.compose_dir else c.compose_file)) in
      compose_stat field path want_dir (lib.stat path)

  -- The numbers. A watch of no seconds is only logged.
  unfoldable pub number_tests : Settings → Tests
  number_tests c =
      (ltz c.health_watch_seconds (pos 0), "health_watch_seconds must be >= 0")
      ∷ (ltz c.retry_attempts (pos 1), "retry_attempts must be >= 1")
      ∷ (ltz c.retry_delay_seconds (pos 0), "retry_delay_seconds must be >= 0")
      ∷ (ltz c.health_restart_tolerance (pos 0), "health_restart_tolerance must be >= 0")
      ∷ (ltz c.health_poll_interval_seconds (pos 1), "health_poll_interval_seconds must be >= 1")
      ∷ (ltz c.health_unhealthy_streak (pos 1), "health_unhealthy_streak must be >= 1")
      ∷ (
        ltz (pos 0) c.health_watch_seconds
            && ltz c.health_watch_seconds c.health_poll_interval_seconds,
        "health_poll_interval_seconds ("
            <> (show_int c.health_poll_interval_seconds
                <> (") must not exceed health_watch_seconds ("
                    <> (show_int c.health_watch_seconds
                        <> "), or the watch would judge a single poll"))),
      )
      ∷ (ltz c.poll_interval_seconds (pos 0), "poll_interval_seconds must be >= 0")
      ∷ (ltz c.monitor_interval_seconds (pos 0), "monitor_interval_seconds must be >= 0")
      ∷ []

  -- The links, the window and the log.
  link_tests : Settings → Tests
  unfolding is_http no_user
  link_tests c =
      (
        not (c.repo_url == "")
            && not (is_http (lib.parse_url c.repo_url) && no_user (lib.parse_url c.repo_url)),
        "repo_url must be an http(s) URL without credentials, got " <> lib.quote c.repo_url,
      )
      ∷ []

  -- The error of `ParseDeployWindow` is left out of the text.
  unfoldable pub window_tests : Settings → Tests
  unfolding no_window
  window_tests c =
      (
        not (c.deploy_window == "") && no_window (parse_deploy_window c.deploy_window),
        "deploy_window does not parse",
      )
      ∷ []

  unfoldable pub late_tests : Settings → Tests
  unfolding is_http
  late_tests c =
      (
        not (c.heartbeat_url == "") && not (is_http (lib.parse_url c.heartbeat_url)),
        "heartbeat_url must be an http(s) URL",
      )
      ∷ (ltz c.docker_timeout_seconds (pos 0), "docker_timeout_seconds must be >= 0")
      ∷ (ltz c.docker_up_timeout_seconds (pos 0), "docker_up_timeout_seconds must be >= 0")
      ∷ (
        not (c.pprof_listen == "") && not (is_loopback c.pprof_listen),
        "pprof_listen must be a loopback address, got " <> lib.quote c.pprof_listen,
      )
      ∷ (
        not (contains ("debug" ∷ "info" ∷ "warn" ∷ "error" ∷ []) c.log_level),
        "log_level must be \"debug\", \"info\", \"warn\" or \"error\", got "
            <> lib.quote c.log_level,
      )
      ∷ (
        not (c.log_format == "json") && not (c.log_format == "text"),
        "log_format must be \"json\" or \"text\", got " <> lib.quote c.log_format,
      )
      ∷ []

  unfoldable pub validate_required : Settings → Option Err
  validate_required c = first (first_refused (required_tests c)) (validate_compose_path c)

  -- `Validate`, in the order of the source.
  unfoldable pub validate : Settings → Option Err
  unfolding link_tests
  validate c = first (validate_required c) (
      first (first_refused (number_tests c)) (
        first (first_refused (link_tests c)) (
          first (first_refused (window_tests c)) (
            first (first_refused (notify_tests c.notify_webhook))
              (first (first_refused (late_tests c)) (first_refused (webhook_tests c.webhook)))))))
