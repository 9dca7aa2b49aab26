-- ===== src/Tests/Notices.antt =====
-- The theorems on notifications, the webhook server and the monitor, at concrete inputs.
use compose_lock.Prelude.{
  ◌≡◌, ◌≢◌, ◌==◌, eq_iff, ◌<◌, refl, inl, inr, arith, ℕ, String, true, false, Option, none, some,
  List, [], ◌∷◌, show, lookup,
}
use compose_lock.Strings.{cut}
use compose_lock.Errors.{ok, err, plain}
use compose_lock.State.{new}
use compose_lock.Health.{Snapshot}
use compose_lock.Reconcile.{failure_report}
use compose_lock.Notify.Embed.{Shown, build_embed}
use compose_lock.Notify.Embed.Within.{IsWithin, build_embed-IsWithin}
use compose_lock.Notify.Context.{plain_text}
use compose_lock.Notify.Throttle.{Op, claims, releases, prune, claim, steps}
use compose_lock.Notify.Throttle.Once.{claim-blocked}
use compose_lock.Notify.Sending.{
  Sink, discord, answered, no_number, Outside, Session, post, deliver, send_once, send_each,
  send_throttled,
}
use compose_lock.Notify.Sending.Repeats.{posts, send_throttled-repeat}
use compose_lock.Webhook.{WebhookConfig, Request, idle, work, push_ref, handle_webhook}
use compose_lock.Webhook.Genuine.{Handled, IsGenuine, handle_webhook-Handled}
use compose_lock.Webhook.Runs.{starts, here, next, works, handle_webhook-starts}
use compose_lock.Reconcile.Monitor.{Monitor, Setting, Look, problem, observe, check}
use compose_lock.Reconcile.Monitor.Checks.{IsSilent, Unsettled, Disturbed, check-IsSilent}
use compose_lock.Reconcile.Monitor.Streaks.{observes, AllBad, known, session-observes}

plain_text_links :
    plain_text "**Failed:** [abc1234](https://x/commit/abc1234) `fix`" ≡ "Failed: abc1234 fix"
unfolding plain_text cut
plain_text_links = refl

abbrev shown : Shown
shown = record {
  report = failure_report "ComposeLock: git sync failed" "aaaa1111" "main" (plain "no route");
  repo_url = "https://example.org/app";
  duration = 1500000000;
  stderr_tail = "";
}

build_embed-IsWithin_example : IsWithin (build_embed show shown)
build_embed-IsWithin_example = build_embed-IsWithin show shown

abbrev between : List Op
between = claims "webhook:git-sync" 5 ∷ releases "webhook:git-sync" ∷ []

claim-blocked_example :
    (claim "discord:git-sync" 60 (steps between (claim "discord:git-sync" 1 []).1)).0 ≡ false
unfolding claim lookup prune
claim-blocked_example =
    claim-blocked "discord:git-sync" 1 60 [] between refl (omega arith, (refl, tt)) (omega arith)

abbrev chat : Sink
chat = record { name = "discord"; url = "https://discord.example"; headers = []; encode = discord }

abbrev reachable : Outside
reachable = record {
  marshals = λ k e. true;
  post = λ h s e. answered 204 no_number;
  now = λ h. 10;
  sleep = λ h. true;
}

abbrev quiet_session : Session
quiet_session = record { sent = []; calls = [] }

send_throttled-repeat_example :
    let n =
      (send_throttled reachable (chat ∷ []) "git-sync" (build_embed show shown) quiet_session).1 in
    posts (send_throttled reachable (chat ∷ []) "git-sync" (build_embed show shown) n).1.calls
    ≡ posts n.calls
unfolding send_throttled send_each send_once claim lookup prune deliver post
send_throttled-repeat_example =
    send_throttled-repeat reachable 0 (chat ∷ []) "git-sync" (build_embed show shown)
      (build_embed show shown) quiet_session (λ h. omega arith) (λ h. omega arith) refl tt refl

abbrev hashed : String → String → String
hashed secret body = "0f"

abbrev no_ref : String → Option String
no_ref body = none

abbrev hook : WebhookConfig
hook = record { path = "/webhook"; secret = "s3cret"; branch = "main" }

abbrev push_request : Request
push_request = record { body = some "{}"; signature = "sha256=0f"; event = "push" }

handle_webhook-Handled_example :
    Handled hashed no_ref hook push_request idle
      (handle_webhook hashed no_ref hook push_request idle)
handle_webhook-Handled_example = handle_webhook-Handled hashed no_ref hook push_request idle

genuine : IsGenuine hashed no_ref hook push_request "{}"
unfolding push_ref
genuine = record { readable = refl; signed = inr refl; is_push = inr refl; here = tt }

handle_webhook-starts_example :
    ((handle_webhook hashed no_ref hook push_request idle).0 ≡ 202)
    × (starts idle.log
        < starts (work (work (work (handle_webhook hashed no_ref hook push_request idle).1))).log)
handle_webhook-starts_example =
    handle_webhook-starts hashed no_ref hook push_request "{}" idle
      (work (handle_webhook hashed no_ref hook push_request idle).1) genuine (next here works)

abbrev setting : Setting
setting = record {
  alert_after = 3;
  branch = "main";
  sinks = chat ∷ [];
  show_duration = show;
  add_context = λ e. e;
}

abbrev new_monitor : Monitor
new_monitor = record { key = ""; stacks = []; incidents = 0; session = quiet_session }

abbrev during_a_run : Look
during_a_run = record {
  before = 7;
  loaded = ok new;
  pause_now = 10;
  discovered = ok ("app" ∷ []);
  snapshot = λ n. err (plain "no such project");
  cancelled = λ n. false;
  after = 7;
  now = 10;
}

-- An apply that a crash has left, and no reconcile about.
abbrev after_a_crash : Look
after_a_crash = record during_a_run {
  before = 8;
  loaded = ok (record new { last_healthy_commit = "aaaa1111"; pending_commit = "bbbb2222" });
  after = 8;
}

is_pending : (c : String) → (c == "") ≡ false → c ≢ ""
is_pending c q e = ground (arith, eq_iff c "", q, e)

check-IsSilent_example : IsSilent new_monitor (check reachable setting after_a_crash new_monitor).1
unfolding Disturbed Unsettled
check-IsSilent_example =
    check-IsSilent reachable setting after_a_crash new_monitor
      (inr (inr (_, (refl, inl (is_pending "bbbb2222" refl)))))

abbrev nothing_runs : Snapshot
nothing_runs = record { containers = [] }

abbrev two_checks : List (Snapshot × ℕ)
two_checks = (nothing_runs, 10) ∷ (nothing_runs, 70) ∷ []

session-observes_example :
    (observes reachable setting new "app" two_checks new_monitor).session ≡ new_monitor.session
unfolding AllBad known observe problem lookup
session-observes_example =
    session-observes reachable setting new "app" two_checks new_monitor (refl, (refl, tt))
      (inr (omega arith))
