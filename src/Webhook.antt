-- ===== src/Webhook.antt =====
-- internal/webhook/server.go: the server that turns a push into a reconcile. `triggers` is a channel
-- with room for one, so that its state is whether it is full; one goroutine empties it. The routes of
-- the multiplexer, the limits of the HTTP server and its shutdown are the library's.
pub mod Genuine
pub mod Runs
use compose_lock.Prelude.{
  ℕ, suc, String, ◌<>◌, Bool, true, false, not, ◌&&◌, ◌||◌, Option, none, some, List, [], ◌∷◌, ◌==◌,
  is_some, if◌then◌else◌,
}
use compose_lock.Strings.{trim_prefix, cut_prefix}

pub record WebhookConfig : Type 0 where
  pub path : String
  pub secret : String
  pub branch : String

-- A request: its body, unless it is larger than 1 MiB or cannot be read, and two of its headers,
-- `X-Hub-Signature-256` and `X-GitHub-Event`, empty where they are missing.
pub record Request : Type 0 where
  pub body : Option String
  pub signature : String
  pub event : String

-- What happened in a server, the last first: a request or the timer asked for a reconcile, or the
-- worker started one.
pub data Mark : Type 0 where
  asked started : Mark

pub record Server : Type 0 where
  pub queued : Bool
  pub busy : Bool
  pub log : List Mark

abbrev pub idle : Server
idle = record { queued = false; busy = false; log = [] }

-- `Trigger`: false where one is queued already.
unfoldable pub trigger : Server → Bool × Server
trigger s = (not s.queued, record s { queued = true; log = asked ∷ s.log })

-- One move of the goroutine of `processTriggers`, which receives from the channel once the run
-- before has returned or panicked.
unfoldable pub work : Server → Server
work s =
    if s.busy
    then record s { busy = false }
    else if s.queued
    then record s { queued = false; busy = true; log = started ∷ s.log }
    else s

unfoldable pub ref_matches : String → String → Bool
ref_matches branch ref = branch == "" || trim_prefix ref "refs/heads/" == branch

-- `hmac` is the hexadecimal HMAC-SHA256 of a body with a secret as its key; `decode_ref` is the field
-- `ref` of a body that is JSON, empty where there is none.
module _ (hmac : String → String → String) (decode_ref : String → Option String) where
  signed_by : String → String → Option String → Bool
  signed_by secret body none = false
  signed_by secret body (some sig) = sig == hmac secret body

  unfoldable pub valid_signature : WebhookConfig → String → String → Bool
  unfolding signed_by
  valid_signature cfg header body =
      cfg.secret == "" || signed_by cfg.secret body (cut_prefix "sha256=" header)

  push_ref_of : Option String → Option String
  push_ref_of none = none
  push_ref_of (some ref) = if ref == "" then none else some ref

  unfoldable pub push_ref : String → Option String
  unfolding push_ref_of
  push_ref body = push_ref_of (decode_ref body)

  elsewhere : WebhookConfig → Option String → Bool
  elsewhere cfg none = false
  elsewhere cfg (some ref) = not (ref_matches cfg.branch ref)

  handle_body : WebhookConfig → Request → String → Server → ℕ × Server
  unfolding elsewhere
  handle_body cfg r body s =
      if not (valid_signature cfg r.signature body)
      then (401, s)
      else if r.event == "ping"
      then (200, s)
      else if not (r.event == "") && not (r.event == "push")
      then (202, s)
      else if elsewhere cfg (push_ref body)
      then (202, s)
      else (202, (trigger s).1)

  handle_read : WebhookConfig → Request → Option String → Server → ℕ × Server
  unfolding handle_body
  handle_read cfg r none s = (400, s)
  handle_read cfg r (some body) s = handle_body cfg r body s

  -- The status of the answer, and the server afterwards.
  unfoldable pub handle_webhook : WebhookConfig → Request → Server → ℕ × Server
  unfolding handle_read
  handle_webhook cfg r s = handle_read cfg r r.body s
