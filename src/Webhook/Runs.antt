-- ===== src/Webhook/Runs.antt =====
-- No push is lost: a reconcile starts after it.
use mathlib.Core.Path.{subst}
use text.Mathlib.TextLemmas.{nil-append, cons-append}
use compose_lock.Prelude.{
  ℕ, ◌+◌, ◌≤◌, ◌<◌, ◌≡◌, refl, sym, ap, String, ◌<>◌, true, false, not, ◌&&◌, Option, none, some,
  List, [], ◌∷◌, arith, ◌==◌, eq_iff, eq_refl, inl, inr, ◌⊎◌,
}
use compose_lock.Strings.{cut_prefix}
use compose_lock.Webhook.{
  WebhookConfig, Request, Server, Mark, asked, started, trigger, work, handle_webhook, handle_read,
  handle_body, valid_signature, signed_by, elsewhere, push_ref,
}
use compose_lock.Webhook.Genuine.{IsGenuine, Targets, Handled, handle_webhook-Handled}

-- The reconciles that a server has started.
unfoldable pub starts : List Mark → ℕ
starts [] = 0
starts (asked ∷ log) = starts log
starts (started ∷ log) = starts log + 1

-- A move of a server: a request comes in, the deploy window opens, or the worker moves.
pub data Step (hmac : String → String → String) (decode_ref : String → Option String)
    (cfg : WebhookConfig) : Server → Server → Type 0 where
  request :
      {s : Server} (r : Request)
      → Step hmac decode_ref cfg s (handle_webhook hmac decode_ref cfg r s).1
  opening : {s : Server} → Step hmac decode_ref cfg s (trigger s).1
  works : {s : Server} → Step hmac decode_ref cfg s (work s)

pub data Steps (hmac : String → String → String) (decode_ref : String → Option String)
    (cfg : WebhookConfig) (s : Server) : Server → Type 0 where
  here : Steps hmac decode_ref cfg s s
  next :
      {t u : Server}
      → Steps hmac decode_ref cfg s t
      → Step hmac decode_ref cfg t u
      → Steps hmac decode_ref cfg s u

-- Since `k` starts there was one more, or one is due.
IsDue : ℕ → Server → Type 0
IsDue k s = (k < starts s.log) ⊎ ((k ≡ starts s.log) × (s.queued ≡ true))

IsDue-trigger : (k : ℕ) (s : Server) → k ≤ starts s.log → IsDue k (trigger s).1
unfolding IsDue trigger starts
IsDue-trigger k s h = ground (arith, h)

due-le : (k : ℕ) (s : Server) → IsDue k s → k ≤ starts s.log
unfolding IsDue
due-le k s (inl h) = omega arith
due-le k s (inr (e, q)) = omega (arith, e)

IsDue-work : (k : ℕ) (s : Server) → IsDue k s → IsDue k (work s)
unfolding IsDue work starts
IsDue-work k s h = ground arith

-- The next two moves of the worker start what is due.
lt-work : (k : ℕ) (s : Server) → IsDue k s → k < starts (work (work s)).log
unfolding IsDue work starts
lt-work k s h = ground arith

cut_prefix-append : (p s : String) → cut_prefix p (p <> s) ≡ some s
unfolding cut_prefix
cut_prefix-append String.[] s = rw (nil-append s) refl
cut_prefix-append (String.◌∷◌ c p) s =
    rw (cons-append c p s) (ground (arith, eq_refl (String.◌∷◌ c ""), cut_prefix-append p s))

module _ (hmac : String → String → String) (decode_ref : String → Option String)
    (cfg : WebhookConfig) where
  IsDue-handle :
      (k : ℕ) (r : Request) (s : Server) (answer : ℕ × Server)
      → Handled hmac decode_ref cfg r s answer
      → IsDue k s
      → IsDue k answer.1
  unfolding Handled
  IsDue-handle k r s answer (inl e) h = subst (IsDue k) (sym e) h
  IsDue-handle k r s answer (inr (body, g, e)) h =
      subst (λ (a : ℕ × Server). IsDue k a.1) (sym e) (IsDue-trigger k s (due-le k s h))

  IsDue-Step : (k : ℕ) {s t : Server} → Step hmac decode_ref cfg s t → IsDue k s → IsDue k t
  IsDue-Step k (request {s} r) h =
      IsDue-handle k r s _ (handle_webhook-Handled hmac decode_ref cfg r s) h
  IsDue-Step k (opening {s}) h = IsDue-trigger k s (due-le k s h)
  IsDue-Step k (works {s}) h = IsDue-work k s h

  IsDue-Steps : (k : ℕ) {s t : Server} → Steps hmac decode_ref cfg s t → IsDue k s → IsDue k t
  IsDue-Steps k here h = h
  IsDue-Steps k (next r st) h = IsDue-Step k st (IsDue-Steps k r h)

  valid_of :
      (header body : String)
      → (cfg.secret ≡ "") ⊎ (header ≡ "sha256=" <> hmac cfg.secret body)
      → valid_signature hmac decode_ref cfg header body ≡ true
  unfolding valid_signature signed_by
  valid_of header body (inl e) = ground (arith, eq_iff cfg.secret "")
  valid_of header body (inr e) =
      let sig = hmac cfg.secret body in
      let found : cut_prefix "sha256=" header ≡ some sig = rw e (cut_prefix-append "sha256=" sig) in
      ground (arith, found, eq_refl sig)

  home_of :
      (ref : Option String) → Targets cfg.branch ref → elsewhere hmac decode_ref cfg ref ≡ false
  unfolding elsewhere
  home_of none h = refl
  home_of (some ref) h = ground arith

  event_of :
      (event : String)
      → (event ≡ "") ⊎ (event ≡ "push")
      → ((event == "ping") ≡ false) × ((not (event == "") && not (event == "push")) ≡ false)
  event_of event (inl e) = rw e (refl, refl)
  event_of event (inr e) = rw e (refl, refl)

  handle_body-asks :
      (r : Request) (body : String) (s : Server)
      → IsGenuine hmac decode_ref cfg r body
      → handle_body hmac decode_ref cfg r body s ≡ (202, (trigger s).1)
  unfolding handle_body
  handle_body-asks r body s g =
      let push = event_of r.event g.is_push in
      rw
        (
          valid_of r.signature body g.signed,
          push.0,
          push.1,
          home_of (push_ref hmac decode_ref body) g.here,
        )
        refl

  handle_webhook-asks :
      (r : Request) (body : String) (s : Server)
      → IsGenuine hmac decode_ref cfg r body
      → handle_webhook hmac decode_ref cfg r s ≡ (202, (trigger s).1)
  unfolding handle_webhook handle_read
  handle_webhook-asks r body s g = rw g.readable (handle_body-asks r body s g)

-- A genuine push is answered with 202, and whatever a server that is not shut down goes through
-- afterwards, a reconcile has started since, or one starts within the next two moves of the worker,
-- also where a run was going on or a trigger was queued already.
pub handle_webhook-starts :
    (hmac : String → String → String) (decode_ref : String → Option String) (cfg : WebhookConfig)
    (r : Request) (body : String) (s t : Server)
    → IsGenuine hmac decode_ref cfg r body
    → Steps hmac decode_ref cfg (handle_webhook hmac decode_ref cfg r s).1 t
    → ((handle_webhook hmac decode_ref cfg r s).0 ≡ 202)
      × (starts s.log < starts (work (work t)).log)
handle_webhook-starts hmac decode_ref cfg r body s t g later =
    let asks = handle_webhook-asks hmac decode_ref cfg r body s g in
    let due : IsDue (starts s.log) (handle_webhook hmac decode_ref cfg r s).1 =
      rw asks (IsDue-trigger (starts s.log) s (omega arith)) in
    (
      ap (λ (a : ℕ × Server). a.0) asks,
      lt-work (starts s.log) t (IsDue-Steps hmac decode_ref cfg (starts s.log) later due),
    )
