-- ===== src/Webhook/Genuine.antt =====
-- Who can start a reconcile.
use text.Mathlib.TextLemmas.{nil-append, cons-append}
use compose_lock.Prelude.{
  ℕ, ◌≡◌, refl, ap, ◌∙◌, String, ◌<>◌, true, false, not, ◌&&◌, Option, none, some, arith, ◌==◌,
  eq_iff, Bool-cases, inl, inr, ◌⊎◌,
}
use compose_lock.Strings.{cut_prefix}
use compose_lock.Webhook.{
  WebhookConfig, Request, Server, trigger, ref_matches, signed_by, valid_signature, push_ref,
  elsewhere, handle_body, handle_read, handle_webhook,
}

cut_prefix-eq : (p s r : String) → cut_prefix p s ≡ some r → s ≡ p <> r
unfolding cut_prefix
cut_prefix-eq String.[] s r e = ground (arith, e, nil-append r)
cut_prefix-eq (String.◌∷◌ c p) String.[] r e = absurd (cc)
cut_prefix-eq (String.◌∷◌ c p) (String.◌∷◌ d s) r e = ground (
  arith,
  e,
  eq_iff (String.◌∷◌ c "") (String.◌∷◌ d ""),
  cut_prefix-eq p s r,
  cons-append c p r,
  cons-append c "" s,
  cons-append d "" s,
  nil-append s,
)

-- The push is for the branch, or its body does not say where it went.
abbrev pub Targets : String → Option String → Type 0
Targets branch none = Unit
Targets branch (some ref) = ref_matches branch ref ≡ true

module _ (hmac : String → String → String) (decode_ref : String → Option String) where
  -- A request that may start a reconcile.
  pub record IsGenuine (cfg : WebhookConfig) (r : Request) (body : String) : Type 0 where
    pub readable : r.body ≡ some body
    pub signed : (cfg.secret ≡ "") ⊎ (r.signature ≡ "sha256=" <> hmac cfg.secret body)
    pub is_push : (r.event ≡ "") ⊎ (r.event ≡ "push")
    pub here : Targets cfg.branch (push_ref hmac decode_ref body)

  signed_by-eq :
      (secret body header : String) (found : Option String)
      → cut_prefix "sha256=" header ≡ found
      → signed_by hmac decode_ref secret body found ≡ true
      → header ≡ "sha256=" <> hmac secret body
  unfolding signed_by
  signed_by-eq secret body header none e v = absurd (cc)
  signed_by-eq secret body header (some sig) e v =
      cut_prefix-eq "sha256=" header sig e
      ∙ ap (λ h. "sha256=" <> h) ((eq_iff sig (hmac secret body)).0 v)

  signed_of :
      (cfg : WebhookConfig) (header body : String)
      → valid_signature hmac decode_ref cfg header body ≡ true
      → (cfg.secret ≡ "") ⊎ (header ≡ "sha256=" <> hmac cfg.secret body)
  unfolding valid_signature
  signed_of cfg header body v = elim (Bool-cases (cfg.secret == "")) [
    | inl open_to_all ↦ inl ((eq_iff cfg.secret "").0 open_to_all)
    | inr keyed ↦
        inr (signed_by-eq cfg.secret body header (cut_prefix "sha256=" header) refl (ground arith))
  ]

  is_push_of :
      (event : String)
      → (not (event == "") && not (event == "push")) ≡ false
      → (event ≡ "") ⊎ (event ≡ "push")
  is_push_of event e = elim (Bool-cases (event == "")) [
    | inl none_given ↦ inl ((eq_iff event "").0 none_given)
    | inr given ↦ inr ((eq_iff event "push").0 (ground arith))
  ]

  Targets-elsewhere :
      (cfg : WebhookConfig) (ref : Option String)
      → elsewhere hmac decode_ref cfg ref ≡ false
      → Targets cfg.branch ref
  unfolding elsewhere
  Targets-elsewhere cfg none e = tt
  Targets-elsewhere cfg (some ref) e = ground arith

  -- What a request does to the server.
  unfoldable pub Handled : WebhookConfig → Request → Server → ℕ × Server → Type 0
  Handled cfg r s answer =
      (answer.1 ≡ s) ⊎ ((body : String) × IsGenuine cfg r body × (answer ≡ (202, (trigger s).1)))

  handle_body-Handled :
      (cfg : WebhookConfig) (r : Request) (body : String) (s : Server)
      → r.body ≡ some body
      → Handled cfg r s (handle_body hmac decode_ref cfg r body s)
  unfolding handle_body Handled
  handle_body-Handled cfg r body s read =
      elim (Bool-cases (valid_signature hmac decode_ref cfg r.signature body)) [
        | inr bad ↦ inl (rw bad refl)
        | inl good ↦ elim (Bool-cases (r.event == "ping")) [
          | inl ping ↦ inl (rw (good, ping) refl)
          | inr no_ping ↦ elim (Bool-cases (not (r.event == "") && not (r.event == "push"))) [
            | inl foreign ↦ inl (rw (good, no_ping, foreign) refl)
            | inr push ↦
                elim (Bool-cases (elsewhere hmac decode_ref cfg (push_ref hmac decode_ref body))) [
                  | inl away ↦ inl (rw (good, no_ping, push, away) refl)
                  | inr home ↦ inr (
                    body,
                    record {
                      readable = read;
                      signed = signed_of cfg r.signature body good;
                      is_push = is_push_of r.event push;
                      here = Targets-elsewhere cfg _ home;
                    },
                    rw (good, no_ping, push, home) refl,
                  )
                ]
          ]
        ]
      ]

  handle_read-Handled :
      (cfg : WebhookConfig) (r : Request) (s : Server) (body : Option String)
      → r.body ≡ body
      → Handled cfg r s (handle_read hmac decode_ref cfg r body s)
  unfolding handle_read Handled
  handle_read-Handled cfg r s none e = inl refl
  handle_read-Handled cfg r s (some body) e = handle_body-Handled cfg r body s e

-- A request leaves the server as it was, or it is genuine and asks for a reconcile: its body could be
-- read, it is signed with the secret if there is one, it is a push or names no event, and it is for
-- the branch or does not say for which one.
pub handle_webhook-Handled :
    (hmac : String → String → String) (decode_ref : String → Option String) (cfg : WebhookConfig)
    (r : Request) (s : Server)
    → Handled hmac decode_ref cfg r s (handle_webhook hmac decode_ref cfg r s)
unfolding handle_webhook
handle_webhook-Handled hmac decode_ref cfg r s =
    handle_read-Handled hmac decode_ref cfg r s r.body refl
