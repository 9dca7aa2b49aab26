-- ===== src/Config/Settings/Loading/Same.antt =====
-- `Load` of the files that `Init` writes.
use mathlib.Core.Path.{subst}
use compose_lock.Prelude.{
  ◌≡◌, ◌∙◌, sym, refl, ap, arith, String, ◌<>◌, Bool, false, Option, none, some, if◌then◌else◌,
}
use compose_lock.Prelude.Int.{ℤ, pos, ltz, same_int}
use compose_lock.Errors.{Err, Try, ok, err}
use compose_lock.Config.Settings.{
  Settings, Overrides, default, load_defaults, overridden, override_error,
}
use compose_lock.Config.Settings.Valid.{Library}
use compose_lock.Config.Settings.Loading.{
  Codec, with_schema, located, validated, applied, checked_schema, decoded, object, load, Existing,
  refused, written, marshaled, initial, begun, init,
}

abbrev pub no_overrides : Overrides
no_overrides = record {
  repo_path = none;
  remote = none;
  branch = none;
  compose_file = none;
  compose_dir = none;
  project_name = none;
  state_file = none;
  ssh_key = none;
  discord = none;
  repo_url = none;
  log_format = none;
  log_level = none;
  pprof_listen = none;
  window = none;
  webhook_listen = none;
  webhook_path = none;
  retry_attempts = none;
  restart_tolerance = none;
  health_streak = none;
  retry_delay = none;
  poll_interval = none;
  monitor_interval = none;
  health_watch = none;
  health_interval = none;
  docker_timeout = none;
  docker_up = none;
}

overridden-no_overrides : (c : Settings) → overridden c no_overrides ≡ c
unfolding overridden
overridden-no_overrides c = refl

-- A text that is read back as the configuration that it was made of.
pub record Holds (codec : Codec) (text : String) (c : Settings) : Type 0 where
  pub is_object : codec.is_object text ≡ none
  pub decoded : codec.decode text load_defaults ≡ ok c

-- The text that a configuration is encoded as is read back as that configuration.
abbrev pub ReadsBack : Codec → Settings → Type 0
ReadsBack codec s = (json : String) → codec.encode s ≡ ok json → Holds codec (json <> "\n") s

with_schema-same : (c : Settings) → c.schema ≡ pos 1 → with_schema c ≡ c
unfolding with_schema same_int
with_schema-same c s = ground (arith, s)

module _ (lib : Library) (codec : Codec) where
  checked_schema-same :
      (path : String) (c : Settings) (o : Overrides)
      → c.schema ≡ pos 1
      → override_error codec.show_duration o ≡ none
      → checked_schema lib codec path c o ≡ validated lib codec (located lib codec (overridden c o))
  unfolding checked_schema applied ltz
  checked_schema-same path c o s e =
      let known : ltz (pos 1) c.schema ≡ false = ground (arith, s) in rw (known, e) refl

  load-Holds :
      (path text : String) (c : Settings) (o : Overrides)
      → Holds codec text c
      → c.schema ≡ pos 1
      → override_error codec.show_duration o ≡ none
      → load lib codec path o (ok text) ≡ validated lib codec (located lib codec (overridden c o))
  unfolding load object decoded
  load-Holds path text c o h s e =
      rw (h.is_object, h.decoded, with_schema-same c s) (checked_schema-same path c o s e)

no_error : (show_duration : ℤ → String) → override_error show_duration no_overrides ≡ none
unfolding override_error
no_error show_duration = refl

default_schema : (o : Overrides) → (overridden default o).schema ≡ pos 1
unfolding overridden default
default_schema o = refl

module _ (lib : Library) (codec : Codec) where
  -- What a file that is written holds, and when it is written.
  Began : Overrides → String → Settings → Type 0
  Began o text c =
      (override_error codec.show_duration o ≡ none)
      × ((c ≡ overridden default o)
          × ((json : String) × ((codec.encode (overridden default o) ≡ ok json)
                × (text ≡ json <> "\n"))))

  written-same :
      (path made : String) (d : Settings) (r : Option Err) (text : String) (c : Settings)
      → written lib codec path made d r ≡ ok (text, c)
      → (c ≡ d) × (text ≡ made)
  unfolding written
  written-same path made d (some e) text c p = absurd (cc)
  written-same path made d none text c p = (cc, cc)

  marshaled-same :
      (path : String) (d : Settings) (r : Try String) (text : String) (c : Settings)
      → marshaled lib codec path d r ≡ ok (text, c)
      → (c ≡ d) × ((json : String) × ((r ≡ ok json) × (text ≡ json <> "\n")))
  unfolding marshaled
  marshaled-same path d (err e) text c p = absurd (cc)
  marshaled-same path d (ok json) text c p =
      let made = json <> "\n" in
      let (same, t) = written-same path made d (codec.write_file path made) text c p in
      (same, (json, (refl, t)))

  initial-Began :
      (path : String) (o : Overrides) (r : Option Err) (text : String) (c : Settings)
      → override_error codec.show_duration o ≡ r
      → initial lib codec path o r ≡ ok (text, c)
      → Began o text c
  unfolding Began initial
  initial-Began path o (some x) text c e p = absurd (cc)
  initial-Began path o none text c e p =
      (e, marshaled-same path (overridden default o) (codec.encode (overridden default o)) text c p)

  begun-Began :
      (path : String) (o : Overrides) (r : Option Err) (text : String) (c : Settings)
      → begun lib codec path o r ≡ ok (text, c)
      → Began o text c
  unfolding begun
  begun-Began path o (some x) text c p = absurd (cc)
  begun-Began path o none text c p =
      initial-Began path o (override_error codec.show_duration o) text c refl p

  init-Began :
      (path : String) (force : Bool) (o : Overrides) (existing : Existing) (text : String)
      (c : Settings)
      → init lib codec path force o existing ≡ ok (text, c)
      → Began o text c
  unfolding init
  init-Began path force o existing text c p =
      begun-Began path o (if force then none else refused lib codec path existing) text c p

  held :
      (o : Overrides) (text : String) (c : Settings)
      → ReadsBack codec (overridden default o)
      → Began o text c
      → Holds codec text (overridden default o)
  unfolding Began
  held o text c holds began =
      let (json, (h, t)) = began.1.1 in
      subst (λ x. Holds codec x (overridden default o)) (sym t) (holds json h)

-- A file that `Init` wrote with overrides loads without any as one that it wrote without loads with
-- them, the refusals included, as long as the text that either
-- configuration is encoded as, with the line break after it, is read back as that configuration.
pub load-init :
    (lib : Library) (codec : Codec) (path : String) (force : Bool) (o : Overrides)
    (existing : Existing) (with_them without : String) (c d : Settings)
    → ReadsBack codec (overridden default o)
    → ReadsBack codec default
    → init lib codec path force o existing ≡ ok (with_them, c)
    → init lib codec path force no_overrides existing ≡ ok (without, d)
    → load lib codec path no_overrides (ok with_them) ≡ load lib codec path o (ok without)
unfolding Began default overridden
load-init lib codec path force o existing with_them without c d reads also p q =
    let began = init-Began lib codec path force o existing with_them c p in
    let plain_one = init-Began lib codec path force no_overrides existing without d q in
    load-Holds lib codec path with_them (overridden default o) no_overrides
      (held lib codec o with_them c reads began) (default_schema o) (no_error codec.show_duration)
    ∙ ap (λ (s : Settings). validated lib codec (located lib codec s))
        (overridden-no_overrides (overridden default o))
    ∙ sym (
        load-Holds lib codec path without default o
          (held lib codec no_overrides without d also plain_one) (default_schema no_overrides)
          began.0)
