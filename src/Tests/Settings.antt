-- ===== src/Tests/Settings.antt =====
-- A configuration as `Init` writes it, accepted and loaded again.
use mathlib.Core.Path.{subst}
use compose_lock.Prelude.{◌≡◌, refl, String, ◌<>◌, false, none, some, ◌==◌, if◌then◌else◌, contains}
use compose_lock.Prelude.Int.{ltz}
use compose_lock.Errors.{ok, first}
use compose_lock.Strings.{has_substring}
use compose_lock.Compose.{missing}
use compose_lock.Config.Settings.{Overrides, default, overridden, override_error}
use compose_lock.Config.Settings.Names.{valid_git_ref, all_ref_chars, contains_any}
use compose_lock.Config.Settings.Valid.{
  Library, validate, validate_required, first_refused, required_tests, validate_compose_path,
  number_tests, window_tests, notify_tests, late_tests, webhook_tests, is_loopback,
}
use compose_lock.Config.Settings.Usable.{IsUsable, validate-IsUsable}
use compose_lock.Config.Settings.Loading.{Codec, absent, init, load}
use compose_lock.Config.Settings.Loading.Same.{Holds, ReadsBack, no_overrides, load-init}

abbrev net : Library
net = record {
  parse_url = λ s. none;
  split_host = λ s. some "localhost";
  is_loopback_ip = λ s. false;
  normalize_name = λ s. s;
  stat = λ p. missing;
  quote = λ s. s;
}

validate-IsUsable_example : IsUsable net default
unfolding default validate validate_required first first_refused required_tests valid_git_ref
    has_substring all_ref_chars validate_compose_path number_tests ltz window_tests notify_tests
    late_tests contains webhook_tests contains_any is_loopback
validate-IsUsable_example = validate-IsUsable net default refl

abbrev on_prod : Overrides
on_prod = record no_overrides { branch = some "prod" }

-- Two configurations, told apart by their branches.
abbrev short : Codec
short = record {
  is_object = λ t. none;
  decode = λ t c. if t == "main\n" then ok default else ok (overridden default on_prod);
  encode = λ c. ok c.branch;
  canonical_path = λ p. p;
  abs_path = λ p. p;
  show_duration = λ d. "";
  write_file = λ p t. none;
}

ok_inj : (a b : String) → ok a ≡ ok b → a ≡ b
ok_inj a b e = cc

reads_prod : ReadsBack short (overridden default on_prod)
unfolding default overridden
reads_prod json e =
    subst (λ t. Holds short (t <> "\n") (overridden default on_prod)) (ok_inj "prod" json e)
      record { is_object = refl; decoded = refl }

reads_main : ReadsBack short default
unfolding default
reads_main json e =
    subst (λ t. Holds short (t <> "\n") default) (ok_inj "main" json e)
      record { is_object = refl; decoded = refl }

load-init_example :
    load net short "c.json" no_overrides (ok "prod\n")
    ≡ load net short "c.json" on_prod (ok "main\n")
unfolding init default overridden override_error
load-init_example =
    load-init net short "c.json" false on_prod absent "prod\n" "main\n" (overridden default on_prod)
      default reads_prod reads_main refl refl
