-- ===== src/Errors.antt =====
-- Go's `error` values, as far as the program tells them apart, and `IsInfraError` of
-- internal/compose/inputs.go.
use compose_lock.Prelude.{◌≡◌, refl, String, ◌<>◌, Bool, true, false, ◌||◌, Option, none, some}

-- What `errors.Is` and `errors.As` can find in an error that a library or the system returned.
pub data Cause : Type 0 where
  deadline_exceeded canceled registry_unavailable connection_failed : Cause
  conn_refused conn_reset broken_pipe : Cause
  net_error : Bool → Cause
  other : Cause

-- `plain` is an error with a text alone, `wrap` is `fmt.Errorf("text: %w", err)`, `both` is a text
-- with two errors behind `%w`: `fmt.Errorf("%w text %w)", a, b)` or `errors.Join`.
pub data Err : Type 0 where
  plain : String → Err
  ext : Cause → String → Err
  wrap : String → Err → Err
  both : Err → String → Err → String → Err

pub data Try {ℓ} (A : Type ℓ) : Type ℓ where
  ok : A → Try A
  err : Err → Try A

-- `err.Error()`
unfoldable pub message : Err → String
message (plain s) = s
message (ext c s) = s
message (wrap s e) = s <> (": " <> message e)
message (both a s b t) = message a <> (s <> (message b <> t))

-- errors.Join of two errors that may be nil.
abbrev pub join_errors : Option Err → Option Err → Option Err
join_errors none b = b
join_errors (some a) none = some a
join_errors (some a) (some b) = some (both a "\n" b "")

-- The error that is found first, where the code returns at each.
unfoldable pub first : Option Err → Option Err → Option Err
first (some e) rest = some e
first none rest = rest

pub first-none : (a b : Option Err) → first a b ≡ none → (a ≡ none) × (b ≡ none)
unfolding first
first-none none b e = (refl, e)
first-none (some x) b e = absurd (cc)

-- The causes for which `errors.Is`, or `client.IsErrConnectionFailed`, says that the run met the
-- infrastructure and not the commit.
is_infra_cause : Cause → Bool
is_infra_cause deadline_exceeded = true
is_infra_cause canceled = true
is_infra_cause registry_unavailable = true
is_infra_cause connection_failed = true
is_infra_cause conn_refused = true
is_infra_cause conn_reset = true
is_infra_cause broken_pipe = true
is_infra_cause (net_error timeout) = false
is_infra_cause other = false

has_infra_cause : Err → Bool
unfolding is_infra_cause
has_infra_cause (plain s) = false
has_infra_cause (ext c s) = is_infra_cause c
has_infra_cause (wrap s e) = has_infra_cause e
has_infra_cause (both a s b t) = has_infra_cause a || has_infra_cause b

net_timeout : Cause → Option Bool
net_timeout (net_error timeout) = some timeout
net_timeout _ = none

or_else : Option Bool → Option Bool → Option Bool
or_else none b = b
or_else (some a) b = some a

-- `errors.As(err, &netErr)`: the first `net.Error` of the tree, by its `Timeout()`.
first_net_error : Err → Option Bool
unfolding net_timeout or_else
first_net_error (plain s) = none
first_net_error (ext c s) = net_timeout c
first_net_error (wrap s e) = first_net_error e
first_net_error (both a s b t) = or_else (first_net_error a) (first_net_error b)

timed_out : Option Bool → Bool
timed_out none = false
timed_out (some t) = t

unfoldable pub is_infra_error : Err → Bool
unfolding has_infra_cause first_net_error timed_out
is_infra_error e = has_infra_cause e || timed_out (first_net_error e)

-- `errors.Is(err, context.Canceled)`
unfoldable pub is_canceled : Err → Bool
is_canceled (plain s) = false
is_canceled (ext canceled s) = true
is_canceled (ext _ s) = false
is_canceled (wrap s e) = is_canceled e
is_canceled (both a s b t) = is_canceled a || is_canceled b
