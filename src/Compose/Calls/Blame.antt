-- ===== src/Compose/Calls/Blame.antt =====
-- What the errors of an up and of a pull are taken for: trouble with the infrastructure, which is no
-- fault of the commit, or not.
use compose_lock.Prelude.{
  ◌≡◌, inl, inr, refl, ◌∙◌, String, Bool, true, false, not, ◌||◌, Option, some, ◌∷◌, Bool-cases,
  if◌then◌else◌,
}
use compose_lock.Errors.{Err, wrap, ok, is_infra_error}
use compose_lock.Compose.{Service, Project}
use compose_lock.Compose.Calls.{
  Services, Sdk, Deadline, own_deadline, force_build, up_error, up, classify_pull_error, pull_error,
  pull_services, pull, images_to_pull,
}

-- A failure that is infrastructure trouble exactly where `b` is true.
pub record IsBlamed (b : Bool) (result : Option Err) : Type 0 where
  pub error : Err
  pub fails : result ≡ some error
  pub same : is_infra_error error ≡ b

-- Whether the budget of the call is what ran out.
abbrev pub ran_out : Deadline → Bool
ran_out d = not (d.caller_done || not d.exceeded)

wrap-is_infra : (text : String) (e : Err) → is_infra_error (wrap text e) ≡ is_infra_error e
unfolding is_infra_error
wrap-is_infra text e = refl

own_deadline-is_infra :
    (d : Deadline) (e : Err)
    → is_infra_error (own_deadline d e) ≡ (if ran_out d then false else is_infra_error e)
unfolding own_deadline is_infra_error
own_deadline-is_infra d e = elim (Bool-cases (d.caller_done || not d.exceeded)) [
  | inl kept ↦ rw kept refl
  | inr out ↦ rw out refl
]

module _ {Container : Type 0} (sdk : Sdk Container) where
  -- An up that fails is taken for infrastructure trouble exactly where the error of the SDK is and the
  -- budget of the call is not what ran out.
  pub up-IsBlamed :
      (d : Deadline) (p : Project) (x : Err)
      → sdk.up (force_build p) ≡ some x
      → IsBlamed (if ran_out d then false else is_infra_error x) (up sdk d p)
  unfolding up up_error
  up-IsBlamed d p x fails = record {
    error = wrap "compose up" (own_deadline d x);
    fails = rw fails refl;
    same = wrap-is_infra "compose up" (own_deadline d x) ∙ own_deadline-is_infra d x;
  }

  -- The registry answered, and refused.
  abbrev pub refused : Err → Bool
  refused e =
      sdk.is_not_found e
      || (sdk.is_invalid_argument e || (sdk.is_unauthorized e || sdk.is_permission_denied e))

  classify_pull_error-is_infra :
      (e : Err)
      → is_infra_error (classify_pull_error sdk e) ≡ (if refused e then is_infra_error e else true)
  unfolding classify_pull_error is_infra_error
  classify_pull_error-is_infra e = elim (Bool-cases (refused e)) [
    | inl answered ↦ rw answered refl
    | inr silent ↦ rw silent refl
  ]

  -- A pull of at least one service that fails is taken for infrastructure trouble, also where the
  -- budget of the call ran out, unless the registry refused: then it is where its error is.
  pub pull-IsBlamed :
      (d : Deadline) (p : Project) (s : String × Service) (ss : Services) (x : Err)
      → images_to_pull sdk p.services ≡ ok (s ∷ ss)
      → sdk.pull (record p { services = s ∷ ss }) ≡ some x
      → IsBlamed
          (if refused (own_deadline d x) then is_infra_error (own_deadline d x) else true)
          (pull sdk d p)
  unfolding pull pull_services pull_error
  pull-IsBlamed d p s ss x wanted fails =
      let e = classify_pull_error sdk (own_deadline d x) in
      record {
        error = wrap "compose pull" e;
        fails = rw (wanted, fails) refl;
        same = wrap-is_infra "compose pull" e ∙ classify_pull_error-is_infra (own_deadline d x);
      }
