-- ===== src/Compose/Calls.antt =====
-- The calls of the Compose SDK in internal/compose/compose.go: `Service.Up`, `Pull`, `Down`, `Ps` and
-- `LoadProject`. What the SDK and Docker answer is a parameter. The order in which the services of a
-- project are looked at is open in the source; here it is that of a list.
pub mod Blame
use compose_lock.Prelude.{
  String, ◌<>◌, Bool, true, false, not, ◌&&◌, ◌||◌, Option, none, some, List, [], ◌∷◌, ◌==◌,
  is_some, map, join, if◌then◌else◌,
}
use compose_lock.Errors.{Err, plain, ext, registry_unavailable, wrap, both, Try, ok, err, message}
use compose_lock.Compose.{Service, Build, Project}

-- The services of a project, by name.
abbrev pub Services : Type 0
Services = List (String × Service)

-- The SDK, as it answers during one call. `inspect` is `ImageInspect`; the four tests are those of
-- containerd's errdefs; `pull_policy` is `GetPullPolicy`.
pub record Sdk (Container : Type 0) : Type 0 where
  pub load_project : List String → String → Try Project
  pub pull_policy : Service → Try String
  pub inspect : String → Option Err
  pub is_not_found : Err → Bool
  pub is_invalid_argument : Err → Bool
  pub is_unauthorized : Err → Bool
  pub is_permission_denied : Err → Bool
  pub up : Project → Option Err
  pub pull : Project → Option Err
  pub down : String → Option Err
  pub ps : String → Try (List Container)
  pub quote : String → String

-- After a call: whether the caller's context is done, whether the call's own deadline has passed, and
-- the text of its budget.
pub record Deadline : Type 0 where
  pub caller_done : Bool
  pub exceeded : Bool
  pub budget : String

unfoldable pub own_deadline : Deadline → Err → Err
own_deadline d e =
    if d.caller_done || not d.exceeded
    then e
    else plain ("timed out after " <> (d.budget <> (": " <> message e)))

built_service : String × Service → String × Service
built_service (name, svc) = elim svc.build [
  | none ↦ (name, svc)
  | some b ↦ (name, record svc { pull_policy = "build" })
]

unfoldable pub force_build : Project → Project
unfolding built_service
force_build p = record p { services = map built_service p.services }

wrapped : String → Option Err → Option Err
wrapped text none = none
wrapped text (some e) = some (wrap text e)

module _ {Container : Type 0} (sdk : Sdk Container) where
  loaded : List String → Try Project → Try Project
  loaded files (err e) = err (wrap ("loading compose project " <> join ", " files) e)
  loaded files (ok p) = ok p

  unfoldable pub load_project : List String → String → Try Project
  unfolding loaded
  load_project files name = loaded files (sdk.load_project files name)

  -- What `Up` blames on an answer of the SDK.
  up_error : Deadline → Option Err → Option Err
  up_error d none = none
  up_error d (some e) = some (wrap "compose up" (own_deadline d e))

  unfoldable pub up : Deadline → Project → Option Err
  unfolding up_error
  up d project = up_error d (sdk.up (force_build project))

  unfoldable pub classify_pull_error : Err → Err
  classify_pull_error e =
      if sdk.is_not_found e
        || (sdk.is_invalid_argument e || (sdk.is_unauthorized e || sdk.is_permission_denied e))
      then e
      else both (ext registry_unavailable "registry unavailable") ": " e ""

  present_as : String → Option Err → Try Bool
  present_as image none = ok true
  present_as image (some e) =
      if sdk.is_not_found e then ok false else err (wrap ("inspecting image " <> image) e)

  unfoldable pub image_present : String → Try Bool
  unfolding present_as
  image_present image = present_as image (sdk.inspect image)

  -- Whether a service with this policy is pulled.
  unfoldable pub pulls : String → Service → Try String → Try Bool
  pulls name svc (err e) = err (wrap ("service " <> sdk.quote name) e)
  pulls name svc (ok policy) =
      if policy == "always"
      then ok true
      else if policy == "missing" || policy == "if_not_present"
      then elim (image_present svc.image) [ err e ↦ err e | ok here ↦ ok (not here) ]
      else ok false

  is_skipped : Service → Bool
  is_skipped svc = svc.image == "" || (is_some svc.build || svc.has_provider)

  unfoldable pub chosen : String → Service → Try Bool
  unfolding is_skipped
  chosen name svc = if is_skipped svc then ok false else pulls name svc (sdk.pull_policy svc)

  add_chosen : String × Service → Try Bool → Try Services → Try Services
  add_chosen s (err e) rest = err e
  add_chosen s (ok wanted) (err e) = err e
  add_chosen s (ok wanted) (ok rest) = ok (if wanted then s ∷ rest else rest)

  unfoldable pub images_to_pull : Services → Try Services
  unfolding add_chosen
  images_to_pull [] = ok []
  images_to_pull ((name, svc) ∷ rest) =
      add_chosen (name, svc) (chosen name svc) (images_to_pull rest)

  pull_error : Deadline → Option Err → Option Err
  pull_error d none = none
  pull_error d (some e) = some (wrap "compose pull" (classify_pull_error (own_deadline d e)))

  pull_services : Deadline → Project → Try Services → Option Err
  unfolding pull_error
  pull_services d project (err e) = some (wrap "compose pull" e)
  pull_services d project (ok []) = none
  pull_services d project (ok (s ∷ ss)) =
      pull_error d (sdk.pull (record project { services = s ∷ ss }))

  unfoldable pub pull : Deadline → Project → Option Err
  unfolding pull_services
  pull d project = pull_services d project (images_to_pull project.services)

  unfoldable pub down : String → Option Err
  unfolding wrapped
  down name = wrapped "compose down" (sdk.down name)

  listed : Try (List Container) → Try (List Container)
  listed (err e) = err (wrap "compose ps" e)
  listed (ok cs) = ok cs

  unfoldable pub ps : String → Try (List Container)
  unfolding listed
  ps name = listed (sdk.ps name)
