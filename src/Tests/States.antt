-- ===== src/Tests/States.antt =====
-- The theorems on the parts of a run, at concrete states, snapshots and windows.
use compose_lock.Prelude.{
  ◌≡◌, ◌≢◌, ◌↔◌, refl, arith, String, true, false, List, [], ◌∷◌, ltb, ◌==◌, eq_iff, contains, All,
}
use compose_lock.Strings.{cut, trim_space, atoi}
use compose_lock.State.{State, Deployment, success, failed_apply, new, is_known_bad}
use compose_lock.State.Failed.{mark_all, is_known_bad-mark_all}
use compose_lock.Health.{evaluate}
use compose_lock.Health.Verdict.{IsFine, evaluate-All}
use compose_lock.Config.Window.{
  DeployWindow, parse_deploy_window, open_at, minutes_from, open_at-minutes_from,
}
use compose_lock.Tests.Worlds.{web, web_running}

abbrev two_commits : List String
two_commits = "aaaa1111" ∷ "bbbb2222" ∷ []

named : (c : String) → (c == "") ≡ false → c ≢ ""
named c e q = ground (arith, eq_iff c "")

is_known_bad-mark_all_example : is_known_bad (mark_all new two_commits 5) "aaaa1111" ≡ true
unfolding contains
is_known_bad-mark_all_example =
    is_known_bad-mark_all new two_commits 5 "aaaa1111" (refl, (refl, tt)) (omega arith)
      (named "aaaa1111" refl, (named "bbbb2222" refl, tt)) refl (named "aaaa1111" refl)

abbrev first_deployment : Deployment
first_deployment = record {
  at = 5;
  commit = "aaaa1111";
  result = success;
  rolled_back_to = "";
  error = "";
  repeats = 0;
}

abbrev after_failure : State
after_failure = record new {
  history =
      record first_deployment { commit = "bbbb2222"; result = failed_apply; repeats = 2 } ∷ [];
}

evaluate-All_example :
    ((evaluate web_running false true).is_healthy ≡ true) ↔ All (IsFine false true) (web ∷ [])
evaluate-All_example = evaluate-All web_running false true

abbrev night : DeployWindow
night = record { start = 1320; end = 360 }

open_at-minutes_from_example : open_at night 30 ≡ ltb (minutes_from 1320 30) (minutes_from 1320 360)
unfolding parse_deploy_window cut trim_space atoi
open_at-minutes_from_example = open_at-minutes_from "22:00-06:00" night 30 refl (omega arith)
