-- ===== src/Config/Window.antt =====
-- internal/config/window.go: the daily window for deployments. A time of day is its minute.
pub mod Written
use compose_lock.Prelude.{
  ℕ, ◌+◌, ◌*◌, ◌/◌, ◌%◌, ◌<>◌, show, ◌<◌, String, len, ◌≡◌, ◌≢◌, Bool, not, ◌&&◌, ◌||◌, Option,
  none, some, arith, ltb, leb, beq, ◌==◌, if◌then◌else◌, Option-cases, ◌-◌, inl, inr,
}
use compose_lock.Strings.{trim_space, cut, atoi}

pub record DeployWindow : Type 0 where
  pub start : ℕ
  pub end : ℕ

clock_of : Option ℕ → Option ℕ → Option ℕ
clock_of (some hour) (some minute) =
    if ltb 23 hour || ltb 59 minute then none else some (hour * 60 + minute)
clock_of _ _ = none

-- `none` is an error, here and below.
clock_fields : Option (String × String) → Option ℕ
unfolding clock_of
clock_fields none = none
clock_fields (some (h, m)) =
    if not (beq (len h) 2) || not (beq (len m) 2) then none else clock_of (atoi h) (atoi m)

unfoldable pub parse_clock : String → Option ℕ
unfolding clock_fields
parse_clock s = clock_fields (cut b':' (trim_space s))

unfoldable pub window_of : Option ℕ → Option ℕ → Option DeployWindow
window_of (some start) (some end) =
    if beq start end then none else some (record { start = start; end = end })
window_of _ _ = none

unfoldable pub window_fields : Option (String × String) → Option DeployWindow
unfolding parse_clock window_of
window_fields none = none
window_fields (some (from, to)) = window_of (parse_clock from) (parse_clock to)

unfoldable pub parse_deploy_window : String → Option DeployWindow
unfolding window_fields
parse_deploy_window s = window_fields (cut b'-' (trim_space s))

-- `Open`, at a minute of the day.
unfoldable pub open_at : DeployWindow → ℕ → Bool
open_at w now =
    if ltb w.start w.end then leb w.start now && ltb now w.end else leb w.start now || ltb now w.end

-- `Window`: no window where the field is empty or does not parse.
unfoldable pub window : String → Option DeployWindow
window deploy_window = if deploy_window == "" then none else parse_deploy_window deploy_window

two_digits : ℕ → String
two_digits n = if ltb n 10 then "0" <> show n else show n

unfoldable pub show_clock : ℕ → String
unfolding two_digits
show_clock t = two_digits (t / 60) <> (":" <> two_digits (t % 60))

-- The method `String`.
unfoldable pub show_window : DeployWindow → String
show_window w = show_clock w.start <> ("-" <> show_clock w.end)

-- `NextOpening`, as the distance from a moment of the day, in nanoseconds since its midnight: today at
-- the start if that is still to come, and else tomorrow. A day has 24 hours here; where clocks change,
-- `AddDate` keeps the time of day.
abbrev pub minute : ℕ
minute = 60000000000

unfoldable pub until_opening : DeployWindow → ℕ → ℕ
until_opening w t =
    let opening = w.start * minute in
    if ltb t opening then opening - t else opening + 1440 * minute - t

clock_of-lt : (h m : Option ℕ) (t : ℕ) → clock_of h m ≡ some t → t < 1440
unfolding clock_of
clock_of-lt none m t e = ground arith
clock_of-lt (some h) none t e = ground arith
clock_of-lt (some h) (some m) t e = ground arith

clock_fields-lt : (o : Option (String × String)) (t : ℕ) → clock_fields o ≡ some t → t < 1440
unfolding clock_fields
clock_fields-lt none t e = cc
clock_fields-lt (some (h, m)) t e = ground (arith, clock_of-lt (atoi h) (atoi m) t)

-- Two different times of day.
pub record IsWindow (w : DeployWindow) : Type 0 where
  pub start_in_day : w.start < 1440
  pub end_in_day : w.end < 1440
  pub not_empty : w.start ≢ w.end

window_of-IsWindow :
    (a b : Option (String × String)) (w : DeployWindow)
    → window_of (clock_fields a) (clock_fields b) ≡ some w
    → IsWindow w
unfolding window_of
window_of-IsWindow a b w e = elim (Option-cases (clock_fields a)) [
  | inl p ↦ cc (rw (p, window_of) at e)
  | inr (s, p) ↦ elim (Option-cases (clock_fields b)) [
    | inl q ↦ ground arith
    | inr (t, q) ↦ ground (arith, clock_fields-lt a s p, clock_fields-lt b t q)
  ]
]

window_fields-IsWindow :
    (o : Option (String × String)) (w : DeployWindow) → window_fields o ≡ some w → IsWindow w
unfolding window_fields
window_fields-IsWindow none w e = cc
window_fields-IsWindow (some (from, to)) w e =
    window_of-IsWindow (cut b':' (trim_space from)) (cut b':' (trim_space to)) w e

pub parse_deploy_window-IsWindow :
    (s : String) (w : DeployWindow) → parse_deploy_window s ≡ some w → IsWindow w
unfolding parse_deploy_window
parse_deploy_window-IsWindow s w e = window_fields-IsWindow (cut b'-' (trim_space s)) w e

-- The minutes from `a` forward to `b` round the clock.
abbrev pub minutes_from : ℕ → ℕ → ℕ
minutes_from a b = (b + 1440 - a) % 1440

-- A window that the configuration accepts is open at a minute of the day exactly when that minute
-- comes sooner after the start, going forward round the clock and past midnight, than the end does.
pub open_at-minutes_from :
    (s : String) (w : DeployWindow) (now : ℕ)
    → parse_deploy_window s ≡ some w
    → now < 1440
    → open_at w now ≡ ltb (minutes_from w.start now) (minutes_from w.start w.end)
unfolding open_at
open_at-minutes_from s w now e h = ground (arith, parse_deploy_window-IsWindow s w e)
