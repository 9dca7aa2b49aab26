-- ===== src/Config/Window/Written.antt =====
-- A window that is printed is read back.
use Prim.Native.Char.{code}
use text.Mathlib.TextLemmas.{nil-append, cons-append, append-nil, append_assoc}
use compose_lock.Prelude.{
  ℕ, zero, suc, ◌≡◌, ◌<◌, ◌∙◌, ap, refl, arith, String, ◌<>◌, Bool, true, false, not, ◌&&◌, Option,
  none, some, beq, show,
}
use compose_lock.Strings.{is_space, trim_left, trim_right, trim_space, cut, cut_from, atoi}
use compose_lock.Config.Window.{
  DeployWindow, IsWindow, parse_deploy_window, parse_clock, window_fields, window_of, show_clock,
  show_window,
}

-- A text with neither a space nor a dash.
solid : String → Bool
solid String.[] = true
solid (String.◌∷◌ c s) = not (is_space (code c)) && (not (beq (code c) b'-') && solid s)

same_clock : Option ℕ → ℕ → Bool
same_clock none t = false
same_clock (some u) t = beq u t

-- A test of every minute before a given one.
each_minute : (ℕ → Bool) → ℕ → Bool
each_minute test zero = true
each_minute test (suc last) = each_minute test last && test last

test_of_each :
    (test : ℕ → Bool) (bound : ℕ)
    → each_minute test bound ≡ true
    → (t : ℕ) → t < bound
    → test t ≡ true
unfolding each_minute
test_of_each test zero passed t early = absurd (omega arith)
test_of_each test (suc last) passed t early = ground (arith, test_of_each test last _ t)

read_back : ℕ → Bool
unfolding solid same_clock
read_back t = solid (show_clock t) && same_clock (parse_clock (show_clock t)) t

all_read_back : each_minute read_back 1440 ≡ true
unfolding each_minute read_back show_clock parse_clock trim_space cut atoi show
all_read_back = refl

no_space : String → Bool
no_space String.[] = true
no_space (String.◌∷◌ c s) = not (is_space (code c)) && no_space s

no_space-solid : (s : String) → solid s ≡ true → no_space s ≡ true
unfolding solid no_space
no_space-solid String.[] h = refl
no_space-solid (String.◌∷◌ c s) h = ground (arith, h, no_space-solid s)

dash_no_space : no_space "-" ≡ true
unfolding no_space is_space
dash_no_space = refl

no_space-append : (s t : String) → no_space (s <> t) ≡ (no_space s && no_space t)
unfolding no_space
no_space-append String.[] t = rw (nil-append t) refl
no_space-append (String.◌∷◌ c s) t = rw (cons-append c s t) (ground (arith, no_space-append s t))

trim_right-same : (s : String) → no_space s ≡ true → trim_right s ≡ s
unfolding trim_right no_space
trim_right-same String.[] h = refl
trim_right-same (String.◌∷◌ c s) h = ground (arith, h, trim_right-same s)

trim_left-same : (s : String) → no_space s ≡ true → trim_left s ≡ s
unfolding trim_left no_space
trim_left-same String.[] h = refl
trim_left-same (String.◌∷◌ c s) h = ground (arith, h)

trim_space-same : (s : String) → no_space s ≡ true → trim_space s ≡ s
unfolding trim_space
trim_space-same s h = rw (trim_right-same s h) (trim_left-same s h)

cut_from-dash :
    (before x y : String)
    → solid x ≡ true
    → cut_from before b'-' (x <> ("-" <> y)) ≡ some (before <> x, y)
unfolding cut_from solid
cut_from-dash before String.[] y h =
    rw (nil-append ("-" <> y), cons-append "-" "" y, nil-append y, append-nil before) refl
cut_from-dash before (String.◌∷◌ c x) y h =
    let other : beq (code c) b'-' ≡ false = ground (arith, h) in
    let more : solid x ≡ true = ground (arith, h) in
    rw (cons-append c x ("-" <> y), other)
      (cut_from-dash (before <> String.◌∷◌ c "") x y more
        ∙ ap (λ b. some (b, y))
            (append_assoc before (String.◌∷◌ c "") x
              ∙ ap (λ r. before <> r)
                  (cons-append c "" x ∙ ap (λ r. String.◌∷◌ c r) (nil-append x))))

clock_solid : (t : ℕ) → t < 1440 → solid (show_clock t) ≡ true
unfolding read_back
clock_solid t h = ground (arith, test_of_each read_back 1440 all_read_back t h)

same_clock-eq : (o : Option ℕ) (t : ℕ) → same_clock o t ≡ true → o ≡ some t
unfolding same_clock
same_clock-eq none t h = absurd (cc)
same_clock-eq (some u) t h = ground arith

parse-show_clock : (t : ℕ) → t < 1440 → parse_clock (show_clock t) ≡ some t
unfolding read_back
parse-show_clock t h =
    same_clock-eq _ t (ground (arith, test_of_each read_back 1440 all_read_back t h))

window_of-some : (w : DeployWindow) → IsWindow w → window_of (some w.start) (some w.end) ≡ some w
unfolding window_of
window_of-some w h = ground (arith, h.not_empty)

-- Every window whose ends are two different minutes of a day is printed as a text that parses as it.
pub parse_deploy_window-show_window :
    (w : DeployWindow) → IsWindow w → parse_deploy_window (show_window w) ≡ some w
unfolding parse_deploy_window show_window window_fields cut
parse_deploy_window-show_window w h =
    let a = show_clock w.start in
    let b = show_clock w.end in
    let sa = clock_solid w.start h.start_in_day in
    let sb = clock_solid w.end h.end_in_day in
    let spaceless : no_space (a <> ("-" <> b)) ≡ true = ground (
      arith,
      no_space-append a ("-" <> b),
      no_space-append "-" b,
      dash_no_space,
      no_space-solid a sa,
      no_space-solid b sb,
    ) in
    rw
      (
        trim_space-same (a <> ("-" <> b)) spaceless,
        cut_from-dash "" a b sa,
        nil-append a,
        parse-show_clock w.start h.start_in_day,
        parse-show_clock w.end h.end_in_day,
      )
      (window_of-some w h)
