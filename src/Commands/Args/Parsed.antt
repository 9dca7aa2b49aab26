-- ===== src/Commands/Args/Parsed.antt =====
-- The end of a parse.
use compose_lock.Prelude.{
  ℕ, zero, suc, ◌<◌, ◌≤◌, ◌≡◌, refl, arith, String, true, is_some, List, [], ◌∷◌, ◌==◌, length,
  if◌then◌else◌,
}
use compose_lock.Errors.{Try, ok, err}
use compose_lock.Commands.Args.{CliFlags, Parser, Again, parsed, parse_from, parse_args}

-- A parser that leaves no more arguments than it was given.
Shrinks : Parser → Type 0
Shrinks parse =
    (f g : CliFlags) (args rest : List String)
    → parse f args ≡ ok (g, rest)
    → length rest ≤ length args

parsed-some :
    (again : Again) (n : ℕ)
    → ((c : String) (g : CliFlags) (m : List String) → length m < n → is_some (again c g m) ≡ true)
    → (command : String) (r : Try (CliFlags × List String))
    → ((g : CliFlags) (m : List String) → r ≡ ok (g, m) → length m ≤ n)
    → is_some (parsed again command r) ≡ true
unfolding parsed
parsed-some again n ends command (err e) short = refl
parsed-some again n ends command (ok (f, [])) short = refl
parsed-some again n ends command (ok (f, arg ∷ more)) short =
    ends (if command == "" then arg else command) f more
      (let l = short f (arg ∷ more) refl in ground (arith, l))

module _ (parse : Parser) (shrinks : Shrinks parse) where
  parse_from-some :
      (fuel : ℕ) (command : String) (f : CliFlags) (rest : List String)
      → length rest < fuel
      → is_some (parse_from parse fuel command f rest) ≡ true
  unfolding parse_from Shrinks
  parse_from-some zero command f rest l = absurd (ground (arith, l))
  parse_from-some (suc fuel) command f rest l =
      parsed-some (parse_from parse fuel) fuel (λ c g m s. parse_from-some fuel c g m s) command
        (parse f rest) (λ g m e. let k = shrinks f g rest m e in ground (arith, k, l))

  -- A command line is parsed in the rounds that it is given.
  parse_args-some : (f : CliFlags) (args : List String) → is_some (parse_args parse f args) ≡ true
  unfolding parse_args
  parse_args-some f args = parse_from-some (suc (length args)) "" f args (ground arith)
