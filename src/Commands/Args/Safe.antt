-- ===== src/Commands/Args/Safe.antt =====
-- What the flags of a command line can ask for.
use mathlib.Core.Path.{subst}
use compose_lock.Prelude.{
  sym, ◌≡◌, inl, inr, refl, arith, String, Bool, true, false, not, ◌&&◌, ◌||◌, Option, none, some,
  List, [], ◌∷◌, ◌==◌, eq_iff, contains, Bool-cases,
}
use compose_lock.Prelude.Int.{ℤ, pos, ltz, AtLeast, not-ltz}
use compose_lock.Errors.{Err, first-none}
use compose_lock.Commands.Args.{
  CliFlags, dashed, is_rejected, any_of, misplaced_error, negative_error, rejected_error,
  check_flags_for, Plan, print_version, scaffold, refuse, proceed, Task, once, status, poll,
  webhook, resume, unknown, pause, read_only, chosen, checked, named, run,
}

-- No flag that was set asks for a dry run or for force.
pub record IsReal (f : CliFlags) : Type 0 where
  pub no_dry_run : is_rejected f "dry-run" ≡ false
  pub no_force : is_rejected f "force" ≡ false

pub record NoPause (f : CliFlags) : Type 0 where
  pub no_for : contains f.given "for" ≡ false
  pub no_reason : contains f.given "reason" ≡ false

-- Whether a command may write the state file.
unfoldable pub may_write : Task → Bool
may_write (once dry_run force) = not dry_run
may_write status = false
may_write poll = true
may_write webhook = true
may_write resume = true
may_write unknown = true
may_write (pause d reason) = true

-- What the flags must be for a command to run.
unfoldable pub Allowed : CliFlags → Task → Type 0
Allowed f (once dry_run force) = NoPause f × (force ≡ f.force)
Allowed f status = NoPause f
Allowed f poll = NoPause f × IsReal f
Allowed f webhook = NoPause f × IsReal f
Allowed f resume = NoPause f
Allowed f unknown = NoPause f
Allowed f (pause d reason) = AtLeast 0 d

-- The flags allow the task, and the test of `run` tells whether it may write.
unfoldable pub IsPlanned : CliFlags → Plan → Type 0
IsPlanned f print_version = Unit
IsPlanned f scaffold = Unit
IsPlanned f (refuse e) = Unit
IsPlanned f (proceed only task) = Allowed f task × (not only ≡ may_write task)

any_of-none : (names : List String) (text : String) → any_of names text ≡ none → names ≡ []
unfolding any_of
any_of-none [] text e = refl
any_of-none (n ∷ ns) text e = absurd (cc)

none_on :
    (is_on : String → Bool) (a b : String)
    → dashed is_on (a ∷ b ∷ []) ≡ []
    → (is_on a ≡ false) × (is_on b ≡ false)
unfolding dashed
none_on is_on a b e = elim (Bool-cases (is_on a)) [
  | inl on ↦ absurd (let e' = rw on at e in cc)
  | inr off ↦ elim (Bool-cases (is_on b)) [
    | inl on ↦ absurd (let e' = rw (off, on) at e in cc)
    | inr off' ↦ (off, off')
  ]
]

module _ (show_duration : ℤ → String) (command : String) (f : CliFlags) where
  misplaced-none :
      misplaced_error show_duration command f ≡ none → (command == "pause") ≡ false → NoPause f
  unfolding misplaced_error
  misplaced-none e other =
      let (no_for, no_reason) =
        none_on (contains f.given) "for" "reason" (any_of-none _ _ (rw other at e)) in
      record { no_for = no_for; no_reason = no_reason }

  rejected-none :
      rejected_error show_duration command f ≡ none
      → (command == "poll" || command == "webhook") ≡ true
      → IsReal f
  unfolding rejected_error
  rejected-none e loops =
      let within : (not (command == "poll") && not (command == "webhook")) ≡ false =
        ground (arith, loops) in
      let (no_dry_run, no_force) =
        none_on (is_rejected f) "dry-run" "force" (any_of-none _ _ (rw within at e)) in
      record { no_dry_run = no_dry_run; no_force = no_force }

  negative-none :
      negative_error show_duration command f ≡ none
      → (command == "pause") ≡ true
      → AtLeast 0 f.pause_for
  unfolding negative_error
  negative-none e pausing = elim (Bool-cases (ltz f.pause_for (pos 0))) [
    | inl below ↦ absurd (let e' = rw (pausing, below) at e in cc)
    | inr fine ↦ not-ltz 0 f.pause_for fine
  ]

  other-IsPlanned :
      NoPause f
      → ((command == "poll" || command == "webhook") ≡ true → IsReal f)
      → (command == "pause") ≡ false
      → Allowed f (chosen command f)
  unfolding chosen Allowed
  other-IsPlanned quiet real other = elim (Bool-cases (command == "sync")) [
    | inl a ↦ rw a (quiet, refl)
    | inr a ↦ elim (Bool-cases (command == "check")) [
      | inl b ↦ rw (a, b) (quiet, refl)
      | inr b ↦ elim (Bool-cases (command == "status")) [
        | inl c ↦ rw (a, b, c) quiet
        | inr c ↦ elim (Bool-cases (command == "poll")) [
          | inl d ↦ rw (a, b, c, d) (quiet, real (ground (arith, d)))
          | inr d ↦ elim (Bool-cases (command == "webhook")) [
            | inl e ↦ rw (a, b, c, d, e) (quiet, real (ground (arith, e)))
            | inr e ↦ elim (Bool-cases (command == "resume")) [
              | inl g ↦ rw (a, b, c, d, e, other, g) quiet
              | inr g ↦ rw (a, b, c, d, e, other, g) quiet
            ]
          ]
        ]
      ]
    ]
  ]

  pause-IsPlanned :
      AtLeast 0 f.pause_for → (command == "pause") ≡ true → Allowed f (chosen command f)
  unfolding chosen Allowed
  pause-IsPlanned positive pausing =
      subst (λ c. Allowed f (chosen c f)) (sym ((eq_iff command "pause").0 pausing)) positive

  differs : (a b : String) → (a == b) ≡ false → (command == a) ≡ true → (command == b) ≡ false
  differs a b apart e = rw ((eq_iff command a).0 e) apart

  -- The test of `run` is right about the command that follows it.
  read_only-may_write : not (read_only command f) ≡ may_write (chosen command f)
  unfolding read_only chosen may_write
  read_only-may_write = elim (Bool-cases (command == "sync")) [
    | inl a ↦ rw (a, differs "sync" "check" refl a, differs "sync" "status" refl a) (ground arith)
    | inr a ↦ elim (Bool-cases (command == "check")) [
      | inl b ↦ rw (a, b, differs "check" "status" refl b) refl
      | inr b ↦ elim (Bool-cases (command == "status")) [
        | inl c ↦ rw (a, b, c) refl
        | inr c ↦ ground (arith, a, b, c)
      ]
    ]
  ]

  checked-IsPlanned :
      (r : Option Err)
      → check_flags_for show_duration command f ≡ r
      → IsPlanned f (checked show_duration command f r)
  unfolding checked IsPlanned check_flags_for
  checked-IsPlanned (some e) p = tt
  checked-IsPlanned none p =
      let (misplaced, rest) = first-none (misplaced_error show_duration command f) _ p in
      let (negative, rejected) =
        first-none (negative_error show_duration command f) (rejected_error show_duration command f)
          rest in
      elim (Bool-cases (command == "pause")) [
        | inl pausing ↦
            (pause-IsPlanned (negative-none negative pausing) pausing, read_only-may_write)
        | inr other ↦ (
          other-IsPlanned (misplaced-none misplaced other) (rejected-none rejected) other,
          read_only-may_write,
        )
      ]

pub run-IsPlanned :
    (show_duration : ℤ → String) (command : String) (f : CliFlags)
    → IsPlanned f (run show_duration command f)
unfolding run IsPlanned
run-IsPlanned show_duration command f =
    let name = named command f in
    elim (Bool-cases (f.version_flag || name == "version")) [
      | inl version ↦ rw version tt
      | inr no_version ↦ elim (Bool-cases (name == "init")) [
        | inl init ↦ rw (no_version, init) tt
        | inr other ↦
            rw (no_version, other)
              (checked-IsPlanned show_duration name f (check_flags_for show_duration name f) refl)
      ]
    ]
