-- ===== src/World/Yields.antt =====
-- What a computation answers in every world.
use compose_lock.Prelude.{Bool, true, false, Option, none, some, if◌then◌else◌}
use compose_lock.Errors.{Err, Try, ok, err}
use compose_lock.World.{World, Event, M, pure, call, ◌>>=◌}

-- Every answer of `m` has `R`.
pub record Yields {ℓ} {A : Type 0} (R : A → Type ℓ) (m : M A) : Type ℓ where
  pub at : (w : World) → R (m w).0

module _ {ℓ} {A B : Type 0} {R : B → Type ℓ} where
  pub Yields-bind : (m : M A) (f : A → M B) → ((a : A) → Yields R (f a)) → Yields R (m >>= f)
  unfolding ◌>>=◌
  Yields-bind m f k = record { at = λ w. (k (m w).0).at (m w).1 }

  -- The rest of the block may use what `m` answers.
  pub Yields-then {κ} :
      {S : A → Type κ} (m : M A) (f : A → M B)
      → Yields S m
      → ((a : A) → S a → Yields R (f a))
      → Yields R (m >>= f)
  unfolding ◌>>=◌
  Yields-then m f h k = record { at = λ w. (k (m w).0 (h.at w)).at (m w).1 }

module _ {ℓ} {A B : Type 0} {R : B → Type ℓ} where
  pub Yields-bind_option :
      (m : M (Option A)) (f : Option A → M B)
      → Yields R (f none)
      → ((a : A) → Yields R (f (some a)))
      → Yields R (m >>= f)
  Yields-bind_option m f hn hs =
      Yields-bind m f (λ o. elim o as (λ x. Yields R (f x)) [ none ↦ hn | some a ↦ hs a ])

  pub Yields-bind_try :
      (m : M (Try A)) (f : Try A → M B)
      → ((e : Err) → Yields R (f (err e)))
      → ((a : A) → Yields R (f (ok a)))
      → Yields R (m >>= f)
  Yields-bind_try m f he ho =
      Yields-bind m f (λ o. elim o as (λ x. Yields R (f x)) [ err e ↦ he e | ok a ↦ ho a ])

module _ {ℓ} {A : Type 0} {R : A → Type ℓ} where
  pub Yields-pure : (a : A) → R a → Yields R (pure a)
  unfolding pure
  Yields-pure a h = record { at = λ w. h }

  pub Yields-call : (e : Event) (f : World → A) → ((w : World) → R (f w)) → Yields R (call e f)
  unfolding call
  Yields-call e f h = record { at = λ w. h w }

  pub Yields-if : (b : Bool) (m n : M A) → Yields R m → Yields R n → Yields R (if b then m else n)
  Yields-if true m n hm hn = hm
  Yields-if false m n hm hn = hn
