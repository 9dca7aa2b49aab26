-- ===== src/World/Rules.antt =====
-- How a property of worlds is kept by a computation, one rule for each way to build one.
use compose_lock.Errors.{Err, Try, ok, err}
use compose_lock.Prelude.{Option, none, some, ◌≡◌, arith, Bool, true, false, if◌then◌else◌}
use compose_lock.World.{World, M, pure, gets, ◌>>=◌}

-- `m` leads from worlds with `P` to results and worlds with `Q`.
pub record Triple {ℓ} {A : Type 0} (P : World → Type ℓ) (m : M A) (Q : A → World → Type ℓ)
    : Type ℓ where
  pub at : (w : World) → P w → Q (m w).0 (m w).1

-- `m` keeps `P`.
abbrev pub Keeps {ℓ} : {A : Type 0} → (World → Type ℓ) → M A → Type ℓ
Keeps P m = Triple P m (λ a w. P w)

module _ {ℓ} {A B : Type 0} {P : World → Type ℓ} where
  pub Triple-bind :
      {Q : A → World → Type ℓ} {R : B → World → Type ℓ} (m : M A) (f : A → M B)
      → Triple P m Q
      → ((a : A) → Triple (Q a) (f a) R)
      → Triple P (m >>= f) R
  unfolding ◌>>=◌
  Triple-bind m f hm hf = record { at = λ w h. (hf (m w).0).at (m w).1 (hm.at w h) }

  pub Keeps-bind :
      (m : M A) (f : A → M B) → Keeps P m → ((a : A) → Keeps P (f a)) → Keeps P (m >>= f)
  unfolding ◌>>=◌
  Keeps-bind m f hm hf = record { at = λ w h. (hf (m w).0).at (m w).1 (hm.at w h) }

module _ {ℓ} {A : Type 0} {P : World → Type ℓ} where
  pub Keeps-pure : (a : A) → Keeps P (pure a)
  unfolding pure
  Keeps-pure a = record { at = λ w h. h }

  pub Keeps-gets : (f : World → A) → Keeps P (gets f)
  unfolding gets
  Keeps-gets f = record { at = λ w h. h }

  pub Keeps-if : (b : Bool) (m n : M A) → Keeps P m → Keeps P n → Keeps P (if b then m else n)
  Keeps-if true m n hm hn = hm
  Keeps-if false m n hm hn = hn

module _ {ℓ} {A : Type 0} {P : World → Type ℓ} where
  -- Only the branch that is taken has to keep `P`.
  pub Keeps-if_true : (b : Bool) (m n : M A) → b ≡ true → Keeps P m → Keeps P (if b then m else n)
  Keeps-if_true true m n q hm = hm
  Keeps-if_true false m n q hm = ground (arith, q)

-- `m` leads from worlds with `P` to worlds with `R`.
abbrev pub Leads {ℓ} : {A : Type 0} → (World → Type ℓ) → M A → (World → Type ℓ) → Type ℓ
Leads P m R = Triple P m (λ a w. R w)

module _ {ℓ} {A B : Type 0} {P R : World → Type ℓ} where
  pub Leads-bind :
      (m : M A) (f : A → M B) → Keeps P m → ((a : A) → Leads P (f a) R) → Leads P (m >>= f) R
  unfolding ◌>>=◌
  Leads-bind m f hm hf = record { at = λ w h. (hf (m w).0).at (m w).1 (hm.at w h) }

  pub Leads-after :
      (m : M A) (f : A → M B) → Leads P m R → ((a : A) → Keeps R (f a)) → Leads P (m >>= f) R
  unfolding ◌>>=◌
  Leads-after m f hm hf = record { at = λ w h. (hf (m w).0).at (m w).1 (hm.at w h) }

module _ {ℓ} {A B : Type 0} {P R : World → Type ℓ} where
  pub Leads-bind_option :
      (m : M (Option A)) (f : Option A → M B)
      → Keeps P m
      → Leads P (f none) R
      → ((a : A) → Leads P (f (some a)) R)
      → Leads P (m >>= f) R
  Leads-bind_option m f hm hn hs =
      Leads-bind m f hm (λ o. elim o as (λ x. Leads P (f x) R) [ none ↦ hn | some a ↦ hs a ])

  pub Leads-bind_try :
      (m : M (Try A)) (f : Try A → M B)
      → Keeps P m
      → ((e : Err) → Leads P (f (err e)) R)
      → ((a : A) → Leads P (f (ok a)) R)
      → Leads P (m >>= f) R
  Leads-bind_try m f hm he ho =
      Leads-bind m f hm (λ o. elim o as (λ x. Leads P (f x) R) [ err e ↦ he e | ok a ↦ ho a ])

module _ {ℓ} {A : Type 0} {P R : World → Type ℓ} where
  pub Leads-if : (b : Bool) (m n : M A) → Leads P m R → Leads P n R → Leads P (if b then m else n) R
  Leads-if true m n hm hn = hm
  Leads-if false m n hm hn = hn

  -- Only the branch that is taken has to lead there.
  pub Leads-if_true :
      (b : Bool) (m n : M A) → b ≡ true → Leads P m R → Leads P (if b then m else n) R
  Leads-if_true true m n q hm = hm
  Leads-if_true false m n q hm = ground (arith, q)

  pub Leads-pure : ((w : World) → P w → R w) → (a : A) → Leads P (pure a) R
  unfolding pure
  Leads-pure h a = record { at = h }

  pub Leads-of : ((w : World) → P w → R w) → (m : M A) → Keeps P m → Leads P m R
  Leads-of h m k = record { at = λ w p. h (m w).1 (k.at w p) }

module _ {ℓ} {A B : Type 0} {P Q R : World → Type ℓ} where
  -- The rest of the block may split on the answer and starts where `m` leads.
  pub Leads-through_option :
      (m : M (Option A)) (f : Option A → M B)
      → Leads P m Q
      → Leads Q (f none) R
      → ((a : A) → Leads Q (f (some a)) R)
      → Leads P (m >>= f) R
  Leads-through_option m f hm hn hs =
      Triple-bind m f hm (λ o. elim o as (λ x. Leads Q (f x) R) [ none ↦ hn | some a ↦ hs a ])

module _ {ℓ} {A : Type 0} {P R S : World → Type ℓ} where
  -- A stronger start.
  pub Leads-from : ((w : World) → S w → P w) → (m : M A) → Leads P m R → Leads S m R
  Leads-from h m k = record { at = λ w s. k.at w (h w s) }

pub ruleset keeps_rules = (Keeps-bind, Keeps-pure, Keeps-gets, Keeps-if)
