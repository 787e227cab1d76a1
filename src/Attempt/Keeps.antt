-- ===== src/Attempt/Keeps.antt =====
-- Code of the Attempt kind that keeps a property of the state, whether it succeeds or not.
use canopen_slave_tester.Prelude.{Bool, true, false, Option, none, some}
use canopen_slave_tester.State.{State}
use canopen_slave_tester.Attempt.{Attempt, ◌>>=◌, ◌>>◌, return, require, lift, succeeds}

pub record Keeps {ℓ κ} {S : Type ℓ} {A : Type κ} (P : S → Type ℓ) (p : S → A × S) : Type ℓ where
  pub at : (s : S) → P s → P (p s).1

module _ {ℓ} {S : Type ℓ} {P : S → Type ℓ} where
  pub Keeps-return {κ} : {A : Type κ} (a : A) → Keeps P (return {S = S} a)
  Keeps-return a = record { at = λ s h. h }

  pub Keeps-require : (b : Bool) → Keeps P (require {S = S} b)
  Keeps-require true = record { at = λ s h. h }
  Keeps-require false = record { at = λ s h. h }

  pub Keeps-lift {κ} : {A : Type κ} (p : State S A) → Keeps P p → Keeps P (lift p)
  Keeps-lift p k = record { at = λ s h. k.at s h }

  pub Keeps-succeeds : (p : State S Bool) → Keeps P p → Keeps P (succeeds p)
  Keeps-succeeds p k = record { at = λ s h. (Keeps-require (p s).0).at (p s).1 (k.at s h) }

  -- The rest of a block, from what its first part has left.
  rest-kept {κ μ} :
      {A : Type κ} {B : Type μ} (f : A → Attempt S B)
      → ((a : A) → Keeps P (f a))
      → (r : Option A × S) → P r.1
      → P (elim r.0 as (λ _. Option B × S) [ none ↦ (none, r.1) | some a ↦ f a r.1 ]).1
  rest-kept f kf (none, t) h = h
  rest-kept f kf (some a, t) h = (kf a).at t h

  pub Keeps-bind {κ μ} :
      {A : Type κ} {B : Type μ} (m : Attempt S A) (f : A → Attempt S B)
      → Keeps P m
      → ((a : A) → Keeps P (f a))
      → Keeps P (m >>= f)
  Keeps-bind m f km kf = record { at = λ s h. rest-kept f kf (m s) (km.at s h) }

  pub Keeps-then {κ μ} :
      {A : Type κ} {B : Type μ} (m : Attempt S A) (k : Attempt S B)
      → Keeps P m
      → Keeps P k
      → Keeps P (m >> k)
  Keeps-then m k km kk = record { at = λ s h. rest-kept (λ _. k) (λ _. kk) (m s) (km.at s h) }

pub ruleset keeps_rules =
    (Keeps-return, Keeps-require, Keeps-lift, Keeps-succeeds, Keeps-bind, Keeps-then)
