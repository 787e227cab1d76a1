-- ===== src/Attempt/Guards.antt =====
-- Code of the Attempt kind that, from a state with one property, succeeds only in a state that has it
-- too, and fails in a state that has a weaker one.
use canopen_slave_tester.Prelude.{Bool, true, false, Option, none, some}
use canopen_slave_tester.Attempt.{Attempt, ◌>>=◌, ◌>>◌, return, require}

-- What holds after a result.
abbrev pub Ends {ℓ κ} : {S : Type ℓ} {A : Type κ} → (good bad : S → Type ℓ) → Option A × S → Type ℓ
Ends good bad (none, t) = bad t
Ends good bad (some a, t) = good t

pub record Guards {ℓ κ} {S : Type ℓ} {A : Type κ} (good bad : S → Type ℓ) (p : Attempt S A)
    : Type (ℓ ⊔ κ) where
  pub at : (s : S) → good s → Ends good bad (p s)

module _ {ℓ} {S : Type ℓ} {good bad : S → Type ℓ} where
  pub Guards-return {κ} : {A : Type κ} (a : A) → Guards good bad (return {S = S} a)
  Guards-return a = record { at = λ s g. g }

  require_at :
      ((s : S) → good s → bad s) → (b : Bool) (s : S) → good s → Ends good bad (require {S = S} b s)
  require_at weaken true s g = g
  require_at weaken false s g = weaken s g

  pub Guards-require : ((s : S) → good s → bad s) → (b : Bool) → Guards good bad (require {S = S} b)
  Guards-require weaken b = record { at = require_at weaken b }

  rest-guarded {κ μ} :
      {A : Type κ} {B : Type μ} (f : A → Attempt S B)
      → ((a : A) → Guards good bad (f a))
      → (r : Option A × S) → Ends good bad r
      → Ends good bad (elim r.0 as (λ _. Option B × S) [ none ↦ (none, r.1) | some a ↦ f a r.1 ])
  rest-guarded f kf (none, t) g = g
  rest-guarded f kf (some a, t) g = (kf a).at t g

  pub Guards-bind {κ μ} :
      {A : Type κ} {B : Type μ} (m : Attempt S A) (f : A → Attempt S B)
      → Guards good bad m
      → ((a : A) → Guards good bad (f a))
      → Guards good bad (m >>= f)
  Guards-bind m f km kf = record { at = λ s g. rest-guarded f kf (m s) (km.at s g) }

  pub Guards-then {κ μ} :
      {A : Type κ} {B : Type μ} (m : Attempt S A) (k : Attempt S B)
      → Guards good bad m
      → Guards good bad k
      → Guards good bad (m >> k)
  Guards-then m k km kk = record { at = λ s g. rest-guarded (λ _. k) (λ _. kk) (m s) (km.at s g) }

pub ruleset guard_rules = (Guards-return, Guards-bind, Guards-then)
