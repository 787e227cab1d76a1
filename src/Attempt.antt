-- ===== src/Attempt.antt =====
-- Code that reads and writes a state and returns false at the first thing that goes wrong, as a monad:
-- `none` is the result false, and the state is the one at which the code stopped.
pub mod Keeps
pub mod Guards
use canopen_slave_tester.Prelude.{Bool, true, false, Option, none, some}
use canopen_slave_tester.State.{State}

abbrev pub Attempt {ℓ κ} : Type ℓ → Type κ → Type (ℓ ⊔ κ)
Attempt S A = S → Option A × S

infixl 5 ◌>>=◌ ◌>>◌
abbrev pub ◌>>=◌ {ℓ κ μ} :
    {S : Type ℓ} {A : Type κ} {B : Type μ} → Attempt S A → (A → Attempt S B) → Attempt S B
◌>>=◌ m f s = let r = m s in elim r.0 [ none ↦ (none, r.1) | some a ↦ f a r.1 ]

abbrev pub ◌>>◌ {ℓ κ μ} :
    {S : Type ℓ} {A : Type κ} {B : Type μ} → Attempt S A → Attempt S B → Attempt S B
◌>>◌ m k s = let r = m s in elim r.0 [ none ↦ (none, r.1) | some _ ↦ k r.1 ]

abbrev pub return {ℓ κ} : {S : Type ℓ} {A : Type κ} → A → Attempt S A
return a s = (some a, s)

-- `if (!b) return false;`
abbrev pub require {ℓ} : {S : Type ℓ} → Bool → Attempt S (Unit {0})
require true s = (some tt, s)
require false s = (none, s)

-- A call whose result is looked at afterwards.
abbrev pub lift {ℓ κ} : {S : Type ℓ} {A : Type κ} → State S A → Attempt S A
lift p s = let r = p s in (some r.0, r.1)

-- `if (!p) return false;`
abbrev pub succeeds {ℓ} : {S : Type ℓ} → State S Bool → Attempt S (Unit {0})
succeeds p s = let r = p s in require r.0 r.1
