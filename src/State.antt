-- ===== src/State.antt =====
-- Code that reads and writes a state of type `S`, as a state monad.
use canopen_slave_tester.Prelude.{Bool, false, if◌then◌else◌}

abbrev pub State {ℓ κ} : Type ℓ → Type κ → Type (ℓ ⊔ κ)
State S A = S → A × S

infixl 5 ◌>>=◌ ◌>>◌
abbrev pub ◌>>=◌ {ℓ κ μ} :
    {S : Type ℓ} {A : Type κ} {B : Type μ} → State S A → (A → State S B) → State S B
◌>>=◌ m f s = let r = m s in f r.0 r.1

abbrev pub ◌>>◌ {ℓ κ μ} : {S : Type ℓ} {A : Type κ} {B : Type μ} → State S A → State S B → State S B
◌>>◌ m k s = k (m s).1

abbrev pub return {ℓ κ} : {S : Type ℓ} {A : Type κ} → A → State S A
return a s = (a, s)

-- `a && b`, and `if (!a) return false; return b`: `b` runs only if `a` has succeeded.
infixr 35 ◌&&&◌
abbrev pub ◌&&&◌ {ℓ} : {S : Type ℓ} → State S Bool → State S Bool → State S Bool
◌&&&◌ m k s = let r = m s in if r.0 then k r.1 else (false, r.1)
