-- ===== src/Waiting.antt =====
-- The wait that every observer uses: `std::condition_variable::wait_for(lock, timeout, pred)`.
-- The callbacks that other threads run while the waiter has released its lock come in batches; the
-- predicate is evaluated before the first batch, and after each one. The list ends at the timeout.
use canopen_slave_tester.Prelude.{◌≡◌, refl, Bool, true, false, List, [], ◌∷◌, ◌++◌, arith, All}

abbrev pub concat {κ} : {E : Type κ} → List (List E) → List E
concat [] = []
concat (b ∷ bs) = b ++ concat bs

module _ {ℓ κ} {S : Type ℓ} {E : Type κ} (run : E → S → S) where
  -- The callbacks of one batch, in order.
  abbrev pub deliver : List E → S → S
  deliver [] s = s
  deliver (e ∷ es) s = deliver es (run e s)

  abbrev pub deliver_all : List (List E) → S → S
  deliver_all [] s = s
  deliver_all (b ∷ bs) s = deliver_all bs (deliver b s)

  -- Whether the predicate held at the end, and the state then.
  unfoldable pub wait_for : (S → Bool) → List (List E) → S → Bool × S
  wait_for pred [] s = (pred s, s)
  wait_for pred (b ∷ bs) s = elim (pred s) [
    | true ↦ (true, s)
    | false ↦ wait_for pred bs (deliver b s)
  ]

  -- The verdict is the predicate at the state in which the wait ends.
  pub wait_for-pred :
      (pred : S → Bool) (bs : List (List E)) (s : S)
      → pred (wait_for pred bs s).1 ≡ (wait_for pred bs s).0
  unfolding wait_for
  wait_for-pred pred [] s = refl
  wait_for-pred pred (b ∷ bs) s = ground (arith, wait_for-pred pred bs (deliver b s))

  -- What every callback that arrives preserves, the wait preserves.
  pub deliver-inv {μ ν} :
      (P : S → Type μ) (Q : E → Type ν)
      → ((e : E) (s : S) → Q e → P s → P (run e s))
      → (es : List E) (s : S) → All Q es
      → P s
      → P (deliver es s)
  deliver-inv P Q keep [] s q p = p
  deliver-inv P Q keep (e ∷ es) s q p = deliver-inv P Q keep es (run e s) q.1 (keep e s q.0 p)

  pub wait_for-inv {μ ν} :
      (P : S → Type μ) (Q : E → Type ν)
      → ((e : E) (s : S) → Q e → P s → P (run e s))
      → (pred : S → Bool) (bs : List (List E)) (s : S) → All (All Q) bs
      → P s
      → P (wait_for pred bs s).1
  unfolding wait_for
  wait_for-inv P Q keep pred [] s q p = p
  wait_for-inv P Q keep pred (b ∷ bs) s q p = elim (pred s) as (λ t. P (pick t).1) [
    | true ↦ p
    | false ↦ wait_for-inv P Q keep pred bs (deliver b s) q.1 (deliver-inv P Q keep b s q.0 p)
  ]
    where
      pick : Bool → Bool × S
      pick t = elim t [ true ↦ (true, s) | false ↦ wait_for pred bs (deliver b s) ]

  -- A wait that times out has seen every callback.
  pub wait_for-timeout :
      (pred : S → Bool) (bs : List (List E)) (s : S)
      → (wait_for pred bs s).0 ≡ false
      → (wait_for pred bs s).1 ≡ deliver_all bs s
  unfolding wait_for
  wait_for-timeout pred [] s h = refl
  wait_for-timeout pred (b ∷ bs) s h = ground (arith, wait_for-timeout pred bs (deliver b s))

  pub deliver-append : (xs ys : List E) (s : S) → deliver (xs ++ ys) s ≡ deliver ys (deliver xs s)
  deliver-append [] ys s = refl
  deliver-append (x ∷ xs) ys s = deliver-append xs ys (run x s)
