-- ===== src/Runner.antt =====
-- The ordered execution of validation processes, src/canopen_process.cpp and
-- include/canopen_process.h. A handler works on a world of any type; its result is the bit pattern of
-- an `int`, of which the code only looks whether it is zero. Null pointers and empty
-- `std::function`s are `none`.
pub mod Order
pub mod Examples
use canopen_slave_tester.Prelude.{
  ℕ, ◌+◌, Bool, true, false, Option, none, some, List, [], ◌∷◌, ◌==◌, if◌then◌else◌, take,
}

pub record CanopenProcessEntry {ℓ} (W : Type ℓ) : Type ℓ where
  pub has_name : Bool
  pub handler : Option (W → ℕ × W)

module _ {ℓ} {W : Type ℓ} where
  -- The entries from index `i` on.
  unfoldable pub run_entries : List (CanopenProcessEntry W) → W → ℕ × W
  run_entries [] w = (0, w)
  run_entries (e ∷ es) w = elim e.handler [
    | none ↦ (1, w)
    | some handler ↦
        let (result, w') = handler w in
        let rest = run_entries es w' in
        if e.has_name then (if result == 0 then rest else (1, w')) else (1, w)
  ]

  -- The table has at least `count` entries.
  unfoldable pub canopen_run_processes :
      Option (List (CanopenProcessEntry W)) → (count : ℕ) → W → ℕ × W
  unfolding run_entries
  canopen_run_processes processes count w =
      if count == 0
      then (0, w)
      else elim processes [ none ↦ (1, w) | some table ↦ run_entries (take count table) w ]
