-- ===== src/Runner/Examples.antt =====
-- A run of the process runner (src/canopen_process.cpp).
use canopen_slave_tester.Prelude.{ℕ, ◌+◌, true, some, List, [], ◌∷◌, arith, take}
use canopen_slave_tester.Runner.{CanopenProcessEntry, canopen_run_processes}
use canopen_slave_tester.Runner.Order.{Outcome, canopen_run_processes-Outcome}

-- Handlers that count their calls; the second one fails.
abbrev table : List (CanopenProcessEntry ℕ)
table =
    record { has_name = true; handler = some (λ calls. (0, calls + 1)) }
    ∷ record { has_name = true; handler = some (λ calls. (7, calls + 1)) }
    ∷ record { has_name = true; handler = some (λ calls. (0, calls + 1)) }
    ∷ []

canopen_run_processes-Outcome_example :
    Outcome (take 3 table) 0 (canopen_run_processes (some table) 3 0)
canopen_run_processes-Outcome_example = canopen_run_processes-Outcome table 3 0 (omega arith)
