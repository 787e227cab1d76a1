-- ===== src/SdoBlock/Process/Running.antt =====
-- Whether a block-transfer validation leaves the node stopped (src/sdo_block_process.cpp).
use canopen_slave_tester.Prelude.{
  ℕ, zero, suc, ◌+◌, ◌≡◌, refl, Bool, true, false, List, [], ◌∷◌, ◌||◌, not, arith,
}
use canopen_slave_tester.Lely.{NmtState, stopped, state_eq}
use canopen_slave_tester.Attempt.Keeps.{Keeps, Keeps-then, keeps_rules}
use canopen_slave_tester.SdoBlock.{
  BlockHost, BlockSession, read_block, write_block, read_segmented, read_expedited, confirm,
  cancel_request,
}
use canopen_slave_tester.SdoBlock.Process.{
  max_payload_size, stress_iterations, stress_seed, download_payload, upload_payload,
  run_block_round_trip, run_illegal_access_case, stop_node, restore_pre_operational,
  run_timeout_recovery_case, stop_for_barrier, synchronize_sdo_server_after_abort,
  submit_block_write, run_client_abort_case, run_expedited_regression, upload_segmented,
  run_segmented_regression, stress_from, run_stress_case, functional_cases, run_cases,
  restore_original_payload, restore_node, clean_up,
}

-- Whether the newest state that has been confirmed is Stopped.
pub left_stopped : List (NmtState × Bool) → Bool
left_stopped [] = false
left_stopped ((state, true) ∷ rest) = state_eq state stopped
left_stopped ((state, false) ∷ rest) = left_stopped rest

-- A node that is left stopped is one that the program takes for stopped.
abbrev pub IsKnown : BlockSession → Type 0
IsKnown s = (not (left_stopped s.confirmations) || s.node_stopped) ≡ true

pub nothing_confirmed : (s : BlockSession) → s.confirmations ≡ [] → IsKnown s
unfolding left_stopped
nothing_confirmed s q = rw q refl

module _ (h : BlockHost) where
  read_block-kept :
      (index subindex t margin : ℕ) → Keeps IsKnown (read_block h index subindex t margin)
  unfolding read_block
  read_block-kept index subindex t margin = record { at = λ s k. k }

  write_block-kept :
      (index subindex : ℕ) (payload : List ℕ) → Keeps IsKnown (write_block h index subindex payload)
  unfolding write_block
  write_block-kept index subindex payload = record { at = λ s k. k }

  read_segmented-kept : (index subindex : ℕ) → Keeps IsKnown (read_segmented h index subindex)
  unfolding read_segmented
  read_segmented-kept index subindex = record { at = λ s k. k }

  read_expedited-kept :
      (width index subindex : ℕ) → Keeps IsKnown (read_expedited h width index subindex)
  unfolding read_expedited
  read_expedited-kept width index subindex = record { at = λ s k. k }

  cancel_request-kept :
      (index subindex : ℕ) (payload : List ℕ)
      → Keeps IsKnown (cancel_request h index subindex payload)
  unfolding cancel_request
  cancel_request-kept index subindex payload = record { at = λ s k. k }

  submit-kept : Keeps IsKnown (submit_block_write h)
  unfolding submit_block_write
  submit-kept = record { at = λ s k. ground (arith, k) }

  stop_node-kept : Keeps IsKnown (stop_node h)
  unfolding stop_node confirm left_stopped
  stop_node-kept = record { at = λ s k. ground (arith, k) }

  barrier-kept : Keeps IsKnown (stop_for_barrier h)
  unfolding stop_for_barrier confirm left_stopped
  barrier-kept = record { at = λ s k. ground (arith, k) }

  restore-kept : Keeps IsKnown (restore_pre_operational h)
  unfolding restore_pre_operational confirm left_stopped
  restore-kept = record { at = λ s k. ground (arith, k) }

  ruleset access_rules = (
    keeps_rules, read_block-kept, write_block-kept, read_segmented-kept, read_expedited-kept,
    cancel_request-kept, submit-kept, stop_node-kept, barrier-kept, restore-kept,
  )

  download-kept : (payload : List ℕ) → Keeps IsKnown (download_payload h payload)
  unfolding download_payload
  download-kept payload = search access_rules depth 20

  upload-kept : (payload : List ℕ) → Keeps IsKnown (upload_payload h payload)
  unfolding upload_payload
  upload-kept payload = search access_rules depth 20

  round_trip-kept : (size seed : ℕ) → Keeps IsKnown (run_block_round_trip h size seed)
  unfolding run_block_round_trip
  round_trip-kept size seed = search (access_rules, download-kept, upload-kept) depth 20

  ruleset trip_rules = (access_rules, download-kept, upload-kept, round_trip-kept)

  illegal-kept : Keeps IsKnown (run_illegal_access_case h)
  unfolding run_illegal_access_case
  illegal-kept = search trip_rules depth 20

  timeout-kept : Keeps IsKnown (run_timeout_recovery_case h)
  unfolding run_timeout_recovery_case
  timeout-kept = search trip_rules depth 30

  abort-kept : Keeps IsKnown (run_client_abort_case h)
  unfolding run_client_abort_case synchronize_sdo_server_after_abort
  abort-kept = search trip_rules depth 30

  expedited-kept : Keeps IsKnown (run_expedited_regression h)
  unfolding run_expedited_regression
  expedited-kept = search trip_rules depth 20

  segmented-kept : Keeps IsKnown (run_segmented_regression h)
  unfolding run_segmented_regression upload_segmented
  segmented-kept = search trip_rules depth 20

  stress_from-kept : (left iteration : ℕ) → Keeps IsKnown (stress_from h left iteration)
  unfolding stress_from
  stress_from-kept zero iteration = search keeps_rules
  stress_from-kept (suc n) iteration =
      Keeps-then (run_block_round_trip h max_payload_size (stress_seed iteration))
        (stress_from h n (iteration + 1)) (round_trip-kept max_payload_size (stress_seed iteration))
        (stress_from-kept n (iteration + 1))

  stress-kept : Keeps IsKnown (run_stress_case h)
  unfolding run_stress_case
  stress-kept = stress_from-kept stress_iterations 0

  pub run_cases-kept : Keeps IsKnown (run_cases h)
  unfolding run_cases functional_cases
  run_cases-kept =
      search
        (
          trip_rules, illegal-kept, timeout-kept, abort-kept, expedited-kept, segmented-kept,
          stress-kept,
        )
        depth 40

  pub restore_node-kept : Keeps IsKnown (restore_node h)
  unfolding restore_node
  restore_node-kept = record { at = λ s k. ground (arith, k, restore-kept.at s k) }

  restore_original-kept : (original : List ℕ) → Keeps IsKnown (restore_original_payload h original)
  unfolding restore_original_payload
  restore_original-kept original = search trip_rules depth 20

  pub clean_up-kept : (original : List ℕ) → Keeps IsKnown (clean_up h original)
  unfolding clean_up
  clean_up-kept original = record {
    at = λ s k. ground (arith, k, (restore_original-kept original).at s k);
  }
