-- ===== src/EmcyConsumer/Process/Accounted.antt =====
-- What an EMCY consumer validation knows of the host's error stack (src/emcy_consumer_process.cpp).
use canopen_slave_tester.Prelude.{
  ℕ, ◌+◌, ◌%◌, ◌^◌, ◌≡◌, refl, ◌⊎◌, Bool, true, false, Option-cases, inl, inr, List, [], ◌∷◌, ◌==◌,
  not, ◌||◌, arith,
}
use canopen_slave_tester.Lely.{started}
use canopen_slave_tester.Nmt.Events.{is_last_state}
use canopen_slave_tester.Host.{Session}
use canopen_slave_tester.Attempt.{Attempt}
use canopen_slave_tester.Attempt.Keeps.{Keeps, keeps_rules}
use canopen_slave_tester.EmcyConsumer.{
  error_code_a, error_code_b, test_error_register, EmcyTestVector, EmcyConsumerSnapshot,
}
use canopen_slave_tester.EmcyConsumer.Process.{
  EmcyHost, LocalEmcy, pushed, found_empty, cleared, ConsumerSession, by_session, fresh_consumer,
  validate_producer_preflight, peek_local_emcy, emit_test_emcy, clear_found, require_depth,
  clear_local_emcy, emit_and_validate_vector, require_active, clear_and_validate_recovery,
  reset_issued, issue_reset, wait_for_boot, confirm_start, reset_and_boot, start_node,
  ensure_started, preserved_snapshot, validate_reset_rebind, deliver_two, run_from,
  run_emcy_consumer_validation, clear_if_active, start_if_reset, cleanup_emcy_consumer_validation,
  validated, emcy_consumer_process,
}

-- The errors on the stack: those added since it was found empty or cleared.
pub added : List LocalEmcy → ℕ
added [] = 0
added (pushed code true ∷ rest) = added rest + 1
added (pushed code false ∷ rest) = added rest
added (found_empty ∷ rest) = 0
added (cleared n code register transmitted ∷ rest) = 0

-- What a clearing has found is the validation's own.
pub OwnClears : List LocalEmcy → Type 0
OwnClears [] = Unit
OwnClears (pushed code updated ∷ rest) = OwnClears rest
OwnClears (found_empty ∷ rest) = OwnClears rest
OwnClears (cleared n code register transmitted ∷ rest) =
    (n ≡ added rest % 2 ^ 32)
    × ((code ≡ error_code_a) ⊎ (code ≡ error_code_b))
    × (register ≡ test_error_register)
    × OwnClears rest

abbrev pub IsAccounted : ConsumerSession → Type 0
IsAccounted s =
    (s.runtime.expected_host_error_count ≡ added s.history % 2 ^ 32)
    × (s.runtime.host_error_active ≡ not (added s.history == 0))
    × OwnClears s.history

-- Where the program takes the node for operational, the newest event has shown it Operational.
abbrev pub IsTracked : ConsumerSession → Type 0
IsTracked s =
    IsAccounted s
    × ((not s.runtime.remote_operational_restored || is_last_state started s.events) ≡ true)

by_session-IsTracked : {A : Type 0} (p : Attempt Session A) → Keeps IsTracked (by_session p)
by_session-IsTracked p = record { at = λ s k. k }

module _ (e : EmcyHost) where
  emit-IsTracked : (v : EmcyTestVector) → Keeps IsTracked (emit_test_emcy e v)
  unfolding emit_test_emcy added OwnClears
  emit-IsTracked v = record {
    at = λ s k. ((ground (arith, k), ground (arith, k), ground (arith, k)), ground (arith, k));
  }

  clear_found-IsTracked :
      (n c r : ℕ) (s : ConsumerSession)
      → n ≡ s.runtime.expected_host_error_count
      → IsTracked s
      → IsTracked (clear_found e n c r s).1
  unfolding clear_found added OwnClears
  clear_found-IsTracked n c r s q k = ground (arith, q, k)

  clear_local-IsTracked : Keeps IsTracked (clear_local_emcy e)
  unfolding clear_local_emcy require_depth peek_local_emcy
  clear_local-IsTracked = record { at = λ s k. grind (arith, k, clear_found-IsTracked) }

  ruleset tracking_rules =
      (keeps_rules, by_session-IsTracked, emit-IsTracked, clear_local-IsTracked)

  emit_and_validate-IsTracked :
      (current : EmcyConsumerSnapshot) (v : EmcyTestVector)
      → Keeps IsTracked (emit_and_validate_vector e current v)
  unfolding emit_and_validate_vector
  emit_and_validate-IsTracked current v = search (tracking_rules) depth 20

  require_active-IsTracked : (b : Bool) → Keeps IsTracked (require_active e b)
  unfolding require_active
  require_active-IsTracked true = record { at = λ s k. ground (arith, k) }
  require_active-IsTracked false = record { at = λ s k. ground (arith, k) }

  clear_and_validate-IsTracked :
      (current : EmcyConsumerSnapshot) → Keeps IsTracked (clear_and_validate_recovery e current)
  unfolding clear_and_validate_recovery
  clear_and_validate-IsTracked current = search (tracking_rules, require_active-IsTracked) depth 20

  reset_and_boot-IsTracked : Keeps IsTracked (reset_and_boot e)
  unfolding reset_and_boot reset_issued issue_reset wait_for_boot is_last_state
  reset_and_boot-IsTracked = record { at = λ s k. ground (arith, k) }

  ensure_started-IsTracked : Keeps IsTracked (ensure_started e)
  unfolding ensure_started start_node confirm_start is_last_state
  ensure_started-IsTracked = record { at = λ s k. ground (arith, k) }

  preserved-IsTracked :
      (before : EmcyConsumerSnapshot) → Keeps IsTracked (preserved_snapshot e before)
  unfolding preserved_snapshot
  preserved-IsTracked before = search (tracking_rules) depth 20

  ruleset case_rules = (
    tracking_rules, emit_and_validate-IsTracked, require_active-IsTracked,
    clear_and_validate-IsTracked, reset_and_boot-IsTracked, ensure_started-IsTracked,
    preserved-IsTracked,
  )

  rebind-IsTracked :
      (current : EmcyConsumerSnapshot) → Keeps IsTracked (validate_reset_rebind e current)
  unfolding validate_reset_rebind
  rebind-IsTracked current = search (case_rules) depth 30

  deliver_two-IsTracked :
      (one two : EmcyTestVector) (current : EmcyConsumerSnapshot)
      → Keeps IsTracked (deliver_two e one two current)
  unfolding deliver_two
  deliver_two-IsTracked one two current = search (case_rules) depth 30

  pub run-IsTracked : Keeps IsTracked (run_emcy_consumer_validation e)
  unfolding run_emcy_consumer_validation run_from
  run-IsTracked = search (case_rules, rebind-IsTracked, deliver_two-IsTracked) depth 30

  clear_if-IsTracked : Keeps IsTracked (clear_if_active e)
  unfolding clear_if_active
  clear_if-IsTracked = record { at = λ s k. grind (arith, k, clear_local-IsTracked.at s k) }

  start_if-IsTracked : Keeps IsTracked (start_if_reset e)
  unfolding start_if_reset start_node confirm_start is_last_state
  start_if-IsTracked = record { at = λ s k. ground (arith, k) }

  validated-IsTracked : (s : ConsumerSession) → IsTracked s → IsTracked (validated e s).1
  unfolding validated cleanup_emcy_consumer_validation
  validated-IsTracked s k =
      let t = (run_emcy_consumer_validation e s).1 in
      start_if-IsTracked.at (clear_if_active e t).1 (clear_if-IsTracked.at t (run-IsTracked.at s k))

  preflight-IsTracked : Keeps IsTracked (validate_producer_preflight e)
  unfolding validate_producer_preflight peek_local_emcy
  preflight-IsTracked = record { at = λ s k. ground (arith, k) }

  fresh-IsTracked : (s : Session) → IsTracked (fresh_consumer s)
  unfolding added OwnClears
  fresh-IsTracked s = ((refl, refl, tt), refl)

  pub process-IsTracked : (s : Session) → IsTracked (emcy_consumer_process e s).1
  unfolding emcy_consumer_process
  process-IsTracked s =
      let t = (validate_producer_preflight e (fresh_consumer s)).1 in
      let k : IsTracked t = preflight-IsTracked.at (fresh_consumer s) (fresh-IsTracked s) in
      elim (Option-cases (validate_producer_preflight e (fresh_consumer s)).0) [
        | inl q ↦ ground (arith, q, k)
        | inr (_, q) ↦ ground (arith, q, validated-IsTracked t k)
      ]

  -- An EMCY consumer validation, however it ends, knows the host's error stack: it expects as many errors,
  -- modulo 2^32, as its pushes have added to the stack since it was last found empty or cleared, it
  -- counts the host's error as active exactly where there is one, and it has cleared the stack only at
  -- the depth that it expected, with one of its own two errors and its own error register on top.
  pub emcy_consumer_process-IsAccounted : (s : Session) → IsAccounted (emcy_consumer_process e s).1
  emcy_consumer_process-IsAccounted s = (process-IsTracked s).0
