-- ===== src/EmcyConsumer/Process.antt =====
-- The cases of the EMCY consumer validation and emcyConsumerProcess, src/emcy_consumer_process.cpp. What
-- Lely's own EMCY service of the host answers is a parameter, which may depend on all that the
-- validation has done so far.
pub mod Counted
pub mod Accounted
pub mod Restored
use canopen_slave_tester.Prelude.{
  ℕ, ◌+◌, ◌%◌, ◌^◌, Bool, true, false, ◌&&◌, ◌||◌, Option, none, some, List, [], ◌∷◌, ◌==◌, not,
  bit_and, if◌then◌else◌,
}
use canopen_slave_tester.Lely.{NmtState, reset_comm, start, started, state_eq}
use canopen_slave_tester.Emcy.{is_some}
use canopen_slave_tester.Host.{Host, Session, next}
use canopen_slave_tester.Attempt.{Attempt, ◌>>=◌, ◌>>◌, return, require, lift, succeeds}
use canopen_slave_tester.Nmt.Events.{NodeEvent, reset_sent, boot_waited, state_waited}
use canopen_slave_tester.Nmt.Command.{issue_nmt_command, issue_nmt_command_and_wait_for_state}
use canopen_slave_tester.Heartbeat.{slave_node_id}
use canopen_slave_tester.Heartbeat.Process.{prepare_boot_wait, wait_for_boot_completion}
use canopen_slave_tester.EmcyConsumer.{
  expected_host_emcy_can_id, error_code_a, error_code_b, test_error_register, EmcyTestVector,
  vector_a, vector_b, EmcyConsumerSnapshot, validate_vector_snapshot, validate_recovery_snapshot,
  validate_reset_preserved_snapshot, read_remote_diagnostic, read_stable_snapshot,
  wait_for_next_rx_count,
}

abbrev cob_id_invalid_mask : ℕ
cob_id_invalid_mask = 0x80000000

pub record EmcyConsumerRuntimeState : Type 0 where
  pub host_error_active : Bool
  pub expected_host_error_count : ℕ  -- unsigned int
  pub reset_communication_issued : Bool
  pub remote_operational_restored : Bool

-- What the validation does with the host's EMCY service: a push, with whether it has added an error to
-- the stack; a stack found empty; and a clearing, with what was found before it.
pub data LocalEmcy : Type 0 where
  pushed : (error_code : ℕ) → (stack_updated : Bool) → LocalEmcy
  found_empty : LocalEmcy
  cleared : (history_count active_error active_register : ℕ) → (transmitted : Bool) → LocalEmcy

-- The two lists are kept for the theorems, newest first.
pub record ConsumerSession : Type 0 where
  pub session : Session
  pub runtime : EmcyConsumerRuntimeState
  pub history : List LocalEmcy
  pub events : List NodeEvent

pub record EmcyHost : Type 0 where
  pub host : Host
  -- Whether the push succeeds, and whether it has added an error.
  pub push : ConsumerSession → EmcyTestVector → Bool × Bool
  pub peek : ConsumerSession → Option (ℕ × ℕ)
  pub clear : ConsumerSession → Bool

abbrev pub by_session {ℓ} : {A : Type ℓ} → Attempt Session A → Attempt ConsumerSession A
by_session p s = let (r, t) = p s.session in (r, record s { session = t })

abbrev pub set_runtime :
    (EmcyConsumerRuntimeState → EmcyConsumerRuntimeState) → Attempt ConsumerSession (Unit {0})
set_runtime change s = (some tt, record s { runtime = change s.runtime })

abbrev pub no_host_error : EmcyConsumerRuntimeState → EmcyConsumerRuntimeState
no_host_error r = record r { host_error_active = false; expected_host_error_count = 0 }

-- The state at the start.
abbrev pub fresh_consumer : Session → ConsumerSession
fresh_consumer s = record {
  session = s;
  runtime = record {
    host_error_active = false;
    expected_host_error_count = 0;
    reset_communication_issued = false;
    remote_operational_restored = false;
  };
  history = [];
  events = [];
}

module _ (e : EmcyHost) where
  unfoldable pub read_local_object : Attempt Session ℕ
  read_local_object s = (e.host.local_od_read s.step, next s)

  unfoldable pub peek_local_emcy : Attempt ConsumerSession (ℕ × ℕ)
  peek_local_emcy s = (e.peek s, record s { session = next s.session })

  unfoldable pub validate_producer_preflight : Attempt ConsumerSession (Unit {0})
  validate_producer_preflight = do
    cob_id ← by_session read_local_object
    inhibit_time ← by_session read_local_object
    require (bit_and cob_id cob_id_invalid_mask == 0)
    require (cob_id == expected_host_emcy_can_id && inhibit_time == 0)
    active ← peek_local_emcy
    require (active.0 == 0 && active.1 == 0)

  unfoldable pub emit_test_emcy : EmcyTestVector → Attempt ConsumerSession (Unit {0})
  emit_test_emcy vector s =
      let (accepted, stack_updated) = e.push s vector in
      require accepted (record s {
        session = next s.session;
        runtime =
            if stack_updated
            then record (s.runtime) {
              host_error_active = true;
              expected_host_error_count = (s.runtime.expected_host_error_count + 1) % 2 ^ 32;
            }
            else s.runtime;
        history = pushed vector.error_code stack_updated ∷ s.history;
      })

  -- The clearing, of an error that is one of the validation's own.
  unfoldable pub clear_found :
      (history_count active_error active_register : ℕ) → Attempt ConsumerSession (Unit {0})
  clear_found history_count active_error active_register s =
      if active_error == 0 && active_register == 0
      then (
        some tt,
        record s { runtime = no_host_error s.runtime; history = found_empty ∷ s.history },
      )
      else if not (
          (active_error == error_code_a || active_error == error_code_b)
          && active_register == test_error_register)
      then (none, s)
      else require (e.clear s) (record s {
        session = next s.session;
        runtime = no_host_error s.runtime;
        history = cleared history_count active_error active_register (e.clear s) ∷ s.history;
      })

  unfoldable pub require_depth : (history_count : ℕ) → Attempt ConsumerSession (Unit {0})
  require_depth history_count s = require (history_count == s.runtime.expected_host_error_count) s

  unfoldable pub clear_local_emcy : Attempt ConsumerSession (Unit {0})
  clear_local_emcy = do
    history_count ← by_session read_local_object
    require_depth history_count
    active ← peek_local_emcy
    clear_found history_count active.0 active.1

  -- A snapshot after exactly one more publication.
  unfoldable pub observe_next : (baseline_count : ℕ) → Attempt Session (ℕ × EmcyConsumerSnapshot)
  observe_next baseline_count = do
    observed_count ← wait_for_next_rx_count e.host baseline_count
    snapshot ← read_stable_snapshot e.host
    return (observed_count, snapshot)

  unfoldable pub emit_and_validate_vector :
      EmcyConsumerSnapshot → EmcyTestVector → Attempt ConsumerSession EmcyConsumerSnapshot
  emit_and_validate_vector current vector = do
    emit_test_emcy vector
    observed ← by_session (observe_next current.rx_count)
    require (validate_vector_snapshot observed.1 observed.0 vector)
    return observed.1

  unfoldable pub require_active : Bool → Attempt ConsumerSession (Unit {0})
  require_active true s = require s.runtime.host_error_active s
  require_active false s = require (not s.runtime.host_error_active) s

  unfoldable pub clear_and_validate_recovery :
      EmcyConsumerSnapshot → Attempt ConsumerSession EmcyConsumerSnapshot
  clear_and_validate_recovery current = do
    require_active true
    clear_local_emcy
    observed ← by_session (observe_next current.rx_count)
    require (validate_recovery_snapshot observed.1 observed.0)
    return observed.1

  unfoldable pub validate_sdo_health : Attempt Session ℕ
  validate_sdo_health = read_remote_diagnostic e.host 32 0x1000 0

  unfoldable pub issue_reset : Attempt ConsumerSession (Unit {0})
  issue_reset s =
      let (accepted, t) = issue_nmt_command e.host reset_comm slave_node_id s.session in
      require accepted (record s { session = t; events = reset_sent accepted ∷ s.events })

  unfoldable pub wait_for_boot : Attempt ConsumerSession NmtState
  wait_for_boot s =
      let (boot_state, t) = wait_for_boot_completion e.host s.session in
      (boot_state, record s { session = t; events = boot_waited boot_state ∷ s.events })

  unfoldable pub confirm_start : Attempt ConsumerSession (Unit {0})
  confirm_start s =
      let (confirmed, t) =
        issue_nmt_command_and_wait_for_state e.host start slave_node_id started s.session in
      require confirmed
        (record s { session = t; events = state_waited started confirmed ∷ s.events })

  unfoldable pub reset_issued : Attempt ConsumerSession (Unit {0})
  reset_issued = do
    by_session (lift (prepare_boot_wait e.host))
    issue_reset
    set_runtime (λ (r : EmcyConsumerRuntimeState). record r {
      reset_communication_issued = true;
      remote_operational_restored = false;
    })

  unfoldable pub reset_and_boot : Attempt ConsumerSession (Unit {0})
  reset_and_boot = do
    reset_issued
    boot_state ← wait_for_boot
    set_runtime (λ (r : EmcyConsumerRuntimeState). record r {
      remote_operational_restored = state_eq boot_state started;
    })

  unfoldable pub start_node : Attempt ConsumerSession (Unit {0})
  start_node = do
    confirm_start
    set_runtime (λ (r : EmcyConsumerRuntimeState). record r { remote_operational_restored = true })

  unfoldable pub ensure_started : Attempt ConsumerSession (Unit {0})
  ensure_started s = if s.runtime.remote_operational_restored then (some tt, s) else start_node s

  -- The diagnostic is the same after the reset.
  unfoldable pub preserved_snapshot :
      EmcyConsumerSnapshot → Attempt ConsumerSession EmcyConsumerSnapshot
  preserved_snapshot pre_reset = do
    post_reset ← by_session (read_stable_snapshot e.host)
    require (validate_reset_preserved_snapshot pre_reset post_reset)
    return post_reset

  unfoldable pub validate_reset_rebind :
      EmcyConsumerSnapshot → Attempt ConsumerSession EmcyConsumerSnapshot
  validate_reset_rebind current = do
    require_active false
    pre_reset ← emit_and_validate_vector current vector_a
    reset_and_boot
    post_reset ← preserved_snapshot pre_reset
    delivered ← emit_and_validate_vector post_reset vector_b
    recovered ← clear_and_validate_recovery delivered
    ensure_started
    return recovered

  -- Two messages, and their recovery.
  unfoldable pub deliver_two :
      (first second : EmcyTestVector)
      → EmcyConsumerSnapshot
      → Attempt ConsumerSession EmcyConsumerSnapshot
  deliver_two first second current = do
    one ← emit_and_validate_vector current first
    two ← emit_and_validate_vector one second
    clear_and_validate_recovery two

  unfoldable pub run_from : EmcyConsumerSnapshot → Attempt ConsumerSession EmcyConsumerSnapshot
  run_from baseline = do
    delivered ← deliver_two vector_a vector_b baseline
    duplicated ← deliver_two vector_a vector_a delivered
    by_session validate_sdo_health
    validate_reset_rebind duplicated

  unfoldable pub run_emcy_consumer_validation : Attempt ConsumerSession EmcyConsumerSnapshot
  run_emcy_consumer_validation = do
    baseline ← by_session (read_stable_snapshot e.host)
    run_from baseline

  unfoldable pub clear_if_active : Attempt ConsumerSession (Unit {0})
  clear_if_active s = if s.runtime.host_error_active then clear_local_emcy s else (some tt, s)

  unfoldable pub start_if_reset : Attempt ConsumerSession (Unit {0})
  start_if_reset s =
      if s.runtime.reset_communication_issued && not s.runtime.remote_operational_restored
      then start_node s
      else (some tt, s)

  -- Both restorations are attempted.
  unfoldable pub cleanup_emcy_consumer_validation : ConsumerSession → Bool × ConsumerSession
  cleanup_emcy_consumer_validation s =
      let (host_cleared, t) = clear_if_active s in
      let (restored, u) = start_if_reset t in (is_some host_cleared && is_some restored, u)

  unfoldable pub validated : ConsumerSession → ℕ × ConsumerSession
  validated s =
      let (passed, t) = run_emcy_consumer_validation s in
      let (cleaned, u) = cleanup_emcy_consumer_validation t in
      (if is_some passed && cleaned then 0 else 1, u)

  unfoldable pub emcy_consumer_process : Session → ℕ × ConsumerSession
  emcy_consumer_process s =
      let (ready, t) = validate_producer_preflight (fresh_consumer s) in
      elim ready [ none ↦ (1, t) | some _ ↦ validated t ]
