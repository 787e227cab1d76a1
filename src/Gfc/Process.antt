-- ===== src/Gfc/Process.antt =====
-- The cases of the GFC validation and gfcProcess, src/gfc_process.cpp.
pub mod Restored
pub mod Settled
pub mod Counted
pub mod Delivered
use canopen_slave_tester.Prelude.{
  ℕ, zero, suc, Bool, true, false, ◌&&◌, some, List, [], ◌∷◌, leb, ◌==◌, not, if◌then◌else◌,
}
use canopen_slave_tester.Lely.{NmtState, started, start, reset_comm, state_eq}
use canopen_slave_tester.Emcy.{is_some}
use canopen_slave_tester.Host.{Host, Session}
use canopen_slave_tester.Nmt.Events.{NodeEvent, reset_sent, boot_waited, state_waited}
use canopen_slave_tester.Nmt.Command.{issue_nmt_command, issue_nmt_command_and_wait_for_state}
use canopen_slave_tester.Heartbeat.{slave_node_id}
use canopen_slave_tester.Heartbeat.Process.{prepare_boot_wait, wait_for_boot_completion}
use canopen_slave_tester.Attempt.{Attempt, ◌>>=◌, ◌>>◌, return, require, lift, succeeds}
use canopen_slave_tester.Gfc.{
  gfc_parameter_index, gfc_diagnostic_index, gfc_producer_request_subindex,
  gfc_producer_complete_subindex, negative_observation_ms, wire_capture_timeout_ms,
  no_wire_frame_observation_ms, incremented, GfcDiagnostic, GfcRuntimeState, WireWaitResult,
  captured, timed_out, channel_failed, drain, send, wait_for_frame, validate_producer_frame,
}
use canopen_slave_tester.Gfc.Remote.{
  read_remote, write_remote, require_invalid_gfc_parameter_rejected, read_diagnostic,
  require_rx_unchanged, send_and_validate_consumer, wait_for_producer_completion, trigger_producer,
}

pub record GfcSession : Type 0 where
  pub session : Session
  pub runtime : GfcRuntimeState
  pub events : List NodeEvent  -- newest first, kept for the theorems

abbrev pub within : {A : Type 0} → Attempt Session A → Attempt GfcSession A
within p g = let (r, t) = p g.session in (r, record g { session = t })

abbrev pub set_runtime : (GfcRuntimeState → GfcRuntimeState) → Attempt GfcSession (Unit {0})
set_runtime f g = (some tt, record g { runtime = f g.runtime })

unfoldable pub is_timeout : WireWaitResult → Bool
is_timeout (captured f) = false
is_timeout timed_out = true
is_timeout channel_failed = false

unfoldable pub is_producer_frame : WireWaitResult → Bool
is_producer_frame (captured f) = validate_producer_frame f
is_producer_frame timed_out = false
is_producer_frame channel_failed = false

module _ (h : Host) where
  abbrev pub write_gfc_parameter : ℕ → Attempt Session (Unit {0})
  write_gfc_parameter value = write_remote h gfc_parameter_index 0 value

  -- A number of valid frames, each of which is counted.
  unfoldable pub continuous_delivery : (frames rx_count : ℕ) → Attempt Session ℕ
  continuous_delivery zero rx_count = return rx_count
  continuous_delivery (suc n) rx_count = do
    observed ← send_and_validate_consumer h rx_count
    continuous_delivery n observed

  -- The parameter is set, a frame sent, and the count stays.
  unfoldable pub ignored_frame : (valid dlc rx_count : ℕ) → Attempt Session (Unit {0})
  ignored_frame valid dlc rx_count = do
    write_gfc_parameter valid
    succeeds (send h dlc)
    require_rx_unchanged h rx_count negative_observation_ms

  -- The parameter rejects an invalid value, and keeps zero.
  unfoldable pub rejected_parameter : Attempt Session (Unit {0})
  rejected_parameter = do
    require_invalid_gfc_parameter_rejected h
    current_valid ← read_remote h 8 gfc_parameter_index 0
    require (current_valid == 0)

  -- From the first counted frame on, with the count.
  unfoldable pub gated_delivery : (observed : ℕ) → Attempt Session ℕ
  gated_delivery observed = do
    ignored_frame 0 0 observed
    rejected_parameter
    ignored_frame 1 1 observed
    continuous_delivery 3 observed

  unfoldable pub validate_consumer_cases : GfcDiagnostic → Attempt Session GfcDiagnostic
  validate_consumer_cases diagnostic = do
    write_gfc_parameter 1
    observed ← send_and_validate_consumer h diagnostic.rx_count
    rx_count ← gated_delivery observed
    return (record diagnostic { rx_count = rx_count })

  -- One request of the producer, from the draining of the channel on, whose wait for a frame ends as
  -- it has to.
  unfoldable pub producer_case :
      (request_seq timeout_ms : ℕ) → (WireWaitResult → Bool) → Attempt Session ℕ
  producer_case request_seq timeout_ms expected = do
    succeeds (drain h)
    producer_result ← trigger_producer h request_seq
    result ← lift (wait_for_frame h timeout_ms)
    require (expected result)
    require (producer_result == 0)
    return producer_result

  unfoldable pub validate_producer_cases : GfcDiagnostic → Attempt Session GfcDiagnostic
  validate_producer_cases diagnostic = do
    require (diagnostic.producer_request_seq == diagnostic.producer_complete_seq)
    write_gfc_parameter 0
    producer_case diagnostic.producer_request_seq no_wire_frame_observation_ms is_timeout
    write_gfc_parameter 1
    producer_result ←
        producer_case (incremented diagnostic.producer_request_seq) wire_capture_timeout_ms
          is_producer_frame
    return (record diagnostic {
      producer_request_seq = incremented (incremented diagnostic.producer_request_seq);
      producer_complete_seq = incremented (incremented diagnostic.producer_request_seq);
      producer_result = producer_result;
    })

  -- The consumer after a reset, with the count from before it.
  unfoldable pub validate_rebound : (pre_reset_count : ℕ) → Attempt Session GfcDiagnostic
  validate_rebound pre_reset_count = do
    post_reset ← read_diagnostic h
    require (post_reset.rx_count == pre_reset_count)
    require (post_reset.producer_request_seq == post_reset.producer_complete_seq)
    valid ← read_remote h 8 gfc_parameter_index 0
    elim (valid == 1) [ true ↦ return tt | false ↦ write_gfc_parameter 1 ]
    observed ← send_and_validate_consumer h post_reset.rx_count
    return (record post_reset { rx_count = observed })

  unfoldable pub confirm_start : Attempt GfcSession (Unit {0})
  confirm_start g =
      let (confirmed, t) =
        issue_nmt_command_and_wait_for_state h start slave_node_id started g.session in
      require confirmed
        (record g { session = t; events = state_waited started confirmed ∷ g.events })

  unfoldable pub issue_reset : Attempt GfcSession (Unit {0})
  issue_reset g =
      let (accepted, t) = issue_nmt_command h reset_comm slave_node_id g.session in
      require accepted (record g { session = t; events = reset_sent accepted ∷ g.events })

  unfoldable pub wait_for_boot : Attempt GfcSession NmtState
  wait_for_boot g =
      let (boot_state, t) = wait_for_boot_completion h g.session in
      (boot_state, record g { session = t; events = boot_waited boot_state ∷ g.events })

  -- The node is started and confirmed.
  unfoldable pub start_operational : Attempt GfcSession (Unit {0})
  start_operational = do
    confirm_start
    set_runtime (λ (r : GfcRuntimeState). record r { remote_operational_restored = true })

  -- The state that the Boot has left the node in.
  unfoldable pub ensure_operational :
      (remote_operational_restored : Bool) → Attempt GfcSession (Unit {0})
  ensure_operational true = return tt
  ensure_operational false = start_operational

  unfoldable pub reset_issued : Attempt GfcSession (Unit {0})
  reset_issued = do
    within (lift (prepare_boot_wait h))
    issue_reset
    set_runtime (λ (r : GfcRuntimeState). record r {
      reset_communication_issued = true;
      remote_operational_restored = false;
    })

  -- The state that the Boot after the reset reports.
  unfoldable pub reset_and_boot : Attempt GfcSession NmtState
  reset_and_boot = do
    reset_issued
    boot_state ← wait_for_boot
    set_runtime (λ (r : GfcRuntimeState). record r {
      remote_operational_restored = state_eq boot_state started;
    })
    return boot_state

  unfoldable pub validate_reset_rebind : GfcDiagnostic → Attempt GfcSession GfcDiagnostic
  validate_reset_rebind diagnostic = do
    boot_state ← reset_and_boot
    post_reset ← within (validate_rebound diagnostic.rx_count)
    ensure_operational (state_eq boot_state started)
    return post_reset

  unfoldable pub validate_protocol_health : Attempt Session ℕ
  validate_protocol_health = read_remote h 32 0x1000 0

  -- A request that is still pending is waited for, and its completion confirmed.
  unfoldable pub settle_request : (request_seq : ℕ) → Attempt Session (Unit {0})
  settle_request request_seq = do
    wait_for_producer_completion h request_seq
    confirmed_request ← read_remote h 32 gfc_diagnostic_index gfc_producer_request_subindex
    confirmed_complete ← read_remote h 32 gfc_diagnostic_index gfc_producer_complete_subindex
    require (confirmed_request == request_seq && confirmed_complete == request_seq)

  unfoldable pub settle_pending_producer : Attempt Session (Unit {0})
  settle_pending_producer = do
    write_gfc_parameter 0
    request_seq ← read_remote h 32 gfc_diagnostic_index gfc_producer_request_subindex
    complete_seq ← read_remote h 32 gfc_diagnostic_index gfc_producer_complete_subindex
    elim (request_seq == complete_seq) [ true ↦ return tt | false ↦ settle_request request_seq ]

  -- The state is not restored while a request may be pending.
  unfoldable pub restore_parameter : (original_valid : ℕ) → Attempt Session (Unit {0})
  restore_parameter original_valid = do
    settle_pending_producer
    write_gfc_parameter original_valid
    restored ← read_remote h 8 gfc_parameter_index 0
    require (restored == original_valid)

  -- The first step of the cleanup, whose failure does not keep it from the second.
  unfoldable pub restore_operational : GfcSession → Bool × GfcSession
  restore_operational g =
      let (r, k) = start_operational g in
      if g.runtime.reset_communication_issued && not g.runtime.remote_operational_restored
      then (is_some r, k)
      else (true, g)

  unfoldable pub cleanup_gfc_validation : GfcSession → Bool × GfcSession
  cleanup_gfc_validation g =
      let (operational, k) = restore_operational g in
      let (r, t) = restore_parameter k.runtime.original_valid k.session in
      if k.runtime.original_valid_saved
      then (operational && is_some r, record k { session = t })
      else (operational, k)

  -- The diagnostic preflight, and the cases before the reset.
  unfoldable pub consumer_and_producer : Attempt Session GfcDiagnostic
  consumer_and_producer = do
    diagnostic ← read_diagnostic h
    require (diagnostic.producer_request_seq == diagnostic.producer_complete_seq)
    consumed ← validate_consumer_cases diagnostic
    validate_producer_cases consumed

  -- From the diagnostic preflight on.
  unfoldable pub run_gfc_cases : Attempt GfcSession (Unit {0})
  run_gfc_cases = do
    produced ← within consumer_and_producer
    validate_reset_rebind produced
    within validate_protocol_health
    return tt

  unfoldable pub run_gfc_validation : Attempt GfcSession (Unit {0})
  run_gfc_validation = do
    within (succeeds (drain h))
    original_valid ← within (read_remote h 8 gfc_parameter_index 0)
    require (leb original_valid 1)
    set_runtime (λ (r : GfcRuntimeState). record r {
      original_valid = original_valid;
      original_valid_saved = true;
    })
    run_gfc_cases

  abbrev pub fresh_runtime : Session → GfcSession
  fresh_runtime s = record {
    session = s;
    runtime = record {
      original_valid = 0;
      original_valid_saved = false;
      reset_communication_issued = false;
      remote_operational_restored = false;
    };
    events = [];
  }

  unfoldable pub gfc_process : Session → ℕ × GfcSession
  gfc_process s =
      let (validated, g) = run_gfc_validation (fresh_runtime s) in
      let (cleaned, k) = cleanup_gfc_validation g in
      (if is_some validated && cleaned then 0 else 1, k)
