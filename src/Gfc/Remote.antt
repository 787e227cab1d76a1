-- ===== src/Gfc/Remote.antt =====
-- The remote objects of the GFC validation (src/gfc_process.cpp), and the loops that poll them.
pub mod Waits
pub mod Counted
use canopen_slave_tester.Prelude.{
  ℕ, zero, suc, ◌+◌, ◌/◌, Bool, true, false, Option, none, some, ltb, ◌==◌,
}
use canopen_slave_tester.Lely.{Outcome, param_val, errc_eq}
use canopen_slave_tester.Host.{
  Host, Session, Completion, success, failed, sdo_timeout, wait_timeout, sdo_write, record_action,
  now, pause,
}
use canopen_slave_tester.Sdo.{request_result, read_remote_sdo, write_remote_sdo}
use canopen_slave_tester.Attempt.{Attempt, ◌>>=◌, ◌>>◌, return, require, succeeds}
use canopen_slave_tester.Gfc.{
  gfc_parameter_index, gfc_diagnostic_index, gfc_rx_count_subindex, gfc_safe_requested_subindex,
  gfc_producer_request_subindex, gfc_producer_complete_subindex, gfc_producer_result_subindex,
  sdo_timeout_ms, sdo_completion_margin_ms, consumer_observation_timeout_ms,
  producer_completion_timeout_ms, diagnostic_poll_interval_ms, GfcDiagnostic, milliseconds,
  incremented, send,
}

-- Whether a write of an invalid value has come back with the abort code PARAM_VAL.
unfoldable pub is_rejection : Outcome → Option Completion → Bool
is_rejection (some e) c = false
is_rejection none none = false
is_rejection none (some c) = elim c.error [ none ↦ false | some e ↦ errc_eq e.sdo_errc param_val ]

module _ (h : Host) where
  unfoldable pub read_remote : (width index subindex : ℕ) → Attempt Session ℕ
  read_remote width index subindex s =
      let (r, t) =
        read_remote_sdo h width index subindex 0 sdo_timeout_ms sdo_completion_margin_ms s in
      (
        elim r.0 [ success ↦ some r.1 | failed ↦ none | sdo_timeout ↦ none | wait_timeout ↦ none ],
        t,
      )

  unfoldable pub write_remote : (index subindex value : ℕ) → Attempt Session (Unit {0})
  write_remote index subindex value s =
      let (r, t) =
        write_remote_sdo h index subindex value sdo_timeout_ms sdo_completion_margin_ms s in
      (elim r [ success ↦ some tt | failed ↦ none | sdo_timeout ↦ none | wait_timeout ↦ none ], t)

  unfoldable pub require_invalid_gfc_parameter_rejected : Attempt Session (Unit {0})
  require_invalid_gfc_parameter_rejected s =
      let submitted = h.submit s.step in
      let completed = h.completion s.step (sdo_timeout_ms + sdo_completion_margin_ms) in
      let r = (request_result 0 submitted completed).0 in
      require (is_rejection submitted completed)
        (record_action (sdo_write gfc_parameter_index 0 2 r) s)

  unfoldable pub read_diagnostic : Attempt Session GfcDiagnostic
  read_diagnostic = do
    rx_count ← read_remote 32 gfc_diagnostic_index gfc_rx_count_subindex
    safe_requested ← read_remote 8 gfc_diagnostic_index gfc_safe_requested_subindex
    request ← read_remote 32 gfc_diagnostic_index gfc_producer_request_subindex
    complete ← read_remote 32 gfc_diagnostic_index gfc_producer_complete_subindex
    result ← read_remote 32 gfc_diagnostic_index gfc_producer_result_subindex
    return (record {
      rx_count = rx_count;
      safe_requested = safe_requested;
      producer_request_seq = request;
      producer_complete_seq = complete;
      producer_result = result;
    })

  -- The loop, by the turns left; the pause is before the test of the deadline.
  unfoldable pub poll_rx_increment : (turns baseline deadline : ℕ) → Attempt Session ℕ
  poll_rx_increment zero baseline deadline = λ s. (none, s)
  poll_rx_increment (suc n) baseline deadline = do
    count ← read_remote 32 gfc_diagnostic_index gfc_rx_count_subindex
    elim (count == incremented baseline) [
      | true ↦ return count
      | false ↦ elim (count == baseline) [
        | false ↦ λ s. (none, s)
        | true ↦ λ s.
            let t = pause diagnostic_poll_interval_ms s in
            elim (ltb (now h t) deadline) [
              | false ↦ (none, t)
              | true ↦ poll_rx_increment n baseline deadline t
            ]
      ]
    ]

  -- Each turn sleeps.
  unfoldable pub wait_for_rx_increment : (baseline : ℕ) → Attempt Session ℕ
  wait_for_rx_increment baseline s =
      poll_rx_increment (consumer_observation_timeout_ms / diagnostic_poll_interval_ms) baseline
        (now h s + milliseconds consumer_observation_timeout_ms) s

  -- The loop, by the turns left.
  unfoldable pub poll_rx_unchanged : (turns baseline deadline : ℕ) → Attempt Session (Unit {0})
  poll_rx_unchanged zero baseline deadline = λ s. (none, s)
  poll_rx_unchanged (suc n) baseline deadline = do
    count ← read_remote 32 gfc_diagnostic_index gfc_rx_count_subindex
    require (count == baseline)
    λ s.
        let t = pause diagnostic_poll_interval_ms s in
        elim (ltb (now h t) deadline) [
          | false ↦ (some tt, t)
          | true ↦ poll_rx_unchanged n baseline deadline t
        ]

  unfoldable pub require_rx_unchanged : (baseline observation_ms : ℕ) → Attempt Session (Unit {0})
  require_rx_unchanged baseline observation_ms s =
      poll_rx_unchanged (observation_ms / diagnostic_poll_interval_ms) baseline
        (now h s + milliseconds observation_ms) s

  unfoldable pub send_and_validate_consumer : (baseline : ℕ) → Attempt Session ℕ
  send_and_validate_consumer baseline = do
    succeeds (send h 0)
    observed ← wait_for_rx_increment baseline
    safe_requested ← read_remote 8 gfc_diagnostic_index gfc_safe_requested_subindex
    require (safe_requested == 1)
    return observed

  -- The result of a completed request, if it is still the newest one afterwards.
  unfoldable pub confirmed_result : (request_seq : ℕ) → Attempt Session ℕ
  confirmed_result request_seq = do
    producer_result ← read_remote 32 gfc_diagnostic_index gfc_producer_result_subindex
    confirm_seq ← read_remote 32 gfc_diagnostic_index gfc_producer_complete_subindex
    require (confirm_seq == request_seq)
    return producer_result

  -- The loop, by the turns left.
  unfoldable pub poll_completion : (turns request_seq deadline : ℕ) → Attempt Session ℕ
  poll_completion zero request_seq deadline = λ s. (none, s)
  poll_completion (suc n) request_seq deadline = do
    complete_seq ← read_remote 32 gfc_diagnostic_index gfc_producer_complete_subindex
    elim (complete_seq == request_seq) [
      | true ↦ confirmed_result request_seq
      | false ↦ λ s.
          let t = pause diagnostic_poll_interval_ms s in
          elim (ltb (now h t) deadline) [
            | false ↦ (none, t)
            | true ↦ poll_completion n request_seq deadline t
          ]
    ]

  unfoldable pub wait_for_producer_completion : (request_seq : ℕ) → Attempt Session ℕ
  wait_for_producer_completion request_seq s =
      poll_completion (producer_completion_timeout_ms / diagnostic_poll_interval_ms) request_seq
        (now h s + milliseconds producer_completion_timeout_ms) s

  -- The result of the request that comes after the given one.
  unfoldable pub trigger_producer : (request_seq : ℕ) → Attempt Session ℕ
  trigger_producer request_seq = do
    write_remote gfc_diagnostic_index gfc_producer_request_subindex (incremented request_seq)
    wait_for_producer_completion (incremented request_seq)
