-- ===== src/Gfc/Examples.antt =====
-- A run of the GFC validation (src/gfc_process.cpp).
use canopen_slave_tester.Prelude.{
  ℕ, ◌+◌, ◌%◌, ◌^◌, ◌≤◌, ◌≡◌, refl, ◌⊎◌, true, ◌&&◌, none, some, List, [], ◌∷◌, arith, get_or, ◌==◌,
  ltb, if◌then◌else◌,
}
use canopen_slave_tester.Lely.{started, param_val}
use canopen_slave_tester.Waiting.{wait_for}
use canopen_slave_tester.Heartbeat.{prepare_boot, boot_callback, boot_result}
use canopen_slave_tester.Heartbeat.Process.{prepare_boot_wait, wait_for_boot_completion}
use canopen_slave_tester.Heartbeat.Process.Examples.{good_host, session}
use canopen_slave_tester.Nmt.Events.{is_last_state}
use canopen_slave_tester.Host.{
  Host, Session, IsSteady, now, read_frame, read_error, success, on_boot, on_callback, acquire,
  wait_until,
}
use canopen_slave_tester.Host.Log.{newest_remote, reads}
use canopen_slave_tester.Nmt.Command.{issue_nmt_command}
use canopen_slave_tester.Sdo.{read_remote_sdo, write_remote_sdo, request_result}
use canopen_slave_tester.Gfc.{
  gfc_parameter_index, GfcDiagnostic, milliseconds, negative_observation_ms, gfc_frame,
  bounded_timeout_ms, remaining_ms, drain_reads, drain, send, wait_turns, wait_for_frame,
  validate_producer_frame,
}
use canopen_slave_tester.Gfc.Remote.{
  is_rejection, read_remote, write_remote, require_invalid_gfc_parameter_rejected, read_diagnostic,
  poll_rx_increment, wait_for_rx_increment, poll_rx_unchanged, require_rx_unchanged,
  send_and_validate_consumer, confirmed_result, poll_completion, wait_for_producer_completion,
  trigger_producer,
}
use canopen_slave_tester.Gfc.Remote.Waits.{gfc_polling-ends}
use canopen_slave_tester.Gfc.Process.{
  is_timeout, is_producer_frame, continuous_delivery, ignored_frame, rejected_parameter,
  gated_delivery, validate_consumer_cases, producer_case, validate_producer_cases, validate_rebound,
  reset_and_boot, reset_issued, issue_reset, wait_for_boot, confirm_start, start_operational,
  ensure_operational, validate_reset_rebind, validate_protocol_health, settle_request,
  settle_pending_producer, restore_parameter, restore_operational, cleanup_gfc_validation,
  consumer_and_producer, run_gfc_cases, run_gfc_validation, gfc_process,
}
use canopen_slave_tester.Gfc.Process.Restored.{gfc_process-Restored}
use canopen_slave_tester.Gfc.Process.Delivered.{deliveries, validate_consumer_cases-deliveries}
use canopen_slave_tester.Gfc.Process.Settled.{newest_written, IsSettled, restore_parameter-safe}

-- What the device answers to the request of each step.
abbrev gfc_answers : List ℕ
gfc_answers =
    0 ∷ 1 ∷ 10 ∷ 0 ∷ 5 ∷ 5 ∷ 0 ∷ 0 ∷ 0 ∷ 11 ∷ 1 ∷ 0 ∷ 0 ∷ 11 ∷ 0 ∷ 11 ∷ 0 ∷ 11 ∷ 0 ∷ 11 ∷ 0 ∷ 11 ∷ 0
    ∷ 11 ∷ 0 ∷ 11 ∷ 0 ∷ 11 ∷ 0 ∷ 11 ∷ 0 ∷ 11 ∷ 0 ∷ 11 ∷ 0 ∷ 11 ∷ 0 ∷ 11 ∷ 0 ∷ 11 ∷ 0 ∷ 11 ∷ 0 ∷ 0
    ∷ 0 ∷ 0 ∷ 0 ∷ 11 ∷ 0 ∷ 11 ∷ 0 ∷ 11 ∷ 0 ∷ 11 ∷ 0 ∷ 11 ∷ 0 ∷ 11 ∷ 0 ∷ 11 ∷ 0 ∷ 11 ∷ 0 ∷ 11 ∷ 0
    ∷ 11 ∷ 0 ∷ 11 ∷ 0 ∷ 11 ∷ 0 ∷ 11 ∷ 0 ∷ 11 ∷ 0 ∷ 11 ∷ 0 ∷ 0 ∷ 12 ∷ 1 ∷ 0 ∷ 13 ∷ 1 ∷ 0 ∷ 14 ∷ 1 ∷ 0
    ∷ 0 ∷ 0 ∷ 6 ∷ 0 ∷ 6 ∷ 0 ∷ 0 ∷ 0 ∷ 0 ∷ 7 ∷ 0 ∷ 7 ∷ 0 ∷ 0 ∷ 0 ∷ 0 ∷ 0 ∷ 14 ∷ 0 ∷ 7 ∷ 7 ∷ 0 ∷ 1 ∷ 0
    ∷ 15 ∷ 1 ∷ 0 ∷ 0 ∷ 7 ∷ 7 ∷ 0 ∷ 1 ∷ []

-- It rejects the invalid value, produces one frame, and boots after each reset.
abbrev gfc_device : Host
gfc_device = record good_host {
  callbacks = λ step. on_boot 1 started 0 ∷ [];
  completion = λ step ms. some (record {
    error = if step == 43 then some (record { is_sdo = true; sdo_errc = param_val }) else none;
    value = get_or gfc_answers step 0;
  });
  channel_read =
      λ step ms. if step == 99 && ltb 0 ms then read_frame (gfc_frame 0) 0 else read_error true;
}

gfc_passes : (gfc_process gfc_device session).0 ≡ 0
unfolding gfc_process run_gfc_validation run_gfc_cases consumer_and_producer cleanup_gfc_validation
    restore_operational restore_parameter settle_pending_producer settle_request
    validate_protocol_health validate_reset_rebind ensure_operational reset_and_boot reset_issued
    issue_reset wait_for_boot confirm_start start_operational validate_rebound
    validate_producer_cases producer_case validate_consumer_cases gated_delivery rejected_parameter
    ignored_frame continuous_delivery is_producer_frame is_timeout trigger_producer
    wait_for_producer_completion poll_completion confirmed_result send_and_validate_consumer
    require_rx_unchanged poll_rx_unchanged wait_for_rx_increment poll_rx_increment read_diagnostic
    require_invalid_gfc_parameter_rejected write_remote read_remote is_rejection
    validate_producer_frame wait_for_frame wait_turns send drain drain_reads remaining_ms
    bounded_timeout_ms gfc_frame request_result write_remote_sdo read_remote_sdo issue_nmt_command
    prepare_boot_wait wait_for_boot_completion prepare_boot boot_callback boot_result acquire
    wait_until wait_for on_callback now
gfc_passes = refl

gfc_process-Restored_example :
    (original : ℕ) × (original ≤ 1)
    × ((read_remote gfc_device 8 gfc_parameter_index 0 (drain gfc_device session).1).0
        ≡ some original)
    × (newest_remote gfc_parameter_index 0 (gfc_process gfc_device session).1.session.log
        ≡ some (reads original success))
    × (is_last_state started (gfc_process gfc_device session).1.events ≡ true)
gfc_process-Restored_example = gfc_process-Restored gfc_device session gfc_passes

-- The session before the consumer cases.
abbrev before_cases : Session
before_cases = record session { step = 7 }

abbrev diagnosed : GfcDiagnostic
diagnosed = record {
  rx_count = 10;
  safe_requested = 0;
  producer_request_seq = 5;
  producer_complete_seq = 5;
  producer_result = 0;
}

cases_pass :
    (validate_consumer_cases gfc_device diagnosed before_cases).0
    ≡ some (record diagnosed { rx_count = 14 })
unfolding validate_consumer_cases gated_delivery rejected_parameter ignored_frame
    continuous_delivery send_and_validate_consumer require_rx_unchanged poll_rx_unchanged
    wait_for_rx_increment poll_rx_increment require_invalid_gfc_parameter_rejected write_remote
    read_remote is_rejection send gfc_frame request_result write_remote_sdo read_remote_sdo now
cases_pass = refl

validate_consumer_cases-deliveries_example :
    (14 ≡ (10 + 4) % 2 ^ 32)
    × (deliveries none (validate_consumer_cases gfc_device diagnosed before_cases).1.log
        ≡ record { frame = gfc_frame 0; parameter = some 1; count = some 14 }
          ∷ record { frame = gfc_frame 0; parameter = some 1; count = some 13 }
          ∷ record { frame = gfc_frame 0; parameter = some 1; count = some 12 }
          ∷ record { frame = gfc_frame 1; parameter = some 1; count = some 11 }
          ∷ record { frame = gfc_frame 0; parameter = some 0; count = some 11 }
          ∷ record { frame = gfc_frame 0; parameter = some 1; count = some 11 }
          ∷ deliveries none before_cases.log)
validate_consumer_cases-deliveries_example =
    validate_consumer_cases-deliveries gfc_device diagnosed (record diagnosed { rx_count = 14 })
      before_cases cases_pass

unchanged :
    (require_rx_unchanged gfc_device 0 negative_observation_ms (record session { step = 500 })).0
    ≡ some tt
unfolding require_rx_unchanged poll_rx_unchanged read_remote request_result read_remote_sdo now
unchanged = refl

restore_parameter-safe_example :
    (newest_written gfc_parameter_index 0
        (restore_parameter gfc_device 1 (record session { step = 114 })).1.log
      ≡ some 0)
    ⊎ IsSettled (settle_pending_producer gfc_device (record session { step = 114 })).1
restore_parameter-safe_example = restore_parameter-safe gfc_device 1 (record session { step = 114 })

gfc-IsSteady : IsSteady gfc_device
gfc-IsSteady t = omega arith

gfc_polling-ends_example :
    (poll_rx_increment gfc_device (75 + 5) 10 (now gfc_device session + milliseconds 1500) session
      ≡ wait_for_rx_increment gfc_device 10 session)
    × (poll_rx_unchanged gfc_device (15 + 5) 10 (now gfc_device session + milliseconds 300) session
        ≡ require_rx_unchanged gfc_device 10 negative_observation_ms session)
    × (poll_completion gfc_device (75 + 5) 6 (now gfc_device session + milliseconds 1500) session
        ≡ wait_for_producer_completion gfc_device 6 session)
gfc_polling-ends_example = gfc_polling-ends gfc_device gfc-IsSteady 5 10 6 session
