-- ===== src/Time/Process/Examples.antt =====
-- A TIME validation that passes (src/time_process.cpp).
use canopen_slave_tester.Prelude.{
  ℕ, ◌+◌, ◌%◌, ◌^◌, ◌≤◌, ◌≡◌, refl, false, none, some, List, [], ◌∷◌, get_or, arith,
}
use canopen_slave_tester.Heartbeat.Process.Examples.{good_host, session}
use canopen_slave_tester.Host.{Host, IsSteady, now, success}
use canopen_slave_tester.Host.Log.{newest_remote, reads}
use canopen_slave_tester.Nmt.Command.{issue_nmt_command}
use canopen_slave_tester.Sdo.{
  default_sdo_timeout_ms, default_completion_margin_ms, read_remote_sdo, write_remote_sdo,
  request_result,
}
use canopen_slave_tester.Time.{
  TimeDiagnostic, TimeSession, time_cob_id_index, time_position, forward_time_delta, elapsed_ms,
  validate_continuous_advance, read_noted, write_noted, read_rx_count, verify_time_cob_id,
  write_and_verify_time_cob_id, coherent, snapshot_attempt, read_time_diagnostic,
}
use canopen_slave_tester.Time.Snapshot.{IsCoherent}
use canopen_slave_tester.Time.Inject.{
  snapshot_retry_count, time_frame, is_applied, send_time_frame, poll_rx_count, wait_for_rx_count,
  poll_applied_time, wait_for_applied_time, inject_and_verify_time, still_advances,
  verify_invalid_dlc,
}
use canopen_slave_tester.Time.Inject.Applied.{inject_and_verify_time-applied}
use canopen_slave_tester.Time.Inject.Noted.{unstarted}
use canopen_slave_tester.Time.Process.{
  enable_consumer, has, continuous_advance, stimuli, disabled_consumer, enabled_again, run_cases,
  restore_normally, normal_cleanup, recovery, start_again, clean_up, validate_time, read_original,
  is_supported, fresh_flags, time_process,
}
use canopen_slave_tester.Time.Process.Restored.{time_process-Restored}

-- What the device answers to the request of each step.
abbrev answers : List ℕ
answers =
    10 ∷ 5 ∷ 1000 ∷ 5 ∷ 10 ∷ 2147483904 ∷ 10 ∷ 5 ∷ 1000 ∷ 5 ∷ 10 ∷ 10 ∷ 0 ∷ 11 ∷ 11 ∷ 1000
    ∷ 12345000 ∷ 1000 ∷ 11 ∷ 11 ∷ 0 ∷ 12 ∷ 12 ∷ 1001 ∷ 0 ∷ 1001 ∷ 12 ∷ 12 ∷ 0 ∷ 13 ∷ 13 ∷ 1002
    ∷ 86399999 ∷ 1002 ∷ 13 ∷ 13 ∷ 0 ∷ 14 ∷ 14 ∷ 0 ∷ 43210000 ∷ 0 ∷ 14 ∷ 14 ∷ 0 ∷ 15 ∷ 15 ∷ 65535
    ∷ 1000 ∷ 65535 ∷ 15 ∷ 15 ∷ 0 ∷ 16 ∷ 16 ∷ 2000 ∷ 10000 ∷ 2000 ∷ 16 ∷ 0 ∷ 16 ∷ 2000 ∷ 10250 ∷ 2000
    ∷ 16 ∷ 16 ∷ 2000 ∷ 10250 ∷ 2000 ∷ 16 ∷ 0 ∷ 0 ∷ 16 ∷ 2000 ∷ 10370 ∷ 2000 ∷ 16 ∷ 16 ∷ 2000 ∷ 10370
    ∷ 2000 ∷ 16 ∷ 0 ∷ 0 ∷ 16 ∷ 2000 ∷ 10490 ∷ 2000 ∷ 16 ∷ 0 ∷ 256 ∷ 16 ∷ 2000 ∷ 10490 ∷ 2000 ∷ 16
    ∷ 0 ∷ 0 ∷ 17 ∷ 2000 ∷ 10610 ∷ 2000 ∷ 17 ∷ 0 ∷ 2147483904 ∷ 17 ∷ 0 ∷ 18 ∷ 18 ∷ 3000 ∷ 22345000
    ∷ 3000 ∷ 18 ∷ 0 ∷ 2147483904 ∷ []

abbrev device : Host
device = record good_host {
  completion = λ step ms. some (record { error = none; value = get_or answers step 0 });
  clock = λ step. 0;
}

passes : (time_process device session).0 ≡ 0
unfolding time_process is_supported read_original validate_time clean_up start_again recovery
    normal_cleanup restore_normally run_cases enabled_again disabled_consumer stimuli
    continuous_advance has enable_consumer verify_invalid_dlc still_advances inject_and_verify_time
    wait_for_applied_time poll_applied_time wait_for_rx_count poll_rx_count send_time_frame
    is_applied time_frame read_time_diagnostic snapshot_attempt coherent
    write_and_verify_time_cob_id verify_time_cob_id read_rx_count write_noted read_noted
    validate_continuous_advance elapsed_ms forward_time_delta time_position request_result
    write_remote_sdo read_remote_sdo issue_nmt_command now
passes = refl

time_process-Restored_example :
    let t =
      (read_time_diagnostic device snapshot_retry_count (fresh_flags device session)).1.session in
    (original : ℕ) × ((read_remote_sdo device 32 time_cob_id_index 0 0 default_sdo_timeout_ms
        default_completion_margin_ms t).0
      ≡ (success, original))
    × (newest_remote time_cob_id_index 0 (time_process device session).1.session.log
        ≡ some (reads original success))
    × (unstarted (time_process device session).1.session.log ≡ false)
unfolding unstarted
time_process-Restored_example = time_process-Restored device session refl passes

-- The session at the first injection.
abbrev at_injection : TimeSession
at_injection = fresh_flags device (record session { step = 11 })

abbrev shown : TimeDiagnostic
shown = record { rx_count = 11; milliseconds = 12345000; days = 1000; sampled_at = 0 }

applied : (inject_and_verify_time device 0x100 12345000 1000 at_injection).0 ≡ some shown
unfolding inject_and_verify_time wait_for_applied_time poll_applied_time wait_for_rx_count
    poll_rx_count send_time_frame is_applied time_frame read_time_diagnostic snapshot_attempt
    coherent read_rx_count read_noted elapsed_ms forward_time_delta time_position request_result
    read_remote_sdo now
applied = refl

inject_and_verify_time-applied_example :
    IsCoherent device shown
      (inject_and_verify_time device 0x100 12345000 1000 at_injection).1.session.log
    × ((previous : ℕ) × ((read_rx_count device at_injection).0 ≡ some previous)
        × (11 ≡ (previous + 1) % 2 ^ 32))
    × (forward_time_delta (time_position 12345000 1000) (time_position 12345000 1000)
        ≤ elapsed_ms (now device (read_rx_count device at_injection).1.session) 0 + 250)
inject_and_verify_time-applied_example =
    inject_and_verify_time-applied device 0x100 12345000 1000 at_injection shown applied

steady : IsSteady device
steady t = omega arith
