-- ===== src/Time/Examples.antt =====
-- Runs of the TIME validation (src/time_process.cpp).
use canopen_slave_tester.Prelude.{
  ℕ, ◌/◌, ◌<◌, arith, ◌-◌, ◌^◌, ◌≤◌, ◌↔◌, ◌+◌, ◌%◌, ◌≡◌, refl, true, false, none, some, [], ◌∷◌,
}
use canopen_slave_tester.Lely.{started}
use canopen_slave_tester.Waiting.{wait_for}
use canopen_slave_tester.Heartbeat.{prepare_boot, boot_callback, boot_result}
use canopen_slave_tester.Heartbeat.Process.{prepare_boot_wait, wait_for_boot_completion}
use canopen_slave_tester.Heartbeat.Process.Examples.{good_host, session}
use canopen_slave_tester.Host.{now, Host, on_boot, on_callback, acquire, wait_until}
use canopen_slave_tester.Nmt.Command.{issue_nmt_command}
use canopen_slave_tester.Sdo.{read_remote_sdo, write_remote_sdo, request_result}
use canopen_slave_tester.Time.{
  validate_continuous_advance, TimeDiagnostic, TimeSession, read_noted, write_noted, read_rx_count,
  verify_time_cob_id, write_and_verify_time_cob_id, reset_slave_communication,
  recover_time_cob_id_with_reset, coherent, snapshot_attempt, read_time_diagnostic,
}
use canopen_slave_tester.Time.{time_cycle_milliseconds}
use canopen_slave_tester.Time.Cycle.{position, validate_continuous_advance_iff}
use canopen_slave_tester.Time.Snapshot.{IsCoherent, read_time_diagnostic-IsCoherent}

-- A device that boots after each reset, and whose objects all hold 7.
abbrev rebooting : Host
rebooting = record good_host {
  callbacks = λ step. on_boot 1 started 0 ∷ [];
  completion = λ step ms. some (record { error = none; value = 7 });
}

abbrev time_session : TimeSession
time_session = record {
  session = session;
  completion_wait_timed_out = true;
  slave_needs_start = false;
}

recovered : (recover_time_cob_id_with_reset rebooting 7 time_session).0 ≡ true
unfolding recover_time_cob_id_with_reset reset_slave_communication write_and_verify_time_cob_id
    write_noted verify_time_cob_id read_noted read_remote_sdo write_remote_sdo request_result
    issue_nmt_command prepare_boot_wait wait_for_boot_completion prepare_boot boot_callback
    boot_result acquire wait_until wait_for on_callback
recovered = refl

abbrev sevens : TimeDiagnostic
sevens = record { rx_count = 7; milliseconds = 7; days = 7; sampled_at = 3 }

sampled : (read_time_diagnostic rebooting 3 time_session).0 ≡ some sevens
unfolding read_time_diagnostic snapshot_attempt coherent read_rx_count read_noted read_remote_sdo
    request_result now
sampled = refl

read_time_diagnostic-IsCoherent_example :
    IsCoherent rebooting sevens (read_time_diagnostic rebooting 3 time_session).1.session.log
read_time_diagnostic-IsCoherent_example =
    read_time_diagnostic-IsCoherent rebooting 3 time_session sevens sampled

abbrev later : TimeDiagnostic
later = record { rx_count = 8; milliseconds = 257; days = 7; sampled_at = 250000003 }

validate_continuous_advance_iff_example : (validate_continuous_advance sevens later 1 ≡ true) ↔ (
    ((7 + 1) % 2 ^ 32 ≡ 8)
    × ((elapsed : ℕ) × (elapsed < time_cycle_milliseconds)
        × ((position sevens + elapsed) % time_cycle_milliseconds ≡ position later)
        × (elapsed ≤ (250000003 - 3) / 1000000 + 120)
        × ((250000003 - 3) / 1000000 ≤ elapsed + 120)))
validate_continuous_advance_iff_example =
    validate_continuous_advance_iff sevens later 1 (omega arith, omega arith, omega arith)
      (omega arith, omega arith, omega arith) (omega arith)
