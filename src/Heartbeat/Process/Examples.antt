-- ===== src/Heartbeat/Process/Examples.antt =====
-- Runs of the Heartbeat validation (src/nmt_heartbeat.cpp).
use canopen_slave_tester.Prelude.{ℕ, ◌≡◌, refl, true, false, List, [], ◌∷◌, none, some, replicate}
use canopen_slave_tester.Lely.{started}
use canopen_slave_tester.Emcy.{
  EmcyFrame, emcy_callback, emcy_initial, find_emcy_event_locked, snapshot_emcy_sequence,
}
use canopen_slave_tester.Nmt.{no_observation}
use canopen_slave_tester.Nmt.Command.{issue_nmt_command}
use canopen_slave_tester.Waiting.{wait_for}
use canopen_slave_tester.Host.{
  Host, Session, Callback, on_emcy, on_heartbeat, on_callback, acquire, wait_until, read_nothing,
}
use canopen_slave_tester.Host.Log.{newest_local}
use canopen_slave_tester.Sdo.{write_remote_sdo, request_result}
use canopen_slave_tester.Heartbeat.{slave_node_id, heartbeat_callback, prepare_heartbeat}
use canopen_slave_tester.Heartbeat.Process.{
  heartbeat_index, slave_assignment_index, heartbeat_period_ms, slave_assignment_enabled,
  snapshot_emcy, wait_for_emcy, prepare_heartbeat_wait, wait_for_heartbeat,
  write_slave_producer_heartbeat, write_slave_assignment, write_master_heartbeat, restore_producer,
  restore_assignment, test_slave_producer_heartbeat, check_recovery, heartbeat_process,
}
use canopen_slave_tester.Heartbeat.Process.Restore.{heartbeat_process-restored}

abbrev pub message : ℕ → EmcyFrame
message code = record {
  node_id = 1;
  error_code = code;
  error_register = 0;
  manufacturer_data = [];
  now = 0;
}

-- Between any two locks the device reports the fault and the reset, and both Heartbeat events.
abbrev pub reports : List Callback
reports =
    on_emcy (message 0x8130) ∷ on_emcy (message 0) ∷ on_heartbeat 1 true ∷ on_heartbeat 1 false ∷ []

abbrev pub good_host : Host
good_host = record {
  callbacks = λ step. reports;
  during = λ step. [];
  submit = λ step. none;
  completion = λ step ms. some (record { error = none; value = 0 });
  local_od_write = λ step. none;
  local_od_read = λ step. some 0x10032;
  managed_state = λ step. some started;
  command_accepted = λ step. true;
  channel_read = λ step ms. read_nothing;
  queued = λ step. 0;
  channel_write = λ step. none;
  net_send = λ step. true;
  clock = λ step. step;
}

abbrev pub session : Session
session = record {
  step = 0;
  log = [];
  slept = 0;
  emcy = emcy_initial;
  nmt = record { states = replicate 128 no_observation; registered = true };
  boot = record { received = false; succeeded = false; state = started };
  heartbeat = record { expected_occurred = false; received = false };
}

passes : (heartbeat_process good_host session).0 ≡ 0
unfolding heartbeat_process check_recovery test_slave_producer_heartbeat restore_assignment
    restore_producer write_master_heartbeat write_slave_assignment write_slave_producer_heartbeat
    wait_for_heartbeat prepare_heartbeat_wait wait_for_emcy snapshot_emcy write_remote_sdo
    issue_nmt_command acquire wait_until wait_for on_callback emcy_callback heartbeat_callback
    prepare_heartbeat find_emcy_event_locked snapshot_emcy_sequence request_result
passes = refl

heartbeat_process-restored_example :
    (newest_local heartbeat_index 0 (heartbeat_process good_host session).1.log
      ≡ some (heartbeat_period_ms, true))
    × (newest_local slave_assignment_index slave_node_id (heartbeat_process good_host session).1.log
        ≡ some (slave_assignment_enabled, true))
heartbeat_process-restored_example = heartbeat_process-restored good_host session passes
