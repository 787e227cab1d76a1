-- ===== src/EmcyConsumer/Examples.antt =====
-- Runs of the EMCY consumer validation (src/emcy_consumer_process.cpp).
use canopen_slave_tester.Prelude.{
  ℕ, ◌+◌, ◌%◌, ◌^◌, ◌≡◌, refl, true, false, none, some, List, [], ◌∷◌, get_or, length,
}
use canopen_slave_tester.Lely.{started}
use canopen_slave_tester.Nmt.Events.{is_last_state}
use canopen_slave_tester.Waiting.{wait_for}
use canopen_slave_tester.Host.{now, on_boot, on_callback, acquire, wait_until}
use canopen_slave_tester.Nmt.Command.{issue_nmt_command}
use canopen_slave_tester.Heartbeat.{prepare_boot, boot_callback, boot_result}
use canopen_slave_tester.Heartbeat.Process.{prepare_boot_wait, wait_for_boot_completion}
use canopen_slave_tester.Heartbeat.Process.Examples.{good_host, session}
use canopen_slave_tester.Sdo.{read_remote_sdo, request_result}
use canopen_slave_tester.EmcyConsumer.{
  EmcyConsumerSnapshot, read_remote_diagnostic, consumer_attempt, snapshot_from,
  read_stable_snapshot, poll_next_rx_count, wait_for_next_rx_count, validate_vector_snapshot,
  validate_recovery_snapshot, validate_reset_preserved_snapshot,
}
use canopen_slave_tester.EmcyConsumer.Process.{
  EmcyHost, LocalEmcy, pushed, found_empty, cleared, ConsumerSession, fresh_consumer,
  read_local_object, peek_local_emcy, validate_producer_preflight, emit_test_emcy, clear_found,
  require_depth, clear_local_emcy, observe_next, emit_and_validate_vector, require_active,
  clear_and_validate_recovery, validate_sdo_health, reset_issued, issue_reset, wait_for_boot,
  confirm_start, reset_and_boot, start_node, ensure_started, preserved_snapshot,
  validate_reset_rebind, deliver_two, run_from, run_emcy_consumer_validation, clear_if_active,
  start_if_reset, cleanup_emcy_consumer_validation, validated, emcy_consumer_process,
}
use canopen_slave_tester.EmcyConsumer.Process.Counted.{run_emcy_consumer_validation-counted}
use canopen_slave_tester.EmcyConsumer.Process.Accounted.{
  added, IsAccounted, emcy_consumer_process-IsAccounted,
}
use canopen_slave_tester.EmcyConsumer.Process.Restored.{emcy_consumer_process-IsRestored}

-- What the device or the host's dictionary answers to the request of each step.
abbrev answers : List ℕ
answers =
    255 ∷ 0 ∷ 0 ∷ 41 ∷ 127 ∷ 255 ∷ 0 ∷ 0 ∷ 0 ∷ 0 ∷ 41 ∷ 0 ∷ 42 ∷ 42 ∷ 127 ∷ 255 ∷ 65281 ∷ 129 ∷ 161
    ∷ 2018915346 ∷ 42 ∷ 0 ∷ 43 ∷ 43 ∷ 127 ∷ 255 ∷ 65282 ∷ 129 ∷ 178 ∷ 558065031 ∷ 43 ∷ 2 ∷ 0 ∷ 0
    ∷ 44 ∷ 44 ∷ 127 ∷ 255 ∷ 0 ∷ 0 ∷ 0 ∷ 0 ∷ 44 ∷ 0 ∷ 45 ∷ 45 ∷ 127 ∷ 255 ∷ 65281 ∷ 129 ∷ 161
    ∷ 2018915346 ∷ 45 ∷ 0 ∷ 46 ∷ 46 ∷ 127 ∷ 255 ∷ 65281 ∷ 129 ∷ 161 ∷ 2018915346 ∷ 46 ∷ 2 ∷ 0 ∷ 0
    ∷ 47 ∷ 47 ∷ 127 ∷ 255 ∷ 0 ∷ 0 ∷ 0 ∷ 0 ∷ 47 ∷ 0 ∷ 0 ∷ 48 ∷ 48 ∷ 127 ∷ 255 ∷ 65281 ∷ 129 ∷ 161
    ∷ 2018915346 ∷ 48 ∷ 0 ∷ 0 ∷ 0 ∷ 0 ∷ 48 ∷ 127 ∷ 255 ∷ 65281 ∷ 129 ∷ 161 ∷ 2018915346 ∷ 48 ∷ 0
    ∷ 49 ∷ 49 ∷ 127 ∷ 255 ∷ 65282 ∷ 129 ∷ 178 ∷ 558065031 ∷ 49 ∷ 2 ∷ 0 ∷ 0 ∷ 50 ∷ 50 ∷ 127 ∷ 255 ∷ 0
    ∷ 0 ∷ 0 ∷ 0 ∷ 50 ∷ []

-- The error on top of the stack.
top : List LocalEmcy → ℕ × ℕ
top [] = (0, 0)
top (pushed code updated ∷ rest) = (code, 0x81)
top (found_empty ∷ rest) = (0, 0)
top (cleared n code register transmitted ∷ rest) = (0, 0)

-- Every push adds an error and every message arrives; the device boots after the reset.
abbrev consumer_host : EmcyHost
unfolding top
consumer_host = record {
  host = record good_host {
    callbacks = λ step. on_boot 1 started 0 ∷ [];
    completion = λ step ms. some (record { error = none; value = get_or answers step 0 });
    local_od_read = λ step. some (get_or answers step 0);
  };
  push = λ s v. (true, true);
  peek = λ s. some (top s.history);
  clear = λ s. true;
}

abbrev at_run : ConsumerSession
at_run = record (fresh_consumer session) { session = record session { step = 3 } }

abbrev last_snapshot : EmcyConsumerSnapshot
last_snapshot = record {
  rx_count = 50;
  source_node_id = 127;
  cob_id = 0xFF;
  error_code = 0;
  error_register = 0;
  error_bit = 0;
  info_code = 0;
}

runs : (run_emcy_consumer_validation consumer_host at_run).0 ≡ some last_snapshot
unfolding run_emcy_consumer_validation top run_from deliver_two emit_and_validate_vector
    emit_test_emcy observe_next wait_for_next_rx_count poll_next_rx_count read_stable_snapshot
    snapshot_from consumer_attempt read_remote_diagnostic read_remote_sdo request_result wait_for
    now validate_vector_snapshot validate_recovery_snapshot validate_reset_preserved_snapshot
    clear_and_validate_recovery require_active clear_local_emcy read_local_object require_depth
    peek_local_emcy clear_found validate_sdo_health validate_reset_rebind reset_and_boot
    reset_issued issue_reset wait_for_boot confirm_start prepare_boot_wait prepare_boot
    issue_nmt_command wait_for_boot_completion boot_result boot_callback acquire wait_until
    on_callback preserved_snapshot ensure_started start_node
runs = refl

run_emcy_consumer_validation-counted_example :
    (baseline : EmcyConsumerSnapshot) × ((read_stable_snapshot consumer_host.host at_run.session).0
      ≡ some baseline)
    × (last_snapshot.rx_count % 2 ^ 32 ≡ (baseline.rx_count + 9) % 2 ^ 32)
    × (length (run_emcy_consumer_validation consumer_host at_run).1.history
        ≡ length at_run.history + 9)
run_emcy_consumer_validation-counted_example =
    run_emcy_consumer_validation-counted consumer_host at_run last_snapshot runs

passes : (emcy_consumer_process consumer_host session).0 ≡ 0
unfolding emcy_consumer_process validated cleanup_emcy_consumer_validation clear_if_active
    start_if_reset validate_producer_preflight run_emcy_consumer_validation top run_from deliver_two
    emit_and_validate_vector emit_test_emcy observe_next wait_for_next_rx_count poll_next_rx_count
    read_stable_snapshot snapshot_from consumer_attempt read_remote_diagnostic read_remote_sdo
    request_result wait_for now validate_vector_snapshot validate_recovery_snapshot
    validate_reset_preserved_snapshot clear_and_validate_recovery require_active clear_local_emcy
    read_local_object require_depth peek_local_emcy clear_found validate_sdo_health
    validate_reset_rebind reset_and_boot reset_issued issue_reset wait_for_boot confirm_start
    prepare_boot_wait prepare_boot issue_nmt_command wait_for_boot_completion boot_result
    boot_callback acquire wait_until on_callback preserved_snapshot ensure_started start_node
passes = refl

emcy_consumer_process-IsAccounted_example :
    IsAccounted (emcy_consumer_process consumer_host session).1
emcy_consumer_process-IsAccounted_example = emcy_consumer_process-IsAccounted consumer_host session

emcy_consumer_process-IsRestored_example :
    ((emcy_consumer_process consumer_host session).1.runtime.host_error_active ≡ false)
    × (added (emcy_consumer_process consumer_host session).1.history ≡ 0)
    × ((emcy_consumer_process consumer_host session).1.runtime.expected_host_error_count ≡ 0)
    × (is_last_state started (emcy_consumer_process consumer_host session).1.events ≡ true)
emcy_consumer_process-IsRestored_example =
    emcy_consumer_process-IsRestored consumer_host session passes
