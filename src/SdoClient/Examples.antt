-- ===== src/SdoClient/Examples.antt =====
-- Runs of the MCU SDO client validation (src/sdo_client_process.cpp).
use canopen_slave_tester.Prelude.{
  ℕ, ◌+◌, ◌*◌, ◌≡◌, ◌≢◌, refl, ◌⊎◌, true, false, none, some, List, [], ◌∷◌, ◌==◌, arith, get_or,
  length, if◌then◌else◌, same_bytes,
}
use canopen_slave_tester.Lely.{timeout, started}
use canopen_slave_tester.Waiting.{wait_for}
use canopen_slave_tester.Host.{
  Host, Session, Action, now, on_boot, on_callback, acquire, wait_until, success,
  SdoOperationResult,
}
use canopen_slave_tester.Host.Log.{newest_remote, wrote}
use canopen_slave_tester.Nmt.Command.{issue_nmt_command}
use canopen_slave_tester.Heartbeat.{prepare_boot, boot_callback, boot_result}
use canopen_slave_tester.Heartbeat.Process.{prepare_boot_wait, wait_for_boot_completion}
use canopen_slave_tester.Heartbeat.Process.Examples.{good_host, session}
use canopen_slave_tester.Sdo.{read_remote_sdo, write_remote_sdo, request_result}
use canopen_slave_tester.Sdo.Access.{read_object, write_object}
use canopen_slave_tester.Payload.{pattern_byte, payload_from, make_payload, fnv, checksum}
use canopen_slave_tester.Fixture.{
  Dictionary, fill_object, create_object, insert_obj, create_and_insert, uninstall_locked,
  preflight, install, find_sub, read_u32, write_u32, octets_of, read_octets, write_octets, without,
}
use canopen_slave_tester.Fixture.Owned.{IsEmpty, SameHeap}
use canopen_slave_tester.SdoClient.{
  ClientStatus, next_sequence, read_control, write_control, next_request_sequence, write_fields,
  submit_request, status_attempt, status_from, read_status, poll_sequence, wait_sequence,
  poll_active_pending, wait_active_pending, completed_status, run_transaction,
  completion_timeout_ms, active_timeout_ms, complete_seq_sub, control_index, request_seq_sub,
}
use canopen_slave_tester.SdoClient.Expect.{
  expect_u32_success, expect_failure, expect_payload, probe_for, is_no_answer, ClientSession,
  then_restore, upload_request,
}
use canopen_slave_tester.SdoClient.Process.{
  verify_missing_node_precondition, restore_local_control, restore_fixture_u32,
  restore_fixture_octets, expect_upload, expect_abort, local_download, local_download_case,
  local_cases, remote_download, octets_upload_case, octets_download_case, octets_cases,
  segmented_cases, post_block_transaction, post_block_written, post_block_case,
  block_regression_cases, optional_block_regression, reset_cancellation, recovery_cases,
  remote_cases, install_fixture, installed_cases, client_cases, with_fixture, sdo_client_process,
}
use canopen_slave_tester.SdoClient.Transaction.{
  status_reads, field_writes, IsPolled, field_read, field_written, run_transaction-IsCompleted,
}
use canopen_slave_tester.SdoClient.Commit.{submit_request-IsCommitted}
use canopen_slave_tester.SdoClient.Waits.{client_polling-ends}
use canopen_slave_tester.SdoClient.Process.ReadBack.{IsReadBack}
use canopen_slave_tester.SdoClient.Process.Restored.{
  IsUndone, local_download_case-IsUndone, sdo_client_process-IsReadBack,
}
use canopen_slave_tester.SdoClient.Process.Owned.{sdo_client_process-owned}

-- What the device answers to the request of each step.
abbrev device_answers : List ℕ
device_answers =
    0 ∷ 9 ∷ 41 ∷ 0 ∷ 0 ∷ 0 ∷ 0 ∷ 0 ∷ 0 ∷ 0 ∷ 0 ∷ 42 ∷ 42 ∷ 42 ∷ 1 ∷ 0 ∷ 4 ∷ 9 ∷ 0 ∷ 42 ∷ 42 ∷ 0 ∷ 0
    ∷ 0 ∷ 0 ∷ 0 ∷ 0 ∷ 0 ∷ 0 ∷ 43 ∷ 43 ∷ 43 ∷ 1 ∷ 0 ∷ 4 ∷ 305419896 ∷ 0 ∷ 43 ∷ 305419896 ∷ 0 ∷ 9 ∷ 43
    ∷ 0 ∷ 0 ∷ 0 ∷ 0 ∷ 0 ∷ 0 ∷ 0 ∷ 0 ∷ 44 ∷ 44 ∷ 44 ∷ 2 ∷ 100794368 ∷ 0 ∷ 0 ∷ 0 ∷ 44 ∷ 44 ∷ 0 ∷ 0 ∷ 0
    ∷ 0 ∷ 0 ∷ 0 ∷ 0 ∷ 0 ∷ 45 ∷ 45 ∷ 45 ∷ 1 ∷ 0 ∷ 4 ∷ 9 ∷ 0 ∷ 45 ∷ 45 ∷ 0 ∷ 0 ∷ 0 ∷ 0 ∷ 0 ∷ 0 ∷ 0 ∷ 0
    ∷ 46 ∷ 46 ∷ 46 ∷ 1 ∷ 0 ∷ 4 ∷ 5 ∷ 0 ∷ 46 ∷ 46 ∷ 0 ∷ 0 ∷ 0 ∷ 0 ∷ 0 ∷ 0 ∷ 0 ∷ 0 ∷ 47 ∷ 47 ∷ 47 ∷ 1
    ∷ 0 ∷ 4 ∷ 305419896 ∷ 0 ∷ 47 ∷ 47 ∷ 0 ∷ 0 ∷ 0 ∷ 0 ∷ 0 ∷ 0 ∷ 0 ∷ 0 ∷ 48 ∷ 48 ∷ 48 ∷ 1 ∷ 0 ∷ 48
    ∷ 0 ∷ 719830789 ∷ 48 ∷ 48 ∷ 0 ∷ 0 ∷ 0 ∷ 0 ∷ 0 ∷ 0 ∷ 0 ∷ 0 ∷ 49 ∷ 49 ∷ 49 ∷ 1 ∷ 0 ∷ 48 ∷ 0
    ∷ 719830789 ∷ 49 ∷ 49 ∷ 0 ∷ 0 ∷ 0 ∷ 0 ∷ 0 ∷ 0 ∷ 0 ∷ 0 ∷ 50 ∷ 50 ∷ 50 ∷ 2 ∷ 100728834 ∷ 0 ∷ 0 ∷ 0
    ∷ 50 ∷ 50 ∷ 0 ∷ 0 ∷ 0 ∷ 0 ∷ 0 ∷ 0 ∷ 0 ∷ 0 ∷ 51 ∷ 51 ∷ 51 ∷ 1 ∷ 0 ∷ 4 ∷ 5 ∷ 0 ∷ 51 ∷ 51 ∷ 0 ∷ 0
    ∷ 0 ∷ 0 ∷ 0 ∷ 0 ∷ 0 ∷ 0 ∷ 52 ∷ 52 ∷ 52 ∷ 3 ∷ 84148224 ∷ 0 ∷ 0 ∷ 0 ∷ 52 ∷ 52 ∷ 0 ∷ 0 ∷ 0 ∷ 0 ∷ 0
    ∷ 0 ∷ 0 ∷ 0 ∷ 53 ∷ 53 ∷ 53 ∷ 1 ∷ 0 ∷ 4 ∷ 5 ∷ 0 ∷ 53 ∷ 53 ∷ 0 ∷ 0 ∷ 0 ∷ 0 ∷ 0 ∷ 0 ∷ 0 ∷ 0 ∷ 54
    ∷ 53 ∷ 0 ∷ 0 ∷ 0 ∷ 0 ∷ 54 ∷ 54 ∷ 54 ∷ 4 ∷ 0 ∷ 0 ∷ 0 ∷ 0 ∷ 54 ∷ 54 ∷ 0 ∷ 0 ∷ 0 ∷ 0 ∷ 0 ∷ 0 ∷ 0
    ∷ 0 ∷ 55 ∷ 55 ∷ 55 ∷ 1 ∷ 0 ∷ 4 ∷ 5 ∷ 0 ∷ 55 ∷ 55 ∷ 0 ∷ 0 ∷ 0 ∷ 0 ∷ 0 ∷ 0 ∷ 0 ∷ 0 ∷ 56 ∷ 56 ∷ 56
    ∷ 1 ∷ 0 ∷ 2048 ∷ 0 ∷ 2051870149 ∷ 56 ∷ 56 ∷ 0 ∷ 0 ∷ 0 ∷ 0 ∷ 0 ∷ 0 ∷ 0 ∷ 0 ∷ 57 ∷ 57 ∷ 57 ∷ 1 ∷ 0
    ∷ 2048 ∷ 0 ∷ 2051870149 ∷ 57 ∷ 57 ∷ 0 ∷ 0 ∷ 0 ∷ 0 ∷ 0 ∷ 0 ∷ 0 ∷ 0 ∷ 58 ∷ 58 ∷ 58 ∷ 1 ∷ 0 ∷ 48
    ∷ 0 ∷ 719830789 ∷ 58 ∷ []

-- The node that is to be missing does not answer; the device boots after the reset.
abbrev device : Host
device = record good_host {
  callbacks = λ step. on_boot 1 started 0 ∷ [];
  completion = λ step ms. some (
      if step == 0
      then record { error = some (record { is_sdo = true; sdo_errc = timeout }); value = 0 }
      else record { error = none; value = get_or device_answers step 0 });
}

-- The bytes of the host's object at each call.
abbrev octets_at : ℕ → List ℕ
octets_at call =
    if call == 52
    then make_payload 48 0xA1B2C3D4
    else if call == 76
    then make_payload 2048 0xB0212C3D
    else 7 ∷ 8 ∷ []

abbrev dictionary : Dictionary
dictionary = record {
  obj_create = λ call. true;
  sub_create = λ call. true;
  sub_set_access = λ call. true;
  obj_insert_sub = λ call. true;
  sub_set_val = λ call. true;
  sub_set_u32 = λ call value. true;
  local_device = λ call. true;
  local_server = λ call. true;
  dev_find_obj = λ call. false;
  dev_insert_obj = λ call. true;
  dev_find_sub = λ call. true;
  sub_get_val = λ call. if call == 28 then 0x12345678 else 5;
  sub_sizeof_val = λ call. 2;
  sub_addressof_val = λ call. some (octets_at call);
  sub_set_octets = λ call bytes. length bytes;
  get_errc_is_zero = λ call. true;
}

abbrev client_session : ClientSession
client_session = record {
  session = session;
  fixture = record {
    u32_object = none;
    octets_object = none;
    readonly_object = none;
    installed = false;
    heap = record { calls = 0; objects = []; loose_subs = 0; next_object = 0 };
  };
}

passes : (sdo_client_process device dictionary true client_session).0 ≡ 0
unfolding sdo_client_process verify_missing_node_precondition request_result wait_for is_no_answer
    with_fixture client_cases install_fixture install preflight create_and_insert create_object
    fill_object insert_obj uninstall_locked without installed_cases read_object read_remote_sdo
    write_object write_remote_sdo local_cases expect_upload run_transaction next_request_sequence
    next_sequence read_control write_control write_fields submit_request status_attempt status_from
    read_status poll_sequence wait_sequence poll_active_pending wait_active_pending completed_status
    expect_u32_success expect_failure expect_payload probe_for then_restore local_download
    local_download_case restore_local_control expect_abort remote_cases read_u32 write_u32
    read_octets write_octets find_sub octets_of remote_download restore_fixture_u32
    restore_fixture_octets same_bytes octets_upload_case octets_download_case octets_cases
    segmented_cases checksum fnv make_payload payload_from pattern_byte recovery_cases
    reset_cancellation prepare_boot_wait prepare_boot issue_nmt_command wait_for_boot_completion
    boot_result boot_callback acquire wait_until on_callback now optional_block_regression
    block_regression_cases post_block_case post_block_written post_block_transaction
passes = refl

sdo_client_process-IsReadBack_example :
    (original : ℕ) × ((read_object device 32 0x2200 0
        (verify_missing_node_precondition device dictionary session).1).0
      ≡ some original)
    × IsReadBack original (sdo_client_process device dictionary true client_session).1.session
sdo_client_process-IsReadBack_example =
    sdo_client_process-IsReadBack device dictionary true client_session passes

sdo_client_process-owned_example :
    IsEmpty (sdo_client_process device dictionary true client_session).1.fixture
    × SameHeap
        (sdo_client_process device dictionary true client_session).1.fixture.heap
        client_session.fixture.heap
sdo_client_process-owned_example =
    sdo_client_process-owned device dictionary true client_session (refl, refl, refl, refl)

-- Where the first transaction starts.
abbrev at_first : Session
at_first = record session { step = 2 }

abbrev first_status : ClientStatus
first_status = record {
  active_seq = 42;
  complete_seq = 42;
  result = 1;
  abort_code = 0;
  transferred_size = 4;
  result_value = 9;
  checksum = 0;
}

completes : (run_transaction device (upload_request 1 0x2200) at_first).0 ≡ some first_status
unfolding run_transaction next_request_sequence next_sequence read_control write_control
    write_fields submit_request status_attempt status_from read_status poll_sequence wait_sequence
    completed_status read_object read_remote_sdo write_object write_remote_sdo request_result
    wait_for now
completes = refl

run_transaction-IsCompleted_example :
    (previous : ℕ) × ((next_request_sequence device at_first).0 ≡ some (next_sequence previous))
    × (next_sequence previous ≢ 0)
    × (first_status.active_seq ≡ next_sequence previous)
    × (first_status.complete_seq ≡ next_sequence previous)
    × IsPolled
        (field_written request_seq_sub (next_sequence previous)
          ∷ field_writes
              (upload_request 1 0x2200)
              (field_read request_seq_sub previous ∷ at_first.log))
        (run_transaction device (upload_request 1 0x2200) at_first).1
    × ((older : List Action) × ((run_transaction device (upload_request 1 0x2200) at_first).1.log
          ≡ status_reads first_status older))
run_transaction-IsCompleted_example =
    run_transaction-IsCompleted device (upload_request 1 0x2200) first_status at_first completes

submit_request-IsCommitted_example :
    (((submit_request device (upload_request 1 0x2200) 42 session).0 ≡ some tt)
      × ((submit_request device (upload_request 1 0x2200) 42 session).1.log
          ≡ field_written request_seq_sub 42 ∷ field_writes (upload_request 1 0x2200) session.log))
    ⊎ (((submit_request device (upload_request 1 0x2200) 42 session).0 ≡ none)
        × ((newest_remote control_index request_seq_sub
                (submit_request device (upload_request 1 0x2200) 42 session).1.log
              ≡ newest_remote control_index request_seq_sub session.log)
            ⊎ ((q : SdoOperationResult) × (q ≢ success)
                × (newest_remote control_index request_seq_sub
                      (submit_request device (upload_request 1 0x2200) 42 session).1.log
                    ≡ some (wrote 42 q)))))
submit_request-IsCommitted_example =
    submit_request-IsCommitted device (upload_request 1 0x2200) 42 session

local_download_case-IsUndone_example :
    IsUndone device dictionary 9
      (local_download device dictionary (probe_for 9) session).1.log
      (local_download_case device dictionary 9 session)
local_download_case-IsUndone_example = local_download_case-IsUndone device dictionary 9 session

client_polling-ends_example :
    (poll_sequence device
        (100 + 7)
        complete_seq_sub
        42
        (now device session + 2000 * 1000000)
        session
      ≡ wait_sequence device complete_seq_sub 42 completion_timeout_ms session)
    × (poll_active_pending device (25 + 7) 42 (now device session + 500 * 1000000) session
        ≡ wait_active_pending device 42 active_timeout_ms session)
client_polling-ends_example =
    client_polling-ends device (λ t. omega arith) 7 complete_seq_sub 42 session
