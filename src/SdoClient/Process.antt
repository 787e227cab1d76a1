-- ===== src/SdoClient/Process.antt =====
-- The cases of the MCU SDO client validation and sdoClientProcess, src/sdo_client_process.cpp. Whether
-- the block-transfer regression is compiled in is a parameter.
pub mod Kept
pub mod ReadBack
pub mod Restored
pub mod Owned
use canopen_slave_tester.Prelude.{
  ℕ, ◌+◌, Bool, true, false, ◌&&◌, none, some, List, [], ◌∷◌, ◌==◌, if◌then◌else◌, same_bytes,
}
use canopen_slave_tester.Lely.{reset_comm}
use canopen_slave_tester.Emcy.{is_some}
use canopen_slave_tester.Host.{Host, Session, next}
use canopen_slave_tester.Attempt.{Attempt, ◌>>=◌, ◌>>◌, return, require, lift, succeeds}
use canopen_slave_tester.Nmt.Command.{issue_nmt_command}
use canopen_slave_tester.Heartbeat.{slave_node_id}
use canopen_slave_tester.Heartbeat.Process.{prepare_boot_wait, wait_for_boot_completion}
use canopen_slave_tester.Sdo.{request_result}
use canopen_slave_tester.Sdo.Access.{read_object, write_object}
use canopen_slave_tester.Payload.{make_payload}
use canopen_slave_tester.Fixture.{
  Dictionary, HostSdoServerFixture, install, uninstall_locked, read_u32, write_u32, read_octets,
  write_octets,
}
use canopen_slave_tester.SdoClient.{
  active_timeout_ms, ClientRequest, next_request_sequence, submit_request, wait_active_pending,
  completed_status, run_transaction,
}
use canopen_slave_tester.SdoClient.Expect.{
  block_flag, block_regression_size, block_regression_seed, local_control_index,
  missing_local_index, missing_node_id, master_node_id, u32_index, octets_index,
  read_only_fixture_index, u32_size, segmented_size, segmented_seed, probe_value,
  missing_node_probe_timeout_ms, missing_node_probe_margin_ms, abort_timeout, abort_read_only,
  abort_not_exist, result_code, upload_with, download_with, upload_request, download_request,
  expect_u32_success, expect_failure, expect_payload, probe_for, is_no_answer, by_session,
  by_fixture, then_restore, McuSdoClientResult, mcu_abort, mcu_timeout, reset_cancelled,
  ClientSession,
}

module _ (h : Host) (d : Dictionary) where
  -- The probed node is another one than the managed slave.
  unfoldable pub verify_missing_node_precondition : Attempt Session (Unit {0})
  verify_missing_node_precondition s =
      let result =
        request_result 32 (h.submit s.step)
          (h.completion s.step (missing_node_probe_timeout_ms + missing_node_probe_margin_ms)) in
      require (is_no_answer result.0) (next s)

  unfoldable pub restore_local_control : (original : ℕ) → Attempt Session (Unit {0})
  restore_local_control original = do
    write_object h local_control_index 0 original
    restored ← read_object h 32 local_control_index 0
    require (restored == original)

  unfoldable pub restore_fixture_u32 : (original : ℕ) → Attempt HostSdoServerFixture (Unit {0})
  restore_fixture_u32 original = do
    write_u32 d original
    restored ← read_u32 d
    require (restored == original)

  unfoldable pub restore_fixture_octets : List ℕ → Attempt HostSdoServerFixture (Unit {0})
  restore_fixture_octets original = do
    write_octets d original
    restored ← read_octets d
    require (same_bytes restored original)

  -- An upload of 32 bits that has to give a value.
  unfoldable pub expect_upload : (node index expected : ℕ) → Attempt Session (Unit {0})
  expect_upload node index expected = do
    status ← run_transaction h (upload_request node index)
    require (expect_u32_success status expected)

  unfoldable pub expect_abort :
      ClientRequest → McuSdoClientResult → (expected_abort : ℕ) → Attempt Session (Unit {0})
  expect_abort request expected_result expected_abort = do
    status ← run_transaction h request
    require (expect_failure status expected_result expected_abort)

  unfoldable pub local_download : (probe : ℕ) → Attempt Session (Unit {0})
  local_download probe = do
    status ← run_transaction h (download_request slave_node_id local_control_index u32_size probe)
    require (expect_u32_success status probe)
    readback ← read_object h 32 local_control_index 0
    require (readback == probe)

  -- A local download, undone by the host itself.
  unfoldable pub local_download_case : (original : ℕ) → Attempt Session (Unit {0})
  local_download_case original =
      then_restore (local_download (probe_for original)) (restore_local_control original)

  -- The cases on the device's own objects.
  unfoldable pub local_cases : (original : ℕ) → Attempt Session (Unit {0})
  local_cases original = do
    expect_upload slave_node_id local_control_index original
    local_download_case original
    expect_abort (upload_request slave_node_id missing_local_index) mcu_abort abort_not_exist
    expect_upload slave_node_id local_control_index original

  unfoldable pub remote_download : (probe : ℕ) → Attempt ClientSession (Unit {0})
  remote_download probe = do
    status ←
        by_session (run_transaction h (download_request master_node_id u32_index u32_size probe))
    require (expect_u32_success status probe)
    readback ← by_fixture (read_u32 d)
    require (readback == probe)

  -- The device uploads what is put into the host's object.
  unfoldable pub octets_upload_case : (size seed flags : ℕ) → Attempt ClientSession (Unit {0})
  octets_upload_case size seed flags = do
    by_fixture (write_octets d (make_payload size seed))
    status ← by_session (run_transaction h (upload_with master_node_id octets_index flags))
    require (expect_payload status size seed)

  -- The device downloads a payload, which the host's object then holds.
  unfoldable pub octets_download_case : (size seed flags : ℕ) → Attempt ClientSession (Unit {0})
  octets_download_case size seed flags = do
    status ←
        by_session (run_transaction h (download_with master_node_id octets_index size seed flags))
    require (expect_payload status size seed)
    downloaded ← by_fixture (read_octets d)
    require (same_bytes downloaded (make_payload size seed))

  -- Both, each with the object's bytes from before restored; these of the second are given.
  unfoldable pub octets_cases : (size seed flags : ℕ) → Attempt ClientSession (List ℕ)
  octets_cases size seed flags = do
    original ← by_fixture (read_octets d)
    then_restore (octets_upload_case size seed flags) (by_fixture (restore_fixture_octets original))
    original_again ← by_fixture (read_octets d)
    then_restore (octets_download_case size seed flags)
        (by_fixture (restore_fixture_octets original_again))
    return original_again

  unfoldable pub segmented_cases : Attempt ClientSession (Unit {0})
  segmented_cases = do octets_cases segmented_size segmented_seed 0; return tt

  -- The cleanup of a set-up that has failed, which leaves alone an object that was empty.
  unfoldable pub give_up : (block_original : List ℕ) → Attempt ClientSession (Unit {0})
  give_up [] c = (none, c)
  give_up (b ∷ bs) c = (none, (by_fixture (restore_fixture_octets (b ∷ bs)) c).1)

  unfoldable pub post_block_transaction : Attempt ClientSession (Unit {0})
  post_block_transaction = do
    status ← by_session (run_transaction h (upload_request master_node_id octets_index))
    require (expect_payload status segmented_size segmented_seed)

  unfoldable pub post_block_written : (block_original : List ℕ) → Attempt ClientSession (Unit {0})
  post_block_written block_original c =
      let (written, e) =
        by_fixture (write_octets d (make_payload segmented_size segmented_seed)) c in
      elim written [
        | none ↦ give_up block_original e
        | some _ ↦
            then_restore post_block_transaction (by_fixture (restore_fixture_octets block_original))
              e
      ]

  -- A read that fails leaves the bytes that were read before.
  unfoldable pub post_block_case : (block_original : List ℕ) → Attempt ClientSession (Unit {0})
  post_block_case block_original c =
      let (original, e) = by_fixture (read_octets d) c in
      elim original [ none ↦ give_up block_original e | some bytes ↦ post_block_written bytes e ]

  unfoldable pub block_regression_cases : Attempt ClientSession (Unit {0})
  block_regression_cases = do
    block_original ← octets_cases block_regression_size block_regression_seed block_flag
    post_block_case block_original

  -- A reset after the request is seen active and not completed.
  unfoldable pub reset_cancellation : Attempt Session (Unit {0})
  reset_cancellation = do
    sequence ← next_request_sequence h
    submit_request h (upload_request missing_node_id u32_index) sequence
    wait_active_pending h sequence active_timeout_ms
    lift (prepare_boot_wait h)
    succeeds (issue_nmt_command h reset_comm slave_node_id)
    wait_for_boot_completion h
    status ← completed_status h sequence
    require (status.result == result_code reset_cancelled && status.abort_code == 0)

  -- The aborts, the timeout and the reset, each followed by an upload that has to work.
  unfoldable pub recovery_cases : (remote : ℕ) → Attempt Session (Unit {0})
  recovery_cases remote = do
    expect_abort (download_request master_node_id read_only_fixture_index u32_size probe_value)
        mcu_abort abort_read_only
    expect_upload master_node_id u32_index remote
    expect_abort (upload_request missing_node_id u32_index) mcu_timeout abort_timeout
    expect_upload master_node_id u32_index remote
    reset_cancellation
    expect_upload master_node_id u32_index remote

  unfoldable pub optional_block_regression : Bool → Attempt ClientSession (Unit {0})
  optional_block_regression true = block_regression_cases
  optional_block_regression false = return tt

  unfoldable pub remote_cases : (block_regression : Bool) → Attempt ClientSession (Unit {0})
  remote_cases block_regression = do
    remote ← by_fixture (read_u32 d)
    by_session (expect_upload master_node_id u32_index remote)
    then_restore (remote_download (probe_for remote)) (by_fixture (restore_fixture_u32 remote))
    segmented_cases
    by_session (recovery_cases remote)
    optional_block_regression block_regression

  unfoldable pub install_fixture : Attempt HostSdoServerFixture (Unit {0})
  install_fixture = succeeds (install d)

  -- With the fixture installed.
  unfoldable pub installed_cases : (block_regression : Bool) → Attempt ClientSession (Unit {0})
  installed_cases block_regression = do
    original_local ← by_session (read_object h 32 local_control_index 0)
    by_session (local_cases original_local)
    remote_cases block_regression

  unfoldable pub client_cases : (block_regression : Bool) → Attempt ClientSession (Unit {0})
  client_cases block_regression = do by_fixture install_fixture; installed_cases block_regression

  -- The fixture is uninstalled when it goes out of scope.
  unfoldable pub with_fixture : (block_regression : Bool) → ClientSession → ℕ × ClientSession
  with_fixture block_regression c =
      let (passed, e) = client_cases block_regression c in
      (if is_some passed then 0 else 1, record e { fixture = uninstall_locked d e.fixture })

  unfoldable pub sdo_client_process : (block_regression : Bool) → ClientSession → ℕ × ClientSession
  sdo_client_process block_regression c =
      let (absent, t) = verify_missing_node_precondition c.session in
      let e : ClientSession = record c { session = t } in
      elim absent [ none ↦ (1, e) | some _ ↦ with_fixture block_regression e ]
