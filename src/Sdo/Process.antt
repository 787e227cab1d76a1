-- ===== src/Sdo/Process.antt =====
-- The SDO object-access validation of src/sdo_process.cpp: the user object 0x2200 is read, changed, read
-- back and restored.
pub mod Restored
pub mod Examples
use canopen_slave_tester.Prelude.{
  ℕ, ◌+◌, Bool, true, false, Option, none, some, ◌==◌, if◌then◌else◌,
}
use canopen_slave_tester.Host.{
  Host, Session, Proc, SdoOperationResult, success, failed, sdo_timeout, wait_timeout,
}
use canopen_slave_tester.Sdo.{
  default_sdo_timeout_ms, default_completion_margin_ms, read_remote_sdo, write_remote_sdo,
}

abbrev pub test_object_index : ℕ
test_object_index = 0x2200

abbrev pub probe_value : ℕ
probe_value = 0x12345678

abbrev pub alternate_probe_value : ℕ
alternate_probe_value = 0x87654321

-- What is left of the value that the object has.
unfoldable pub choose_test_value : (original : ℕ) → ℕ
choose_test_value original = if original == probe_value then alternate_probe_value else probe_value

module _ (h : Host) where
  -- The variable that the value is read into is zero before.
  unfoldable pub read_control_value : Proc (SdoOperationResult × ℕ)
  read_control_value =
      read_remote_sdo h 32 test_object_index 0 0 default_sdo_timeout_ms default_completion_margin_ms

  unfoldable pub write_control_value : ℕ → Proc SdoOperationResult
  write_control_value value =
      write_remote_sdo h test_object_index 0 value default_sdo_timeout_ms
        default_completion_margin_ms

  -- The read-back of a restoration.
  unfoldable pub verify_control_value : (original : ℕ) → Proc SdoOperationResult
  verify_control_value original s =
      let ((r, restored), t) = read_control_value s in
      elim r [
        | success ↦ (if restored == original then success else failed, t)
        | failed ↦ (failed, t)
        | sdo_timeout ↦ (sdo_timeout, t)
        | wait_timeout ↦ (wait_timeout, t)
      ]

  unfoldable pub restore_control_value : (original : ℕ) → Proc SdoOperationResult
  restore_control_value original s =
      let (w, t) = write_control_value original s in
      elim w [
        | wait_timeout ↦ (wait_timeout, t)
        | failed ↦ (failed, t)
        | sdo_timeout ↦ verify_control_value original t
        | success ↦ verify_control_value original t
      ]

  -- From the accepted test write on: the read-back, and the restoration unless the channel's state
  -- is unknown.
  unfoldable pub check_and_restore : (original test_value : ℕ) → Proc ℕ
  check_and_restore original test_value s =
      let ((r, read_back), t) = read_control_value s in
      let (restored, u) = restore_control_value original t in
      elim r [
        | wait_timeout ↦ (1, t)
        | failed ↦ (1, u)
        | sdo_timeout ↦ (1, u)
        | success ↦ elim restored [
          | success ↦ (if read_back == test_value then 0 else 1, u)
          | failed ↦ (1, u)
          | sdo_timeout ↦ (1, u)
          | wait_timeout ↦ (1, u)
        ]
      ]

  unfoldable pub sdo_process : Proc ℕ
  sdo_process s =
      let ((r, original), t) = read_control_value s in
      let test_value = choose_test_value original in
      elim r [
        | failed ↦ (1, t)
        | sdo_timeout ↦ (1, t)
        | wait_timeout ↦ (1, t)
        | success ↦
            let (w, u) = write_control_value test_value t in
            elim w [
              | wait_timeout ↦ (1, u)
              | failed ↦ (1, u)
              | sdo_timeout ↦ let (restored, v) = restore_control_value original u in (1, v)
              | success ↦ check_and_restore original test_value u
            ]
      ]
