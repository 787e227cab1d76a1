-- ===== src/SdoClient/Process/ReadBack.antt =====
-- What keeps the device's object 0x2200 as it was read back (src/sdo_client_process.cpp).
use canopen_slave_tester.Prelude.{ℕ, ◌≡◌, ◌∙◌, ap, some, arith}
use canopen_slave_tester.Lely.{reset_comm}
use canopen_slave_tester.Host.{Host, Session, success}
use canopen_slave_tester.Host.Log.{newest_remote, reads, acquire-log, wait_until-log}
use canopen_slave_tester.Heartbeat.{slave_node_id}
use canopen_slave_tester.Heartbeat.Process.{prepare_boot_wait, wait_for_boot_completion}
use canopen_slave_tester.Nmt.Command.{issue_nmt_command}
use canopen_slave_tester.Sdo.{read_remote_sdo, write_remote_sdo}
use canopen_slave_tester.Sdo.Access.{read_object, write_object}
use canopen_slave_tester.Attempt.{Attempt}
use canopen_slave_tester.Attempt.Keeps.{Keeps, keeps_rules}
use canopen_slave_tester.Fixture.{Dictionary, HostSdoServerFixture}
use canopen_slave_tester.SdoClient.{
  ClientRequest, read_control, write_control, next_request_sequence, submit_request,
  wait_active_pending, completed_status, run_transaction,
}
use canopen_slave_tester.SdoClient.Kept.{
  wait_active_pending-kept, completed_status-kept, next_request_sequence-kept, submit_request-kept,
  run_transaction-kept,
}
use canopen_slave_tester.SdoClient.Expect.{
  local_control_index, McuSdoClientResult, ClientSession, by_session, by_fixture,
}
use canopen_slave_tester.SdoClient.Process.{
  expect_upload, expect_abort, reset_cancellation, recovery_cases,
}

-- The newest access to 0x2200 is a successful read of the value.
abbrev pub IsReadBack : ℕ → Session → Type 0
IsReadBack original s = newest_remote local_control_index 0 s.log ≡ some (reads original success)

-- The same of the whole state.
abbrev pub IsKeptBack : ℕ → ClientSession → Type 0
IsKeptBack original c = IsReadBack original c.session

pub by_session-kept :
    {A : Type 0} (original : ℕ) (p : Attempt Session A)
    → Keeps (IsReadBack original) p
    → Keeps (IsKeptBack original) (by_session p)
by_session-kept original p kp = record { at = λ c k. kp.at c.session k }

pub by_fixture-kept :
    {A : Type 0} (original : ℕ) (p : Attempt HostSdoServerFixture A)
    → Keeps (IsKeptBack original) (by_fixture p)
by_fixture-kept original p = record { at = λ c k. k }

module _ (h : Host) (d : Dictionary) (original : ℕ) where
  pub read_control-kept :
      (width subindex : ℕ) → Keeps (IsReadBack original) (read_control h width subindex)
  unfolding read_control read_object read_remote_sdo
  read_control-kept width subindex = record { at = λ s k. ground (arith, k) }

  pub write_control-kept :
      (subindex value : ℕ) → Keeps (IsReadBack original) (write_control h subindex value)
  unfolding write_control write_object write_remote_sdo
  write_control-kept subindex value = record { at = λ s k. ground (arith, k) }

  pub transaction-kept :
      (request : ClientRequest) → Keeps (IsReadBack original) (run_transaction h request)
  transaction-kept request =
      run_transaction-kept h (IsReadBack original) read_control-kept (λ s k. k) write_control-kept
        request

  pub upload-kept :
      (node index expected : ℕ)
      → Keeps (IsReadBack original) (expect_upload h d node index expected)
  unfolding expect_upload
  upload-kept node index expected = search (keeps_rules, transaction-kept) depth 20

  pub abort-kept :
      (request : ClientRequest) (r : McuSdoClientResult) (code : ℕ)
      → Keeps (IsReadBack original) (expect_abort h d request r code)
  unfolding expect_abort
  abort-kept request r code = search (keeps_rules, transaction-kept) depth 20

  prepare_boot_wait-kept : Keeps (IsReadBack original) (prepare_boot_wait h)
  unfolding prepare_boot_wait
  prepare_boot_wait-kept = record {
    at = λ s k. ap (newest_remote local_control_index 0) (acquire-log h s) ∙ k;
  }

  boot-kept : Keeps (IsReadBack original) (wait_for_boot_completion h)
  unfolding wait_for_boot_completion
  boot-kept = record {
    at = λ s k. ap (newest_remote local_control_index 0) (wait_until-log h _ s) ∙ k;
  }

  command-kept : Keeps (IsReadBack original) (issue_nmt_command h reset_comm slave_node_id)
  unfolding issue_nmt_command
  command-kept = record { at = λ s k. k }

  sequence-kept : Keeps (IsReadBack original) (next_request_sequence h)
  sequence-kept = next_request_sequence-kept h (IsReadBack original) read_control-kept (λ s k. k)

  submit-kept :
      (request : ClientRequest) (sequence : ℕ)
      → Keeps (IsReadBack original) (submit_request h request sequence)
  submit-kept =
      submit_request-kept h (IsReadBack original) read_control-kept (λ s k. k) write_control-kept

  pending-kept :
      (sequence timeout_ms : ℕ)
      → Keeps (IsReadBack original) (wait_active_pending h sequence timeout_ms)
  pending-kept = wait_active_pending-kept h (IsReadBack original) read_control-kept (λ s k. k)

  status-kept : (sequence : ℕ) → Keeps (IsReadBack original) (completed_status h sequence)
  status-kept = completed_status-kept h (IsReadBack original) read_control-kept (λ s k. k)

  reset-kept : Keeps (IsReadBack original) (reset_cancellation h d)
  unfolding reset_cancellation
  reset-kept =
      search
        (
          keeps_rules, sequence-kept, submit-kept, pending-kept, prepare_boot_wait-kept,
          command-kept, boot-kept, status-kept,
        )
        depth 40

  pub recovery-kept : (remote : ℕ) → Keeps (IsReadBack original) (recovery_cases h d remote)
  unfolding recovery_cases
  recovery-kept remote = search (keeps_rules, abort-kept, upload-kept, reset-kept) depth 30
