-- ===== src/SdoClient/Kept.antt =====
-- What the transactions of the device's SDO client keep of the session, given that their reads, their
-- writes and their pauses keep it (src/sdo_client_process.cpp).
use canopen_slave_tester.Prelude.{ℕ, zero, suc, arith}
use canopen_slave_tester.Host.{Host, Session, pause}
use canopen_slave_tester.Attempt.Keeps.{Keeps, keeps_rules}
use canopen_slave_tester.SdoClient.{
  active_seq_sub, complete_seq_sub, poll_interval_ms, ClientRequest, read_control, write_control,
  next_request_sequence, write_fields, submit_request, status_attempt, status_from, read_status,
  poll_sequence, wait_sequence, poll_active_pending, wait_active_pending, completed_status,
  run_transaction,
}

module _ (h : Host) (P : Session → Type 0)
    (reads_keep : (width subindex : ℕ) → Keeps P (read_control h width subindex))
    (pauses_keep : (s : Session) → P s → P (pause poll_interval_ms s)) where
  status_attempt-kept : Keeps P (status_attempt h)
  unfolding status_attempt
  status_attempt-kept = search (keeps_rules, reads_keep) depth 30

  status_from-kept : (n : ℕ) → Keeps P (status_from h n)
  unfolding status_from
  status_from-kept zero = record { at = λ s k. k }
  status_from-kept (suc n) = record {
    at = λ s k.
        ground (arith, k, status_attempt-kept.at s, (status_from-kept n).at (status_attempt h s).1);
  }

  poll_sequence-kept :
      (n subindex sequence deadline : ℕ) → Keeps P (poll_sequence h n subindex sequence deadline)
  unfolding poll_sequence
  poll_sequence-kept zero subindex sequence deadline = record { at = λ s k. k }
  poll_sequence-kept (suc n) subindex sequence deadline = record {
    at = λ s k.
        let t = (read_control h 32 subindex s).1 in
        ground (
          arith,
          k,
          (reads_keep 32 subindex).at s,
          pauses_keep t,
          (poll_sequence-kept n subindex sequence deadline).at (pause poll_interval_ms t),
        );
  }

  poll_active_pending-kept :
      (n sequence deadline : ℕ) → Keeps P (poll_active_pending h n sequence deadline)
  unfolding poll_active_pending
  poll_active_pending-kept zero sequence deadline = record { at = λ s k. k }
  poll_active_pending-kept (suc n) sequence deadline = record {
    at = λ s k.
        let t = (read_control h 32 active_seq_sub s).1 in
        let u = (read_control h 32 complete_seq_sub t).1 in
        ground (
          arith,
          k,
          (reads_keep 32 active_seq_sub).at s,
          (reads_keep 32 complete_seq_sub).at t,
          pauses_keep u,
          (poll_active_pending-kept n sequence deadline).at (pause poll_interval_ms u),
        );
  }

  wait_sequence-kept :
      (subindex sequence timeout_ms : ℕ) → Keeps P (wait_sequence h subindex sequence timeout_ms)
  unfolding wait_sequence
  wait_sequence-kept subindex sequence timeout_ms = record {
    at = λ s k. (poll_sequence-kept _ subindex sequence _).at s k;
  }

  pub wait_active_pending-kept :
      (sequence timeout_ms : ℕ) → Keeps P (wait_active_pending h sequence timeout_ms)
  unfolding wait_active_pending
  wait_active_pending-kept sequence timeout_ms = record {
    at = λ s k. (poll_active_pending-kept _ sequence _).at s k;
  }

  read_status-kept : Keeps P (read_status h)
  unfolding read_status
  read_status-kept = status_from-kept _

  pub completed_status-kept : (sequence : ℕ) → Keeps P (completed_status h sequence)
  unfolding completed_status
  completed_status-kept sequence =
      search (keeps_rules, wait_sequence-kept, read_status-kept) depth 20

  pub next_request_sequence-kept : Keeps P (next_request_sequence h)
  unfolding next_request_sequence
  next_request_sequence-kept = search (keeps_rules, reads_keep) depth 20

  module _ (writes_keep : (subindex value : ℕ) → Keeps P (write_control h subindex value)) where
    pub submit_request-kept :
        (request : ClientRequest) (sequence : ℕ) → Keeps P (submit_request h request sequence)
    unfolding submit_request write_fields
    submit_request-kept request sequence = search (keeps_rules, writes_keep) depth 30

    pub run_transaction-kept : (request : ClientRequest) → Keeps P (run_transaction h request)
    unfolding run_transaction
    run_transaction-kept request =
        search (keeps_rules, next_request_sequence-kept, submit_request-kept, completed_status-kept)
          depth 20
