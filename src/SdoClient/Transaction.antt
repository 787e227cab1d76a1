-- ===== src/SdoClient/Transaction.antt =====
-- What one transaction of the device's SDO client shows (src/sdo_client_process.cpp).
use canopen_slave_tester.Prelude.{
  ℕ, zero, suc, ◌^◌, ◌<◌, ◌≡◌, ◌≢◌, refl, inl, inr, Bool, true, false, some, List, [], ◌∷◌, ◌++◌,
  ap, arith, Option-cases,
}
use canopen_slave_tester.Host.{
  Host, Session, Action, sdo_read, sdo_write, local_write, command, sent, success,
}
use canopen_slave_tester.SdoClient.Kept.{completed_status-kept}
use canopen_slave_tester.Attempt.Keeps.{Keeps}
use canopen_slave_tester.Sdo.{
  default_sdo_timeout_ms, default_completion_margin_ms, read_remote_sdo, write_remote_sdo,
}
use canopen_slave_tester.Sdo.Access.{read_object, write_object}
use canopen_slave_tester.SdoClient.{
  control_index, request_seq_sub, command_sub, remote_node_sub, index_sub, sub_index_sub,
  payload_size_sub, probe_value_sub, flags_sub, active_seq_sub, complete_seq_sub, result_sub,
  abort_code_sub, transferred_size_sub, result_value_sub, checksum_sub, completion_timeout_ms,
  status_attempts, ClientRequest, ClientStatus, next_sequence, read_control, write_control,
  next_request_sequence, write_fields, submit_request, status_attempt, status_from, read_status,
  wait_sequence, completed_status, run_transaction,
}

abbrev pub field_read : (subindex value : ℕ) → Action
field_read subindex value = sdo_read control_index subindex success value

abbrev pub field_written : (subindex value : ℕ) → Action
field_written subindex value = sdo_write control_index subindex value success

-- The reads of a status, newest first, between two reads of the same completed sequence number.
abbrev pub status_reads : ClientStatus → List Action → List Action
status_reads st older =
    field_read complete_seq_sub st.complete_seq
    ∷ field_read checksum_sub st.checksum
    ∷ field_read result_value_sub st.result_value
    ∷ field_read transferred_size_sub st.transferred_size
    ∷ field_read abort_code_sub st.abort_code
    ∷ field_read result_sub st.result
    ∷ field_read active_seq_sub st.active_seq
    ∷ field_read complete_seq_sub st.complete_seq
    ∷ older

-- The writes of a request, newest first.
abbrev pub field_writes : ClientRequest → List Action → List Action
field_writes request older =
    field_written flags_sub request.flags
    ∷ field_written probe_value_sub request.probe_value
    ∷ field_written payload_size_sub request.payload_size
    ∷ field_written sub_index_sub request.subindex
    ∷ field_written index_sub request.index
    ∷ field_written remote_node_sub request.remote_node
    ∷ field_written command_sub request.command
    ∷ older

-- A log that continues another by reads alone, whatever their results.
abbrev pub all_reads : List Action → Bool
all_reads [] = true
all_reads (sdo_read _ _ _ _ ∷ acts) = all_reads acts
all_reads (sdo_write _ _ _ _ ∷ acts) = false
all_reads (local_write _ _ _ _ ∷ acts) = false
all_reads (command _ _ _ ∷ acts) = false
all_reads (sent _ _ ∷ acts) = false

abbrev pub IsPolled : List Action → Session → Type 0
IsPolled base s = (polls : List Action) × (all_reads polls ≡ true) × (s.log ≡ polls ++ base)

next_sequence-nonzero : (n : ℕ) → (next_sequence n ≢ 0) × (next_sequence n < 2 ^ 32)
unfolding next_sequence
next_sequence-nonzero n = (ground arith, ground arith)

next_sequence-other : (n : ℕ) → n < 2 ^ 32 → next_sequence n ≢ n
unfolding next_sequence
next_sequence-other n b = ground arith

module _ (h : Host) where
  read_control-log :
      (width subindex v : ℕ) (s : Session)
      → (read_control h width subindex s).0 ≡ some v
      → (read_control h width subindex s).1.log ≡ field_read subindex v ∷ s.log
  unfolding read_control read_object read_remote_sdo
  read_control-log width subindex v s e = ground (arith, e)

  pub write_control-log :
      (subindex value : ℕ) (s : Session)
      → (write_control h subindex value s).0 ≡ some tt
      → (write_control h subindex value s).1.log ≡ field_written subindex value ∷ s.log
  unfolding write_control write_object write_remote_sdo
  write_control-log subindex value s e = ground (arith, e)

  status_attempt-reads :
      (st : ClientStatus) (s : Session)
      → (status_attempt h s).0 ≡ some (some st)
      → (status_attempt h s).1.log ≡ status_reads st s.log
  unfolding status_attempt
  status_attempt-reads st s e = grind (arith, read_control-log)

  pub write_fields-log :
      (request : ClientRequest) (s : Session)
      → (write_fields h request s).0 ≡ some tt
      → (write_fields h request s).1.log ≡ field_writes request s.log
  unfolding write_fields
  write_fields-log request s e = grind (arith, write_control-log)

  status_from-reads :
      (n : ℕ) (st : ClientStatus) (s : Session)
      → (status_from h n s).0 ≡ some st
      → (older : List Action) × ((status_from h n s).1.log ≡ status_reads st older)
  unfolding status_from
  status_from-reads zero st s e = absurd (ground (arith, e))
  status_from-reads (suc n) st s e =
      let t = (status_attempt h s).1 in
      elim (Option-cases (status_attempt h s).0) [
        | inl q ↦ absurd (ground (arith, e, q))
        | inr (candidate, q) ↦ elim (Option-cases candidate) [
          | inl p ↦
              let rec = status_from-reads n st t (ground (arith, e, q, p)) in
              (rec.0, ground (arith, q, p, rec.1))
          | inr (st', p) ↦
              let read = status_attempt-reads st' s (ground (arith, q, p)) in
              (s.log, ground (arith, e, q, p, read))
        ]
      ]

  completed_status-reads :
      (sequence : ℕ) (st : ClientStatus) (s : Session)
      → (completed_status h sequence s).0 ≡ some st
      → (older : List Action) × ((completed_status h sequence s).1.log ≡ status_reads st older)
        × (st.active_seq ≡ sequence)
        × (st.complete_seq ≡ sequence)
  unfolding completed_status read_status
  completed_status-reads sequence st s e =
      let t = (wait_sequence h complete_seq_sub sequence completion_timeout_ms s).1 in
      let read = status_from-reads status_attempts st t (ground (arith, e)) in
      (read.0, ground (arith, e, read.1), ground (arith, e), ground (arith, e))

  read_control-IsPolled :
      (base : List Action) (width subindex : ℕ)
      → Keeps (IsPolled base) (read_control h width subindex)
  unfolding read_control read_object read_remote_sdo
  read_control-IsPolled base width subindex = record {
    at = λ s k.
        let r =
          read_remote_sdo h width control_index subindex 0 default_sdo_timeout_ms
            default_completion_margin_ms s in
        (
          sdo_read control_index subindex r.0.0 r.0.1 ∷ k.0,
          k.1,
          ap (λ l. sdo_read control_index subindex r.0.0 r.0.1 ∷ l) k.2,
        );
  }

  completed_status-IsPolled :
      (base : List Action) (sequence : ℕ) → Keeps (IsPolled base) (completed_status h sequence)
  completed_status-IsPolled base sequence =
      completed_status-kept h (IsPolled base) (read_control-IsPolled base) (λ s k. k) sequence

  -- A transaction that gives a status has read the sequence number, and its own is the one after it,
  -- never zero; it has then written the seven fields of the request and after them its sequence number,
  -- each successfully, and nothing else; from then on it has only read, and the newest eight reads are
  -- those of the status, with its own sequence number active, and completed before and after them.
  pub run_transaction-IsCompleted :
      (request : ClientRequest) (st : ClientStatus) (s : Session)
      → (run_transaction h request s).0 ≡ some st
      → (previous : ℕ) × ((next_request_sequence h s).0 ≡ some (next_sequence previous))
        × (next_sequence previous ≢ 0)
        × (st.active_seq ≡ next_sequence previous)
        × (st.complete_seq ≡ next_sequence previous)
        × IsPolled
            (field_written request_seq_sub (next_sequence previous)
              ∷ field_writes request (field_read request_seq_sub previous ∷ s.log))
            (run_transaction h request s).1
        × ((older : List Action) × ((run_transaction h request s).1.log ≡ status_reads st older))
  unfolding run_transaction next_request_sequence submit_request
  run_transaction-IsCompleted request st s e =
      let read = read_control h 32 request_seq_sub s in
      elim (Option-cases read.0) [
        | inl q ↦ absurd (ground (arith, e, q))
        | inr (previous, q) ↦
            let sequence = next_sequence previous in
            let fields = write_fields h request read.1 in
            let commit = write_control h request_seq_sub sequence fields.1 in
            elim (Option-cases fields.0) [
              | inl f ↦ absurd (ground (arith, e, q, f))
              | inr (_, f) ↦ elim (Option-cases commit.0) [
                | inl c ↦ absurd (ground (arith, e, q, f, c))
                | inr (_, c) ↦
                    let ended : run_transaction h request s ≡ completed_status h sequence commit.1 =
                      ground (arith, q, f, c) in
                    let base =
                      field_written request_seq_sub sequence
                      ∷ field_writes request (field_read request_seq_sub previous ∷ s.log) in
                    let log : commit.1.log ≡ base = ground (
                      arith,
                      read_control-log 32 request_seq_sub previous s q,
                      write_fields-log request read.1 f,
                      write_control-log request_seq_sub sequence fields.1 c,
                    ) in
                    let done =
                      completed_status-reads sequence st commit.1 (ground (arith, e, ended)) in
                    let polled =
                      (completed_status-IsPolled base sequence).at commit.1 ([], refl, log) in
                    (
                      previous,
                      ground (arith, q),
                      (next_sequence-nonzero previous).0,
                      done.2,
                      done.3,
                      rw ended polled,
                      rw ended (done.0, done.1),
                    )
              ]
            ]
      ]
