-- ===== src/SdoClient.antt =====
-- One transaction of the device's SDO client, which the host asks for by the control record 0x2303
-- (src/sdo_client_process.cpp): requests, their commit, the waits and the coherent status.
pub mod Examples
pub mod Waits
pub mod Kept
pub mod Transaction
pub mod Commit
pub mod Expect
pub mod Process
use canopen_slave_tester.Prelude.{
  ℕ, zero, suc, ◌+◌, ◌*◌, ◌/◌, ◌%◌, ◌^◌, Bool, true, false, ◌&&◌, Option, none, some, ◌==◌, ltb,
  not, if◌then◌else◌,
}
use canopen_slave_tester.Host.{Host, Session, now, pause}
use canopen_slave_tester.Attempt.{Attempt, ◌>>=◌, ◌>>◌, return, require}
use canopen_slave_tester.Sdo.Access.{read_object, write_object}

abbrev pub control_index : ℕ
control_index = 0x2303

abbrev pub request_seq_sub : ℕ
request_seq_sub = 0x01

abbrev pub command_sub : ℕ
command_sub = 0x02

abbrev pub remote_node_sub : ℕ
remote_node_sub = 0x03

abbrev pub index_sub : ℕ
index_sub = 0x04

abbrev pub sub_index_sub : ℕ
sub_index_sub = 0x05

abbrev pub payload_size_sub : ℕ
payload_size_sub = 0x06

abbrev pub probe_value_sub : ℕ
probe_value_sub = 0x07

abbrev pub flags_sub : ℕ
flags_sub = 0x08

abbrev pub active_seq_sub : ℕ
active_seq_sub = 0x09

abbrev pub complete_seq_sub : ℕ
complete_seq_sub = 0x0A

abbrev pub result_sub : ℕ
result_sub = 0x0B

abbrev pub abort_code_sub : ℕ
abort_code_sub = 0x0C

abbrev pub transferred_size_sub : ℕ
transferred_size_sub = 0x0D

abbrev pub result_value_sub : ℕ
result_value_sub = 0x0E

abbrev pub checksum_sub : ℕ
checksum_sub = 0x0F

abbrev pub completion_timeout_ms : ℕ
completion_timeout_ms = 2000

abbrev pub active_timeout_ms : ℕ
active_timeout_ms = 500

abbrev pub poll_interval_ms : ℕ
poll_interval_ms = 20

abbrev pub status_attempts : ℕ
status_attempts = 3

pub record ClientRequest : Type 0 where
  pub command : ℕ  -- uint8
  pub remote_node : ℕ  -- uint8
  pub index : ℕ  -- uint16
  pub subindex : ℕ  -- uint8
  pub payload_size : ℕ  -- uint32
  pub probe_value : ℕ  -- uint32
  pub flags : ℕ  -- uint8

-- The result is an int32, by its bit pattern.
pub record ClientStatus : Type 0 where
  pub active_seq : ℕ
  pub complete_seq : ℕ
  pub result : ℕ
  pub abort_code : ℕ
  pub transferred_size : ℕ
  pub result_value : ℕ
  pub checksum : ℕ

-- The sequence number after one that is read.
unfoldable pub next_sequence : ℕ → ℕ
next_sequence sequence =
    let following = (sequence + 1) % 2 ^ 32 in if following == 0 then 1 else following

module _ (h : Host) where
  unfoldable pub read_control : (width subindex : ℕ) → Attempt Session ℕ
  read_control width subindex = read_object h width control_index subindex

  unfoldable pub write_control : (subindex value : ℕ) → Attempt Session (Unit {0})
  write_control subindex value = write_object h control_index subindex value

  unfoldable pub next_request_sequence : Attempt Session ℕ
  next_request_sequence = do
    sequence ← read_control 32 request_seq_sub
    return (next_sequence sequence)

  -- The fields of a request, which do nothing before the commit.
  unfoldable pub write_fields : ClientRequest → Attempt Session (Unit {0})
  write_fields request = do
    write_control command_sub request.command
    write_control remote_node_sub request.remote_node
    write_control index_sub request.index
    write_control sub_index_sub request.subindex
    write_control payload_size_sub request.payload_size
    write_control probe_value_sub request.probe_value
    write_control flags_sub request.flags

  unfoldable pub submit_request : ClientRequest → (sequence : ℕ) → Attempt Session (Unit {0})
  submit_request request sequence = do write_fields request; write_control request_seq_sub sequence

  -- One attempt: the status, if the completed sequence number did not change meanwhile.
  unfoldable pub status_attempt : Attempt Session (Option ClientStatus)
  status_attempt = do
    complete_before ← read_control 32 complete_seq_sub
    active_seq ← read_control 32 active_seq_sub
    result ← read_control 32 result_sub
    abort_code ← read_control 32 abort_code_sub
    transferred_size ← read_control 32 transferred_size_sub
    result_value ← read_control 32 result_value_sub
    checksum ← read_control 32 checksum_sub
    complete_after ← read_control 32 complete_seq_sub
    return (
        if complete_before == complete_after
        then some (record {
          active_seq = active_seq;
          complete_seq = complete_after;
          result = result;
          abort_code = abort_code;
          transferred_size = transferred_size;
          result_value = result_value;
          checksum = checksum;
        })
        else none)

  unfoldable pub status_from : (attempts : ℕ) → Attempt Session ClientStatus
  status_from zero s = (none, s)
  status_from (suc n) s =
      let (attempted, t) = status_attempt s in
      elim attempted [
        | none ↦ (none, t)
        | some candidate ↦ elim candidate [ none ↦ status_from n t | some st ↦ (some st, t) ]
      ]

  unfoldable pub read_status : Attempt Session ClientStatus
  read_status = status_from status_attempts

  -- The loop, by the turns left.
  unfoldable pub poll_sequence : (turns subindex sequence deadline : ℕ) → Attempt Session (Unit {0})
  poll_sequence zero subindex sequence deadline s = (none, s)
  poll_sequence (suc n) subindex sequence deadline s =
      let (observed, t) = read_control 32 subindex s in
      elim observed [
        | none ↦ (none, t)
        | some o ↦
            let u = pause poll_interval_ms t in
            elim (o == sequence) [
              | true ↦ (some tt, t)
              | false ↦ elim (ltb (now h u) deadline) [
                | true ↦ poll_sequence n subindex sequence deadline u
                | false ↦ (none, u)
              ]
            ]
      ]

  -- Each turn sleeps.
  unfoldable pub wait_sequence : (subindex sequence timeout_ms : ℕ) → Attempt Session (Unit {0})
  wait_sequence subindex sequence timeout_ms s =
      poll_sequence (timeout_ms / poll_interval_ms) subindex sequence
        (now h s + timeout_ms * 1000000) s

  unfoldable pub poll_active_pending : (turns sequence deadline : ℕ) → Attempt Session (Unit {0})
  poll_active_pending zero sequence deadline s = (none, s)
  poll_active_pending (suc n) sequence deadline s =
      let (active, t) = read_control 32 active_seq_sub s in
      let (complete, u) = read_control 32 complete_seq_sub t in
      elim active [
        | none ↦ (none, t)
        | some a ↦ elim complete [
          | none ↦ (none, u)
          | some c ↦
              let v = pause poll_interval_ms u in
              elim (c == sequence) [
                | true ↦ (none, u)
                | false ↦ elim (a == sequence) [
                  | true ↦ (some tt, u)
                  | false ↦ elim (ltb (now h v) deadline) [
                    | true ↦ poll_active_pending n sequence deadline v
                    | false ↦ (none, v)
                  ]
                ]
              ]
        ]
      ]

  unfoldable pub wait_active_pending : (sequence timeout_ms : ℕ) → Attempt Session (Unit {0})
  wait_active_pending sequence timeout_ms s =
      poll_active_pending (timeout_ms / poll_interval_ms) sequence (now h s + timeout_ms * 1000000)
        s

  -- The status of a sequence number that is completed.
  unfoldable pub completed_status : (sequence : ℕ) → Attempt Session ClientStatus
  completed_status sequence = do
    wait_sequence complete_seq_sub sequence completion_timeout_ms
    st ← read_status
    require (st.complete_seq == sequence && st.active_seq == sequence)
    return st

  unfoldable pub run_transaction : ClientRequest → Attempt Session ClientStatus
  run_transaction request = do
    sequence ← next_request_sequence
    submit_request request sequence
    completed_status sequence
