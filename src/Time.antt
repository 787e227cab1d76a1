-- ===== src/Time.antt =====
-- The TIME consumer validation of src/time_process.cpp: positions in the TIME cycle, the coherent
-- snapshot of the device's TIME, and the writing, verification and recovery of object 0x1012.
-- Times of the host clock are in nanoseconds.
pub mod Cycle
pub mod Recovery
pub mod Snapshot
pub mod Inject
pub mod Process
pub mod Examples
use canopen_slave_tester.Prelude.{
  ℕ, zero, suc, ◌+◌, ◌*◌, ◌-◌, ◌/◌, ◌%◌, ◌^◌, Bool, true, false, ◌&&◌, ◌||◌, Option, none, some,
  ltb, leb, ◌==◌, not, if◌then◌else◌,
}
use canopen_slave_tester.Lely.{reset_comm}
use canopen_slave_tester.Host.{
  Host, Session, now, SdoOperationResult, success, failed, sdo_timeout, wait_timeout,
}
use canopen_slave_tester.State.{State, ◌>>=◌, ◌>>◌, return, ◌&&&◌}
use canopen_slave_tester.Sdo.{
  default_sdo_timeout_ms, default_completion_margin_ms, read_remote_sdo, write_remote_sdo,
}
use canopen_slave_tester.Nmt.Command.{issue_nmt_command}
use canopen_slave_tester.Heartbeat.{slave_node_id}
use canopen_slave_tester.Heartbeat.Process.{is_success, prepare_boot_wait, wait_for_boot_completion}
use canopen_slave_tester.Emcy.{is_some}

abbrev pub time_cob_id_index : ℕ
time_cob_id_index = 0x1012

abbrev pub time_diagnostic_index : ℕ
time_diagnostic_index = 0x2300

abbrev pub milliseconds_per_day : ℕ
milliseconds_per_day = 86400000

abbrev pub time_cycle_milliseconds : ℕ
time_cycle_milliseconds = 65536 * milliseconds_per_day

abbrev pub continuous_tolerance_ms : ℕ
continuous_tolerance_ms = 120

-- The timeout and the margin that the SDO helpers have by default.
pub record TimeDiagnostic : Type 0 where
  pub rx_count : ℕ  -- uint32
  pub milliseconds : ℕ  -- uint32
  pub days : ℕ  -- uint16
  pub sampled_at : ℕ

-- In 64 bits: 65535 days and 2 ^ 32 ms do not reach the wrap-around.
unfoldable pub time_position : (milliseconds days : ℕ) → ℕ
time_position milliseconds days = days * milliseconds_per_day + milliseconds

unfoldable pub forward_time_delta : (start stop : ℕ) → ℕ
forward_time_delta start stop =
    if leb start stop then stop - start else time_cycle_milliseconds - start + stop

-- The milliseconds between two times of the host clock, the fraction cut off.
unfoldable pub elapsed_ms : (start stop : ℕ) → ℕ
elapsed_ms start stop = (stop - start) / 1000000

-- The host's elapsed time is that between the two samples.
unfoldable pub validate_continuous_advance :
    (before after : TimeDiagnostic) (expected_rx_count_delta : ℕ) → Bool
validate_continuous_advance before after expected_rx_count_delta =
    let rx_count_delta = (after.rx_count + 2 ^ 32 - before.rx_count) % 2 ^ 32 in
    let remote =
      forward_time_delta (time_position before.milliseconds before.days)
        (time_position after.milliseconds after.days) in
    let expected = elapsed_ms before.sampled_at after.sampled_at in
    let minimum =
      if ltb continuous_tolerance_ms expected then expected - continuous_tolerance_ms else 0 in
    let maximum = expected + continuous_tolerance_ms in
    if not (rx_count_delta == expected_rx_count_delta)
    then false
    else if ltb remote minimum || ltb maximum remote
    then false
    else true

-- The session with the two flags that the functions of the validation set for their caller.
pub record TimeSession : Type 0 where
  pub session : Session
  pub completion_wait_timed_out : Bool
  pub slave_needs_start : Bool

abbrev pub TimeProc {ℓ} : Type ℓ → Type ℓ
TimeProc A = State TimeSession A

abbrev pub is_wait_timeout : SdoOperationResult → Bool
is_wait_timeout wait_timeout = true
is_wait_timeout _ = false

abbrev pub clear_timed_out : TimeProc (Unit {0})
clear_timed_out s = (tt, record s { completion_wait_timed_out = false })

abbrev pub set_needs_start : TimeProc (Unit {0})
set_needs_start s = (tt, record s { slave_needs_start = true })

module _ (h : Host) where
  -- A read that notes a local timeout: its value if it succeeds.
  unfoldable pub read_noted : (width index subindex : ℕ) → TimeProc (Option ℕ)
  read_noted width index subindex s =
      let (r, t) =
        read_remote_sdo h width index subindex 0 default_sdo_timeout_ms default_completion_margin_ms
          s.session in
      (
        if is_success r.0 then some r.1 else none,
        record s {
          session = t;
          completion_wait_timed_out = is_wait_timeout r.0 || s.completion_wait_timed_out;
        },
      )

  unfoldable pub read_rx_count : TimeProc (Option ℕ)
  read_rx_count = read_noted 32 time_diagnostic_index 1

  unfoldable pub verify_time_cob_id : (expected : ℕ) → TimeProc Bool
  verify_time_cob_id expected = do
    actual ← read_noted 32 time_cob_id_index 0
    return (elim actual [ none ↦ false | some v ↦ v == expected ])

  unfoldable pub write_noted : (index subindex value : ℕ) → TimeProc Bool
  write_noted index subindex value s =
      let (r, t) =
        write_remote_sdo h index subindex value default_sdo_timeout_ms default_completion_margin_ms
          s.session in
      (
        is_success r,
        record s {
          session = t;
          completion_wait_timed_out = is_wait_timeout r || s.completion_wait_timed_out;
        },
      )

  unfoldable pub write_and_verify_time_cob_id : (value : ℕ) → TimeProc Bool
  write_and_verify_time_cob_id value =
      write_noted time_cob_id_index 0 value &&& verify_time_cob_id value

  unfoldable pub reset_slave_communication : TimeProc Bool
  reset_slave_communication s =
      let (_, t) = prepare_boot_wait h s.session in
      let (accepted, u) = issue_nmt_command h reset_comm slave_node_id t in
      let (boot, v) = wait_for_boot_completion h u in
      if not accepted
      then (false, record s { session = u })
      else (is_some boot, record s { session = v })

  -- From the first reset on, which leaves the slave to be started whether it succeeds or not.
  unfoldable pub recover_time_cob_id_with_reset : (original : ℕ) → TimeProc Bool
  recover_time_cob_id_with_reset original = do
    bounded ← reset_slave_communication
    set_needs_start
    if not bounded then return false else do
      clear_timed_out
      written ← write_and_verify_time_cob_id original
      if not written then return false else do
        restored ← reset_slave_communication
        if not restored
            then return false
            else do set_needs_start; clear_timed_out; verify_time_cob_id original

  -- The host clock, right after a read.
  abbrev sample : TimeProc ℕ
  sample s = (now h s.session, s)

  -- Whether the values that are sampled twice agree; if so, the day's milliseconds are tested.
  unfoldable pub coherent :
      (count_before count_after milliseconds days_before days_after sampled_at : ℕ)
      → Option (Option TimeDiagnostic)
  coherent count_before count_after milliseconds days_before days_after sampled_at =
      if count_before == count_after && days_before == days_after
      then (if leb milliseconds_per_day milliseconds
          then none
          else some (
              some (record {
                rx_count = count_after;
                milliseconds = milliseconds;
                days = days_after;
                sampled_at = sampled_at;
              })))
      else some none

  -- One attempt: `none` is a failure, `some none` a snapshot that changed while it was read.
  unfoldable pub snapshot_attempt : TimeProc (Option (Option TimeDiagnostic))
  snapshot_attempt = do
    before ← read_rx_count
    elim before [
      | none ↦ return none
      | some count_before ↦ do
        days ← read_noted 16 time_diagnostic_index 3
        elim days [
          | none ↦ return none
          | some days_before ↦ do
            ms ← read_noted 32 time_diagnostic_index 2
            sampled ← sample
            elim ms [
              | none ↦ return none
              | some milliseconds ↦ do
                days' ← read_noted 16 time_diagnostic_index 3
                elim days' [
                  | none ↦ return none
                  | some days_after ↦ do
                    after ← read_rx_count
                    return (elim after [
                      | none ↦ none
                      | some count_after ↦
                          coherent count_before count_after milliseconds days_before days_after
                            sampled
                    ])
                ]
            ]
        ]
    ]

  -- By the attempts left.
  unfoldable pub read_time_diagnostic : (attempts : ℕ) → TimeProc (Option TimeDiagnostic)
  read_time_diagnostic zero = return none
  read_time_diagnostic (suc n) = do
    r ← snapshot_attempt
    elim r [
      | none ↦ return none
      | some o ↦ elim o [ none ↦ read_time_diagnostic n | some d ↦ return (some d) ]
    ]
