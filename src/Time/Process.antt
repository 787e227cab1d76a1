-- ===== src/Time/Process.antt =====
-- The whole TIME consumer validation, timeProcess of src/time_process.cpp: the cases, and the
-- restoration of object 0x1012 and of the slave's NMT state.
pub mod Started
pub mod Restored
pub mod Examples
use canopen_slave_tester.Prelude.{
  ℕ, ◌+◌, ◌-◌, ◌^◌, Bool, true, false, ◌&&◌, ◌||◌, Option, none, some, ◌==◌, not, if◌then◌else◌,
  bit_and, bit_or,
}
use canopen_slave_tester.Lely.{start}
use canopen_slave_tester.Host.{Host, Session}
use canopen_slave_tester.State.{State, ◌>>=◌, ◌>>◌, return, ◌&&&◌}
use canopen_slave_tester.Emcy.{is_some}
use canopen_slave_tester.Sdo.{default_sdo_timeout_ms, default_completion_margin_ms, read_remote_sdo}
use canopen_slave_tester.Nmt.Command.{issue_nmt_command}
use canopen_slave_tester.Heartbeat.{slave_node_id}
use canopen_slave_tester.Heartbeat.Process.{is_success}
use canopen_slave_tester.Time.{
  TimeDiagnostic, TimeSession, TimeProc, read_time_diagnostic, time_cob_id_index, clear_timed_out,
  set_needs_start, verify_time_cob_id, write_and_verify_time_cob_id, reset_slave_communication,
  recover_time_cob_id_with_reset,
}
use canopen_slave_tester.Time.Inject.{
  snapshot_retry_count, time_can_id_mask, time_message_length, negative_observation_wait_ms,
  pause_time, send_time_frame, inject_and_verify_time, still_advances, verify_invalid_dlc,
}

abbrev pub time_consumer_mask : ℕ
time_consumer_mask = 0x80000000

abbrev pub time_producer_mask : ℕ
time_producer_mask = 0x40000000

abbrev pub time_unsupported_cob_id_mask : ℕ
time_unsupported_cob_id_mask = 0x3FFFF800

abbrev pub continuous_wait_ms : ℕ
continuous_wait_ms = 250

-- The local variables of timeProcess that outlive a step; `ok` is whether the result is still zero.
pub record TimeRun : Type 0 where
  pub ok : Bool
  pub modification_attempted : Bool
  pub reset_recovery_required : Bool
  pub consumer_enable_reset_performed : Bool
  pub restoration_verified : Bool

abbrev pub untouched : TimeRun
untouched = record {
  ok = true;
  modification_attempted = false;
  reset_recovery_required = false;
  consumer_enable_reset_performed = false;
  restoration_verified = false;
}

module _ (h : Host) where
  -- Step 3: the consumer is enabled, with a reset, if it was not.
  unfoldable pub enable_consumer : (original enabled : ℕ) → TimeProc TimeRun
  enable_consumer original enabled = if enabled == original then return untouched else do
    written ← write_and_verify_time_cob_id h enabled
    if not written
        then return (record untouched { ok = false; modification_attempted = true })
        else do
          reset ← reset_slave_communication h
          if not reset
              then return (record untouched {
                ok = false;
                modification_attempted = true;
                reset_recovery_required = true;
              })
              else do
                set_needs_start
                clear_timed_out
                verified ← verify_time_cob_id h enabled
                return (record untouched {
                  ok = verified;
                  modification_attempted = true;
                  consumer_enable_reset_performed = true;
                })

  unfoldable pub has : TimeProc (Option TimeDiagnostic) → TimeProc Bool
  has p s = let (r, t) = p s in (is_some r, t)

  -- Step 7.
  unfoldable pub continuous_advance : (can_id : ℕ) → TimeProc Bool
  continuous_advance can_id = do
    snapshot ← inject_and_verify_time h can_id 10000 2000
    elim snapshot [
      | none ↦ return false
      | some before ↦ do pause_time continuous_wait_ms; still_advances h 0 before
    ]

  -- From the fresh baseline to step 8.
  unfoldable pub stimuli : (can_id : ℕ) → TimeProc Bool
  stimuli can_id =
      has (read_time_diagnostic h snapshot_retry_count)
      &&& has (inject_and_verify_time h can_id 12345000 1000)
      &&& has (inject_and_verify_time h can_id 0 1001)
      &&& has (inject_and_verify_time h can_id 86399999 1002)
      &&& has (inject_and_verify_time h can_id 43210000 0)
      &&& has (inject_and_verify_time h can_id 1000 0xFFFF)
      &&& continuous_advance can_id
      &&& verify_invalid_dlc h can_id 5
      &&& verify_invalid_dlc h can_id 7

  -- Step 9.
  unfoldable pub disabled_consumer : (can_id enabled : ℕ) → TimeProc Bool
  disabled_consumer can_id enabled = do
    written ← write_and_verify_time_cob_id h (bit_and enabled (2 ^ 32 - 1 - time_consumer_mask))
    if not written then return false else do
      snapshot ← read_time_diagnostic h snapshot_retry_count
      elim snapshot [
        | none ↦ return false
        | some before ↦ do
          queued ← send_time_frame h can_id time_message_length 60000000 30000
          if not queued
              then return false
              else do pause_time negative_observation_wait_ms; still_advances h 1 before
      ]

  -- Step 10.
  unfoldable pub enabled_again : (can_id enabled : ℕ) → TimeProc Bool
  enabled_again can_id enabled =
      write_and_verify_time_cob_id h enabled &&& has (inject_and_verify_time h can_id 22345000 3000)

  -- From the fresh baseline to step 10.
  unfoldable pub run_cases : (can_id enabled : ℕ) → TimeRun → TimeProc TimeRun
  run_cases can_id enabled run = do
    stimulated ← (if run.ok then stimuli can_id else return false)
    if not stimulated then return (record run { ok = false }) else do
      passed ← disabled_consumer can_id enabled &&& enabled_again can_id enabled
      return (record run { ok = passed; modification_attempted = true })

  unfoldable pub restore_normally : (original : ℕ) → (with_reset : Bool) → TimeProc Bool
  restore_normally original with_reset = do
    written ← write_and_verify_time_cob_id h original
    if not (written && with_reset) then return written else do
      reset ← reset_slave_communication h
      if not reset
          then return false
          else do set_needs_start; clear_timed_out; verify_time_cob_id h original

  -- Step 11.
  unfoldable pub normal_cleanup : (original : ℕ) → TimeRun → TimeProc TimeRun
  normal_cleanup original run s =
      let attempt =
        run.modification_attempted
        && not s.completion_wait_timed_out
        && not run.reset_recovery_required in
      let (restored, t) = restore_normally original run.consumer_enable_reset_performed s in
      if attempt
      then (record run { ok = run.ok && restored; restoration_verified = restored }, t)
      else (record run { restoration_verified = not run.modification_attempted }, s)

  -- Step 12.
  unfoldable pub recovery : (original : ℕ) → TimeRun → TimeProc TimeRun
  recovery original run =
      if not run.modification_attempted || run.restoration_verified then return run else do
        recovered ← recover_time_cob_id_with_reset h original
        return (record run { ok = false; restoration_verified = recovered })

  -- The slave is started again if a reset has left it in the Boot state and 0x1012 is restored.
  unfoldable pub start_again : TimeRun → TimeProc Bool
  start_again run s =
      let (accepted, t) = issue_nmt_command h start slave_node_id s.session in
      if s.slave_needs_start && run.restoration_verified
      then (accepted, record s { session = t; slave_needs_start = not accepted })
      else (true, s)

  -- Steps 11 and 12, and the verdict.
  unfoldable pub clean_up : (original : ℕ) → TimeRun → TimeProc Bool
  clean_up original run = do
    cleaned ← normal_cleanup original run
    final ← recovery original cleaned
    s ← (λ (t : TimeSession). (t, t))
    started ← start_again final
    return (
        final.ok
        && not s.completion_wait_timed_out
        && started
        && not (final.modification_attempted && not final.restoration_verified))

  -- With the original value of 0x1012 known and accepted.
  unfoldable pub validate_time : (original : ℕ) → TimeProc Bool
  validate_time original = do
    enabling ← enable_consumer original (bit_or original time_consumer_mask)
    run ←
        run_cases (bit_and original time_can_id_mask) (bit_or original time_consumer_mask) enabling
    clean_up original run

  -- `none` if the read fails; a timeout is not noted here.
  unfoldable pub read_original : TimeProc (Option ℕ)
  read_original s =
      let (r, t) =
        read_remote_sdo h 32 time_cob_id_index 0 0 default_sdo_timeout_ms
          default_completion_margin_ms s.session in
      (if is_success r.0 then some r.1 else none, record s { session = t })

  unfoldable pub is_supported : ℕ → Bool
  is_supported original =
      bit_and original time_unsupported_cob_id_mask == 0 && bit_and original time_producer_mask == 0

  abbrev pub fresh_flags : Session → TimeSession
  fresh_flags s = record {
    session = s;
    completion_wait_timed_out = false;
    slave_needs_start = false;
  }

  unfoldable pub time_process : Session → ℕ × TimeSession
  time_process s =
      let (baseline, t) = read_time_diagnostic h snapshot_retry_count (fresh_flags s) in
      elim baseline [
        | none ↦ (1, t)
        | some _ ↦
            let (read, u) = read_original t in
            elim read [
              | none ↦ (1, u)
              | some original ↦ elim (is_supported original) [
                | false ↦ (1, u)
                | true ↦ let (passed, v) = validate_time original u in (if passed then 0 else 1, v)
              ]
            ]
      ]
