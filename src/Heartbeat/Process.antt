-- ===== src/Heartbeat/Process.antt =====
-- The Heartbeat validation of src/nmt_heartbeat.cpp, and the Boot wait that other processes share.
pub mod Restore
pub mod Examples
use canopen_slave_tester.Prelude.{
  ℕ, ◌+◌, ◌*◌, Bool, true, false, Option, none, some, if◌then◌else◌, not, ◌==◌,
}
use canopen_slave_tester.Lely.{NmtState, Outcome, start}
use canopen_slave_tester.Emcy.{EmcyEvent, is_some, find_emcy_event_locked, snapshot_emcy_sequence}
use canopen_slave_tester.Nmt.Command.{issue_nmt_command}
use canopen_slave_tester.Sdo.{write_remote_sdo}
use canopen_slave_tester.Heartbeat.{slave_node_id, prepare_heartbeat, prepare_boot, boot_result}
use canopen_slave_tester.Host.{
  Host, Session, Proc, SdoOperationResult, success, local_write, record_action, next, pause,
  acquire, wait_until, ◌>>=◌, ◌>>◌, return,
}

abbrev pub heartbeat_index : ℕ
heartbeat_index = 0x1017

abbrev pub slave_assignment_index : ℕ
slave_assignment_index = 0x1F81

abbrev pub heartbeat_timeout_ms : ℕ
heartbeat_timeout_ms = 3000

abbrev pub heartbeat_period_ms : ℕ
heartbeat_period_ms = 500

abbrev pub heartbeat_sample_count : ℕ
heartbeat_sample_count = 5

abbrev pub heartbeat_consumer_emcy_code : ℕ
heartbeat_consumer_emcy_code = 0x8130

abbrev pub emcy_reset_code : ℕ
emcy_reset_code = 0

abbrev pub slave_assignment_enabled : ℕ
slave_assignment_enabled = 5

abbrev pub slave_assignment_disabled : ℕ
slave_assignment_disabled = 0

abbrev pub is_ok : Outcome → Bool
is_ok none = true
is_ok (some _) = false

abbrev pub is_success : SdoOperationResult → Bool
is_success success = true
is_success _ = false

module _ (h : Host) where
  -- A pause: other threads run, and the next lock delivers what they did.
  abbrev pub sleep : (duration_ms : ℕ) → Proc (Unit {0})
  sleep duration_ms s = (tt, pause duration_ms s)

  unfoldable pub prepare_boot_wait : Proc (Unit {0})
  prepare_boot_wait s = let t = acquire h s in (tt, record t { boot = prepare_boot t.boot })

  -- The state of an accepted Boot result, if one is seen in time.
  unfoldable pub wait_for_boot_completion : Proc (Option NmtState)
  wait_for_boot_completion s =
      let (reached, t) = wait_until h (λ (q : Session). q.boot.received) s in
      (boot_result reached t.boot, t)

  unfoldable pub snapshot_emcy : Proc ℕ
  snapshot_emcy s = let t = acquire h s in (snapshot_emcy_sequence t.emcy, t)

  unfoldable pub wait_for_emcy : ℕ → ℕ → ℕ → Proc (Option EmcyEvent)
  wait_for_emcy after node code s =
      let (reached, t) =
        wait_until h (λ (q : Session). is_some (find_emcy_event_locked after node code q.emcy)) s in
      (if reached then find_emcy_event_locked after node code t.emcy else none, t)

  prepare_heartbeat_wait : Bool → Proc (Unit {0})
  prepare_heartbeat_wait occurred s =
      let t = acquire h s in (tt, record t { heartbeat = prepare_heartbeat occurred t.heartbeat })

  wait_for_heartbeat : Proc Bool
  wait_for_heartbeat = wait_until h (λ (q : Session). q.heartbeat.received)

  local_write_u : ℕ → ℕ → ℕ → Proc Bool
  local_write_u index subindex value s =
      let accepted = is_ok (h.local_od_write s.step) in
      (accepted, record_action (local_write index subindex value accepted) s)

  write_slave_producer_heartbeat : ℕ → Proc Bool
  write_slave_producer_heartbeat period = do
    r ← write_remote_sdo h heartbeat_index 0 period heartbeat_timeout_ms 0
    return (is_success r)

  write_slave_assignment : ℕ → Proc Bool
  unfolding local_write_u
  write_slave_assignment assignment = local_write_u slave_assignment_index slave_node_id assignment

  write_master_heartbeat : ℕ → Proc Bool
  unfolding local_write_u
  write_master_heartbeat period = local_write_u heartbeat_index 0 period

  -- Step 3: the producer heartbeat is started again; `result` is what step 2 found.
  restore_producer : ℕ → Proc ℕ
  unfolding prepare_heartbeat_wait write_slave_producer_heartbeat wait_for_heartbeat
  restore_producer result = do
    prepare_heartbeat_wait false
    restored ← write_slave_producer_heartbeat heartbeat_period_ms
    if not restored
        then return 1
        else do recovered ← wait_for_heartbeat; return (if recovered then result else 1)

  -- Step 4: the slave assignment is written back on every path.
  restore_assignment : ℕ → Proc ℕ
  unfolding write_slave_assignment
  restore_assignment result = do
    restored ← write_slave_assignment slave_assignment_enabled
    return (if restored then result else 1)

  test_slave_producer_heartbeat : Proc ℕ
  unfolding write_slave_assignment prepare_heartbeat_wait write_slave_producer_heartbeat
      wait_for_heartbeat restore_producer restore_assignment
  test_slave_producer_heartbeat = do
    disabled ← write_slave_assignment slave_assignment_disabled
    if not disabled then return 1 else do
      prepare_heartbeat_wait true
      stopped ← write_slave_producer_heartbeat 0
      if not stopped then (do write_slave_assignment slave_assignment_enabled; return 1) else do
        lost ← wait_for_heartbeat
        result ← restore_producer (if lost then 0 else 1)
        restore_assignment result

  -- From the restored master heartbeat on.
  check_recovery : ℕ → ℕ → Proc ℕ
  unfolding test_slave_producer_heartbeat
  check_recovery recovery_sequence result = do
    recovery ← wait_for_emcy recovery_sequence slave_node_id emcy_reset_code
    if not (is_some recovery) then return 1 else do
      started ← issue_nmt_command h start slave_node_id
      if not started
          then return 1
          else do slave ← test_slave_producer_heartbeat; return (if slave == 0 then result else 1)

  pub heartbeat_process : Proc ℕ
  unfolding write_master_heartbeat check_recovery
  heartbeat_process = do
    sleep (heartbeat_period_ms * heartbeat_sample_count)
    fault_sequence ← snapshot_emcy
    stopped ← write_master_heartbeat 0
    if not stopped then return 1 else do
      fault ← wait_for_emcy fault_sequence slave_node_id heartbeat_consumer_emcy_code
      recovery_sequence ← snapshot_emcy
      restored ← write_master_heartbeat heartbeat_period_ms
      if not restored
          then return 1
          else check_recovery recovery_sequence (if is_some fault then 0 else 1)
