-- ===== src/Heartbeat/Process/Restore.antt =====
-- What the Heartbeat validation leaves behind (src/nmt_heartbeat.cpp).
use canopen_slave_tester.Prelude.{ℕ, ◌≡◌, ap, ◌≢◌, ◌⊎◌, Bool, true, false, Option, some, arith}
use canopen_slave_tester.Nmt.Command.{issue_nmt_command}
use canopen_slave_tester.Lely.{start}
use canopen_slave_tester.Host.{Host, Session}
use canopen_slave_tester.Host.Log.{newest_local, acquire-log, wait_until-log}
use canopen_slave_tester.Heartbeat.{slave_node_id}
use canopen_slave_tester.Heartbeat.Process.{
  heartbeat_index, slave_assignment_index, heartbeat_period_ms, slave_assignment_enabled,
  slave_assignment_disabled, snapshot_emcy, wait_for_emcy, prepare_heartbeat_wait,
  wait_for_heartbeat, write_slave_producer_heartbeat, write_slave_assignment,
  write_master_heartbeat, restore_producer, restore_assignment, test_slave_producer_heartbeat,
  check_recovery, heartbeat_process,
}
use canopen_slave_tester.Sdo.Results.{write_remote_sdo-newest_local}

module _ (h : Host) where
  -- The newest write to the slave assignment.
  abbrev assignment : Session → Option (ℕ × Bool)
  assignment s = newest_local slave_assignment_index slave_node_id s.log

  -- The newest write to the master's own producer heartbeat.
  abbrev master_heartbeat : Session → Option (ℕ × Bool)
  master_heartbeat s = newest_local heartbeat_index 0 s.log

  write_slave_producer_heartbeat-local :
      (i j period : ℕ) (s : Session)
      → newest_local i j (write_slave_producer_heartbeat h period s).1.log ≡ newest_local i j s.log
  unfolding write_slave_producer_heartbeat
  write_slave_producer_heartbeat-local i j period s =
      write_remote_sdo-newest_local h i j heartbeat_index 0 period 3000 0 s

  restore_producer-local :
      (i j r : ℕ) (s : Session)
      → newest_local i j (restore_producer h r s).1.log ≡ newest_local i j s.log
  unfolding restore_producer prepare_heartbeat_wait wait_for_heartbeat
  restore_producer-local i j r s =
      grind (arith, write_slave_producer_heartbeat-local, acquire-log, wait_until-log)

  -- Once the assignment has been cleared, the last thing done to it is to write it back.
  restore_assignment-last :
      (r : ℕ) (s : Session)
      → ((restore_assignment h r s).0 ≡ 0
          → assignment (restore_assignment h r s).1 ≡ some (slave_assignment_enabled, true))
        × ((assignment (restore_assignment h r s).1 ≡ some (slave_assignment_enabled, true))
            ⊎ (assignment (restore_assignment h r s).1 ≡ some (slave_assignment_enabled, false)))
  unfolding restore_assignment write_slave_assignment
  restore_assignment-last r s = ground arith

  test_slave-assignment :
      (s : Session)
      → ((test_slave_producer_heartbeat h s).0 ≡ 0
          → assignment (test_slave_producer_heartbeat h s).1
            ≡ some (slave_assignment_enabled, true))
        × (assignment (test_slave_producer_heartbeat h s).1
            ≢ some (slave_assignment_disabled, true))
  unfolding test_slave_producer_heartbeat write_slave_assignment
  test_slave-assignment s = grind (arith, restore_assignment-last)

  test_slave-master :
      (s : Session) → master_heartbeat (test_slave_producer_heartbeat h s).1 ≡ master_heartbeat s
  unfolding test_slave_producer_heartbeat restore_assignment write_slave_assignment
      prepare_heartbeat_wait wait_for_heartbeat
  test_slave-master s = grind (
    arith, write_slave_producer_heartbeat-local, restore_producer-local, acquire-log,
    wait_until-log,
  )

  wait_for_emcy-log :
      (after node code : ℕ) (s : Session) → (wait_for_emcy h after node code s).1.log ≡ s.log
  unfolding wait_for_emcy
  wait_for_emcy-log after node code s = wait_until-log h _ s

  check_recovery-master :
      (n r : ℕ) (s : Session) → master_heartbeat (check_recovery h n r s).1 ≡ master_heartbeat s
  unfolding check_recovery issue_nmt_command
  check_recovery-master n r s =
      let t = (wait_for_emcy h n slave_node_id 0 s).1 in
      ground (
        arith,
        ap (newest_local heartbeat_index 0) (wait_for_emcy-log n slave_node_id 0 s),
        test_slave-master (issue_nmt_command h start slave_node_id t).1,
      )

  check_recovery-passed :
      (n r : ℕ) (s : Session)
      → (check_recovery h n r s).0 ≡ 0
      → assignment (check_recovery h n r s).1 ≡ some (slave_assignment_enabled, true)
  unfolding check_recovery issue_nmt_command
  check_recovery-passed n r s e = grind (arith, test_slave-assignment)

  check_recovery-kept :
      (n r : ℕ) (s : Session)
      → assignment s ≢ some (slave_assignment_disabled, true)
      → assignment (check_recovery h n r s).1 ≢ some (slave_assignment_disabled, true)
  unfolding check_recovery wait_for_emcy issue_nmt_command
  check_recovery-kept n r s e = grind (arith, test_slave-assignment, wait_until-log)

  master_heartbeat_kept :
      (s : Session)
      → (newest_local heartbeat_index 0 (heartbeat_process h s).1.log ≢ some (0, true))
        × ((heartbeat_process h s).0 ≡ 0
            → newest_local heartbeat_index 0 (heartbeat_process h s).1.log
              ≡ some (heartbeat_period_ms, true))
  unfolding heartbeat_process snapshot_emcy wait_for_emcy write_master_heartbeat
  master_heartbeat_kept s = grind (arith, check_recovery-master, acquire-log, wait_until-log)

  -- However the Heartbeat validation ends, the newest write to the master's own producer heartbeat is
  -- not an accepted write of zero.
  pub heartbeat_process-master_heartbeat :
      (s : Session) → newest_local heartbeat_index 0 (heartbeat_process h s).1.log ≢ some (0, true)
  heartbeat_process-master_heartbeat s = (master_heartbeat_kept s).0

  -- If the newest write to the slave assignment is not an accepted clearing before the validation, it
  -- is not after it, however the validation ends.
  pub heartbeat_process-assignment :
      (s : Session)
      → (newest_local slave_assignment_index slave_node_id s.log
          ≢ some (slave_assignment_disabled, true))
      → (newest_local slave_assignment_index slave_node_id (heartbeat_process h s).1.log
          ≢ some (slave_assignment_disabled, true))
  unfolding heartbeat_process snapshot_emcy wait_for_emcy write_master_heartbeat
  heartbeat_process-assignment s fresh =
      grind (arith, check_recovery-kept, acquire-log, wait_until-log)

  -- A validation with result zero has written back both: the newest write to the master's producer
  -- heartbeat is the period of 500 ms, the newest one to the slave assignment is the original
  -- assignment, and both were accepted.
  pub heartbeat_process-restored :
      (s : Session)
      → (heartbeat_process h s).0 ≡ 0
      → (newest_local heartbeat_index 0 (heartbeat_process h s).1.log
          ≡ some (heartbeat_period_ms, true))
        × (newest_local slave_assignment_index slave_node_id (heartbeat_process h s).1.log
            ≡ some (slave_assignment_enabled, true))
  unfolding heartbeat_process snapshot_emcy wait_for_emcy write_master_heartbeat
  heartbeat_process-restored s e =
      ((master_heartbeat_kept s).1 e, grind (arith, check_recovery-passed, acquire-log))
