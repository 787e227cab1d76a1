-- ===== src/Time/Recovery.antt =====
-- What the recovery of object 0x1012 leaves behind (src/time_process.cpp).
use canopen_slave_tester.Prelude.{ℕ, ◌≡◌, true, false, some, arith}
use canopen_slave_tester.Host.{Host, success}
use canopen_slave_tester.Host.Log.{newest_remote, reads}
use canopen_slave_tester.Sdo.{read_remote_sdo}
use canopen_slave_tester.Time.{
  time_cob_id_index, TimeSession, read_noted, verify_time_cob_id, recover_time_cob_id_with_reset,
}

module _ (h : Host) where
  -- A verification that succeeds is the newest access to the object, and it has read the value.
  pub verify_time_cob_id-newest :
      (expected : ℕ) (s : TimeSession)
      → (verify_time_cob_id h expected s).0 ≡ true
      → (newest_remote time_cob_id_index 0 (verify_time_cob_id h expected s).1.session.log
          ≡ some (reads expected success))
        × ((verify_time_cob_id h expected s).1.completion_wait_timed_out
            ≡ s.completion_wait_timed_out)
        × ((verify_time_cob_id h expected s).1.slave_needs_start ≡ s.slave_needs_start)
  unfolding verify_time_cob_id read_noted read_remote_sdo
  verify_time_cob_id-newest expected s e = ground (arith, e)

  -- A recovery that succeeds ends with the original value read back from object 0x1012, as the newest
  -- access to it; no SDO wait has timed out since the last reset, and the slave is to be started.
  pub recover_time_cob_id_with_reset-newest :
      (original : ℕ) (s : TimeSession)
      → (recover_time_cob_id_with_reset h original s).0 ≡ true
      → (newest_remote time_cob_id_index 0
            (recover_time_cob_id_with_reset h original s).1.session.log
          ≡ some (reads original success))
        × ((recover_time_cob_id_with_reset h original s).1.completion_wait_timed_out ≡ false)
        × ((recover_time_cob_id_with_reset h original s).1.slave_needs_start ≡ true)
  unfolding recover_time_cob_id_with_reset
  recover_time_cob_id_with_reset-newest original s e = grind (arith, verify_time_cob_id-newest)
