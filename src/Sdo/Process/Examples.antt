-- ===== src/Sdo/Process/Examples.antt =====
-- A run of the SDO object-access validation (src/sdo_process.cpp).
use canopen_slave_tester.Prelude.{ℕ, ◌≡◌, ◌≢◌, refl, true, none, some, [], ◌∷◌, get_or}
use canopen_slave_tester.Heartbeat.Process.Examples.{good_host, session}
use canopen_slave_tester.Host.{Host}
use canopen_slave_tester.Sdo.{read_remote_sdo, write_remote_sdo, request_result}
use canopen_slave_tester.Sdo.Process.{
  choose_test_value, read_control_value, write_control_value, verify_control_value,
  restore_control_value, check_and_restore, sdo_process,
}
use canopen_slave_tester.Sdo.Process.Restored.{
  IsRoundTrip, all_settled, older, sdo_process-IsRoundTrip, sdo_process-quiet,
}

-- What the device answers to the request of each step: its value is 7.
abbrev object_device : Host
object_device = record good_host {
  completion = λ step ms.
      some (record { error = none; value = get_or (7 ∷ 0 ∷ 0x12345678 ∷ 0 ∷ 7 ∷ []) step 0 });
}

object_passes : (sdo_process object_device session).0 ≡ 0
unfolding sdo_process check_and_restore restore_control_value verify_control_value
    write_control_value read_control_value choose_test_value request_result write_remote_sdo
    read_remote_sdo
object_passes = refl

sdo_process-IsRoundTrip_example :
    (original : ℕ) × (choose_test_value original ≢ original)
    × IsRoundTrip original
        (choose_test_value original)
        session.log
        (sdo_process object_device session).1.log
sdo_process-IsRoundTrip_example = sdo_process-IsRoundTrip object_device session object_passes

nothing_open : all_settled session.log ≡ true
unfolding all_settled
nothing_open = refl

sdo_process-quiet_example : all_settled (older (sdo_process object_device session).1.log) ≡ true
sdo_process-quiet_example = sdo_process-quiet object_device session nothing_open
