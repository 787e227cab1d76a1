-- ===== src/Sdo/Examples.antt =====
-- A remote read that gets its value (include/canopen_sdo.h).
use canopen_slave_tester.Lely.{ErrorCode, timeout}
use canopen_slave_tester.Prelude.{true, ◌+◌}
use canopen_slave_tester.Heartbeat.Process.Examples.{good_host, session}
use canopen_slave_tester.Sdo.{read_remote_sdo}
use canopen_slave_tester.Sdo.Results.{IsClassified, read_remote_sdo-IsClassified}

read_remote_sdo-IsClassified_example :
    IsClassified 32
      (good_host.submit session.step)
      (good_host.completion session.step (1000 + 500))
      7
      (read_remote_sdo good_host 32 0x1012 0 7 1000 500 session).0
read_remote_sdo-IsClassified_example =
    read_remote_sdo-IsClassified good_host session 32 0x1012 0 7 1000 500

abbrev aborted : ErrorCode
aborted = record { is_sdo = true; sdo_errc = timeout }
