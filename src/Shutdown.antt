-- ===== src/Shutdown.antt =====
-- The final reset of the slave's communication, src/shutdown_process.cpp.
pub mod Boot
pub mod Answered
pub mod Examples
use canopen_slave_tester.Prelude.{ℕ, Bool, if◌then◌else◌, not}
use canopen_slave_tester.Lely.{reset_comm}
use canopen_slave_tester.Emcy.{is_some}
use canopen_slave_tester.Host.{Host, Proc, ◌>>=◌, ◌>>◌, return}
use canopen_slave_tester.Nmt.Command.{issue_nmt_command}
use canopen_slave_tester.Heartbeat.{slave_node_id}
use canopen_slave_tester.Heartbeat.Process.{prepare_boot_wait, wait_for_boot_completion}

module _ (h : Host) where
  unfoldable pub final_reset_process : Proc ℕ
  final_reset_process = do
    prepare_boot_wait h
    accepted ← issue_nmt_command h reset_comm slave_node_id
    if not accepted
        then return 1
        else do boot ← wait_for_boot_completion h; return (if is_some boot then 0 else 1)
