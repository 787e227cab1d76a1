-- ===== src/Shutdown/Examples.antt =====
-- A run of the final reset (src/shutdown_process.cpp).
use canopen_slave_tester.Prelude.{◌≡◌, refl, true, [], ◌∷◌, ◌++◌}
use canopen_slave_tester.Lely.{started, reset_comm}
use canopen_slave_tester.Waiting.{concat, wait_for}
use canopen_slave_tester.Heartbeat.{slave_node_id, prepare_boot, boot_callback, boot_result}
use canopen_slave_tester.Heartbeat.Process.{prepare_boot_wait, wait_for_boot_completion}
use canopen_slave_tester.Heartbeat.Process.Examples.{good_host, session}
use canopen_slave_tester.Host.{Host, on_boot, on_callback, acquire, wait_until}
use canopen_slave_tester.Nmt.Command.{issue_nmt_command}
use canopen_slave_tester.Shutdown.{final_reset_process}
use canopen_slave_tester.Shutdown.Boot.{is_boot, has_boot, final_reset_process-has_boot}
use canopen_slave_tester.Shutdown.Answered.{IsFine, final_reset_process-answered}

-- A device that boots after each reset.
abbrev booting : Host
booting = record good_host { callbacks = λ step. on_boot 1 started 0 ∷ [] }

boots : (final_reset_process booting session).0 ≡ 0
unfolding final_reset_process issue_nmt_command prepare_boot_wait wait_for_boot_completion
    prepare_boot boot_callback boot_result acquire wait_until wait_for on_callback
boots = refl

final_reset_process-has_boot_example :
    let t = (prepare_boot_wait booting session).1 in
    let u = (issue_nmt_command booting reset_comm slave_node_id t).1 in
    (booting.command_accepted t.step ≡ true)
    × (has_boot (booting.callbacks u.step ++ concat (booting.during (acquire booting u).step))
        ≡ true)
final_reset_process-has_boot_example = final_reset_process-has_boot booting session boots

final_reset_process-answered_example : (final_reset_process booting session).0 ≡ 0
unfolding IsFine is_boot has_boot issue_nmt_command prepare_boot_wait acquire
final_reset_process-answered_example =
    final_reset_process-answered booting session refl ((λ _. refl), tt) tt refl
