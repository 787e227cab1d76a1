-- ===== src/NmtMaster/Process/Examples.antt =====
-- Runs of the command ring and of the NMT master validation (src/nmt_master_process.cpp).
use canopen_slave_tester.Prelude.{
  ◌≡◌, refl, Bool, true, false, ◌==◌, [], ◌++◌, arith, none, some, replicate, if◌then◌else◌,
}
use canopen_slave_tester.Lely.{start, stop}
use canopen_slave_tester.Waiting.{wait_for}
use canopen_slave_tester.NmtMaster.{
  NmtCommandObserverState, nmt_command_callback, register_nmt_command_observer, deactivate, clear,
  pop,
}
use canopen_slave_tester.NmtMaster.Queue.{IsRing}
use canopen_slave_tester.NmtMaster.Process.{
  PeerHost, PeerSession, value, auto_starts, acquire, register_observer, unregister_observer,
  configure_peer_heartbeat, peer_auto_starts_after_reset, wait_for_news, take_command,
  wait_for_nmt_command, wait_for_optional_nmt_command, receive, wait_for_nmt_master_step,
  enter_pre_operational, reach_start, fixture_normalized, wait_for_formal_command_after_reset,
  final_window, confirm_heartbeat, keep_peer_alive_for_final_heartbeat,
  wait_for_final_start_after_reset, validate_sequence, validate, nmt_master_process,
}
use canopen_slave_tester.NmtMaster.Process.Trace.Sequence.{
  formal_sequence, IsIdle, nmt_master_process-sequence,
}

abbrev idle : NmtCommandObserverState
idle = record { queue = replicate 16 start; head = 0; count = 0; overflow = false; active = false }

abbrev wrapping : NmtCommandObserverState
wrapping = record {
  queue = replicate 16 stop;
  head = 15;
  count = 2;
  overflow = false;
  active = true;
}

wrapping-IsRing : IsRing wrapping
wrapping-IsRing = record {
  capacity = refl;
  head_bounded = omega arith;
  count_bounded = omega arith;
}

-- A peer whose startup object forbids to start by itself, and a device that sends the formal
-- sequence.
abbrev peer : PeerHost
peer = record {
  before = λ step. if step == 3 then formal_sequence false else [];
  during = λ step. [];
  write_heartbeat = λ step. none;
  read_startup = λ step. value 4;
  read_heartbeat = λ step. value 500;
}

abbrev fresh : PeerSession
fresh = record { step = 0; observer = idle; received = []; consumed = [] }

fresh-IsIdle : IsIdle fresh
fresh-IsIdle = record {
  ring = record { capacity = refl; head_bounded = omega arith; count_bounded = omega arith };
  inactive = refl;
  none_received = refl;
  none_consumed = refl;
}

passes : (nmt_master_process peer fresh).0 ≡ 0
unfolding nmt_master_process validate validate_sequence wait_for_final_start_after_reset
    keep_peer_alive_for_final_heartbeat confirm_heartbeat final_window
    wait_for_formal_command_after_reset fixture_normalized reach_start enter_pre_operational
    wait_for_nmt_master_step receive wait_for_optional_nmt_command wait_for_nmt_command take_command
    wait_for_news peer_auto_starts_after_reset configure_peer_heartbeat unregister_observer
    register_observer acquire wait_for nmt_command_callback register_nmt_command_observer deactivate
    clear pop
passes = refl

nmt_master_process-sequence_example :
    let u = (validate peer (register_observer peer fresh).1).1 in
    (b : Bool) × (auto_starts (peer.read_startup 1) ≡ some b)
    × (u.received ≡ formal_sequence b)
    × ((nmt_master_process peer fresh).1.received ≡ u.received ++ peer.before u.step)
nmt_master_process-sequence_example = nmt_master_process-sequence peer fresh fresh-IsIdle passes
