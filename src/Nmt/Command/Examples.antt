-- ===== src/Nmt/Command/Examples.antt =====
-- A confirmed NMT command (src/canopen_nmt.cpp).
use canopen_slave_tester.Prelude.{◌+◌, ◌≡◌, refl, true, false, ◌==◌, if◌then◌else◌, some, [], ◌∷◌}
use canopen_slave_tester.Lely.{start, started, preop}
use canopen_slave_tester.Waiting.{wait_for}
use canopen_slave_tester.Nmt.{is_unconfirmable, observation, nmt_state_callback}
use canopen_slave_tester.Nmt.Command.{
  issue_nmt_command, read_managed_is, wait_for_state, issue_and_confirm,
  issue_nmt_command_and_wait_for_state,
}
use canopen_slave_tester.Nmt.Command.Confirmed.{
  IsEvidence, issue_nmt_command_and_wait_for_state-IsEvidence,
}
use canopen_slave_tester.Host.{Host, on_state, on_callback, acquire, wait_until, next}
use canopen_slave_tester.Heartbeat.Process.Examples.{good_host, session}

-- The node is pre-operational before the command, and reports the operational state after it.
abbrev starting : Host
starting = record good_host {
  callbacks = λ step. if step == 1 then on_state 1 preop ∷ [] else [];
  during = λ step. (on_state 2 started ∷ []) ∷ (on_state 1 started ∷ []) ∷ [];
  managed_state = λ step. some preop;
}

confirmed : (issue_nmt_command_and_wait_for_state starting start 1 started session).0 ≡ true
unfolding issue_nmt_command_and_wait_for_state issue_and_confirm wait_for_state read_managed_is
    issue_nmt_command acquire wait_until wait_for on_callback nmt_state_callback
confirmed = refl

issue_nmt_command_and_wait_for_state-IsEvidence_example :
    let t = acquire starting (next session) in
    (is_unconfirmable 1 ≡ false)
    × (t.nmt.registered ≡ true)
    × (starting.command_accepted t.step ≡ true)
    × IsEvidence starting 1 started
        (starting.managed_state session.step)
        (starting.managed_state (t.step + 1))
        (observation 1 t.nmt).generation
        (issue_nmt_command_and_wait_for_state starting start 1 started session).1
issue_nmt_command_and_wait_for_state-IsEvidence_example =
    issue_nmt_command_and_wait_for_state-IsEvidence starting start 1 started session confirmed
