-- ===== src/Nmt/Command.antt =====
-- The NMT commands of src/canopen_nmt.cpp, with and without a confirmed remote state.
pub mod Confirmed
pub mod Examples
use canopen_slave_tester.Prelude.{
  ℕ, Bool, true, false, ◌&&◌, Option, none, some, if◌then◌else◌, ltb, not,
}
use canopen_slave_tester.Lely.{NmtCommand, NmtState, state_eq}
use canopen_slave_tester.Nmt.{is_unconfirmable, observation}
use canopen_slave_tester.Host.{
  Host, Session, Proc, command, record_action, next, acquire, wait_until,
}

module _ (h : Host) where
  -- An exception of Lely's Command() is the result false.
  unfoldable pub issue_nmt_command : NmtCommand → ℕ → Proc Bool
  issue_nmt_command c node s =
      let accepted = h.command_accepted s.step in
      (accepted, record_action (command c node accepted) s)

  abbrev pub is_state : NmtState → Option NmtState → Bool
  is_state expected none = false
  is_state expected (some state) = state_eq state expected

  -- Whether the local object 0x1F82 can be read and holds the expected state.
  read_managed_is : NmtState → Proc Bool
  read_managed_is expected s = (is_state expected (h.managed_state s.step), next s)

  abbrev pub is_fresh : ℕ → NmtState → ℕ → Session → Bool
  is_fresh node expected baseline s =
      let o = observation node s.nmt in ltb baseline o.generation && state_eq o.state expected

  wait_for_state : ℕ → NmtState → ℕ → Proc Bool
  wait_for_state node expected baseline = wait_until h (is_fresh node expected baseline)

  -- From the command on; `already` is whether the node was in the expected state before it.
  issue_and_confirm : NmtCommand → ℕ → NmtState → Bool → Proc Bool
  unfolding issue_nmt_command read_managed_is wait_for_state
  issue_and_confirm c node expected already s =
      let baseline = (observation node s.nmt).generation in
      let (accepted, s1) = issue_nmt_command c node s in
      if not accepted
      then (false, s1)
      else if not already
      then wait_for_state node expected baseline s1
      else (let (still, s2) = read_managed_is expected s1 in
          if still then (true, s2) else wait_for_state node expected baseline s2)

  unfoldable pub issue_nmt_command_and_wait_for_state : NmtCommand → ℕ → NmtState → Proc Bool
  unfolding issue_and_confirm
  issue_nmt_command_and_wait_for_state c node expected s =
      if is_unconfirmable node
      then (false, s)
      else (let (already, s1) = read_managed_is expected s in
          let s2 = acquire h s1 in
          if not s2.nmt.registered
          then (false, s2)
          else issue_and_confirm c node expected already s2)
