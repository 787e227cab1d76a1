-- ===== src/NmtMaster/Process.antt =====
-- The NMT master validation of src/nmt_master_process.cpp: a Lely BasicSlave is the controlled node,
-- and the commands that the device under test sends it are checked one by one.
-- The commands that Lely reports between two locks of the observer are delivered at the second.
pub mod Trace
pub mod Examples
use canopen_slave_tester.Prelude.{
  ℕ, ◌+◌, Bool, true, false, ◌&&◌, not, Option, none, some, List, [], ◌∷◌, ◌++◌, if◌then◌else◌,
  ◌==◌, bit_and,
}
use canopen_slave_tester.State.{State, ◌>>=◌, ◌>>◌, return, ◌&&&◌}
use canopen_slave_tester.Lely.{
  NmtCommand, start, stop, enter_preop, reset_node, reset_comm, no_obj, ErrorCode, Outcome,
  command_eq, errc_eq,
}
use canopen_slave_tester.Waiting.{deliver, wait_for}
use canopen_slave_tester.NmtMaster.{
  NmtCommandObserverState, nmt_command_callback, register_nmt_command_observer, deactivate, clear,
  has_news, pop,
}

pub data RegisterRead : Type 0 where
  value : ℕ → RegisterRead
  read_failed : ErrorCode → RegisterRead

-- The answers of Lely and the commands that it reports, by the number of the step.
pub record PeerHost : Type 0 where
  pub before : ℕ → List NmtCommand
  pub during : ℕ → List (List NmtCommand)
  pub write_heartbeat : ℕ → Outcome
  pub read_startup : ℕ → RegisterRead
  pub read_heartbeat : ℕ → RegisterRead

-- `received` are the commands reported while the observer was active, `consumed` those that the
-- validation has taken out of the queue; the program keeps neither.
pub record PeerSession : Type 0 where
  pub step : ℕ
  pub observer : NmtCommandObserverState
  pub received : List NmtCommand
  pub consumed : List NmtCommand

abbrev pub Peer {ℓ} : Type ℓ → Type ℓ
Peer A = State PeerSession A

pub record NmtMasterStep : Type 0 where
  pub command : NmtCommand
  pub restore_heartbeat : Bool

abbrev pub expects : NmtCommand → NmtMasterStep
expects c = record { command = c; restore_heartbeat = false }

abbrev pub completes : NmtCommand → NmtMasterStep
completes c = record { command = c; restore_heartbeat = true }

abbrev pub on_command : NmtCommand → PeerSession → PeerSession
on_command c s = record s {
  observer = nmt_command_callback c s.observer;
  received = if s.observer.active then s.received ++ c ∷ [] else s.received;
}

abbrev tick : PeerSession → PeerSession
tick s = record s { step = s.step + 1 }

abbrev pub auto_starts : RegisterRead → Option Bool
auto_starts (value startup) = some (bit_and startup 4 == 0)
auto_starts (read_failed e) = if errc_eq e.sdo_errc no_obj then some true else none

abbrev accepted : Outcome → Bool
accepted none = true
accepted (some _) = false

abbrev peer_heartbeat_ms : ℕ
peer_heartbeat_ms = 500

abbrev holds_period : RegisterRead → Bool
holds_period (value v) = v == peer_heartbeat_ms
holds_period (read_failed e) = false

module _ (h : PeerHost) where
  acquire : PeerSession → PeerSession
  acquire s = tick (deliver on_command (h.before s.step) s)

  pub register_observer : Peer (Unit {0})
  register_observer s =
      let t = acquire s in (tt, record t { observer = register_nmt_command_observer t.observer })

  -- Deactivation, the removal of the callback, and the reset of the queue.
  unregister_observer : Peer (Unit {0})
  unregister_observer s =
      let t = acquire s in (tt, record t { observer = clear (deactivate t.observer) })

  configure_peer_heartbeat : Peer Bool
  configure_peer_heartbeat s = (accepted (h.write_heartbeat s.step), tick s)

  peer_auto_starts_after_reset : Peer (Option Bool)
  peer_auto_starts_after_reset s = (auto_starts (h.read_startup s.step), tick s)

  -- Whether the wait ends with news.
  wait_for_news : Peer Bool
  wait_for_news s =
      let t = acquire s in
      let r = wait_for on_command (λ (q : PeerSession). has_news q.observer) (h.during t.step) t in
      (r.0, tick r.1)

  take_command : Peer NmtCommand
  take_command s =
      let p = pop s.observer in
      (p.0, record s { observer = p.1; consumed = s.consumed ++ p.0 ∷ [] })

  overflowed : Peer Bool
  overflowed s = (s.observer.overflow, s)

  -- `none` is a timeout or an overflow.
  wait_for_nmt_command : Peer (Option NmtCommand)
  wait_for_nmt_command s =
      let (observed, t) = wait_for_news s in
      if not observed
      then (none, t)
      else if t.observer.overflow
      then (none, t)
      else (let (c, u) = take_command t in (some c, u))

  -- Whether the window ends without an overflow, and the command that was taken, if any.
  wait_for_optional_nmt_command : Peer (Bool × Option NmtCommand)
  wait_for_optional_nmt_command s =
      let (observed, t) = wait_for_news s in
      if not observed
      then ((true, none), t)
      else if t.observer.overflow
      then ((false, none), t)
      else (let (c, u) = take_command t in ((true, some c), u))

  -- The next command is `c`.
  receive : NmtCommand → Peer Bool
  receive c s =
      let (r, t) = wait_for_nmt_command s in (elim r [ none ↦ false | some d ↦ command_eq d c ], t)

  wait_for_nmt_master_step : NmtMasterStep → Peer Bool
  wait_for_nmt_master_step p =
      receive p.command &&& (if p.restore_heartbeat then configure_peer_heartbeat else return true)

  -- The initial path; `some` tells whether the formal START has been seen on it.
  enter_pre_operational : Bool → Peer (Option Bool)
  enter_pre_operational auto s =
      let (matched, t) = receive (if auto then enter_preop else start) s in
      (if matched then some (not auto) else none, t)

  -- Up to the formal START.
  reach_start : Bool → Peer Bool
  reach_start auto s =
      let (r, t) = enter_pre_operational auto s in
      elim r [
        | none ↦ (false, t)
        | some seen ↦ (if seen then return true else wait_for_nmt_master_step (expects start)) t
      ]

  fixture_normalized : Bool → Peer Bool
  fixture_normalized auto =
      if auto
      then (wait_for_nmt_master_step (expects start)
          &&& wait_for_nmt_master_step (expects enter_preop))
      else return true

  wait_for_formal_command_after_reset : NmtMasterStep → Bool → Peer Bool
  wait_for_formal_command_after_reset formal auto =
      fixture_normalized auto &&& wait_for_nmt_master_step formal

  final_window : Peer Bool
  final_window s =
      let (r, t) = wait_for_optional_nmt_command s in
      (r.0 && (elim r.1 [ none ↦ true | some _ ↦ false ]), t)

  confirm_heartbeat : Peer Bool
  confirm_heartbeat s = (holds_period (h.read_heartbeat s.step), tick s)

  keep_peer_alive_for_final_heartbeat : Peer Bool
  keep_peer_alive_for_final_heartbeat =
      configure_peer_heartbeat &&& final_window &&& confirm_heartbeat

  wait_for_final_start_after_reset : Bool → Peer Bool
  wait_for_final_start_after_reset auto =
      fixture_normalized auto
      &&& wait_for_nmt_master_step (expects start)
      &&& keep_peer_alive_for_final_heartbeat

  -- From the known startup contract to the last check.
  validate_sequence : Bool → Peer Bool
  validate_sequence auto =
      configure_peer_heartbeat
      &&& reach_start auto
      &&& wait_for_nmt_master_step (expects stop)
      &&& wait_for_nmt_master_step (expects enter_preop)
      &&& wait_for_nmt_master_step (expects reset_comm)
      &&& wait_for_nmt_master_step (completes enter_preop)
      &&& wait_for_formal_command_after_reset (expects reset_node) auto
      &&& wait_for_nmt_master_step (expects reset_comm)
      &&& wait_for_nmt_master_step (completes enter_preop)
      &&& wait_for_final_start_after_reset auto

  -- Between the registration of the observer and its removal.
  pub validate : Peer Bool
  validate s =
      let (auto, t) = peer_auto_starts_after_reset s in
      elim auto [ none ↦ (false, t) | some b ↦ validate_sequence b t ]

  pub nmt_master_process : Peer ℕ
  nmt_master_process = do
    register_observer
    passed ← validate
    unregister_observer
    return (if passed then 0 else 1)
