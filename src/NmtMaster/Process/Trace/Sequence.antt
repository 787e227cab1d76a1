-- ===== src/NmtMaster/Process/Trace/Sequence.antt =====
-- The command sequence of a passed NMT master validation (src/nmt_master_process.cpp).
use mathlib.Core.List.{append-nil, append_assoc}
use canopen_slave_tester.Prelude.{
  ◌+◌, ◌≡◌, refl, sym, ap, ◌∙◌, inl, inr, Bool, true, false, some, List, [], ◌∷◌, ◌++◌, arith,
  Bool-cases, Option-cases,
}
use canopen_slave_tester.State.{◌&&&◌}
use canopen_slave_tester.Lely.{NmtCommand, start, stop, enter_preop, reset_node, reset_comm}
use canopen_slave_tester.Waiting.{deliver}
use canopen_slave_tester.NmtMaster.{register_nmt_command_observer}
use canopen_slave_tester.NmtMaster.Queue.{IsRing, callback-contents}
use canopen_slave_tester.NmtMaster.Process.{
  PeerHost, PeerSession, Peer, NmtMasterStep, expects, completes, on_command, auto_starts, acquire,
  register_observer, unregister_observer, configure_peer_heartbeat, peer_auto_starts_after_reset,
  wait_for_news, wait_for_optional_nmt_command, receive, wait_for_nmt_master_step,
  enter_pre_operational, reach_start, fixture_normalized, wait_for_formal_command_after_reset,
  final_window, confirm_heartbeat, keep_peer_alive_for_final_heartbeat,
  wait_for_final_start_after_reset, validate_sequence, validate, nmt_master_process,
}
use canopen_slave_tester.NmtMaster.Process.Trace.{
  callback-active, IsFaithful, tick-IsFaithful, news-IsFaithful, take-IsFaithful, Consumes,
  receive-Consumes, then-Consumes, return-Consumes, configure-Consumes, step-Consumes,
}

-- The commands of a passed validation: the six formal ones with the reset completions, and, where
-- the peer starts by itself, the normalisations in between.
abbrev pub formal_sequence : Bool → List NmtCommand
formal_sequence true =
    enter_preop ∷ start ∷ stop ∷ enter_preop ∷ reset_comm ∷ enter_preop ∷ start ∷ enter_preop
    ∷ reset_node ∷ reset_comm ∷ enter_preop ∷ start ∷ enter_preop ∷ start ∷ []
formal_sequence false =
    start ∷ stop ∷ enter_preop ∷ reset_comm ∷ enter_preop ∷ reset_node ∷ reset_comm ∷ enter_preop
    ∷ start ∷ []

module _ (h : PeerHost) where
  abbrev fixture : Bool → List NmtCommand
  fixture true = start ∷ enter_preop ∷ []
  fixture false = []

  abbrev opening : Bool → List NmtCommand
  opening true = enter_preop ∷ start ∷ []
  opening false = start ∷ []

  fixture-Consumes : (b : Bool) → Consumes h (fixture_normalized h b) (fixture b) (λ _. Unit)
  unfolding fixture_normalized
  fixture-Consumes true =
      then-Consumes h _ _ (start ∷ []) (enter_preop ∷ []) (λ _. Unit)
        (step-Consumes h (expects start)) (step-Consumes h (expects enter_preop))
  fixture-Consumes false = return-Consumes h true

  opening-Consumes : (b : Bool) → Consumes h (reach_start h b) (opening b) (λ _. Unit)
  unfolding reach_start enter_pre_operational
  opening-Consumes true s f = ground (
    arith,
    receive-Consumes h enter_preop s f,
    step-Consumes h (expects start) (receive h enter_preop s).1,
    append_assoc s.consumed (enter_preop ∷ []) (start ∷ []),
  )
  opening-Consumes false s f = ground (arith, receive-Consumes h start s f)

  formal-Consumes :
      (p : NmtMasterStep) (b : Bool)
      → Consumes h
          (wait_for_formal_command_after_reset h p b)
          (fixture b ++ p.command ∷ [])
          (λ _. Unit)
  unfolding wait_for_formal_command_after_reset
  formal-Consumes p b =
      then-Consumes h (fixture_normalized h b) _ (fixture b) _ (λ _. Unit) (fixture-Consumes b)
        (step-Consumes h p)

  -- Nothing is left in the queue.
  abbrev IsQuiet : PeerSession → Type 0
  IsQuiet s = (s.observer.count ≡ 0) × (s.observer.overflow ≡ false)

  window-Consumes : Consumes h (final_window h) [] IsQuiet
  unfolding final_window wait_for_optional_nmt_command
  window-Consumes s f =
      ground (
        arith,
        news-IsFaithful h s f,
        take-IsFaithful h (wait_for_news h s).1,
        append-nil s.consumed,
      )

  confirm-Consumes :
      (cs : List NmtCommand) (m : Peer Bool)
      → Consumes h m cs IsQuiet
      → Consumes h (m &&& confirm_heartbeat h) cs IsQuiet
  unfolding confirm_heartbeat
  confirm-Consumes cs m p s f = elim (Bool-cases (m s).0) [
    | inl passed ↦ let q = p s f in rw passed (tick-IsFaithful _ q.0, λ e. q.1 passed)
    | inr stopped ↦ rw stopped ((p s f).0, λ e. cc)
  ]

  keep_alive-Consumes : Consumes h (keep_peer_alive_for_final_heartbeat h) [] IsQuiet
  unfolding keep_peer_alive_for_final_heartbeat
  keep_alive-Consumes =
      then-Consumes h (configure_peer_heartbeat h) _ [] [] IsQuiet (configure-Consumes h)
        (confirm-Consumes [] (final_window h) window-Consumes)

  final-Consumes :
      (b : Bool)
      → Consumes h (wait_for_final_start_after_reset h b) (fixture b ++ (start ∷ [])) IsQuiet
  unfolding wait_for_final_start_after_reset
  final-Consumes b =
      then-Consumes h (fixture_normalized h b) _ (fixture b) _ IsQuiet (fixture-Consumes b) (
        then-Consumes h (wait_for_nmt_master_step h (expects start)) _ (start ∷ []) [] IsQuiet
          (step-Consumes h (expects start)) keep_alive-Consumes)

  next_step :
      (p : NmtMasterStep) (k : Peer Bool) (ds : List NmtCommand)
      → Consumes h k ds IsQuiet
      → Consumes h (wait_for_nmt_master_step h p &&& k) (p.command ∷ ds) IsQuiet
  next_step p k ds q =
      then-Consumes h (wait_for_nmt_master_step h p) k (p.command ∷ []) ds IsQuiet
        (step-Consumes h p) q

  abbrev ending : Bool → List NmtCommand
  ending b =
      (fixture b ++ reset_node ∷ []) ++ (reset_comm ∷ enter_preop ∷ (fixture b ++ start ∷ []))

  ending-Consumes :
      (b : Bool)
      → Consumes h
          (wait_for_formal_command_after_reset h (expects reset_node) b
            &&& wait_for_nmt_master_step h (expects reset_comm)
            &&& wait_for_nmt_master_step h (completes enter_preop)
            &&& wait_for_final_start_after_reset h b)
          (ending b)
          IsQuiet
  ending-Consumes b =
      then-Consumes h (wait_for_formal_command_after_reset h (expects reset_node) b) _ _ _ IsQuiet
        (formal-Consumes (expects reset_node) b)
        (next_step (expects reset_comm) _ _
          (next_step (completes enter_preop) _ _ (final-Consumes b)))

  sequence-Consumes :
      (b : Bool)
      → Consumes h
          (validate_sequence h b)
          (opening b ++ (stop ∷ enter_preop ∷ reset_comm ∷ enter_preop ∷ ending b))
          IsQuiet
  unfolding validate_sequence
  sequence-Consumes b =
      then-Consumes h (configure_peer_heartbeat h) _ [] _ IsQuiet (configure-Consumes h) (
        then-Consumes h (reach_start h b) _ (opening b) _ IsQuiet (opening-Consumes b) (
          next_step (expects stop) _ _ (
            next_step (expects enter_preop) _ _ (
              next_step (expects reset_comm) _ _
                (next_step (completes enter_preop) _ _ (ending-Consumes b))))))

  opening-ending :
      (b : Bool)
      → opening b ++ (stop ∷ enter_preop ∷ reset_comm ∷ enter_preop ∷ ending b) ≡ formal_sequence b
  opening-ending true = refl
  opening-ending false = refl

  -- Of a passed sequence, what was received is the formal sequence.
  sequence_received :
      (b : Bool) (s : PeerSession)
      → IsFaithful s
      → s.consumed ≡ []
      → (validate_sequence h b s).0 ≡ true
      → (validate_sequence h b s).1.received ≡ formal_sequence b
  sequence_received b s f n e =
      let p = sequence-Consumes b s f in
      let (all, (empty, calm)) = p.1 e in ground (arith, p.0.conserved calm, all, opening-ending b)

-- What the process finds when it starts: an observer that is not active, and no command yet.
pub record IsIdle (s : PeerSession) : Type 0 where
  pub ring : IsRing s.observer
  pub inactive : s.observer.active ≡ false
  pub none_received : s.received ≡ []
  pub none_consumed : s.consumed ≡ []

deliver_inactive :
    (cs : List NmtCommand) (s : PeerSession)
    → IsRing s.observer
    → s.observer.active ≡ false
    → deliver on_command cs s ≡ s
deliver_inactive [] s r a = refl
deliver_inactive (c ∷ cs) s r a =
    let quiet = (callback-contents c s.observer r).3 a in
    let same : on_command c s ≡ s = ground (arith, quiet) in
    ap (deliver on_command cs) same ∙ deliver_inactive cs s r a

received-deliver :
    (cs : List NmtCommand) (s : PeerSession)
    → s.observer.active ≡ true
    → (deliver on_command cs s).received ≡ s.received ++ cs
received-deliver [] s a = sym (append-nil s.received)
received-deliver (c ∷ cs) s a =
    let rest = received-deliver cs (on_command c s) (callback-active c s.observer ∙ a) in
    ground (arith, rest, append_assoc s.received (c ∷ []) cs)

module _ (h : PeerHost) where
  register-IsFaithful :
      (s : PeerSession)
      → IsIdle s
      → IsFaithful (register_observer h s).1
        × ((register_observer h s).1.consumed ≡ [])
        × ((register_observer h s).1.step ≡ s.step + 1)
  unfolding register_observer acquire register_nmt_command_observer
  register-IsFaithful s i =
      rw (deliver_inactive (h.before s.step) s i.ring i.inactive)
        (record { sound = ring; active = refl; conserved = λ e. nothing }, i.none_consumed, refl)
    where
      ring : IsRing (register_nmt_command_observer s.observer)
      ring = ground (arith, i.ring)

      nothing : s.received ≡ s.consumed ++ []
      nothing = ground (arith, i.none_received, i.none_consumed)

  -- A passed validation from a faithful session: its startup contract, and what was received.
  abbrev Passed : PeerSession → Type 0
  Passed t =
      let u = (validate h t).1 in
      (b : Bool) × (auto_starts (h.read_startup t.step) ≡ some b)
      × (u.received ≡ formal_sequence b)
      × (u.observer.active ≡ true)

  validate-Passed :
      (t : PeerSession) → IsFaithful t → t.consumed ≡ [] → (validate h t).0 ≡ true → Passed t
  unfolding validate peer_auto_starts_after_reset
  validate-Passed t f n e = elim (Option-cases (auto_starts (h.read_startup t.step))) [
    | inl failed ↦ let stopped = rw (failed, validate) at e in cc
    | inr (b, known) ↦
        let v = record t { step = t.step + 1 } in
        let ok : (validate_sequence h b v).0 ≡ true = ground (arith, e, known) in
        (
          b,
          known,
          ground (arith, known, sequence_received h b v (tick-IsFaithful _ f) n ok),
          ground (arith, known, (sequence-Consumes h b v (tick-IsFaithful _ f)).0.active),
        )
  ]

  -- If the validation returns zero, then from the activation of the observer up to the end of the
  -- final window the device under test has made Lely report exactly the formal command sequence of
  -- the peer's startup contract, no command more and none less; the commands that the observer
  -- received after that came before it was deactivated.
  pub nmt_master_process-sequence :
      (s : PeerSession)
      → IsIdle s
      → (nmt_master_process h s).0 ≡ 0
      → let u = (validate h (register_observer h s).1).1 in
        (b : Bool) × (auto_starts (h.read_startup (s.step + 1)) ≡ some b)
        × (u.received ≡ formal_sequence b)
        × ((nmt_master_process h s).1.received ≡ u.received ++ h.before u.step)
  unfolding nmt_master_process unregister_observer acquire
  nmt_master_process-sequence s i e =
      let (f, n, k) = register-IsFaithful s i in
      let t = (register_observer h s).1 in
      let (b, known, seen, active) = validate-Passed t f n (ground (arith, e)) in
      let late = received-deliver (h.before (validate h t).1.step) (validate h t).1 active in
      (b, ground (arith, known, k), seen, late)
