-- ===== src/NmtMaster/Process/Trace.antt =====
-- Which commands a passed NMT master validation has seen (src/nmt_master_process.cpp).
pub mod Sequence
use mathlib.Core.List.{append-nil, append_assoc}
use canopen_slave_tester.Prelude.{
  ℕ, zero, suc, ◌+◌, ◌-◌, ◌≤◌, ◌<◌, ◌≡◌, refl, sym, ap, ◌∙◌, ◌⊎◌, inl, inr, Bool, true, false, ◌&&◌,
  not, Option, none, some, List, [], ◌∷◌, ◌++◌, arith, if◌then◌else◌, length, Bool-cases, All, ltb,
  leb, ◌||◌,
}
use canopen_slave_tester.State.{◌&&&◌, return}
use canopen_slave_tester.Lely.{
  NmtCommand, start, stop, enter_preop, reset_node, reset_comm, command_eq, command_eq→≡,
}
use canopen_slave_tester.Waiting.{deliver, deliver-inv, wait_for, wait_for-inv, wait_for-pred}
use canopen_slave_tester.NmtMaster.{
  NmtCommandObserverState, nmt_command_callback, register_nmt_command_observer, deactivate, clear,
  has_news, pop, nmt_command_queue_capacity,
}
use canopen_slave_tester.NmtMaster.Queue.{ring, contents, IsRing, callback-contents, pop-contents}
use canopen_slave_tester.NmtMaster.Process.{
  PeerHost, PeerSession, Peer, NmtMasterStep, expects, completes, on_command, auto_starts, accepted,
  holds_period, acquire, register_observer, unregister_observer, configure_peer_heartbeat,
  peer_auto_starts_after_reset, wait_for_news, take_command, wait_for_nmt_command,
  wait_for_optional_nmt_command, receive, wait_for_nmt_master_step, enter_pre_operational,
  reach_start, fixture_normalized, wait_for_formal_command_after_reset, final_window,
  confirm_heartbeat, keep_peer_alive_for_final_heartbeat, wait_for_final_start_after_reset,
  validate_sequence, validate, nmt_master_process,
}

-- While the observer is active and has not overflowed, no command is lost: those received are those
-- consumed and those in the queue, in order.
pub record IsFaithful (s : PeerSession) : Type 0 where
  pub sound : IsRing s.observer
  pub active : s.observer.active ≡ true
  pub conserved : s.observer.overflow ≡ false → s.received ≡ s.consumed ++ contents s.observer

callback-cases :
    (c : NmtCommand) (o : NmtCommandObserverState)
    → IsRing o
    → o.active ≡ true
    → ((nmt_command_callback c o).overflow ≡ true)
      ⊎ ((nmt_command_callback c o).overflow ≡ o.overflow)
        × (contents (nmt_command_callback c o) ≡ contents o ++ c ∷ [])
unfolding nmt_command_callback
callback-cases c o r a = elim (Bool-cases (leb nmt_command_queue_capacity o.count)) [
  | inl full ↦ inl (ground arith)
  | inr room ↦ inr (ground arith, (callback-contents c o r).1 a (ground arith))
]

pub callback-active :
    (c : NmtCommand) (o : NmtCommandObserverState) → (nmt_command_callback c o).active ≡ o.active
unfolding nmt_command_callback
callback-active c o = ground arith

on_command-IsFaithful :
    (c : NmtCommand) (s : PeerSession) → IsFaithful s → IsFaithful (on_command c s)
on_command-IsFaithful c s f = record {
  sound = (callback-contents c s.observer f.sound).0;
  active = callback-active c s.observer ∙ f.active;
  conserved = λ e. elim (callback-cases c s.observer f.sound f.active) [
    | inl over ↦ cc
    | inr (same, app) ↦ ground (
      arith,
      app,
      f.conserved (sym same ∙ e),
      append_assoc s.consumed (contents s.observer) (c ∷ []),
    )
  ];
}

abbrev Any : NmtCommand → Type 0
Any c = Unit

All-Any : (cs : List NmtCommand) → All Any cs
All-Any [] = tt
All-Any (c ∷ cs) = (tt, All-Any cs)

All-All-Any : (bs : List (List NmtCommand)) → All (All Any) bs
All-All-Any [] = tt
All-All-Any (b ∷ bs) = (All-Any b, All-All-Any bs)

-- A step that the program takes by itself changes none of this.
tick-IsFaithful : {s : PeerSession} (n : ℕ) → IsFaithful s → IsFaithful (record s { step = n })
tick-IsFaithful n f = record { sound = f.sound; active = f.active; conserved = f.conserved }

consumed-deliver :
    (cs : List NmtCommand) (s : PeerSession) → (deliver on_command cs s).consumed ≡ s.consumed
consumed-deliver [] s = refl
consumed-deliver (c ∷ cs) s = consumed-deliver cs (on_command c s)

pop-active : (o : NmtCommandObserverState) → (pop o).1.active ≡ o.active
unfolding pop
pop-active o = refl

module _ (h : PeerHost) where
  acquire-IsFaithful : (s : PeerSession) → IsFaithful s → IsFaithful (acquire h s)
  unfolding acquire
  acquire-IsFaithful s f = tick-IsFaithful _ (
      deliver-inv on_command IsFaithful Any (λ c t _. on_command-IsFaithful c t) (h.before s.step) s
        (All-Any _) f)

  -- A wait keeps the commands; at its end there is news exactly if it says so.
  news-IsFaithful :
      (s : PeerSession)
      → IsFaithful s
      → IsFaithful (wait_for_news h s).1
        × (has_news (wait_for_news h s).1.observer ≡ (wait_for_news h s).0)
        × ((wait_for_news h s).1.consumed ≡ s.consumed)
  unfolding wait_for_news acquire
  news-IsFaithful s f =
      let t = acquire h s in
      (
        tick-IsFaithful _ (
            wait_for-inv on_command IsFaithful Any (λ c t _. on_command-IsFaithful c t)
              (λ (q : PeerSession). has_news q.observer) (h.during t.step) t (All-All-Any _)
              (acquire-IsFaithful s f)),
        wait_for-pred on_command (λ (q : PeerSession). has_news q.observer) (h.during t.step) t,
        wait_for-inv on_command (λ (q : PeerSession). q.consumed ≡ s.consumed) Any (λ c t _ e. e)
            (λ (q : PeerSession). has_news q.observer) (h.during t.step) t (All-All-Any _)
            (consumed-deliver (h.before s.step) s),
      )

  take-IsFaithful :
      (s : PeerSession)
      → IsFaithful s
      → s.observer.overflow ≡ false
      → 0 < s.observer.count
      → IsFaithful (take_command h s).1
        × ((take_command h s).1.consumed ≡ s.consumed ++ (take_command h s).0 ∷ [])
  unfolding take_command
  take-IsFaithful s f o b =
      let taken = pop-contents s.observer f.sound b in
      let kept =
        f.conserved o
        ∙ ap (λ (l : List NmtCommand). s.consumed ++ l) taken.0
        ∙ sym (append_assoc s.consumed ((pop s.observer).0 ∷ []) (contents (pop s.observer).1)) in
      (
        record {
          sound = taken.1;
          active = pop-active s.observer ∙ f.active;
          conserved = λ _. kept;
        },
        refl,
      )

  -- What `receive c` does: a passed call has consumed `c` and nothing else.
  abbrev Consumes : Peer Bool → List NmtCommand → (PeerSession → Type 0) → Type 0
  Consumes m cs R =
      (s : PeerSession)
      → IsFaithful s
      → IsFaithful (m s).1 × ((m s).0 ≡ true → ((m s).1.consumed ≡ s.consumed ++ cs) × R (m s).1)

  receive-Consumes : (c : NmtCommand) → Consumes (receive h c) (c ∷ []) (λ _. Unit)
  unfolding receive wait_for_nmt_command
  receive-Consumes c s f = ground (
    arith,
    news-IsFaithful s f,
    take-IsFaithful (wait_for_news h s).1,
    command_eq→≡ (take_command h (wait_for_news h s).1).0 c,
  )

  -- Passed calls in a row consume their commands in a row.
  then-Consumes :
      (m k : Peer Bool) (cs ds : List NmtCommand) (R : PeerSession → Type 0)
      → Consumes m cs (λ _. Unit)
      → Consumes k ds R
      → Consumes (m &&& k) (cs ++ ds) R
  then-Consumes m k cs ds R p q s f = elim (Bool-cases (m s).0) [
    | inl passed ↦
        let first = p s f in
        let second = q (m s).1 first.0 in
        let joined : ((k (m s).1).0 ≡ true)
            → ((k (m s).1).1.consumed ≡ s.consumed ++ (cs ++ ds)) × R (k (m s).1).1 =
          λ e. (
            (second.1 e).0
                ∙ ap (λ (l : List NmtCommand). l ++ ds) (first.1 passed).0
                ∙ append_assoc s.consumed cs ds,
            (second.1 e).1,
          ) in
        rw passed (second.0, joined)
    | inr stopped ↦ rw stopped ((p s f).0, λ e. cc)
  ]

  -- A check that takes no command.
  Idle-Consumes :
      (m : Peer Bool)
      → ((s : PeerSession) → IsFaithful s → IsFaithful (m s).1 × ((m s).1.consumed ≡ s.consumed))
      → Consumes m [] (λ _. Unit)
  Idle-Consumes m idle s f = let p = idle s f in (p.0, λ e. (p.1 ∙ sym (append-nil s.consumed), tt))

  return-Consumes : (b : Bool) → Consumes (return b) [] (λ _. Unit)
  return-Consumes b = Idle-Consumes (return b) (λ s f. (f, refl))

  configure-Consumes : Consumes (configure_peer_heartbeat h) [] (λ _. Unit)
  unfolding configure_peer_heartbeat
  configure-Consumes =
      Idle-Consumes (configure_peer_heartbeat h) (λ s f. (tick-IsFaithful _ f, refl))

  step-Consumes :
      (p : NmtMasterStep) → Consumes (wait_for_nmt_master_step h p) (p.command ∷ []) (λ _. Unit)
  unfolding wait_for_nmt_master_step
  step-Consumes p = rw (← append-nil (p.command ∷ [])) (
      then-Consumes (receive h p.command) _ (p.command ∷ []) [] (λ _. Unit)
        (receive-Consumes p.command) (after p.restore_heartbeat))
    where
      after :
          (b : Bool)
          → Consumes (if b then configure_peer_heartbeat h else return true) [] (λ _. Unit)
      after true = configure-Consumes
      after false = return-Consumes true
