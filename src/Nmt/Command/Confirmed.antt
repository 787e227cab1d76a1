-- ===== src/Nmt/Command/Confirmed.antt =====
-- What a confirmed NMT command has seen (src/canopen_nmt.cpp).
use canopen_slave_tester.Prelude.{
  ℕ, ◌+◌, ◌<◌, ◌≡◌, refl, ◌⊎◌, inl, inr, ◌∙◌, ap, sym, Bool, true, false, Option, none, some, arith,
  ltb→lt, Bool-cases,
}
use canopen_slave_tester.Lely.{NmtCommand, NmtState, state_eq→≡}
use canopen_slave_tester.Waiting.{wait_for-pred}
use canopen_slave_tester.Nmt.{is_unconfirmable, observation}
use canopen_slave_tester.Host.{Host, Session, acquire, wait_until, on_callback, next}
use canopen_slave_tester.Nmt.Command.{
  issue_nmt_command, is_state, read_managed_is, is_fresh, wait_for_state, issue_and_confirm,
  issue_nmt_command_and_wait_for_state,
}

module _ (h : Host) where
  is_state-some :
      (expected : NmtState) (o : Option NmtState) → is_state h expected o ≡ true → o ≡ some expected
  is_state-some expected none e = ground (arith, e)
  is_state-some expected (some t) e = ap some (state_eq→≡ t expected e)

  -- A wait that succeeds ends in a session that holds a fresh observation of the expected state.
  wait_for_state-fresh :
      (node : ℕ) (expected : NmtState) (baseline : ℕ) (s : Session)
      → (wait_for_state h node expected baseline s).0 ≡ true
      → is_fresh h node expected baseline (wait_for_state h node expected baseline s).1 ≡ true
  unfolding wait_for_state wait_until
  wait_for_state-fresh node expected baseline s e =
      wait_for-pred on_callback (is_fresh h node expected baseline) (h.during (acquire h s).step)
        (acquire h s)
      ∙ e

  -- The evidence for the expected state that a confirmed command has: the managed state of Lely,
  -- read before and after the command, or an observation newer than the command.
  unfoldable pub IsEvidence :
      ℕ → NmtState → (before after : Option NmtState) → (baseline : ℕ) → Session → Type 0
  IsEvidence node expected before after baseline s =
      ((before ≡ some expected) × (after ≡ some expected))
      ⊎ (((observation node s.nmt).state ≡ expected)
          × (baseline < (observation node s.nmt).generation))

  is_fresh-IsEvidence :
      (node : ℕ) (expected : NmtState) (before after : Option NmtState) (baseline : ℕ) (s : Session)
      → is_fresh h node expected baseline s ≡ true
      → IsEvidence node expected before after baseline s
  unfolding IsEvidence
  is_fresh-IsEvidence node expected before after baseline s e = inr (
    state_eq→≡ (observation node s.nmt).state expected (ground (arith, e)),
    ltb→lt baseline (observation node s.nmt).generation (ground (arith, e)),
  )

  waited-IsEvidence :
      (node : ℕ) (expected : NmtState) (before after : Option NmtState) (baseline : ℕ) (t : Session)
      (r : Bool × Session)
      → r ≡ wait_for_state h node expected baseline t
      → r.0 ≡ true
      → IsEvidence node expected before after baseline r.1
  waited-IsEvidence node expected before after baseline t r same e = rw same (
      is_fresh-IsEvidence node expected before after baseline _ (
        wait_for_state-fresh node expected baseline t
          (ap (λ (q : Bool × Session). q.0) (sym same) ∙ e)))

  issue_and_confirm-IsEvidence :
      (c : NmtCommand) (node : ℕ) (expected : NmtState) (before : Option NmtState) (s : Session)
      → (issue_and_confirm h c node expected (is_state h expected before) s).0 ≡ true
      → (h.command_accepted s.step ≡ true)
        × IsEvidence node expected before
            (h.managed_state (s.step + 1))
            (observation node s.nmt).generation
            (issue_and_confirm h c node expected (is_state h expected before) s).1
  unfolding issue_and_confirm issue_nmt_command read_managed_is IsEvidence
  issue_and_confirm-IsEvidence c node expected before s e =
      let b = (observation node s.nmt).generation in
      let s1 = (issue_nmt_command h c node s).1 in
      let s2 = next s1 in
      let after = h.managed_state (s.step + 1) in
      let r = issue_and_confirm h c node expected (is_state h expected before) s in
      elim (Bool-cases (h.command_accepted s.step)) [
        | inr refused ↦ absurd (ground (arith, e, refused))
        | inl accepted ↦ elim (Bool-cases (is_state h expected before)) [
          | inr other ↦
              let same : r ≡ wait_for_state h node expected b s1 = rw (accepted, other) refl in
              (accepted, waited-IsEvidence node expected before after b s1 r same e)
          | inl already ↦ elim (Bool-cases (is_state h expected after)) [
            | inl still ↦ (
              accepted,
              inl (is_state-some expected before already, is_state-some expected after still),
            )
            | inr changed ↦
                let same : r ≡ wait_for_state h node expected b s2 =
                  rw (accepted, already, changed) refl in
                (accepted, waited-IsEvidence node expected before after b s2 r same e)
          ]
        ]
      ]

  -- If the confirmed command succeeds, then the node is one of 1 to 127, this master owns the state
  -- callback, Lely has accepted the command, and there is evidence for the expected state: either
  -- Lely's managed state was the expected one before the command and again after it, or the table
  -- ends with the expected state at a generation above the one at the command.
  pub issue_nmt_command_and_wait_for_state-IsEvidence :
      (c : NmtCommand) (node : ℕ) (expected : NmtState) (s : Session)
      → (issue_nmt_command_and_wait_for_state h c node expected s).0 ≡ true
      → let t = acquire h (next s) in
        (is_unconfirmable node ≡ false)
        × (t.nmt.registered ≡ true)
        × (h.command_accepted t.step ≡ true)
        × IsEvidence node expected
            (h.managed_state s.step)
            (h.managed_state (t.step + 1))
            (observation node t.nmt).generation
            (issue_nmt_command_and_wait_for_state h c node expected s).1
  unfolding issue_nmt_command_and_wait_for_state read_managed_is
  issue_nmt_command_and_wait_for_state-IsEvidence c node expected s e =
      let t = acquire h (next s) in
      let before = h.managed_state s.step in
      elim (Bool-cases (is_unconfirmable node)) [
        | inl bad ↦ absurd (ground (arith, e, bad))
        | inr good ↦ elim (Bool-cases t.nmt.registered) [
          | inr missing ↦ absurd (ground (arith, e, good, missing))
          | inl registered ↦
              let same : issue_nmt_command_and_wait_for_state h c node expected s
                  ≡ issue_and_confirm h c node expected (is_state h expected before) t =
                ground (arith, good, registered) in
              let (accepted, evidence) =
                issue_and_confirm-IsEvidence c node expected before t
                  (ap (λ (q : Bool × Session). q.0) (sym same) ∙ e) in
              (good, registered, accepted, rw same evidence)
        ]
      ]
