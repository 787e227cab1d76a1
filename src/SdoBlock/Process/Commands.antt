-- ===== src/SdoBlock/Process/Commands.antt =====
-- The NMT commands of the block-transfer validation, and the request that it cancels
-- (src/sdo_block_process.cpp): what they leave of the channel.
use canopen_slave_tester.Prelude.{
  ℕ, ◌≡◌, refl, inl, inr, ap, ◌∙◌, true, false, Option, none, some, List, ◌∷◌, arith, if◌then◌else◌,
}
use canopen_slave_tester.Lely.{NmtCommand, NmtState, Outcome, stop, stopped, enter_preop, preop}
use canopen_slave_tester.Emcy.{is_some}
use canopen_slave_tester.Attempt.{Attempt, ◌>>=◌, ◌>>◌, require, lift}
use canopen_slave_tester.Attempt.Guards.{Ends, Guards-then, Guards-require, guard_rules}
use canopen_slave_tester.SdoBlock.{
  BlockHost, BlockSession, cancelled_download, confirm, cancel_request,
}
use canopen_slave_tester.SdoBlock.Process.{
  abort_error, block_object_index, stop_node, restore_pre_operational, stop_for_barrier,
  synchronize_sdo_server_after_abort, submit_block_write,
}
use canopen_slave_tester.SdoBlock.Process.Accesses.{
  all_settled, older, IsGood, IsCoherent, weaken, Guarded,
}

-- NMT commands and the flag of the node leave the channel and the accesses alone.
abbrev pub SameChannel : BlockSession → BlockSession → Type 0
SameChannel s t = (t.channel_known ≡ s.channel_known) × (t.accesses ≡ s.accesses)

pub same-IsGood : (s t : BlockSession) → SameChannel s t → IsGood s → IsGood t
same-IsGood s t same g = (same.0 ∙ g.0, ap all_settled same.1 ∙ g.1)

pub same-IsCoherent : (s t : BlockSession) → SameChannel s t → IsCoherent s → IsCoherent t
same-IsCoherent s t same c = (
  (elim c.0 [ inl f ↦ inl (same.0 ∙ f) | inr g ↦ inr (ap all_settled same.1 ∙ g) ]),
  ap (λ as'. all_settled (older as')) same.1 ∙ c.1,
)

pub same_end :
    (s : BlockSession) (r : Option (Unit {0}) × BlockSession)
    → SameChannel s r.1
    → IsGood s
    → Ends IsGood IsCoherent r
same_end s (none, t) same g = weaken t (same-IsGood s t same g)
same_end s (some a, t) same g = same-IsGood s t same g

-- A barrier that is not confirmed leaves the channel unknown.
pub barrier_end :
    (s : BlockSession) (r : Option (Unit {0}) × BlockSession)
    → SameChannel s r.1
    → IsGood s
    → Ends IsGood IsCoherent (
      r.0,
      if is_some r.0
          then record (r.1) { node_stopped = true }
          else record (r.1) { channel_known = false },
    )
barrier_end s (none, t) same g = (inl refl, (weaken t (same-IsGood s t same g)).1)
barrier_end s (some a, t) same g = same-IsGood s t same g

module _ (h : BlockHost) where
  pub confirm-SameChannel :
      (c : NmtCommand) (expected : NmtState) (s : BlockSession)
      → SameChannel s (confirm h c expected s).1
  unfolding confirm
  confirm-SameChannel c expected s = ground arith

  pub stop_node-SameChannel : (s : BlockSession) → SameChannel s (stop_node h s).1
  unfolding stop_node
  stop_node-SameChannel s = ground (arith, confirm-SameChannel stop stopped s)

  pub restore-SameChannel : (s : BlockSession) → SameChannel s (restore_pre_operational h s).1
  unfolding restore_pre_operational
  restore-SameChannel s = ground (arith, confirm-SameChannel enter_preop preop s)

  pub Guards-stop_node : Guarded (stop_node h)
  Guards-stop_node = record { at = λ s g. same_end s (stop_node h s) (stop_node-SameChannel s) g }

  pub Guards-restore : Guarded (restore_pre_operational h)
  Guards-restore = record {
    at = λ s g. same_end s (restore_pre_operational h s) (restore-SameChannel s) g;
  }

  pub Guards-submit : Guarded (submit_block_write h)
  unfolding submit_block_write
  Guards-submit = record { at = λ s g. same_end s (submit_block_write h s) (ground arith) g }

  pub Guards-barrier : Guarded (stop_for_barrier h)
  unfolding stop_for_barrier
  Guards-barrier = record {
    at = λ s g. barrier_end s (confirm h stop stopped s) (confirm-SameChannel stop stopped s) g;
  }

  pub Guards-synchronize : Guarded (synchronize_sdo_server_after_abort h)
  unfolding synchronize_sdo_server_after_abort
  Guards-synchronize = search (guard_rules, Guards-barrier, Guards-restore) depth 30

  -- A request that is cancelled, and what follows if its error is the one of the cancellation.
  pub cancelled_then :
      (index subindex : ℕ) (payload : List ℕ) (seen : Option Outcome) (s t : BlockSession)
      (k : Attempt BlockSession (Unit {0}))
      → t.accesses ≡ cancelled_download index subindex payload (is_some seen) ∷ s.accesses
      → t.channel_known ≡ (if is_some seen then s.channel_known else false)
      → Guarded k
      → IsGood s
      → Ends IsGood IsCoherent ((require (abort_error h seen) >> k) t)
  cancelled_then index subindex payload none s t k same known kk g =
      (inl known, ap (λ as'. all_settled (older as')) same ∙ g.1)
  cancelled_then index subindex payload (some e) s t k same known kk g =
      let good : IsGood t = (known ∙ g.0, ap all_settled same ∙ g.1) in
      (Guards-then (require (abort_error h (some e))) k
          (Guards-require weaken (abort_error h (some e))) kk).at
        t good

  pub Guards-cancel :
      (payload : List ℕ) (k : Attempt BlockSession (Unit {0}))
      → Guarded k
      → Guarded (do
        seen ← lift (cancel_request h block_object_index 0 payload)
        require (abort_error h seen)
        k)
  unfolding cancel_request
  Guards-cancel payload k kk = record {
    at = λ s g.
        let r = cancel_request h block_object_index 0 payload s in
        cancelled_then block_object_index 0 payload r.0 s r.1 k refl refl kk g;
  }
