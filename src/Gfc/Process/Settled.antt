-- ===== src/Gfc/Process/Settled.antt =====
-- When the GFC validation's cleanup enables the device again (src/gfc_process.cpp).
use canopen_slave_tester.Prelude.{
  zero, suc, refl, ℕ, ◌≡◌, ◌⊎◌, inl, inr, ◌&&◌, Option, none, some, List, [], ◌∷◌, arith, ◌==◌,
  if◌then◌else◌, Option-cases,
}
use canopen_slave_tester.Host.{
  pause, Host, Session, Action, sdo_read, sdo_write, local_write, command, sent, success,
}
use canopen_slave_tester.Host.Log.{newest_remote, reads}
use canopen_slave_tester.Sdo.{read_remote_sdo, write_remote_sdo}
use canopen_slave_tester.Gfc.{
  diagnostic_poll_interval_ms, gfc_parameter_index, gfc_diagnostic_index,
  gfc_producer_request_subindex, gfc_producer_complete_subindex,
}
use canopen_slave_tester.Gfc.Remote.{
  read_remote, write_remote, confirmed_result, poll_completion, wait_for_producer_completion,
}
use canopen_slave_tester.Gfc.Process.{
  write_gfc_parameter, settle_request, settle_pending_producer, restore_parameter,
}

-- The value of the newest write to an object, accepted or not.
abbrev pub newest_written : ℕ → ℕ → List Action → Option ℕ
newest_written i j [] = none
newest_written i j (sdo_write index subindex value result ∷ acts) =
    let rest = newest_written i j acts in if index == i && subindex == j then some value else rest
newest_written i j (sdo_read _ _ _ _ ∷ acts) = newest_written i j acts
newest_written i j (local_write _ _ _ _ ∷ acts) = newest_written i j acts
newest_written i j (command _ _ _ ∷ acts) = newest_written i j acts
newest_written i j (sent _ _ ∷ acts) = newest_written i j acts

-- Both sequence numbers of the producer were read last with the same value.
abbrev pub IsSettled : Session → Type 0
IsSettled s =
    (q : ℕ) × (newest_remote gfc_diagnostic_index gfc_producer_request_subindex s.log
      ≡ some (reads q success))
    × (newest_remote gfc_diagnostic_index gfc_producer_complete_subindex s.log
        ≡ some (reads q success))

module _ (h : Host) where
  confirmed-written :
      (request_seq : ℕ) (s : Session)
      → newest_written gfc_parameter_index 0 (confirmed_result h request_seq s).1.log
        ≡ newest_written gfc_parameter_index 0 s.log
  unfolding confirmed_result read_remote read_remote_sdo
  confirmed-written request_seq s = ground arith

  poll_completion-written :
      (n request_seq deadline : ℕ) (s : Session)
      → newest_written gfc_parameter_index 0 (poll_completion h n request_seq deadline s).1.log
        ≡ newest_written gfc_parameter_index 0 s.log
  unfolding poll_completion read_remote read_remote_sdo
  poll_completion-written zero request_seq deadline s = refl
  poll_completion-written (suc n) request_seq deadline s =
      let t = (read_remote h 32 gfc_diagnostic_index gfc_producer_complete_subindex s).1 in
      let u = pause diagnostic_poll_interval_ms t in
      ground
        (arith, confirmed-written request_seq t, poll_completion-written n request_seq deadline u)

  settle-written :
      (s : Session)
      → newest_written gfc_parameter_index 0 (settle_pending_producer h s).1.log ≡ some 0
  unfolding settle_pending_producer settle_request wait_for_producer_completion read_remote
      read_remote_sdo write_remote write_remote_sdo
  settle-written s = grind (arith, poll_completion-written)

  settle_request-read :
      (request_seq : ℕ) (s : Session)
      → (settle_request h request_seq s).0 ≡ some tt
      → (newest_remote gfc_diagnostic_index gfc_producer_request_subindex
            (settle_request h request_seq s).1.log
          ≡ some (reads request_seq success))
        × (newest_remote gfc_diagnostic_index gfc_producer_complete_subindex
              (settle_request h request_seq s).1.log
            ≡ some (reads request_seq success))
  unfolding settle_request read_remote read_remote_sdo
  settle_request-read request_seq s e = ground (arith, e)

  settle-IsSettled :
      (s : Session)
      → (settle_pending_producer h s).0 ≡ some tt
      → IsSettled (settle_pending_producer h s).1
  unfolding settle_pending_producer read_remote read_remote_sdo
  settle-IsSettled s e =
      let t = (write_gfc_parameter h 0 s).1 in
      let u = read_remote h 32 gfc_diagnostic_index gfc_producer_request_subindex t in
      let v = read_remote h 32 gfc_diagnostic_index gfc_producer_complete_subindex u.1 in
      elim (Option-cases u.0) [
        | inl q ↦ absurd (ground (arith, e, q))
        | inr (request_seq, q) ↦
            let pending = settle_request-read request_seq v.1 in
            (request_seq, ground (arith, e, q, pending), ground (arith, e, q, pending))
      ]

  -- The restoration of 0x1300 in the cleanup: either its newest write to 0x1300 is still the zero that
  -- disables the device, or it has seen the producer with no request pending before it wrote the
  -- original value.
  pub restore_parameter-safe :
      (original : ℕ) (s : Session)
      → (newest_written gfc_parameter_index 0 (restore_parameter h original s).1.log ≡ some 0)
        ⊎ IsSettled (settle_pending_producer h s).1
  unfolding restore_parameter
  restore_parameter-safe original s = elim (Option-cases (settle_pending_producer h s).0) [
    | inl q ↦ inl (ground (arith, q, settle-written s))
    | inr (_, q) ↦ inr (settle-IsSettled s q)
  ]
