-- ===== src/Gfc/Remote/Counted.antt =====
-- The frames that the GFC validation sends, and the callbacks that it counts (src/gfc_process.cpp).
use canopen_slave_tester.Prelude.{
  ℕ, zero, suc, ◌+◌, ◌≤◌, ◌≡◌, refl, true, false, some, List, [], ◌∷◌, ◌++◌, arith, ap, ltb,
  replicate, Bool-cases, inl, inr,
}
use canopen_slave_tester.Host.{
  Host, Session, Action, CanMessage, sdo_read, sdo_write, local_write, command, sent, success, now,
  pause,
}
use canopen_slave_tester.Sdo.{read_remote_sdo, write_remote_sdo}
use canopen_slave_tester.Gfc.{
  gfc_diagnostic_index, gfc_rx_count_subindex, gfc_frame, incremented, milliseconds,
  diagnostic_poll_interval_ms, send,
}
use canopen_slave_tester.Gfc.Remote.{
  read_remote, write_remote, require_invalid_gfc_parameter_rejected, poll_rx_increment,
  wait_for_rx_increment, poll_rx_unchanged, require_rx_unchanged, send_and_validate_consumer,
}

-- The CAN frames that the channel has taken, newest first.
abbrev pub sent_frames : List Action → List CanMessage
sent_frames [] = []
sent_frames (sent message true ∷ acts) = message ∷ sent_frames acts
sent_frames (sent message false ∷ acts) = sent_frames acts
sent_frames (sdo_read _ _ _ _ ∷ acts) = sent_frames acts
sent_frames (sdo_write _ _ _ _ ∷ acts) = sent_frames acts
sent_frames (local_write _ _ _ _ ∷ acts) = sent_frames acts
sent_frames (command _ _ _ ∷ acts) = sent_frames acts

pub replicate-cons {ℓ} :
    {A : Type ℓ} (n : ℕ) (a : A) (acts : List A)
    → replicate n a ++ (a ∷ acts) ≡ a ∷ (replicate n a ++ acts)
replicate-cons zero a acts = refl
replicate-cons (suc n) a acts = ap (λ l. a ∷ l) (replicate-cons n a acts)

module _ (h : Host) where
  pub read_remote-sent :
      (width index subindex : ℕ) (s : Session)
      → sent_frames (read_remote h width index subindex s).1.log ≡ sent_frames s.log
  unfolding read_remote read_remote_sdo
  read_remote-sent width index subindex s = refl

  pub write_remote-sent :
      (index subindex value : ℕ) (s : Session)
      → sent_frames (write_remote h index subindex value s).1.log ≡ sent_frames s.log
  unfolding write_remote write_remote_sdo
  write_remote-sent index subindex value s = refl

  pub rejected-sent :
      (s : Session)
      → sent_frames (require_invalid_gfc_parameter_rejected h s).1.log ≡ sent_frames s.log
  unfolding require_invalid_gfc_parameter_rejected
  rejected-sent s = ground arith

  poll_rx_increment-sent :
      (n baseline deadline : ℕ) (s : Session)
      → sent_frames (poll_rx_increment h n baseline deadline s).1.log ≡ sent_frames s.log
  unfolding poll_rx_increment read_remote read_remote_sdo
  poll_rx_increment-sent zero baseline deadline s = refl
  poll_rx_increment-sent (suc n) baseline deadline s =
      let t =
        pause diagnostic_poll_interval_ms
          (read_remote h 32 gfc_diagnostic_index gfc_rx_count_subindex s).1 in
      let rest = poll_rx_increment-sent n baseline deadline t in ground (arith, rest)

  poll_rx_increment-count :
      (n baseline deadline observed : ℕ) (s : Session)
      → (poll_rx_increment h n baseline deadline s).0 ≡ some observed
      → observed ≡ incremented baseline
  unfolding poll_rx_increment
  poll_rx_increment-count zero baseline deadline observed s e = ground (arith, e)
  poll_rx_increment-count (suc n) baseline deadline observed s e =
      let t =
        pause diagnostic_poll_interval_ms
          (read_remote h 32 gfc_diagnostic_index gfc_rx_count_subindex s).1 in
      let rest = poll_rx_increment-count n baseline deadline observed t in ground (arith, e, rest)

  poll_rx_unchanged-sent :
      (n baseline deadline : ℕ) (s : Session)
      → sent_frames (poll_rx_unchanged h n baseline deadline s).1.log ≡ sent_frames s.log
  unfolding poll_rx_unchanged read_remote read_remote_sdo
  poll_rx_unchanged-sent zero baseline deadline s = refl
  poll_rx_unchanged-sent (suc n) baseline deadline s =
      let t =
        pause diagnostic_poll_interval_ms
          (read_remote h 32 gfc_diagnostic_index gfc_rx_count_subindex s).1 in
      let rest = poll_rx_unchanged-sent n baseline deadline t in ground (arith, rest)

  pub unchanged-sent :
      (baseline observation_ms : ℕ) (s : Session)
      → sent_frames (require_rx_unchanged h baseline observation_ms s).1.log ≡ sent_frames s.log
  unfolding require_rx_unchanged
  unchanged-sent baseline observation_ms s = poll_rx_unchanged-sent _ baseline _ s

  pub send-sent :
      (dlc : ℕ) (s : Session)
      → (send h dlc s).0 ≡ true
      → sent_frames (send h dlc s).1.log ≡ gfc_frame dlc ∷ sent_frames s.log
  unfolding send
  send-sent dlc s e = ground (arith, e)

  pub send_and_validate-counted :
      (baseline observed : ℕ) (s : Session)
      → (send_and_validate_consumer h baseline s).0 ≡ some observed
      → (observed ≡ incremented baseline)
        × (sent_frames (send_and_validate_consumer h baseline s).1.log
            ≡ gfc_frame 0 ∷ sent_frames s.log)
  unfolding send_and_validate_consumer wait_for_rx_increment
  send_and_validate-counted baseline observed s e =
      grind (arith, e, send-sent, poll_rx_increment-sent, poll_rx_increment-count, read_remote-sent)

  -- The samples of one observation: at least one, all of the baseline.
  poll_rx_unchanged-samples :
      (n baseline deadline : ℕ) (s : Session)
      → (poll_rx_unchanged h n baseline deadline s).0 ≡ some tt
      → (m : ℕ) × ((poll_rx_unchanged h n baseline deadline s).1.log
          ≡ replicate (suc m) (sdo_read gfc_diagnostic_index 1 success baseline) ++ s.log)
        × (deadline ≤ now h (poll_rx_unchanged h n baseline deadline s).1)
  unfolding poll_rx_unchanged read_remote read_remote_sdo
  poll_rx_unchanged-samples zero baseline deadline s e = absurd (ground (arith, e))
  poll_rx_unchanged-samples (suc n) baseline deadline s e =
      let t =
        pause diagnostic_poll_interval_ms
          (read_remote h 32 gfc_diagnostic_index gfc_rx_count_subindex s).1 in
      elim (Bool-cases (ltb (now h t) deadline)) [
        | inr late ↦ (0, ground (arith, e, late), ground (arith, e, late))
        | inl early ↦
            let rest = poll_rx_unchanged-samples n baseline deadline t (ground (arith, e, early)) in
            let shifted =
              replicate-cons (suc rest.0) (sdo_read gfc_diagnostic_index 1 success baseline)
                s.log in
            (
              suc rest.0,
              ground (arith, e, early, rest.1, shifted),
              ground (arith, e, early, rest.2),
            )
      ]

  -- An observation that passes has done nothing but read the receive count, once at least, each time
  -- successfully and with the baseline as its value, until its whole window had passed.
  pub require_rx_unchanged-samples :
      (baseline observation_ms : ℕ) (s : Session)
      → (require_rx_unchanged h baseline observation_ms s).0 ≡ some tt
      → let t = (require_rx_unchanged h baseline observation_ms s).1 in
        (m : ℕ) × (t.log
          ≡ replicate (suc m) (sdo_read gfc_diagnostic_index 1 success baseline) ++ s.log)
        × (now h s + milliseconds observation_ms ≤ now h t)
  unfolding require_rx_unchanged
  require_rx_unchanged-samples baseline observation_ms s e =
      poll_rx_unchanged-samples _ baseline _ s e
