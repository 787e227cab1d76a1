-- ===== src/Gfc/Process/Delivered.antt =====
-- Which frames of the GFC consumer cases are counted, with the consumer enabled or not
-- (src/gfc_process.cpp).
use canopen_slave_tester.Prelude.{
  ℕ, zero, suc, ◌+◌, ◌%◌, ◌^◌, ◌≡◌, refl, ◌∙◌, true, false, ◌&&◌, Option, none, some, List, [], ◌∷◌,
  ◌==◌, arith, Option-cases, inl, inr, if◌then◌else◌,
}
use canopen_slave_tester.Heartbeat.Process.{is_success}
use canopen_slave_tester.Host.{
  Host, Session, Action, CanMessage, sdo_read, sdo_write, local_write, command, sent, pause,
}
use canopen_slave_tester.Sdo.{read_remote_sdo, write_remote_sdo}
use canopen_slave_tester.Gfc.{
  gfc_parameter_index, gfc_diagnostic_index, gfc_rx_count_subindex, gfc_frame, incremented,
  diagnostic_poll_interval_ms, gfc_safe_requested_subindex, GfcDiagnostic, send,
}
use canopen_slave_tester.Gfc.Remote.{
  read_remote, write_remote, require_invalid_gfc_parameter_rejected, poll_rx_increment,
  wait_for_rx_increment, poll_rx_unchanged, require_rx_unchanged, send_and_validate_consumer,
}
use canopen_slave_tester.Gfc.Remote.Counted.{send_and_validate-counted}
use canopen_slave_tester.Gfc.Process.Counted.{validate_consumer_cases-counted}
use canopen_slave_tester.Gfc.Process.{
  write_gfc_parameter, continuous_delivery, ignored_frame, rejected_parameter, gated_delivery,
  validate_consumer_cases,
}

-- A frame that the channel has taken, the value of 0x1300 that was written last before it, and the
-- receive count that was read last before the next frame.
pub record Delivery : Type 0 where
  pub frame : CanMessage
  pub parameter : Option ℕ
  pub count : Option ℕ

-- The value of the newest successful write to 0x1300.
pub written_parameter : List Action → Option ℕ
written_parameter [] = none
written_parameter (sdo_write index subindex value result ∷ acts) =
    let rest = written_parameter acts in
    if index == gfc_parameter_index && subindex == 0 && is_success result then some value else rest
written_parameter (sdo_read _ _ _ _ ∷ acts) = written_parameter acts
written_parameter (local_write _ _ _ _ ∷ acts) = written_parameter acts
written_parameter (command _ _ _ ∷ acts) = written_parameter acts
written_parameter (sent _ _ ∷ acts) = written_parameter acts

-- The newest first; the argument is the newest count that has been read since.
pub deliveries : Option ℕ → List Action → List Delivery
deliveries seen [] = []
deliveries seen (sent message true ∷ acts) =
    record { frame = message; parameter = written_parameter acts; count = seen }
    ∷ deliveries none acts
deliveries seen (sent message false ∷ acts) = deliveries seen acts
deliveries (some count) (sdo_read index subindex result value ∷ acts) = deliveries (some count) acts
deliveries none (sdo_read index subindex result value ∷ acts) =
    let newest = deliveries (some value) acts in
    let rest = deliveries none acts in
    if index == gfc_diagnostic_index && subindex == gfc_rx_count_subindex && is_success result
    then newest
    else rest
deliveries seen (sdo_write _ _ _ _ ∷ acts) = deliveries seen acts
deliveries seen (local_write _ _ _ _ ∷ acts) = deliveries seen acts
deliveries seen (command _ _ _ ∷ acts) = deliveries seen acts

-- The code has read this count last, and has sent nothing.
Observes : ℕ → Session → Session → Type 0
Observes count s t =
    (deliveries none t.log ≡ deliveries (some count) s.log)
    × (written_parameter t.log ≡ written_parameter s.log)

-- The code has sent one frame, under this value of 0x1300 and with this count after it.
pub Delivers : CanMessage → Option ℕ → ℕ → Session → Session → Type 0
Delivers message parameter count s t =
    (deliveries none t.log
      ≡ record { frame = message; parameter = parameter; count = some count }
        ∷ deliveries none s.log)
    × (written_parameter t.log ≡ parameter)

module _ (h : Host) where
  poll_rx_increment-Observes :
      (n baseline deadline observed : ℕ) (s : Session)
      → (poll_rx_increment h n baseline deadline s).0 ≡ some observed
      → Observes observed s (poll_rx_increment h n baseline deadline s).1
  unfolding poll_rx_increment read_remote read_remote_sdo deliveries written_parameter Observes
  poll_rx_increment-Observes zero baseline deadline observed s e = absurd (ground (arith, e))
  poll_rx_increment-Observes (suc n) baseline deadline observed s e =
      let t =
        pause diagnostic_poll_interval_ms
          (read_remote h 32 gfc_diagnostic_index gfc_rx_count_subindex s).1 in
      let rest = poll_rx_increment-Observes n baseline deadline observed t in
      ground (arith, e, rest)

  poll_rx_unchanged-Observes :
      (n baseline deadline : ℕ) (s : Session)
      → (poll_rx_unchanged h n baseline deadline s).0 ≡ some tt
      → Observes baseline s (poll_rx_unchanged h n baseline deadline s).1
  unfolding poll_rx_unchanged read_remote read_remote_sdo deliveries written_parameter Observes
  poll_rx_unchanged-Observes zero baseline deadline s e = absurd (ground (arith, e))
  poll_rx_unchanged-Observes (suc n) baseline deadline s e =
      let t =
        pause diagnostic_poll_interval_ms
          (read_remote h 32 gfc_diagnostic_index gfc_rx_count_subindex s).1 in
      let rest = poll_rx_unchanged-Observes n baseline deadline t in ground (arith, e, rest)

  send-delivered :
      (dlc count : ℕ) (s t : Session)
      → (send h dlc s).0 ≡ true
      → Observes count (send h dlc s).1 t
      → Delivers (gfc_frame dlc) (written_parameter s.log) count s t
  unfolding send deliveries written_parameter Observes Delivers
  send-delivered dlc count s t e o = (ground (arith, e, o), ground (arith, e, o))

  write-parameter :
      (value : ℕ) (s : Session)
      → (write_gfc_parameter h value s).0 ≡ some tt
      → (deliveries none (write_gfc_parameter h value s).1.log ≡ deliveries none s.log)
        × (written_parameter (write_gfc_parameter h value s).1.log ≡ some value)
  unfolding write_remote write_remote_sdo deliveries written_parameter
  write-parameter value s e = (refl, ground (arith, e))

  safe_read-Observes :
      (count subindex : ℕ) (s t : Session)
      → Observes count s t
      → (subindex == gfc_rx_count_subindex) ≡ false
      → Observes count s (read_remote h 8 gfc_diagnostic_index subindex t).1
  unfolding read_remote read_remote_sdo deliveries written_parameter Observes
  safe_read-Observes count subindex s t o q = ground (arith, o, q)

  send_and_observed :
      (baseline observed : ℕ) (s : Session)
      → (send_and_validate_consumer h baseline s).0 ≡ some observed
      → let t = (send h 0 s).1 in
        let w = wait_for_rx_increment h baseline t in
        ((send h 0 s).0 ≡ true)
        × (w.0 ≡ some observed)
        × ((send_and_validate_consumer h baseline s).1
            ≡ (read_remote h 8 gfc_diagnostic_index gfc_safe_requested_subindex w.1).1)
  unfolding send_and_validate_consumer
  send_and_observed baseline observed s e =
      (ground (arith, e), ground (arith, e), ground (arith, e))

  send_and_validate-Delivers :
      (baseline observed : ℕ) (s : Session)
      → (send_and_validate_consumer h baseline s).0 ≡ some observed
      → Delivers
          (gfc_frame 0)
          (written_parameter s.log)
          observed
          s
          (send_and_validate_consumer h baseline s).1
  unfolding wait_for_rx_increment
  send_and_validate-Delivers baseline observed s e =
      let t = (send h 0 s).1 in
      let w = wait_for_rx_increment h baseline t in
      let u = (read_remote h 8 gfc_diagnostic_index gfc_safe_requested_subindex w.1).1 in
      let one = send_and_observed baseline observed s e in
      rw one.2 (
        send-delivered 0 observed s u one.0 (
          safe_read-Observes observed gfc_safe_requested_subindex t w.1
            (poll_rx_increment-Observes _ baseline _ observed t one.1) refl))

  ignored_frame-Delivers :
      (valid dlc rx_count : ℕ) (s : Session)
      → (ignored_frame h valid dlc rx_count s).0 ≡ some tt
      → Delivers (gfc_frame dlc) (some valid) rx_count s (ignored_frame h valid dlc rx_count s).1
  unfolding ignored_frame require_rx_unchanged Delivers
  ignored_frame-Delivers valid dlc rx_count s e =
      let t = (write_gfc_parameter h valid s).1 in
      let u = (send h dlc t).1 in
      grind (
        arith,
        e,
        write-parameter valid s,
        poll_rx_unchanged-Observes,
        send-delivered dlc rx_count t,
      )

  rejected_parameter-deliveries :
      (s : Session)
      → (rejected_parameter h s).0 ≡ some tt
      → deliveries none (rejected_parameter h s).1.log ≡ deliveries none s.log
  unfolding rejected_parameter require_invalid_gfc_parameter_rejected read_remote read_remote_sdo
      deliveries
  rejected_parameter-deliveries s e = ground (arith, e)

  -- So many counted frames under the value one, the newest first, on top of the others.
  counted_onto : (frames rx_count : ℕ) → List Delivery → List Delivery
  counted_onto zero rx_count others = others
  counted_onto (suc n) rx_count others = counted_onto n (incremented rx_count) (
      record { frame = gfc_frame 0; parameter = some 1; count = some (incremented rx_count) }
      ∷ others)

  continuous_delivery-deliveries :
      (n rx_count last : ℕ) (s : Session)
      → (continuous_delivery h n rx_count s).0 ≡ some last
      → written_parameter s.log ≡ some 1
      → deliveries none (continuous_delivery h n rx_count s).1.log
        ≡ counted_onto n rx_count (deliveries none s.log)
  unfolding continuous_delivery counted_onto Delivers
  continuous_delivery-deliveries zero rx_count last s e p = refl
  continuous_delivery-deliveries (suc n) rx_count last s e p =
      let c = send_and_validate_consumer h rx_count s in
      elim (Option-cases c.0) [
        | inl q ↦ absurd (ground (arith, e, q))
        | inr (observed, q) ↦
            let counted = (send_and_validate-counted h rx_count observed s q).0 in
            let (one, kept) = send_and_validate-Delivers rx_count observed s q in
            let rest =
              continuous_delivery-deliveries n observed last c.1 (ground (arith, e, q))
                (kept ∙ p) in
            let same : continuous_delivery h (suc n) rx_count s
                ≡ continuous_delivery h n observed c.1 =
              ground (arith, q) in
            rw (same, rest, one, counted, p) refl
      ]

  -- Each part has passed.
  gated-passed :
      (observed last : ℕ) (s : Session)
      → (gated_delivery h observed s).0 ≡ some last
      → let a = (ignored_frame h 0 0 observed s).1 in
        let c = (rejected_parameter h a).1 in
        let t = (ignored_frame h 1 1 observed c).1 in
        ((ignored_frame h 0 0 observed s).0 ≡ some tt)
        × ((rejected_parameter h a).0 ≡ some tt)
        × ((ignored_frame h 1 1 observed c).0 ≡ some tt)
        × ((continuous_delivery h 3 observed t).0 ≡ some last)
        × (gated_delivery h observed s ≡ continuous_delivery h 3 observed t)
  unfolding gated_delivery
  gated-passed observed last s e = (
    ground (arith, e),
    ground (arith, e),
    ground (arith, e),
    ground (arith, e),
    ground (arith, e),
  )

  gated_delivery-deliveries :
      (observed last : ℕ) (s : Session)
      → (gated_delivery h observed s).0 ≡ some last
      → deliveries none (gated_delivery h observed s).1.log
        ≡ counted_onto 3 observed (
            record { frame = gfc_frame 1; parameter = some 1; count = some observed }
            ∷ record { frame = gfc_frame 0; parameter = some 0; count = some observed }
            ∷ deliveries none s.log)
  unfolding gated_delivery Delivers
  gated_delivery-deliveries observed last s e =
      let a = (ignored_frame h 0 0 observed s).1 in
      let c = (rejected_parameter h a).1 in
      let t = (ignored_frame h 1 1 observed c).1 in
      let (closed, passed, short, rest, whole) = gated-passed observed last s e in
      let one = (ignored_frame-Delivers 0 0 observed s closed).0 in
      let two = rejected_parameter-deliveries a passed in
      let (three, kept) = ignored_frame-Delivers 1 1 observed c short in
      let four = continuous_delivery-deliveries 3 observed last t rest kept in
      rw (whole, four, three, two, one) refl

  cases-deliveries :
      (d d' : GfcDiagnostic) (s : Session)
      → (validate_consumer_cases h d s).0 ≡ some d'
      → let one = incremented d.rx_count in
        let two = incremented one in
        let three = incremented two in
        deliveries none (validate_consumer_cases h d s).1.log
        ≡ record { frame = gfc_frame 0; parameter = some 1; count = some (incremented three) }
          ∷ record { frame = gfc_frame 0; parameter = some 1; count = some three }
          ∷ record { frame = gfc_frame 0; parameter = some 1; count = some two }
          ∷ record { frame = gfc_frame 1; parameter = some 1; count = some one }
          ∷ record { frame = gfc_frame 0; parameter = some 0; count = some one }
          ∷ record { frame = gfc_frame 0; parameter = some 1; count = some one }
          ∷ deliveries none s.log
  unfolding validate_consumer_cases counted_onto Delivers
  cases-deliveries d d' s e =
      let a = (write_gfc_parameter h 1 s).1 in
      let c = send_and_validate_consumer h d.rx_count a in
      let enabled : (write_gfc_parameter h 1 s).0 ≡ some tt = ground (arith, e) in
      let (wrote, parameter) = write-parameter 1 s enabled in
      elim (Option-cases c.0) [
        | inl q ↦ absurd (ground (arith, e, q))
        | inr (observed, q) ↦ elim (Option-cases (gated_delivery h observed c.1).0) [
          | inl p ↦ absurd (ground (arith, e, q, p))
          | inr (last, p) ↦
              let counted = (send_and_validate-counted h d.rx_count observed a q).0 in
              let first = (send_and_validate-Delivers d.rx_count observed a q).0 in
              let rest = gated_delivery-deliveries observed last c.1 p in
              let same : (validate_consumer_cases h d s).1 ≡ (gated_delivery h observed c.1).1 =
                ground (arith, e, q, p) in
              rw (same, rest, first, wrote, parameter, counted) refl
        ]
      ]

  -- GFC consumer cases that pass have sent six frames. Newest first, with the value of 0x1300 that was
  -- written last before each frame and the receive count that was read last after it: three valid
  -- frames with the consumer enabled, each counted; one of length one, with the consumer enabled, and
  -- one with the consumer disabled, neither counted; and the first one, enabled and counted. The
  -- count that is handed on is the one before the cases and four, modulo 2^32.
  pub validate_consumer_cases-deliveries :
      (d d' : GfcDiagnostic) (s : Session)
      → (validate_consumer_cases h d s).0 ≡ some d'
      → let one = incremented d.rx_count in
        let two = incremented one in
        let three = incremented two in
        (d'.rx_count ≡ (d.rx_count + 4) % 2 ^ 32)
        × (deliveries none (validate_consumer_cases h d s).1.log
            ≡ record { frame = gfc_frame 0; parameter = some 1; count = some (incremented three) }
              ∷ record { frame = gfc_frame 0; parameter = some 1; count = some three }
              ∷ record { frame = gfc_frame 0; parameter = some 1; count = some two }
              ∷ record { frame = gfc_frame 1; parameter = some 1; count = some one }
              ∷ record { frame = gfc_frame 0; parameter = some 0; count = some one }
              ∷ record { frame = gfc_frame 0; parameter = some 1; count = some one }
              ∷ deliveries none s.log)
  validate_consumer_cases-deliveries d d' s e =
      ((validate_consumer_cases-counted h d d' s e).0, cases-deliveries d d' s e)
