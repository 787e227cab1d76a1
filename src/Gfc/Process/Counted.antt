-- ===== src/Gfc/Process/Counted.antt =====
-- The frames of the GFC consumer cases, and those that are counted (src/gfc_process.cpp).
use canopen_slave_tester.Prelude.{
  ℕ, zero, suc, ◌+◌, ◌%◌, ◌^◌, ◌≡◌, some, ◌∷◌, ◌++◌, arith, ap, ◌∙◌, replicate, ◌<◌, Option-cases,
  inl, inr,
}
use canopen_slave_tester.Host.{Host, Session}
use canopen_slave_tester.Gfc.{gfc_parameter_index, GfcDiagnostic, gfc_frame}
use canopen_slave_tester.Gfc.Remote.{send_and_validate_consumer}
use canopen_slave_tester.Gfc.Remote.Counted.{
  replicate-cons, sent_frames, read_remote-sent, write_remote-sent, rejected-sent, unchanged-sent,
  send-sent, send_and_validate-counted,
}
use canopen_slave_tester.Gfc.Process.{
  write_gfc_parameter, continuous_delivery, ignored_frame, rejected_parameter, gated_delivery,
  validate_consumer_cases,
}

module _ (h : Host) where
  continuous_delivery-counted :
      (n rx_count last : ℕ) (s : Session)
      → (continuous_delivery h n rx_count s).0 ≡ some last
      → rx_count < 2 ^ 32
      → (last ≡ (rx_count + n) % 2 ^ 32)
        × (sent_frames (continuous_delivery h n rx_count s).1.log
            ≡ replicate n (gfc_frame 0) ++ sent_frames s.log)
  unfolding continuous_delivery
  continuous_delivery-counted zero rx_count last s e b = (ground (arith, e, b), ground (arith, e))
  continuous_delivery-counted (suc n) rx_count last s e b =
      let c = send_and_validate_consumer h rx_count s in
      elim (Option-cases c.0) [
        | inl q ↦ absurd (ground (arith, e, q))
        | inr (observed, q) ↦
            let counted = send_and_validate-counted h rx_count observed s q in
            let rest =
              continuous_delivery-counted n observed last c.1 (ground (arith, e, q))
                (ground (arith, counted.0)) in
            let same : continuous_delivery h (suc n) rx_count s
                ≡ continuous_delivery h n observed c.1 =
              ground (arith, q) in
            (
              ground (arith, rest.0, counted.0),
              ap (λ r. sent_frames r.1.log) same
                  ∙ rest.1
                  ∙ ap (λ l. replicate n (gfc_frame 0) ++ l) counted.1
                  ∙ replicate-cons n (gfc_frame 0) (sent_frames s.log),
            )
      ]

  ignored_frame-sent :
      (valid dlc rx_count : ℕ) (s : Session)
      → (ignored_frame h valid dlc rx_count s).0 ≡ some tt
      → sent_frames (ignored_frame h valid dlc rx_count s).1.log ≡ gfc_frame dlc ∷ sent_frames s.log
  unfolding ignored_frame
  ignored_frame-sent valid dlc rx_count s e =
      grind (arith, e, write_remote-sent, unchanged-sent, send-sent)

  rejected_parameter-sent :
      (s : Session)
      → (rejected_parameter h s).0 ≡ some tt
      → sent_frames (rejected_parameter h s).1.log ≡ sent_frames s.log
  unfolding rejected_parameter
  rejected_parameter-sent s e = grind (arith, e, rejected-sent, read_remote-sent)

  gated_delivery-counted :
      (observed last : ℕ) (s : Session)
      → (gated_delivery h observed s).0 ≡ some last
      → observed < 2 ^ 32
      → (last ≡ (observed + 3) % 2 ^ 32)
        × (sent_frames (gated_delivery h observed s).1.log
            ≡ gfc_frame 0
              ∷ gfc_frame 0
              ∷ gfc_frame 0
              ∷ gfc_frame 1
              ∷ gfc_frame 0
              ∷ sent_frames s.log)
  unfolding gated_delivery
  gated_delivery-counted observed last s e b =
      let a = (ignored_frame h 0 0 observed s).1 in
      let c = (rejected_parameter h a).1 in
      let t = (ignored_frame h 1 1 observed c).1 in
      ground (
        arith,
        e,
        b,
        ignored_frame-sent 0 0 observed s,
        rejected_parameter-sent a,
        ignored_frame-sent 1 1 observed c,
        continuous_delivery-counted 3 observed last t,
      )

  -- The consumer cases that pass.
  pub validate_consumer_cases-counted :
      (d d' : GfcDiagnostic) (s : Session)
      → (validate_consumer_cases h d s).0 ≡ some d'
      → (d'.rx_count ≡ (d.rx_count + 4) % 2 ^ 32)
        × (sent_frames (validate_consumer_cases h d s).1.log
            ≡ gfc_frame 0
              ∷ gfc_frame 0
              ∷ gfc_frame 0
              ∷ gfc_frame 1
              ∷ gfc_frame 0
              ∷ gfc_frame 0
              ∷ sent_frames s.log)
  unfolding validate_consumer_cases
  validate_consumer_cases-counted d d' s e =
      let a = (write_gfc_parameter h 1 s).1 in
      let c = send_and_validate_consumer h d.rx_count a in
      elim (Option-cases c.0) [
        | inl q ↦ absurd (ground (arith, e, q))
        | inr (observed, q) ↦ ground (
          arith,
          e,
          q,
          write_remote-sent h gfc_parameter_index 0 1 s,
          send_and_validate-counted h d.rx_count observed a q,
          gated_delivery-counted observed d'.rx_count c.1,
        )
      ]
