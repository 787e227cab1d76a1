-- ===== src/Time/Inject/Applied.antt =====
-- What an injected TIME that is applied has shown (src/time_process.cpp).
use canopen_slave_tester.Prelude.{
  ℕ, zero, suc, ◌+◌, ◌%◌, ◌^◌, ◌≤◌, ◌≡◌, ap, sym, ◌∙◌, true, Option, some, arith, ltb, ◌==◌,
  Bool-cases, Option-cases, inl, inr,
}
use canopen_slave_tester.Host.{Host, now}
use canopen_slave_tester.Time.{
  TimeSession, TimeDiagnostic, read_rx_count, read_time_diagnostic, time_position,
  forward_time_delta, elapsed_ms,
}
use canopen_slave_tester.Time.Snapshot.{IsCoherent, read_time_diagnostic-IsCoherent}
use canopen_slave_tester.Time.Inject.{
  apply_turns, diagnostic_poll_ms, plus_timeout, pause_time, wait_for_rx_count, poll_applied_time,
  wait_for_applied_time, snapshot_retry_count, is_applied, inject_and_verify_time, send_time_frame,
}

module _ (h : Host) where
  poll_applied_time-means :
      (n expected injected send_time deadline : ℕ) (s : TimeSession) (d : TimeDiagnostic)
      → (poll_applied_time h n expected injected send_time deadline s).0 ≡ some d
      → IsCoherent h d (poll_applied_time h n expected injected send_time deadline s).1.session.log
        × (d.rx_count ≡ expected)
        × (is_applied injected send_time d ≡ true)
  unfolding poll_applied_time
  poll_applied_time-means zero expected injected send_time deadline s d e =
      absurd (ground (arith, e))
  poll_applied_time-means (suc n) expected injected send_time deadline s d e =
      let r = read_time_diagnostic h snapshot_retry_count s in
      let u = (pause_time diagnostic_poll_ms r.1).1 in
      elim (Bool-cases (ltb (now h s.session) deadline)) [
        | inr late ↦ absurd (ground (arith, e, late))
        | inl early ↦ elim (Option-cases r.0) [
          | inl q ↦ absurd (ground (arith, e, early, q))
          | inr (last, q) ↦ elim (Bool-cases (last.rx_count == expected)) [
            | inr other ↦ absurd (ground (arith, e, early, q, other))
            | inl counted ↦ elim (Bool-cases (is_applied injected send_time last)) [
              | inl applied ↦
                  let same : poll_applied_time h (suc n) expected injected send_time deadline s
                      ≡ (some last, r.1) =
                    ground (arith, early, q, counted, applied) in
                  let given : last ≡ d =
                    ground (
                      arith,
                      ap (λ (x : Option TimeDiagnostic × TimeSession). x.0) (sym same) ∙ e,
                    ) in
                  let coherent =
                    read_time_diagnostic-IsCoherent h snapshot_retry_count s d
                      (q ∙ ap some given) in
                  (
                    rw same coherent,
                    ground (arith, counted, given),
                    ap (is_applied injected send_time) (sym given) ∙ applied,
                  )
              | inr waiting ↦
                  let same : poll_applied_time h (suc n) expected injected send_time deadline s
                      ≡ poll_applied_time h n expected injected send_time deadline u =
                    ground (arith, early, q, counted, waiting) in
                  rw same (
                    poll_applied_time-means n expected injected send_time deadline u d
                      (ap (λ (x : Option TimeDiagnostic × TimeSession). x.0) (sym same) ∙ e))
            ]
          ]
        ]
      ]

  -- A TIME injection that gives a snapshot has read the receive count first, and the snapshot, which
  -- was read coherently as the last thing done, has a count of one more, modulo 2 ^ 32; and the
  -- device's time in it is ahead of the injected one by no more than the host's elapsed time since
  -- the sending, and 250 ms.
  pub inject_and_verify_time-applied :
      (can_id milliseconds days : ℕ) (s : TimeSession) (d : TimeDiagnostic)
      → (inject_and_verify_time h can_id milliseconds days s).0 ≡ some d
      → IsCoherent h d (inject_and_verify_time h can_id milliseconds days s).1.session.log
        × ((previous : ℕ) × ((read_rx_count h s).0 ≡ some previous)
            × (d.rx_count ≡ (previous + 1) % 2 ^ 32))
        × (forward_time_delta
              (time_position milliseconds days)
              (time_position d.milliseconds d.days)
            ≤ elapsed_ms (now h (read_rx_count h s).1.session) d.sampled_at + 250)
  unfolding inject_and_verify_time wait_for_applied_time is_applied
  inject_and_verify_time-applied can_id milliseconds days s d e =
      let r0 = read_rx_count h s in
      let sent_at = now h r0.1.session in
      let r1 = send_time_frame h can_id 6 milliseconds days r0.1 in
      elim (Option-cases r0.0) [
        | inl q ↦ absurd (ground (arith, e, q))
        | inr (previous, q) ↦ elim (Bool-cases r1.0) [
          | inr unsent ↦ absurd (ground (arith, e, q, unsent))
          | inl queued ↦
              let r2 = wait_for_rx_count h previous r1.1 in
              elim (Bool-cases r2.0) [
                | inr missed ↦ absurd (ground (arith, e, q, queued, missed))
                | inl received ↦
                    let expected = (previous + 1) % 2 ^ 32 in
                    let position = time_position milliseconds days in
                    let deadline = plus_timeout (now h r2.1.session) in
                    let same : inject_and_verify_time h can_id milliseconds days s
                        ≡ poll_applied_time h apply_turns expected position sent_at deadline r2.1 =
                      ground (arith, q, queued, received) in
                    let (coherent, counted, applied) =
                      poll_applied_time-means apply_turns expected position sent_at deadline r2.1 d
                        (ap (λ (x : Option TimeDiagnostic × TimeSession). x.0) (sym same) ∙ e) in
                    (rw same coherent, (previous, q, counted), ground (arith, applied))
              ]
        ]
      ]
