-- ===== src/Time/Inject/Waits.antt =====
-- The polling loops of the TIME validation end by themselves (src/time_process.cpp).
use canopen_slave_tester.Prelude.{ℕ, zero, suc, ◌+◌, ◌*◌, ◌≤◌, ◌≡◌, refl, arith}
use canopen_slave_tester.Host.{Host, IsSteady, now}
use canopen_slave_tester.Sdo.{read_remote_sdo}
use canopen_slave_tester.Time.{
  TimeSession, time_position, read_noted, read_rx_count, snapshot_attempt, read_time_diagnostic,
}
use canopen_slave_tester.Time.Inject.{
  apply_turns, diagnostic_poll_ms, plus_timeout, pause_time, poll_rx_count, wait_for_rx_count,
  poll_applied_time, wait_for_applied_time, snapshot_retry_count,
}

module _ (h : Host) (steady : IsSteady h) where
  read_noted-now :
      (width index subindex : ℕ) (s : TimeSession)
      → now h s.session ≤ now h (read_noted h width index subindex s).1.session
  unfolding now read_noted read_remote_sdo
  read_noted-now width index subindex s = omega (arith, steady s.session.step)

  pause-now :
      (duration_ms : ℕ) (s : TimeSession)
      → now h s.session + duration_ms * 1000000 ≤ now h (pause_time duration_ms s).1.session
  unfolding now
  pause-now duration_ms s = omega (arith, steady s.session.step)

  snapshot_attempt-now :
      (s : TimeSession) → now h s.session ≤ now h (snapshot_attempt h s).1.session
  unfolding snapshot_attempt read_rx_count
  snapshot_attempt-now s = grind (arith, read_noted-now)

  read_time_diagnostic-now :
      (n : ℕ) (s : TimeSession) → now h s.session ≤ now h (read_time_diagnostic h n s).1.session
  unfolding read_time_diagnostic
  read_time_diagnostic-now zero s = omega arith
  read_time_diagnostic-now (suc n) s =
      grind (arith, snapshot_attempt-now, read_time_diagnostic-now n)

  poll_rx_count-ends :
      (n k previous deadline : ℕ) (s : TimeSession)
      → deadline ≤ now h s.session + n * (diagnostic_poll_ms * 1000000)
      → poll_rx_count h (n + k) previous deadline s ≡ poll_rx_count h n previous deadline s
  unfolding poll_rx_count read_rx_count
  poll_rx_count-ends zero zero previous deadline s b = refl
  poll_rx_count-ends zero (suc k) previous deadline s b = ground (arith, b)
  poll_rx_count-ends (suc n) k previous deadline s b =
      let t = (read_noted h 32 0x2300 1 s).1 in
      let u = (pause_time diagnostic_poll_ms t).1 in
      let more : suc n + k ≡ suc (n + k) = omega arith in
      let same =
        poll_rx_count-ends n k previous deadline u
          (omega (arith, b, read_noted-now 32 0x2300 1 s, pause-now diagnostic_poll_ms t)) in
      rw more (ground (arith, same))

  poll_applied_time-ends :
      (n k expected injected send_time deadline : ℕ) (s : TimeSession)
      → deadline ≤ now h s.session + n * (diagnostic_poll_ms * 1000000)
      → poll_applied_time h (n + k) expected injected send_time deadline s
        ≡ poll_applied_time h n expected injected send_time deadline s
  unfolding poll_applied_time
  poll_applied_time-ends zero zero expected injected send_time deadline s b = refl
  poll_applied_time-ends zero (suc k) expected injected send_time deadline s b = ground (arith, b)
  poll_applied_time-ends (suc n) k expected injected send_time deadline s b =
      let t = (read_time_diagnostic h snapshot_retry_count s).1 in
      let u = (pause_time diagnostic_poll_ms t).1 in
      let more : suc n + k ≡ suc (n + k) = omega arith in
      let same = poll_applied_time-ends n k expected injected send_time deadline u (
        omega (
          arith,
          b,
          read_time_diagnostic-now snapshot_retry_count s,
          pause-now diagnostic_poll_ms t,
        )) in
      rw more (ground (arith, same))

  -- With a clock that never goes back, the turns given to the wait for the receive count are enough:
  -- with any more of them it gives the same result and the same session, so that it ends at its
  -- deadline or before.
  pub wait_for_rx_count-ends :
      (k previous : ℕ) (s : TimeSession)
      → poll_rx_count h (apply_turns + k) previous (plus_timeout (now h s.session)) s
        ≡ wait_for_rx_count h previous s
  unfolding wait_for_rx_count
  wait_for_rx_count-ends k previous s =
      poll_rx_count-ends apply_turns k previous (plus_timeout (now h s.session)) s (omega arith)

  -- With a clock that never goes back, the turns given to the wait for the applied time are enough:
  -- with any more of them it gives the same result and the same session, so that it ends at its
  -- deadline or before.
  pub wait_for_applied_time-ends :
      (k expected milliseconds days send_time : ℕ) (s : TimeSession)
      → poll_applied_time h
          (apply_turns + k)
          expected
          (time_position milliseconds days)
          send_time
          (plus_timeout (now h s.session))
          s
        ≡ wait_for_applied_time h expected milliseconds days send_time s
  unfolding wait_for_applied_time
  wait_for_applied_time-ends k expected milliseconds days send_time s =
      poll_applied_time-ends apply_turns k expected (time_position milliseconds days) send_time
        (plus_timeout (now h s.session)) s (omega arith)
