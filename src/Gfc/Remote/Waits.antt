-- ===== src/Gfc/Remote/Waits.antt =====
-- The loops of the GFC validation end by themselves (src/gfc_process.cpp).
use canopen_slave_tester.Prelude.{ℕ, zero, suc, ◌+◌, ◌*◌, ◌≤◌, ◌≡◌, arith}
use canopen_slave_tester.Host.{Host, Session, IsSteady, now, pause}
use canopen_slave_tester.Sdo.{read_remote_sdo}
use canopen_slave_tester.Gfc.{
  milliseconds, diagnostic_poll_interval_ms, gfc_diagnostic_index, negative_observation_ms,
}
use canopen_slave_tester.Gfc.Remote.{
  read_remote, poll_rx_increment, wait_for_rx_increment, poll_rx_unchanged, require_rx_unchanged,
  poll_completion, wait_for_producer_completion,
}

module _ (h : Host) (steady : IsSteady h) where
  read_remote-now :
      (width index subindex : ℕ) (s : Session)
      → now h s ≤ now h (read_remote h width index subindex s).1
  unfolding now read_remote read_remote_sdo
  read_remote-now width index subindex s = omega (arith, steady s.step)

  pause-now :
      (duration_ms : ℕ) (s : Session)
      → now h s + milliseconds duration_ms ≤ now h (pause duration_ms s)
  unfolding now
  pause-now duration_ms s = omega (arith, steady s.step)

  turn-now :
      (index subindex n deadline : ℕ) (s : Session)
      → deadline ≤ now h s + suc n * milliseconds diagnostic_poll_interval_ms
      → deadline
        ≤ now h (pause diagnostic_poll_interval_ms (read_remote h 32 index subindex s).1)
          + n * milliseconds diagnostic_poll_interval_ms
  turn-now index subindex n deadline s b = omega (
    arith,
    b,
    read_remote-now 32 index subindex s,
    pause-now diagnostic_poll_interval_ms (read_remote h 32 index subindex s).1,
  )

  poll_rx_increment-ends :
      (n k baseline deadline : ℕ) (s : Session)
      → deadline ≤ now h s + suc n * milliseconds diagnostic_poll_interval_ms
      → poll_rx_increment h (suc n + k) baseline deadline s
        ≡ poll_rx_increment h (suc n) baseline deadline s
  unfolding poll_rx_increment
  poll_rx_increment-ends zero k baseline deadline s b =
      let more : suc zero + k ≡ suc k = omega arith in
      let late = turn-now gfc_diagnostic_index 1 zero deadline s b in rw more (ground (arith, late))
  poll_rx_increment-ends (suc n) k baseline deadline s b =
      let more : suc (suc n) + k ≡ suc (suc n + k) = omega arith in
      let t = pause diagnostic_poll_interval_ms (read_remote h 32 gfc_diagnostic_index 1 s).1 in
      let same =
        poll_rx_increment-ends n k baseline deadline t
          (turn-now gfc_diagnostic_index 1 (suc n) deadline s b) in
      rw more (ground (arith, same))

  poll_rx_unchanged-ends :
      (n k baseline deadline : ℕ) (s : Session)
      → deadline ≤ now h s + suc n * milliseconds diagnostic_poll_interval_ms
      → poll_rx_unchanged h (suc n + k) baseline deadline s
        ≡ poll_rx_unchanged h (suc n) baseline deadline s
  unfolding poll_rx_unchanged
  poll_rx_unchanged-ends zero k baseline deadline s b =
      let more : suc zero + k ≡ suc k = omega arith in
      let late = turn-now gfc_diagnostic_index 1 zero deadline s b in rw more (ground (arith, late))
  poll_rx_unchanged-ends (suc n) k baseline deadline s b =
      let more : suc (suc n) + k ≡ suc (suc n + k) = omega arith in
      let t = pause diagnostic_poll_interval_ms (read_remote h 32 gfc_diagnostic_index 1 s).1 in
      let same =
        poll_rx_unchanged-ends n k baseline deadline t
          (turn-now gfc_diagnostic_index 1 (suc n) deadline s b) in
      rw more (ground (arith, same))

  poll_completion-ends :
      (n k request_seq deadline : ℕ) (s : Session)
      → deadline ≤ now h s + suc n * milliseconds diagnostic_poll_interval_ms
      → poll_completion h (suc n + k) request_seq deadline s
        ≡ poll_completion h (suc n) request_seq deadline s
  unfolding poll_completion
  poll_completion-ends zero k request_seq deadline s b =
      let more : suc zero + k ≡ suc k = omega arith in
      let late = turn-now gfc_diagnostic_index 4 zero deadline s b in rw more (ground (arith, late))
  poll_completion-ends (suc n) k request_seq deadline s b =
      let more : suc (suc n) + k ≡ suc (suc n + k) = omega arith in
      let t = pause diagnostic_poll_interval_ms (read_remote h 32 gfc_diagnostic_index 4 s).1 in
      let same =
        poll_completion-ends n k request_seq deadline t
          (turn-now gfc_diagnostic_index 4 (suc n) deadline s b) in
      rw more (ground (arith, same))

  -- With a clock that never goes back, the turns given to the three polling loops are enough: with
  -- any more of them each gives the same result and the same session, so that it ends at its deadline
  -- or before.
  pub gfc_polling-ends :
      (k baseline request_seq : ℕ) (s : Session)
      → (poll_rx_increment h (75 + k) baseline (now h s + milliseconds 1500) s
          ≡ wait_for_rx_increment h baseline s)
        × (poll_rx_unchanged h (15 + k) baseline (now h s + milliseconds 300) s
            ≡ require_rx_unchanged h baseline negative_observation_ms s)
        × (poll_completion h (75 + k) request_seq (now h s + milliseconds 1500) s
            ≡ wait_for_producer_completion h request_seq s)
  unfolding wait_for_rx_increment require_rx_unchanged wait_for_producer_completion
  gfc_polling-ends k baseline request_seq s =
      let late = now h s + milliseconds 1500 in
      (
        poll_rx_increment-ends 74 k baseline late s (omega arith),
        poll_rx_unchanged-ends 14 k baseline (now h s + milliseconds 300) s (omega arith),
        poll_completion-ends 74 k request_seq late s (omega arith),
      )
