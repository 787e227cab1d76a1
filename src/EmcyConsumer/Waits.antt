-- ===== src/EmcyConsumer/Waits.antt =====
-- The polling loop of the EMCY consumer validation ends by itself (src/emcy_consumer_process.cpp).
use canopen_slave_tester.Prelude.{ℕ, zero, suc, ◌+◌, ◌*◌, ◌≤◌, ◌≡◌, arith}
use canopen_slave_tester.Host.{Host, Session, IsSteady, now, pause}
use canopen_slave_tester.Sdo.{read_remote_sdo}
use canopen_slave_tester.EmcyConsumer.{
  consumer_diagnostic_index, count_field, emcy_poll_interval_ms, read_remote_diagnostic,
  poll_next_rx_count, wait_for_next_rx_count,
}

module _ (h : Host) (steady : IsSteady h) where
  turn-now :
      (s : Session)
      → now h s + 20000000
        ≤ now h (
            pause emcy_poll_interval_ms
              (read_remote_diagnostic h 32 consumer_diagnostic_index count_field s).1)
  unfolding now read_remote_diagnostic read_remote_sdo
  turn-now s = omega (arith, steady s.step, steady (s.step + 1))

  poll_next_rx_count-ends :
      (n k baseline deadline : ℕ) (s : Session)
      → deadline ≤ now h s + suc n * 20000000
      → poll_next_rx_count h (suc n + k) baseline deadline s
        ≡ poll_next_rx_count h (suc n) baseline deadline s
  unfolding poll_next_rx_count
  poll_next_rx_count-ends zero k baseline deadline s b =
      let more : suc zero + k ≡ suc k = omega arith in
      let t = (read_remote_diagnostic h 32 consumer_diagnostic_index count_field s).1 in
      let late : deadline ≤ now h (pause emcy_poll_interval_ms t) = omega (arith, b, turn-now s) in
      rw more (ground (arith, late))
  poll_next_rx_count-ends (suc n) k baseline deadline s b =
      let more : suc (suc n) + k ≡ suc (suc n + k) = omega arith in
      let t = (read_remote_diagnostic h 32 consumer_diagnostic_index count_field s).1 in
      let u = pause emcy_poll_interval_ms t in
      let same = poll_next_rx_count-ends n k baseline deadline u (omega (arith, b, turn-now s)) in
      rw more (ground (arith, same))

  -- With a clock that never goes back, the turns given to the loop are enough.
  pub wait_for_next_rx_count-ends :
      (k baseline : ℕ) (s : Session)
      → poll_next_rx_count h (100 + k) baseline (now h s + 2000 * 1000000) s
        ≡ wait_for_next_rx_count h baseline s
  unfolding wait_for_next_rx_count
  wait_for_next_rx_count-ends k baseline s =
      poll_next_rx_count-ends 99 k baseline (now h s + 2000 * 1000000) s (omega arith)
