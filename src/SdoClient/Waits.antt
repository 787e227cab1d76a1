-- ===== src/SdoClient/Waits.antt =====
-- The polling loops of the MCU SDO client validation end by themselves (src/sdo_client_process.cpp).
use canopen_slave_tester.Prelude.{ℕ, zero, suc, ◌+◌, ◌*◌, ◌≤◌, ◌≡◌, arith}
use canopen_slave_tester.Host.{Host, Session, IsSteady, now, pause}
use canopen_slave_tester.Sdo.{read_remote_sdo}
use canopen_slave_tester.Sdo.Access.{read_object}
use canopen_slave_tester.SdoClient.{
  poll_interval_ms, active_seq_sub, complete_seq_sub, read_control, poll_sequence, wait_sequence,
  poll_active_pending, wait_active_pending, completion_timeout_ms, active_timeout_ms,
}

module _ (h : Host) (steady : IsSteady h) where
  read_control-now :
      (width subindex : ℕ) (s : Session) → now h s ≤ now h (read_control h width subindex s).1
  unfolding now read_control read_object read_remote_sdo
  read_control-now width subindex s = omega (arith, steady s.step)

  pause-now : (s : Session) → now h s + 20000000 ≤ now h (pause poll_interval_ms s)
  unfolding now
  pause-now s = omega (arith, steady s.step)

  poll_sequence-ends :
      (n k subindex sequence deadline : ℕ) (s : Session)
      → deadline ≤ now h s + suc n * 20000000
      → poll_sequence h (suc n + k) subindex sequence deadline s
        ≡ poll_sequence h (suc n) subindex sequence deadline s
  unfolding poll_sequence
  poll_sequence-ends zero k subindex sequence deadline s b =
      let more : suc zero + k ≡ suc k = omega arith in
      let t = (read_control h 32 subindex s).1 in
      let late : deadline ≤ now h (pause poll_interval_ms t) =
        omega (arith, b, read_control-now 32 subindex s, pause-now t) in
      rw more (ground (arith, late))
  poll_sequence-ends (suc n) k subindex sequence deadline s b =
      let more : suc (suc n) + k ≡ suc (suc n + k) = omega arith in
      let t = (read_control h 32 subindex s).1 in
      let u = pause poll_interval_ms t in
      let same =
        poll_sequence-ends n k subindex sequence deadline u
          (omega (arith, b, read_control-now 32 subindex s, pause-now t)) in
      rw more (ground (arith, same))

  poll_active_pending-ends :
      (n k sequence deadline : ℕ) (s : Session)
      → deadline ≤ now h s + suc n * 20000000
      → poll_active_pending h (suc n + k) sequence deadline s
        ≡ poll_active_pending h (suc n) sequence deadline s
  unfolding poll_active_pending
  poll_active_pending-ends zero k sequence deadline s b =
      let more : suc zero + k ≡ suc k = omega arith in
      let t = (read_control h 32 active_seq_sub s).1 in
      let u = (read_control h 32 complete_seq_sub t).1 in
      let late : deadline ≤ now h (pause poll_interval_ms u) = omega (
        arith,
        b,
        read_control-now 32 active_seq_sub s,
        read_control-now 32 complete_seq_sub t,
        pause-now u,
      ) in
      rw more (ground (arith, late))
  poll_active_pending-ends (suc n) k sequence deadline s b =
      let more : suc (suc n) + k ≡ suc (suc n + k) = omega arith in
      let t = (read_control h 32 active_seq_sub s).1 in
      let u = (read_control h 32 complete_seq_sub t).1 in
      let v = pause poll_interval_ms u in
      let same = poll_active_pending-ends n k sequence deadline v (
        omega (
          arith,
          b,
          read_control-now 32 active_seq_sub s,
          read_control-now 32 complete_seq_sub t,
          pause-now u,
        )) in
      rw more (ground (arith, same))

  -- With a clock that never goes back, the turns given to the two polling loops are enough: with any
  -- more of them each gives the same result and the same session.
  pub client_polling-ends :
      (k subindex sequence : ℕ) (s : Session)
      → (poll_sequence h (100 + k) subindex sequence (now h s + 2000 * 1000000) s
          ≡ wait_sequence h subindex sequence completion_timeout_ms s)
        × (poll_active_pending h (25 + k) sequence (now h s + 500 * 1000000) s
            ≡ wait_active_pending h sequence active_timeout_ms s)
  unfolding wait_sequence wait_active_pending
  client_polling-ends k subindex sequence s = (
    poll_sequence-ends 99 k subindex sequence (now h s + 2000 * 1000000) s (omega arith),
    poll_active_pending-ends 24 k sequence (now h s + 500 * 1000000) s (omega arith),
  )
