-- ===== src/Time/Inject/Noted.antt =====
-- What the snapshots and the injections of the TIME validation leave of the resets and starts of the
-- slave (src/time_process.cpp).
use canopen_slave_tester.Prelude.{
  ℕ, zero, suc, ◌≡◌, Bool, true, false, ◌||◌, List, [], ◌∷◌, not, arith,
}
use canopen_slave_tester.Lely.{start, stop, enter_preop, reset_node, reset_comm}
use canopen_slave_tester.Host.{Host, Action, sdo_read, sdo_write, local_write, command, sent}
use canopen_slave_tester.Sdo.{read_remote_sdo, write_remote_sdo}
use canopen_slave_tester.Time.{
  TimeDiagnostic, TimeSession, read_noted, read_rx_count, write_noted, verify_time_cob_id,
  write_and_verify_time_cob_id, snapshot_attempt, read_time_diagnostic,
}
use canopen_slave_tester.Time.Inject.{
  snapshot_retry_count, pause_time, send_time_frame, poll_rx_count, wait_for_rx_count,
  poll_applied_time, wait_for_applied_time, inject_and_verify_time, still_advances,
  verify_invalid_dlc, diagnostic_poll_ms,
}

-- Whether an accepted Reset Communication has no accepted Start after it.
unfoldable pub unstarted : List Action → Bool
unstarted [] = false
unstarted (command start node true ∷ acts) = false
unstarted (command reset_comm node true ∷ acts) = true
unstarted (command stop node true ∷ acts) = unstarted acts
unstarted (command enter_preop node true ∷ acts) = unstarted acts
unstarted (command reset_node node true ∷ acts) = unstarted acts
unstarted (command any node false ∷ acts) = unstarted acts
unstarted (sdo_read _ _ _ _ ∷ acts) = unstarted acts
unstarted (sdo_write _ _ _ _ ∷ acts) = unstarted acts
unstarted (local_write _ _ _ _ ∷ acts) = unstarted acts
unstarted (sent _ _ ∷ acts) = unstarted acts

-- The program knows of a reset without a start.
abbrev pub IsNoted : TimeSession → Type 0
IsNoted s = (not (unstarted s.session.log) || s.slave_needs_start) ≡ true

module _ (h : Host) where
  read_noted-IsNoted :
      (width index subindex : ℕ) (s : TimeSession)
      → IsNoted s
      → IsNoted (read_noted h width index subindex s).1
  unfolding read_noted read_remote_sdo unstarted
  read_noted-IsNoted width index subindex s k = k

  write_noted-IsNoted :
      (index subindex value : ℕ) (s : TimeSession)
      → IsNoted s
      → IsNoted (write_noted h index subindex value s).1
  unfolding write_noted write_remote_sdo unstarted
  write_noted-IsNoted index subindex value s k = k

  pub send-IsNoted :
      (can_id dlc milliseconds days : ℕ) (s : TimeSession)
      → IsNoted s
      → IsNoted (send_time_frame h can_id dlc milliseconds days s).1
  unfolding send_time_frame unstarted
  send-IsNoted can_id dlc milliseconds days s k = ground (arith, k)

  pub verify-IsNoted :
      (value : ℕ) (s : TimeSession) → IsNoted s → IsNoted (verify_time_cob_id h value s).1
  unfolding verify_time_cob_id
  verify-IsNoted value s k = read_noted-IsNoted 32 _ 0 s k

  pub write_and_verify-IsNoted :
      (value : ℕ) (s : TimeSession) → IsNoted s → IsNoted (write_and_verify_time_cob_id h value s).1
  unfolding write_and_verify_time_cob_id
  write_and_verify-IsNoted value s k = grind (arith, k, verify-IsNoted, write_noted-IsNoted)

  attempt-IsNoted : (s : TimeSession) → IsNoted s → IsNoted (snapshot_attempt h s).1
  unfolding snapshot_attempt read_rx_count
  attempt-IsNoted s k = grind (arith, k, read_noted-IsNoted)

  pub diagnostic-IsNoted :
      (n : ℕ) (s : TimeSession) → IsNoted s → IsNoted (read_time_diagnostic h n s).1
  unfolding read_time_diagnostic
  diagnostic-IsNoted zero s k = k
  diagnostic-IsNoted (suc n) s k =
      let t = (snapshot_attempt h s).1 in
      let one = attempt-IsNoted s k in
      let rest = diagnostic-IsNoted n t one in ground (arith, one, rest)

  poll_rx_count-IsNoted :
      (n previous deadline : ℕ) (s : TimeSession)
      → IsNoted s
      → IsNoted (poll_rx_count h n previous deadline s).1
  unfolding poll_rx_count read_rx_count
  poll_rx_count-IsNoted zero previous deadline s k = k
  poll_rx_count-IsNoted (suc n) previous deadline s k =
      let t = (read_rx_count h s).1 in
      let one : IsNoted t = read_noted-IsNoted 32 _ 1 s k in
      let rest =
        poll_rx_count-IsNoted n previous deadline (pause_time diagnostic_poll_ms t).1 one in
      ground (arith, k, one, rest)

  poll_applied-IsNoted :
      (n expected injected send_time deadline : ℕ) (s : TimeSession)
      → IsNoted s
      → IsNoted (poll_applied_time h n expected injected send_time deadline s).1
  unfolding poll_applied_time
  poll_applied-IsNoted zero expected injected send_time deadline s k = k
  poll_applied-IsNoted (suc n) expected injected send_time deadline s k =
      let t = (read_time_diagnostic h snapshot_retry_count s).1 in
      let one = diagnostic-IsNoted snapshot_retry_count s k in
      let rest =
        poll_applied-IsNoted n expected injected send_time deadline
          (pause_time diagnostic_poll_ms t).1 one in
      ground (arith, k, one, rest)

  pub inject-IsNoted :
      (can_id milliseconds days : ℕ) (s : TimeSession)
      → IsNoted s
      → IsNoted (inject_and_verify_time h can_id milliseconds days s).1
  unfolding inject_and_verify_time wait_for_rx_count wait_for_applied_time read_rx_count
  inject-IsNoted can_id milliseconds days s k =
      grind
        (arith, k, read_noted-IsNoted, send-IsNoted, poll_rx_count-IsNoted, poll_applied-IsNoted)

  pub advances-IsNoted :
      (delta : ℕ) (before : TimeDiagnostic) (s : TimeSession)
      → IsNoted s
      → IsNoted (still_advances h delta before s).1
  unfolding still_advances
  advances-IsNoted delta before s k = diagnostic-IsNoted snapshot_retry_count s k

  pub paused-IsNoted : (ms : ℕ) (s : TimeSession) → IsNoted s → IsNoted (pause_time ms s).1
  paused-IsNoted ms s k = k

  pub invalid_dlc-IsNoted :
      (can_id dlc : ℕ) (s : TimeSession) → IsNoted s → IsNoted (verify_invalid_dlc h can_id dlc s).1
  unfolding verify_invalid_dlc
  invalid_dlc-IsNoted can_id dlc s k =
      grind (arith, k, diagnostic-IsNoted, send-IsNoted, advances-IsNoted, paused-IsNoted)
