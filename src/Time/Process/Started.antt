-- ===== src/Time/Process/Started.antt =====
-- Whether a TIME validation starts the slave again after its resets (src/time_process.cpp).
use canopen_slave_tester.Prelude.{ℕ, ◌≡◌, Bool, true, false, arith, bit_or, bit_and}
use canopen_slave_tester.Host.{Host}
use canopen_slave_tester.Sdo.{read_remote_sdo}
use canopen_slave_tester.Nmt.Command.{issue_nmt_command}
use canopen_slave_tester.Time.{
  TimeSession, TimeProc, write_and_verify_time_cob_id, reset_slave_communication,
  read_time_diagnostic, set_needs_start, clear_timed_out,
}
use canopen_slave_tester.Time.Inject.{inject_and_verify_time, verify_invalid_dlc}
use canopen_slave_tester.Attempt.Keeps.{Keeps}
use canopen_slave_tester.State.{◌&&&◌}
use canopen_slave_tester.Time.Inject.{time_can_id_mask}
use canopen_slave_tester.Time.Process.{
  TimeRun, time_consumer_mask, enable_consumer, has, continuous_advance, stimuli, disabled_consumer,
  enabled_again, run_cases, restore_normally, normal_cleanup, recovery, start_again, clean_up,
  validate_time, read_original,
}
use canopen_slave_tester.Time.Inject.Noted.{
  unstarted, IsNoted, verify-IsNoted, write_and_verify-IsNoted, diagnostic-IsNoted, send-IsNoted,
  advances-IsNoted, paused-IsNoted, inject-IsNoted, invalid_dlc-IsNoted,
}

module _ (h : Host) where
  restore_normally-IsNoted :
      (original : ℕ) (reset : Bool) (s : TimeSession)
      → (restore_normally h original reset s).0 ≡ true
      → IsNoted s
      → IsNoted (restore_normally h original reset s).1
  unfolding restore_normally
  restore_normally-IsNoted original reset s e k =
      let t = (write_and_verify_time_cob_id h original s).1 in
      let one = write_and_verify-IsNoted h original s k in
      let u = (clear_timed_out (set_needs_start (reset_slave_communication h t).1).1).1 in
      let known : IsNoted u = ground arith in
      let two = verify-IsNoted h original u known in ground (arith, e, one, two)

  enable-IsNoted :
      (original enabled : ℕ) (s : TimeSession)
      → (enable_consumer h original enabled s).0.ok ≡ true
      → IsNoted s
      → IsNoted (enable_consumer h original enabled s).1
  unfolding enable_consumer
  enable-IsNoted original enabled s e k =
      let t = (write_and_verify_time_cob_id h enabled s).1 in
      let u = (clear_timed_out (set_needs_start (reset_slave_communication h t).1).1).1 in
      let known : IsNoted u = ground arith in
      let two = verify-IsNoted h enabled u known in ground (arith, e, k, two)

  has_inject-IsNoted :
      (can_id milliseconds days : ℕ) (s : TimeSession)
      → IsNoted s
      → IsNoted (has h (inject_and_verify_time h can_id milliseconds days) s).1
  unfolding has
  has_inject-IsNoted can_id milliseconds days s k = inject-IsNoted h can_id milliseconds days s k

  has_diagnostic-IsNoted :
      (n : ℕ) (s : TimeSession) → IsNoted s → IsNoted (has h (read_time_diagnostic h n) s).1
  unfolding has
  has_diagnostic-IsNoted n s k = diagnostic-IsNoted h n s k

  continuous-IsNoted :
      (can_id : ℕ) (s : TimeSession) → IsNoted s → IsNoted (continuous_advance h can_id s).1
  unfolding continuous_advance
  continuous-IsNoted can_id s k = grind (arith, k, inject-IsNoted, advances-IsNoted, paused-IsNoted)

  and-IsNoted :
      (p q : TimeProc Bool) (s : TimeSession)
      → IsNoted (p s).1
      → (IsNoted (p s).1 → IsNoted (q (p s).1).1)
      → IsNoted ((p &&& q) s).1
  and-IsNoted p q s one two = let rest = two one in ground (arith, one, rest)

  disabled-IsNoted :
      (can_id enabled : ℕ) (s : TimeSession)
      → IsNoted s
      → IsNoted (disabled_consumer h can_id enabled s).1
  unfolding disabled_consumer
  disabled-IsNoted can_id enabled s k = grind (
    arith, k, write_and_verify-IsNoted, diagnostic-IsNoted, send-IsNoted, advances-IsNoted,
    paused-IsNoted,
  )

  again-IsNoted :
      (can_id enabled : ℕ) (s : TimeSession)
      → IsNoted s
      → IsNoted (enabled_again h can_id enabled s).1
  unfolding enabled_again
  again-IsNoted can_id enabled s k = grind (arith, k, write_and_verify-IsNoted, has_inject-IsNoted)

  Keeps-and : (p q : TimeProc Bool) → Keeps IsNoted p → Keeps IsNoted q → Keeps IsNoted (p &&& q)
  Keeps-and p q one two = record { at = λ s k. and-IsNoted p q s (one.at s k) (two.at (p s).1) }

  Keeps-inject :
      (can_id milliseconds days : ℕ)
      → Keeps IsNoted (has h (inject_and_verify_time h can_id milliseconds days))
  Keeps-inject can_id milliseconds days = record {
    at = has_inject-IsNoted can_id milliseconds days;
  }

  Keeps-diagnostic : (n : ℕ) → Keeps IsNoted (has h (read_time_diagnostic h n))
  Keeps-diagnostic n = record { at = has_diagnostic-IsNoted n }

  Keeps-continuous : (can_id : ℕ) → Keeps IsNoted (continuous_advance h can_id)
  Keeps-continuous can_id = record { at = continuous-IsNoted can_id }

  Keeps-invalid_dlc : (can_id dlc : ℕ) → Keeps IsNoted (verify_invalid_dlc h can_id dlc)
  Keeps-invalid_dlc can_id dlc = record { at = invalid_dlc-IsNoted h can_id dlc }

  stimuli-kept : (can_id : ℕ) → Keeps IsNoted (stimuli h can_id)
  unfolding stimuli
  stimuli-kept can_id =
      search (Keeps-and, Keeps-inject, Keeps-diagnostic, Keeps-continuous, Keeps-invalid_dlc) depth
        30

  run_cases-IsNoted :
      (can_id enabled : ℕ) (run : TimeRun) (s : TimeSession)
      → IsNoted s
      → IsNoted (run_cases h can_id enabled run s).1
  unfolding run_cases
  run_cases-IsNoted can_id enabled run s k =
      let one = (stimuli-kept can_id).at s k in
      let t = (stimuli h can_id s).1 in
      let two =
        and-IsNoted (disabled_consumer h can_id enabled) (enabled_again h can_id enabled) t
          (disabled-IsNoted can_id enabled t one) (again-IsNoted can_id enabled _) in
      ground (arith, k, one, two)

  run_cases-ok :
      (can_id enabled : ℕ) (run : TimeRun) (s : TimeSession)
      → (run_cases h can_id enabled run s).0.ok ≡ true
      → run.ok ≡ true
  unfolding run_cases
  run_cases-ok can_id enabled run s e = ground (arith, e)

  pub clean_up-ok :
      (original : ℕ) (run : TimeRun) (s : TimeSession)
      → (clean_up h original run s).0 ≡ true
      → run.ok ≡ true
  unfolding clean_up normal_cleanup recovery
  clean_up-ok original run s e = ground (arith, e)

  clean_up-started :
      (original : ℕ) (run : TimeRun) (s : TimeSession)
      → (clean_up h original run s).0 ≡ true
      → IsNoted s
      → unstarted (clean_up h original run s).1.session.log ≡ false
  unfolding clean_up normal_cleanup recovery start_again issue_nmt_command unstarted
  clean_up-started original run s e k = grind (arith, e, k, restore_normally-IsNoted)

  pub validate_time-started :
      (original : ℕ) (s : TimeSession)
      → (validate_time h original s).0 ≡ true
      → IsNoted s
      → unstarted (validate_time h original s).1.session.log ≡ false
  unfolding validate_time
  validate_time-started original s e k =
      let enabled = bit_or original time_consumer_mask in
      let can_id = bit_and original time_can_id_mask in
      let a = enable_consumer h original enabled s in
      let b = run_cases h can_id enabled a.0 a.1 in
      let ok = run_cases-ok can_id enabled a.0 a.1 (clean_up-ok original b.0 b.1 e) in
      clean_up-started original b.0 b.1 e
        (run_cases-IsNoted can_id enabled a.0 a.1 (enable-IsNoted original enabled s ok k))

  pub read_original-IsNoted : (s : TimeSession) → IsNoted s → IsNoted (read_original h s).1
  unfolding read_original read_remote_sdo unstarted
  read_original-IsNoted s k = k
