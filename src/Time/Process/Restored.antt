-- ===== src/Time/Process/Restored.antt =====
-- What a TIME validation that passes has restored (src/time_process.cpp).
use canopen_slave_tester.Prelude.{
  ℕ, ◌≡◌, ap, ◌∙◌, Bool, true, false, some, arith, Bool-cases, Option-cases, inl, inr,
}
use canopen_slave_tester.Host.{Host, Session, success}
use canopen_slave_tester.Host.Log.{newest_remote, reads}
use canopen_slave_tester.Nmt.Command.{issue_nmt_command}
use canopen_slave_tester.Sdo.{default_sdo_timeout_ms, default_completion_margin_ms, read_remote_sdo}
use canopen_slave_tester.Time.{
  time_cob_id_index, TimeSession, read_time_diagnostic, write_and_verify_time_cob_id,
}
use canopen_slave_tester.Time.Inject.{snapshot_retry_count}
use canopen_slave_tester.Time.Recovery.{verify_time_cob_id-newest}
use canopen_slave_tester.Time.Inject.Noted.{unstarted, IsNoted, diagnostic-IsNoted}
use canopen_slave_tester.Time.Process.Started.{
  clean_up-ok, validate_time-started, read_original-IsNoted,
}
use canopen_slave_tester.Time.Process.{
  TimeRun, restore_normally, normal_cleanup, recovery, start_again, clean_up, run_cases,
  validate_time, read_original, is_supported, fresh_flags, time_process,
}

module _ (h : Host) where
  -- The newest remote access to 0x1012 is a successful read of the value.
  abbrev pub Restored : ℕ → TimeSession → Type 0
  Restored original s =
      newest_remote time_cob_id_index 0 s.session.log ≡ some (reads original success)

  write_and_verify-Restored :
      (original : ℕ) (s : TimeSession)
      → (write_and_verify_time_cob_id h original s).0 ≡ true
      → Restored original (write_and_verify_time_cob_id h original s).1
  unfolding write_and_verify_time_cob_id
  write_and_verify-Restored original s e = grind (arith, verify_time_cob_id-newest)

  restore_normally-Restored :
      (original : ℕ) (reset : Bool) (s : TimeSession)
      → (restore_normally h original reset s).0 ≡ true
      → Restored original (restore_normally h original reset s).1
  unfolding restore_normally
  restore_normally-Restored original reset s e =
      grind (arith, verify_time_cob_id-newest, write_and_verify-Restored)

  clean_up-Restored :
      (original : ℕ) (run : TimeRun) (s : TimeSession)
      → run.modification_attempted ≡ true
      → (clean_up h original run s).0 ≡ true
      → Restored original (clean_up h original run s).1
        × ((clean_up h original run s).1.slave_needs_start ≡ false)
  unfolding clean_up normal_cleanup recovery start_again issue_nmt_command
  clean_up-Restored original run s a e = grind (arith, restore_normally-Restored)

  run_cases-attempted :
      (can_id enabled : ℕ) (run : TimeRun) (s : TimeSession)
      → (run_cases h can_id enabled run s).0.ok ≡ true
      → (run_cases h can_id enabled run s).0.modification_attempted ≡ true
  unfolding run_cases
  run_cases-attempted can_id enabled run s e = ground (arith, e)

  validate_time-Restored :
      (original : ℕ) (s : TimeSession)
      → (validate_time h original s).0 ≡ true
      → Restored original (validate_time h original s).1
        × ((validate_time h original s).1.slave_needs_start ≡ false)
  unfolding validate_time
  validate_time-Restored original s e =
      grind (arith, clean_up-Restored, clean_up-ok h, run_cases-attempted)

  read_original-success :
      (s : TimeSession) (original : ℕ)
      → (read_original h s).0 ≡ some original
      → (read_remote_sdo h 32 time_cob_id_index 0 0 default_sdo_timeout_ms
          default_completion_margin_ms s.session).0
        ≡ (success, original)
  unfolding read_original
  read_original-success s original e = ground (arith, e)

  nothing_pending : (s : Session) → unstarted s.log ≡ false → IsNoted (fresh_flags h s)
  nothing_pending s w = ground (arith, w)

  -- A TIME validation with result zero has read the original value of 0x1012 after its first snapshot,
  -- and whatever it and the device have done since, the newest access to 0x1012 is a successful read
  -- of that value again; and where no Reset Communication was pending before it, each one that Lely has
  -- accepted has a Start after it that Lely has accepted.
  pub time_process-Restored :
      (s : Session)
      → unstarted s.log ≡ false
      → (time_process h s).0 ≡ 0
      → let t = (read_time_diagnostic h snapshot_retry_count (fresh_flags h s)).1.session in
        (original : ℕ) × ((read_remote_sdo h 32 time_cob_id_index 0 0 default_sdo_timeout_ms
            default_completion_margin_ms t).0
          ≡ (success, original))
        × (newest_remote time_cob_id_index 0 (time_process h s).1.session.log
            ≡ some (reads original success))
        × (unstarted (time_process h s).1.session.log ≡ false)
  unfolding time_process
  time_process-Restored s w e =
      let a = read_time_diagnostic h snapshot_retry_count (fresh_flags h s) in
      let b = read_original h a.1 in
      elim (Option-cases a.0) [
        | inl q ↦ absurd (ground (arith, e, q))
        | inr (d, q) ↦ elim (Option-cases b.0) [
          | inl r ↦ absurd (ground (arith, e, q, r))
          | inr (original, r) ↦ elim (Bool-cases (is_supported h original)) [
            | inr u ↦ absurd (ground (arith, e, q, r, u))
            | inl u ↦
                let v = validate_time h original b.1 in
                let passed : v.0 ≡ true = ground (arith, e, q, r, u) in
                let same : time_process h s ≡ (0, v.1) = ground (arith, q, r, u, passed) in
                let noted = read_original-IsNoted h a.1 (
                  diagnostic-IsNoted h snapshot_retry_count (fresh_flags h s)
                    (nothing_pending s w)) in
                let started = validate_time-started h original b.1 passed noted in
                let kept = (validate_time-Restored original b.1 passed).0 in
                (
                  original,
                  read_original-success a.1 original r,
                  ap (λ (r : ℕ × TimeSession). newest_remote time_cob_id_index 0 r.1.session.log)
                        same
                      ∙ kept,
                  ap (λ (r : ℕ × TimeSession). unstarted r.1.session.log) same ∙ started,
                )
          ]
        ]
      ]
