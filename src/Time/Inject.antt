-- ===== src/Time/Inject.antt =====
-- The injection of TIME frames and the proof that the device applies them, from src/time_process.cpp.
pub mod Noted
pub mod Waits
pub mod Applied
use canopen_slave_tester.Prelude.{
  ℕ, zero, suc, ◌+◌, ◌*◌, ◌/◌, ◌%◌, ◌^◌, Bool, true, false, ◌||◌, Option, none, some, List, [], ◌∷◌,
  ltb, leb, ◌==◌, not, if◌then◌else◌,
}
use canopen_slave_tester.Host.{Host, Session, CanMessage, sent, record_action, now, pause}
use canopen_slave_tester.State.{State, ◌>>=◌, ◌>>◌, return, ◌&&&◌}
use canopen_slave_tester.Time.{
  TimeDiagnostic, TimeSession, TimeProc, read_rx_count, read_time_diagnostic, time_position,
  forward_time_delta, elapsed_ms, validate_continuous_advance,
}

abbrev pub snapshot_retry_count : ℕ
snapshot_retry_count = 3

abbrev pub time_can_id_mask : ℕ
time_can_id_mask = 0x7FF

abbrev pub time_message_length : ℕ
time_message_length = 6

abbrev pub classic_can_max_length : ℕ
classic_can_max_length = 8

abbrev pub applied_time_tolerance_ms : ℕ
applied_time_tolerance_ms = 250

abbrev pub negative_observation_wait_ms : ℕ
negative_observation_wait_ms = 120

abbrev pub diagnostic_poll_ms : ℕ
diagnostic_poll_ms = 20

abbrev pub diagnostic_apply_timeout_ms : ℕ
diagnostic_apply_timeout_ms = 1500

-- The turns that a polling loop can take before its deadline, each of which sleeps, and one more.
abbrev pub apply_turns : ℕ
apply_turns = diagnostic_apply_timeout_ms / diagnostic_poll_ms + 1

unfoldable pub time_frame : (can_id dlc milliseconds days : ℕ) → CanMessage
time_frame can_id dlc milliseconds days = record {
  id = can_id;
  flags = 0;
  len = dlc;
  bytes =
      milliseconds % 256
      ∷ milliseconds / 2 ^ 8 % 256
      ∷ milliseconds / 2 ^ 16 % 256
      ∷ milliseconds / 2 ^ 24 % 256
      ∷ days % 256
      ∷ days / 2 ^ 8 % 256
      ∷ 0xA5
      ∷ 0
      ∷ [];
}

abbrev pub pause_time : (duration_ms : ℕ) → TimeProc (Unit {0})
pause_time duration_ms s = (tt, record s { session = pause duration_ms s.session })

abbrev pub plus_timeout : ℕ → ℕ
plus_timeout time = time + diagnostic_apply_timeout_ms * 1000000

-- Whether a snapshot shows the time that was sent, grown by no more than the host's elapsed time and
-- the tolerance.
unfoldable pub is_applied : (injected send_time : ℕ) → TimeDiagnostic → Bool
is_applied injected send_time last =
    leb (forward_time_delta injected (time_position last.milliseconds last.days))
      (elapsed_ms send_time last.sampled_at + applied_time_tolerance_ms)

module _ (h : Host) where
  abbrev pub clock_now : TimeProc ℕ
  clock_now s = (now h s.session, s)

  -- `net_send` is whether Lely's network can be locked, takes the frame and is unlocked.
  unfoldable pub send_time_frame : (can_id dlc milliseconds days : ℕ) → TimeProc Bool
  send_time_frame can_id dlc milliseconds days s =
      let accepted = h.net_send s.session.step in
      if ltb time_can_id_mask can_id || ltb classic_can_max_length dlc then (false, s) else (
        accepted,
        record s {
          session =
              record_action (sent (time_frame can_id dlc milliseconds days) accepted) s.session;
        },
      )

  -- The loop, by the turns left.
  unfoldable pub poll_rx_count : (turns previous deadline : ℕ) → TimeProc Bool
  poll_rx_count zero previous deadline s = (false, s)
  poll_rx_count (suc n) previous deadline s = elim (ltb (now h s.session) deadline) [
    | false ↦ (false, s)
    | true ↦
        let (count, t) = read_rx_count h s in
        elim count [
          | none ↦ (false, t)
          | some current ↦ elim (current == previous) [
            | false ↦ (current == (previous + 1) % 2 ^ 32, t)
            | true ↦ poll_rx_count n previous deadline (pause_time diagnostic_poll_ms t).1
          ]
        ]
  ]

  unfoldable pub wait_for_rx_count : (previous : ℕ) → TimeProc Bool
  wait_for_rx_count previous s =
      poll_rx_count apply_turns previous (plus_timeout (now h s.session)) s

  -- The loop, by the turns left.
  unfoldable pub poll_applied_time :
      (turns expected_rx_count injected send_time deadline : ℕ) → TimeProc (Option TimeDiagnostic)
  poll_applied_time zero expected_rx_count injected send_time deadline s = (none, s)
  poll_applied_time (suc n) expected_rx_count injected send_time deadline s =
      elim (ltb (now h s.session) deadline) [
        | false ↦ (none, s)
        | true ↦
            let (snapshot, t) = read_time_diagnostic h snapshot_retry_count s in
            elim snapshot [
              | none ↦ (none, t)
              | some last ↦ elim (last.rx_count == expected_rx_count) [
                | false ↦ (none, t)
                | true ↦ elim (is_applied injected send_time last) [
                  | true ↦ (some last, t)
                  | false ↦
                      poll_applied_time n expected_rx_count injected send_time deadline
                        (pause_time diagnostic_poll_ms t).1
                ]
              ]
            ]
      ]

  unfoldable pub wait_for_applied_time :
      (expected_rx_count sent_milliseconds sent_days send_time : ℕ)
      → TimeProc (Option TimeDiagnostic)
  wait_for_applied_time expected_rx_count sent_milliseconds sent_days send_time s =
      poll_applied_time apply_turns expected_rx_count (time_position sent_milliseconds sent_days)
        send_time (plus_timeout (now h s.session)) s

  -- `none` is the result false.
  unfoldable pub inject_and_verify_time :
      (can_id milliseconds days : ℕ) → TimeProc (Option TimeDiagnostic)
  inject_and_verify_time can_id milliseconds days = do
    count ← read_rx_count h
    elim count [
      | none ↦ return none
      | some previous ↦ do
        send_time ← clock_now
        queued ← send_time_frame can_id time_message_length milliseconds days
        if not queued then return none else do
          received ← wait_for_rx_count previous
          if not received
              then return none
              else wait_for_applied_time ((previous + 1) % 2 ^ 32) milliseconds days send_time
    ]

  -- After a frame that is not to be applied, and a pause.
  unfoldable pub still_advances : (expected_rx_count_delta : ℕ) → TimeDiagnostic → TimeProc Bool
  still_advances expected_rx_count_delta before = do
    after ← read_time_diagnostic h snapshot_retry_count
    return (elim after [
      | none ↦ false
      | some a ↦ validate_continuous_advance before a expected_rx_count_delta
    ])

  unfoldable pub verify_invalid_dlc : (can_id dlc : ℕ) → TimeProc Bool
  verify_invalid_dlc can_id dlc = do
    snapshot ← read_time_diagnostic h snapshot_retry_count
    elim snapshot [
      | none ↦ return false
      | some before ↦ do
        queued ← send_time_frame can_id dlc 70000000 40000
        if not queued
            then return false
            else do pause_time negative_observation_wait_ms; still_advances 0 before
    ]
