-- ===== src/Gfc.antt =====
-- The GFC validation of src/gfc_process.cpp: its data, and the CAN channel of its frames, class
-- GfcWireFixture. A time of the channel's is in nanoseconds of the steady clock.
pub mod Channel
pub mod Remote
pub mod Process
pub mod Examples
use canopen_slave_tester.Prelude.{
  ℕ, zero, suc, ◌+◌, ◌-◌, ◌*◌, ◌/◌, ◌%◌, ◌^◌, Bool, true, false, Option, none, some, List, [], ◌∷◌,
  ltb, leb, ◌==◌, if◌then◌else◌, replicate, ◌&&◌, not,
}
use canopen_slave_tester.Emcy.{is_some}
use canopen_slave_tester.Host.{
  Host, Session, Proc, CanMessage, ChannelRead, read_error, read_nothing, read_frame, sent, next,
  record_action, now,
}
use canopen_slave_tester.Attempt.{Attempt}

abbrev pub gfc_can_id : ℕ
gfc_can_id = 0x001

abbrev pub gfc_parameter_index : ℕ
gfc_parameter_index = 0x1300

abbrev pub gfc_diagnostic_index : ℕ
gfc_diagnostic_index = 0x2302

abbrev pub gfc_rx_count_subindex : ℕ
gfc_rx_count_subindex = 1

abbrev pub gfc_safe_requested_subindex : ℕ
gfc_safe_requested_subindex = 2

abbrev pub gfc_producer_request_subindex : ℕ
gfc_producer_request_subindex = 3

abbrev pub gfc_producer_complete_subindex : ℕ
gfc_producer_complete_subindex = 4

abbrev pub gfc_producer_result_subindex : ℕ
gfc_producer_result_subindex = 5

abbrev pub sdo_timeout_ms : ℕ
sdo_timeout_ms = 500

abbrev pub sdo_completion_margin_ms : ℕ
sdo_completion_margin_ms = 100

abbrev pub consumer_observation_timeout_ms : ℕ
consumer_observation_timeout_ms = 1500

abbrev pub negative_observation_ms : ℕ
negative_observation_ms = 300

abbrev pub producer_completion_timeout_ms : ℕ
producer_completion_timeout_ms = 1500

abbrev pub wire_capture_timeout_ms : ℕ
wire_capture_timeout_ms = 1500

abbrev pub no_wire_frame_observation_ms : ℕ
no_wire_frame_observation_ms = 300

abbrev pub diagnostic_poll_interval_ms : ℕ
diagnostic_poll_interval_ms = 20

-- `producer_result` is a signed number, here by its unsigned 32-bit representation.
pub record GfcDiagnostic : Type 0 where
  pub rx_count : ℕ
  pub safe_requested : ℕ
  pub producer_request_seq : ℕ
  pub producer_complete_seq : ℕ
  pub producer_result : ℕ

pub record GfcRuntimeState : Type 0 where
  pub original_valid : ℕ
  pub original_valid_saved : Bool
  pub reset_communication_issued : Bool
  pub remote_operational_restored : Bool

pub record GfcWireFrame : Type 0 where
  pub message : CanMessage
  pub timestamp : ℕ

pub data WireWaitResult : Type 0 where
  captured : GfcWireFrame → WireWaitResult
  timed_out channel_failed : WireWaitResult

abbrev pub milliseconds : ℕ → ℕ
milliseconds n = n * 1000000

-- A 32-bit count or sequence number and one.
abbrev pub incremented : ℕ → ℕ
incremented n = (n + 1) % 2 ^ 32

-- The largest `int`.
abbrev pub int_max : ℕ
int_max = 2 ^ 31 - 1

unfoldable pub bounded_timeout_ms : ℕ → ℕ
bounded_timeout_ms timeout = if ltb int_max timeout then int_max else timeout

-- The timeout of one read: what is left to the deadline, and at least a millisecond.
unfoldable pub remaining_ms : (deadline time : ℕ) → ℕ
remaining_ms deadline time =
    let remaining = (deadline - time) / 1000000 in if remaining == 0 then 1 else remaining

unfoldable pub gfc_frame : (dlc : ℕ) → CanMessage
gfc_frame dlc = record { id = gfc_can_id; flags = 0; len = dlc; bytes = replicate 8 0 }

module _ (h : Host) where
  -- The loop, by the reads left; false without any left.
  unfoldable pub drain_reads : (reads : ℕ) → Proc Bool
  drain_reads zero s = (false, s)
  drain_reads (suc n) s = elim (h.channel_read s.step 0) [
    | read_error would_block ↦ (would_block, next s)
    | read_nothing ↦ (true, next s)
    | read_frame message timestamp ↦ drain_reads n (next s)
  ]

  unfoldable pub drain : Proc Bool
  drain s = drain_reads (h.queued s.step + 1) s

  unfoldable pub send : (dlc : ℕ) → Proc Bool
  send dlc s =
      let accepted = not (is_some (h.channel_write s.step)) in
      if ltb 1 dlc then (false, s) else (accepted, record_action (sent (gfc_frame dlc) accepted) s)

  -- The loop, by the turns left. The test at the end of a turn and the one at the start of the next
  -- are one, as nothing is done between them.
  unfoldable pub wait_turns : (turns deadline : ℕ) → Proc WireWaitResult
  wait_turns zero deadline s = (timed_out, s)
  wait_turns (suc n) deadline s = elim (ltb (now h s) deadline) [
    | false ↦ (timed_out, s)
    | true ↦ elim (h.channel_read s.step (bounded_timeout_ms (remaining_ms deadline (now h s)))) [
      | read_error would_block ↦ (if would_block then timed_out else channel_failed, next s)
      | read_nothing ↦ wait_turns n deadline (next s)
      | read_frame message timestamp ↦ elim (message.id == gfc_can_id) [
        | true ↦ (captured (record { message = message; timestamp = timestamp }), next s)
        | false ↦ wait_turns n deadline (next s)
      ]
    ]
  ]

  -- A turn takes a nanosecond at least.
  unfoldable pub wait_for_frame : (timeout_ms : ℕ) → Proc WireWaitResult
  wait_for_frame timeout_ms s =
      wait_turns (milliseconds timeout_ms) (now h s + milliseconds timeout_ms) s

unfoldable pub validate_producer_frame : GfcWireFrame → Bool
validate_producer_frame f = f.message.id == gfc_can_id && f.message.flags == 0 && f.message.len == 0
