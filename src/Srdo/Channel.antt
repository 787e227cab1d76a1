-- ===== src/Srdo/Channel.antt =====
-- The CAN channel of the SRDO validation: class SrdoWireFixture of src/srdo_process.cpp. What the
-- channel answers is an argument; a list of reads stops where the clock has passed the deadline.
pub mod Sent
use canopen_slave_tester.Prelude.{
  ℕ, ◌-◌, Bool, true, false, ◌&&◌, ◌||◌, List, [], ◌∷◌, ◌++◌, ltb, ◌==◌, not, if◌then◌else◌, take,
  replicate, Option, none, some,
}
use canopen_slave_tester.Host.{CanMessage, ChannelRead, read_error, read_nothing, read_frame}
use canopen_slave_tester.Srdo.{
  WireFrame, rx_normal_can_id, rx_inverted_can_id, tx_normal_can_id, tx_inverted_can_id,
  payload_length,
}
use canopen_slave_tester.Srdo.Wire.{encode_u32}

-- One turn of a loop that reads: the clock that the loop test looks at, and the answer of the read.
pub record Read : Type 0 where
  pub now : ℕ
  pub answer : ChannelRead

unfoldable pub drain : ℕ → List Read → Bool
drain deadline [] = false
drain deadline (r ∷ reads) =
    let rest = drain deadline reads in
    if ltb r.now deadline
    then elim r.answer [
      | read_error would_block ↦ would_block
      | read_nothing ↦ rest
      | read_frame message timestamp ↦ rest
    ]
    else false

-- The frames that are written, and the result. `accepted` is whether the channel takes the frame.
unfoldable pub send_rx : Bool → ℕ → Option (List ℕ) → ℕ → Bool × List CanMessage
send_rx accepted can_id none dlc = (false, [])
send_rx accepted can_id (some payload) dlc =
    if not (can_id == rx_normal_can_id) && not (can_id == rx_inverted_can_id) || ltb 8 dlc
    then (false, [])
    else let message : CanMessage = record {
      id = can_id;
      flags = 0;
      len = dlc;
      bytes = take dlc payload ++ replicate (8 - dlc) 0;
    } in
      if not accepted then (false, []) else (true, message ∷ [])

-- `accepted` has the channel's answers to the first and to the second frame.
unfoldable pub send_pair : Bool × Bool → ℕ → ℕ → Bool × List CanMessage
send_pair accepted normal inverted =
    let first = send_rx accepted.0 rx_normal_can_id (some (encode_u32 normal)) payload_length in
    let second =
      send_rx accepted.1 rx_inverted_can_id (some (encode_u32 inverted)) payload_length in
    if not first.0 then (false, first.1) else (second.0, first.1 ++ second.1)

pub data WireWaitResult : Type 0 where
  frame : WireFrame → WireWaitResult
  timeout error : WireWaitResult

unfoldable pub wait_for_any_tx_until : ℕ → List Read → WireWaitResult
wait_for_any_tx_until deadline [] = timeout
wait_for_any_tx_until deadline (r ∷ reads) =
    let rest = wait_for_any_tx_until deadline reads in
    if ltb r.now deadline
    then elim r.answer [
      | read_error would_block ↦ if would_block then timeout else error
      | read_nothing ↦ rest
      | read_frame message timestamp ↦
          if message.id == tx_normal_can_id || message.id == tx_inverted_can_id
          then frame (record { message = message; timestamp = timestamp })
          else rest
    ]
    else timeout
