-- ===== src/Srdo/Examples.antt =====
-- Runs of the SRDO checksum, frames and pair synchronizer (src/srdo_process.cpp).
use canopen_slave_tester.Prelude.{
  ℕ, ◌≡◌, ◌≢◌, ◌↔◌, refl, true, false, List, [], ◌∷◌, ◌++◌, arith, some,
}
use canopen_slave_tester.Host.{CanMessage, read_frame}
use canopen_slave_tester.Srdo.{SrdoCommProfile, SrdoMapProfile, WireFrame}
use canopen_slave_tester.Srdo.Crc.{calculate_srdo_checksum}
use canopen_slave_tester.Srdo.Crc.Detects.{
  serialized, entries_bytes, calculate_srdo_checksum-detects,
}
use canopen_slave_tester.Srdo.Wire.{byte_at, encode_u32, validate_wire_pair}
use canopen_slave_tester.Srdo.Wire.Pair.{IsPayload, IsPairOf, validate_wire_pair_iff}
use canopen_slave_tester.Srdo.Channel.{send_pair, send_rx, wait_for_any_tx_until}
use canopen_slave_tester.Srdo.PairSync.{
  expect_normal, TxPairSynchronizer, Turn, on_frame, keepalive_after, read_deadline, wait_turn,
  turns, next_pair,
}
use canopen_slave_tester.Srdo.PairSync.Sequence.{IsCapture, next_pair-IsCapture}

abbrev comm : ℕ → SrdoCommProfile
comm srvt = record {
  direction = 1;
  sct_ms = 100;
  srvt_ms = srvt;
  transmission_type = 254;
  normal_id = 0x101;
  inverted_id = 0x102;
}

abbrev mapping : SrdoMapProfile
mapping = record { count = 2; entry = 0x23060120 ∷ 0x23060220 ∷ [] }

abbrev rest : List ℕ
rest =
    0x01 ∷ 0x01 ∷ 0 ∷ 0 ∷ 0x02 ∷ 0x01 ∷ 0 ∷ 0 ∷ 2 ∷ 1 ∷ 0x20 ∷ 0x01 ∷ 0x06 ∷ 0x23 ∷ 2 ∷ 0x20 ∷ 0x02
    ∷ 0x06 ∷ 0x23 ∷ []

serialized-comm : (srvt : ℕ) → serialized (comm srvt) mapping ≡ (1 ∷ 100 ∷ 0 ∷ []) ++ srvt ∷ rest
unfolding serialized entries_bytes
serialized-comm srvt = refl

calculate_srdo_checksum-detects_example :
    calculate_srdo_checksum (comm 20) mapping ≢ calculate_srdo_checksum (comm 21) mapping
calculate_srdo_checksum-detects_example =
    calculate_srdo_checksum-detects (comm 20) (comm 21) mapping mapping (1 ∷ 100 ∷ 0 ∷ []) rest 20
      21 (omega arith) (omega arith) (ground arith) (serialized-comm 20) (serialized-comm 21)

abbrev tx : ℕ → List ℕ → CanMessage
tx id payload = record { id = id; flags = 0; len = 4; bytes = payload }

abbrev normal_frame : WireFrame
normal_frame = record { message = tx 0x103 (0x78 ∷ 0x56 ∷ 0x34 ∷ 0x12 ∷ []); timestamp = 10 }

abbrev inverted_frame : WireFrame
inverted_frame = record { message = tx 0x104 (0x87 ∷ 0xA9 ∷ 0xCB ∷ 0xED ∷ []); timestamp = 12 }

normal-IsPayload : IsPayload normal_frame.message
unfolding IsPayload byte_at
normal-IsPayload = (omega arith, omega arith, omega arith, omega arith)

inverted-IsPayload : IsPayload inverted_frame.message
unfolding IsPayload byte_at
inverted-IsPayload = (omega arith, omega arith, omega arith, omega arith)

encoded : normal_frame.message.bytes ≡ encode_u32 0x12345678 ++ []
unfolding encode_u32
encoded = refl

validate_wire_pair_iff_example :
    validate_wire_pair normal_frame inverted_frame 0x12345678 ≡ true
    ↔ IsPairOf normal_frame inverted_frame 0x12345678
validate_wire_pair_iff_example =
    validate_wire_pair_iff normal_frame inverted_frame 0x12345678 normal-IsPayload
      inverted-IsPayload

abbrev resynchronizing : TxPairSynchronizer
resynchronizing = record {
  allow_initial_resync = true;
  synchronized = false;
  initial_resync_used = false;
  state = expect_normal;
  normal = normal_frame;
  normal_deadline = 0;
}

abbrev turn : WireFrame → Turn
turn f = record {
  now = 1;
  keepalive_test = 1;
  keepalive_accepted = (true, true);
  keepalive_sent = 2;
  reads = record { now = 2; answer = read_frame f.message f.timestamp } ∷ [];
  retry_accepted = (true, true);
  retry_sent = 3;
  normal_seen = 3;
}

abbrev leading_inverted : List Turn
leading_inverted = turn inverted_frame ∷ turn normal_frame ∷ turn inverted_frame ∷ []

captured :
    (next_pair 1500000000 true (0, 0) leading_inverted resynchronizing).pair
    ≡ some (normal_frame, inverted_frame)
unfolding next_pair turns wait_turn on_frame keepalive_after read_deadline send_pair send_rx
    encode_u32 wait_for_any_tx_until
captured = refl

next_pair-IsCapture_example :
    IsCapture resynchronizing normal_frame inverted_frame
      (next_pair 1500000000 true (0, 0) leading_inverted resynchronizing)
next_pair-IsCapture_example =
    next_pair-IsCapture 1500000000 true (0, 0) leading_inverted resynchronizing normal_frame
      inverted_frame refl captured
