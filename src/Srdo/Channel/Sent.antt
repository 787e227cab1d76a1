-- ===== src/Srdo/Channel/Sent.antt =====
-- What a sent pair carries (class SrdoWireFixture of src/srdo_process.cpp).
use canopen_slave_tester.Prelude.{
  ℕ, ◌/◌, ◌%◌, ◌^◌, ◌<◌, ◌≡◌, refl, Bool, true, false, [], ◌∷◌, arith, ◌&&◌,
}
use canopen_slave_tester.Host.{CanMessage}
use canopen_slave_tester.Srdo.{rx_normal_can_id, rx_inverted_can_id, payload_length}
use canopen_slave_tester.Srdo.Channel.{send_rx, send_pair}
use canopen_slave_tester.Srdo.Wire.{encode_u32, decode_u32}
use canopen_slave_tester.Srdo.Wire.Pair.{decode_u32-encode_u32}

-- A frame with this id and no flags, whose four bytes of payload decode to the value.
unfoldable pub Carries : CanMessage → ℕ → ℕ → Type 0
Carries m id value = m.id ≡ id × m.flags ≡ 0 × m.len ≡ payload_length × decode_u32 m ≡ value

abbrev frame_of : ℕ → ℕ → CanMessage
frame_of id value = record {
  id = id;
  flags = 0;
  len = 4;
  bytes =
      value % 256
      ∷ value / 2 ^ 8 % 256
      ∷ value / 2 ^ 16 % 256
      ∷ value / 2 ^ 24 % 256
      ∷ 0
      ∷ 0
      ∷ 0
      ∷ 0
      ∷ [];
}

frame_of-Carries : (id value : ℕ) → value < 2 ^ 32 → Carries (frame_of id value) id value
unfolding Carries encode_u32
frame_of-Carries id value h =
    (refl, refl, refl, decode_u32-encode_u32 (frame_of id value) value (0 ∷ 0 ∷ 0 ∷ 0 ∷ []) h refl)

-- Where the channel takes both frames, sending a pair of 32-bit values succeeds, and it writes one
-- frame to each RX id, the normal one first, that carry the two values.
pub send_pair-Carries :
    (accepted : Bool × Bool) (normal inverted : ℕ)
    → normal < 2 ^ 32
    → inverted < 2 ^ 32
    → (accepted.0 && accepted.1) ≡ true
    → (send_pair accepted normal inverted).0 ≡ true
      × (m : CanMessage) × (m' : CanMessage) × (send_pair accepted normal inverted).1 ≡ m ∷ m' ∷ []
      × Carries m rx_normal_can_id normal
      × Carries m' rx_inverted_can_id inverted
unfolding send_pair send_rx encode_u32
send_pair-Carries (true, true) normal inverted p q a = (
  refl,
  frame_of rx_normal_can_id normal,
  frame_of rx_inverted_can_id inverted,
  refl,
  frame_of-Carries rx_normal_can_id normal p,
  frame_of-Carries rx_inverted_can_id inverted q,
)
send_pair-Carries (true, false) normal inverted p q a = absurd (ground (arith, a))
send_pair-Carries (false, b) normal inverted p q a = absurd (ground (arith, a))
