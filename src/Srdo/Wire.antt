-- ===== src/Srdo/Wire.antt =====
-- The payload of the SRDO frames and the test of a captured pair (src/srdo_process.cpp).
pub mod Pair
use canopen_slave_tester.Prelude.{
  ℕ, zero, suc, ◌+◌, ◌*◌, ◌-◌, ◌/◌, ◌%◌, ◌^◌, Bool, true, false, ◌&&◌, ◌||◌, List, [], ◌∷◌, ltb,
  ◌==◌, not, if◌then◌else◌, bit_or, bit_xor, get_or,
}
use canopen_slave_tester.Host.{CanMessage}
use canopen_slave_tester.Srdo.{WireFrame, tx_normal_can_id, tx_inverted_can_id, payload_length}

unfoldable pub encode_u32 : ℕ → List ℕ
encode_u32 value =
    value % 256 ∷ value / 2 ^ 8 % 256 ∷ value / 2 ^ 16 % 256 ∷ value / 2 ^ 24 % 256 ∷ []

-- Byte `i` of the 8 bytes of a frame.
unfoldable pub byte_at : CanMessage → ℕ → ℕ
byte_at message i = get_or message.bytes i 0

unfoldable pub decode_u32 : CanMessage → ℕ
decode_u32 message =
    bit_or
      (bit_or (bit_or (byte_at message 0) (byte_at message 1 * 2 ^ 8)) (byte_at message 2 * 2 ^ 16))
      (byte_at message 3 * 2 ^ 24)

-- The complement of a byte.
unfoldable pub complement : ℕ → ℕ
complement byte = bit_xor byte 0xFF

-- The loop over the payload bytes, from byte `i` on with `n` of them left.
unfoldable pub inverse_bytes : ℕ → ℕ → CanMessage → CanMessage → Bool
inverse_bytes zero i normal inverted = true
inverse_bytes (suc n) i normal inverted =
    let rest = inverse_bytes n (i + 1) normal inverted in
    if not (byte_at inverted i == complement (byte_at normal i)) then false else rest

unfoldable pub validate_wire_pair : WireFrame → WireFrame → ℕ → Bool
validate_wire_pair normal inverted expected_normal =
    if not (normal.message.id == tx_normal_can_id)
      || not (inverted.message.id == tx_inverted_can_id)
      || not (normal.message.flags == 0)
      || not (inverted.message.flags == 0)
      || not (normal.message.len == payload_length)
      || not (inverted.message.len == payload_length)
    then false
    else if not (inverse_bytes payload_length 0 normal.message inverted.message)
    then false
    else if not (decode_u32 normal.message == expected_normal)
    then false
    else if ltb inverted.timestamp normal.timestamp
    then false
    else true
