-- ===== src/Srdo/Wire/Pair.antt =====
-- What the payload codec and the test of a captured pair promise (src/srdo_process.cpp).
use canopen_slave_tester.Prelude.{
  List, ◌++◌, ℕ, ◌+◌, ◌*◌, ◌-◌, ◌/◌, ◌%◌, ◌^◌, ◌≤◌, ◌<◌, ◌≡◌, refl, sym, ap, ◌∙◌, ◌↔◌, true, arith,
  ◌==◌, bit_or, bit_or_disjoint, all_below, all_below_sound, get_or,
}
use canopen_slave_tester.Host.{CanMessage}
use canopen_slave_tester.Srdo.{WireFrame, tx_normal_can_id, tx_inverted_can_id, payload_length}
use canopen_slave_tester.Srdo.Wire.{
  encode_u32, byte_at, decode_u32, complement, inverse_bytes, validate_wire_pair,
}

-- The payload bytes of a frame are bytes.
unfoldable pub IsPayload : CanMessage → Type 0
IsPayload m = byte_at m 0 < 256 × byte_at m 1 < 256 × byte_at m 2 < 256 × byte_at m 3 < 256

-- The number the payload stands for, least significant byte first.
unfoldable pub payload_value : CanMessage → ℕ
payload_value m = byte_at m 0 + byte_at m 1 * 2 ^ 8 + byte_at m 2 * 2 ^ 16 + byte_at m 3 * 2 ^ 24

decode_u32-payload_value : (m : CanMessage) → IsPayload m → decode_u32 m ≡ payload_value m
unfolding decode_u32 payload_value IsPayload
decode_u32-payload_value m (p0, p1, p2, p3) =
    let a = byte_at m 0 in
    let b = byte_at m 1 in
    let c = byte_at m 2 in
    let d = byte_at m 3 in
    let ab : bit_or a (b * 2 ^ 8) ≡ a + b * 2 ^ 8 = bit_or_disjoint 8 a b p0 in
    let abc : bit_or (a + b * 2 ^ 8) (c * 2 ^ 16) ≡ a + b * 2 ^ 8 + c * 2 ^ 16 =
      bit_or_disjoint 16 (a + b * 2 ^ 8) c (omega arith) in
    let abcd : bit_or (a + b * 2 ^ 8 + c * 2 ^ 16) (d * 2 ^ 24)
        ≡ a + b * 2 ^ 8 + c * 2 ^ 16 + d * 2 ^ 24 =
      bit_or_disjoint 24 (a + b * 2 ^ 8 + c * 2 ^ 16) d (omega arith) in
    rw (ab, abc, abcd) refl

complement_table : all_below 256 (λ b. complement b == 255 - b) ≡ true
unfolding complement
complement_table = refl

complement-sub : (b : ℕ) → b < 256 → complement b ≡ 255 - b
complement-sub b h =
    grind (arith, all_below_sound 256 (λ b. complement b == 255 - b) b complement_table h)

-- A value of 32 bits that is encoded into the first bytes of a frame is decoded to itself.
pub decode_u32-encode_u32 :
    (m : CanMessage) (value : ℕ) (rest : List ℕ)
    → value < 2 ^ 32
    → m.bytes ≡ encode_u32 value ++ rest
    → decode_u32 m ≡ value
unfolding byte_at encode_u32 payload_value IsPayload
decode_u32-encode_u32 m value rest h e =
    let b0 : byte_at m 0 ≡ value % 256 = ap (λ l. get_or l 0 0) e in
    let b1 : byte_at m 1 ≡ value / 2 ^ 8 % 256 = ap (λ l. get_or l 1 0) e in
    let b2 : byte_at m 2 ≡ value / 2 ^ 16 % 256 = ap (λ l. get_or l 2 0) e in
    let b3 : byte_at m 3 ≡ value / 2 ^ 24 % 256 = ap (λ l. get_or l 3 0) e in
    decode_u32-payload_value m
      (omega (arith, b0), omega (arith, b1), omega (arith, b2), omega (arith, b3))
    ∙ omega (arith, b0, b1, b2, b3)

unfoldable pub HasHeader : WireFrame → ℕ → Type 0
HasHeader f id = f.message.id ≡ id × f.message.flags ≡ 0 × f.message.len ≡ payload_length

AreInverse : CanMessage → CanMessage → Type 0
AreInverse n i =
    byte_at i 0 ≡ complement (byte_at n 0)
    × byte_at i 1 ≡ complement (byte_at n 1)
    × byte_at i 2 ≡ complement (byte_at n 2)
    × byte_at i 3 ≡ complement (byte_at n 3)

inverse_bytes_iff : (n i : CanMessage) → inverse_bytes 4 0 n i ≡ true ↔ AreInverse n i
unfolding inverse_bytes AreInverse
inverse_bytes_iff n i = (
  (λ h. (grind (arith, h), grind (arith, h), grind (arith, h), grind (arith, h))),
  λ h. grind (arith, h),
)

-- On payload bytes, being inverse byte by byte is adding up to 2 ^ 32 - 1.
AreInverse-iff :
    (n i : CanMessage)
    → IsPayload n
    → IsPayload i
    → AreInverse n i ↔ payload_value i + payload_value n ≡ 2 ^ 32 - 1
unfolding AreInverse IsPayload payload_value
AreInverse-iff n i (n0, n1, n2, n3) (i0, i1, i2, i3) =
    let c0 = complement-sub (byte_at n 0) n0 in
    let c1 = complement-sub (byte_at n 1) n1 in
    let c2 = complement-sub (byte_at n 2) n2 in
    let c3 = complement-sub (byte_at n 3) n3 in
    (
      (λ (e0, e1, e2, e3). omega (arith, c0, c1, c2, c3, e0, e1, e2, e3)),
      λ e. (omega (arith, c0, e), omega (arith, c1, e), omega (arith, c2, e), omega (arith, c3, e)),
    )

-- The frames a valid pair consists of: the two CAN ids, no flags, four bytes of payload, the
-- expected value and its complement in 32 bits, and kernel timestamps in order.
unfoldable pub IsPairOf : WireFrame → WireFrame → ℕ → Type 0
IsPairOf normal inverted expected =
    HasHeader normal tx_normal_can_id
    × HasHeader inverted tx_inverted_can_id
    × payload_value normal.message ≡ expected
    × payload_value inverted.message + expected ≡ 2 ^ 32 - 1
    × normal.timestamp ≤ inverted.timestamp

validate_wire_pair_guards :
    (n i : WireFrame) (e : ℕ)
    → validate_wire_pair n i e ≡ true
      ↔ HasHeader n tx_normal_can_id
        × HasHeader i tx_inverted_can_id
        × inverse_bytes 4 0 n.message i.message ≡ true
        × decode_u32 n.message ≡ e
        × n.timestamp ≤ i.timestamp
unfolding validate_wire_pair HasHeader
validate_wire_pair_guards n i e = (
  (λ h. (
    (grind (arith, h), grind (arith, h), grind (arith, h)),
    (grind (arith, h), grind (arith, h), grind (arith, h)),
    grind (arith, h),
    grind (arith, h),
    grind (arith, h),
  )),
  λ ((a, b, c), (a', b', c'), inverse, value, ordered).
      ground (arith, a, b, c, a', b', c', inverse, value, ordered),
)

-- The test of a captured pair accepts exactly the pairs of the expected value, for frames whose
-- payload consists of bytes.
pub validate_wire_pair_iff :
    (normal inverted : WireFrame) (expected : ℕ)
    → IsPayload normal.message
    → IsPayload inverted.message
    → validate_wire_pair normal inverted expected ≡ true ↔ IsPairOf normal inverted expected
unfolding IsPairOf
validate_wire_pair_iff n i e wn wi =
    let guards = validate_wire_pair_guards n i e in
    let decoded = decode_u32-payload_value n.message wn in
    let bytes = inverse_bytes_iff n.message i.message in
    let inverse = AreInverse-iff n.message i.message wn wi in
    (
      (λ h.
          let (hn, hi, inv, value, ordered) = guards.0 h in
          let v : payload_value n.message ≡ e = sym decoded ∙ value in
          (hn, hi, v, omega (arith, v, inverse.0 (bytes.0 inv)), ordered)),
      λ (hn, hi, value, sum, ordered).
          guards.1
            (hn, hi, bytes.1 (inverse.1 (omega (arith, value, sum))), decoded ∙ value, ordered),
    )
