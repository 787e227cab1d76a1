-- ===== src/Srdo/Crc.antt =====
-- The SRDO configuration checksum, CRC-16 with the CCITT polynomial (src/srdo_process.cpp).
pub mod Detects
use canopen_slave_tester.Prelude.{
  ℕ, zero, suc, ◌+◌, ◌*◌, ◌/◌, ◌%◌, ◌^◌, Bool, List, [], ◌∷◌, ltb, ◌==◌, not, if◌then◌else◌,
  bit_and, bit_xor,
}
use canopen_slave_tester.Srdo.{SrdoCommProfile, SrdoMapProfile}

-- One round of the loop over the bits, in 16 bits.
unfoldable pub crc_round : ℕ → ℕ
crc_round crc =
    if not (bit_and crc 0x8000 == 0) then bit_xor (crc * 2) 0x1021 % 2 ^ 16 else crc * 2 % 2 ^ 16

-- The loop, by the rounds left.
unfoldable pub crc_rounds : ℕ → ℕ → ℕ
crc_rounds zero crc = crc
crc_rounds (suc n) crc = crc_rounds n (crc_round crc)

unfoldable pub crc16_ccitt_byte : ℕ → ℕ → ℕ
crc16_ccitt_byte crc byte = crc_rounds 8 (bit_xor crc (byte * 2 ^ 8 % 2 ^ 16))

unfoldable pub crc_append_u16_le : ℕ → ℕ → ℕ
crc_append_u16_le crc value =
    crc16_ccitt_byte (crc16_ccitt_byte crc (value % 256)) (value / 2 ^ 8 % 256)

-- The loop over the shifts 0, 8, 16 and 24.
unfoldable pub crc_append_shifted : List ℕ → ℕ → ℕ → ℕ
crc_append_shifted [] crc value = crc
crc_append_shifted (shift ∷ shifts) crc value =
    crc_append_shifted shifts (crc16_ccitt_byte crc (value / 2 ^ shift % 256)) value

unfoldable pub crc_append_u32_le : ℕ → ℕ → ℕ
crc_append_u32_le crc value = crc_append_shifted (0 ∷ 8 ∷ 16 ∷ 24 ∷ []) crc value

-- The loop over the mapping entries, from entry `i` on.
unfoldable pub crc_append_entries : ℕ → ℕ → List ℕ → ℕ → ℕ
crc_append_entries i count [] crc = crc
crc_append_entries i count (e ∷ es) crc =
    let rest =
      crc_append_entries (i + 1) count es
        (crc_append_u32_le (crc16_ccitt_byte crc ((i + 1) % 256)) e) in
    if ltb i count then rest else crc

unfoldable pub calculate_srdo_checksum : SrdoCommProfile → SrdoMapProfile → ℕ
calculate_srdo_checksum comm map =
    let crc = crc16_ccitt_byte 0 comm.direction in
    let crc = crc_append_u16_le crc comm.sct_ms in
    let crc = crc16_ccitt_byte crc comm.srvt_ms in
    let crc = crc_append_u32_le crc comm.normal_id in
    let crc = crc_append_u32_le crc comm.inverted_id in
    let crc = crc16_ccitt_byte crc map.count in crc_append_entries 0 map.count map.entry crc
