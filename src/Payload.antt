-- ===== src/Payload.antt =====
-- The deterministic payloads of the SDO validations and their checksum, which
-- src/sdo_block_process.cpp and src/sdo_client_process.cpp define alike.
pub mod Distinct
use canopen_slave_tester.Prelude.{
  ℕ, zero, suc, ◌+◌, ◌*◌, ◌/◌, ◌%◌, ◌^◌, Bool, false, List, [], ◌∷◌, ◌==◌, bit_and, bit_xor, length,
  same_bytes, not, if◌then◌else◌,
}

abbrev fnv_offset : ℕ
fnv_offset = 2166136261

abbrev fnv_prime : ℕ
fnv_prime = 16777619

unfoldable pub pattern_byte : (seed offset : ℕ) → ℕ
pattern_byte seed offset = bit_xor (seed / 2 ^ (bit_and offset 0x03 * 8) % 256) (offset % 256)

-- The bytes from an offset on, by the number left.
unfoldable pub payload_from : (left seed offset : ℕ) → List ℕ
payload_from zero seed offset = []
payload_from (suc n) seed offset = pattern_byte seed offset ∷ payload_from n seed (offset + 1)

unfoldable pub make_payload : (size seed : ℕ) → List ℕ
make_payload size seed = payload_from size seed 0

unfoldable pub fnv : (value : ℕ) → List ℕ → ℕ
fnv value [] = value
fnv value (byte ∷ bytes) = fnv (bit_xor value byte * fnv_prime % 2 ^ 32) bytes

-- FNV-1a, of 32 bits.
unfoldable pub checksum : List ℕ → ℕ
checksum bytes = fnv fnv_offset bytes

unfoldable pub validate_payload : (expected actual : List ℕ) → Bool
validate_payload expected actual =
    if not (length actual == length expected)
    then false
    else if not (checksum actual == checksum expected)
    then false
    else same_bytes actual expected
