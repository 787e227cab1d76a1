-- ===== src/SdoBlock/Process/Stress.antt =====
-- The payloads of the stress case of src/sdo_block_process.cpp.
use canopen_slave_tester.Prelude.{
  ℕ, ◌+◌, ◌*◌, ◌%◌, ◌^◌, ◌<◌, ◌≡◌, true, arith, bit_xor-lt, bit_xor_injective,
}
use canopen_slave_tester.Payload.{make_payload, validate_payload}
use canopen_slave_tester.Payload.Distinct.{validate_payload-make_payload}
use canopen_slave_tester.SdoBlock.Process.{
  pattern_seed, max_payload_size, stress_iterations, stress_seed,
}

stress_seed-lt : (i : ℕ) → stress_seed i < 2 ^ 32
unfolding stress_seed
stress_seed-lt i =
    bit_xor-lt 32 pattern_seed ((0x11000000 + i * 0x01010101) % 2 ^ 32) (omega arith) (omega arith)

stress_seed_injective : (i j : ℕ) → i < 100 → j < 100 → stress_seed i ≡ stress_seed j → i ≡ j
unfolding stress_seed
stress_seed_injective i j p q same =
    let offsets =
      bit_xor_injective pattern_seed ((0x11000000 + i * 0x01010101) % 2 ^ 32)
        ((0x11000000 + j * 0x01010101) % 2 ^ 32) same in
    omega (arith, offsets)

-- In the stress case the payload of one iteration is validated as that of another only if the two are
-- the same iteration: an upload that gives back what an earlier iteration has left there fails.
pub stress-distinct :
    (i j : ℕ)
    → i < stress_iterations
    → j < stress_iterations
    → validate_payload
        (make_payload max_payload_size (stress_seed i))
        (make_payload max_payload_size (stress_seed j))
      ≡ true
    → i ≡ j
stress-distinct i j p q e = stress_seed_injective i j p q (
    (validate_payload-make_payload max_payload_size (stress_seed i) (stress_seed j) (omega arith)
        (stress_seed-lt i) (stress_seed-lt j)).0
      e)
