-- ===== src/Payload/Distinct.antt =====
-- What a validated payload shows (src/sdo_block_process.cpp).
use canopen_slave_tester.Prelude.{
  ℕ, zero, suc, ◌+◌, ◌*◌, ◌/◌, ◌%◌, ◌^◌, ◌<◌, ◌≤◌, ◌≡◌, refl, sym, ap, ◌∙◌, ◌↔◌, true, List, ◌∷◌,
  arith, bit_xor, bit_xor_cancel, length, same_bytes→≡, same_bytes_refl, ==_refl,
}
use canopen_slave_tester.Payload.{
  pattern_byte, payload_from, make_payload, checksum, validate_payload,
}

pub validate_payload→≡ :
    (expected actual : List ℕ) → validate_payload expected actual ≡ true → expected ≡ actual
unfolding validate_payload
validate_payload→≡ expected actual e = sym (same_bytes→≡ actual expected (ground (arith, e)))

pub validate_payload_refl : (payload : List ℕ) → validate_payload payload payload ≡ true
unfolding validate_payload
validate_payload_refl payload =
    ground (arith, ==_refl (length payload), ==_refl (checksum payload), same_bytes_refl payload)

-- A received payload is validated exactly if it is the expected one.
pub validate_payload_iff :
    (expected actual : List ℕ) → (validate_payload expected actual ≡ true) ↔ (expected ≡ actual)
validate_payload_iff expected actual =
    (validate_payload→≡ expected actual, λ same. rw same (validate_payload_refl actual))

pub length-payload_from : (left seed offset : ℕ) → length (payload_from left seed offset) ≡ left
unfolding payload_from
length-payload_from zero seed offset = refl
length-payload_from (suc n) seed offset = ap suc (length-payload_from n seed (offset + 1))

-- The first four bytes give the seed back.
seed_of : List ℕ → ℕ
seed_of (a ∷ b ∷ c ∷ d ∷ rest) =
    bit_xor a 0 + bit_xor b 1 * 256 + bit_xor c 2 * 65536 + bit_xor d 3 * 16777216
seed_of other = 0

seed_of-make_payload :
    (n seed : ℕ) → seed < 2 ^ 32 → seed_of (make_payload (suc (suc (suc (suc n)))) seed) ≡ seed
unfolding seed_of make_payload payload_from pattern_byte
seed_of-make_payload n seed bound = omega (
  arith,
  bit_xor_cancel (seed / 1 % 256) 0,
  bit_xor_cancel (seed / 256 % 256) 1,
  bit_xor_cancel (seed / 65536 % 256) 2,
  bit_xor_cancel (seed / 16777216 % 256) 3,
)

make_payload_injective :
    (size seed seed' : ℕ)
    → 4 ≤ size
    → seed < 2 ^ 32
    → seed' < 2 ^ 32
    → make_payload size seed ≡ make_payload size seed'
    → seed ≡ seed'
make_payload_injective (suc (suc (suc (suc n)))) seed seed' long p q same =
    sym (seed_of-make_payload n seed p) ∙ ap seed_of same ∙ seed_of-make_payload n seed' q
make_payload_injective zero seed seed' long p q same = absurd (omega arith)
make_payload_injective (suc zero) seed seed' long p q same = absurd (omega arith)
make_payload_injective (suc (suc zero)) seed seed' long p q same = absurd (omega arith)
make_payload_injective (suc (suc (suc zero))) seed seed' long p q same = absurd (omega arith)

-- A payload of four bytes at least, of 32-bit seeds, is validated as the payload of a seed exactly if
-- it was made of that seed: what is left of a transfer with another seed is never accepted.
pub validate_payload-make_payload :
    (size seed seed' : ℕ)
    → 4 ≤ size
    → seed < 2 ^ 32
    → seed' < 2 ^ 32
    → (validate_payload (make_payload size seed) (make_payload size seed') ≡ true) ↔ (seed ≡ seed')
validate_payload-make_payload size seed seed' long p q = (
  λ e.
      make_payload_injective size seed seed' long p q
        (validate_payload→≡ (make_payload size seed) (make_payload size seed') e),
  λ same. rw same (validate_payload_refl (make_payload size seed')),
)
