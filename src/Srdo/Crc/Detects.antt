-- ===== src/Srdo/Crc/Detects.antt =====
-- Which changes of the configuration the SRDO checksum detects (src/srdo_process.cpp).
use canopen_slave_tester.Prelude.{
  ℕ, zero, suc, ◌+◌, ◌*◌, ◌/◌, ◌%◌, ◌^◌, ◌<◌, ◌≡◌, ◌≢◌, refl, sym, ap, ◌∙◌, true, ◌&&◌, List, [],
  ◌∷◌, ◌++◌, arith, ltb, ◌==◌, if◌then◌else◌, bit_xor, bit_xor_cancel, bit_xor-lt,
  bit_xor_injective, all_below, all_below_sound, Bool-cases, inl, inr,
}
use canopen_slave_tester.Srdo.{SrdoCommProfile, SrdoMapProfile}
use canopen_slave_tester.Srdo.Crc.{
  crc_round, crc_rounds, crc16_ccitt_byte, crc_append_u16_le, crc_append_shifted, crc_append_u32_le,
  crc_append_entries, calculate_srdo_checksum,
}

-- The round run backwards: the lowest bit tells whether the polynomial was added.
abbrev unround : ℕ → ℕ
unround x = if x % 2 == 0 then x / 2 else bit_xor x 0x1021 / 2 + 2 ^ 15

round_table :
    all_below (2 ^ 16) (λ x. unround (crc_round x) == x && ltb (crc_round x) (2 ^ 16)) ≡ true
unfolding crc_round
round_table = refl

round_at : (x : ℕ) → x < 2 ^ 16 → (unround (crc_round x) == x && ltb (crc_round x) (2 ^ 16)) ≡ true
round_at x h =
    all_below_sound (2 ^ 16) (λ x. unround (crc_round x) == x && ltb (crc_round x) (2 ^ 16)) x
      round_table h

unround-crc_round : (x : ℕ) → x < 2 ^ 16 → unround (crc_round x) ≡ x
unround-crc_round x h = grind (arith, round_at x h)

crc_round-lt : (x : ℕ) → x < 2 ^ 16 → crc_round x < 2 ^ 16
crc_round-lt x h = grind (arith, round_at x h)

crc_round_injective : (x y : ℕ) → x < 2 ^ 16 → y < 2 ^ 16 → crc_round x ≡ crc_round y → x ≡ y
crc_round_injective x y p q e = sym (unround-crc_round x p) ∙ ap unround e ∙ unround-crc_round y q

crc_rounds-lt : (n x : ℕ) → x < 2 ^ 16 → crc_rounds n x < 2 ^ 16
unfolding crc_rounds
crc_rounds-lt zero x h = h
crc_rounds-lt (suc n) x h = crc_rounds-lt n (crc_round x) (crc_round-lt x h)

crc_rounds_injective :
    (n x y : ℕ) → x < 2 ^ 16 → y < 2 ^ 16 → crc_rounds n x ≡ crc_rounds n y → x ≡ y
unfolding crc_rounds
crc_rounds_injective zero x y p q e = e
crc_rounds_injective (suc n) x y p q e =
    crc_round_injective x y p q
      (crc_rounds_injective n (crc_round x) (crc_round y) (crc_round-lt x p) (crc_round-lt y q) e)

shifted : (byte : ℕ) → byte * 2 ^ 8 % 2 ^ 16 < 2 ^ 16
shifted byte = omega arith

crc16_ccitt_byte-lt : (crc byte : ℕ) → crc < 2 ^ 16 → crc16_ccitt_byte crc byte < 2 ^ 16
unfolding crc16_ccitt_byte
crc16_ccitt_byte-lt crc byte h =
    crc_rounds-lt 8 (bit_xor crc (byte * 2 ^ 8 % 2 ^ 16))
      (bit_xor-lt 16 crc (byte * 2 ^ 8 % 2 ^ 16) h (shifted byte))

-- Two checksums that differ still differ after the same byte.
crc16_ccitt_byte_injective :
    (c d byte : ℕ)
    → c < 2 ^ 16
    → d < 2 ^ 16
    → crc16_ccitt_byte c byte ≡ crc16_ccitt_byte d byte
    → c ≡ d
unfolding crc16_ccitt_byte
crc16_ccitt_byte_injective c d byte p q e =
    let s = byte * 2 ^ 8 % 2 ^ 16 in
    let t =
      crc_rounds_injective 8 (bit_xor c s) (bit_xor d s) (bit_xor-lt 16 c s p (shifted byte))
        (bit_xor-lt 16 d s q (shifted byte)) e in
    sym (bit_xor_cancel c s) ∙ ap (λ k. bit_xor k s) t ∙ bit_xor_cancel d s

-- From one checksum, two different bytes give different checksums.
crc16_ccitt_byte_detects :
    (c a b : ℕ)
    → c < 2 ^ 16
    → a < 256
    → b < 256
    → crc16_ccitt_byte c a ≡ crc16_ccitt_byte c b
    → a ≡ b
unfolding crc16_ccitt_byte
crc16_ccitt_byte_detects c a b p q r e =
    let t =
      crc_rounds_injective 8 (bit_xor c (a * 2 ^ 8 % 2 ^ 16)) (bit_xor c (b * 2 ^ 8 % 2 ^ 16))
        (bit_xor-lt 16 c (a * 2 ^ 8 % 2 ^ 16) p (shifted a))
        (bit_xor-lt 16 c (b * 2 ^ 8 % 2 ^ 16) p (shifted b)) e in
    let s = bit_xor_injective c (a * 2 ^ 8 % 2 ^ 16) (b * 2 ^ 8 % 2 ^ 16) t in omega (arith, s)

-- The bytes the checksum is taken over, in their order.
abbrev pub u32_le : ℕ → List ℕ
u32_le v = v / 2 ^ 0 % 256 ∷ v / 2 ^ 8 % 256 ∷ v / 2 ^ 16 % 256 ∷ v / 2 ^ 24 % 256 ∷ []

unfoldable pub entries_bytes : ℕ → ℕ → List ℕ → List ℕ
entries_bytes i count [] = []
entries_bytes i count (e ∷ es) =
    let rest = entries_bytes (i + 1) count es in
    if ltb i count then ((i + 1) % 256 ∷ u32_le e) ++ rest else []

unfoldable pub serialized : SrdoCommProfile → SrdoMapProfile → List ℕ
unfolding entries_bytes
serialized comm map =
    comm.direction
      ∷ comm.sct_ms % 256
      ∷ comm.sct_ms / 2 ^ 8 % 256
      ∷ comm.srvt_ms
      ∷ u32_le comm.normal_id
    ++ u32_le comm.inverted_id
    ++ map.count ∷ entries_bytes 0 map.count map.entry

unfoldable pub crc_over : ℕ → List ℕ → ℕ
crc_over crc [] = crc
crc_over crc (b ∷ bs) = crc_over (crc16_ccitt_byte crc b) bs

crc_append_entries-bytes :
    (i count crc : ℕ) (es : List ℕ)
    → crc_append_entries i count es crc ≡ crc_over crc (entries_bytes i count es)
unfolding crc_append_entries entries_bytes crc_over crc_append_u32_le crc_append_shifted
crc_append_entries-bytes i count crc [] = refl
crc_append_entries-bytes i count crc (e ∷ es) = elim (Bool-cases (ltb i count)) [
  | inl q ↦ rw q (
      crc_append_entries-bytes (i + 1) count
        (crc_append_u32_le (crc16_ccitt_byte crc ((i + 1) % 256)) e) es)
  | inr q ↦ rw q refl
]

calculate_srdo_checksum-bytes :
    (comm : SrdoCommProfile) (map : SrdoMapProfile)
    → calculate_srdo_checksum comm map ≡ crc_over 0 (serialized comm map)
unfolding calculate_srdo_checksum serialized crc_over crc_append_u16_le crc_append_u32_le
    crc_append_shifted
calculate_srdo_checksum-bytes comm map = crc_append_entries-bytes 0 map.count _ map.entry

crc_over_injective :
    (bs : List ℕ) (c d : ℕ) → c < 2 ^ 16 → d < 2 ^ 16 → crc_over c bs ≡ crc_over d bs → c ≡ d
unfolding crc_over
crc_over_injective [] c d p q e = e
crc_over_injective (b ∷ bs) c d p q e = crc16_ccitt_byte_injective c d b p q (
    crc_over_injective bs (crc16_ccitt_byte c b) (crc16_ccitt_byte d b) (crc16_ccitt_byte-lt c b p)
      (crc16_ccitt_byte-lt d b q) e)

pub crc_over_detects :
    (c : ℕ) (pre post : List ℕ) (a b : ℕ)
    → c < 2 ^ 16
    → a < 256
    → b < 256
    → crc_over c (pre ++ a ∷ post) ≡ crc_over c (pre ++ b ∷ post)
    → a ≡ b
unfolding crc_over
crc_over_detects c [] post a b h p q e = crc16_ccitt_byte_detects c a b h p q (
    crc_over_injective post (crc16_ccitt_byte c a) (crc16_ccitt_byte c b)
      (crc16_ccitt_byte-lt c a h) (crc16_ccitt_byte-lt c b h) e)
crc_over_detects c (x ∷ pre) post a b h p q e =
    crc_over_detects (crc16_ccitt_byte c x) pre post a b (crc16_ccitt_byte-lt c x h) p q e

-- Two configurations whose bytes (direction, the two bytes of the SCT, SRVT, the four bytes of each
-- COB-ID, the number of mapping entries, and of each entry its number and its four bytes) differ
-- in exactly one byte have different checksums.
pub calculate_srdo_checksum-detects :
    (comm comm' : SrdoCommProfile) (map map' : SrdoMapProfile) (before after : List ℕ) (a b : ℕ)
    → a < 256
    → b < 256
    → a ≢ b
    → serialized comm map ≡ before ++ a ∷ after
    → serialized comm' map' ≡ before ++ b ∷ after
    → calculate_srdo_checksum comm map ≢ calculate_srdo_checksum comm' map'
calculate_srdo_checksum-detects comm comm' map map' before after a b p q ne s s' e = ne (
    crc_over_detects 0 before after a b (omega arith) p q (
      ap (crc_over 0) (sym s)
      ∙ sym (calculate_srdo_checksum-bytes comm map)
      ∙ e
      ∙ calculate_srdo_checksum-bytes comm' map'
      ∙ ap (crc_over 0) s'))
