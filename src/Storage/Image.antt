-- ===== src/Storage/Image.antt =====
-- The raw image of the Storage validation: the turns of its loop, its checksum and its place in the
-- target's memory (src/storage_process.cpp).
use canopen_slave_tester.Prelude.{
  ℕ, zero, suc, ◌+◌, ◌^◌, ◌≤◌, ◌<◌, ◌≡◌, ◌≢◌, ◌↔◌, refl, ◌∙◌, sym, true, List, [], ◌∷◌, ◌++◌, ltb,
  arith, replicate, Option-cases, Bool-cases, inl, inr,
}
use canopen_slave_tester.Host.{Host, Session}
use canopen_slave_tester.Srdo.Crc.{crc16_ccitt_byte}
use canopen_slave_tester.Srdo.Crc.Detects.{crc_over, crc_over_detects}
use canopen_slave_tester.Storage.{
  StorageLayout, crc16_bytes, crc16_ccitt, validate_layout, data_offset, store_chunk, chunk_size,
  raw_read,
}
use canopen_slave_tester.Storage.Diagnostic.{run_diagnostic_command, read_chunks, read_raw_region}

chunk-covers :
    (n len offset : ℕ)
    → len ≤ offset + suc n
    → ltb offset len ≡ true
    → len ≤ offset + chunk_size len offset + n
unfolding chunk_size
chunk-covers n len offset b more = ground (arith, b, more)

crc16_bytes-eq-crc_over : (crc : ℕ) (raw : List ℕ) → crc16_bytes crc raw ≡ crc_over crc raw
unfolding crc16_bytes crc_over
crc16_bytes-eq-crc_over crc [] = refl
crc16_bytes-eq-crc_over crc (b ∷ bs) = crc16_bytes-eq-crc_over (crc16_ccitt_byte crc b) bs

-- The checksum of a raw image detects a change of one byte: images of bytes that differ in just one
-- place have different checksums.
pub crc16_ccitt-detects :
    (pre post : List ℕ) (a b : ℕ)
    → a < 256
    → b < 256
    → a ≢ b
    → crc16_ccitt (pre ++ a ∷ post) ≢ crc16_ccitt (pre ++ b ∷ post)
unfolding crc16_ccitt
crc16_ccitt-detects pre post a b p q n e =
    let same = crc16_bytes-eq-crc_over 0 (pre ++ a ∷ post) in
    let other = crc16_bytes-eq-crc_over 0 (pre ++ b ∷ post) in
    n (crc_over_detects 0 pre post a b (omega arith) p q (sym same ∙ e ∙ other))

-- In a layout of unsigned 32-bit numbers that is accepted, the data fill the raw image from their
-- offset in it to its end; the byte at the offset is in the image exactly if there are data.
pub validate_layout-bounds :
    (layout : StorageLayout)
    → layout.data_address < 2 ^ 32
    → layout.raw_start < 2 ^ 32
    → validate_layout layout ≡ true
    → (data_offset layout + layout.data_length ≡ layout.raw_length)
      × ((data_offset layout < layout.raw_length) ↔ (layout.data_length ≢ 0))
unfolding validate_layout data_offset
validate_layout-bounds layout p q e =
    let filled : data_offset layout + layout.data_length ≡ layout.raw_length =
      ground (arith, p, q, e) in
    (filled, ((λ r z. omega (arith, filled, r, z)), (λ z. ground (arith, filled, z))))

module _ (h : Host) where
  read_chunks-ends :
      (n k len offset : ℕ) (raw : List ℕ) (s : Session)
      → len ≤ offset + n
      → read_chunks h (n + k) len raw offset s ≡ read_chunks h n len raw offset s
  unfolding read_chunks
  read_chunks-ends zero zero len offset raw s b = refl
  read_chunks-ends zero (suc k) len offset raw s b = ground (arith, b)
  read_chunks-ends (suc n) k len offset raw s b =
      let more_turns : suc n + k ≡ suc (n + k) = omega arith in
      rw more_turns (elim (Bool-cases (ltb offset len)) [
        | inr over ↦ ground (arith, over)
        | inl more ↦
            let chunk = chunk_size len offset in
            let r = run_diagnostic_command h raw_read offset chunk 0 true s in
            elim (Option-cases r.0) [
              | inl q ↦ ground (arith, more, q)
              | inr (w, q) ↦
                  let rest =
                    read_chunks-ends n k len (offset + chunk) (store_chunk chunk w raw offset) r.1
                      (chunk-covers n len offset b more) in
                  ground (arith, more, q, rest)
            ]
      ])

  -- The turns given to the loop that reads the raw image are enough: each reads a byte at least.
  pub read_raw_region-ends :
      (layout : StorageLayout) (k : ℕ) (s : Session)
      → read_chunks h (layout.raw_length + k) layout.raw_length (replicate layout.raw_length 0) 0 s
        ≡ read_raw_region h layout s
  unfolding read_raw_region
  read_raw_region-ends layout k s =
      read_chunks-ends layout.raw_length k layout.raw_length 0 (replicate layout.raw_length 0) s
        (omega arith)
