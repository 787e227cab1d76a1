-- ===== src/SdoBlock/Process/Restored.antt =====
-- What a block-transfer validation that passes leaves behind (src/sdo_block_process.cpp).
use canopen_slave_tester.Prelude.{
  ℕ, ◌<◌, ◌≤◌, ◌≡◌, refl, inl, inr, false, ◌&&◌, Option, none, some, List, [], ◌∷◌, arith, not,
  Bool-cases, length,
}
use canopen_slave_tester.Host.{Session, success}
use canopen_slave_tester.Sdo.Access.{is_success→≡}
use canopen_slave_tester.Sdo.{default_sdo_timeout_ms, default_completion_margin_ms}
use canopen_slave_tester.Payload.Distinct.{validate_payload→≡}
use canopen_slave_tester.SdoBlock.{
  BlockHost, BlockSession, BlockAccess, block_download, block_upload, read_block, write_block,
}
use canopen_slave_tester.SdoBlock.Process.Running.{
  left_stopped, IsKnown, nothing_confirmed, run_cases-kept, restore_node-kept, clean_up-kept,
}
use canopen_slave_tester.SdoBlock.Process.{
  block_object_index, max_payload_size, fresh_block, download_payload, upload_payload, run_cases,
  restore_original_payload, save_original, restore_node, clean_up, after_save, sdo_block_process,
}

-- The two newest accesses are a successful download of the payload and, after it, a successful upload
-- of the same bytes.
abbrev pub IsWrittenBack : List ℕ → BlockSession → Type 0
IsWrittenBack original s =
    (earlier : List BlockAccess) × (s.accesses
      ≡ block_upload block_object_index 0 success original
        ∷ block_download block_object_index 0 original success
        ∷ earlier)

module _ (h : BlockHost) where
  download-accesses :
      (payload : List ℕ) (s : BlockSession)
      → (download_payload h payload s).0 ≡ some tt
      → ((download_payload h payload s).1.accesses
          ≡ block_download block_object_index 0 payload success ∷ s.accesses)
        × ((download_payload h payload s).1.node_stopped ≡ s.node_stopped)
  unfolding download_payload write_block
  download-accesses payload s e =
      let r = (write_block h block_object_index 0 payload s).0.0 in
      let fine : r ≡ success = is_success→≡ r (ground (arith, e)) in ground (arith, e, fine)

  upload-accesses :
      (expected : List ℕ) (s : BlockSession)
      → (upload_payload h expected s).0 ≡ some tt
      → ((upload_payload h expected s).1.accesses
          ≡ block_upload block_object_index 0 success expected ∷ s.accesses)
        × ((upload_payload h expected s).1.node_stopped ≡ s.node_stopped)
  unfolding upload_payload read_block
  upload-accesses expected s e =
      let r =
        (read_block h block_object_index 0 default_sdo_timeout_ms default_completion_margin_ms
          s).0 in
      let fine : r.result ≡ success = is_success→≡ r.result (ground (arith, e)) in
      let same : expected ≡ r.value =
        validate_payload→≡ expected r.value (ground (arith, e, fine)) in
      ground (arith, e, fine, same)

  restore-IsWrittenBack :
      (original : List ℕ) (s : BlockSession)
      → (restore_original_payload h original s).0 ≡ some tt
      → IsWrittenBack original (restore_original_payload h original s).1
        × ((restore_original_payload h original s).1.node_stopped ≡ s.node_stopped)
  unfolding restore_original_payload
  restore-IsWrittenBack original s e =
      let t = (download_payload h original s).1 in
      let down = download-accesses original s in
      let up = upload-accesses original t in
      ((s.accesses, ground (arith, e, down, up)), ground (arith, e, down, up))

  clean_up-IsWrittenBack :
      (original : List ℕ) (s : BlockSession)
      → (clean_up h original s).0 ≡ some tt
      → IsWrittenBack original (clean_up h original s).1
        × ((clean_up h original s).1.node_stopped ≡ false)
  unfolding clean_up
  clean_up-IsWrittenBack original s e = elim (Bool-cases (s.channel_known && not s.node_stopped)) [
    | inr unknown ↦ absurd (ground (arith, e, unknown))
    | inl known ↦
        let same : clean_up h original s ≡ restore_original_payload h original s =
          ground (arith, known) in
        let done = restore-IsWrittenBack original s (ground (arith, e, known)) in
        rw same (done.0, ground (arith, done.1, known))
  ]

  saved-accesses :
      (original : List ℕ) (s : BlockSession)
      → (save_original h s).0 ≡ some original
      → (0 < length original)
        × (length original ≤ max_payload_size)
        × ((save_original h s).1.accesses
            ≡ block_upload block_object_index 0 success original ∷ s.accesses)
  unfolding save_original read_block
  saved-accesses original s e =
      let r =
        (read_block h block_object_index 0 default_sdo_timeout_ms default_completion_margin_ms
          s).0 in
      let fine : r.result ≡ success = is_success→≡ r.result (ground (arith, e)) in
      (ground (arith, e, fine), ground (arith, e, fine), ground (arith, e, fine))

  after_save-IsWrittenBack :
      (r : Option (List ℕ) × BlockSession)
      → IsKnown r.1
      → (after_save h r).0 ≡ 0
      → (original : List ℕ) × (r.0 ≡ some original)
        × IsWrittenBack original (after_save h r).1
        × (left_stopped (after_save h r).1.confirmations ≡ false)
  unfolding after_save
  after_save-IsWrittenBack (none, t) k e = absurd (ground (arith, e))
  after_save-IsWrittenBack (some original, t) k e =
      let u = run_cases h t in
      let v = restore_node h u.1 in
      let done = clean_up-IsWrittenBack original v.1 (ground (arith, e)) in
      let known =
        (clean_up-kept h original).at v.1
          ((restore_node-kept h).at u.1 ((run_cases-kept h).at t k)) in
      (original, refl, done.0, ground (arith, known, done.1))

  save_original-kept : (s : Session) → IsKnown (save_original h (fresh_block s)).1
  unfolding save_original read_block
  save_original-kept s = nothing_confirmed (save_original h (fresh_block s)).1 (ground arith)

  -- A block-transfer validation with result zero has read the payload of 0x2304 with its first access,
  -- of one byte at least and of at most 2048; its last two accesses are a successful download of that
  -- payload to 0x2304 and a successful upload that gives the same bytes back; and
  -- the newest state of the node that it has confirmed, if any, is not Stopped.
  pub sdo_block_process-IsWrittenBack :
      (s : Session)
      → (sdo_block_process h s).0 ≡ 0
      → (original : List ℕ) × (0 < length original)
        × (length original ≤ 2048)
        × ((save_original h (fresh_block s)).1.accesses
            ≡ block_upload block_object_index 0 success original ∷ [])
        × IsWrittenBack original (sdo_block_process h s).1
        × (left_stopped (sdo_block_process h s).1.confirmations ≡ false)
  unfolding sdo_block_process
  sdo_block_process-IsWrittenBack s e =
      let r = save_original h (fresh_block s) in
      let done = after_save-IsWrittenBack r (save_original-kept s) e in
      let saved = saved-accesses done.0 (fresh_block s) done.1 in
      (done.0, saved.0, saved.1, saved.2, done.2, done.3)
