-- ===== src/SdoBlock/Process/Accesses.antt =====
-- The order of the SDO accesses of the block-transfer validation (src/sdo_block_process.cpp): what it
-- does after a request whose completion it has not seen.
use canopen_slave_tester.Prelude.{
  ℕ, ◌≡◌, refl, ◌⊎◌, inl, inr, Bool, true, false, ◌&&◌, List, [], ◌∷◌, arith,
}
use canopen_slave_tester.Host.{SdoOperationResult, success, failed, sdo_timeout, wait_timeout}
use canopen_slave_tester.Attempt.{Attempt, ◌>>◌, require}
use canopen_slave_tester.Payload.{validate_payload}
use canopen_slave_tester.Heartbeat.Process.{is_success}
use canopen_slave_tester.Sdo.{default_sdo_timeout_ms, default_completion_margin_ms, read_remote_sdo}
use canopen_slave_tester.Attempt.Guards.{
  Ends, Guards, Guards-return, Guards-bind, Guards-then, Guards-require, guard_rules,
}
use canopen_slave_tester.SdoBlock.{
  BlockHost, BlockSession, BlockAccess, block_download, block_upload, segmented_upload,
  expedited_upload, cancelled_download, update_channel_state, accessed, read_block, read_segmented,
  write_block, read_expedited,
}
use canopen_slave_tester.SdoBlock.Process.{
  block_object_index, is_failed, is_sdo_timeout, download_payload, upload_payload,
  run_block_round_trip, upload_segmented,
}

abbrev pub is_seen : SdoOperationResult → Bool
is_seen success = true
is_seen failed = true
is_seen sdo_timeout = true
is_seen wait_timeout = false

-- Whether the end of an access has been seen.
abbrev pub is_settled : BlockAccess → Bool
is_settled (block_download index subindex payload result) = is_seen result
is_settled (block_upload index subindex result payload) = is_seen result
is_settled (segmented_upload index subindex result payload) = is_seen result
is_settled (expedited_upload index subindex result value) = is_seen result
is_settled (cancelled_download index subindex payload completed) = completed

abbrev pub all_settled : List BlockAccess → Bool
all_settled [] = true
all_settled (a ∷ as') = is_settled a && all_settled as'

-- All accesses but the newest.
abbrev pub older : List BlockAccess → List BlockAccess
older [] = []
older (a ∷ as') = as'

-- The run with its result: nothing follows an access whose end has not been seen, and the result is
-- one if the newest is such an access.
abbrev pub IsSettledRun : ℕ × BlockSession → Type 0
IsSettledRun r =
    (all_settled (older r.1.accesses) ≡ true) × ((all_settled r.1.accesses ≡ true) ⊎ (r.0 ≡ 1))

-- The channel is known, and the end of each access has been seen.
abbrev pub IsGood : BlockSession → Type 0
IsGood s = (s.channel_known ≡ true) × (all_settled s.accesses ≡ true)

-- The channel is only known where the end of each access has been seen, and nothing follows an access
-- whose end has not.
abbrev pub IsCoherent : BlockSession → Type 0
IsCoherent s =
    ((s.channel_known ≡ false) ⊎ (all_settled s.accesses ≡ true))
    × (all_settled (older s.accesses) ≡ true)

pub older_settled :
    (as' : List BlockAccess) → all_settled as' ≡ true → all_settled (older as') ≡ true
older_settled [] e = refl
older_settled (a ∷ as') e = ground (arith, e)

pub weaken : (s : BlockSession) → IsGood s → IsCoherent s
weaken s g = (inr g.1, older_settled s.accesses g.1)

-- After an access with a result.
abbrev pub IsAfter : SdoOperationResult → BlockSession → Type 0
IsAfter r s = IsCoherent s × ((is_seen r ≡ false) ⊎ IsGood s)

accessed-IsAfter :
    (a : BlockAccess) (r : SdoOperationResult) (s : BlockSession)
    → is_settled a ≡ is_seen r
    → IsGood s
    → IsAfter r (accessed a r s)
unfolding update_channel_state
accessed-IsAfter a wait_timeout s e g = ((inl refl, g.1), inl refl)
accessed-IsAfter a success s e g =
    let k : all_settled (a ∷ s.accesses) ≡ true = ground (arith, e, g) in
    ((inr k, g.1), inr (g.0, k))
accessed-IsAfter a failed s e g =
    let k : all_settled (a ∷ s.accesses) ≡ true = ground (arith, e, g) in
    ((inr k, g.1), inr (g.0, k))
accessed-IsAfter a sdo_timeout s e g =
    let k : all_settled (a ∷ s.accesses) ≡ true = ground (arith, e, g) in
    ((inr k, g.1), inr (g.0, k))

abbrev pub Guarded {ℓ} : {A : Type ℓ} → Attempt BlockSession A → Type ℓ
Guarded p = Guards IsGood IsCoherent p

pub is_success-is_seen : (r : SdoOperationResult) → is_success r ≡ true → is_seen r ≡ true
is_success-is_seen success e = refl
is_success-is_seen failed e = cc
is_success-is_seen sdo_timeout e = cc
is_success-is_seen wait_timeout e = cc

pub is_failed-is_seen : (r : SdoOperationResult) → is_failed r ≡ true → is_seen r ≡ true
unfolding is_failed
is_failed-is_seen success e = refl
is_failed-is_seen failed e = refl
is_failed-is_seen sdo_timeout e = cc
is_failed-is_seen wait_timeout e = cc

pub is_sdo_timeout-is_seen : (r : SdoOperationResult) → is_sdo_timeout r ≡ true → is_seen r ≡ true
unfolding is_sdo_timeout
is_sdo_timeout-is_seen success e = refl
is_sdo_timeout-is_seen failed e = refl
is_sdo_timeout-is_seen sdo_timeout e = refl
is_sdo_timeout-is_seen wait_timeout e = cc

pub IsGood-of :
    (r : SdoOperationResult) (s : BlockSession) → IsAfter r s → is_seen r ≡ true → IsGood s
IsGood-of r s after e = elim after.1 [ inl f ↦ absurd (cc) | inr g ↦ g ]

-- A test of the result, passed only by a result that is seen.
pub tested_end :
    (r : SdoOperationResult) (b : Bool) (s : BlockSession)
    → (b ≡ true → is_seen r ≡ true)
    → IsAfter r s
    → Ends IsGood IsCoherent (require b s)
tested_end r true s p after = IsGood-of r s after (p refl)
tested_end r false s p after = after.0

pub tested_then {ℓ} :
    {A : Type ℓ} (r : SdoOperationResult) (b : Bool) (s : BlockSession) (k : Attempt BlockSession A)
    → (b ≡ true → is_seen r ≡ true)
    → Guarded k
    → IsAfter r s
    → Ends IsGood IsCoherent ((require b >> k) s)
tested_then r true s k p kk after = kk.at s (IsGood-of r s after (p refl))
tested_then r false s k p kk after = after.0

module _ (h : BlockHost) where
  pub read_block-IsAfter :
      (i j t m : ℕ) (s : BlockSession)
      → IsGood s
      → IsAfter (read_block h i j t m s).0.result (read_block h i j t m s).1
  unfolding read_block
  read_block-IsAfter i j t m s g =
      let r = (read_block h i j t m s).0 in
      accessed-IsAfter (block_upload i j r.result r.value) r.result s refl g

  read_segmented-IsAfter :
      (i j : ℕ) (s : BlockSession)
      → IsGood s
      → IsAfter (read_segmented h i j s).0.result (read_segmented h i j s).1
  unfolding read_segmented
  read_segmented-IsAfter i j s g =
      let r = (read_segmented h i j s).0 in
      accessed-IsAfter (segmented_upload i j r.result r.value) r.result s refl g

  pub write_block-IsAfter :
      (i j : ℕ) (payload : List ℕ) (s : BlockSession)
      → IsGood s
      → IsAfter (write_block h i j payload s).0.0 (write_block h i j payload s).1
  unfolding write_block
  write_block-IsAfter i j payload s g =
      let r = (write_block h i j payload s).0.0 in
      accessed-IsAfter (block_download i j payload r) r s refl g

  pub read_expedited-IsAfter :
      (w i j : ℕ) (s : BlockSession)
      → IsGood s
      → IsAfter (read_expedited h w i j s).0 (read_expedited h w i j s).1
  unfolding read_expedited
  read_expedited-IsAfter w i j s g =
      let (r, t) =
        read_remote_sdo h.host w i j 0 default_sdo_timeout_ms default_completion_margin_ms
          s.session in
      accessed-IsAfter (expedited_upload i j r.0 r.1) r.0 s refl g

  pub Guards-download : (payload : List ℕ) → Guarded (download_payload h payload)
  unfolding download_payload
  Guards-download payload = record {
    at = λ s g.
        let r = write_block h block_object_index 0 payload s in
        tested_end r.0.0 (is_success r.0.0) r.1 (is_success-is_seen r.0.0)
          (write_block-IsAfter block_object_index 0 payload s g);
  }

  pub Guards-upload : (expected : List ℕ) → Guarded (upload_payload h expected)
  unfolding upload_payload
  Guards-upload expected = record {
    at = λ s g.
        let r =
          read_block h block_object_index 0 default_sdo_timeout_ms default_completion_margin_ms s in
        tested_end r.0.result (is_success r.0.result && validate_payload expected r.0.value) r.1
          (λ e. is_success-is_seen r.0.result (ground (arith, e)))
          (read_block-IsAfter block_object_index 0 default_sdo_timeout_ms
            default_completion_margin_ms s g);
  }

  pub Guards-upload_segmented : (expected : List ℕ) → Guarded (upload_segmented h expected)
  unfolding upload_segmented
  Guards-upload_segmented expected = record {
    at = λ s g.
        let r = read_segmented h block_object_index 0 s in
        tested_end r.0.result (is_success r.0.result && validate_payload expected r.0.value) r.1
          (λ e. is_success-is_seen r.0.result (ground (arith, e)))
          (read_segmented-IsAfter block_object_index 0 s g);
  }

  pub ruleset transfer_rules =
      (guard_rules, Guards-download, Guards-upload, Guards-upload_segmented)

  pub Guards-round_trip : (size seed : ℕ) → Guarded (run_block_round_trip h size seed)
  unfolding run_block_round_trip
  Guards-round_trip size seed = search (transfer_rules) depth 30
