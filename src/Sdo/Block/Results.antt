-- ===== src/Sdo/Block/Results.antt =====
-- The classification of a block SDO operation (include/canopen_sdo.h).
use canopen_slave_tester.Prelude.{
  subst, sym, ◌≡◌, ◌≢◌, refl, ◌⊎◌, inl, inr, Option, none, some, arith, Bool-cases, Option-cases,
  if◌then◌else◌,
}
use canopen_slave_tester.Lely.{Outcome, timeout, errc_eq, ErrorCode}
use canopen_slave_tester.Waiting.{wait_for}
use canopen_slave_tester.Host.{SdoOperationResult, success, failed, sdo_timeout, wait_timeout}
use canopen_slave_tester.Sdo.Results.{is_timeout}
use canopen_slave_tester.Sdo.Block.{
  BlockCompletion, BlockResult, publish_block, block_arrivals, finish_block, read_remote_block_sdo,
  write_remote_block_sdo,
}

-- An error of the completion, with the result that it gives.
abbrev pub ErrorGives : ErrorCode → SdoOperationResult → Type 0
ErrorGives e r =
    ((e.sdo_errc ≡ timeout) × (r ≡ sdo_timeout)) ⊎ ((e.sdo_errc ≢ timeout) × (r ≡ failed))

error_gives :
    (e : ErrorCode) → ErrorGives e (if errc_eq e.sdo_errc timeout then sdo_timeout else failed)
error_gives e = elim (Bool-cases (errc_eq e.sdo_errc timeout)) [
  | inl late ↦ inl (is_timeout e.sdo_errc late, ground (arith, late))
  | inr early ↦ inr (ground (arith, early), ground (arith, early))
]

module _ {ℓ} {T : Type ℓ} where
  -- The four ways in which a block read ends, with the result, the caller's variable and the
  -- completion error of each.
  unfoldable pub IsBlockOutcome :
      Outcome → Option (BlockCompletion T) → (old : T) → BlockResult T → Type ℓ
  IsBlockOutcome submit completion old r =
      ((e : ErrorCode) × (submit ≡ some e)
        × (r.result ≡ failed)
        × (r.value ≡ old)
        × (r.completion_error ≡ some e))
      ⊎ ((submit ≡ none)
          × (completion ≡ none)
          × (r.result ≡ wait_timeout)
          × (r.value ≡ old)
          × (r.completion_error ≡ none))
      ⊎ ((c : BlockCompletion T) × (submit ≡ none)
          × (completion ≡ some c)
          × (c.error ≡ none)
          × (r.result ≡ success)
          × (r.value ≡ c.read_value)
          × (r.completion_error ≡ none))
      ⊎ ((c : BlockCompletion T) × (e : ErrorCode) × (submit ≡ none)
          × (completion ≡ some c)
          × (c.error ≡ some e)
          × ErrorGives e r.result
          × (r.value ≡ old)
          × (r.completion_error ≡ some e))

  finish_block-error :
      (blank : T) (c : BlockCompletion T) (old : T) (e : ErrorCode)
      → c.error ≡ some e
      → read_remote_block_sdo blank none (some c) old ≡ record {
        result = if errc_eq e.sdo_errc timeout then sdo_timeout else failed;
        value = old;
        completion_error = some e;
      }
  unfolding read_remote_block_sdo wait_for publish_block block_arrivals finish_block
  finish_block-error blank c old e bad = rw bad refl

  finish_block-fine :
      (blank : T) (c : BlockCompletion T) (old : T)
      → c.error ≡ none
      → read_remote_block_sdo blank none (some c) old
        ≡ record { result = success; value = c.read_value; completion_error = none }
  unfolding read_remote_block_sdo wait_for publish_block block_arrivals finish_block
  finish_block-fine blank c old fine = rw fine refl

  -- A block read gives the completion's value with SUCCESS only if the completion carries no error;
  -- otherwise the caller's variable is as before, and the completion error is the one of the
  -- refused submission or of the completion, and clear where no completion is seen in time.
  pub read_remote_block_sdo-IsBlockOutcome :
      (blank : T) (submit : Outcome) (completion : Option (BlockCompletion T)) (old : T)
      → IsBlockOutcome submit completion old (read_remote_block_sdo blank submit completion old)
  unfolding read_remote_block_sdo wait_for publish_block block_arrivals finish_block IsBlockOutcome
  read_remote_block_sdo-IsBlockOutcome blank (some e) completion old =
      inl (e, refl, refl, refl, refl)
  read_remote_block_sdo-IsBlockOutcome blank none none old =
      inr (inl (refl, refl, refl, refl, refl))
  read_remote_block_sdo-IsBlockOutcome blank none (some c) old = elim (Option-cases c.error) [
    | inl fine ↦
        rw (finish_block-fine blank c old fine)
          (inr (inr (inl (c, refl, refl, fine, refl, refl, refl))))
    | inr (e, bad) ↦
        rw (finish_block-error blank c old e bad)
          (inr (inr (inr (c, e, refl, refl, bad, error_gives e, refl, refl))))
  ]

-- The four ways in which a block write ends, with its result and its completion error.
unfoldable pub IsWriteOutcome :
    Outcome → Option (BlockCompletion (Unit {0})) → SdoOperationResult × Outcome → Type 0
IsWriteOutcome submit completion r =
    ((e : ErrorCode) × (submit ≡ some e) × (r ≡ (failed, some e)))
    ⊎ ((submit ≡ none) × (completion ≡ none) × (r ≡ (wait_timeout, none)))
    ⊎ ((c : BlockCompletion (Unit {0})) × (submit ≡ none)
        × (completion ≡ some c)
        × (c.error ≡ none)
        × (r ≡ (success, none)))
    ⊎ ((c : BlockCompletion (Unit {0})) × (e : ErrorCode) × (submit ≡ none)
        × (completion ≡ some c)
        × (c.error ≡ some e)
        × ErrorGives e r.0
        × (r.1 ≡ some e))

write-error :
    (c : BlockCompletion (Unit {0})) (e : ErrorCode)
    → c.error ≡ some e
    → write_remote_block_sdo none (some c)
      ≡ (if errc_eq e.sdo_errc timeout then sdo_timeout else failed, some e)
unfolding write_remote_block_sdo wait_for publish_block block_arrivals finish_block
write-error c e bad = rw bad refl

write-fine :
    (c : BlockCompletion (Unit {0}))
    → c.error ≡ none
    → write_remote_block_sdo none (some c) ≡ (success, none)
unfolding write_remote_block_sdo wait_for publish_block block_arrivals finish_block
write-fine c fine = rw fine refl

-- A block write reports SUCCESS only for a completion without an error, and then no completion error;
-- FAILED with the error of a refused submission; WAIT_TIMEOUT without an error where no completion is
-- seen in time; and otherwise the completion's error, as SDO_TIMEOUT exactly if it is Lely's timeout
-- abort.
pub write_remote_block_sdo-IsWriteOutcome :
    (submit : Outcome) (completion : Option (BlockCompletion (Unit {0})))
    → IsWriteOutcome submit completion (write_remote_block_sdo submit completion)
unfolding write_remote_block_sdo wait_for publish_block block_arrivals finish_block IsWriteOutcome
write_remote_block_sdo-IsWriteOutcome (some e) completion = inl (e, refl, refl)
write_remote_block_sdo-IsWriteOutcome none none = inr (inl (refl, refl, refl))
write_remote_block_sdo-IsWriteOutcome none (some c) = elim (Option-cases c.error) [
  | inl fine ↦ rw (write-fine c fine) (inr (inr (inl (c, refl, refl, fine, refl))))
  | inr (e, bad) ↦
      subst (IsWriteOutcome none (some c)) (sym (write-error c e bad))
        (inr (inr (inr (c, e, refl, refl, bad, error_gives e, refl))))
]
