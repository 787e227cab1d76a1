-- ===== src/Sdo/Block.antt =====
-- The block variants of the remote SDO helpers of include/canopen_sdo.h, which also report the error
-- of the submission or of the completion. The submission's outcome and the completion, if it is
-- seen within the protocol timeout and the margin, are arguments.
pub mod Results
use canopen_slave_tester.Prelude.{
  Option, none, some, Bool, true, false, List, [], ◌∷◌, not, if◌then◌else◌,
}
use canopen_slave_tester.Lely.{Outcome, timeout, errc_eq}
use canopen_slave_tester.Waiting.{wait_for}
use canopen_slave_tester.Host.{SdoOperationResult, success, failed, sdo_timeout, wait_timeout}

-- What the completion callback of one block request is called with.
pub record BlockCompletion {ℓ} (T : Type ℓ) : Type ℓ where
  pub error : Outcome
  pub read_value : T

-- `ReadState`, and with values of the unit type `WriteState`.
pub record BlockState {ℓ} (T : Type ℓ) : Type ℓ where
  pub completed : Bool
  pub error : Outcome
  pub value : T

-- The result, the caller's variable, and the completion error, which starts cleared.
pub record BlockResult {ℓ} (T : Type ℓ) : Type ℓ where
  pub result : SdoOperationResult
  pub value : T
  pub completion_error : Outcome

module _ {ℓ} {T : Type ℓ} where
  unfoldable pub publish_block : BlockCompletion T → BlockState T → BlockState T
  publish_block c s = record { completed = true; error = c.error; value = c.read_value }

  unfoldable pub block_arrivals : Option (BlockCompletion T) → List (List (BlockCompletion T))
  block_arrivals none = []
  block_arrivals (some c) = (c ∷ []) ∷ []

  -- After the wait: `reached` is its verdict.
  unfoldable pub finish_block : (reached : Bool) → BlockState T → (old : T) → BlockResult T
  finish_block reached s old =
      if not reached
      then record { result = wait_timeout; value = old; completion_error = none }
      else elim s.error [
        | some e ↦ record {
          result = if errc_eq e.sdo_errc timeout then sdo_timeout else failed;
          value = old;
          completion_error = some e;
        }
        | none ↦ record { result = success; value = s.value; completion_error = none }
      ]

  -- `blank` is the initial value of the request's state, `old` the caller's variable.
  unfoldable pub read_remote_block_sdo :
      (blank : T) → Outcome → Option (BlockCompletion T) → (old : T) → BlockResult T
  read_remote_block_sdo blank (some e) completion old = record {
    result = failed;
    value = old;
    completion_error = some e;
  }
  read_remote_block_sdo blank none completion old =
      let pending : BlockState T = record { completed = false; error = none; value = blank } in
      let (reached, s) =
        wait_for publish_block (λ (q : BlockState T). q.completed) (block_arrivals completion)
          pending in
      finish_block reached s old

-- A write has no value to give back.
unfoldable pub write_remote_block_sdo :
    Outcome → Option (BlockCompletion (Unit {0})) → SdoOperationResult × Outcome
write_remote_block_sdo (some e) completion = (failed, some e)
write_remote_block_sdo none completion =
    let pending : BlockState (Unit {0}) = record { completed = false; error = none; value = tt } in
    let (reached, s) =
      wait_for publish_block (λ (q : BlockState (Unit {0})). q.completed)
        (block_arrivals completion) pending in
    let r = finish_block reached s tt in (r.result, r.completion_error)
