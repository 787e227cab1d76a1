-- ===== src/Sdo.antt =====
-- The remote SDO helpers of include/canopen_sdo.h. A request is submitted to Lely, its completion
-- callback publishes an error and a value, and the caller waits for that for a bounded time. The
-- node is always the managed slave, node 1.
pub mod Results
pub mod Process
pub mod Block
pub mod Access
pub mod Examples
use canopen_slave_tester.Prelude.{
  ℕ, ◌+◌, ◌%◌, ◌^◌, Bool, true, false, Option, none, some, List, [], ◌∷◌, if◌then◌else◌, not,
}
use canopen_slave_tester.Lely.{timeout, ErrorCode, Outcome, errc_eq}
use canopen_slave_tester.Waiting.{wait_for}
use canopen_slave_tester.Host.{
  Host, Session, Proc, Completion, SdoOperationResult, success, failed, sdo_timeout, wait_timeout,
  sdo_read, sdo_write, record_action,
}

abbrev pub default_sdo_timeout_ms : ℕ
default_sdo_timeout_ms = 5000

abbrev pub default_completion_margin_ms : ℕ
default_completion_margin_ms = 500

-- `ReadState` and `WriteState`.
pub record RequestState : Type 0 where
  pub completed : Bool
  pub error : Outcome
  pub value : ℕ

abbrev pub pending : RequestState
pending = record { completed = false; error = none; value = 0 }

-- The completion callback; the value is of an unsigned type of `width` bits.
abbrev pub publish : ℕ → Completion → RequestState → RequestState
publish width c r = record { completed = true; error = c.error; value = c.value % 2 ^ width }

abbrev arrivals : Option Completion → List (List Completion)
arrivals none = []
arrivals (some c) = (c ∷ []) ∷ []

await_completion : ℕ → Option Completion → Bool × RequestState
unfolding wait_for
await_completion width c = wait_for (publish width) (λ r. r.completed) (arrivals c) pending

abbrev error_result : ErrorCode → SdoOperationResult
error_result e = if errc_eq e.sdo_errc timeout then sdo_timeout else failed

-- The result, and the value where it is `success`. The caller's variable is written only then.
completion_result : ℕ → Option Completion → SdoOperationResult × Option ℕ
unfolding await_completion
completion_result width c =
    let (done, r) = await_completion width c in
    if not done
    then (wait_timeout, none)
    else (elim r.error [ none ↦ (success, some r.value) | some e ↦ (error_result e, none) ])

unfoldable pub request_result : ℕ → Outcome → Option Completion → SdoOperationResult × Option ℕ
unfolding completion_result
request_result width none c = completion_result width c
request_result width (some e) c = (failed, none)

abbrev pub value_or : ℕ → Option ℕ → ℕ
value_or old none = old
value_or old (some v) = v

module _ (h : Host) where
  -- `old` is the caller's variable; the second result is its new value.
  unfoldable pub read_remote_sdo :
      (width index subindex old sdo_timeout_ms completion_margin_ms : ℕ)
      → Proc (SdoOperationResult × ℕ)
  read_remote_sdo width index subindex old t margin s =
      let (r, v) = request_result width (h.submit s.step) (h.completion s.step (t + margin)) in
      let value = value_or old v in ((r, value), record_action (sdo_read index subindex r value) s)

  unfoldable pub write_remote_sdo :
      (index subindex value sdo_timeout_ms completion_margin_ms : ℕ) → Proc SdoOperationResult
  write_remote_sdo index subindex value t margin s =
      let (r, _) = request_result 0 (h.submit s.step) (h.completion s.step (t + margin)) in
      (r, record_action (sdo_write index subindex value r) s)
