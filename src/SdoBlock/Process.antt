-- ===== src/SdoBlock/Process.antt =====
-- The cases of the SDO block-transfer validation and sdoBlockProcess, src/sdo_block_process.cpp.
pub mod Accesses
pub mod Commands
pub mod Settled
pub mod Running
pub mod Restored
pub mod Stress
use canopen_slave_tester.Prelude.{
  ℕ, zero, suc, ◌+◌, ◌*◌, ◌%◌, ◌^◌, Bool, true, false, ◌&&◌, Option, none, some, List, [], leb,
  ◌==◌, not, bit_xor, length, if◌then◌else◌,
}
use canopen_slave_tester.Lely.{
  Outcome, timeout, no_write, general_error, stop, enter_preop, stopped, preop,
}
use canopen_slave_tester.Host.{
  Session, SdoOperationResult, success, failed, sdo_timeout, wait_timeout, next,
}
use canopen_slave_tester.Emcy.{is_some}
use canopen_slave_tester.Heartbeat.Process.{is_success}
use canopen_slave_tester.Sdo.{default_sdo_timeout_ms, default_completion_margin_ms}
use canopen_slave_tester.Payload.{make_payload, validate_payload}
use canopen_slave_tester.Attempt.{Attempt, ◌>>=◌, ◌>>◌, return, require, lift}
use canopen_slave_tester.SdoBlock.{
  BlockHost, BlockSession, has_errc, read_block, read_segmented, write_block, read_expedited,
  confirm, cancel_request,
}

abbrev pub block_object_index : ℕ
block_object_index = 0x2304

abbrev pub read_only_index : ℕ
read_only_index = 0x1000

abbrev pub max_payload_size : ℕ
max_payload_size = 2048

abbrev pub stress_iterations : ℕ
stress_iterations = 100

abbrev timeout_probe_ms : ℕ
timeout_probe_ms = 500

abbrev timeout_probe_margin_ms : ℕ
timeout_probe_margin_ms = 500

abbrev pub pattern_seed : ℕ
pattern_seed = 0xB02A5A5A

unfoldable pub is_failed : SdoOperationResult → Bool
is_failed success = false
is_failed failed = true
is_failed sdo_timeout = false
is_failed wait_timeout = false

unfoldable pub is_sdo_timeout : SdoOperationResult → Bool
is_sdo_timeout success = false
is_sdo_timeout failed = false
is_sdo_timeout sdo_timeout = true
is_sdo_timeout wait_timeout = false

unfoldable pub stress_seed : (iteration : ℕ) → ℕ
stress_seed iteration = bit_xor pattern_seed ((0x11000000 + iteration * 0x01010101) % 2 ^ 32)

-- The process starts with a channel that is known, a node that runs, and no access.
abbrev pub fresh_block : Session → BlockSession
fresh_block s = record {
  session = s;
  channel_known = true;
  node_stopped = false;
  accesses = [];
  confirmations = [];
}

abbrev set_node_stopped : Bool → Attempt BlockSession (Unit {0})
set_node_stopped b s = (some tt, record s { node_stopped = b })

module _ (h : BlockHost) where
  -- A block download of a payload, which has to succeed.
  unfoldable pub download_payload : List ℕ → Attempt BlockSession (Unit {0})
  download_payload payload = do
    r ← lift (write_block h block_object_index 0 payload)
    require (is_success r.0)

  -- A block upload, which has to succeed with the payload.
  unfoldable pub upload_payload : List ℕ → Attempt BlockSession (Unit {0})
  upload_payload expected = do
    r ← lift (read_block h block_object_index 0 default_sdo_timeout_ms default_completion_margin_ms)
    require (is_success r.result && validate_payload expected r.value)

  unfoldable pub run_block_round_trip : (size seed : ℕ) → Attempt BlockSession (Unit {0})
  run_block_round_trip size seed = do
    download_payload (make_payload size seed)
    upload_payload (make_payload size seed)

  unfoldable pub run_illegal_access_case : Attempt BlockSession (Unit {0})
  run_illegal_access_case = do
    r ← lift (write_block h read_only_index 0 (make_payload 32 pattern_seed))
    require (is_failed r.0 && has_errc h.cleared_errc r.1 no_write)
    run_block_round_trip 32 (bit_xor pattern_seed 0x06010002)

  unfoldable pub stop_node : Attempt BlockSession (Unit {0})
  stop_node = do confirm h stop stopped; set_node_stopped true

  unfoldable pub restore_pre_operational : Attempt BlockSession (Unit {0})
  restore_pre_operational = do confirm h enter_preop preop; set_node_stopped false

  unfoldable pub run_timeout_recovery_case : Attempt BlockSession (Unit {0})
  run_timeout_recovery_case = do
    stop_node
    r ← lift (read_block h block_object_index 0 timeout_probe_ms timeout_probe_margin_ms)
    restore_pre_operational
    require (is_sdo_timeout r.result && has_errc h.cleared_errc r.completion_error timeout)
    run_block_round_trip 32 (bit_xor pattern_seed 0x05040000)

  -- Without the confirmation the node may have been stopped.
  unfoldable pub stop_for_barrier : Attempt BlockSession (Unit {0})
  stop_for_barrier s =
      let (confirmed, t) = confirm h stop stopped s in
      (
        confirmed,
        if is_some confirmed
            then record t { node_stopped = true }
            else record t { channel_known = false },
      )

  unfoldable pub synchronize_sdo_server_after_abort : Attempt BlockSession (Unit {0})
  synchronize_sdo_server_after_abort = do stop_for_barrier; restore_pre_operational

  -- A refused submission leaves no request.
  unfoldable pub submit_block_write : Attempt BlockSession (Unit {0})
  submit_block_write s =
      require (not (is_some (h.host.submit s.session.step))) (record s { session = next s.session })

  abbrev abort_error : Option Outcome → Bool
  abort_error none = false
  abort_error (some e) = has_errc h.cleared_errc e general_error

  unfoldable pub run_client_abort_case : Attempt BlockSession (Unit {0})
  run_client_abort_case = do
    submit_block_write
    seen ← lift (
        cancel_request h block_object_index 0
          (make_payload max_payload_size (bit_xor pattern_seed 0x08000000)))
    require (abort_error seen)
    synchronize_sdo_server_after_abort
    run_block_round_trip max_payload_size (bit_xor pattern_seed 0x08000001)

  unfoldable pub run_expedited_regression : Attempt BlockSession (Unit {0})
  run_expedited_regression = do
    run_block_round_trip 32 (bit_xor pattern_seed 0x09)
    r ← lift (read_expedited h 32 read_only_index 0)
    require (is_success r)

  unfoldable pub upload_segmented : List ℕ → Attempt BlockSession (Unit {0})
  upload_segmented expected = do
    r ← lift (read_segmented h block_object_index 0)
    require (is_success r.result && validate_payload expected r.value)

  unfoldable pub run_segmented_regression : Attempt BlockSession (Unit {0})
  run_segmented_regression = do
    download_payload (make_payload max_payload_size (bit_xor pattern_seed 0x10))
    upload_segmented (make_payload max_payload_size (bit_xor pattern_seed 0x10))

  -- The loop from an iteration on, by the iterations left.
  unfoldable pub stress_from : (left iteration : ℕ) → Attempt BlockSession (Unit {0})
  stress_from zero iteration = return tt
  stress_from (suc n) iteration = do
    run_block_round_trip max_payload_size (stress_seed iteration)
    stress_from n (iteration + 1)

  unfoldable pub run_stress_case : Attempt BlockSession (Unit {0})
  run_stress_case = stress_from stress_iterations 0

  unfoldable pub functional_cases : Attempt BlockSession (Unit {0})
  functional_cases = do
    run_block_round_trip 32 (bit_xor pattern_seed 0x01)
    run_block_round_trip 900 (bit_xor pattern_seed 0x02)
    run_block_round_trip 1024 (bit_xor pattern_seed 0x03)
    run_block_round_trip 1025 (bit_xor pattern_seed 0x04)
    run_block_round_trip 2048 (bit_xor pattern_seed 0x05)

  unfoldable pub run_cases : Attempt BlockSession (Unit {0})
  run_cases = do
    functional_cases
    run_illegal_access_case
    run_timeout_recovery_case
    run_client_abort_case
    run_expedited_regression
    run_segmented_regression
    run_stress_case

  unfoldable pub restore_original_payload : List ℕ → Attempt BlockSession (Unit {0})
  restore_original_payload original = do download_payload original; upload_payload original

  unfoldable pub save_original : Attempt BlockSession (List ℕ)
  save_original = do
    r ← lift (read_block h block_object_index 0 default_sdo_timeout_ms default_completion_margin_ms)
    require
        (is_success r.result && not (length r.value == 0) && leb (length r.value) max_payload_size)
    return r.value

  unfoldable pub restore_node : Attempt BlockSession (Unit {0})
  restore_node s = if s.node_stopped then restore_pre_operational s else (some tt, s)

  -- SDO cleanup needs a channel that is known and a node that is not stopped.
  unfoldable pub clean_up : List ℕ → Attempt BlockSession (Unit {0})
  clean_up original s =
      if s.channel_known && not s.node_stopped
      then restore_original_payload original s
      else (none, s)

  -- After the first upload: its payload, if it can be saved.
  unfoldable pub after_save : Option (List ℕ) × BlockSession → ℕ × BlockSession
  after_save (none, t) = (1, t)
  after_save (some original, t) =
      let (passed, u) = run_cases t in
      let (restored, v) = restore_node u in
      let (cleaned, w) = clean_up original v in
      (if is_some passed && is_some restored && is_some cleaned then 0 else 1, w)

  unfoldable pub sdo_block_process : Session → ℕ × BlockSession
  sdo_block_process s = after_save (save_original (fresh_block s))
