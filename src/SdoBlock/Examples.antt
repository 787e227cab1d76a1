-- ===== src/SdoBlock/Examples.antt =====
-- The block-transfer validation at concrete servers.
use canopen_slave_tester.Prelude.{
  ℕ, ◌<◌, ◌≤◌, ◌≡◌, refl, true, false, none, some, List, [], ◌∷◌, ◌==◌, arith, length,
  if◌then◌else◌, same_bytes,
}
use canopen_slave_tester.Lely.{
  SdoErrc, Outcome, timeout, no_write, general_error, other, stopped, preop,
}
use canopen_slave_tester.Waiting.{wait_for}
use canopen_slave_tester.Nmt.{nmt_state_callback}
use canopen_slave_tester.Nmt.Command.{issue_nmt_command, issue_nmt_command_and_wait_for_state}
use canopen_slave_tester.Host.{on_state, on_callback, acquire, wait_until, success}
use canopen_slave_tester.Sdo.{read_remote_sdo, request_result}
use canopen_slave_tester.Sdo.Block.{
  publish_block, block_arrivals, finish_block, read_remote_block_sdo, write_remote_block_sdo,
}
use canopen_slave_tester.Heartbeat.Process.Examples.{good_host, session}
use canopen_slave_tester.Payload.{
  pattern_byte, payload_from, make_payload, fnv, checksum, validate_payload,
}
use canopen_slave_tester.SdoBlock.{
  BlockHost, BlockAccess, block_download, block_upload, segmented_upload, expedited_upload,
  cancelled_download, has_errc, update_channel_state, read_block, read_segmented, write_block,
  read_expedited, confirm, cancel_request,
}
use canopen_slave_tester.SdoBlock.Process.Running.{left_stopped}
use canopen_slave_tester.SdoBlock.Process.{
  fresh_block, is_failed, is_sdo_timeout, stress_seed, download_payload, upload_payload,
  run_block_round_trip, run_illegal_access_case, stop_node, restore_pre_operational,
  run_timeout_recovery_case, stop_for_barrier, synchronize_sdo_server_after_abort,
  submit_block_write, run_client_abort_case, run_expedited_regression, upload_segmented,
  run_segmented_regression, stress_from, run_stress_case, functional_cases, run_cases,
  restore_original_payload, save_original, restore_node, clean_up, after_save, sdo_block_process,
}
use canopen_slave_tester.SdoBlock.Process.Accesses.{IsSettledRun}
use canopen_slave_tester.SdoBlock.Process.Settled.{sdo_block_process-IsSettledRun}
use canopen_slave_tester.SdoBlock.Process.Restored.{IsWrittenBack, sdo_block_process-IsWrittenBack}
use canopen_slave_tester.SdoBlock.Process.Stress.{stress-distinct}
use canopen_slave_tester.Payload.Distinct.{validate_payload_refl}

-- The object's bytes after some accesses: those of the newest download, or those that it has had.
abbrev contents : List BlockAccess → List ℕ
contents [] = 1 ∷ 2 ∷ 3 ∷ []
contents (block_download index subindex payload result ∷ as') =
    let rest = contents as' in if index == 0x2304 then payload else rest
contents (block_upload _ _ _ _ ∷ as') = contents as'
contents (segmented_upload _ _ _ _ ∷ as') = contents as'
contents (expedited_upload _ _ _ _ ∷ as') = contents as'
contents (cancelled_download _ _ _ _ ∷ as') = contents as'

abbrev abort : SdoErrc → Outcome
abort code = some (record { is_sdo = true; sdo_errc = code })

-- A server that keeps what it is sent, does not let 0x1000 be written, and does not answer while the
-- node is stopped; after each NMT command the node reports both states.
abbrev server : BlockHost
server = record {
  host = record good_host {
    callbacks = λ step. [];
    during = λ step. (on_state 1 stopped ∷ []) ∷ (on_state 1 preop ∷ []) ∷ [];
    managed_state = λ step. none;
  };
  upload = λ s index subindex wait_ms. some (
      if s.node_stopped
      then record { error = abort timeout; read_value = [] }
      else record { error = none; read_value = contents s.accesses });
  segmented =
      λ s index subindex wait_ms. some (record { error = none; read_value = contents s.accesses });
  download = λ s index subindex payload wait_ms.
      some (record { error = if index == 0x1000 then abort no_write else none; read_value = tt });
  cancel_accepted = λ s. true;
  cancelled = λ s wait_ms. some (abort general_error);
  cleared_errc = other 0;
}

passes : (sdo_block_process server session).0 ≡ 0
unfolding sdo_block_process after_save save_original read_block read_remote_block_sdo wait_for
    publish_block block_arrivals finish_block update_channel_state run_cases functional_cases
    run_block_round_trip download_payload write_block write_remote_block_sdo upload_payload
    validate_payload checksum fnv make_payload payload_from pattern_byte same_bytes
    run_illegal_access_case is_failed has_errc run_timeout_recovery_case stop_node confirm
    issue_nmt_command_and_wait_for_state issue_nmt_command acquire wait_until on_callback
    nmt_state_callback restore_pre_operational is_sdo_timeout run_client_abort_case
    submit_block_write cancel_request synchronize_sdo_server_after_abort stop_for_barrier
    run_expedited_regression read_expedited read_remote_sdo request_result run_segmented_regression
    upload_segmented read_segmented run_stress_case stress_from stress_seed restore_node clean_up
    restore_original_payload
passes = refl

sdo_block_process-IsWrittenBack_example :
    (original : List ℕ) × (0 < length original)
    × (length original ≤ 2048)
    × ((save_original server (fresh_block session)).1.accesses
        ≡ block_upload 0x2304 0 success original ∷ [])
    × IsWrittenBack original (sdo_block_process server session).1
    × (left_stopped (sdo_block_process server session).1.confirmations ≡ false)
sdo_block_process-IsWrittenBack_example = sdo_block_process-IsWrittenBack server session passes

-- A server that does not answer a download.
abbrev silent : BlockHost
silent = record server { download = λ s index subindex payload wait_ms. none }

sdo_block_process-IsSettledRun_example : IsSettledRun (sdo_block_process silent session)
sdo_block_process-IsSettledRun_example = sdo_block_process-IsSettledRun silent session

stress-distinct_example : ◌≡◌ {A = ℕ} 7 7
stress-distinct_example =
    stress-distinct 7 7 (omega arith) (omega arith)
      (validate_payload_refl (make_payload 2048 (stress_seed 7)))
