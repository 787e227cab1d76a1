-- ===== src/Storage/Examples.antt =====
-- Runs of the Storage validation (src/storage_process.cpp).
use canopen_slave_tester.Prelude.{
  same_bytes, ℕ, ◌+◌, ◌<◌, ◌≡◌, ◌≢◌, ◌↔◌, refl, true, none, some, List, [], ◌∷◌, ◌++◌, arith,
  get_or,
}
use canopen_slave_tester.Lely.{started}
use canopen_slave_tester.Waiting.{wait_for}
use canopen_slave_tester.Heartbeat.{prepare_boot, boot_callback, boot_result}
use canopen_slave_tester.Heartbeat.Process.{prepare_boot_wait, wait_for_boot_completion}
use canopen_slave_tester.Heartbeat.Process.Examples.{good_host, session}
use canopen_slave_tester.Host.{Host, Session, now, on_boot, on_callback, acquire, wait_until}
use canopen_slave_tester.Nmt.Command.{issue_nmt_command}
use canopen_slave_tester.Sdo.{read_remote_sdo, write_remote_sdo, request_result}
use canopen_slave_tester.Sdo.Access.{read_object, write_object}
use canopen_slave_tester.Srdo.Crc.{crc_round, crc_rounds, crc16_ccitt_byte}
use canopen_slave_tester.Storage.{
  sub, diagnostic_command_value, StorageLayout, StorageBaseline, crc16_bytes, crc16_ccitt,
  validate_layout, data_offset, choose_probe, store_chunk, chunk_word, chunk_size,
}
use canopen_slave_tester.Storage.Diagnostic.{
  next_request, read_field, write_field, command_result, poll_command, await_command,
  run_diagnostic_command, read_layout, read_startup, read_chunks, read_raw_region, write_chunks,
  verify_raw_region, restore_raw_region, read_backup, capture_baseline,
}
use canopen_slave_tester.Storage.Diagnostic.Supervised.{IsSupervised}
use canopen_slave_tester.Storage.Image.{crc16_ccitt-detects, validate_layout-bounds}
use canopen_slave_tester.Storage.Process.{
  restore_mode, is_startup, same_startup, write_consumer, read_consumer, suspend_heartbeat_consumer,
  restore_heartbeat_consumer, and_restore, during_outage, await_boot, reset_and_boot,
  reset_node_and_wait, save_probe, expect_startup, expect_baseline_startup, cleanup_baseline,
  restore_cases, run_mode, storage_process,
}
use canopen_slave_tester.Storage.Process.Supervision.{storage_process-IsSupervised}
use canopen_slave_tester.Storage.Process.Restored.{
  captured_by, IsReloaded, storage_process-IsReloaded,
}

-- What the target answers to the request of each step.
abbrev storage_answers : List ℕ
storage_answers =
    7 ∷ 0 ∷ 0 ∷ 0 ∷ 0 ∷ 0 ∷ 0 ∷ 8 ∷ 1 ∷ 0 ∷ 16384 ∷ 64 ∷ 1 ∷ 0 ∷ 4 ∷ 4 ∷ 0 ∷ 8 ∷ 305397764 ∷ 1 ∷ 0
    ∷ 0 ∷ 1 ∷ 1000 ∷ 1000 ∷ 8 ∷ 0 ∷ 0 ∷ 0 ∷ 0 ∷ 0 ∷ 0 ∷ 9 ∷ 1 ∷ 1 ∷ 27787 ∷ 9 ∷ 0 ∷ 0 ∷ 0 ∷ 0 ∷ 0
    ∷ 0 ∷ 10 ∷ 1 ∷ 1144201745 ∷ 10 ∷ 0 ∷ 0 ∷ 0 ∷ 0 ∷ 0 ∷ 0 ∷ 11 ∷ 1 ∷ 2289526357 ∷ 0 ∷ 0 ∷ 0 ∷ 11
    ∷ 0 ∷ 0 ∷ 0 ∷ 0 ∷ 0 ∷ 0 ∷ 12 ∷ 1 ∷ 0 ∷ 16384 ∷ 64 ∷ 1 ∷ 0 ∷ 4 ∷ 4 ∷ 0 ∷ 8 ∷ 4294967295 ∷ 0 ∷ 0
    ∷ 0 ∷ 0 ∷ 0 ∷ 0 ∷ 0 ∷ 2 ∷ 0 ∷ 4 ∷ 2 ∷ 0 ∷ 12 ∷ 0 ∷ 0 ∷ 0 ∷ 0 ∷ 0 ∷ 0 ∷ 13 ∷ 1 ∷ 13 ∷ 0 ∷ 0 ∷ 0
    ∷ 0 ∷ 0 ∷ 0 ∷ 14 ∷ 1 ∷ 14 ∷ 0 ∷ 0 ∷ 0 ∷ 0 ∷ 0 ∷ 0 ∷ 15 ∷ 1 ∷ 1144201745 ∷ 15 ∷ 0 ∷ 0 ∷ 0 ∷ 0 ∷ 0
    ∷ 0 ∷ 16 ∷ 1 ∷ 2289526357 ∷ 0 ∷ 0 ∷ 0 ∷ 0 ∷ 0 ∷ 0 ∷ 0 ∷ 1 ∷ 0 ∷ 0 ∷ 3 ∷ 1000 ∷ 0 ∷ []

-- It boots after each reset.
abbrev target : Host
target = record good_host {
  callbacks = λ step. on_boot 1 started 0 ∷ [];
  completion = λ step ms. some (record { error = none; value = get_or storage_answers step 0 });
}

restores : (storage_process target restore_mode session).0 ≡ 0
unfolding storage_process run_mode restore_cases cleanup_baseline expect_baseline_startup
    expect_startup save_probe reset_node_and_wait reset_and_boot await_boot during_outage
    and_restore restore_heartbeat_consumer suspend_heartbeat_consumer read_consumer write_consumer
    same_startup is_startup capture_baseline read_backup restore_raw_region verify_raw_region
    write_chunks read_raw_region read_chunks read_startup read_layout run_diagnostic_command
    await_command poll_command command_result write_field read_field next_request same_bytes
    chunk_size chunk_word store_chunk choose_probe validate_layout crc16_ccitt crc16_bytes
    crc16_ccitt_byte crc_rounds crc_round diagnostic_command_value sub read_object write_object
    request_result write_remote_sdo read_remote_sdo issue_nmt_command prepare_boot_wait
    wait_for_boot_completion prepare_boot boot_callback boot_result acquire wait_until wait_for
    on_callback now
restores = refl

storage_process-IsReloaded_example :
    (b : StorageBaseline) × ((captured_by target restore_mode session).0 ≡ some b)
    × IsReloaded b (storage_process target restore_mode session).1
storage_process-IsReloaded_example = storage_process-IsReloaded target restore_mode session restores

never_zero : (t : ℕ) → target.local_od_read t ≢ some 0
never_zero t = λ e. ground (arith, e)

at_first : IsSupervised session
at_first = λ e. ground (arith, e)

storage_process-IsSupervised_example : IsSupervised (storage_process target restore_mode session).1
storage_process-IsSupervised_example =
    storage_process-IsSupervised target never_zero restore_mode session at_first

abbrev small_layout : StorageLayout
small_layout = record {
  storage_offset = 0;
  eeprom_size = 16384;
  page_size = 64;
  addr_input = 1;
  signature_address = 0;
  data_address = 4;
  data_length = 4;
  raw_start = 0;
  raw_length = 8;
  signature_value = 0x12340004;
}

accepted : validate_layout small_layout ≡ true
unfolding validate_layout
accepted = refl

validate_layout-bounds_example :
    (data_offset small_layout + 4 ≡ 8)
    × ((data_offset small_layout < 8) ↔ (small_layout.data_length ≢ 0))
validate_layout-bounds_example =
    validate_layout-bounds small_layout (omega arith) (omega arith) accepted

abbrev image : List ℕ
image = 0x11 ∷ 0x22 ∷ 0x33 ∷ 0x44 ∷ 0x55 ∷ 0x66 ∷ 0x77 ∷ 0x88 ∷ []

abbrev at_image : Session
at_image = record session { step = 36 }

image_read : (read_raw_region target small_layout at_image).0 ≡ some image
unfolding read_raw_region read_chunks run_diagnostic_command await_command poll_command
    command_result write_field read_field next_request chunk_size store_chunk
    diagnostic_command_value sub read_object write_object request_result write_remote_sdo
    read_remote_sdo now
image_read = refl

crc16_ccitt-detects_example :
    crc16_ccitt (1 ∷ 2 ∷ [] ++ 3 ∷ 4 ∷ []) ≢ crc16_ccitt (1 ∷ 2 ∷ [] ++ 5 ∷ 4 ∷ [])
crc16_ccitt-detects_example =
    crc16_ccitt-detects (1 ∷ 2 ∷ []) (4 ∷ []) 3 5 (omega arith) (omega arith) (omega arith)
