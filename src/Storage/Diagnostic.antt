-- ===== src/Storage/Diagnostic.antt =====
-- The target diagnostic of the Storage validation (src/storage_process.cpp): commands, snapshots, and
-- the raw image.
pub mod Supervised
use canopen_slave_tester.Prelude.{
  ℕ, zero, suc, ◌+◌, ◌*◌, ◌/◌, ◌%◌, ◌^◌, Bool, true, false, ◌&&◌, none, some, List, [], ◌∷◌,
  replicate, ltb, ◌==◌, not, if◌then◌else◌, same_bytes,
}
use canopen_slave_tester.Host.{Host, Session, now, pause}
use canopen_slave_tester.Sdo.Access.{read_object, write_object}
use canopen_slave_tester.Attempt.{Attempt, ◌>>=◌, ◌>>◌, return, require}
use canopen_slave_tester.Storage.{
  probe_index, diagnostic_index, comm_storage_subindex, diagnostic_timeout_ms, diagnostic_poll_ms,
  DiagnosticSubindex, request_seq, command_field, entry_sub_index, raw_offset_field, raw_size_field,
  raw_value_field, complete_seq, result_field, startup_state_field, startup_result, startup_error,
  storage_offset_field, eeprom_size_field, page_size_field, addr_input_field,
  signature_address_field, data_address_field, data_length_field, raw_start_field, raw_length_field,
  signature_value_field, backup_valid, backup_crc, startup_seq, startup_probe, sub,
  DiagnosticCommand, refresh, backup, raw_read, raw_write, diagnostic_command_value,
  diagnostic_success, StorageLayout, StartupSnapshot, StorageBaseline, crc16_ccitt, validate_layout,
  store_chunk, chunk_word, chunk_size,
}

-- The number after a sequence number, which is never zero.
unfoldable pub next_request : ℕ → ℕ
next_request seq =
    let following = (seq + 1) % 2 ^ 32 in if following == 0 then following + 1 else following

module _ (h : Host) where
  unfoldable pub read_field : (width : ℕ) → DiagnosticSubindex → Attempt Session ℕ
  read_field width field = read_object h width diagnostic_index (sub field)

  unfoldable pub write_field : DiagnosticSubindex → (value : ℕ) → Attempt Session (Unit {0})
  write_field field value = write_object h diagnostic_index (sub field) value

  -- After the completion of a request: its raw value, if it is asked for.
  unfoldable pub command_result : (wants_value : Bool) → Attempt Session ℕ
  command_result wants_value = do
    result ← read_field 32 result_field
    require (result == diagnostic_success)
    elim wants_value [ true ↦ read_field 32 raw_value_field | false ↦ return 0 ]

  -- The loop, by the turns left.
  unfoldable pub poll_command : (turns seq deadline : ℕ) → (wants_value : Bool) → Attempt Session ℕ
  poll_command zero seq deadline wants_value s = (none, s)
  poll_command (suc n) seq deadline wants_value s = elim (ltb (now h s) deadline) [
    | false ↦ (none, s)
    | true ↦
        let (completed, t) = read_field 32 complete_seq s in
        elim completed [
          | none ↦ (none, t)
          | some c ↦ elim (c == seq) [
            | true ↦ command_result wants_value t
            | false ↦ poll_command n seq deadline wants_value (pause diagnostic_poll_ms t)
          ]
        ]
  ]

  -- Each turn sleeps.
  unfoldable pub await_command : (seq : ℕ) → (wants_value : Bool) → Attempt Session ℕ
  await_command seq wants_value s =
      poll_command (diagnostic_timeout_ms / diagnostic_poll_ms + 1) seq
        (now h s + diagnostic_timeout_ms * 1000000) wants_value s

  unfoldable pub run_diagnostic_command :
      DiagnosticCommand
      → (raw_offset raw_size raw_value : ℕ) → (wants_value : Bool) → Attempt Session ℕ
  run_diagnostic_command c raw_offset raw_size raw_value wants_value = do
    seq ← read_field 32 request_seq
    write_field entry_sub_index comm_storage_subindex
    write_field raw_offset_field raw_offset
    write_field raw_size_field raw_size
    write_field raw_value_field raw_value
    write_field command_field (diagnostic_command_value c)
    write_field request_seq (next_request seq)
    await_command (next_request seq) wants_value

  -- A command with the default arguments.
  abbrev pub run_plain : DiagnosticCommand → Attempt Session ℕ
  run_plain c = run_diagnostic_command c 0 4 0 false

  unfoldable pub read_layout : Attempt Session StorageLayout
  read_layout = do
    run_plain refresh
    storage_offset ← read_field 32 storage_offset_field
    eeprom_size ← read_field 32 eeprom_size_field
    page_size ← read_field 16 page_size_field
    addr_input ← read_field 8 addr_input_field
    signature_address ← read_field 32 signature_address_field
    data_address ← read_field 32 data_address_field
    data_length ← read_field 32 data_length_field
    raw_start ← read_field 32 raw_start_field
    raw_length ← read_field 32 raw_length_field
    signature_value ← read_field 32 signature_value_field
    return (record {
      storage_offset = storage_offset;
      eeprom_size = eeprom_size;
      page_size = page_size;
      addr_input = addr_input;
      signature_address = signature_address;
      data_address = data_address;
      data_length = data_length;
      raw_start = raw_start;
      raw_length = raw_length;
      signature_value = signature_value;
    })

  unfoldable pub read_startup : Attempt Session StartupSnapshot
  read_startup = do
    state ← read_field 8 startup_state_field
    result ← read_field 32 startup_result
    error ← read_field 32 startup_error
    sequence ← read_field 32 startup_seq
    probe ← read_field 16 startup_probe
    return (record {
      state = state;
      result = result;
      error = error;
      sequence = sequence;
      probe = probe;
    })

  -- The loop from an offset on, by the turns left.
  unfoldable pub read_chunks : (turns length : ℕ) → List ℕ → (offset : ℕ) → Attempt Session (List ℕ)
  read_chunks zero length raw offset s = (some raw, s)
  read_chunks (suc n) length raw offset s = elim (ltb offset length) [
    | false ↦ (some raw, s)
    | true ↦
        let chunk = chunk_size length offset in
        let (word, t) = run_diagnostic_command raw_read offset chunk 0 true s in
        elim word [
          | none ↦ (none, t)
          | some w ↦ read_chunks n length (store_chunk chunk w raw offset) (offset + chunk) t
        ]
  ]

  -- Each turn reads a byte at least.
  unfoldable pub read_raw_region : StorageLayout → Attempt Session (List ℕ)
  read_raw_region layout =
      read_chunks layout.raw_length layout.raw_length (replicate layout.raw_length 0) 0

  -- The loop from an offset on, by the turns left.
  unfoldable pub write_chunks :
      (turns length : ℕ) → List ℕ → (offset : ℕ) → Attempt Session (Unit {0})
  write_chunks zero length raw offset s = (some tt, s)
  write_chunks (suc n) length raw offset s = elim (ltb offset length) [
    | false ↦ (some tt, s)
    | true ↦
        let chunk = chunk_size length offset in
        let (written, t) =
          run_diagnostic_command raw_write offset chunk (chunk_word chunk raw offset) false s in
        elim written [ none ↦ (none, t) | some _ ↦ write_chunks n length raw (offset + chunk) t ]
  ]

  -- The raw image is read, and is the one of the baseline.
  unfoldable pub verify_raw_region : StorageBaseline → Attempt Session (Unit {0})
  verify_raw_region baseline = do
    verify ← read_raw_region baseline.layout
    require (same_bytes verify baseline.raw)

  unfoldable pub restore_raw_region : StorageBaseline → Attempt Session (Unit {0})
  restore_raw_region baseline = do
    write_chunks baseline.layout.raw_length baseline.layout.raw_length baseline.raw 0
    verify_raw_region baseline

  -- The raw image of the layout, with the checksum of the target's backup.
  unfoldable pub read_backup : StorageLayout → Attempt Session (List ℕ)
  read_backup layout = do
    target_backup_valid ← read_field 8 backup_valid
    target_backup_crc ← read_field 16 backup_crc
    require (not (target_backup_valid == 0))
    raw ← read_raw_region layout
    require (crc16_ccitt raw == target_backup_crc)
    return raw

  unfoldable pub capture_baseline : Attempt Session StorageBaseline
  capture_baseline = do
    layout ← read_layout
    require (validate_layout layout)
    startup ← read_startup
    runtime_probe ← read_object h 16 probe_index 0
    run_plain backup
    raw ← read_backup layout
    return (record {
      layout = layout;
      startup = startup;
      raw = raw;
      runtime_probe = runtime_probe;
      raw_crc = crc16_ccitt raw;
      is_captured = true;
    })
