-- ===== src/Storage/Diagnostic/Supervised.antt =====
-- What the Storage diagnostic leaves of the slave's supervision (src/storage_process.cpp).
use canopen_slave_tester.Prelude.{
  ℕ, zero, suc, ◌+◌, ◌≢◌, Bool, true, false, some, List, arith, ltb, Bool-cases, Option-cases, inl,
  inr,
}
use canopen_slave_tester.Host.{Host, Session, pause}
use canopen_slave_tester.Host.Log.{newest_local}
use canopen_slave_tester.Sdo.{read_remote_sdo, write_remote_sdo}
use canopen_slave_tester.Sdo.Access.{read_object, write_object}
use canopen_slave_tester.Attempt.Keeps.{Keeps, keeps_rules}
use canopen_slave_tester.Storage.{
  heartbeat_consumer_index, heartbeat_consumer_subindex, DiagnosticSubindex, DiagnosticCommand,
  complete_seq, diagnostic_poll_ms, StorageBaseline, StorageLayout, chunk_size, chunk_word,
  store_chunk, raw_read, raw_write,
}
use canopen_slave_tester.Storage.Diagnostic.{
  read_field, write_field, command_result, poll_command, await_command, run_diagnostic_command,
  read_layout, read_startup, read_chunks, write_chunks, read_raw_region, verify_raw_region,
  restore_raw_region, read_backup, capture_baseline,
}

-- The newest write to the consumer entry is not an accepted zero.
abbrev pub IsSupervised : Session → Type 0
IsSupervised s =
    newest_local heartbeat_consumer_index heartbeat_consumer_subindex s.log ≢ some (0, true)

module _ (h : Host) where
  pub read_object-kept :
      (width index subindex : ℕ) → Keeps IsSupervised (read_object h width index subindex)
  unfolding read_object read_remote_sdo
  read_object-kept width index subindex = record { at = λ s k. k }

  pub write_object-kept :
      (index subindex value : ℕ) → Keeps IsSupervised (write_object h index subindex value)
  unfolding write_object write_remote_sdo
  write_object-kept index subindex value = record { at = λ s k. ground (arith, k) }

  read_field-kept :
      (width : ℕ) (field : DiagnosticSubindex) → Keeps IsSupervised (read_field h width field)
  unfolding read_field
  read_field-kept width field = search read_object-kept

  write_field-kept :
      (field : DiagnosticSubindex) (value : ℕ) → Keeps IsSupervised (write_field h field value)
  unfolding write_field
  write_field-kept field value = search write_object-kept

  command_result-kept : (w : Bool) → Keeps IsSupervised (command_result h w)
  unfolding command_result
  command_result-kept true = search (keeps_rules, read_field-kept)
  command_result-kept false = search (keeps_rules, read_field-kept)

  poll_command-kept :
      (n seq deadline : ℕ) (w : Bool) → Keeps IsSupervised (poll_command h n seq deadline w)
  unfolding poll_command
  poll_command-kept zero seq deadline w = record { at = λ s k. k }
  poll_command-kept (suc n) seq deadline w = record {
    at = λ s k.
        let t = (read_field h 32 complete_seq s).1 in
        ground (
          arith,
          k,
          (read_field-kept 32 complete_seq).at s,
          (command_result-kept w).at t,
          (poll_command-kept n seq deadline w).at (pause diagnostic_poll_ms t),
        );
  }

  await_command-kept : (seq : ℕ) (w : Bool) → Keeps IsSupervised (await_command h seq w)
  unfolding await_command
  await_command-kept seq w = record { at = λ s k. (poll_command-kept _ seq _ w).at s k }

  ruleset object_rules =
      (keeps_rules, read_object-kept, write_object-kept, read_field-kept, write_field-kept)

  pub command-kept :
      (c : DiagnosticCommand) (raw_offset raw_size raw_value : ℕ) (w : Bool)
      → Keeps IsSupervised (run_diagnostic_command h c raw_offset raw_size raw_value w)
  unfolding run_diagnostic_command
  command-kept c raw_offset raw_size raw_value w =
      search (object_rules, await_command-kept) depth 20

  pub read_layout-kept : Keeps IsSupervised (read_layout h)
  unfolding read_layout
  read_layout-kept = search (object_rules, command-kept) depth 30

  pub read_startup-kept : Keeps IsSupervised (read_startup h)
  unfolding read_startup
  read_startup-kept = search (object_rules) depth 20

  read_chunks-kept :
      (n length : ℕ) (raw : List ℕ) (offset : ℕ)
      → Keeps IsSupervised (read_chunks h n length raw offset)
  unfolding read_chunks
  read_chunks-kept zero length raw offset = record { at = λ s k. k }
  read_chunks-kept (suc n) length raw offset = record {
    at = λ s k.
        let chunk = chunk_size length offset in
        let r = run_diagnostic_command h raw_read offset chunk 0 true s in
        let kept = (command-kept raw_read offset chunk 0 true).at s k in
        elim (Bool-cases (ltb offset length)) [
          | inr over ↦ ground (arith, k, over)
          | inl more ↦ elim (Option-cases r.0) [
            | inl q ↦ ground (arith, kept, more, q)
            | inr (w, q) ↦
                let rest =
                  (read_chunks-kept n length (store_chunk chunk w raw offset) (offset + chunk)).at
                    r.1 kept in
                ground (arith, rest, more, q)
          ]
        ];
  }

  write_chunks-kept :
      (n length : ℕ) (raw : List ℕ) (offset : ℕ)
      → Keeps IsSupervised (write_chunks h n length raw offset)
  unfolding write_chunks
  write_chunks-kept zero length raw offset = record { at = λ s k. k }
  write_chunks-kept (suc n) length raw offset = record {
    at = λ s k.
        let chunk = chunk_size length offset in
        let word = chunk_word chunk raw offset in
        let t = (run_diagnostic_command h raw_write offset chunk word false s).1 in
        ground (
          arith,
          k,
          (command-kept raw_write offset chunk word false).at s,
          (write_chunks-kept n length raw (offset + chunk)).at t,
        );
  }

  ruleset diagnostic_rules = (
    object_rules, command-kept, read_layout-kept, read_startup-kept, read_chunks-kept,
    write_chunks-kept,
  )

  pub verify_raw_region-kept :
      (baseline : StorageBaseline) → Keeps IsSupervised (verify_raw_region h baseline)
  unfolding verify_raw_region read_raw_region
  verify_raw_region-kept baseline = search diagnostic_rules

  pub restore_raw_region-kept :
      (baseline : StorageBaseline) → Keeps IsSupervised (restore_raw_region h baseline)
  unfolding restore_raw_region
  restore_raw_region-kept baseline = search (diagnostic_rules, verify_raw_region-kept)

  read_backup-kept : (layout : StorageLayout) → Keeps IsSupervised (read_backup h layout)
  unfolding read_backup read_raw_region
  read_backup-kept layout = search diagnostic_rules depth 12

  pub capture_baseline-kept : Keeps IsSupervised (capture_baseline h)
  unfolding capture_baseline
  capture_baseline-kept = search (diagnostic_rules, read_backup-kept) depth 20

  pub ruleset supervised_rules = (
    keeps_rules, read_object-kept, write_object-kept, command-kept, read_layout-kept,
    read_startup-kept, verify_raw_region-kept, restore_raw_region-kept, capture_baseline-kept,
  )
