-- ===== src/Storage/Process.antt =====
-- The modes of the Storage validation and storageProcess, src/storage_process.cpp.

pub mod Supervision
pub mod Restored
use canopen_slave_tester.Prelude.{
  ℕ, Bool, true, false, ◌&&◌, ◌||◌, none, some, ◌==◌, not, if◌then◌else◌, bit_and, bit_xor, get_or,
}
use canopen_slave_tester.Lely.{reset_node}
use canopen_slave_tester.Emcy.{is_some}
use canopen_slave_tester.Host.{Host, Session, Proc, local_write, next, record_action}
use canopen_slave_tester.Nmt.Command.{issue_nmt_command}
use canopen_slave_tester.Heartbeat.{slave_node_id}
use canopen_slave_tester.Heartbeat.Process.{is_success, prepare_boot_wait, wait_for_boot_completion}
use canopen_slave_tester.Sdo.{
  default_sdo_timeout_ms, default_completion_margin_ms, write_remote_sdo,
}
use canopen_slave_tester.Sdo.Access.{read_object, write_object}
use canopen_slave_tester.Attempt.{Attempt, ◌>>=◌, ◌>>◌, return, require, lift, succeeds}
use canopen_slave_tester.Storage.{
  store_index, restore_index, probe_index, heartbeat_consumer_index, heartbeat_consumer_subindex,
  comm_storage_subindex, save_magic, restore_magic, factory_probe, comm_corruption_bit, raw_write,
  restore_backup, corrupt_signature, corrupt_data, startup_ok, startup_data_corrupt,
  StartupSnapshot, StorageBaseline, validate_layout, data_offset, choose_probe,
}
use canopen_slave_tester.Storage.Diagnostic.{
  run_diagnostic_command, run_plain, read_layout, read_startup, verify_raw_region,
  restore_raw_region, capture_baseline,
}

-- `CANOPEN_STORAGE_MODE`, which is `core_mode` if it is not set.
pub data StorageMode : Type 0 where
  core_mode restore_mode corruption_mode power_cycle_mode power_interruption_mode : StorageMode
  unsupported_mode : StorageMode

unfoldable pub is_startup :
    (state probe : ℕ) → (require_comm_corruption : Bool) → StartupSnapshot → Bool
is_startup state probe require_comm_corruption startup =
    startup.state == state
    && startup.probe == probe
    && not (require_comm_corruption && bit_and startup.error comm_corruption_bit == 0)

unfoldable pub same_startup : (current baseline : StartupSnapshot) → Bool
same_startup current baseline =
    current.state == baseline.state
    && current.result == baseline.result
    && current.error == baseline.error
    && current.probe == baseline.probe

-- What an interrupted save may have left: the old value, the new one, or an image that is detected as
-- corrupt.
unfoldable pub is_classified : (old_probe new_probe : ℕ) → StartupSnapshot → Bool
is_classified old_probe new_probe startup =
    if startup.state == startup_data_corrupt
    then not (bit_and startup.error comm_corruption_bit == 0)
    else startup.state == startup_ok && (startup.probe == old_probe || startup.probe == new_probe)

module _ (h : Host) where
  unfoldable pub write_consumer : ℕ → Attempt Session (Unit {0})
  write_consumer value s =
      let accepted = not (is_some (h.local_od_write s.step)) in
      require accepted (
        record_action
          (local_write heartbeat_consumer_index heartbeat_consumer_subindex value accepted) s)

  unfoldable pub read_consumer : Attempt Session ℕ
  read_consumer s = (h.local_od_read s.step, next s)

  -- The value from before.
  unfoldable pub suspend_heartbeat_consumer : Attempt Session ℕ
  suspend_heartbeat_consumer = do
    saved_consumer ← read_consumer
    write_consumer 0
    return saved_consumer

  unfoldable pub restore_heartbeat_consumer : (saved_consumer : ℕ) → Attempt Session (Unit {0})
  restore_heartbeat_consumer saved_consumer = write_consumer saved_consumer

  -- Whether the outage goes as it has to or not, the supervision is restored.
  unfoldable pub and_restore :
      (saved_consumer : ℕ) → Attempt Session (Unit {0}) → Attempt Session (Unit {0})
  and_restore saved_consumer outage s =
      let (completed, t) = outage s in
      let (restored, u) = restore_heartbeat_consumer saved_consumer t in
      (if is_some completed then restored else none, u)

  -- An expected outage of the slave, without supervision.
  unfoldable pub during_outage : Attempt Session (Unit {0}) → Attempt Session (Unit {0})
  during_outage outage = do
    saved_consumer ← suspend_heartbeat_consumer
    lift (prepare_boot_wait h)
    and_restore saved_consumer outage

  unfoldable pub await_boot : Attempt Session (Unit {0})
  await_boot = do wait_for_boot_completion h; return tt

  unfoldable pub reset_and_boot : Attempt Session (Unit {0})
  reset_and_boot = do succeeds (issue_nmt_command h reset_node slave_node_id); await_boot

  unfoldable pub reset_node_and_wait : Attempt Session (Unit {0})
  reset_node_and_wait = during_outage reset_and_boot

  unfoldable pub wait_for_operator_power_cycle : Attempt Session (Unit {0})
  wait_for_operator_power_cycle = during_outage await_boot

  -- A save that is not to succeed, as the power is cut.
  unfoldable pub interrupted_save : Attempt Session (Unit {0})
  interrupted_save = do
    save_result ← lift (
        write_remote_sdo h store_index comm_storage_subindex save_magic default_sdo_timeout_ms
          default_completion_margin_ms)
    require (not (is_success save_result))
    await_boot

  unfoldable pub validate_storage_objects : Attempt Session (Unit {0})
  validate_storage_objects = do
    save_capability ← read_object h 32 store_index comm_storage_subindex
    restore_capability ← read_object h 32 restore_index comm_storage_subindex
    require (not (bit_and save_capability 1 == 0) && not (bit_and restore_capability 1 == 0))

  unfoldable pub save_probe : (probe : ℕ) → Attempt Session (Unit {0})
  save_probe probe = do
    write_object h probe_index 0 probe
    write_object h store_index comm_storage_subindex save_magic

  unfoldable pub expect_startup :
      (state probe : ℕ) → (require_comm_corruption : Bool) → Attempt Session (Unit {0})
  expect_startup state probe require_comm_corruption = do
    startup ← read_startup h
    require (is_startup state probe require_comm_corruption startup)

  unfoldable pub expect_baseline_startup : StartupSnapshot → Attempt Session (Unit {0})
  expect_baseline_startup baseline = do
    current ← read_startup h
    require (same_startup current baseline)

  unfoldable pub cleanup_baseline : StorageBaseline → Attempt Session (Unit {0})
  cleanup_baseline baseline = do
    require baseline.is_captured
    restore_raw_region h baseline
    reset_node_and_wait
    expect_baseline_startup baseline.startup
    write_object h probe_index 0 baseline.runtime_probe

  -- The target's own backup restores a changed byte. The byte is read out of range if the layout has
  -- no data, which the code does not rule out.
  unfoldable pub ram_backup_case : StorageBaseline → Attempt Session (Unit {0})
  ram_backup_case baseline = do
    run_diagnostic_command h raw_write (data_offset baseline.layout) 1
        (bit_xor (get_or baseline.raw (data_offset baseline.layout) 0) 0x01) false
    run_plain h restore_backup
    verify_raw_region h baseline

  -- A saved value is the one that the next start loads.
  unfoldable pub persisted : (probe : ℕ) → Attempt Session (Unit {0})
  persisted probe = do reset_node_and_wait; expect_startup startup_ok probe false

  unfoldable pub saved_layout : Attempt Session (Unit {0})
  saved_layout = do
    layout ← read_layout h
    require (bit_and layout.signature_value 0xFFFF == layout.data_length)

  unfoldable pub core_cases : StorageBaseline → Attempt Session (Unit {0})
  core_cases baseline = do
    ram_backup_case baseline
    save_probe (choose_probe baseline.runtime_probe 0x0555)
    saved_layout
    persisted (choose_probe baseline.runtime_probe 0x0555)
    save_probe (choose_probe (choose_probe baseline.runtime_probe 0x0555) 0x0666)
    persisted (choose_probe (choose_probe baseline.runtime_probe 0x0555) 0x0666)

  unfoldable pub restore_cases : StorageBaseline → Attempt Session (Unit {0})
  restore_cases baseline = do
    save_probe (choose_probe baseline.runtime_probe 0x0777)
    write_object h restore_index comm_storage_subindex restore_magic
    layout ← read_layout h
    require (layout.signature_value == 0xFFFFFFFF)
    reset_node_and_wait
    expect_startup startup_data_corrupt factory_probe true

  unfoldable pub corrupted_signature : (probe : ℕ) → Attempt Session (Unit {0})
  corrupted_signature probe = do
    save_probe probe
    run_plain h corrupt_signature
    reset_node_and_wait
    expect_startup startup_data_corrupt factory_probe true

  unfoldable pub corrupted_data : (probe : ℕ) → Attempt Session (Unit {0})
  corrupted_data probe = do
    save_probe probe
    layout ← read_layout h
    run_diagnostic_command h corrupt_data (data_offset layout) 1 0 false
    reset_node_and_wait
    expect_startup startup_data_corrupt probe true

  unfoldable pub corruption_cases : StorageBaseline → Attempt Session (Unit {0})
  corruption_cases baseline = do
    corrupted_signature (choose_probe baseline.runtime_probe 0x0888)
    restore_raw_region h baseline
    corrupted_data (choose_probe (choose_probe baseline.runtime_probe 0x0888) 0x0999)

  unfoldable pub power_cycle_cases : StorageBaseline → Attempt Session (Unit {0})
  power_cycle_cases baseline = do
    save_probe (choose_probe baseline.runtime_probe 0x0AAA)
    wait_for_operator_power_cycle
    expect_startup startup_ok (choose_probe baseline.runtime_probe 0x0AAA) false
    restore_raw_region h baseline
    wait_for_operator_power_cycle
    expect_startup baseline.startup.state baseline.startup.probe
        (baseline.startup.state == startup_data_corrupt)

  unfoldable pub classify : (old_probe new_probe : ℕ) → Attempt Session (Unit {0})
  classify old_probe new_probe = do
    startup ← read_startup h
    require (is_classified old_probe new_probe startup)

  unfoldable pub power_interruption_cases : StorageBaseline → Attempt Session (Unit {0})
  power_interruption_cases baseline = do
    save_probe (choose_probe baseline.runtime_probe 0x0BBB)
    write_object h probe_index 0 (choose_probe (choose_probe baseline.runtime_probe 0x0BBB) 0x0CCC)
    during_outage interrupted_save
    classify (choose_probe baseline.runtime_probe 0x0BBB)
        (choose_probe (choose_probe baseline.runtime_probe 0x0BBB) 0x0CCC)

  -- The core mode looks at the layout and at the storage objects first.
  unfoldable pub core_baseline : Attempt Session StorageBaseline
  core_baseline = do
    layout ← read_layout h
    require (validate_layout layout)
    validate_storage_objects
    capture_baseline h

  -- The cases of one mode, between the capture of the baseline and the cleanup.
  unfoldable pub run_mode :
      Attempt Session StorageBaseline → (StorageBaseline → Attempt Session (Unit {0})) → Proc ℕ
  run_mode capture cases s =
      let (captured, t) = capture s in
      elim captured [
        | none ↦ (1, t)
        | some baseline ↦
            let (passed, u) = cases baseline t in
            let (cleaned, v) = cleanup_baseline baseline u in
            (if is_some passed && is_some cleaned then 0 else 1, v)
      ]

  unfoldable pub storage_process : StorageMode → Proc ℕ
  storage_process core_mode = run_mode core_baseline core_cases
  storage_process restore_mode = run_mode (capture_baseline h) restore_cases
  storage_process corruption_mode = run_mode (capture_baseline h) corruption_cases
  storage_process power_cycle_mode = run_mode (capture_baseline h) power_cycle_cases
  storage_process power_interruption_mode = run_mode (capture_baseline h) power_interruption_cases
  storage_process unsupported_mode = λ s. (1, s)
