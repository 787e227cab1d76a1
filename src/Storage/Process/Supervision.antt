-- ===== src/Storage/Process/Supervision.antt =====
-- The supervision of the slave during the Storage validation (src/storage_process.cpp).
use canopen_slave_tester.Prelude.{ℕ, ◌≡◌, ◌≢◌, Bool, some, arith, ◌∙◌, ap, Option-cases, inl, inr}
use canopen_slave_tester.Host.{Host, Session, next}
use canopen_slave_tester.Host.Log.{acquire-log}
use canopen_slave_tester.Heartbeat.Process.{prepare_boot_wait}
use canopen_slave_tester.Attempt.{Attempt}
use canopen_slave_tester.Attempt.Keeps.{Keeps}
use canopen_slave_tester.Storage.{StorageBaseline}
use canopen_slave_tester.Storage.Diagnostic.{capture_baseline}
use canopen_slave_tester.Storage.Diagnostic.Supervised.{
  IsSupervised, capture_baseline-kept, supervised_rules,
}
use canopen_slave_tester.Storage.Process.{
  StorageMode, core_mode, restore_mode, corruption_mode, power_cycle_mode, power_interruption_mode,
  unsupported_mode, write_consumer, read_consumer, suspend_heartbeat_consumer,
  restore_heartbeat_consumer, and_restore, during_outage, reset_node_and_wait,
  wait_for_operator_power_cycle, interrupted_save, validate_storage_objects, save_probe,
  expect_startup, expect_baseline_startup, cleanup_baseline, ram_backup_case, persisted,
  saved_layout, core_cases, restore_cases, corrupted_signature, corrupted_data, corruption_cases,
  power_cycle_cases, classify, power_interruption_cases, core_baseline, run_mode, storage_process,
}

module _ (h : Host) (nonzero : (t : ℕ) → h.local_od_read t ≢ some 0) where
  prepare_boot_wait-log : (s : Session) → (prepare_boot_wait h s).1.log ≡ s.log
  unfolding prepare_boot_wait
  prepare_boot_wait-log s = acquire-log h s

  -- Whatever the outage does, the value that is restored is not zero.
  and_restore-IsSupervised :
      (saved : ℕ) (outage : Attempt Session (Unit {0})) (s : Session)
      → saved ≢ 0
      → IsSupervised (and_restore h saved outage s).1
  unfolding and_restore restore_heartbeat_consumer write_consumer
  and_restore-IsSupervised saved outage s n = ground (arith, n)

  during_outage-kept :
      (outage : Attempt Session (Unit {0})) → Keeps IsSupervised (during_outage h outage)
  unfolding during_outage suspend_heartbeat_consumer read_consumer write_consumer
  during_outage-kept outage = record {
    at = λ s k. elim (Option-cases (h.local_od_read s.step)) [
      | inl q ↦ ground (arith, k, q)
      | inr (saved, q) ↦
          let t = (prepare_boot_wait h (write_consumer h 0 (next s)).1).1 in
          let restored =
            and_restore-IsSupervised saved outage t (λ z. nonzero s.step (q ∙ ap some z)) in
          ground (arith, q, restored)
    ];
  }

  reset-kept : Keeps IsSupervised (reset_node_and_wait h)
  unfolding reset_node_and_wait
  reset-kept = during_outage-kept _

  power_cycle-kept : Keeps IsSupervised (wait_for_operator_power_cycle h)
  unfolding wait_for_operator_power_cycle
  power_cycle-kept = during_outage-kept _

  save_probe-kept : (probe : ℕ) → Keeps IsSupervised (save_probe h probe)
  unfolding save_probe
  save_probe-kept probe = search supervised_rules

  expect_startup-kept :
      (state probe : ℕ) (corrupt : Bool) → Keeps IsSupervised (expect_startup h state probe corrupt)
  unfolding expect_startup
  expect_startup-kept state probe corrupt = search supervised_rules

  ruleset mode_rules =
      (supervised_rules, reset-kept, power_cycle-kept, save_probe-kept, expect_startup-kept)

  cleanup-kept : (b : StorageBaseline) → Keeps IsSupervised (cleanup_baseline h b)
  unfolding cleanup_baseline expect_baseline_startup
  cleanup-kept b = search mode_rules depth 20

  core_cases-kept : (b : StorageBaseline) → Keeps IsSupervised (core_cases h b)
  unfolding core_cases ram_backup_case saved_layout persisted
  core_cases-kept b = search mode_rules depth 30

  restore_cases-kept : (b : StorageBaseline) → Keeps IsSupervised (restore_cases h b)
  unfolding restore_cases
  restore_cases-kept b = search mode_rules depth 20

  corruption_cases-kept : (b : StorageBaseline) → Keeps IsSupervised (corruption_cases h b)
  unfolding corruption_cases corrupted_signature corrupted_data
  corruption_cases-kept b = search mode_rules depth 30

  power_cycle_cases-kept : (b : StorageBaseline) → Keeps IsSupervised (power_cycle_cases h b)
  unfolding power_cycle_cases
  power_cycle_cases-kept b = search mode_rules depth 20

  interrupted-kept : Keeps IsSupervised (during_outage h (interrupted_save h))
  interrupted-kept = during_outage-kept _

  power_interruption_cases-kept :
      (b : StorageBaseline) → Keeps IsSupervised (power_interruption_cases h b)
  unfolding power_interruption_cases classify
  power_interruption_cases-kept b = search (mode_rules, interrupted-kept) depth 20

  core_baseline-kept : Keeps IsSupervised (core_baseline h)
  unfolding core_baseline validate_storage_objects
  core_baseline-kept = search mode_rules depth 20

  run_mode-kept :
      (capture : Attempt Session StorageBaseline)
      (cases : StorageBaseline → Attempt Session (Unit {0}))
      → Keeps IsSupervised capture
      → ((b : StorageBaseline) → Keeps IsSupervised (cases b))
      → Keeps IsSupervised (run_mode h capture cases)
  unfolding run_mode
  run_mode-kept capture cases captured kept = record {
    at = λ s k. elim (Option-cases (capture s).0) [
      | inl q ↦ ground (arith, q, captured.at s k)
      | inr (b, q) ↦
          let t = (capture s).1 in
          let u = (cases b t).1 in
          ground (arith, q, (cleanup-kept b).at u ((kept b).at t (captured.at s k)))
    ];
  }

  -- Where the consumer entry 0x1016:01 of the master is never read as zero, the newest write to that
  -- entry is not an accepted zero after a Storage validation of any mode, however it ends, if it was
  -- none before: after an accepted zero the validation writes to the entry again, which Lely may refuse.
  pub storage_process-IsSupervised :
      (mode : StorageMode) (s : Session)
      → IsSupervised s
      → IsSupervised (storage_process h mode s).1
  unfolding storage_process
  storage_process-IsSupervised core_mode =
      (run_mode-kept (core_baseline h) (core_cases h) core_baseline-kept core_cases-kept).at
  storage_process-IsSupervised restore_mode =
      (run_mode-kept (capture_baseline h) (restore_cases h) (capture_baseline-kept h)
        restore_cases-kept).at
  storage_process-IsSupervised corruption_mode =
      (run_mode-kept (capture_baseline h) (corruption_cases h) (capture_baseline-kept h)
        corruption_cases-kept).at
  storage_process-IsSupervised power_cycle_mode =
      (run_mode-kept (capture_baseline h) (power_cycle_cases h) (capture_baseline-kept h)
        power_cycle_cases-kept).at
  storage_process-IsSupervised power_interruption_mode =
      (run_mode-kept (capture_baseline h) (power_interruption_cases h) (capture_baseline-kept h)
        power_interruption_cases-kept).at
  storage_process-IsSupervised unsupported_mode = λ s k. k
