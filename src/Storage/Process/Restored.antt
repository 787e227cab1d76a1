-- ===== src/Storage/Process/Restored.antt =====
-- What a Storage validation that passes leaves behind (src/storage_process.cpp).
use canopen_slave_tester.Prelude.{ℕ, ◌≡◌, none, some, arith, Option-cases, inl, inr}
use canopen_slave_tester.Host.{Host, Session, success}
use canopen_slave_tester.Host.Log.{newest_remote, reads, wrote}
use canopen_slave_tester.Sdo.{read_remote_sdo, write_remote_sdo}
use canopen_slave_tester.Sdo.Access.{read_object, write_object}
use canopen_slave_tester.Attempt.{Attempt}
use canopen_slave_tester.Storage.{
  probe_index, diagnostic_index, sub, StartupSnapshot, StorageBaseline,
}
use canopen_slave_tester.Storage.Diagnostic.{read_field, read_startup, capture_baseline}
use canopen_slave_tester.Storage.Process.{
  StorageMode, core_mode, restore_mode, corruption_mode, power_cycle_mode, power_interruption_mode,
  unsupported_mode, same_startup, expect_baseline_startup, cleanup_baseline, core_baseline,
  core_cases, restore_cases, corruption_cases, power_cycle_cases, power_interruption_cases,
  run_mode, storage_process,
}

-- The newest read of a diagnostic field has succeeded with the value.
abbrev pub Shows : ℕ → ℕ → Session → Type 0
Shows field value s = newest_remote diagnostic_index field s.log ≡ some (reads value success)

-- The target has started as it had before the baseline was captured, and 0x1017 has been written last,
-- successfully, with its value from then.
abbrev pub IsReloaded : StorageBaseline → Session → Type 0
IsReloaded b s =
    Shows 0x0A b.startup.state s
    × Shows 0x0B b.startup.result s
    × Shows 0x0C b.startup.error s
    × Shows 0x1A b.startup.probe s
    × (newest_remote probe_index 0 s.log ≡ some (wrote b.runtime_probe success))

module _ (h : Host) where
  expect_baseline_startup-shown :
      (b : StartupSnapshot) (s : Session)
      → (expect_baseline_startup h b s).0 ≡ some tt
      → let t = (expect_baseline_startup h b s).1 in
        Shows 0x0A b.state t × Shows 0x0B b.result t × Shows 0x0C b.error t × Shows 0x1A b.probe t
  unfolding expect_baseline_startup read_startup read_field read_object read_remote_sdo same_startup
      sub
  expect_baseline_startup-shown b s e = ground (arith, e)

  cleanup-IsReloaded :
      (b : StorageBaseline) (s : Session)
      → (cleanup_baseline h b s).0 ≡ some tt
      → IsReloaded b (cleanup_baseline h b s).1
  unfolding cleanup_baseline write_object write_remote_sdo
  cleanup-IsReloaded b s e = grind (arith, expect_baseline_startup-shown)

  run_mode-IsReloaded :
      (capture : Attempt Session StorageBaseline)
      (cases : StorageBaseline → Attempt Session (Unit {0})) (s : Session)
      → (run_mode h capture cases s).0 ≡ 0
      → (b : StorageBaseline) × ((capture s).0 ≡ some b)
        × IsReloaded b (run_mode h capture cases s).1
  unfolding run_mode
  run_mode-IsReloaded capture cases s e = elim (Option-cases (capture s).0) [
    | inl q ↦ absurd (ground (arith, e, q))
    | inr (b, q) ↦
        let u = (cases b (capture s).1).1 in
        let reloaded = cleanup-IsReloaded b u (ground (arith, e, q)) in
        let same : (run_mode h capture cases s).1 ≡ (cleanup_baseline h b u).1 =
          ground (arith, q) in
        (b, q, rw same reloaded)
  ]

  -- How a mode captures its baseline.
  unfoldable pub captured_by : StorageMode → Attempt Session StorageBaseline
  captured_by core_mode = core_baseline h
  captured_by restore_mode = capture_baseline h
  captured_by corruption_mode = capture_baseline h
  captured_by power_cycle_mode = capture_baseline h
  captured_by power_interruption_mode = capture_baseline h
  captured_by unsupported_mode = λ s. (none, s)

  -- A Storage validation with result zero, in any mode, has captured a baseline before its cases; after
  -- them the newest reads of the target's startup state, result, error and probe all gave the values
  -- of the baseline, and the newest access to 0x1017 is the accepted write of its value from then.
  pub storage_process-IsReloaded :
      (mode : StorageMode) (s : Session)
      → (storage_process h mode s).0 ≡ 0
      → (b : StorageBaseline) × ((captured_by mode s).0 ≡ some b)
        × IsReloaded b (storage_process h mode s).1
  unfolding storage_process captured_by
  storage_process-IsReloaded core_mode s e =
      run_mode-IsReloaded (core_baseline h) (core_cases h) s e
  storage_process-IsReloaded restore_mode s e =
      run_mode-IsReloaded (capture_baseline h) (restore_cases h) s e
  storage_process-IsReloaded corruption_mode s e =
      run_mode-IsReloaded (capture_baseline h) (corruption_cases h) s e
  storage_process-IsReloaded power_cycle_mode s e =
      run_mode-IsReloaded (capture_baseline h) (power_cycle_cases h) s e
  storage_process-IsReloaded power_interruption_mode s e =
      run_mode-IsReloaded (capture_baseline h) (power_interruption_cases h) s e
  storage_process-IsReloaded unsupported_mode s e = absurd (ground (arith, e))
