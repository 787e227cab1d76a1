-- ===== src/Gfc/Process/Restored.antt =====
-- What the GFC validation leaves behind (src/gfc_process.cpp).
use canopen_slave_tester.Prelude.{
  ℕ, ◌≤◌, ◌≡◌, refl, Bool, true, false, some, arith, not, ◌||◌, Option-cases, inl, inr,
}
use canopen_slave_tester.Lely.{NmtState, started, state_eq}
use canopen_slave_tester.Nmt.Events.{is_last_state}
use canopen_slave_tester.Attempt.{Attempt, ◌>>=◌, ◌>>◌, return}
use canopen_slave_tester.Attempt.Keeps.{Keeps, keeps_rules}
use canopen_slave_tester.Host.{Host, Session, success}
use canopen_slave_tester.Host.Log.{newest_remote, reads}
use canopen_slave_tester.Sdo.{read_remote_sdo}
use canopen_slave_tester.Gfc.{gfc_parameter_index, GfcDiagnostic, GfcRuntimeState, drain}
use canopen_slave_tester.Gfc.Remote.{read_remote}
use canopen_slave_tester.Gfc.Process.{
  GfcSession, within, set_runtime, validate_rebound, reset_issued, issue_reset, wait_for_boot,
  confirm_start, reset_and_boot, start_operational, ensure_operational, validate_reset_rebind,
  restore_parameter, restore_operational, cleanup_gfc_validation, consumer_and_producer,
  run_gfc_cases, run_gfc_validation, fresh_runtime, gfc_process,
}

module _ (h : Host) where
  restore_parameter-newest :
      (original : ℕ) (s : Session)
      → (restore_parameter h original s).0 ≡ some tt
      → newest_remote gfc_parameter_index 0 (restore_parameter h original s).1.log
        ≡ some (reads original success)
  unfolding restore_parameter read_remote read_remote_sdo
  restore_parameter-newest original s e = ground (arith, e)

  start_operational-runtime :
      (g : GfcSession)
      → (start_operational h g).0 ≡ some tt
      → (start_operational h g).1.runtime
        ≡ record (g.runtime) { remote_operational_restored = true }
  unfolding start_operational confirm_start
  start_operational-runtime g e = ground (arith, e)

  ensure_operational-restored :
      (b : Bool) (g : GfcSession)
      → g.runtime.remote_operational_restored ≡ b
      → (ensure_operational h b g).0 ≡ some tt
      → ((ensure_operational h b g).1.runtime.remote_operational_restored ≡ true)
        × ((ensure_operational h b g).1.runtime.original_valid ≡ g.runtime.original_valid)
        × ((ensure_operational h b g).1.runtime.original_valid_saved
            ≡ g.runtime.original_valid_saved)
  unfolding ensure_operational start_operational confirm_start
  ensure_operational-restored true g q e = (q, refl, refl)
  ensure_operational-restored false g q e = ground (arith, q, e)

  reset_and_boot-runtime :
      (g : GfcSession) (state : NmtState)
      → (reset_and_boot h g).0 ≡ some state
      → let r = (reset_and_boot h g).1.runtime in
        (r.remote_operational_restored ≡ state_eq state started)
        × (r.original_valid ≡ g.runtime.original_valid)
        × (r.original_valid_saved ≡ g.runtime.original_valid_saved)
  unfolding reset_and_boot reset_issued issue_reset wait_for_boot
  reset_and_boot-runtime g state e = ground (arith, e)

  validate_reset_rebind-runtime :
      (d d' : GfcDiagnostic) (g : GfcSession)
      → (validate_reset_rebind h d g).0 ≡ some d'
      → let r = (validate_reset_rebind h d g).1.runtime in
        (r.remote_operational_restored ≡ true)
        × (r.original_valid ≡ g.runtime.original_valid)
        × (r.original_valid_saved ≡ g.runtime.original_valid_saved)
  unfolding validate_reset_rebind
  validate_reset_rebind-runtime d d' g e =
      grind (arith, ensure_operational-restored, reset_and_boot-runtime)

  -- What a validation that passes has put into the state of the run.
  abbrev IsSaved : ℕ → GfcRuntimeState → Type 0
  IsSaved original r =
      (r.remote_operational_restored ≡ true)
      × (r.original_valid ≡ original)
      × (r.original_valid_saved ≡ true)

  cases-runtime :
      (g : GfcSession)
      → (run_gfc_cases h g).0 ≡ some tt
      → let r = (run_gfc_cases h g).1.runtime in
        (r.remote_operational_restored ≡ true)
        × (r.original_valid ≡ g.runtime.original_valid)
        × (r.original_valid_saved ≡ g.runtime.original_valid_saved)
  unfolding run_gfc_cases
  cases-runtime g e =
      let c = consumer_and_producer h g.session in
      let g' : GfcSession = record g { session = c.1 } in
      elim (Option-cases c.0) [
        | inl q ↦ absurd (ground (arith, e, q))
        | inr (d, q) ↦
            let r = validate_reset_rebind h d g' in
            elim (Option-cases r.0) [
              | inl p ↦ absurd (ground (arith, e, q, p))
              | inr (d', p) ↦
                  let kept = validate_reset_rebind-runtime d d' g' p in
                  ground (arith, e, q, p, kept)
            ]
      ]

  run-IsSaved :
      (g : GfcSession) (original : ℕ)
      → (read_remote h 8 gfc_parameter_index 0 (drain h g.session).1).0 ≡ some original
      → (run_gfc_validation h g).0 ≡ some tt
      → IsSaved original (run_gfc_validation h g).1.runtime
  unfolding run_gfc_validation
  run-IsSaved g original r e = grind (arith, r, cases-runtime)

  run-original :
      (g : GfcSession)
      → (run_gfc_validation h g).0 ≡ some tt
      → (original : ℕ) × (original ≤ 1)
        × ((read_remote h 8 gfc_parameter_index 0 (drain h g.session).1).0 ≡ some original)
  unfolding run_gfc_validation
  run-original g e =
      let read = (read_remote h 8 gfc_parameter_index 0 (drain h g.session).1).0 in
      elim (Option-cases read) [
        | inl q ↦ absurd (ground (arith, e, q))
        | inr (original, q) ↦ (original, ground (arith, e, q), q)
      ]

  cleanup-restored :
      (g : GfcSession) (original : ℕ)
      → IsSaved original g.runtime
      → (cleanup_gfc_validation h g).0 ≡ true
      → (newest_remote gfc_parameter_index 0 (cleanup_gfc_validation h g).1.session.log
          ≡ some (reads original success))
        × ((cleanup_gfc_validation h g).1.runtime.remote_operational_restored ≡ true)
  unfolding cleanup_gfc_validation restore_operational
  cleanup-restored g original i e =
      let restored = restore_parameter-newest original g.session in ground (arith, i, e, restored)

  -- Where the program takes the node for operational, the newest event has shown it Operational.
  abbrev IsConfirmed : GfcSession → Type 0
  IsConfirmed g =
      (not g.runtime.remote_operational_restored || is_last_state started g.events) ≡ true

  within-IsConfirmed : {A : Type 0} (p : Attempt Session A) → Keeps IsConfirmed (within p)
  within-IsConfirmed p = record { at = λ g k. k }

  reset_and_boot-IsConfirmed : Keeps IsConfirmed (reset_and_boot h)
  unfolding reset_and_boot reset_issued issue_reset wait_for_boot is_last_state
  reset_and_boot-IsConfirmed = record { at = λ g k. ground (arith, k) }

  start_operational-IsConfirmed :
      (g : GfcSession)
      → g.runtime.remote_operational_restored ≡ false
      → IsConfirmed (start_operational h g).1
  unfolding start_operational confirm_start is_last_state
  start_operational-IsConfirmed g q = ground (arith, q)

  -- The Boot state that decides is the one that the flag holds.
  after_boot : GfcDiagnostic → NmtState → Attempt GfcSession GfcDiagnostic
  after_boot diagnostic boot_state = do
    post_reset ← within (validate_rebound h diagnostic.rx_count)
    ensure_operational h (state_eq boot_state started)
    return post_reset

  ensure-IsConfirmed :
      (b : Bool) (g : GfcSession)
      → g.runtime.remote_operational_restored ≡ b
      → IsConfirmed g
      → IsConfirmed (ensure_operational h b g).1
  unfolding ensure_operational
  ensure-IsConfirmed true g q k = k
  ensure-IsConfirmed false g q k = start_operational-IsConfirmed g q

  after_boot-IsConfirmed :
      (d : GfcDiagnostic) (state : NmtState) (g : GfcSession)
      → g.runtime.remote_operational_restored ≡ state_eq state started
      → IsConfirmed g
      → IsConfirmed (after_boot d state g).1
  unfolding after_boot
  after_boot-IsConfirmed d state g q k =
      let t = (within (validate_rebound h d.rx_count) g).1 in
      ground (arith, k, ensure-IsConfirmed (state_eq state started) t q k)

  rebind-IsConfirmed : (d : GfcDiagnostic) → Keeps IsConfirmed (validate_reset_rebind h d)
  unfolding validate_reset_rebind after_boot
  rebind-IsConfirmed d = record {
    at = λ g k.
        let r = reset_and_boot h g in
        let kept = reset_and_boot-IsConfirmed.at g k in
        elim (Option-cases r.0) [
          | inl q ↦ ground (arith, kept, q)
          | inr (state, q) ↦
              let rest =
                after_boot-IsConfirmed d state r.1 (reset_and_boot-runtime g state q).0 kept in
              ground (arith, rest, q)
        ];
  }

  save-IsConfirmed :
      (original : ℕ)
      → Keeps IsConfirmed (
          set_runtime (λ (r : GfcRuntimeState). record r {
            original_valid = original;
            original_valid_saved = true;
          }))
  save-IsConfirmed original = record { at = λ g k. k }

  run-IsConfirmed : Keeps IsConfirmed (run_gfc_validation h)
  unfolding run_gfc_validation run_gfc_cases
  run-IsConfirmed =
      search (keeps_rules, within-IsConfirmed, rebind-IsConfirmed, save-IsConfirmed) depth 30

  cleanup-IsConfirmed :
      (g : GfcSession) → IsConfirmed g → IsConfirmed (cleanup_gfc_validation h g).1
  unfolding cleanup_gfc_validation restore_operational
  cleanup-IsConfirmed g k = grind (arith, k, start_operational-IsConfirmed)

  -- A GFC validation with result zero has read 0x1300 after draining its channel, as zero or one;
  -- whatever the device has done since, the newest access to 0x1300 is a successful read of that value
  -- again; and the newest that it has learned of the node, by a Boot result or by a confirmed Start with no
  -- accepted reset after it, is that it is Operational.
  pub gfc_process-Restored :
      (s : Session)
      → (gfc_process h s).0 ≡ 0
      → (original : ℕ) × (original ≤ 1)
        × ((read_remote h 8 gfc_parameter_index 0 (drain h s).1).0 ≡ some original)
        × (newest_remote gfc_parameter_index 0 (gfc_process h s).1.session.log
            ≡ some (reads original success))
        × (is_last_state started (gfc_process h s).1.events ≡ true)
  unfolding gfc_process
  gfc_process-Restored s e =
      let g = fresh_runtime h s in
      let ran : (run_gfc_validation h g).0 ≡ some tt = ground (arith, e) in
      let r = run-original g ran in
      let saved = run-IsSaved g r.0 r.2 ran in
      let cleaned = cleanup-restored (run_gfc_validation h g).1 r.0 saved (ground (arith, e)) in
      let k = cleanup-IsConfirmed (run_gfc_validation h g).1 (run-IsConfirmed.at g refl) in
      (r.0, r.1, r.2, cleaned.0, ground (arith, k, cleaned.1))
