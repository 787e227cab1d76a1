-- ===== src/SdoBlock/Process/Settled.antt =====
-- The order of the SDO accesses of the block-transfer validation (src/sdo_block_process.cpp): what it
-- does after a request whose completion it has not seen.
use canopen_slave_tester.Prelude.{
  ℕ, zero, suc, ◌+◌, ◌≡◌, refl, inl, inr, Bool, true, ◌&&◌, Option, none, some, List, arith, not,
  Bool-cases, if◌then◌else◌, length, leb, ◌==◌, bit_xor,
}
use canopen_slave_tester.Host.{Session, SdoOperationResult}
use canopen_slave_tester.Lely.{no_write, timeout}
use canopen_slave_tester.Emcy.{is_some}
use canopen_slave_tester.Attempt.{Attempt, ◌>>=◌, ◌>>◌, return, require, lift}
use canopen_slave_tester.Payload.{make_payload}
use canopen_slave_tester.Heartbeat.Process.{is_success}
use canopen_slave_tester.Sdo.{default_sdo_timeout_ms, default_completion_margin_ms}
use canopen_slave_tester.Attempt.Guards.{Ends, Guards-return, Guards-then, guard_rules}
use canopen_slave_tester.SdoBlock.{
  has_errc, BlockHost, BlockSession, read_block, write_block, read_expedited,
}
use canopen_slave_tester.SdoBlock.Process.{
  after_save, max_payload_size, stress_seed, pattern_seed, stress_iterations, timeout_probe_ms,
  timeout_probe_margin_ms, block_object_index, read_only_index, is_failed, is_sdo_timeout,
  fresh_block, run_block_round_trip, run_illegal_access_case, restore_pre_operational,
  run_timeout_recovery_case, run_client_abort_case, run_expedited_regression,
  run_segmented_regression, stress_from, run_stress_case, functional_cases, run_cases,
  restore_original_payload, save_original, restore_node, clean_up, sdo_block_process,
}
use canopen_slave_tester.SdoBlock.Process.Accesses.{
  older_settled, IsSettledRun, is_seen, IsGood, IsCoherent, weaken, IsAfter, Guarded, tested_end,
  tested_then, is_success-is_seen, is_failed-is_seen, is_sdo_timeout-is_seen, read_block-IsAfter,
  write_block-IsAfter, read_expedited-IsAfter, Guards-download, Guards-upload,
  Guards-upload_segmented, Guards-round_trip,
}
use canopen_slave_tester.SdoBlock.Process.Commands.{
  restore-SameChannel, same-IsGood, same-IsCoherent, Guards-stop_node, Guards-submit,
  Guards-synchronize, Guards-cancel, SameChannel,
}

module _ (h : BlockHost) where
  Guards-illegal : Guarded (run_illegal_access_case h)
  unfolding run_illegal_access_case
  Guards-illegal = record {
    at = λ s g.
        let r = write_block h read_only_index 0 (make_payload 32 pattern_seed) s in
        tested_then r.0.0 (is_failed r.0.0 && has_errc h.cleared_errc r.0.1 no_write) r.1
          (run_block_round_trip h 32 (bit_xor pattern_seed 0x06010002))
          (λ e. is_failed-is_seen r.0.0 (ground (arith, e)))
          (Guards-round_trip h 32 (bit_xor pattern_seed 0x06010002))
          (write_block-IsAfter h read_only_index 0 (make_payload 32 pattern_seed) s g);
  }

  -- The restoration of the node between an access and the test of its result.
  restored_then :
      (r : SdoOperationResult) (b : Bool) (q : Option (Unit {0}) × BlockSession)
      (k : Attempt BlockSession (Unit {0}))
      → (b ≡ true → is_seen r ≡ true)
      → Guarded k
      → IsAfter r q.1
      → Ends IsGood IsCoherent (elim q.0 as (λ _. Option (Unit {0}) × BlockSession) [
        | none ↦ (none, q.1)
        | some _ ↦ (require b >> k) q.1
      ])
  restored_then r b (none, t) k p kk after = after.0
  restored_then r b (some a, t) k p kk after = tested_then r b t k p kk after

  same-IsAfter :
      (r : SdoOperationResult) (s t : BlockSession) → SameChannel s t → IsAfter r s → IsAfter r t
  same-IsAfter r s t same a = (
    same-IsCoherent s t same a.0,
    (elim a.1 [ inl f ↦ inl f | inr g ↦ inr (same-IsGood s t same g) ]),
  )

  Guards-timeout_read :
      (k : Attempt BlockSession (Unit {0}))
      → Guarded k
      → Guarded (do
        r ← lift (read_block h block_object_index 0 timeout_probe_ms timeout_probe_margin_ms)
        restore_pre_operational h
        require (is_sdo_timeout r.result && has_errc h.cleared_errc r.completion_error timeout)
        k)
  Guards-timeout_read k kk = record {
    at = λ s g.
        let r = read_block h block_object_index 0 timeout_probe_ms timeout_probe_margin_ms s in
        restored_then r.0.result
          (is_sdo_timeout r.0.result && has_errc h.cleared_errc r.0.completion_error timeout)
          (restore_pre_operational h r.1) k
          (λ e. is_sdo_timeout-is_seen r.0.result (ground (arith, e))) kk
          (same-IsAfter r.0.result r.1 (restore_pre_operational h r.1).1 (restore-SameChannel h r.1)
            (read_block-IsAfter h block_object_index 0 timeout_probe_ms timeout_probe_margin_ms s
              g));
  }

  Guards-timeout : Guarded (run_timeout_recovery_case h)
  unfolding run_timeout_recovery_case
  Guards-timeout =
      search (guard_rules, Guards-stop_node, Guards-timeout_read, Guards-round_trip) depth 30

  Guards-abort : Guarded (run_client_abort_case h)
  unfolding run_client_abort_case
  Guards-abort =
      search (guard_rules, Guards-submit, Guards-cancel, Guards-synchronize, Guards-round_trip)
        depth 30

  Guards-expedited_read :
      Guarded (do r ← lift (read_expedited h 32 read_only_index 0); require (is_success r))
  Guards-expedited_read = record {
    at = λ s g.
        let r = read_expedited h 32 read_only_index 0 s in
        tested_end r.0 (is_success r.0) r.1 (is_success-is_seen r.0)
          (read_expedited-IsAfter h 32 read_only_index 0 s g);
  }

  Guards-expedited : Guarded (run_expedited_regression h)
  unfolding run_expedited_regression
  Guards-expedited = search (guard_rules, Guards-round_trip, Guards-expedited_read) depth 30

  Guards-segmented : Guarded (run_segmented_regression h)
  unfolding run_segmented_regression
  Guards-segmented = search (guard_rules, Guards-download, Guards-upload_segmented) depth 30

  Guards-stress_from : (left iteration : ℕ) → Guarded (stress_from h left iteration)
  unfolding stress_from
  Guards-stress_from zero iteration = search (guard_rules) depth 30
  Guards-stress_from (suc n) iteration =
      Guards-then (run_block_round_trip h max_payload_size (stress_seed iteration))
        (stress_from h n (iteration + 1))
        (Guards-round_trip h max_payload_size (stress_seed iteration))
        (Guards-stress_from n (iteration + 1))

  Guards-stress : Guarded (run_stress_case h)
  unfolding run_stress_case
  Guards-stress = Guards-stress_from stress_iterations 0

  Guards-functional : Guarded (functional_cases h)
  unfolding functional_cases
  Guards-functional = search (guard_rules, Guards-round_trip) depth 30

  Guards-cases : Guarded (run_cases h)
  unfolding run_cases
  Guards-cases =
      search
        (
          guard_rules, Guards-functional, Guards-illegal, Guards-timeout, Guards-abort,
          Guards-expedited, Guards-segmented, Guards-stress,
        )
        depth 30

  Guards-clean_up : (original : List ℕ) → Guarded (restore_original_payload h original)
  unfolding restore_original_payload
  Guards-clean_up original = search (guard_rules, Guards-download, Guards-upload) depth 30

  Ends-IsCoherent :
      (r : Option (Unit {0}) × BlockSession) → Ends IsGood IsCoherent r → IsCoherent r.1
  Ends-IsCoherent (none, t) c = c
  Ends-IsCoherent (some a, t) g = weaken t g

  restore_node-SameChannel : (s : BlockSession) → SameChannel s (restore_node h s).1
  unfolding restore_node
  restore_node-SameChannel s = ground (arith, restore-SameChannel h s)

  run_end :
      (passed restored : Bool) (r : Option (Unit {0}) × BlockSession)
      → Ends IsGood IsCoherent r
      → IsSettledRun (if passed && restored && is_some r.0 then 0 else 1, r.1)
  run_end passed restored (none, t) c = (c.1, inr (ground arith))
  run_end passed restored (some a, t) g = (older_settled t.accesses g.1, inl g.1)

  coherent-IsGood : (s : BlockSession) → s.channel_known ≡ true → IsCoherent s → IsGood s
  coherent-IsGood s known c =
      (known, elim c.0 [ inl unknown ↦ absurd (cc) | inr settled ↦ settled ])

  clean_up-Ends :
      (original : List ℕ) (s : BlockSession)
      → IsCoherent s
      → Ends IsGood IsCoherent (clean_up h original s)
  unfolding clean_up
  clean_up-Ends original s c = elim (Bool-cases (s.channel_known && not s.node_stopped)) [
    | inl known ↦
        rw known ((Guards-clean_up original).at s (coherent-IsGood s (ground (arith, known)) c))
    | inr unknown ↦ rw unknown c
  ]

  save_original-Ends : (s : BlockSession) → IsGood s → Ends IsGood IsCoherent (save_original h s)
  unfolding save_original
  save_original-Ends s g =
      let r =
        read_block h block_object_index 0 default_sdo_timeout_ms default_completion_margin_ms s in
      tested_then r.0.result
        (is_success r.0.result
          && not (length r.0.value == 0)
          && leb (length r.0.value) max_payload_size)
        r.1 (return r.0.value) (λ e. is_success-is_seen r.0.result (ground (arith, e)))
        (Guards-return r.0.value)
        (read_block-IsAfter h block_object_index 0 default_sdo_timeout_ms
          default_completion_margin_ms s g)

  saved-IsSettledRun :
      (r : Option (List ℕ) × BlockSession)
      → Ends IsGood IsCoherent r
      → IsSettledRun (after_save h r)
  unfolding after_save
  saved-IsSettledRun (none, t) c = (c.1, inr refl)
  saved-IsSettledRun (some original, t) g =
      let u = run_cases h t in
      let v = restore_node h u.1 in
      run_end (is_some u.0) (is_some v.0) (clean_up h original v.1) (
        clean_up-Ends original v.1 (
          same-IsCoherent u.1 v.1 (restore_node-SameChannel u.1)
            (Ends-IsCoherent u ((Guards-cases).at t g))))

  -- The validation makes no SDO access after one whose end it has not seen: all its accesses but the
  -- newest have ended with a completion or a refusal that it has seen, a cancelled request with its
  -- completion. If the newest has not, the result is one.
  pub sdo_block_process-IsSettledRun : (s : Session) → IsSettledRun (sdo_block_process h s)
  unfolding sdo_block_process
  sdo_block_process-IsSettledRun s =
      saved-IsSettledRun (save_original h (fresh_block s))
        (save_original-Ends (fresh_block s) (refl, refl))
