-- ===== src/SdoClient/Process/Restored.antt =====
-- What the MCU SDO client validation leaves of the device's object 0x2200 (src/sdo_client_process.cpp).
use canopen_slave_tester.Prelude.{
  ℕ, ◌≡◌, ◌≢◌, ◌⊎◌, inl, inr, Bool, Option, none, some, List, ◌∷◌, arith, Option-cases, Bool-cases,
  if◌then◌else◌, ◌==◌,
}
use canopen_slave_tester.Emcy.{is_some}
use canopen_slave_tester.Host.{
  Host, Session, Action, sdo_read, sdo_write, SdoOperationResult, success,
}
use canopen_slave_tester.Heartbeat.Process.{is_success}
use canopen_slave_tester.Heartbeat.{slave_node_id}
use canopen_slave_tester.Sdo.{
  read_remote_sdo, write_remote_sdo, default_sdo_timeout_ms, default_completion_margin_ms,
}
use canopen_slave_tester.Sdo.Access.{is_success→≡, read_object, write_object}
use canopen_slave_tester.Attempt.Keeps.{Keeps}
use canopen_slave_tester.Fixture.{Dictionary}
use canopen_slave_tester.SdoClient.Expect.{
  upload_request, missing_local_index, mcu_abort, abort_not_exist, probe_for, local_control_index,
  ClientSession, by_fixture, then_restore,
}
use canopen_slave_tester.SdoClient.Process.{
  verify_missing_node_precondition, restore_local_control, expect_upload, expect_abort,
  installed_cases, install_fixture, local_download, local_download_case, local_cases, remote_cases,
  client_cases, with_fixture, sdo_client_process,
}
use canopen_slave_tester.SdoClient.Process.Kept.{remote_cases-kept}
use canopen_slave_tester.SdoClient.Process.ReadBack.{
  by_fixture-kept, transaction-kept, recovery-kept, IsReadBack, IsKeptBack, upload-kept, abort-kept,
  by_session-kept,
}

module _ (h : Host) (d : Dictionary) where
  restore_local_control-newest :
      (original : ℕ) (s : Session)
      → (restore_local_control h d original s).0 ≡ some tt
      → IsReadBack original (restore_local_control h d original s).1
  unfolding restore_local_control read_object read_remote_sdo
  restore_local_control-newest original s e = ground (arith, e)

  -- What the host does to undo a download, from a log: it asks for a write of the original value, and
  -- reads the object only where the write has succeeded.
  abbrev pub IsUndone : (original : ℕ) → List Action → Option (Unit {0}) × Session → Type 0
  IsUndone original before r =
      ((r.0 ≡ none)
        × (result : SdoOperationResult) × (result ≢ success)
        × (r.1.log ≡ sdo_write local_control_index 0 original result ∷ before))
      ⊎ ((result : SdoOperationResult) × (value : ℕ) × (r.1.log
            ≡ sdo_read local_control_index 0 result value
              ∷ sdo_write local_control_index 0 original success
              ∷ before)
          × ((r.0 ≡ none) ⊎ ((result ≡ success) × (value ≡ original))))

  then_restore-failed :
      (restored : Option (Unit {0}) × Session) (passed : Option (Unit {0}))
      → restored.0 ≡ none
      → (if is_some restored.0 then passed else none) ≡ none
  then_restore-failed restored passed q = ground (arith, q)

  restore-IsUndone :
      (original : ℕ) (passed : Option (Unit {0})) (s : Session)
      → let r = restore_local_control h d original s in
        IsUndone original s.log ((if is_some r.0 then passed else none), r.1)
  unfolding restore_local_control read_object read_remote_sdo write_object write_remote_sdo
  restore-IsUndone original passed s =
      let submitted = h.submit s.step in
      let w =
        write_remote_sdo h local_control_index 0 original default_sdo_timeout_ms
          default_completion_margin_ms s in
      let v =
        read_remote_sdo h 32 local_control_index 0 0 default_sdo_timeout_ms
          default_completion_margin_ms w.1 in
      elim (Bool-cases (is_success w.0)) [
        | inr refused ↦ inl (
          ground (arith, refused),
          w.0,
          (λ q. ground (arith, refused, q)),
          ground (arith, refused),
        )
        | inl written ↦
            let fine : w.0 ≡ success = is_success→≡ w.0 written in
            inr (
              v.0.0,
              v.0.1,
              ground (arith, written, fine),
              elim (Bool-cases (is_success v.0.0)) [
                | inr failed_read ↦ inl (ground (arith, written, failed_read))
                | inl read ↦ elim (Bool-cases (v.0.1 == original)) [
                  | inr other ↦ inl (ground (arith, written, read, other))
                  | inl same ↦ inr (is_success→≡ v.0.0 read, ground (arith, same))
                ]
              ],
            )
      ]

  -- However a local download by the device ends, the first thing that the host does after it is to ask
  -- for a write of the original value to 0x2200; it reads the object exactly where that write has
  -- succeeded, and the case passes only if the read gives the original value.
  pub local_download_case-IsUndone :
      (original : ℕ) (s : Session)
      → IsUndone original
          (local_download h d (probe_for original) s).1.log
          (local_download_case h d original s)
  unfolding local_download_case then_restore
  local_download_case-IsUndone original s =
      let r = local_download h d (probe_for original) s in restore-IsUndone original r.0 r.1

  local_download_case-newest :
      (original : ℕ) (s : Session)
      → ((local_download_case h d original s).0 ≡ none)
        ⊎ IsReadBack original (local_download_case h d original s).1
  unfolding local_download_case then_restore
  local_download_case-newest original s =
      let t = (local_download h d (probe_for original) s).1 in
      elim (Option-cases (restore_local_control h d original t).0) [
        | inl q ↦ inl (ground (arith, q))
        | inr (_, q) ↦ inr (restore_local_control-newest original t q)
      ]

  local_cases-IsReadBack :
      (original : ℕ) (s : Session)
      → (local_cases h d original s).0 ≡ some tt
      → IsReadBack original (local_cases h d original s).1
  unfolding local_cases
  local_cases-IsReadBack original s e =
      let t = (expect_upload h d slave_node_id local_control_index original s).1 in
      let u = (local_download_case h d original t).1 in
      let v =
        (expect_abort h d (upload_request slave_node_id missing_local_index) mcu_abort
          abort_not_exist u).1 in
      let restored = local_download_case-newest original t in
      let aborted =
        (abort-kept h d original (upload_request slave_node_id missing_local_index) mcu_abort
            abort_not_exist).at
          u in
      let uploaded = (upload-kept h d original slave_node_id local_control_index original).at v in
      elim restored [
        | inl q ↦ absurd (ground (arith, e, q))
        | inr back ↦ ground (arith, e, aborted back, uploaded (aborted back))
      ]

  cases-kept : (original : ℕ) (b : Bool) → Keeps (IsKeptBack original) (remote_cases h d b)
  cases-kept original b =
      remote_cases-kept h d (IsKeptBack original)
        (λ request. by_session-kept original _ (transaction-kept h d original request))
        (λ node index expected.
          by_session-kept original _ (upload-kept h d original node index expected))
        (λ remote. by_session-kept original _ (recovery-kept h d original remote))
        (by_fixture-kept original _) (by_fixture-kept original _)
        (λ bytes. by_fixture-kept original _) (λ value. by_fixture-kept original _)
        (λ bytes. by_fixture-kept original _) b

  client_cases-IsReadBack :
      (b : Bool) (c : ClientSession)
      → (client_cases h d b c).0 ≡ some tt
      → (original : ℕ) × ((read_object h 32 local_control_index 0 c.session).0 ≡ some original)
        × IsReadBack original (client_cases h d b c).1.session
  unfolding client_cases installed_cases
  client_cases-IsReadBack b c e =
      let f = (by_fixture (install_fixture h d) c).1 in
      let r = read_object h 32 local_control_index 0 c.session in
      elim (Option-cases r.0) [
        | inl q ↦ absurd (ground (arith, e, q))
        | inr (original, q) ↦
            let t = local_cases h d original r.1 in
            let g : ClientSession = record f { session = t.1 } in
            let back = local_cases-IsReadBack original r.1 (ground (arith, e, q)) in
            let same : (client_cases h d b c).1 ≡ (remote_cases h d b g).1 = ground (arith, e, q) in
            (original, q, rw same ((cases-kept original b).at g back))
      ]

  -- An SDO client validation with result zero has read 0x2200 before its cases, and whatever the device
  -- has downloaded into it since, the newest access of the host to 0x2200 is a successful read of the
  -- same value.
  pub sdo_client_process-IsReadBack :
      (block_regression : Bool) (c : ClientSession)
      → (sdo_client_process h d block_regression c).0 ≡ 0
      → (original : ℕ) × ((read_object h 32 local_control_index 0
            (verify_missing_node_precondition h d c.session).1).0
          ≡ some original)
        × IsReadBack original (sdo_client_process h d block_regression c).1.session
  unfolding sdo_client_process with_fixture
  sdo_client_process-IsReadBack b c e =
      let p = verify_missing_node_precondition h d c.session in
      let g : ClientSession = record c { session = p.1 } in
      elim (Option-cases p.0) [
        | inl q ↦ absurd (ground (arith, e, q))
        | inr (_, q) ↦
            let done = client_cases-IsReadBack b g (ground (arith, e, q)) in
            (done.0, done.1, ground (arith, q, done.2))
      ]
