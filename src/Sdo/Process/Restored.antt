-- ===== src/Sdo/Process/Restored.antt =====
-- What the SDO object-access validation does to the object (src/sdo_process.cpp).
use canopen_slave_tester.Prelude.{ℕ, ◌≡◌, ◌≢◌, ◌&&◌, Bool, true, false, arith, List, [], ◌∷◌, ◌⊎◌}
use canopen_slave_tester.Host.{
  Host, Session, Action, sdo_read, sdo_write, local_write, command, sent, SdoOperationResult,
  success, failed, sdo_timeout, wait_timeout,
}
use canopen_slave_tester.Sdo.{read_remote_sdo, write_remote_sdo}
use canopen_slave_tester.Sdo.Process.{
  test_object_index, choose_test_value, read_control_value, write_control_value,
  verify_control_value, restore_control_value, check_and_restore, sdo_process,
}

-- The five accesses of a run that passes: the first read gives the original value, another value
-- is written and read back, and the original value is written and read back.
unfoldable pub IsRoundTrip : (original test_value : ℕ) → (before after : List Action) → Type 0
IsRoundTrip original test_value before after =
    (w : SdoOperationResult) × ((w ≡ success) ⊎ (w ≡ sdo_timeout))
    × (after
        ≡ sdo_read test_object_index 0 success original
          ∷ sdo_write test_object_index 0 original w
          ∷ sdo_read test_object_index 0 success test_value
          ∷ sdo_write test_object_index 0 test_value success
          ∷ sdo_read test_object_index 0 success original
          ∷ before)

-- No request that is still open: a result other than WAIT_TIMEOUT.
abbrev pub is_settled : SdoOperationResult → Bool
is_settled success = true
is_settled failed = true
is_settled sdo_timeout = true
is_settled wait_timeout = false

abbrev pub settled : Action → Bool
settled (sdo_read index subindex result value) = is_settled result
settled (sdo_write index subindex value result) = is_settled result
settled (local_write index subindex value accepted) = true
settled (command c node accepted) = true
settled (sent message accepted) = true

unfoldable pub all_settled : List Action → Bool
all_settled [] = true
all_settled (a ∷ as') = settled a && all_settled as'

unfoldable pub older : List Action → List Action
older [] = []
older (a ∷ as') = as'

module _ (h : Host) where
  -- The value written is another than the one the object has.
  choose_test_value_other : (original : ℕ) → choose_test_value original ≢ original
  unfolding choose_test_value
  choose_test_value_other original e = ground (arith, e)

  restore-log :
      (original : ℕ) (s : Session)
      → (restore_control_value h original s).0 ≡ success
      → (w : SdoOperationResult) × ((w ≡ success) ⊎ (w ≡ sdo_timeout))
        × ((restore_control_value h original s).1.log
            ≡ sdo_read test_object_index 0 success original
              ∷ sdo_write test_object_index 0 original w
              ∷ s.log)
  unfolding restore_control_value verify_control_value read_control_value write_control_value
      read_remote_sdo write_remote_sdo
  restore-log original s e =
      let w = (write_control_value h original s).0 in (w, ground (arith, e), ground (arith, e))

  -- A validation that passes has made five accesses to the object and no others: the original value
  -- is read, a different one is written and read back, and the original one is written, at worst
  -- without an answer in time, and read back.
  pub sdo_process-IsRoundTrip :
      (s : Session)
      → (sdo_process h s).0 ≡ 0
      → (original : ℕ) × (choose_test_value original ≢ original)
        × IsRoundTrip original (choose_test_value original) s.log (sdo_process h s).1.log
  unfolding sdo_process check_and_restore IsRoundTrip read_control_value write_control_value
      read_remote_sdo write_remote_sdo
  sdo_process-IsRoundTrip s e =
      let original = (read_control_value h s).0.1 in
      let test_value = choose_test_value original in
      let t = (read_control_value h s).1 in
      let u = (write_control_value h test_value t).1 in
      let v = (read_control_value h u).1 in
      let restored : (restore_control_value h original v).0 ≡ success = ground (arith, e) in
      let r = restore-log original v restored in
      (original, choose_test_value_other original, (r.0, r.1, ground (arith, e, r.2)))

  restore-quiet :
      (original : ℕ) (s : Session)
      → all_settled s.log ≡ true
      → all_settled (older (restore_control_value h original s).1.log) ≡ true
  unfolding restore_control_value verify_control_value read_control_value write_control_value
      read_remote_sdo write_remote_sdo all_settled older
  restore-quiet original s q = ground (arith, q)

  -- After a request whose completion is not seen in time the validation makes no other: whatever the
  -- device does, all its accesses but the newest have been answered.
  pub sdo_process-quiet :
      (s : Session) → all_settled s.log ≡ true → all_settled (older (sdo_process h s).1.log) ≡ true
  unfolding sdo_process check_and_restore read_control_value write_control_value read_remote_sdo
      write_remote_sdo all_settled older
  sdo_process-quiet s q = grind (arith, restore-quiet)
