-- ===== src/Sdo/Access.antt =====
-- The remote SDO helpers of include/canopen_sdo.h with their default times, as the validations call
-- them: anything but SUCCESS is a failure.
use canopen_slave_tester.Prelude.{ℕ, ◌≡◌, refl, true, none, some, if◌then◌else◌}
use canopen_slave_tester.Host.{
  Host, Session, SdoOperationResult, success, failed, sdo_timeout, wait_timeout,
}
use canopen_slave_tester.Heartbeat.Process.{is_success}
use canopen_slave_tester.Sdo.{
  default_sdo_timeout_ms, default_completion_margin_ms, read_remote_sdo, write_remote_sdo,
}
use canopen_slave_tester.Attempt.{Attempt, require}

pub is_success→≡ : (r : SdoOperationResult) → is_success r ≡ true → r ≡ success
is_success→≡ success e = refl
is_success→≡ failed e = cc
is_success→≡ sdo_timeout e = cc
is_success→≡ wait_timeout e = cc

module _ (h : Host) where
  unfoldable pub read_object : (width index subindex : ℕ) → Attempt Session ℕ
  read_object width index subindex s =
      let (r, t) =
        read_remote_sdo h width index subindex 0 default_sdo_timeout_ms default_completion_margin_ms
          s in
      (if is_success r.0 then some r.1 else none, t)

  unfoldable pub write_object : (index subindex value : ℕ) → Attempt Session (Unit {0})
  write_object index subindex value s =
      let (r, t) =
        write_remote_sdo h index subindex value default_sdo_timeout_ms default_completion_margin_ms
          s in
      require (is_success r) t
