-- ===== src/Heartbeat.antt =====
-- The Boot and Heartbeat observers of src/nmt_heartbeat.cpp.
pub mod Process
use canopen_slave_tester.Prelude.{
  ℕ, Bool, true, false, ◌||◌, ◌==◌, if◌then◌else◌, not, Option, none, some,
}
use canopen_slave_tester.Lely.{NmtState, bootup}

abbrev pub slave_node_id : ℕ
slave_node_id = 1

pub record BootObserver : Type 0 where
  pub received : Bool
  pub succeeded : Bool
  pub state : NmtState

pub record HeartbeatObserver : Type 0 where
  pub expected_occurred : Bool
  pub received : Bool

-- The status is a character: 0, or 'L' for a node that is already operational.
unfoldable pub boot_callback : ℕ → NmtState → ℕ → BootObserver → BootObserver
boot_callback node state status o =
    if not (node == slave_node_id)
    then o
    else record { received = true; succeeded = status == 0 || status == b'L'; state = state }

abbrev pub same : Bool → Bool → Bool
same true b = b
same false b = not b

unfoldable pub heartbeat_callback : ℕ → Bool → HeartbeatObserver → HeartbeatObserver
heartbeat_callback node occurred o =
    if not (node == slave_node_id)
    then o
    else if same occurred o.expected_occurred
    then record o { received = true }
    else o

unfoldable pub prepare_heartbeat : Bool → HeartbeatObserver → HeartbeatObserver
prepare_heartbeat occurred o = record { expected_occurred = occurred; received = false }

unfoldable pub prepare_boot : BootObserver → BootObserver
prepare_boot o = record { received = false; succeeded = false; state = bootup }

-- What an accepted Boot result reports, once the wait is over.
unfoldable pub boot_result : Bool → BootObserver → Option NmtState
boot_result reached o = if not reached then none else if not o.succeeded then none else some o.state
