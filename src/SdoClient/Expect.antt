-- ===== src/SdoClient/Expect.antt =====
-- What the MCU SDO client validation asks for and expects (src/sdo_client_process.cpp).
use canopen_slave_tester.Prelude.{ℕ, Bool, true, false, ◌&&◌, none, ◌==◌, if◌then◌else◌}
use canopen_slave_tester.Emcy.{is_some}
use canopen_slave_tester.Host.{
  Session, SdoOperationResult, success, failed, sdo_timeout, wait_timeout,
}
use canopen_slave_tester.Attempt.{Attempt}
use canopen_slave_tester.Payload.{make_payload, checksum}
use canopen_slave_tester.Fixture.{HostSdoServerFixture}
use canopen_slave_tester.SdoClient.{ClientRequest, ClientStatus}

abbrev pub block_flag : ℕ
block_flag = 0x01

abbrev pub block_regression_size : ℕ
block_regression_size = 2048

abbrev pub block_regression_seed : ℕ
block_regression_seed = 0xB0212C3D

abbrev pub local_control_index : ℕ
local_control_index = 0x2200

abbrev pub missing_local_index : ℕ
missing_local_index = 0x2FFF

abbrev pub missing_node_id : ℕ
missing_node_id = 126

abbrev pub master_node_id : ℕ
master_node_id = 127

-- The fixture's objects.
abbrev pub u32_index : ℕ
u32_index = 0x2F00

abbrev pub octets_index : ℕ
octets_index = 0x2F01

abbrev pub read_only_fixture_index : ℕ
read_only_fixture_index = 0x2F02

abbrev pub u32_size : ℕ
u32_size = 4

abbrev pub segmented_size : ℕ
segmented_size = 48

abbrev pub segmented_seed : ℕ
segmented_seed = 0xA1B2C3D4

abbrev pub probe_value : ℕ
probe_value = 0x12345678

abbrev pub alternate_probe_value : ℕ
alternate_probe_value = 0x87654321

abbrev pub missing_node_probe_timeout_ms : ℕ
missing_node_probe_timeout_ms = 500

abbrev pub missing_node_probe_margin_ms : ℕ
missing_node_probe_margin_ms = 250

abbrev pub abort_timeout : ℕ
abort_timeout = 0x05040000

abbrev pub abort_read_only : ℕ
abort_read_only = 0x06010002

abbrev pub abort_not_exist : ℕ
abort_not_exist = 0x06020000

-- The terminal results that the cases look for.
pub data McuSdoClientResult : Type 0 where
  mcu_none mcu_success mcu_abort mcu_timeout reset_cancelled : McuSdoClientResult
  setup_error unsupported internal_error : McuSdoClientResult

abbrev pub result_code : McuSdoClientResult → ℕ
result_code mcu_none = 0
result_code mcu_success = 1
result_code mcu_abort = 2
result_code mcu_timeout = 3
result_code reset_cancelled = 4
result_code setup_error = 5
result_code unsupported = 6
result_code internal_error = 7

-- Requests without payload, and with one.
abbrev pub upload_with : (node index flags : ℕ) → ClientRequest
upload_with node index flags = record {
  command = 1;
  remote_node = node;
  index = index;
  subindex = 0;
  payload_size = 0;
  probe_value = 0;
  flags = flags;
}

abbrev pub download_with : (node index size value flags : ℕ) → ClientRequest
download_with node index size value flags = record {
  command = 2;
  remote_node = node;
  index = index;
  subindex = 0;
  payload_size = size;
  probe_value = value;
  flags = flags;
}

abbrev pub upload_request : (node index : ℕ) → ClientRequest
upload_request node index = upload_with node index 0

abbrev pub download_request : (node index size value : ℕ) → ClientRequest
download_request node index size value = download_with node index size value 0

unfoldable pub expect_u32_success : ClientStatus → (expected_value : ℕ) → Bool
expect_u32_success status expected_value =
    status.result == result_code mcu_success
    && status.abort_code == 0
    && status.transferred_size == u32_size
    && status.result_value == expected_value

unfoldable pub expect_failure : ClientStatus → McuSdoClientResult → (expected_abort : ℕ) → Bool
expect_failure status expected_result expected_abort =
    status.result == result_code expected_result && status.abort_code == expected_abort

unfoldable pub expect_payload : ClientStatus → (size seed : ℕ) → Bool
expect_payload status size seed =
    status.result == result_code mcu_success
    && status.abort_code == 0
    && status.transferred_size == size
    && status.checksum == checksum (make_payload size seed)

-- A value other than the saved one.
unfoldable pub probe_for : (saved : ℕ) → ℕ
probe_for saved = if saved == probe_value then alternate_probe_value else probe_value

unfoldable pub is_no_answer : SdoOperationResult → Bool
is_no_answer success = false
is_no_answer failed = false
is_no_answer sdo_timeout = true
is_no_answer wait_timeout = false

-- The session, and the host's own objects.
pub record ClientSession : Type 0 where
  pub session : Session
  pub fixture : HostSdoServerFixture

module _ {ℓ} {A : Type ℓ} where
  abbrev pub by_session : Attempt Session A → Attempt ClientSession A
  by_session p c = let (r, t) = p c.session in (r, record c { session = t })

  abbrev pub by_fixture : Attempt HostSdoServerFixture A → Attempt ClientSession A
  by_fixture p c = let (r, f) = p c.fixture in (r, record c { fixture = f })

-- The restoration follows the case whether it passes or not, and both have to.
unfoldable pub then_restore {ℓ} :
    {S : Type ℓ} → Attempt S (Unit {0}) → Attempt S (Unit {0}) → Attempt S (Unit {0})
then_restore cases restore s =
    let (passed, t) = cases s in
    let (restored, u) = restore t in (if is_some restored then passed else none, u)
