-- ===== src/Storage.antt =====
-- The Storage persistence validation of src/storage_process.cpp: its data, the checksum of a raw
-- image, and the test of the target's layout.
pub mod Diagnostic
pub mod Process
pub mod Image
pub mod Examples
use canopen_slave_tester.Prelude.{
  ℕ, zero, suc, ◌+◌, ◌-◌, ◌*◌, ◌/◌, ◌%◌, ◌^◌, Bool, true, false, ◌&&◌, ◌||◌, List, [], ◌∷◌, ltb,
  leb, ◌==◌, not, if◌then◌else◌, bit_and, bit_or, bit_xor, get_or, set,
}
use canopen_slave_tester.Srdo.Crc.{crc16_ccitt_byte}

abbrev pub store_index : ℕ
store_index = 0x1010

abbrev pub restore_index : ℕ
restore_index = 0x1011

abbrev pub probe_index : ℕ
probe_index = 0x1017

abbrev pub heartbeat_consumer_index : ℕ
heartbeat_consumer_index = 0x1016

abbrev pub heartbeat_consumer_subindex : ℕ
heartbeat_consumer_subindex = 1

abbrev pub diagnostic_index : ℕ
diagnostic_index = 0x2305

abbrev pub comm_storage_subindex : ℕ
comm_storage_subindex = 2

abbrev pub save_magic : ℕ
save_magic = 0x65766173

abbrev pub restore_magic : ℕ
restore_magic = 0x64616F6C

abbrev pub expected_eeprom_size : ℕ
expected_eeprom_size = 16384

abbrev pub expected_page_size : ℕ
expected_page_size = 64

abbrev pub expected_addr_input : ℕ
expected_addr_input = 1

abbrev pub factory_probe : ℕ
factory_probe = 0

abbrev pub comm_corruption_bit : ℕ
comm_corruption_bit = 2 ^ comm_storage_subindex

abbrev pub diagnostic_timeout_ms : ℕ
diagnostic_timeout_ms = 10000

abbrev pub diagnostic_poll_ms : ℕ
diagnostic_poll_ms = 20

pub data DiagnosticSubindex : Type 0 where
  request_seq command_field entry_sub_index raw_offset_field raw_size_field raw_value_field :
      DiagnosticSubindex
  active_seq complete_seq result_field startup_state_field startup_result startup_error :
      DiagnosticSubindex
  storage_offset_field eeprom_size_field page_size_field addr_input_field : DiagnosticSubindex
  signature_address_field data_address_field data_length_field raw_start_field raw_length_field :
      DiagnosticSubindex
  signature_value_field backup_valid backup_crc startup_seq startup_probe : DiagnosticSubindex

unfoldable pub sub : DiagnosticSubindex → ℕ
sub request_seq = 0x01
sub command_field = 0x02
sub entry_sub_index = 0x03
sub raw_offset_field = 0x04
sub raw_size_field = 0x05
sub raw_value_field = 0x06
sub active_seq = 0x07
sub complete_seq = 0x08
sub result_field = 0x09
sub startup_state_field = 0x0A
sub startup_result = 0x0B
sub startup_error = 0x0C
sub storage_offset_field = 0x0D
sub eeprom_size_field = 0x0E
sub page_size_field = 0x0F
sub addr_input_field = 0x10
sub signature_address_field = 0x11
sub data_address_field = 0x12
sub data_length_field = 0x13
sub raw_start_field = 0x14
sub raw_length_field = 0x15
sub signature_value_field = 0x16
sub backup_valid = 0x17
sub backup_crc = 0x18
sub startup_seq = 0x19
sub startup_probe = 0x1A

pub data DiagnosticCommand : Type 0 where
  refresh backup restore_backup corrupt_signature corrupt_data raw_read raw_write :
      DiagnosticCommand

unfoldable pub diagnostic_command_value : DiagnosticCommand → ℕ
diagnostic_command_value refresh = 1
diagnostic_command_value backup = 2
diagnostic_command_value restore_backup = 3
diagnostic_command_value corrupt_signature = 4
diagnostic_command_value corrupt_data = 5
diagnostic_command_value raw_read = 6
diagnostic_command_value raw_write = 7

abbrev pub diagnostic_success : ℕ
diagnostic_success = 1

-- The values of StartupState that the host expects; a snapshot holds any byte.
abbrev pub startup_ok : ℕ
startup_ok = 1

abbrev pub startup_data_corrupt : ℕ
startup_data_corrupt = 2

pub record StorageLayout : Type 0 where
  pub storage_offset : ℕ
  pub eeprom_size : ℕ
  pub page_size : ℕ
  pub addr_input : ℕ
  pub signature_address : ℕ
  pub data_address : ℕ
  pub data_length : ℕ
  pub raw_start : ℕ
  pub raw_length : ℕ
  pub signature_value : ℕ

-- `result` is a signed number, here by its unsigned 32-bit representation.
pub record StartupSnapshot : Type 0 where
  pub state : ℕ
  pub result : ℕ
  pub error : ℕ
  pub sequence : ℕ
  pub probe : ℕ

pub record StorageBaseline : Type 0 where
  pub layout : StorageLayout
  pub startup : StartupSnapshot
  pub raw : List ℕ
  pub runtime_probe : ℕ
  pub raw_crc : ℕ
  pub is_captured : Bool

-- The loop over the bytes.
unfoldable pub crc16_bytes : (crc : ℕ) → List ℕ → ℕ
crc16_bytes crc [] = crc
crc16_bytes crc (byte ∷ bytes) = crc16_bytes (crc16_ccitt_byte crc byte) bytes

unfoldable pub crc16_ccitt : List ℕ → ℕ
crc16_ccitt raw = crc16_bytes 0 raw

unfoldable pub validate_layout : StorageLayout → Bool
validate_layout layout =
    let raw_end = layout.raw_start + layout.raw_length in
    let data_end = layout.data_address + layout.data_length in
    not (
      not (layout.eeprom_size == expected_eeprom_size)
      || not (layout.page_size == expected_page_size)
      || not (layout.addr_input == expected_addr_input)
      || layout.raw_length == 0
      || not (layout.storage_offset == layout.signature_address)
      || not (layout.raw_start == layout.storage_offset)
      || ltb layout.data_address layout.signature_address
      || not (data_end == raw_end)
      || ltb layout.eeprom_size raw_end
      || ltb 0xFFFF layout.data_length)

-- The difference of two unsigned 32-bit numbers.
unfoldable pub data_offset : StorageLayout → ℕ
data_offset layout = (layout.data_address + 2 ^ 32 - layout.raw_start) % 2 ^ 32

unfoldable pub choose_probe : (baseline preferred : ℕ) → ℕ
choose_probe baseline preferred =
    if baseline == preferred then bit_xor preferred 0x0111 else preferred

-- The bytes of one transfer, lowest first.
unfoldable pub store_chunk : (chunk word : ℕ) → List ℕ → (offset : ℕ) → List ℕ
store_chunk zero word raw offset = raw
store_chunk (suc n) word raw offset =
    store_chunk n (word / 256) (set raw offset (word % 256)) (offset + 1)

-- The word of the `chunk` bytes from `offset` on; the loop counts up to `chunk`.
unfoldable pub chunk_word : (chunk : ℕ) → List ℕ → (offset : ℕ) → ℕ
chunk_word zero raw offset = 0
chunk_word (suc n) raw offset =
    bit_or (chunk_word n raw offset) (get_or raw (offset + n) 0 * 2 ^ (8 * n))

unfoldable pub chunk_size : (length offset : ℕ) → ℕ
chunk_size length offset = if ltb (length - offset) 4 then length - offset else 4
