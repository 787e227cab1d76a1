-- ===== src/Srdo.antt =====
-- The data of the SRDO validation, src/srdo_process.cpp: the safety-related communication and mapping
-- profile, the constants of the test profile, and the payload bytes of its frames.
pub mod Crc
pub mod Wire
pub mod Channel
pub mod PairSync
pub mod Examples
use canopen_slave_tester.Prelude.{ℕ, ◌-◌, ◌^◌, List}
use canopen_slave_tester.Host.{CanMessage}

pub record SrdoCommProfile : Type 0 where
  pub direction : ℕ  -- uint8
  pub sct_ms : ℕ  -- uint16
  pub srvt_ms : ℕ  -- uint8
  pub transmission_type : ℕ  -- uint8
  pub normal_id : ℕ  -- uint32
  pub inverted_id : ℕ  -- uint32

-- `entry` is an array of two uint32.
pub record SrdoMapProfile : Type 0 where
  pub count : ℕ  -- uint8
  pub entry : List ℕ

pub record WireFrame : Type 0 where
  pub message : CanMessage
  pub timestamp : ℕ

abbrev pub rx_normal_can_id : ℕ
rx_normal_can_id = 0x101

abbrev pub rx_inverted_can_id : ℕ
rx_inverted_can_id = 0x102

abbrev pub tx_normal_can_id : ℕ
tx_normal_can_id = 0x103

abbrev pub tx_inverted_can_id : ℕ
tx_inverted_can_id = 0x104

abbrev pub payload_length : ℕ
payload_length = 4

abbrev pub probe_normal : ℕ
probe_normal = 0x12345678

-- ~kProbeNormal.
abbrev pub probe_inverted : ℕ
probe_inverted = 2 ^ 32 - 1 - probe_normal
