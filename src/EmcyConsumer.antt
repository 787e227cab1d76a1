-- ===== src/EmcyConsumer.antt =====
-- The data of the EMCY consumer validation and its remote diagnostic 0x2301
-- (src/emcy_consumer_process.cpp).
pub mod Process
pub mod Waits
pub mod Examples
use canopen_slave_tester.Prelude.{
  ℕ, zero, suc, ◌+◌, ◌*◌, ◌/◌, ◌%◌, ◌^◌, Bool, true, false, ◌&&◌, Option, none, some, List, ◌∷◌,
  ◌==◌, ltb, if◌then◌else◌,
}
use canopen_slave_tester.Host.{Host, Session, now, pause}
use canopen_slave_tester.Heartbeat.Process.{is_success}
use canopen_slave_tester.Sdo.{read_remote_sdo}
use canopen_slave_tester.Attempt.{Attempt, ◌>>=◌, ◌>>◌, return}

abbrev pub consumer_diagnostic_index : ℕ
consumer_diagnostic_index = 0x2301

abbrev pub count_field : ℕ
count_field = 0x01

abbrev pub source_node_field : ℕ
source_node_field = 0x02

abbrev pub cob_id_field : ℕ
cob_id_field = 0x03

abbrev pub error_code_field : ℕ
error_code_field = 0x04

abbrev pub error_register_field : ℕ
error_register_field = 0x05

abbrev pub error_bit_field : ℕ
error_bit_field = 0x06

abbrev pub info_code_field : ℕ
info_code_field = 0x07

abbrev pub host_node_id : ℕ
host_node_id = 127

abbrev pub expected_host_emcy_can_id : ℕ
expected_host_emcy_can_id = 0x80 + host_node_id

abbrev consumer_sdo_timeout_ms : ℕ
consumer_sdo_timeout_ms = 500

abbrev consumer_sdo_margin_ms : ℕ
consumer_sdo_margin_ms = 100

abbrev emcy_observation_timeout_ms : ℕ
emcy_observation_timeout_ms = 2000

abbrev pub emcy_poll_interval_ms : ℕ
emcy_poll_interval_ms = 20

abbrev snapshot_retry_count : ℕ
snapshot_retry_count = 3

abbrev pub error_code_a : ℕ
error_code_a = 0xFF01

abbrev pub error_code_b : ℕ
error_code_b = 0xFF02

abbrev pub test_error_register : ℕ
test_error_register = 0x81

pub record EmcyTestVector : Type 0 where
  pub error_code : ℕ
  pub error_register : ℕ
  pub msef : List ℕ
  pub expected_error_bit : ℕ
  pub expected_info_code : ℕ

abbrev pub vector_a : EmcyTestVector
vector_a = record {
  error_code = error_code_a;
  error_register = test_error_register;
  msef = 0xA1 ∷ 0x12 ∷ 0x34 ∷ 0x56 ∷ 0x78 ∷ List.[];
  expected_error_bit = 0xA1;
  expected_info_code = 0x78563412;
}

abbrev pub vector_b : EmcyTestVector
vector_b = record {
  error_code = error_code_b;
  error_register = test_error_register;
  msef = 0xB2 ∷ 0x87 ∷ 0x65 ∷ 0x43 ∷ 0x21 ∷ List.[];
  expected_error_bit = 0xB2;
  expected_info_code = 0x21436587;
}

pub record EmcyConsumerSnapshot : Type 0 where
  pub rx_count : ℕ
  pub source_node_id : ℕ
  pub cob_id : ℕ
  pub error_code : ℕ
  pub error_register : ℕ
  pub error_bit : ℕ
  pub info_code : ℕ

unfoldable pub validate_vector_snapshot :
    EmcyConsumerSnapshot → (expected_count : ℕ) → EmcyTestVector → Bool
validate_vector_snapshot snapshot expected_count vector =
    snapshot.rx_count == expected_count
    && snapshot.source_node_id == host_node_id
    && snapshot.cob_id == expected_host_emcy_can_id
    && snapshot.error_code == vector.error_code
    && snapshot.error_register == vector.error_register
    && snapshot.error_bit == vector.expected_error_bit
    && snapshot.info_code == vector.expected_info_code

unfoldable pub validate_recovery_snapshot : EmcyConsumerSnapshot → (expected_count : ℕ) → Bool
validate_recovery_snapshot snapshot expected_count =
    snapshot.rx_count == expected_count
    && snapshot.source_node_id == host_node_id
    && snapshot.cob_id == expected_host_emcy_can_id
    && snapshot.error_code == 0
    && snapshot.error_register == 0
    && snapshot.error_bit == 0
    && snapshot.info_code == 0

unfoldable pub validate_reset_preserved_snapshot : (before after : EmcyConsumerSnapshot) → Bool
validate_reset_preserved_snapshot before after =
    after.rx_count == before.rx_count
    && after.source_node_id == before.source_node_id
    && after.cob_id == before.cob_id
    && after.error_code == before.error_code
    && after.error_register == before.error_register
    && after.error_bit == before.error_bit
    && after.info_code == before.info_code

module _ (h : Host) where
  unfoldable pub read_remote_diagnostic : (width index subindex : ℕ) → Attempt Session ℕ
  read_remote_diagnostic width index subindex s =
      let (r, t) =
        read_remote_sdo h width index subindex 0 consumer_sdo_timeout_ms consumer_sdo_margin_ms s in
      (if is_success r.0 then some r.1 else none, t)

  -- One attempt: the snapshot, if the count did not change meanwhile.
  unfoldable pub consumer_attempt : Attempt Session (Option EmcyConsumerSnapshot)
  consumer_attempt = do
    count_before ← read_remote_diagnostic 32 consumer_diagnostic_index count_field
    source_node_id ← read_remote_diagnostic 8 consumer_diagnostic_index source_node_field
    cob_id ← read_remote_diagnostic 16 consumer_diagnostic_index cob_id_field
    error_code ← read_remote_diagnostic 16 consumer_diagnostic_index error_code_field
    error_register ← read_remote_diagnostic 8 consumer_diagnostic_index error_register_field
    error_bit ← read_remote_diagnostic 8 consumer_diagnostic_index error_bit_field
    info_code ← read_remote_diagnostic 32 consumer_diagnostic_index info_code_field
    count_after ← read_remote_diagnostic 32 consumer_diagnostic_index count_field
    return (
        if count_before == count_after
        then some (record {
          rx_count = count_after;
          source_node_id = source_node_id;
          cob_id = cob_id;
          error_code = error_code;
          error_register = error_register;
          error_bit = error_bit;
          info_code = info_code;
        })
        else none)

  unfoldable pub snapshot_from : (attempts : ℕ) → Attempt Session EmcyConsumerSnapshot
  snapshot_from zero s = (none, s)
  snapshot_from (suc n) s =
      let (attempted, t) = consumer_attempt s in
      elim attempted [
        | none ↦ (none, t)
        | some candidate ↦ elim candidate [
          | none ↦ snapshot_from n t
          | some current ↦ (some current, t)
        ]
      ]

  unfoldable pub read_stable_snapshot : Attempt Session EmcyConsumerSnapshot
  read_stable_snapshot = snapshot_from snapshot_retry_count

  -- The loop, by the turns left.
  unfoldable pub poll_next_rx_count : (turns baseline_count deadline : ℕ) → Attempt Session ℕ
  poll_next_rx_count zero baseline_count deadline s = (none, s)
  poll_next_rx_count (suc n) baseline_count deadline s =
      let (current, t) = read_remote_diagnostic 32 consumer_diagnostic_index count_field s in
      elim current [
        | none ↦ (none, t)
        | some c ↦
            let u = pause emcy_poll_interval_ms t in
            elim (c == (baseline_count + 1) % 2 ^ 32) [
              | true ↦ (some c, t)
              | false ↦ elim (c == baseline_count) [
                | false ↦ (none, t)
                | true ↦ elim (ltb (now h u) deadline) [
                  | true ↦ poll_next_rx_count n baseline_count deadline u
                  | false ↦ (none, u)
                ]
              ]
            ]
      ]

  -- Each turn sleeps.
  unfoldable pub wait_for_next_rx_count : (baseline_count : ℕ) → Attempt Session ℕ
  wait_for_next_rx_count baseline_count s =
      poll_next_rx_count (emcy_observation_timeout_ms / emcy_poll_interval_ms) baseline_count
        (now h s + emcy_observation_timeout_ms * 1000000) s
