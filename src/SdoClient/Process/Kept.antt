-- ===== src/SdoClient/Process/Kept.antt =====
-- What the cases on the host's objects keep, given that their parts keep it
-- (src/sdo_client_process.cpp).
use canopen_slave_tester.Prelude.{ℕ, Bool, true, false, Option, none, some, List, [], ◌∷◌, arith}
use canopen_slave_tester.Host.{Host}
use canopen_slave_tester.Attempt.{Attempt}
use canopen_slave_tester.Payload.{make_payload}
use canopen_slave_tester.Attempt.Keeps.{Keeps, keeps_rules}
use canopen_slave_tester.Fixture.{read_u32, read_octets, write_octets, Dictionary}
use canopen_slave_tester.SdoClient.{ClientRequest, run_transaction}
use canopen_slave_tester.SdoClient.Expect.{
  segmented_size, segmented_seed, ClientSession, by_session, by_fixture, then_restore,
}
use canopen_slave_tester.SdoClient.Process.{
  restore_fixture_u32, expect_upload, optional_block_regression, restore_fixture_octets,
  remote_download, octets_upload_case, octets_download_case, octets_cases, segmented_cases, give_up,
  post_block_transaction, post_block_written, post_block_case, block_regression_cases,
  recovery_cases, remote_cases,
}

module _ {ℓ} {S : Type ℓ} (P : S → Type ℓ) where
  pub then_restore-kept :
      (cases restore : Attempt S (Unit {0}))
      → Keeps P cases
      → Keeps P restore
      → Keeps P (then_restore cases restore)
  unfolding then_restore
  then_restore-kept cases restore kc kr = record { at = λ s k. kr.at (cases s).1 (kc.at s k) }

module _ (h : Host) (d : Dictionary) (P : ClientSession → Type 0)
    (transactions : (request : ClientRequest) → Keeps P (by_session (run_transaction h request)))
    (uploads : (node index expected : ℕ)
      → Keeps P (by_session (expect_upload h d node index expected)))
    (recoveries : (remote : ℕ) → Keeps P (by_session (recovery_cases h d remote)))
    (u32_reads : Keeps P (by_fixture (read_u32 d)))
    (octet_reads : Keeps P (by_fixture (read_octets d)))
    (octet_writes : (bytes : List ℕ) → Keeps P (by_fixture (write_octets d bytes)))
    (u32_restores : (value : ℕ) → Keeps P (by_fixture (restore_fixture_u32 h d value)))
    (octet_restores : (bytes : List ℕ)
      → Keeps P (by_fixture (restore_fixture_octets h d bytes))) where
  ruleset case_rules = (keeps_rules, then_restore-kept)

  remote_download-kept : (probe : ℕ) → Keeps P (remote_download h d probe)
  unfolding remote_download
  remote_download-kept probe = search (case_rules) depth 30

  octets_upload-kept : (size seed flags : ℕ) → Keeps P (octets_upload_case h d size seed flags)
  unfolding octets_upload_case
  octets_upload-kept size seed flags = search (case_rules) depth 30

  octets_download-kept : (size seed flags : ℕ) → Keeps P (octets_download_case h d size seed flags)
  unfolding octets_download_case
  octets_download-kept size seed flags = search (case_rules) depth 30

  octets-kept : (size seed flags : ℕ) → Keeps P (octets_cases h d size seed flags)
  unfolding octets_cases
  octets-kept size seed flags =
      search (case_rules, octets_upload-kept, octets_download-kept) depth 30

  segmented-kept : Keeps P (segmented_cases h d)
  unfolding segmented_cases
  segmented-kept = search (keeps_rules, octets-kept) depth 30

  give_up-kept : (bytes : List ℕ) → Keeps P (give_up h d bytes)
  unfolding give_up
  give_up-kept [] = record { at = λ c k. k }
  give_up-kept (b ∷ bs) = record { at = λ c k. (octet_restores (b ∷ bs)).at c k }

  post_block_transaction-kept : Keeps P (post_block_transaction h d)
  unfolding post_block_transaction
  post_block_transaction-kept = search (case_rules) depth 30

  post_block_written-kept : (bytes : List ℕ) → Keeps P (post_block_written h d bytes)
  unfolding post_block_written
  post_block_written-kept bytes = record {
    at = λ c k.
        let e = (by_fixture (write_octets d (make_payload segmented_size segmented_seed)) c).1 in
        ground (
          arith,
          k,
          (octet_writes (make_payload segmented_size segmented_seed)).at c,
          (give_up-kept bytes).at e,
          (then_restore-kept P (post_block_transaction h d)
                (by_fixture (restore_fixture_octets h d bytes)) post_block_transaction-kept
                (octet_restores bytes)).at
              e,
        );
  }

  post_block_case-kept : (bytes : List ℕ) → Keeps P (post_block_case h d bytes)
  unfolding post_block_case
  post_block_case-kept bytes = record {
    at = λ c k.
        let r = by_fixture (read_octets d) c in
        elim r.0
          as (λ o.
            P
              (elim o as (λ _. Option (Unit {0}) × ClientSession) [
                | none ↦ give_up h d bytes r.1
                | some b ↦ post_block_written h d b r.1
              ]).1) [
                | none ↦ (give_up-kept bytes).at r.1 (octet_reads.at c k)
                | some b ↦ (post_block_written-kept b).at r.1 (octet_reads.at c k)
              ];
  }

  block_regression-kept : Keeps P (block_regression_cases h d)
  unfolding block_regression_cases
  block_regression-kept = search (keeps_rules, octets-kept, post_block_case-kept) depth 30

  optional-kept : (b : Bool) → Keeps P (optional_block_regression h d b)
  unfolding optional_block_regression
  optional-kept true = block_regression-kept
  optional-kept false = search (keeps_rules) depth 5

  pub remote_cases-kept : (block_regression : Bool) → Keeps P (remote_cases h d block_regression)
  unfolding remote_cases
  remote_cases-kept block_regression =
      search (case_rules, remote_download-kept, segmented-kept, optional-kept) depth 40
