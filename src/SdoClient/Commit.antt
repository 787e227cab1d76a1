-- ===== src/SdoClient/Commit.antt =====
-- How a request to the device's SDO client is committed (src/sdo_client_process.cpp).
use canopen_slave_tester.Prelude.{
  ℕ, ◌≡◌, ◌≢◌, ◌⊎◌, inl, inr, false, none, some, ◌∷◌, arith, Option-cases, ◌==◌,
}
use canopen_slave_tester.Host.{Host, Session, SdoOperationResult, success}
use canopen_slave_tester.Sdo.{
  default_sdo_timeout_ms, default_completion_margin_ms, write_remote_sdo,
}
use canopen_slave_tester.Sdo.Access.{write_object}
use canopen_slave_tester.Host.Log.{newest_remote, wrote}
use canopen_slave_tester.SdoClient.{
  control_index, request_seq_sub, ClientRequest, write_control, write_fields, submit_request,
}
use canopen_slave_tester.SdoClient.Transaction.{
  field_written, field_writes, write_control-log, write_fields-log,
}

module _ (h : Host) where
  -- The newest access to the request's sequence number, with what it was before.
  abbrev Uncommitted : Session → Session → Type 0
  Uncommitted s t =
      newest_remote control_index request_seq_sub t.log
      ≡ newest_remote control_index request_seq_sub s.log

  write_control-Uncommitted :
      (subindex value : ℕ) (s : Session)
      → (subindex == request_seq_sub) ≡ false
      → Uncommitted s (write_control h subindex value s).1
  unfolding write_control write_object write_remote_sdo
  write_control-Uncommitted subindex value s other = ground (arith, other)

  write_fields-Uncommitted :
      (request : ClientRequest) (s : Session) → Uncommitted s (write_fields h request s).1
  unfolding write_fields
  write_fields-Uncommitted request s = grind (arith, write_control-Uncommitted)

  write_control-newest :
      (value : ℕ) (s : Session)
      → (write_control h request_seq_sub value s).0 ≡ none
      → (q : SdoOperationResult) × (q ≢ success)
        × (newest_remote control_index request_seq_sub
              (write_control h request_seq_sub value s).1.log
            ≡ some (wrote value q))
  unfolding write_control write_object write_remote_sdo
  write_control-newest value s e =
      let r =
        (write_remote_sdo h control_index request_seq_sub value default_sdo_timeout_ms
          default_completion_margin_ms s).0 in
      (r, λ p. ground (arith, e, p), ground arith)

  -- A request that is submitted has written its seven fields and then its sequence number, each
  -- successfully, and nothing else. One that fails either leaves the newest access to the sequence number
  -- as it was, or the newest is a write of the new number that has not succeeded.
  pub submit_request-IsCommitted :
      (request : ClientRequest) (sequence : ℕ) (s : Session)
      → let r = submit_request h request sequence s in
        ((r.0 ≡ some tt)
          × (r.1.log ≡ field_written request_seq_sub sequence ∷ field_writes request s.log))
        ⊎ ((r.0 ≡ none)
            × ((newest_remote control_index request_seq_sub r.1.log
                  ≡ newest_remote control_index request_seq_sub s.log)
                ⊎ ((q : SdoOperationResult) × (q ≢ success)
                    × (newest_remote control_index request_seq_sub r.1.log
                        ≡ some (wrote sequence q)))))
  unfolding submit_request
  submit_request-IsCommitted request sequence s =
      let fields = write_fields h request s in
      let commit = write_control h request_seq_sub sequence fields.1 in
      elim (Option-cases fields.0) [
        | inl f ↦
            let kept = write_fields-Uncommitted request s in
            inr (ground (arith, f), inl (ground (arith, f, kept)))
        | inr (_, f) ↦ elim (Option-cases commit.0) [
          | inl c ↦
              let failed_write = write_control-newest sequence fields.1 c in
              inr (
                ground (arith, f, c),
                inr (failed_write.0, failed_write.1, ground (arith, f, failed_write.2)),
              )
          | inr (_, c) ↦ inl (
            ground (arith, f, c),
            ground (
              arith,
              f,
              write_fields-log h request s f,
              write_control-log h request_seq_sub sequence fields.1 c,
            ),
          )
        ]
      ]
