-- ===== src/SdoBlock.antt =====
-- The SDO accesses of the SDO block-transfer validation (src/sdo_block_process.cpp): block uploads and
-- downloads, and what the validation then knows of the channel. What the server answers is a
-- parameter, which may depend on all that the validation has done so far.
pub mod Process
pub mod Examples
use canopen_slave_tester.Prelude.{
  ℕ, ◌+◌, Bool, true, false, Option, none, some, List, [], ◌∷◌, if◌then◌else◌,
}
use canopen_slave_tester.Lely.{NmtCommand, NmtState, SdoErrc, Outcome, errc_eq}
use canopen_slave_tester.Host.{
  Host, Session, SdoOperationResult, success, failed, sdo_timeout, wait_timeout, next,
}
use canopen_slave_tester.State.{State}
use canopen_slave_tester.Emcy.{is_some}
use canopen_slave_tester.Nmt.Command.{issue_nmt_command_and_wait_for_state}
use canopen_slave_tester.Heartbeat.{slave_node_id}
use canopen_slave_tester.Sdo.{default_sdo_timeout_ms, default_completion_margin_ms, read_remote_sdo}
use canopen_slave_tester.Sdo.Block.{
  BlockCompletion, BlockResult, read_remote_block_sdo, write_remote_block_sdo,
}
use canopen_slave_tester.Attempt.{Attempt, require}

-- The accesses, each with the result that the validation gets. A cancelled download is recorded with
-- whether its completion has been seen.
pub data BlockAccess : Type 0 where
  block_download : (index subindex : ℕ) → List ℕ → SdoOperationResult → BlockAccess
  block_upload : (index subindex : ℕ) → SdoOperationResult → List ℕ → BlockAccess
  segmented_upload : (index subindex : ℕ) → SdoOperationResult → List ℕ → BlockAccess
  expedited_upload : (index subindex : ℕ) → SdoOperationResult → ℕ → BlockAccess
  cancelled_download : (index subindex : ℕ) → List ℕ → (completed : Bool) → BlockAccess

-- The validation's two flags; its accesses, and the states that it has waited for, with whether they
-- have been confirmed, newest first.
pub record BlockSession : Type 0 where
  pub session : Session
  pub channel_known : Bool
  pub node_stopped : Bool
  pub accesses : List BlockAccess
  pub confirmations : List (NmtState × Bool)

-- The completions that are seen within a wait in milliseconds.
pub record BlockHost : Type 0 where
  pub host : Host
  pub upload : BlockSession → (index subindex wait_ms : ℕ) → Option (BlockCompletion (List ℕ))
  pub segmented : BlockSession → (index subindex wait_ms : ℕ) → Option (BlockCompletion (List ℕ))
  pub download :
      BlockSession
      → (index subindex : ℕ) → List ℕ
      → (wait_ms : ℕ) → Option (BlockCompletion (Unit {0}))
  -- Whether the client service is there, and then the completion of the cancelled request.
  pub cancel_accepted : BlockSession → Bool
  pub cancelled : BlockSession → (wait_ms : ℕ) → Option Outcome
  -- What Lely's sdo_errc() gives for an error that is not set.
  pub cleared_errc : SdoErrc

-- `lely::canopen::sdo_errc(error) == code`
unfoldable pub has_errc : (cleared : SdoErrc) → Outcome → SdoErrc → Bool
has_errc cleared none code = errc_eq cleared code
has_errc cleared (some e) code = errc_eq e.sdo_errc code

unfoldable pub update_channel_state : SdoOperationResult → Bool → Bool
update_channel_state success channel_known = channel_known
update_channel_state failed channel_known = channel_known
update_channel_state sdo_timeout channel_known = channel_known
update_channel_state wait_timeout channel_known = false

-- After an access with a result.
abbrev pub accessed : BlockAccess → SdoOperationResult → BlockSession → BlockSession
accessed a r s = record s {
  session = next s.session;
  channel_known = update_channel_state r s.channel_known;
  accesses = a ∷ s.accesses;
}

module _ (h : BlockHost) where
  -- readRemoteBlockSdo, and updateChannelState with its result.
  unfoldable pub read_block :
      (index subindex sdo_timeout_ms margin_ms : ℕ) → State BlockSession (BlockResult (List ℕ))
  read_block index subindex t margin s =
      let r =
        read_remote_block_sdo [] (h.host.submit s.session.step)
          (h.upload s index subindex (t + margin)) [] in
      (r, accessed (block_upload index subindex r.result r.value) r.result s)

  -- readRemoteSdo of a byte vector, whose steps and results are the same.
  unfoldable pub read_segmented : (index subindex : ℕ) → State BlockSession (BlockResult (List ℕ))
  read_segmented index subindex s =
      let r =
        read_remote_block_sdo [] (h.host.submit s.session.step)
          (h.segmented s index subindex (default_sdo_timeout_ms + default_completion_margin_ms))
          [] in
      (r, accessed (segmented_upload index subindex r.result r.value) r.result s)

  unfoldable pub write_block :
      (index subindex : ℕ) → List ℕ → State BlockSession (SdoOperationResult × Outcome)
  write_block index subindex payload s =
      let r = write_remote_block_sdo (h.host.submit s.session.step) (
        h.download s index subindex payload
          (default_sdo_timeout_ms + default_completion_margin_ms)) in
      (r, accessed (block_download index subindex payload r.0) r.0 s)

  unfoldable pub read_expedited : (width index subindex : ℕ) → State BlockSession SdoOperationResult
  read_expedited width index subindex s =
      let (r, t) =
        read_remote_sdo h.host width index subindex 0 default_sdo_timeout_ms
          default_completion_margin_ms s.session in
      (r.0, record (accessed (expedited_upload index subindex r.0 r.1) r.0 s) { session = t })

  -- A confirmed NMT command; the two flags are the caller's to change.
  unfoldable pub confirm : NmtCommand → NmtState → Attempt BlockSession (Unit {0})
  confirm c expected s =
      let (confirmed, t) =
        issue_nmt_command_and_wait_for_state h.host c slave_node_id expected s.session in
      require confirmed
        (record s { session = t; confirmations = (expected, confirmed) ∷ s.confirmations })

  -- The end of a request that is cancelled: its error, if its completion is seen.
  unfoldable pub cancel_request :
      (index subindex : ℕ) → List ℕ → State BlockSession (Option Outcome)
  cancel_request index subindex payload s =
      let seen =
        if h.cancel_accepted s
        then h.cancelled s (default_sdo_timeout_ms + default_completion_margin_ms)
        else none in
      let completed = is_some seen in
      (
        seen,
        record s {
          session = next s.session;
          channel_known = if completed then s.channel_known else false;
          accesses = cancelled_download index subindex payload completed ∷ s.accesses;
        },
      )
