-- ===== src/Srdo/PairSync.antt =====
-- Finding the next pair in the stream of TX frames: class TxPairSynchronizer of
-- src/srdo_process.cpp. Times are in nanoseconds of the steady clock.
pub mod Sequence
use canopen_slave_tester.Prelude.{
  ℕ, ◌+◌, ◌*◌, Bool, true, false, ◌&&◌, ◌||◌, List, [], ◌∷◌, ltb, leb, ◌==◌, not, if◌then◌else◌,
  Option, none, some,
}
use canopen_slave_tester.Srdo.{
  WireFrame, tx_normal_can_id, tx_inverted_can_id, probe_normal, probe_inverted,
}
use canopen_slave_tester.Srdo.Channel.{
  Read, send_pair, WireWaitResult, frame, timeout, error, wait_for_any_tx_until,
}

pub data PairSyncState : Type 0 where
  expect_normal expect_inverted : PairSyncState

pub record TxPairSynchronizer : Type 0 where
  pub allow_initial_resync : Bool
  pub synchronized : Bool
  pub initial_resync_used : Bool
  pub state : PairSyncState
  pub normal : WireFrame
  pub normal_deadline : ℕ

-- What happens in one turn of the loop: the clock where it is read, the channel's answers to the
-- keepalive pair at the head of the turn and after a timeout, and the reads.
pub record Turn : Type 0 where
  pub now : ℕ
  pub keepalive_test : ℕ
  pub keepalive_accepted : Bool × Bool
  pub keepalive_sent : ℕ
  pub reads : List Read
  pub retry_accepted : Bool × Bool
  pub retry_sent : ℕ
  pub normal_seen : ℕ

-- kPairDeadline and kRegressionRxPeriod.
abbrev pub pair_deadline : ℕ
pair_deadline = 50 * 1000000

abbrev pub regression_rx_period : ℕ
regression_rx_period = 40 * 1000000

abbrev min : ℕ → ℕ → ℕ
min a b = if ltb b a then b else a

abbrev pub is_expect_inverted : PairSyncState → Bool
is_expect_inverted expect_normal = false
is_expect_inverted expect_inverted = true

-- The result of a call: the pair, the synchronizer, and the TX frames that the call has read.
pub record Result : Type 0 where
  pub pair : Option (WireFrame × WireFrame)
  pub after : TxPairSynchronizer
  pub received : List WireFrame

-- How a turn ends: the loop goes on, or the call returns.
pub data TurnEnd : Type 0 where
  again : TxPairSynchronizer → TurnEnd
  failed : TurnEnd
  found : WireFrame → WireFrame → TxPairSynchronizer → TurnEnd

-- What the turn does with a frame. `seen` is the clock after a normal frame.
unfoldable pub on_frame : ℕ → WireFrame → TxPairSynchronizer → TurnEnd
on_frame seen f s =
    if not (is_expect_inverted s.state)
    then if f.message.id == tx_inverted_can_id
      then if s.allow_initial_resync && not s.synchronized && not s.initial_resync_used
        then again (record s { initial_resync_used = true })
        else failed
      else again
          (record s { normal = f; normal_deadline = seen + pair_deadline; state = expect_inverted })
    else if f.message.id == tx_normal_can_id
    then failed
    else found s.normal f (record s { state = expect_normal; synchronized = true })

abbrev fail : TxPairSynchronizer → Result
fail s = record { pair = none; after = s; received = [] }

abbrev with_frame : WireFrame → Result → Result
with_frame f r = record r { received = f ∷ r.received }

-- The keepalive after the one at the head of a turn, if it was due.
unfoldable pub keepalive_after : (keep_rx_alive : Bool) → Turn → (next_keepalive : ℕ) → ℕ
keepalive_after keep_rx_alive t next_keepalive =
    if keep_rx_alive && leb next_keepalive t.keepalive_test
    then t.keepalive_sent + regression_rx_period
    else next_keepalive

unfoldable pub read_deadline :
    (keep_rx_alive : Bool) (overall keepalive : ℕ) → TxPairSynchronizer → ℕ
read_deadline keep_rx_alive overall keepalive s =
    let deadline = if is_expect_inverted s.state then min overall s.normal_deadline else overall in
    if keep_rx_alive then min deadline keepalive else deadline

-- How the first half of a turn ends, the keepalive and the wait: the call returns without a frame,
-- the loop goes on after a late keepalive, or there is a frame. Both have the next keepalive.
pub data WaitEnd : Type 0 where
  stopped : WaitEnd
  kept_alive : ℕ → WaitEnd
  seen : ℕ → WireFrame → WaitEnd

unfoldable pub wait_turn :
    (keep_rx_alive : Bool) (overall : ℕ)
    → Turn
    → (next_keepalive : ℕ) → TxPairSynchronizer
    → WaitEnd
wait_turn keep_rx_alive overall t next_keepalive s =
    let due = keep_rx_alive && leb next_keepalive t.keepalive_test in
    let sent = (send_pair t.keepalive_accepted probe_normal probe_inverted).0 in
    let keepalive = keepalive_after keep_rx_alive t next_keepalive in
    let until = read_deadline keep_rx_alive overall keepalive s in
    let keepalive_deadline_reached =
      keep_rx_alive
      && until == keepalive
      && ltb keepalive overall
      && (not (is_expect_inverted s.state) || ltb keepalive s.normal_deadline) in
    let retried = (send_pair t.retry_accepted probe_normal probe_inverted).0 in
    if not (ltb t.now overall) || due && not sent
    then stopped
    else elim (wait_for_any_tx_until until t.reads) [
      | error ↦ stopped
      | timeout ↦
          if keepalive_deadline_reached && retried
          then kept_alive (t.retry_sent + regression_rx_period)
          else stopped
      | frame f ↦ seen keepalive f
    ]

-- The loop, by its turns; the clock has passed the overall deadline where the list ends.
unfoldable pub turns :
    (keep_rx_alive : Bool) (overall : ℕ)
    → List Turn
    → (next_keepalive : ℕ) → TxPairSynchronizer
    → Result
turns keep_rx_alive overall [] next_keepalive s = fail s
turns keep_rx_alive overall (t ∷ ts) next_keepalive s =
    elim (wait_turn keep_rx_alive overall t next_keepalive s) [
      | stopped ↦ fail s
      | kept_alive keepalive ↦ turns keep_rx_alive overall ts keepalive s
      | seen keepalive f ↦ elim (on_frame t.normal_seen f s) [
        | again s' ↦ with_frame f (turns keep_rx_alive overall ts keepalive s')
        | failed ↦ with_frame f (fail s)
        | found normal inverted s' ↦ record {
          pair = some (normal, inverted);
          after = s';
          received = f ∷ [];
        }
      ]
    ]

-- `start` is the clock at the first two reads of it.
unfoldable pub next_pair :
    (timeout_ns : ℕ) (keep_rx_alive : Bool) (start : ℕ × ℕ)
    → List Turn
    → TxPairSynchronizer
    → Result
next_pair timeout_ns keep_rx_alive start ts s =
    turns keep_rx_alive (start.0 + timeout_ns) ts start.1 s
