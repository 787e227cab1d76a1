-- ===== src/Host.antt =====
-- What the process thread works with: the observers that the callbacks of the Lely event loop write,
-- and the answers of Lely, of the CAN channel and of the clock, which are parameters.
-- A callback needs an observer's lock, and the process thread looks at the observers only under the
-- lock; so the callbacks that have run since it last held a lock are delivered when it takes one.
pub mod Log
use canopen_slave_tester.Prelude.{ℕ, ◌≤◌, ◌+◌, ◌*◌, Bool, false, Option, List, ◌∷◌, if◌then◌else◌}
pub use canopen_slave_tester.State.{◌>>=◌, ◌>>◌, return, ◌&&&◌}
use canopen_slave_tester.Lely.{NmtCommand, NmtState, Outcome}
use canopen_slave_tester.Waiting.{deliver, wait_for}
use canopen_slave_tester.Emcy.{EmcyFrame, EmcyObserver, emcy_callback}
use canopen_slave_tester.Nmt.{NmtObserver, nmt_state_callback}
use canopen_slave_tester.Heartbeat.{
  BootObserver, HeartbeatObserver, boot_callback, heartbeat_callback,
}

pub data Callback : Type 0 where
  on_emcy : EmcyFrame → Callback
  on_state : ℕ → NmtState → Callback
  on_boot : ℕ → NmtState → ℕ → Callback
  on_heartbeat : ℕ → Bool → Callback

-- What the completion callback of one SDO request is called with.
pub record Completion : Type 0 where
  pub error : Outcome
  pub value : ℕ

pub data SdoOperationResult : Type 0 where
  success failed sdo_timeout wait_timeout : SdoOperationResult

-- A CAN frame, as far as the program looks at it.
pub record CanMessage : Type 0 where
  pub id : ℕ
  pub flags : ℕ
  pub len : ℕ
  pub bytes : List ℕ

-- The three kinds of result of a channel read: negative with an error that is EAGAIN or EWOULDBLOCK
-- or not, zero, and positive with a frame and its kernel timestamp.
pub data ChannelRead : Type 0 where
  read_error : Bool → ChannelRead
  read_nothing : ChannelRead
  read_frame : CanMessage → ℕ → ChannelRead

-- What the process thread does, with the answer it gets.
pub data Action : Type 0 where
  sdo_read : (index subindex : ℕ) → SdoOperationResult → (value : ℕ) → Action
  sdo_write : (index subindex value : ℕ) → SdoOperationResult → Action
  local_write : (index subindex value : ℕ) → (accepted : Bool) → Action
  command : NmtCommand → (node : ℕ) → (accepted : Bool) → Action
  sent : CanMessage → (accepted : Bool) → Action

-- The environment's answers, by the number of the step at which they are asked for. Times are in
-- nanoseconds of the steady clock; `clock` leaves out the time that the program sleeps.
pub record Host : Type 0 where
  pub callbacks : ℕ → List Callback
  pub during : ℕ → List (List Callback)
  pub submit : ℕ → Outcome
  -- `none` if the callback does not run within the given wait, in milliseconds.
  pub completion : ℕ → ℕ → Option Completion
  pub local_od_write : ℕ → Outcome
  -- The value of a local object, unless the read fails.
  pub local_od_read : ℕ → Option ℕ
  pub managed_state : ℕ → Option NmtState
  pub command_accepted : ℕ → Bool
  -- The answer to a read with a timeout in milliseconds.
  pub channel_read : ℕ → ℕ → ChannelRead
  -- The frames that a channel has received and not handed out yet.
  pub queued : ℕ → ℕ
  pub channel_write : ℕ → Outcome
  pub net_send : ℕ → Bool
  pub clock : ℕ → ℕ

pub record Session : Type 0 where
  pub step : ℕ
  pub log : List Action  -- newest first
  pub emcy : EmcyObserver
  pub nmt : NmtObserver
  pub boot : BootObserver
  pub heartbeat : HeartbeatObserver
  pub slept : ℕ  -- nanoseconds

-- The steady clock never goes back.
abbrev pub IsSteady : Host → Type 0
IsSteady h = (t : ℕ) → h.clock t ≤ h.clock (t + 1)

abbrev pub Proc {ℓ} : Type ℓ → Type ℓ
Proc A = Session → A × Session

unfoldable pub on_callback : Callback → Session → Session
on_callback (on_emcy f) s = record s { emcy = emcy_callback f s.emcy }
on_callback (on_state node state) s = record s { nmt = nmt_state_callback node state s.nmt }
on_callback (on_boot node state status) s = record s {
  boot = boot_callback node state status s.boot;
}
on_callback (on_heartbeat node occurred) s = record s {
  heartbeat = heartbeat_callback node occurred s.heartbeat;
}

abbrev pub next : Session → Session
next s = record s { step = s.step + 1 }

abbrev pub record_action : Action → Session → Session
record_action a s = record s { step = s.step + 1; log = a ∷ s.log }

-- `sleep_for`: the clock advances by at least the duration.
abbrev pub pause : (duration_ms : ℕ) → Session → Session
pause duration_ms s = record s { step = s.step + 1; slept = s.slept + duration_ms * 1000000 }

module _ (h : Host) where
  -- The steady clock: the time that the program has slept, and what has passed besides.
  unfoldable pub now : Session → ℕ
  now s = h.clock s.step + s.slept

  -- Taking an observer's lock.
  unfoldable pub acquire : Session → Session
  acquire s = next (deliver on_callback (h.callbacks s.step) s)

  -- Waiting on an observer's condition variable, with the lock taken before.
  unfoldable pub wait_until : (Session → Bool) → Proc Bool
  unfolding acquire
  wait_until pred s =
      let t = acquire s in let r = wait_for on_callback pred (h.during t.step) t in (r.0, next r.1)
