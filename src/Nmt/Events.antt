-- ===== src/Nmt/Events.antt =====
-- What a validation asks of the node's NMT state and what it learns of it, newest first: kept for the
-- theorems, beside the flags by which the program remembers it (src/canopen_nmt.cpp,
-- src/nmt_heartbeat.cpp).
use canopen_slave_tester.Prelude.{Bool, true, false, Option, none, some, List, [], ◌∷◌}
use canopen_slave_tester.Lely.{NmtState, state_eq}

-- A Reset Communication, with whether Lely has accepted it; the result of a wait for the Boot; and a
-- command whose state is waited for, with whether it has been confirmed.
pub data NodeEvent : Type 0 where
  reset_sent : (accepted : Bool) → NodeEvent
  boot_waited : Option NmtState → NodeEvent
  state_waited : (expected : NmtState) → (confirmed : Bool) → NodeEvent

-- The state that the newest event has shown. After an accepted reset, or a command without its
-- confirmation, none is known.
unfoldable pub is_last_state : NmtState → List NodeEvent → Bool
is_last_state state [] = false
is_last_state state (reset_sent true ∷ rest) = false
is_last_state state (reset_sent false ∷ rest) = is_last_state state rest
is_last_state state (boot_waited none ∷ rest) = false
is_last_state state (boot_waited (some seen) ∷ rest) = state_eq seen state
is_last_state state (state_waited expected true ∷ rest) = state_eq expected state
is_last_state state (state_waited expected false ∷ rest) = false
