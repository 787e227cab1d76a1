-- ===== src/Nmt.antt =====
-- The remote NMT state observer of src/canopen_nmt.cpp: one observation for each node-ID, with a
-- generation that every state event advances.
pub mod Events
pub mod Command
use canopen_slave_tester.Prelude.{
  ℕ, ◌+◌, ◌%◌, ◌^◌, Bool, true, false, ◌||◌, List, leb, ◌==◌, if◌then◌else◌, get_or, set, replicate,
}
use canopen_slave_tester.Lely.{NmtState, bootup}

abbrev pub nmt_state_slot_count : ℕ
nmt_state_slot_count = 128

pub record NmtStateObservation : Type 0 where
  pub generation : ℕ  -- uint64
  pub state : NmtState
  pub observed : Bool

abbrev pub no_observation : NmtStateObservation
no_observation = record { generation = 0; state = bootup; observed = false }

-- The table, and whether this process's master owns the OnState slot.
pub record NmtObserver : Type 0 where
  pub states : List NmtStateObservation
  pub registered : Bool

abbrev pub observation : ℕ → NmtObserver → NmtStateObservation
observation node o = get_or o.states node no_observation

abbrev pub is_unconfirmable : ℕ → Bool
is_unconfirmable node = node == 0 || leb nmt_state_slot_count node

unfoldable pub nmt_state_callback : ℕ → NmtState → NmtObserver → NmtObserver
nmt_state_callback node state o = if is_unconfirmable node then o else record o {
  states = set o.states node (record {
    generation = ((observation node o).generation + 1) % 2 ^ 64;
    state = state;
    observed = true;
  });
}

unfoldable pub register_nmt_state_callback : NmtObserver → NmtObserver
register_nmt_state_callback o = record {
  states = replicate nmt_state_slot_count no_observation;
  registered = true;
}
