-- ===== src/Emcy.antt =====
-- The shared EMCY observer of src/canopen_emcy.cpp and include/canopen_emcy.h: a bounded history
-- that the Lely callback writes, with the snapshots, waits and selections that the validation
-- processes read. The globals that the mutex protects are one record.
pub mod History
pub mod Observation
pub mod Examples
use canopen_slave_tester.Prelude.{
  ℕ, zero, suc, ◌+◌, ◌%◌, ◌^◌, Bool, true, false, ◌&&◌, Option, none, some, List, [], ◌∷◌, ◌++◌,
  ltb, leb, ◌==◌, if◌then◌else◌, length, take, keep, first,
}
use canopen_slave_tester.Waiting.{wait_for}

-- Steady-clock time points are numbers.
pub record EmcyEvent : Type 0 where
  pub sequence : ℕ  -- uint64
  pub node_id : ℕ  -- uint8
  pub error_code : ℕ  -- uint16
  pub error_register : ℕ  -- uint8
  pub manufacturer_data : List ℕ
  pub timestamp : ℕ

-- What Lely hands to the callback, with the time at which it runs.
pub record EmcyFrame : Type 0 where
  pub node_id : ℕ
  pub error_code : ℕ
  pub error_register : ℕ
  pub manufacturer_data : List ℕ
  pub now : ℕ

-- The deque's front is the list's head.
pub record EmcyObserver : Type 0 where
  pub events : List EmcyEvent
  pub sequence : ℕ

abbrev pub emcy_event_capacity : ℕ
emcy_event_capacity = 32

abbrev pub emcy_initial : EmcyObserver
emcy_initial = record { events = []; sequence = 0 }

abbrev pub pop_front {ℓ} : {A : Type ℓ} → List A → List A
pop_front [] = []
pop_front (x ∷ xs) = xs

unfoldable pub emcy_callback : EmcyFrame → EmcyObserver → EmcyObserver
emcy_callback f o =
    let seq = (o.sequence + 1) % 2 ^ 64 in
    let event : EmcyEvent = record {
      sequence = seq;
      node_id = f.node_id;
      error_code = f.error_code;
      error_register = f.error_register;
      manufacturer_data = take 5 f.manufacturer_data;
      timestamp = f.now;
    } in
    let room = if leb emcy_event_capacity (length o.events) then pop_front o.events else o.events in
    record { events = room ++ event ∷ []; sequence = seq }

abbrev pub matches : ℕ → ℕ → ℕ → EmcyEvent → Bool
matches after node code e = ltb after e.sequence && (e.node_id == node && e.error_code == code)

unfoldable pub find_emcy_event_locked : ℕ → ℕ → ℕ → EmcyObserver → Option EmcyEvent
find_emcy_event_locked after node code o = first (matches after node code) o.events

unfoldable pub snapshot_emcy_sequence : EmcyObserver → ℕ
snapshot_emcy_sequence o = o.sequence

abbrev pub is_some {ℓ} : {A : Type ℓ} → Option A → Bool
is_some none = false
is_some (some _) = true

-- `none` is the result false. The batches are the EMCY callbacks that run during the wait.
pub wait_for_emcy_event :
    ℕ → ℕ → ℕ → List (List EmcyFrame) → EmcyObserver → Option EmcyEvent × EmcyObserver
wait_for_emcy_event after node code batches o =
    let (reached, o') =
      wait_for emcy_callback (λ q. is_some (find_emcy_event_locked after node code q)) batches o in
    (if reached then find_emcy_event_locked after node code o' else none, o')

pub get_emcy_events_after : ℕ → ℕ → EmcyObserver → List EmcyEvent
get_emcy_events_after after node o =
    keep (λ (e : EmcyEvent). ltb after e.sequence && e.node_id == node) o.events
