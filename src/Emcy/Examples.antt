-- ===== src/Emcy/Examples.antt =====
-- Runs of the EMCY history (src/canopen_emcy.cpp).
use canopen_slave_tester.Prelude.{
  ℕ, ◌+◌, ◌≡◌, refl, ◌==◌, List, [], ◌∷◌, arith, keep, first, length,
}
use canopen_slave_tester.Waiting.{concat, deliver}
use canopen_slave_tester.Emcy.{
  EmcyEvent, EmcyFrame, emcy_initial, emcy_callback, snapshot_emcy_sequence, get_emcy_events_after,
  wait_for_emcy_event,
}
use canopen_slave_tester.Emcy.History.{stamps, keep_last, IsRecent, deliver-IsRecent}
use canopen_slave_tester.Emcy.Observation.{
  is_emcy, get_emcy_events_after_complete, wait_for_emcy_event-first,
}

abbrev message : ℕ → ℕ → EmcyFrame
message node code = record {
  node_id = node;
  error_code = code;
  error_register = 1;
  manufacturer_data = 1 ∷ 2 ∷ 3 ∷ 4 ∷ 5 ∷ [];
  now = 0;
}

abbrev three : List EmcyFrame
three = message 1 0x8130 ∷ message 2 0x5000 ∷ message 1 0 ∷ []

initial-IsRecent : IsRecent emcy_initial
initial-IsRecent = record { before = 0; numbered = refl; bounded = omega arith }

deliver-IsRecent_example :
    IsRecent (deliver emcy_callback three emcy_initial)
    × (deliver emcy_callback three emcy_initial
        ≡ record { events = keep_last (stamps 0 three); sequence = 0 + length three })
deliver-IsRecent_example = deliver-IsRecent three emcy_initial initial-IsRecent (omega arith)

get_emcy_events_after_complete_example :
    get_emcy_events_after
      (snapshot_emcy_sequence emcy_initial)
      1
      (deliver emcy_callback three emcy_initial)
    ≡ keep (λ (e : EmcyEvent). e.node_id == 1) (stamps 0 three)
get_emcy_events_after_complete_example =
    get_emcy_events_after_complete emcy_initial 1 three initial-IsRecent (omega arith) (omega arith)

abbrev batches : List (List EmcyFrame)
batches = (message 2 0x5000 ∷ []) ∷ three ∷ []

wait_for_emcy_event-first_example :
    (wait_for_emcy_event (snapshot_emcy_sequence emcy_initial) 1 0x8130 batches emcy_initial).0
    ≡ first (is_emcy 1 0x8130) (stamps 0 (concat batches))
wait_for_emcy_event-first_example =
    wait_for_emcy_event-first emcy_initial 1 0x8130 batches initial-IsRecent (omega arith)
      (omega arith)
