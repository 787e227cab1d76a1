-- ===== src/Shutdown/Answered.antt =====
-- When a final reset succeeds (src/shutdown_process.cpp, src/nmt_heartbeat.cpp).
use canopen_slave_tester.Prelude.{
  ◌≡◌, refl, Bool, true, ◌||◌, List, [], ◌∷◌, ◌++◌, arith, ◌==◌, All,
}
use canopen_slave_tester.Lely.{reset_comm}
use canopen_slave_tester.Waiting.{concat, deliver, wait_for, deliver-inv, wait_for-inv}
use canopen_slave_tester.Host.{
  Host, Session, Callback, on_emcy, on_state, on_boot, on_heartbeat, on_callback, acquire,
  wait_until,
}
use canopen_slave_tester.Nmt.Command.{issue_nmt_command}
use canopen_slave_tester.Heartbeat.{slave_node_id, boot_callback, prepare_boot, boot_result}
use canopen_slave_tester.Heartbeat.Process.{prepare_boot_wait, wait_for_boot_completion}
use canopen_slave_tester.Shutdown.{final_reset_process}
use canopen_slave_tester.Shutdown.Boot.{is_boot, has_boot, has_boot-append, wait_until-verdict}

-- Not a Boot callback of the slave with a status that is an error.
unfoldable pub IsFine : Callback → Type 0
IsFine (on_boot node state status) =
    (node == slave_node_id) ≡ true → (status == 0 || status == b'L') ≡ true
IsFine (on_emcy f) = Unit
IsFine (on_state node state) = Unit
IsFine (on_heartbeat node occurred) = Unit

abbrev received : Session → Bool
received s = s.boot.received

-- A Boot result that is there is an accepted one.
abbrev IsAcceptedBoot : Session → Type 0
IsAcceptedBoot s = s.boot.succeeded ≡ s.boot.received

on_callback-IsAcceptedBoot :
    (c : Callback) (s : Session) → IsFine c → IsAcceptedBoot s → IsAcceptedBoot (on_callback c s)
unfolding on_callback boot_callback IsFine
on_callback-IsAcceptedBoot (on_boot node state status) s q k = ground (arith, q, k)
on_callback-IsAcceptedBoot (on_emcy f) s q k = k
on_callback-IsAcceptedBoot (on_state node state) s q k = k
on_callback-IsAcceptedBoot (on_heartbeat node occurred) s q k = k

on_callback-received :
    (c : Callback) (s : Session)
    → (received s || is_boot c) ≡ true
    → received (on_callback c s) ≡ true
unfolding on_callback boot_callback is_boot
on_callback-received (on_boot node state status) s e = ground (arith, e)
on_callback-received (on_emcy f) s e = ground (arith, e)
on_callback-received (on_state node state) s e = ground (arith, e)
on_callback-received (on_heartbeat node occurred) s e = ground (arith, e)

deliver-received :
    (cs : List Callback) (s : Session)
    → (received s || has_boot cs) ≡ true
    → received (deliver on_callback cs s) ≡ true
unfolding has_boot
deliver-received [] s e = ground (arith, e)
deliver-received (c ∷ cs) s e =
    deliver-received cs (on_callback c s) (ground (arith, e, on_callback-received c s))

wait_for-received :
    (bs : List (List Callback)) (s : Session)
    → (received s || has_boot (concat bs)) ≡ true
    → (wait_for on_callback received bs s).0 ≡ true
unfolding wait_for has_boot
wait_for-received [] s e = ground (arith, e)
wait_for-received (b ∷ bs) s e = ground (
  arith,
  e,
  wait_for-received bs (deliver on_callback b s),
  deliver-received b s,
  has_boot-append b (concat bs),
)

module _ (h : Host) where
  wait_until-received :
      (s : Session)
      → (received s || has_boot (h.callbacks s.step ++ concat (h.during (acquire h s).step))) ≡ true
      → (wait_until h received s).0 ≡ true
  unfolding wait_until acquire
  wait_until-received s e =
      let bs = h.during (acquire h s).step in
      wait_for-received bs (acquire h s) (
        ground (
          arith,
          e,
          deliver-received (h.callbacks s.step) s,
          has_boot-append (h.callbacks s.step) (concat bs),
        ))

  wait_until-IsAcceptedBoot :
      (s : Session)
      → All IsFine (h.callbacks s.step)
      → All (All IsFine) (h.during (acquire h s).step)
      → IsAcceptedBoot s
      → IsAcceptedBoot (wait_until h received s).1
  unfolding wait_until acquire
  wait_until-IsAcceptedBoot s fine later k =
      wait_for-inv on_callback IsAcceptedBoot IsFine on_callback-IsAcceptedBoot received
        (h.during (acquire h s).step) (acquire h s) later
        (deliver-inv on_callback IsAcceptedBoot IsFine on_callback-IsAcceptedBoot
          (h.callbacks s.step) s fine k)

  -- The state after the command.
  abbrev pub commanded : Session → Session
  commanded s = (issue_nmt_command h reset_comm slave_node_id (prepare_boot_wait h s).1).1

  -- A final reset that Lely accepts succeeds where, among the callbacks that run from the command to
  -- the end of the wait, there is a Boot callback of the slave with an accepted status and none of the
  -- slave with another status: the Boot is not missed, whether it runs before the wait or during it.
  pub final_reset_process-answered :
      (s : Session)
      → h.command_accepted (prepare_boot_wait h s).1.step ≡ true
      → All IsFine (h.callbacks (commanded s).step)
      → All (All IsFine) (h.during (acquire h (commanded s)).step)
      → has_boot
          (h.callbacks (commanded s).step ++ concat (h.during (acquire h (commanded s)).step))
        ≡ true
      → (final_reset_process h s).0 ≡ 0
  unfolding final_reset_process prepare_boot_wait issue_nmt_command wait_for_boot_completion
      boot_result prepare_boot
  final_reset_process-answered s accepted fine later boots =
      let u = commanded s in
      let reached = wait_until-received u (ground (arith, boots)) in
      let ok : IsAcceptedBoot (wait_until h received u).1 =
        wait_until-IsAcceptedBoot u fine later refl in
      ground (arith, accepted, reached, ok, wait_until-verdict h u)
