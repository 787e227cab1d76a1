-- ===== src/Shutdown/Boot.antt =====
-- The Boot result that a final reset has seen (src/shutdown_process.cpp, src/nmt_heartbeat.cpp).
use canopen_slave_tester.Prelude.{
  ◌≡◌, refl, Bool, true, false, ◌&&◌, ◌||◌, List, [], ◌∷◌, ◌++◌, arith, ◌==◌,
}
use canopen_slave_tester.Lely.{reset_comm}
use canopen_slave_tester.Waiting.{concat, deliver, wait_for, wait_for-pred}
use canopen_slave_tester.Host.{
  Host, Session, Callback, on_emcy, on_state, on_boot, on_heartbeat, on_callback, acquire,
  wait_until,
}
use canopen_slave_tester.Nmt.Command.{issue_nmt_command}
use canopen_slave_tester.Heartbeat.{slave_node_id, boot_callback, prepare_boot, boot_result}
use canopen_slave_tester.Heartbeat.Process.{prepare_boot_wait, wait_for_boot_completion}
use canopen_slave_tester.Shutdown.{final_reset_process}

-- A Boot callback of the slave with an accepted status.
unfoldable pub is_boot : Callback → Bool
is_boot (on_boot node state status) = node == slave_node_id && (status == 0 || status == b'L')
is_boot (on_emcy f) = false
is_boot (on_state node state) = false
is_boot (on_heartbeat node occurred) = false

unfoldable pub has_boot : List Callback → Bool
has_boot [] = false
has_boot (c ∷ cs) = is_boot c || has_boot cs

abbrev booted : Session → Bool
booted s = s.boot.received && s.boot.succeeded

pub has_boot-append : (cs ds : List Callback) → has_boot (cs ++ ds) ≡ (has_boot cs || has_boot ds)
unfolding has_boot
has_boot-append [] ds = refl
has_boot-append (c ∷ cs) ds = ground (arith, has_boot-append cs ds)

on_callback-booted :
    (c : Callback) (s : Session) → booted (on_callback c s) ≡ true → (booted s || is_boot c) ≡ true
unfolding on_callback boot_callback is_boot
on_callback-booted (on_boot node state status) s e = ground (arith, e)
on_callback-booted (on_emcy f) s e = ground (arith, e)
on_callback-booted (on_state node state) s e = ground (arith, e)
on_callback-booted (on_heartbeat node occurred) s e = ground (arith, e)

deliver-booted :
    (cs : List Callback) (s : Session)
    → booted (deliver on_callback cs s) ≡ true
    → (booted s || has_boot cs) ≡ true
unfolding has_boot
deliver-booted [] s e = ground (arith, e)
deliver-booted (c ∷ cs) s e =
    ground (arith, deliver-booted cs (on_callback c s) e, on_callback-booted c s)

wait_for-booted :
    (pred : Session → Bool) (bs : List (List Callback)) (s : Session)
    → booted (wait_for on_callback pred bs s).1 ≡ true
    → (booted s || has_boot (concat bs)) ≡ true
unfolding wait_for
wait_for-booted pred [] s e = ground (arith, e)
wait_for-booted pred (b ∷ bs) s e = ground (
  arith,
  e,
  wait_for-booted pred bs (deliver on_callback b s),
  deliver-booted b s,
  has_boot-append b (concat bs),
)

-- What the callbacks of one lock and of the wait that follows it have done to the Boot observer.
wait_until-booted :
    (h : Host) (pred : Session → Bool) (s : Session)
    → booted (wait_until h pred s).1 ≡ true
    → (booted s || has_boot (h.callbacks s.step ++ concat (h.during (acquire h s).step))) ≡ true
unfolding wait_until acquire
wait_until-booted h pred s e = ground (
  arith,
  wait_for-booted pred (h.during (acquire h s).step) (acquire h s) e,
  deliver-booted (h.callbacks s.step) s,
  has_boot-append (h.callbacks s.step) (concat (h.during (acquire h s).step)),
)

pub wait_until-verdict :
    (h : Host) (s : Session)
    → (wait_until h (λ (q : Session). q.boot.received) s).1.boot.received
      ≡ (wait_until h (λ (q : Session). q.boot.received) s).0
unfolding wait_until
wait_until-verdict h s =
    wait_for-pred on_callback (λ (q : Session). q.boot.received) (h.during (acquire h s).step)
      (acquire h s)

-- A final reset with result zero: Lely has accepted the reset, and among the callbacks that have run
-- since the Boot observer was prepared, just before the command, there is a Boot callback of the slave with an accepted status.
pub final_reset_process-has_boot :
    (h : Host) (s : Session)
    → (final_reset_process h s).0 ≡ 0
    → let t = (prepare_boot_wait h s).1 in
      let u = (issue_nmt_command h reset_comm slave_node_id t).1 in
      (h.command_accepted t.step ≡ true)
      × (has_boot (h.callbacks u.step ++ concat (h.during (acquire h u).step)) ≡ true)
unfolding final_reset_process prepare_boot_wait issue_nmt_command wait_for_boot_completion
    boot_result prepare_boot
final_reset_process-has_boot h s e =
    let t = (prepare_boot_wait h s).1 in
    let u = (issue_nmt_command h reset_comm slave_node_id t).1 in
    let waited = wait_until-booted h (λ (q : Session). q.boot.received) u in
    (ground (arith, e), ground (arith, e, waited, wait_until-verdict h u))
