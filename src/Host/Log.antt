-- ===== src/Host/Log.antt =====
-- The process thread's log: what the callbacks leave of it, and its newest entries.
use canopen_slave_tester.Prelude.{
  ℕ, ◌≡◌, refl, ◌∙◌, Bool, ◌&&◌, Option, none, some, List, [], ◌∷◌, ◌==◌, if◌then◌else◌, All,
}
use canopen_slave_tester.Waiting.{deliver-inv, wait_for-inv}
use canopen_slave_tester.Host.{
  Callback, Action, local_write, sdo_write, sdo_read, command, sent, Host, Session, on_callback,
  on_emcy, on_state, on_boot, on_heartbeat, acquire, wait_until, SdoOperationResult,
}

-- The newest write to one local object, and whether it was accepted.
abbrev pub newest_local : ℕ → ℕ → List Action → Option (ℕ × Bool)
newest_local i j [] = none
newest_local i j (local_write index subindex value accepted ∷ acts) =
    let rest = newest_local i j acts in
    if index == i && subindex == j then some (value, accepted) else rest
newest_local i j (sdo_read _ _ _ _ ∷ acts) = newest_local i j acts
newest_local i j (sdo_write _ _ _ _ ∷ acts) = newest_local i j acts
newest_local i j (command _ _ _ ∷ acts) = newest_local i j acts
newest_local i j (sent _ _ ∷ acts) = newest_local i j acts

-- The newest remote write or read of one object, with its result.
pub data Access : Type 0 where
  wrote reads : ℕ → SdoOperationResult → Access

abbrev pub newest_remote : ℕ → ℕ → List Action → Option Access
newest_remote i j [] = none
newest_remote i j (sdo_read index subindex result value ∷ acts) =
    let rest = newest_remote i j acts in
    if index == i && subindex == j then some (reads value result) else rest
newest_remote i j (sdo_write index subindex value result ∷ acts) =
    let rest = newest_remote i j acts in
    if index == i && subindex == j then some (wrote value result) else rest
newest_remote i j (local_write _ _ _ _ ∷ acts) = newest_remote i j acts
newest_remote i j (command _ _ _ ∷ acts) = newest_remote i j acts
newest_remote i j (sent _ _ ∷ acts) = newest_remote i j acts

on_callback-log : (c : Callback) (s : Session) → (on_callback c s).log ≡ s.log
unfolding on_callback
on_callback-log (on_emcy f) s = refl
on_callback-log (on_state n t) s = refl
on_callback-log (on_boot n t u) s = refl
on_callback-log (on_heartbeat n o) s = refl

abbrev Any : Callback → Type 0
Any c = Unit

All-Any : (cs : List Callback) → All Any cs
All-Any [] = tt
All-Any (c ∷ cs) = (tt, All-Any cs)

All-All-Any : (bs : List (List Callback)) → All (All Any) bs
All-All-Any [] = tt
All-All-Any (b ∷ bs) = (All-Any b, All-All-Any bs)

-- What the event loop does while the process thread waits is not in the log.
pub acquire-log : (h : Host) (s : Session) → (acquire h s).log ≡ s.log
unfolding acquire
acquire-log h s =
    deliver-inv on_callback (λ (t : Session). t.log ≡ s.log) Any
      (λ c t _ e. on_callback-log c t ∙ e) (h.callbacks s.step) s (All-Any _) refl

pub wait_until-log :
    (h : Host) (pred : Session → Bool) (s : Session) → (wait_until h pred s).1.log ≡ s.log
unfolding wait_until
wait_until-log h pred s =
    wait_for-inv on_callback (λ (t : Session). t.log ≡ s.log) Any
      (λ c t _ e. on_callback-log c t ∙ e) pred (h.during (acquire h s).step) (acquire h s)
      (All-All-Any _) (acquire-log h s)

pub ruleset log_laws = (acquire-log, wait_until-log)
