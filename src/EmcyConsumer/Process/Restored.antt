-- ===== src/EmcyConsumer/Process/Restored.antt =====
-- What an EMCY consumer validation leaves behind (src/emcy_consumer_process.cpp).
use canopen_slave_tester.Prelude.{
  ℕ, ◌≡◌, refl, inl, inr, true, false, none, some, Option, Option-cases, arith,
}
use canopen_slave_tester.Lely.{started}
use canopen_slave_tester.Nmt.Events.{is_last_state}
use canopen_slave_tester.Host.{Session}
use canopen_slave_tester.Attempt.{Attempt, ◌>>=◌, ◌>>◌, return}
use canopen_slave_tester.EmcyConsumer.{
  EmcyConsumerSnapshot, vector_a, vector_b, read_stable_snapshot,
}
use canopen_slave_tester.EmcyConsumer.Process.{
  EmcyHost, ConsumerSession, fresh_consumer, by_session, validate_producer_preflight, clear_found,
  require_depth, peek_local_emcy, clear_local_emcy, emit_and_validate_vector, require_active,
  clear_and_validate_recovery, reset_and_boot, start_node, confirm_start, ensure_started,
  preserved_snapshot, validate_reset_rebind, run_from, deliver_two, validate_sdo_health,
  run_emcy_consumer_validation, clear_if_active, start_if_reset, cleanup_emcy_consumer_validation,
  validated, emcy_consumer_process,
}
use canopen_slave_tester.EmcyConsumer.Process.Accounted.{added, process-IsTracked}

abbrev IsRestored : ConsumerSession → Type 0
IsRestored s =
    (s.runtime.host_error_active ≡ false) × (s.runtime.remote_operational_restored ≡ true)

-- Code that, where it succeeds, leaves a state with a property.
abbrev Leaves {ℓ} : {A : Type ℓ} → (ConsumerSession → Type 0) → Attempt ConsumerSession A → Type ℓ
Leaves P p = (s : ConsumerSession) (a : _) → (p s).0 ≡ some a → P (p s).1

rest-leaves :
    {A B : Type 0} (P Q : ConsumerSession → Type 0) (f : A → Attempt ConsumerSession B)
    → ((a : A) (t : ConsumerSession) → Q t → (b : B) → (f a t).0 ≡ some b → P (f a t).1)
    → (r : Option A × ConsumerSession) → ((a : A) → r.0 ≡ some a → Q r.1)
    → (b : B)
    → let q = elim r.0 as (λ _. Option B × ConsumerSession) [
      | none ↦ (none, r.1)
      | some a ↦ f a r.1
    ] in
      q.0 ≡ some b → P q.1
rest-leaves P Q f k (none, t) first b q = absurd (cc)
rest-leaves P Q f k (some a, t) first b q = k a t (first a refl) b q

Leaves-bind :
    {A B : Type 0} (P Q : ConsumerSession → Type 0) (m : Attempt ConsumerSession A)
    (f : A → Attempt ConsumerSession B)
    → Leaves Q m
    → ((a : A) (t : ConsumerSession) → Q t → (b : B) → (f a t).0 ≡ some b → P (f a t).1)
    → Leaves P (m >>= f)
Leaves-bind P Q m f first k s b q = rest-leaves P Q f k (m s) (λ a g. first s a g) b q

-- What the last part leaves.
Leaves-last :
    {A B : Type 0} (P : ConsumerSession → Type 0) (m : Attempt ConsumerSession A)
    (f : A → Attempt ConsumerSession B)
    → ((a : A) → Leaves P (f a))
    → Leaves P (m >>= f)
Leaves-last P m f k = Leaves-bind P (λ _. Unit) m f (λ s a q. tt) (λ a t _ b q. k a t b q)

module _ (e : EmcyHost) where
  clear_found-inactive :
      (n c r : ℕ) (s : ConsumerSession)
      → (clear_found e n c r s).0 ≡ some tt
      → (clear_found e n c r s).1.runtime.host_error_active ≡ false
  unfolding clear_found
  clear_found-inactive n c r s q = ground (arith, q)

  pub clear_local-inactive :
      (s : ConsumerSession)
      → (clear_local_emcy e s).0 ≡ some tt
      → (clear_local_emcy e s).1.runtime.host_error_active ≡ false
  unfolding clear_local_emcy require_depth peek_local_emcy
  clear_local-inactive s q = grind (arith, q, clear_found-inactive)

  recovery-inactive :
      (current after : EmcyConsumerSnapshot) (s : ConsumerSession)
      → (clear_and_validate_recovery e current s).0 ≡ some after
      → (clear_and_validate_recovery e current s).1.runtime.host_error_active ≡ false
  unfolding clear_and_validate_recovery require_active
  recovery-inactive current after s q = grind (arith, q, clear_local-inactive)

  ensure_started-IsRestored :
      (s : ConsumerSession)
      → (ensure_started e s).0 ≡ some tt
      → s.runtime.host_error_active ≡ false
      → IsRestored (ensure_started e s).1
  unfolding ensure_started start_node confirm_start
  ensure_started-IsRestored s q k = ground (arith, q, k)

  finish : EmcyConsumerSnapshot → Attempt ConsumerSession EmcyConsumerSnapshot
  finish recovered = ensure_started e >> return recovered

  finish-IsRestored :
      (recovered : EmcyConsumerSnapshot) (s : ConsumerSession)
      → s.runtime.host_error_active ≡ false
      → (after : EmcyConsumerSnapshot) → (finish recovered s).0 ≡ some after
      → IsRestored (finish recovered s).1
  unfolding finish
  finish-IsRestored recovered s k after q = grind (arith, q, k, ensure_started-IsRestored)

  recovered-IsRestored :
      (delivered : EmcyConsumerSnapshot)
      → Leaves IsRestored (clear_and_validate_recovery e delivered >>= finish)
  recovered-IsRestored delivered =
      Leaves-bind IsRestored (λ t. t.runtime.host_error_active ≡ false)
        (clear_and_validate_recovery e delivered) finish
        (λ s a q. recovery-inactive delivered a s q) finish-IsRestored

  rebind-IsRestored :
      (current : EmcyConsumerSnapshot) → Leaves IsRestored (validate_reset_rebind e current)
  unfolding validate_reset_rebind finish
  rebind-IsRestored current =
      let clear =
        λ (delivered : EmcyConsumerSnapshot). clear_and_validate_recovery e delivered >>= finish in
      let emit =
        λ (post : EmcyConsumerSnapshot). emit_and_validate_vector e post vector_b >>= clear in
      let preserve = λ (pre : EmcyConsumerSnapshot). preserved_snapshot e pre >>= emit in
      let reset = λ (pre : EmcyConsumerSnapshot). reset_and_boot e >> preserve pre in
      Leaves-last IsRestored (require_active e false)
        (λ _. emit_and_validate_vector e current vector_a >>= reset)
        (λ _. Leaves-last IsRestored (emit_and_validate_vector e current vector_a) reset (λ pre.
          Leaves-last IsRestored (reset_and_boot e) (λ _. preserve pre)
            (λ _. Leaves-last IsRestored (preserved_snapshot e pre) emit (λ post.
              Leaves-last IsRestored (emit_and_validate_vector e post vector_b) clear
                recovered-IsRestored))))

  run-IsRestored : Leaves IsRestored (run_emcy_consumer_validation e)
  unfolding run_emcy_consumer_validation run_from
  run-IsRestored =
      let rebind = λ (current : EmcyConsumerSnapshot).
        by_session (validate_sdo_health e) >> validate_reset_rebind e current in
      let again = λ (delivered : EmcyConsumerSnapshot).
        deliver_two e vector_a vector_a delivered >>= rebind in
      Leaves-last IsRestored (by_session (read_stable_snapshot e.host)) (run_from e) (λ baseline.
        Leaves-last IsRestored (deliver_two e vector_a vector_b baseline) again (λ delivered.
          Leaves-last IsRestored (deliver_two e vector_a vector_a delivered) rebind (λ duplicated.
            Leaves-last IsRestored (by_session (validate_sdo_health e))
              (λ _. validate_reset_rebind e duplicated) (λ _. rebind-IsRestored duplicated))))

  validated-IsRestored :
      (s : ConsumerSession) → (validated e s).0 ≡ 0 → IsRestored (validated e s).1
  unfolding validated cleanup_emcy_consumer_validation clear_if_active start_if_reset
  validated-IsRestored s q = elim (Option-cases (run_emcy_consumer_validation e s).0) [
    | inl f ↦ absurd (ground (arith, q, f))
    | inr (last, f) ↦ let k = run-IsRestored s last f in ground (arith, f, k)
  ]

  process-IsRestored :
      (s : Session) → (emcy_consumer_process e s).0 ≡ 0 → IsRestored (emcy_consumer_process e s).1
  unfolding emcy_consumer_process
  process-IsRestored s q =
      let r = validate_producer_preflight e (fresh_consumer s) in
      elim (Option-cases r.0) [
        | inl f ↦ absurd (ground (arith, q, f))
        | inr (_, f) ↦
            let k = validated-IsRestored r.1 (ground (arith, q, f)) in ground (arith, f, k)
      ]

  -- After an EMCY consumer validation with result zero, none of its pushes has added an error since the
  -- host's error stack was last found empty or cleared, it counts no error as active and expects none
  -- there; and the newest that it has learned of the node, by a Boot result or by a confirmed Start
  -- with no accepted reset after it, is that it is Operational.
  pub emcy_consumer_process-IsRestored :
      (s : Session)
      → (emcy_consumer_process e s).0 ≡ 0
      → let t = (emcy_consumer_process e s).1 in
        (t.runtime.host_error_active ≡ false)
        × (added t.history ≡ 0)
        × (t.runtime.expected_host_error_count ≡ 0)
        × (is_last_state started t.events ≡ true)
  emcy_consumer_process-IsRestored s q =
      let known = process-IsTracked e s in
      let restored = process-IsRestored s q in ground (arith, known, restored)
