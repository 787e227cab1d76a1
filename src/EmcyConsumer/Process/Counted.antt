-- ===== src/EmcyConsumer/Process/Counted.antt =====
-- How many publications an EMCY consumer validation sees (src/emcy_consumer_process.cpp).
use canopen_slave_tester.Prelude.{
  ℕ, zero, suc, ◌+◌, ◌%◌, ◌^◌, ◌≡◌, refl, inl, inr, ap, Bool, true, false, none, some, Option,
  arith, Option-cases, length,
}
use canopen_slave_tester.Host.{Host, Session, pause}
use canopen_slave_tester.Attempt.{Attempt, ◌>>=◌, ◌>>◌, return}
use canopen_slave_tester.EmcyConsumer.{
  consumer_diagnostic_index, count_field, emcy_poll_interval_ms, EmcyConsumerSnapshot,
  EmcyTestVector, vector_a, vector_b, validate_vector_snapshot, validate_recovery_snapshot,
  validate_reset_preserved_snapshot, read_remote_diagnostic, read_stable_snapshot,
  poll_next_rx_count, wait_for_next_rx_count,
}
use canopen_slave_tester.EmcyConsumer.Process.{
  EmcyHost, ConsumerSession, by_session, emit_test_emcy, require_depth, clear_found,
  clear_local_emcy, observe_next, emit_and_validate_vector, require_active,
  clear_and_validate_recovery, reset_issued, issue_reset, wait_for_boot, confirm_start,
  reset_and_boot, start_node, ensure_started, preserved_snapshot, validate_reset_rebind,
  deliver_two, run_from, run_emcy_consumer_validation, peek_local_emcy, validate_sdo_health,
}

module _ (h : Host) where
  poll_next_rx_count-next :
      (n baseline deadline c : ℕ) (s : Session)
      → (poll_next_rx_count h n baseline deadline s).0 ≡ some c
      → c ≡ (baseline + 1) % 2 ^ 32
  unfolding poll_next_rx_count
  poll_next_rx_count-next zero baseline deadline c s e = absurd (ground (arith, e))
  poll_next_rx_count-next (suc n) baseline deadline c s e =
      let t = (read_remote_diagnostic h 32 consumer_diagnostic_index count_field s).1 in
      let u = pause emcy_poll_interval_ms t in
      ground (arith, e, poll_next_rx_count-next n baseline deadline c u)

-- One more publication, and one more entry of the history.
abbrev pub IsStep :
    (published : ℕ)
    → EmcyConsumerSnapshot
    → ConsumerSession
    → EmcyConsumerSnapshot
    → ConsumerSession
    → Type 0
IsStep published before s after t =
    (after.rx_count % 2 ^ 32 ≡ (before.rx_count + published) % 2 ^ 32)
    × (length t.history ≡ length s.history + published)

-- Code that, where it gives a snapshot, has seen so many publications since the one that it was given.
abbrev Steps :
    (published : ℕ) → EmcyConsumerSnapshot → Attempt ConsumerSession EmcyConsumerSnapshot → Type 0
Steps published current p =
    (after : EmcyConsumerSnapshot) (s : ConsumerSession)
    → (p s).0 ≡ some after
    → IsStep published current s after (p s).1

rest-IsStep :
    (m n : ℕ) (current : EmcyConsumerSnapshot) (s : ConsumerSession)
    (f : EmcyConsumerSnapshot → Attempt ConsumerSession EmcyConsumerSnapshot)
    (r : Option EmcyConsumerSnapshot × ConsumerSession)
    → ((b : EmcyConsumerSnapshot) → r.0 ≡ some b → IsStep m current s b r.1)
    → ((b : EmcyConsumerSnapshot) → Steps n b (f b))
    → (after : EmcyConsumerSnapshot)
    → let q = elim r.0 as (λ _. Option EmcyConsumerSnapshot × ConsumerSession) [
      | none ↦ (none, r.1)
      | some b ↦ f b r.1
    ] in
      q.0 ≡ some after → IsStep (m + n) current s after q.1
rest-IsStep m n current s f (none, t) first second after q = absurd (cc)
rest-IsStep m n current s f (some b, t) first second after q =
    let one = first b refl in
    let two = second b after t q in (omega (arith, one.0, two.0), omega (arith, one.1, two.1))

Steps-bind :
    (m n : ℕ) (current : EmcyConsumerSnapshot) (p : Attempt ConsumerSession EmcyConsumerSnapshot)
    (f : EmcyConsumerSnapshot → Attempt ConsumerSession EmcyConsumerSnapshot)
    → Steps m current p
    → ((b : EmcyConsumerSnapshot) → Steps n b (f b))
    → Steps (m + n) current (p >>= f)
Steps-bind m n current p f first second after s q =
    rest-IsStep m n current s f (p s) (λ b e. first b s e) second after q

-- Code before the rest, which leaves the history alone.
then-IsStep {ℓ} :
    {A : Type ℓ} (n : ℕ) (current : EmcyConsumerSnapshot) (s : ConsumerSession)
    (k : Attempt ConsumerSession EmcyConsumerSnapshot) (r : Option A × ConsumerSession)
    → r.1.history ≡ s.history
    → Steps n current k
    → (after : EmcyConsumerSnapshot)
    → let q = elim r.0 as (λ _. Option EmcyConsumerSnapshot × ConsumerSession) [
      | none ↦ (none, r.1)
      | some b ↦ k r.1
    ] in
      q.0 ≡ some after → IsStep n current s after q.1
then-IsStep n current s k (none, t) same rest after q = absurd (cc)
then-IsStep n current s k (some b, t) same rest after q =
    let two = rest after t q in (two.0, omega (arith, two.1, ap length same))

Steps-then {ℓ} :
    {A : Type ℓ} (n : ℕ) (current : EmcyConsumerSnapshot) (p : Attempt ConsumerSession A)
    (k : Attempt ConsumerSession EmcyConsumerSnapshot)
    → ((s : ConsumerSession) → (p s).1.history ≡ s.history)
    → Steps n current k
    → Steps n current (p >> k)
Steps-then n current p k same rest after s q = then-IsStep n current s k (p s) (same s) rest after q

Steps-return : (b : EmcyConsumerSnapshot) → Steps 0 b (return b)
Steps-return b after s q = (ground (arith, q), omega arith)

module _ (e : EmcyHost) where
  observe_next-next :
      (baseline : ℕ) (s : Session) (o : ℕ × EmcyConsumerSnapshot)
      → (observe_next e baseline s).0 ≡ some o
      → o.0 ≡ (baseline + 1) % 2 ^ 32
  unfolding observe_next wait_for_next_rx_count
  observe_next-next baseline s o q = grind (arith, poll_next_rx_count-next)

  emit_test_emcy-length :
      (v : EmcyTestVector) (s : ConsumerSession)
      → length (emit_test_emcy e v s).1.history ≡ length s.history + 1
  unfolding emit_test_emcy
  emit_test_emcy-length v s = ground arith

  clear_found-length :
      (n c r : ℕ) (s : ConsumerSession)
      → (clear_found e n c r s).0 ≡ some tt
      → length (clear_found e n c r s).1.history ≡ length s.history + 1
  unfolding clear_found
  clear_found-length n c r s q = ground (arith, q)

  clear_local_emcy-length :
      (s : ConsumerSession)
      → (clear_local_emcy e s).0 ≡ some tt
      → length (clear_local_emcy e s).1.history ≡ length s.history + 1
  unfolding clear_local_emcy require_depth peek_local_emcy
  clear_local_emcy-length s q = grind (arith, clear_found-length)

  emit_and_validate-IsStep :
      (current after : EmcyConsumerSnapshot) (v : EmcyTestVector) (s : ConsumerSession)
      → (emit_and_validate_vector e current v s).0 ≡ some after
      → IsStep 1 current s after (emit_and_validate_vector e current v s).1
  unfolding emit_and_validate_vector validate_vector_snapshot
  emit_and_validate-IsStep current after v s q =
      grind (arith, observe_next-next, emit_test_emcy-length)

  clear_and_validate-IsStep :
      (current after : EmcyConsumerSnapshot) (s : ConsumerSession)
      → (clear_and_validate_recovery e current s).0 ≡ some after
      → IsStep 1 current s after (clear_and_validate_recovery e current s).1
  unfolding clear_and_validate_recovery validate_recovery_snapshot require_active
  clear_and_validate-IsStep current after s q =
      grind (arith, observe_next-next, clear_local_emcy-length)

  preserved_snapshot-same :
      (before after : EmcyConsumerSnapshot) (s : ConsumerSession)
      → (preserved_snapshot e before s).0 ≡ some after
      → (after.rx_count ≡ before.rx_count) × ((preserved_snapshot e before s).1.history ≡ s.history)
  unfolding preserved_snapshot validate_reset_preserved_snapshot
  preserved_snapshot-same before after s q = grind arith

  reset_and_boot-history : (s : ConsumerSession) → (reset_and_boot e s).1.history ≡ s.history
  unfolding reset_and_boot reset_issued issue_reset wait_for_boot
  reset_and_boot-history s = ground arith

  ensure_started-history : (s : ConsumerSession) → (ensure_started e s).1.history ≡ s.history
  unfolding ensure_started start_node confirm_start
  ensure_started-history s = ground arith

  deliver_two-Steps :
      (first second : EmcyTestVector) (current : EmcyConsumerSnapshot)
      → Steps 3 current (deliver_two e first second current)
  unfolding deliver_two
  deliver_two-Steps first second current =
      Steps-bind 1 2 current (emit_and_validate_vector e current first)
        (λ one. emit_and_validate_vector e one second >>= clear_and_validate_recovery e)
        (λ after s q. emit_and_validate-IsStep current after first s q)
        (λ one.
          Steps-bind 1 1 one (emit_and_validate_vector e one second) (clear_and_validate_recovery e)
            (λ after s q. emit_and_validate-IsStep one after second s q)
            (λ two after s q. clear_and_validate-IsStep two after s q))

  preserved-Steps : (before : EmcyConsumerSnapshot) → Steps 0 before (preserved_snapshot e before)
  preserved-Steps before after s q =
      let same = preserved_snapshot-same before after s q in
      (omega (arith, same.0), omega (arith, ap length same.1))

  require_active-history :
      (b : Bool) (s : ConsumerSession) → (require_active e b s).1.history ≡ s.history
  unfolding require_active
  require_active-history true s = ground arith
  require_active-history false s = ground arith

  -- After the reset.
  after_reset : EmcyConsumerSnapshot → Attempt ConsumerSession EmcyConsumerSnapshot
  after_reset pre_reset = do
    post_reset ← preserved_snapshot e pre_reset
    delivered ← emit_and_validate_vector e post_reset vector_b
    recovered ← clear_and_validate_recovery e delivered
    ensure_started e
    return recovered

  after_reset-Steps : (pre_reset : EmcyConsumerSnapshot) → Steps 2 pre_reset (after_reset pre_reset)
  unfolding after_reset
  after_reset-Steps pre_reset =
      let finish = λ (recovered : EmcyConsumerSnapshot). ensure_started e >> return recovered in
      let clear =
        λ (delivered : EmcyConsumerSnapshot). clear_and_validate_recovery e delivered >>= finish in
      Steps-bind 0 2 pre_reset (preserved_snapshot e pre_reset)
        (λ post. emit_and_validate_vector e post vector_b >>= clear) (preserved-Steps pre_reset)
        (λ post.
          Steps-bind 1 1 post (emit_and_validate_vector e post vector_b) clear
            (λ after s q. emit_and_validate-IsStep post after vector_b s q)
            (λ delivered.
              Steps-bind 1 0 delivered (clear_and_validate_recovery e delivered) finish
                (λ after s q. clear_and_validate-IsStep delivered after s q)
                (λ recovered.
                  Steps-then 0 recovered (ensure_started e) (return recovered)
                    ensure_started-history (Steps-return recovered))))

  validate_reset_rebind-Steps :
      (current : EmcyConsumerSnapshot) → Steps 3 current (validate_reset_rebind e current)
  unfolding validate_reset_rebind after_reset
  validate_reset_rebind-Steps current =
      let reset = λ (pre : EmcyConsumerSnapshot). reset_and_boot e >> after_reset pre in
      Steps-then 3 current (require_active e false)
        (emit_and_validate_vector e current vector_a >>= reset) (require_active-history false)
        (Steps-bind 1 2 current (emit_and_validate_vector e current vector_a) reset
          (λ after s q. emit_and_validate-IsStep current after vector_a s q)
          (λ pre.
            Steps-then 2 pre (reset_and_boot e) (after_reset pre) reset_and_boot-history
              (after_reset-Steps pre)))

  run_from-Steps : (baseline : EmcyConsumerSnapshot) → Steps 9 baseline (run_from e baseline)
  unfolding run_from
  run_from-Steps baseline =
      let rebind = λ (duplicated : EmcyConsumerSnapshot).
        by_session (validate_sdo_health e) >> validate_reset_rebind e duplicated in
      Steps-bind 3 6 baseline (deliver_two e vector_a vector_b baseline)
        (λ delivered. deliver_two e vector_a vector_a delivered >>= rebind)
        (deliver_two-Steps vector_a vector_b baseline)
        (λ delivered.
          Steps-bind 3 3 delivered (deliver_two e vector_a vector_a delivered) rebind
            (deliver_two-Steps vector_a vector_a delivered)
            (λ duplicated.
              Steps-then 3 duplicated (by_session (validate_sdo_health e))
                (validate_reset_rebind e duplicated) (λ s. refl)
                (validate_reset_rebind-Steps duplicated)))

  -- An EMCY consumer validation whose cases pass has read a snapshot first, and its last snapshot counts
  -- exactly nine publications more, modulo 2^32, as many as the times it has pushed an error or
  -- cleared the host's error stack or found it empty, with the reset in between.
  pub run_emcy_consumer_validation-counted :
      (s : ConsumerSession) (last : EmcyConsumerSnapshot)
      → (run_emcy_consumer_validation e s).0 ≡ some last
      → (baseline : EmcyConsumerSnapshot) × ((read_stable_snapshot e.host s.session).0
          ≡ some baseline)
        × (last.rx_count % 2 ^ 32 ≡ (baseline.rx_count + 9) % 2 ^ 32)
        × (length (run_emcy_consumer_validation e s).1.history ≡ length s.history + 9)
  unfolding run_emcy_consumer_validation
  run_emcy_consumer_validation-counted s last q =
      let r = by_session (read_stable_snapshot e.host) s in
      elim (Option-cases r.0) [
        | inl f ↦ absurd (ground (arith, q, f))
        | inr (baseline, f) ↦
            let same : run_emcy_consumer_validation e s ≡ run_from e baseline r.1 =
              ground (arith, f) in
            let ran = run_from-Steps baseline last r.1 (ground (arith, q, f)) in
            (baseline, f, ran.0, rw same ran.1)
      ]
