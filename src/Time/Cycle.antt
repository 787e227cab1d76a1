-- ===== src/Time/Cycle.antt =====
-- Elapsed time across the wrap of the 16-bit day counter (src/time_process.cpp).
use canopen_slave_tester.Prelude.{
  ◌-◌, ◌*◌, ◌/◌, ◌≤◌, ◌↔◌, true, ℕ, ◌+◌, ◌%◌, ◌<◌, ◌≡◌, arith, leb, Bool-cases, inl, inr, ◌^◌,
}
use canopen_slave_tester.Time.{
  elapsed_ms, TimeDiagnostic, validate_continuous_advance, time_cycle_milliseconds, time_position,
  forward_time_delta, milliseconds_per_day,
}

time_position-lt :
    (milliseconds days : ℕ)
    → milliseconds < milliseconds_per_day
    → days < 2 ^ 16
    → time_position milliseconds days < time_cycle_milliseconds
unfolding time_position
time_position-lt milliseconds days m d = omega arith

forward-cycle :
    (start stop : ℕ)
    → start < time_cycle_milliseconds
    → stop < time_cycle_milliseconds
    → (forward_time_delta start stop < time_cycle_milliseconds)
      × ((start + forward_time_delta start stop) % time_cycle_milliseconds ≡ stop)
unfolding forward_time_delta
forward-cycle start stop a b = elim (Bool-cases (leb start stop)) [
  | inl up ↦ (ground (arith, up), ground (arith, up))
  | inr down ↦ (ground (arith, down), ground (arith, down))
]

-- Between two valid TIME values the elapsed time is less than one cycle of 65536 days, and adding it
-- to the first position gives the second one in the cycle; so it is the only such time.
pub forward_time_delta-cycle :
    (ms ms' days days' : ℕ)
    → ms < milliseconds_per_day
    → ms' < milliseconds_per_day
    → days < 2 ^ 16
    → days' < 2 ^ 16
    → let start = time_position ms days in
      let stop = time_position ms' days' in
      (forward_time_delta start stop < time_cycle_milliseconds)
      × ((start + forward_time_delta start stop) % time_cycle_milliseconds ≡ stop)
forward_time_delta-cycle ms ms' days days' a b c d =
    forward-cycle (time_position ms days) (time_position ms' days') (time_position-lt ms days a c)
      (time_position-lt ms' days' b d)

-- The elapsed time is the only one below a cycle that leads from the first position to the second one.
forward_unique :
    (start stop elapsed : ℕ)
    → start < time_cycle_milliseconds
    → stop < time_cycle_milliseconds
    → elapsed < time_cycle_milliseconds
    → (start + elapsed) % time_cycle_milliseconds ≡ stop
    → forward_time_delta start stop ≡ elapsed
forward_unique start stop elapsed a b c e =
    let found = forward-cycle start stop a b in omega (arith, a, b, c, e, found)

abbrev pub IsTime : TimeDiagnostic → Type 0
IsTime t = (t.rx_count < 2 ^ 32) × (t.milliseconds < milliseconds_per_day) × (t.days < 2 ^ 16)

abbrev pub position : TimeDiagnostic → ℕ
position t = t.days * milliseconds_per_day + t.milliseconds

-- Two snapshots of valid times pass the check of continuous advance exactly if the receive count has
-- grown by the expected number, modulo 2 ^ 32, and a time that leads the device's clock from the first
-- day and millisecond to the second, in the cycle of 65536 days, is within 120 ms of the
-- milliseconds that have passed on the host's clock.
pub validate_continuous_advance_iff :
    (before after : TimeDiagnostic) (delta : ℕ)
    → IsTime before
    → IsTime after
    → delta < 2 ^ 32
    → (validate_continuous_advance before after delta ≡ true) ↔ (
        ((before.rx_count + delta) % 2 ^ 32 ≡ after.rx_count)
        × ((elapsed : ℕ) × (elapsed < time_cycle_milliseconds)
            × ((position before + elapsed) % time_cycle_milliseconds ≡ position after)
            × (elapsed ≤ (after.sampled_at - before.sampled_at) / 1000000 + 120)
            × ((after.sampled_at - before.sampled_at) / 1000000 ≤ elapsed + 120)))
unfolding validate_continuous_advance time_position elapsed_ms
validate_continuous_advance_iff before after delta (p, q, r) (p', q', r') b =
    let start = time_position before.milliseconds before.days in
    let stop = time_position after.milliseconds after.days in
    let a = time_position-lt before.milliseconds before.days q r in
    let c = time_position-lt after.milliseconds after.days q' r' in
    let found = forward-cycle start stop a c in
    (
      (λ e. (
        ground (arith, e, p, p', b),
        (forward_time_delta start stop, found.0, found.1, ground (arith, e), ground (arith, e)),
      )),
      λ (count, (elapsed, l, f, m, n)).
          let same = forward_unique start stop elapsed a c l f in
          ground (arith, count, same, m, n, p, p', b),
    )
