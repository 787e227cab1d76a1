-- ===== src/Gfc/Channel.antt =====
-- The reading loops of the GFC validation's channel end by themselves (class GfcWireFixture of
-- src/gfc_process.cpp).
use canopen_slave_tester.Prelude.{ℕ, zero, suc, ◌+◌, ◌≤◌, ◌≡◌, refl, sym, Bool, true, false, arith}
use canopen_slave_tester.Host.{
  Host, Session, ChannelRead, read_error, read_nothing, read_frame, next, now,
}
use canopen_slave_tester.Gfc.{milliseconds, drain_reads, drain, wait_turns, wait_for_frame}

-- Each step takes a nanosecond at least.
abbrev pub IsAdvancing : Host → Type 0
IsAdvancing h = (t : ℕ) → h.clock t + 1 ≤ h.clock (t + 1)

unfoldable pub is_frame : ChannelRead → Bool
is_frame (read_error would_block) = false
is_frame read_nothing = false
is_frame (read_frame message timestamp) = true

-- Without waiting, the channel hands out no more frames than those it has received.
abbrev pub HasBacklog : Host → Type 0
HasBacklog h = (t : ℕ) → (i : ℕ) × (i ≤ h.queued t) × (is_frame (h.channel_read (t + i) 0) ≡ false)

module _ (h : Host) where
  drain_reads-ends :
      (n k i : ℕ) (s : Session)
      → i ≤ n
      → is_frame (h.channel_read (s.step + i) 0) ≡ false
      → drain_reads h (suc n + k) s ≡ drain_reads h (suc n) s
  unfolding drain_reads is_frame
  drain_reads-ends n k zero s b q =
      let more : suc n + k ≡ suc (n + k) = omega arith in
      let here : s.step + 0 ≡ s.step = omega arith in rw more (ground (arith, q, here))
  drain_reads-ends zero k (suc i) s b q = absurd (omega (arith, b))
  drain_reads-ends (suc n) k (suc i) s b q =
      let more : suc (suc n) + k ≡ suc (suc n + k) = omega arith in
      let there : s.step + suc i ≡ s.step + 1 + i = omega arith in
      let same = drain_reads-ends n k i (next s) (omega (arith, b)) (rw (sym there) q) in
      rw more (ground (arith, same))

  wait_turns-ends :
      IsAdvancing h
      → (n k deadline : ℕ) (s : Session) → deadline ≤ now h s + n
      → wait_turns h (n + k) deadline s ≡ wait_turns h n deadline s
  unfolding wait_turns now
  wait_turns-ends advancing zero zero deadline s b = refl
  wait_turns-ends advancing zero (suc k) deadline s b = ground (arith, b)
  wait_turns-ends advancing (suc n) k deadline s b =
      let more : suc n + k ≡ suc (n + k) = omega arith in
      let same =
        wait_turns-ends advancing n k deadline (next s) (omega (arith, b, advancing s.step)) in
      rw more (ground (arith, same))

  -- Where the channel runs out of frames after those it has received, the reads given to the draining
  -- are enough: with any more of them it gives the same result and the same session.
  pub gfc_drain-ends :
      HasBacklog h → (k : ℕ) (s : Session) → drain_reads h (h.queued s.step + 1 + k) s ≡ drain h s
  unfolding drain
  gfc_drain-ends backlog k s =
      let (i, b, q) = backlog s.step in
      let more : h.queued s.step + 1 ≡ suc (h.queued s.step) = omega arith in
      rw more (drain_reads-ends (h.queued s.step) k i s b q)

  -- Where each step takes a nanosecond at least, the turns given to the wait for a frame are enough,
  -- whatever other traffic there is: with any more of them it gives the same result and the same
  -- session.
  pub wait_for_frame-ends :
      IsAdvancing h
      → (k timeout_ms : ℕ) (s : Session)
      → wait_turns h (milliseconds timeout_ms + k) (now h s + milliseconds timeout_ms) s
        ≡ wait_for_frame h timeout_ms s
  unfolding wait_for_frame
  wait_for_frame-ends advancing k timeout_ms s =
      wait_turns-ends advancing (milliseconds timeout_ms) k (now h s + milliseconds timeout_ms) s
        (omega arith)
