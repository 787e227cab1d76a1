-- ===== src/Srdo/PairSync/Sequence.antt =====
-- What a captured pair of TX frames is (class TxPairSynchronizer of src/srdo_process.cpp).
use canopen_slave_tester.Prelude.{
  ℕ, ◌+◌, ◌*◌, ◌≡◌, refl, ◌⊎◌, inl, inr, Bool, true, false, ◌&&◌, List, [], ◌∷◌, arith, not, some,
  Bool-cases,
}
use canopen_slave_tester.Srdo.{WireFrame, tx_normal_can_id, tx_inverted_can_id}
use canopen_slave_tester.Srdo.Channel.{Read, frame, wait_for_any_tx_until}
use canopen_slave_tester.Srdo.PairSync.{
  expect_normal, expect_inverted, TxPairSynchronizer, Turn, Result, on_frame, WaitEnd, stopped,
  kept_alive, seen, wait_turn, keepalive_after, read_deadline, turns, next_pair,
}

IsTx : WireFrame → Type 0
IsTx f = f.message.id ≡ tx_normal_can_id ⊎ f.message.id ≡ tx_inverted_can_id

-- A frame that the wait returns has one of the two ids.
wait_for_any_tx_until-IsTx :
    (deadline : ℕ) (reads : List Read) (f : WireFrame)
    → wait_for_any_tx_until deadline reads ≡ frame f
    → IsTx f
unfolding wait_for_any_tx_until IsTx
wait_for_any_tx_until-IsTx deadline [] f h = grind (arith, h)
wait_for_any_tx_until-IsTx deadline (r ∷ reads) f h =
    let later = wait_for_any_tx_until-IsTx deadline reads f in ground (arith, h, later)

WaitEnd-cases :
    (w : WaitEnd)
    → w ≡ stopped ⊎ ((k : ℕ) × w ≡ kept_alive k) ⊎ ((k : ℕ) × (f : WireFrame) × w ≡ seen k f)
WaitEnd-cases stopped = inl refl
WaitEnd-cases (kept_alive k) = inr (inl (k, refl))
WaitEnd-cases (seen k f) = inr (inr (k, f, refl))

wait_turn-IsTx :
    (k : Bool) (overall : ℕ) (t : Turn) (next : ℕ) (s : TxPairSynchronizer) (m : ℕ) (f : WireFrame)
    → wait_turn k overall t next s ≡ seen m f
    → IsTx f
unfolding wait_turn
wait_turn-IsTx k overall t next s m f h =
    let until = read_deadline k overall (keepalive_after k t next) s in
    let tx = wait_for_any_tx_until-IsTx until t.reads f in ground (arith, h, tx)

-- In the state that expects the inverted frame.
turns-expect_inverted :
    (k : Bool) (overall : ℕ) (ts : List Turn) (next : ℕ) (s : TxPairSynchronizer) (n i : WireFrame)
    → s.state ≡ expect_inverted
    → (turns k overall ts next s).pair ≡ some (n, i)
    → n ≡ s.normal
      × i.message.id ≡ tx_inverted_can_id
      × (turns k overall ts next s).received ≡ i ∷ []
      × (turns k overall ts next s).after ≡ record s { state = expect_normal; synchronized = true }
unfolding turns on_frame IsTx
turns-expect_inverted k overall [] next s n i e h = ground (arith, h)
turns-expect_inverted k overall (t ∷ ts) next s n i e h =
    elim (WaitEnd-cases (wait_turn k overall t next s)) [
      | inl q ↦ ground (arith, h, q)
      | inr (inl (m, q)) ↦
          let later = turns-expect_inverted k overall ts m s n i e in ground (arith, h, q, later)
      | inr (inr (m, f, q)) ↦
          let tx = wait_turn-IsTx k overall t next s m f q in ground (arith, h, q, tx)
    ]

-- In the state that expects the normal frame, when no leading inverted frame may be discarded.
turns-expect_normal :
    (k : Bool) (overall : ℕ) (ts : List Turn) (next : ℕ) (s : TxPairSynchronizer) (n i : WireFrame)
    → s.state ≡ expect_normal
    → (s.allow_initial_resync && not s.synchronized && not s.initial_resync_used) ≡ false
    → (turns k overall ts next s).pair ≡ some (n, i)
    → n.message.id ≡ tx_normal_can_id
      × i.message.id ≡ tx_inverted_can_id
      × (turns k overall ts next s).received ≡ n ∷ i ∷ []
      × (turns k overall ts next s).after.state ≡ expect_normal
      × (turns k overall ts next s).after.synchronized ≡ true
      × (turns k overall ts next s).after.initial_resync_used ≡ s.initial_resync_used
unfolding turns on_frame IsTx
turns-expect_normal k overall [] next s n i e spent h = ground (arith, h)
turns-expect_normal k overall (t ∷ ts) next s n i e spent h =
    elim (WaitEnd-cases (wait_turn k overall t next s)) [
      | inl q ↦ ground (arith, h, q)
      | inr (inl (m, q)) ↦
          let later = turns-expect_normal k overall ts m s n i e spent in
          ground (arith, h, q, later)
      | inr (inr (m, f, q)) ↦
          let tx = wait_turn-IsTx k overall t next s m f q in
          let later =
            turns-expect_inverted k overall ts m
              (record s {
                normal = f;
                normal_deadline = t.normal_seen + 50 * 1000000;
                state = expect_inverted;
              })
              n i refl in
          ground (arith, h, q, tx, later)
    ]

-- What a call that starts in state `s` has read when it returns the pair of `n` and `i`.
unfoldable pub IsCapture : TxPairSynchronizer → WireFrame → WireFrame → Result → Type 0
IsCapture s n i r =
    n.message.id ≡ tx_normal_can_id
    × i.message.id ≡ tx_inverted_can_id
    × r.after.state ≡ expect_normal
    × r.after.synchronized ≡ true
    × (r.received ≡ n ∷ i ∷ []
        ⊎ ((leading : WireFrame) × leading.message.id ≡ tx_inverted_can_id
            × r.received ≡ leading ∷ n ∷ i ∷ []
            × s.allow_initial_resync ≡ true
            × s.synchronized ≡ false
            × s.initial_resync_used ≡ false
            × r.after.initial_resync_used ≡ true))

turns-IsCapture :
    (k : Bool) (overall : ℕ) (ts : List Turn) (next : ℕ) (s : TxPairSynchronizer) (n i : WireFrame)
    → s.state ≡ expect_normal
    → (turns k overall ts next s).pair ≡ some (n, i)
    → IsCapture s n i (turns k overall ts next s)
unfolding turns on_frame IsTx IsCapture
turns-IsCapture k overall [] next s n i e h = ground (arith, h)
turns-IsCapture k overall (t ∷ ts) next s n i e h =
    elim (Bool-cases (s.allow_initial_resync && not s.synchronized && not s.initial_resync_used)) [
      | inr q ↦
          let (a, b, c, d, f, _) = turns-expect_normal k overall (t ∷ ts) next s n i e q h in
          (a, b, d, f, inl c)
      | inl q ↦ elim (WaitEnd-cases (wait_turn k overall t next s)) [
        | inl w ↦ ground (arith, h, w)
        | inr (inl (m, w)) ↦
            let later = turns-IsCapture k overall ts m s n i e in ground (arith, h, w, later)
        | inr (inr (m, f, w)) ↦ elim (wait_turn-IsTx k overall t next s m f w) [
          | inl normal ↦
              let s' : TxPairSynchronizer = record s {
                normal = f;
                normal_deadline = t.normal_seen + 50 * 1000000;
                state = expect_inverted;
              } in
              let later = turns-expect_inverted k overall ts m s' n i refl in
              let ids : n.message.id ≡ tx_normal_can_id × i.message.id ≡ tx_inverted_can_id =
                ground (arith, h, w, normal, later) in
              (
                ids.0,
                ids.1,
                ground (arith, h, w, normal, later),
                ground (arith, h, w, normal, later),
                inl (ground (arith, h, w, normal, later)),
              )
          | inr inverted ↦
              let s' : TxPairSynchronizer = record s { initial_resync_used = true } in
              let used : (s.allow_initial_resync && not s.synchronized && not true) ≡ false =
                ground arith in
              let later = turns-expect_normal k overall ts m s' n i e used in
              let ids : n.message.id ≡ tx_normal_can_id × i.message.id ≡ tx_inverted_can_id =
                ground (arith, h, w, q, inverted, later) in
              (
                ids.0,
                ids.1,
                ground (arith, h, w, q, inverted, later),
                ground (arith, h, w, q, inverted, later),
                inr (
                  f,
                  inverted,
                  ground (arith, h, w, q, inverted, later),
                  ground (arith, q),
                  ground (arith, q),
                  ground (arith, q),
                  ground (arith, h, w, q, inverted, later),
                ),
              )
        ]
      ]
    ]

-- A pair that a call returns, which starts where no pair is half read: it is a normal and an
-- inverted frame, by their CAN ids, that the call has read one after the other, and the call has
-- read nothing else but at most one inverted frame before them; that happens only while the
-- initial resynchronization is allowed, unused, and no pair has been found, and uses it up.
-- Afterwards no pair is half read, and the synchronizer counts as synchronized.
pub next_pair-IsCapture :
    (timeout_ns : ℕ) (k : Bool) (start : ℕ × ℕ) (ts : List Turn) (s : TxPairSynchronizer)
    (n i : WireFrame)
    → s.state ≡ expect_normal
    → (next_pair timeout_ns k start ts s).pair ≡ some (n, i)
    → IsCapture s n i (next_pair timeout_ns k start ts s)
unfolding next_pair
next_pair-IsCapture timeout_ns k start ts s n i e h =
    turns-IsCapture k (start.0 + timeout_ns) ts start.1 s n i e h
