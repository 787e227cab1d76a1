-- ===== src/NmtMaster/Queue.antt =====
-- The ring as a queue: oldest command first (src/nmt_master_process.cpp).
use canopen_slave_tester.Prelude.{
  ℕ, zero, suc, ◌+◌, ◌-◌, ◌%◌, ◌≤◌, ◌<◌, ◌≡◌, refl, true, false, List, [], ◌∷◌, ◌++◌, arith, set,
  length, length-set, get_or-set, ◌⊎◌, inl, inr, Bool-cases, ltb, ltb→lt,
}
use canopen_slave_tester.Lely.{NmtCommand, start}
use canopen_slave_tester.NmtMaster.{
  NmtCommandObserverState, nmt_command_queue_capacity, entry, nmt_command_callback, pop,
}

-- The `n` commands from `head` on, in order.
abbrev pub ring : List NmtCommand → ℕ → ℕ → List NmtCommand
ring queue head zero = []
ring queue head (suc n) =
    ring queue head n ++ entry queue ((head + n) % nmt_command_queue_capacity) ∷ []

abbrev pub contents : NmtCommandObserverState → List NmtCommand
contents o = ring o.queue o.head o.count

pub record IsRing (o : NmtCommandObserverState) : Type 0 where
  pub capacity : length o.queue ≡ nmt_command_queue_capacity
  pub head_bounded : o.head < nmt_command_queue_capacity
  pub count_bounded : o.count ≤ nmt_command_queue_capacity

-- A write behind the `n` commands leaves them alone.
ring-set :
    (queue : List NmtCommand) (head k n : ℕ) (c : NmtCommand)
    → n ≤ k
    → k < 16
    → ring (set queue ((head + k) % 16) c) head n ≡ ring queue head n
ring-set queue head k zero c h b = refl
ring-set queue head k (suc n) c h b =
    ground (
      arith,
      ring-set queue head k n c,
      get_or-set queue ((head + k) % 16) ((head + n) % 16) c start,
    )

ring-cons :
    (queue : List NmtCommand) (head n : ℕ)
    → head < 16
    → ring queue head (suc n) ≡ entry queue head ∷ ring queue ((head + 1) % 16) n
ring-cons queue head zero h = let k : (head + 0) % 16 ≡ head = omega arith in rw k
ring-cons queue head (suc n) h =
    let k : ((head + 1) % 16 + n) % 16 ≡ (head + suc n) % 16 = omega arith in
    rw (ring-cons queue head n h, k)

ring-push :
    (queue : List NmtCommand) (head k : ℕ) (c : NmtCommand)
    → length queue ≡ 16
    → k < 16
    → ring (set queue ((head + k) % 16) c) head (k + 1) ≡ ring queue head k ++ c ∷ []
ring-push queue head k c l b =
    let one : k + 1 ≡ suc k = omega arith in
    let written = get_or-set queue ((head + k) % 16) ((head + k) % 16) c start in
    rw one (ground (arith, ring-set queue head k k c, written))

ring-pop :
    (queue : List NmtCommand) (head count : ℕ)
    → head < 16
    → 0 < count
    → ring queue head count ≡ entry queue head ∷ ring queue ((head + 1) % 16) (count - 1)
ring-pop queue head zero h b = elim b [ ]
ring-pop queue head (suc n) h b =
    let less : suc n - 1 ≡ n = omega arith in rw less (ring-cons queue head n h)

-- The callback on each of its three paths.
pub callback-contents :
    (c : NmtCommand) (o : NmtCommandObserverState)
    → IsRing o
    → IsRing (nmt_command_callback c o)
      × (o.active ≡ true
          → o.count < nmt_command_queue_capacity
          → contents (nmt_command_callback c o) ≡ contents o ++ c ∷ [])
      × (o.active ≡ true
          → o.count ≡ nmt_command_queue_capacity
          → nmt_command_callback c o ≡ record o { overflow = true })
      × (o.active ≡ false → nmt_command_callback c o ≡ o)
unfolding nmt_command_callback
callback-contents c o r = (
  ground (arith, length-set o.queue ((o.head + o.count) % 16) c),
  λ a b. ground (arith, ring-push o.queue o.head o.count c),
  ground arith,
  ground arith,
)

-- The callback keeps the ring, and does one of three things: an inactive observer stays as it is; with
-- room the command goes to the end of the queue; at the capacity of 16 nothing but the overflow
-- mark changes.
pub nmt_command_callback-contents :
    (c : NmtCommand) (o : NmtCommandObserverState)
    → IsRing o
    → IsRing (nmt_command_callback c o)
      × (((o.active ≡ false) × (nmt_command_callback c o ≡ o))
          ⊎ ((o.active ≡ true)
              × (o.count < nmt_command_queue_capacity)
              × (contents (nmt_command_callback c o) ≡ contents o ++ c ∷ []))
          ⊎ ((o.active ≡ true)
              × (o.count ≡ nmt_command_queue_capacity)
              × (nmt_command_callback c o ≡ record o { overflow = true })))
nmt_command_callback-contents c o r =
    let k = callback-contents c o r in
    let b = r.count_bounded in
    elim (Bool-cases o.active) [
      | inr off ↦ (k.0, inl (off, k.3 off))
      | inl on ↦ elim (Bool-cases (ltb o.count 16)) [
        | inl room ↦ let l = ltb→lt o.count 16 room in (k.0, inr (inl (on, l, k.1 on l)))
        | inr full ↦
            let e : o.count ≡ 16 = ground (arith, full, b) in (k.0, inr (inr (on, e, k.2 on e)))
      ]
    ]

-- Taking a command out of a queue that holds one gives the oldest, and leaves the others in order.
pub pop-contents :
    (o : NmtCommandObserverState)
    → IsRing o
    → 0 < o.count
    → (contents o ≡ (pop o).0 ∷ contents (pop o).1) × IsRing (pop o).1
unfolding pop
pop-contents o r h = (ring-pop o.queue o.head o.count r.head_bounded h, omega arith)
