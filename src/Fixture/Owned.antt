-- ===== src/Fixture/Owned.antt =====
-- What the SDO server fixture owns (src/host_sdo_server_fixture.cpp).
use canopen_slave_tester.Prelude.{
  ℕ, ◌≡◌, ◌⊎◌, inl, inr, true, false, none, some, List, ◌∷◌, arith, Option-cases,
}
use canopen_slave_tester.Fixture.{
  Dictionary, Heap, HostSdoServerFixture, without, fill_object, create_object, insert_obj,
  create_and_insert, uninstall_locked, preflight, install,
}

-- No object is held.
abbrev pub IsEmpty : HostSdoServerFixture → Type 0
IsEmpty f =
    (f.u32_object ≡ none)
    × (f.octets_object ≡ none)
    × (f.readonly_object ≡ none)
    × (f.installed ≡ false)

-- The same allocations.
abbrev pub SameHeap : Heap → Heap → Type 0
SameHeap s t = (s.objects ≡ t.objects) × (s.loose_subs ≡ t.loose_subs)

without-head : (o : ℕ) (os : List ℕ) → without o (o ∷ os) ≡ os
unfolding without
without-head o os = ground arith

module _ (d : Dictionary) where
  -- A creation that fails has freed all it had allocated, and one that succeeds holds one object.
  create_object-owned :
      (s : Heap)
      → (((create_object d s).0 ≡ none) × SameHeap (create_object d s).1 s)
        ⊎ ((o : ℕ) × ((create_object d s).0 ≡ some o)
            × ((create_object d s).1.objects ≡ o ∷ s.objects)
            × ((create_object d s).1.loose_subs ≡ s.loose_subs))
  unfolding create_object fill_object
  create_object-owned s =
      let head = without-head s.next_object s.objects in
      elim (Option-cases (create_object d s).0) [
        | inl q ↦ inl (q, (ground (arith, q, head), ground (arith, q, head)))
        | inr (o, q) ↦ inr (o, q, ground (arith, q), ground (arith, q))
      ]

  -- The inserts change no allocation.
  insert_obj-heap : (s : Heap) → SameHeap (insert_obj d s).1 s
  unfolding insert_obj
  insert_obj-heap s = ground arith

  -- What the steps of the installation hold, wherever they stop: nothing but the objects in the
  -- fields.
  create_and_insert-owned :
      (f : HostSdoServerFixture)
      → IsEmpty f
      → SameHeap (uninstall_locked d (create_and_insert d f).1).heap f.heap
  unfolding create_and_insert uninstall_locked
  create_and_insert-owned f e =
      let a = create_object d f.heap in
      let b = create_object d a.1 in
      grind (
        arith,
        e,
        create_object-owned f.heap,
        create_object-owned a.1,
        create_object-owned b.1,
        without-head,
        insert_obj-heap,
      )

  preflight-heap : (s : Heap) → SameHeap (preflight d s).1 s
  unfolding preflight
  preflight-heap s = ground arith

  -- The fixture owns what it allocates. Installed into an empty fixture, it either reports success
  -- and is installed, or reports failure and is empty again with the allocations from before, no
  -- sub-object left over; and whichever it was, uninstalling gives back all that was allocated.
  pub install-owned :
      (f : HostSdoServerFixture)
      → IsEmpty f
      → let r = install d f in
        (((r.0 ≡ true) × (r.1.installed ≡ true))
          ⊎ ((r.0 ≡ false) × IsEmpty r.1 × SameHeap r.1.heap f.heap))
        × SameHeap (uninstall_locked d r.1).heap f.heap
  unfolding install uninstall_locked
  install-owned f e =
      let p = preflight d f.heap in
      let g : HostSdoServerFixture = record f { heap = p.1 } in
      let k = create_and_insert d g in
      let owned : SameHeap (uninstall_locked d k.1).heap g.heap = create_and_insert-owned g e in
      let passed : SameHeap p.1 f.heap = preflight-heap f.heap in
      elim (Option-cases p.0) [
        | inl q ↦ (
          inr (ground (arith, e, q), ground (arith, e, q), ground (arith, e, q, passed)),
          ground (arith, e, q, passed),
        )
        | inr (_, q) ↦ elim (Option-cases k.0) [
          | inl c ↦ (
            inr (
              ground (arith, e, q, c),
              ground (arith, e, q, c),
              ground (arith, e, q, c, passed, owned),
            ),
            ground (arith, e, q, c, passed, owned),
          )
          | inr (_, c) ↦ (
            inl (ground (arith, e, q, c), ground (arith, e, q, c)),
            ground (arith, e, q, c, passed, owned),
          )
        ]
      ]
