-- ===== src/Runner/Order.antt =====
-- In which order the runner calls the handlers, and where it stops (src/canopen_process.cpp).
use canopen_slave_tester.Prelude.{
  ℕ, ◌≡◌, ◌≢◌, ◌≤◌, zero, suc, refl, sym, ap, subst, ◌⊎◌, inl, inr, true, false, none, some, List,
  [], ◌∷◌, ◌++◌, arith, ◌==◌, take, length, Bool-cases, Option-cases,
}
use canopen_slave_tester.Runner.{CanopenProcessEntry, run_entries, canopen_run_processes}

module _ {ℓ} {W : Type ℓ} where
  -- The handlers of these entries, called in order, have all returned zero.
  pub data Passes : List (CanopenProcessEntry W) → W → W → Type ℓ where
    done : {w : W} → Passes [] w w
    passed :
        {e : CanopenProcessEntry W} {es : List (CanopenProcessEntry W)} {w w' w'' : W}
        (handler : W → ℕ × W)
        → e.has_name ≡ true
        → e.handler ≡ some handler
        → handler w ≡ (0, w')
        → Passes es w' w''
        → Passes (e ∷ es) w w''

  -- Why the runner stops at an entry, and the world that it leaves.
  pub data Stops (e : CanopenProcessEntry W) (w : W) : W → Type ℓ where
    invalid : (e.has_name ≡ false) ⊎ (e.handler ≡ none) → Stops e w w
    failure :
        {w' : W} (handler : W → ℕ × W) (result : ℕ)
        → e.has_name ≡ true
        → e.handler ≡ some handler
        → handler w ≡ (result, w')
        → result ≢ 0
        → Stops e w w'

  -- The entries before the one at which the run stops, that entry, and what comes after it.
  pub record StopsAt (es : List (CanopenProcessEntry W)) (w w' : W) : Type ℓ where
    pub before : List (CanopenProcessEntry W)
    pub at : CanopenProcessEntry W
    pub after : List (CanopenProcessEntry W)
    pub between : W
    pub split : es ≡ before ++ at ∷ after
    pub passes : Passes before w between
    pub stops : Stops at between w'

  abbrev pub Outcome : List (CanopenProcessEntry W) → W → ℕ × W → Type ℓ
  Outcome es w r = ((r.0 ≡ 0) × Passes es w r.1) ⊎ ((r.0 ≡ 1) × StopsAt es w r.1)

  -- The runner stops at the head of the list.
  stops_here :
      (e : CanopenProcessEntry W) (es : List (CanopenProcessEntry W)) (w w' : W)
      → Stops e w w'
      → run_entries (e ∷ es) w ≡ (1, w')
      → Outcome (e ∷ es) w (run_entries (e ∷ es) w)
  stops_here e es w w' stop eq = subst (Outcome (e ∷ es) w) (sym eq) (
      inr (
        refl,
        record {
          before = [];
          at = e;
          after = es;
          between = w;
          split = refl;
          passes = done;
          stops = stop;
        },
      ))

  -- The head passes, and the rest decides.
  passes_here :
      (e : CanopenProcessEntry W) (es : List (CanopenProcessEntry W)) (w w' : W) (r : ℕ × W)
      (handler : W → ℕ × W)
      → e.has_name ≡ true
      → e.handler ≡ some handler
      → handler w ≡ (0, w')
      → Outcome es w' r
      → Outcome (e ∷ es) w r
  passes_here e es w w' r handler n f z (inl (zero_result, p)) =
      inl (zero_result, passed handler n f z p)
  passes_here e es w w' r handler n f z (inr (one, at)) = inr (
    one,
    record {
      before = e ∷ at.before;
      at = at.at;
      after = at.after;
      between = at.between;
      split = ap (◌∷◌ e) at.split;
      passes = passed handler n f z at.passes;
      stops = at.stops;
    },
  )

  run_entries-Outcome :
      (es : List (CanopenProcessEntry W)) (w : W) → Outcome es w (run_entries es w)
  unfolding run_entries
  run_entries-Outcome [] w = inl (refl, done)
  run_entries-Outcome (e ∷ es) w = elim (Option-cases e.handler) [
    | inl missing ↦ stops_here e es w w (invalid (inr missing)) (ground (arith, missing))
    | inr (handler, found) ↦ elim (Bool-cases e.has_name) [
      | inl named ↦ elim (Bool-cases ((handler w).0 == 0)) [
        | inl z ↦
            let back : handler w ≡ (0, (handler w).1) = ground (arith, z) in
            let eq : run_entries es (handler w).1 ≡ run_entries (e ∷ es) w =
              ground (arith, z, found, named) in
            passes_here e es w (handler w).1 _ handler named found back
              (subst (Outcome es (handler w).1) eq (run_entries-Outcome es (handler w).1))
        | inr other ↦
            stops_here e es w (handler w).1
              (failure handler (handler w).0 named found refl (ground (arith, other)))
              (ground (arith, other, found, named))
      ]
      | inr nameless ↦
          stops_here e es w w (invalid (inl nameless)) (ground (arith, nameless, found))
    ]
  ]

  -- Given a table of at least `count` entries, the runner either returns 0, with the handlers of the
  -- first `count` entries called in order and all returning zero, or returns 1 and has stopped at
  -- the first entry that is invalid or whose handler returns another value: the handlers before it
  -- have returned zero, and none after it is called.
  pub canopen_run_processes-Outcome :
      (table : List (CanopenProcessEntry W)) (count : ℕ) (w : W)
      → count ≤ length table
      → Outcome (take count table) w (canopen_run_processes (some table) count w)
  unfolding canopen_run_processes
  canopen_run_processes-Outcome table zero w h = inl (refl, done)
  canopen_run_processes-Outcome table (suc n) w h =
      let eq : run_entries (take (suc n) table) w ≡ canopen_run_processes (some table) (suc n) w =
        ground arith in
      subst (Outcome (take (suc n) table) w) eq (run_entries-Outcome (take (suc n) table) w)
