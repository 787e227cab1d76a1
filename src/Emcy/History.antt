-- ===== src/Emcy/History.antt =====
-- The bounded EMCY history against the unbounded sequence of all EMCY messages
-- (src/canopen_emcy.cpp).
use mathlib.Core.List.{append_assoc, append-nil}
use canopen_slave_tester.Prelude.{
  ℕ, zero, suc, ◌+◌, ◌-◌, ◌%◌, ◌≤◌, ◌<◌, ◌^◌, ◌≡◌, refl, sym, ap, ◌∙◌, List, [], ◌∷◌, ◌++◌, arith,
  leb, if◌then◌else◌, length, take, drop, length-append, length-drop, drop-append-le, drop-drop,
  Bool-cases, inl, inr,
}
use canopen_slave_tester.Waiting.{deliver}
use canopen_slave_tester.Emcy.{
  EmcyEvent, EmcyFrame, EmcyObserver, emcy_event_capacity, pop_front, emcy_callback,
}

-- The event that the message `f` becomes as number `n`.
abbrev pub stamp : ℕ → EmcyFrame → EmcyEvent
stamp n f = record {
  sequence = n;
  node_id = f.node_id;
  error_code = f.error_code;
  error_register = f.error_register;
  manufacturer_data = take 5 f.manufacturer_data;
  timestamp = f.now;
}

-- The messages received after number `n`, all of them.
abbrev pub stamps : ℕ → List EmcyFrame → List EmcyEvent
stamps n [] = []
stamps n (f ∷ fs) = stamp (n + 1) f ∷ stamps (n + 1) fs

abbrev pub keep_last : List EmcyEvent → List EmcyEvent
keep_last es = drop (length es - emcy_event_capacity) es

-- The numbers of the events follow one another and end with `last`.
abbrev pub Consecutive : ℕ → List EmcyEvent → ℕ → Type 0
Consecutive n [] last = n ≡ last
Consecutive n (e ∷ es) last = (e.sequence ≡ n + 1) × Consecutive (n + 1) es last

pub record IsRecent (o : EmcyObserver) : Type 0 where
  pub before : ℕ
  pub numbered : Consecutive before o.events o.sequence
  pub bounded : length o.events ≤ emcy_event_capacity

Consecutive-append :
    (n last : ℕ) (es : List EmcyEvent) (e : EmcyEvent)
    → Consecutive n es last
    → e.sequence ≡ last + 1
    → Consecutive n (es ++ e ∷ []) (last + 1)
Consecutive-append n last [] e h p = omega arith
Consecutive-append n last (x ∷ es) e h p = (h.0, Consecutive-append (n + 1) last es e h.1 p)

Consecutive-drop :
    (k n last : ℕ) (es : List EmcyEvent)
    → Consecutive n es last
    → (m : ℕ) × Consecutive m (drop k es) last
Consecutive-drop zero n last es h = (n, h)
Consecutive-drop (suc k) n last [] h = (n, h)
Consecutive-drop (suc k) n last (x ∷ es) h = Consecutive-drop k (n + 1) last es h.1

push_bounded :
    (es : List EmcyEvent) (e : EmcyEvent)
    → length es ≤ emcy_event_capacity
    → (if leb emcy_event_capacity (length es) then pop_front es else es) ++ e ∷ []
      ≡ keep_last (es ++ e ∷ [])
push_bounded [] e h = refl
push_bounded (x ∷ xs) e h = elim (Bool-cases (leb 32 (suc (length xs)))) [
  | inl full ↦
      let k : length (x ∷ xs ++ e ∷ []) - 32 ≡ 1 =
        ground (arith, length-append (x ∷ xs) (e ∷ [])) in
      rw (full, k)
  | inr room ↦
      let k : length (x ∷ xs ++ e ∷ []) - 32 ≡ 0 =
        ground (arith, length-append (x ∷ xs) (e ∷ [])) in
      rw (room, k)
]

callback-events :
    (f : EmcyFrame) (o : EmcyObserver)
    → length o.events ≤ emcy_event_capacity
    → o.sequence + 1 < 2 ^ 64
    → emcy_callback f o ≡ record {
      events = keep_last (o.events ++ stamp (o.sequence + 1) f ∷ []);
      sequence = o.sequence + 1;
    }
unfolding emcy_callback
callback-events f o h w =
    let k : (o.sequence + 1) % 18446744073709551616 ≡ o.sequence + 1 = omega arith in
    rw (k, push_bounded o.events (stamp (o.sequence + 1) f) h)

length-keep_last : (es : List EmcyEvent) → length (keep_last es) ≤ emcy_event_capacity
length-keep_last es = omega (arith, length-drop (length es - 32) es)

-- One more EMCY message keeps the history within its capacity and its numbers consecutive, as long
-- as the 64-bit sequence does not wrap.
pub callback-IsRecent :
    (f : EmcyFrame) (o : EmcyObserver)
    → IsRecent o
    → o.sequence + 1 < 2 ^ 64
    → IsRecent (emcy_callback f o)
callback-IsRecent f o r w =
    let grown =
      Consecutive-append r.before o.sequence o.events (stamp (o.sequence + 1) f) r.numbered refl in
    let es = o.events ++ stamp (o.sequence + 1) f ∷ [] in
    let (m, c) = Consecutive-drop (length es - 32) r.before (o.sequence + 1) es grown in
    rw (callback-events f o r.bounded w)
      (record { before = m; numbered = c; bounded = length-keep_last es })

-- Dropping to the capacity twice is dropping once.
keep_last-append : (es fs : List EmcyEvent) → keep_last (keep_last es ++ fs) ≡ keep_last (es ++ fs)
keep_last-append es fs =
    let k = length es - 32 in
    let d : drop k es ++ fs ≡ drop k (es ++ fs) = sym (drop-append-le k es fs (omega arith)) in
    let n : k + (length (drop k (es ++ fs)) - 32) ≡ length (es ++ fs) - 32 =
      omega (arith, length-drop k (es ++ fs), length-append es fs) in
    rw (d, drop-drop) (ap (λ j. drop j (es ++ fs)) n)

-- After any number of EMCY messages, as long as the 64-bit sequence does not wrap, the history holds
-- the newest 32 of the events before and of all these messages, numbered consecutively, and the
-- sequence has advanced by the number of the messages.
pub deliver-IsRecent :
    (fs : List EmcyFrame) (o : EmcyObserver)
    → IsRecent o
    → o.sequence + length fs < 2 ^ 64
    → IsRecent (deliver emcy_callback fs o)
      × (deliver emcy_callback fs o ≡ record {
        events = keep_last (o.events ++ stamps o.sequence fs);
        sequence = o.sequence + length fs;
      })
deliver-IsRecent [] o r w =
    let k : length o.events - 32 ≡ 0 = omega (arith, r.bounded) in
    (r, rw (append-nil, k) (λ i. record { events = o.events; sequence = plus_zero i }))
  where
    plus_zero : o.sequence ≡ o.sequence + 0
    plus_zero = omega arith
deliver-IsRecent (f ∷ fs) o r w =
    let one = callback-events f o r.bounded (omega arith) in
    let rest =
      deliver-IsRecent fs (emcy_callback f o) (callback-IsRecent f o r (omega arith))
        (rw one (omega arith)) in
    (rest.0, rest.1 ∙ rw one (λ i. record { events = joined i; sequence = total i }))
  where
    joined :
        keep_last
          (keep_last (o.events ++ stamp (o.sequence + 1) f ∷ []) ++ stamps (o.sequence + 1) fs)
        ≡ keep_last (o.events ++ stamp (o.sequence + 1) f ∷ stamps (o.sequence + 1) fs)
    joined =
        keep_last-append (o.events ++ stamp (o.sequence + 1) f ∷ []) (stamps (o.sequence + 1) fs)
        ∙ ap keep_last (append_assoc o.events (stamp (o.sequence + 1) f ∷ []) _)

    total : o.sequence + 1 + length fs ≡ o.sequence + suc (length fs)
    total = omega arith
