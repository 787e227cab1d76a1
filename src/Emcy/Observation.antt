-- ===== src/Emcy/Observation.antt =====
-- What the readers of the EMCY history see of the messages published after their snapshot
-- (src/canopen_emcy.cpp).
use mathlib.Core.List.{append_assoc, append-nil}
use canopen_slave_tester.Prelude.{
  ℕ, zero, suc, ◌+◌, ◌-◌, ◌≤◌, ◌<◌, ◌^◌, ◌≡◌, refl, sym, ap, ◌∙◌, Bool, true, ◌&&◌, Option, none,
  some, List, [], ◌∷◌, ◌++◌, arith, ltb, ◌==◌, if◌then◌else◌, length, drop, keep, first,
  length-append, drop-append-le, keep-append, Option-cases, inl, inr,
}
use canopen_slave_tester.Waiting.{concat, deliver, deliver-append, wait_for}
use canopen_slave_tester.Emcy.{
  EmcyEvent, EmcyFrame, EmcyObserver, emcy_callback, is_some, find_emcy_event_locked,
  snapshot_emcy_sequence, wait_for_emcy_event, get_emcy_events_after,
}
use canopen_slave_tester.Emcy.History.{stamps, Consecutive, IsRecent, deliver-IsRecent}

-- A test that rejects every number up to `after`, and is `q` above.
abbrev above : ℕ → (EmcyEvent → Bool) → EmcyEvent → Bool
above after q e = ltb after e.sequence && q e

Consecutive-le : (n last : ℕ) (es : List EmcyEvent) → Consecutive n es last → n ≤ last
Consecutive-le n last [] h = omega arith
Consecutive-le n last (e ∷ es) h = omega (arith, Consecutive-le (n + 1) last es h.1)

abbrev any_event : EmcyEvent → Bool
any_event e = true

first-keep : (p : EmcyEvent → Bool) (es : List EmcyEvent) → first p es ≡ first any_event (keep p es)
first-keep p [] = refl
first-keep p (e ∷ es) = ground (arith, first-keep p es)

length-stamps : (n : ℕ) (fs : List EmcyFrame) → length (stamps n fs) ≡ length fs
length-stamps n [] = refl
length-stamps n (f ∷ fs) = ap suc (length-stamps (n + 1) fs)

module _ (q : EmcyEvent → Bool) where
  keep-old :
      (k n last : ℕ) (es : List EmcyEvent)
      → Consecutive n es last
      → keep (above last q) (drop k es) ≡ []
  keep-old k n last [] h = ground (arith, drop-empty k)
    where
      drop-empty : (k : ℕ) → drop {A = EmcyEvent} k [] ≡ []
      drop-empty zero = refl
      drop-empty (suc k) = refl
  keep-old zero n last (e ∷ es) h =
      ground (arith, keep-old zero (n + 1) last es h.1, Consecutive-le (n + 1) last es h.1)
  keep-old (suc k) n last (e ∷ es) h = keep-old k (n + 1) last es h.1

  keep-new :
      (after n : ℕ) (fs : List EmcyFrame)
      → after ≤ n
      → keep (above after q) (stamps n fs) ≡ keep q (stamps n fs)
  keep-new after n [] h = refl
  keep-new after n (f ∷ fs) h = ground (arith, keep-new after (n + 1) fs)

  -- What a test above the snapshot keeps of the history is what it keeps of the new messages.
  keep-deliver :
      (fs : List EmcyFrame) (o : EmcyObserver)
      → IsRecent o
      → o.sequence + length fs < 2 ^ 64
      → length fs ≤ 32
      → keep (above o.sequence q) (deliver emcy_callback fs o).events
        ≡ keep q (stamps o.sequence fs)
  keep-deliver fs o r w b =
      let k = length (o.events ++ stamps o.sequence fs) - 32 in
      let short : k ≤ length o.events =
        omega (arith, length-append o.events (stamps o.sequence fs), length-stamps o.sequence fs) in
      rw
        (
          (deliver-IsRecent fs o r w).1,
          drop-append-le k o.events (stamps o.sequence fs) short,
          keep-append,
          keep-old k r.before o.sequence o.events r.numbered,
        )
        (keep-new o.sequence o.sequence fs (omega arith))

  first-deliver :
      (fs : List EmcyFrame) (o : EmcyObserver)
      → IsRecent o
      → o.sequence + length fs < 2 ^ 64
      → length fs ≤ 32
      → first (above o.sequence q) (deliver emcy_callback fs o).events
        ≡ first q (stamps o.sequence fs)
  first-deliver fs o r w b =
      first-keep (above o.sequence q) (deliver emcy_callback fs o).events
      ∙ ap (first any_event) (keep-deliver fs o r w b)
      ∙ sym (first-keep q (stamps o.sequence fs))

-- If at most 32 messages have arrived since a snapshot of a history in order, the events after the
-- snapshot are the messages of that node since then: none is lost, added or moved.
pub get_emcy_events_after_complete :
    (o : EmcyObserver) (node : ℕ) (fs : List EmcyFrame)
    → IsRecent o
    → o.sequence + length fs < 2 ^ 64
    → length fs ≤ 32
    → get_emcy_events_after (snapshot_emcy_sequence o) node (deliver emcy_callback fs o)
      ≡ keep (λ (e : EmcyEvent). e.node_id == node) (stamps o.sequence fs)
unfolding get_emcy_events_after snapshot_emcy_sequence
get_emcy_events_after_complete o node fs r w b =
    keep-deliver (λ (e : EmcyEvent). e.node_id == node) fs o r w b

abbrev pub is_emcy : ℕ → ℕ → EmcyEvent → Bool
is_emcy node code e = e.node_id == node && e.error_code == code

first-stamps-append :
    (q : EmcyEvent → Bool) (n : ℕ) (xs ys : List EmcyFrame) (e : EmcyEvent)
    → first q (stamps n xs) ≡ some e
    → first q (stamps n (xs ++ ys)) ≡ some e
first-stamps-append q n [] ys e h = cc
first-stamps-append q n (x ∷ xs) ys e h = ground (arith, first-stamps-append q (n + 1) xs ys e)

if_some : (x : Option EmcyEvent) → (if is_some x then x else none) ≡ x
if_some none = refl
if_some (some e) = refl

module _ (node code : ℕ) (o : EmcyObserver) where
  abbrev found : EmcyObserver → Option EmcyEvent
  found s = find_emcy_event_locked o.sequence node code s

  abbrev outcome : Bool × EmcyObserver → Option EmcyEvent
  outcome r = if r.0 then found r.1 else none

  find-deliver :
      (fs : List EmcyFrame)
      → IsRecent o
      → o.sequence + length fs < 2 ^ 64
      → length fs ≤ 32
      → found (deliver emcy_callback fs o) ≡ first (is_emcy node code) (stamps o.sequence fs)
  unfolding find_emcy_event_locked
  find-deliver fs r w b = first-deliver (is_emcy node code) fs o r w b

  wait-found :
      (bs : List (List EmcyFrame)) (fs : List EmcyFrame)
      → IsRecent o
      → o.sequence + length (fs ++ concat bs) < 2 ^ 64
      → length (fs ++ concat bs) ≤ 32
      → outcome (wait_for emcy_callback (λ s. is_some (found s)) bs (deliver emcy_callback fs o))
        ≡ first (is_emcy node code) (stamps o.sequence (fs ++ concat bs))
  unfolding wait_for
  wait-found [] fs r w b = rw append-nil (
      if_some (found (deliver emcy_callback fs o))
      ∙ find-deliver fs r (rw append-nil at w) (rw append-nil at b))
  wait-found (x ∷ bs) fs r w b = elim (Option-cases (found (deliver emcy_callback fs o))) [
    | inl e ↦
        let joined = append_assoc fs x (concat bs) in
        let rest = wait-found bs (fs ++ x) r (rw joined w) (rw joined b) in
        rw (e, wait_for, ← joined, ← deliver-append emcy_callback fs x o) rest
    | inr (a, e) ↦
        let l = length-append fs (x ++ concat bs) in
        let known = sym (find-deliver fs r (omega (arith, l)) (omega (arith, l))) ∙ e in
        rw (e, wait_for)
          (e ∙ sym (first-stamps-append (is_emcy node code) o.sequence fs (x ++ concat bs) a known))
  ]

-- A wait that starts at its own snapshot, and during which at most 32 messages arrive, returns the
-- first message of that node with that code among all that arrive, however they are batched, and
-- false if there is none.
pub wait_for_emcy_event-first :
    (o : EmcyObserver) (node code : ℕ) (batches : List (List EmcyFrame))
    → IsRecent o
    → o.sequence + length (concat batches) < 2 ^ 64
    → length (concat batches) ≤ 32
    → (wait_for_emcy_event (snapshot_emcy_sequence o) node code batches o).0
      ≡ first (is_emcy node code) (stamps o.sequence (concat batches))
unfolding wait_for_emcy_event snapshot_emcy_sequence
wait_for_emcy_event-first o node code batches r w b = wait-found node code o batches [] r w b
