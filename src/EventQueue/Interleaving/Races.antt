-- ===== src/EventQueue/Interleaving/Races.antt =====
-- Applications/Event/EventQueue.cpp: orders of steps in which the queue goes wrong.
use native.Mathlib.Nat.{mod-eq_of_lt}
use abstraction_layer.Prelude.{
  ℕ, ◌+◌, ◌-◌, ◌%◌, ◌<◌, ◌≡◌, refl, Bool, true, false, Option, none, some, List, [], ◌∷◌, ◌++◌,
  arith, u32, length, ltb, lt→ltb,
}
use abstraction_layer.EventQueue.Interleaving.{
  Shared, Producer, loads_claimed, writes_event, finished, tests_ready, System, Move, by_producer,
  by_consumer, step, run,
}

abbrev pub two_producers : Shared → ℕ → ℕ → System
two_producers s a b = record {
  shared = s;
  producers = loads_claimed a ∷ loads_claimed b ∷ [];
  consumer = tests_ready;
  ran = [];
}

-- Two producers that both test before either counts itself claim one slot more than there is.
pub claims_past_size :
    (s : Shared) (a b : ℕ)
    → s.events_claimed + 1 ≡ length s.events
    → length s.events + 1 < u32
    → (run
        (two_producers s a b)
        (by_producer 0 ∷ by_producer 1 ∷ by_producer 0 ∷ by_producer 1 ∷ [])).shared.events_claimed
      ≡ length s.events + 1
unfolding run
claims_past_size s a b last_slot fits = ground arith

-- A system of two producers, with the owner about to test for events.
abbrev at : List (Option ℕ) → ℕ → ℕ → ℕ → Bool → Producer → Producer → List (Option ℕ) → System
at events first last claimed ready p q ran = record {
  shared = record {
    events = events;
    index_first = first;
    index_last = last;
    events_claimed = claimed;
    events_ready = ready;
  };
  producers = p ∷ q ∷ [];
  consumer = tests_ready;
  ran = ran;
}

abbrev takes_slot : List Move
takes_slot = by_producer 0 ∷ by_producer 0 ∷ by_producer 0 ∷ []

abbrev adds_event : List Move
adds_event = by_producer 1 ∷ by_producer 1 ∷ by_producer 1 ∷ by_producer 1 ∷ by_producer 1 ∷ []

abbrev runs_event : List Move
runs_event = by_consumer ∷ by_consumer ∷ by_consumer ∷ by_consumer ∷ by_consumer ∷ by_consumer ∷ []

abbrev goes_on : List Move
goes_on = by_producer 0 ∷ by_producer 0 ∷ []

-- The first producer takes a slot and stops; the second adds its event; the owner runs both slots;
-- the first producer goes on; the owner runs once more.
abbrev pub overtaken : List Move
overtaken = takes_slot ++ (adds_event ++ (runs_event ++ (runs_event ++ (goes_on ++ runs_event))))

run-append : (s : System) (xs ys : List Move) → run s (xs ++ ys) ≡ run (run s xs) ys
unfolding run
run-append s [] ys = refl
run-append s (x ∷ xs) ys = run-append (step s x) xs ys

module _ (rest : List (Option ℕ)) (a b : ℕ) where
  abbrev pub empty_slots : List (Option ℕ)
  empty_slots = none ∷ none ∷ none ∷ rest

  abbrev pub idle : System
  idle = at empty_slots 0 0 0 false (loads_claimed a) (loads_claimed b) []

  room : (k : ℕ) → k < 3 → ltb k (length empty_slots) ≡ true
  room k h = lt→ltb k (length empty_slots) (omega arith)

  small : (k : ℕ) → k < 3 → k % length empty_slots ≡ k
  small k h = mod-eq_of_lt (omega arith)

  overtaken₁ :
      run idle takes_slot ≡ at empty_slots 0 1 1 false (writes_event 0 a) (loads_claimed b) []
  unfolding run
  overtaken₁ = rw (room 0 (omega arith), small 1 (omega arith))

  overtaken₂ :
      run (at empty_slots 0 1 1 false (writes_event 0 a) (loads_claimed b) []) adds_event
      ≡ at (none ∷ some b ∷ none ∷ rest) 0 2 2 true (writes_event 0 a) finished []
  unfolding run
  overtaken₂ = rw (room 1 (omega arith), small 2 (omega arith))

  overtaken₃ :
      run (at (none ∷ some b ∷ none ∷ rest) 0 2 2 true (writes_event 0 a) finished []) runs_event
      ≡ at (none ∷ some b ∷ none ∷ rest) 1 2 1 true (writes_event 0 a) finished (none ∷ [])
  unfolding run
  overtaken₃ = rw (small 1 (omega arith))

  overtaken₄ :
      run
        (at (none ∷ some b ∷ none ∷ rest) 1 2 1 true (writes_event 0 a) finished (none ∷ []))
        runs_event
      ≡ at empty_slots 2 2 0 false (writes_event 0 a) finished (none ∷ some b ∷ [])
  unfolding run
  overtaken₄ = rw (small 2 (omega arith))

  overtaken₅ :
      run (at empty_slots 2 2 0 false (writes_event 0 a) finished (none ∷ some b ∷ [])) goes_on
      ≡ at (some a ∷ none ∷ none ∷ rest) 2 2 0 true finished finished (none ∷ some b ∷ [])
  unfolding run
  overtaken₅ = refl

  overtaken₆ :
      let s =
        run
          (at (some a ∷ none ∷ none ∷ rest) 2 2 0 true finished finished (none ∷ some b ∷ []))
          runs_event in
      (s.shared.events_claimed ≡ u32 - 1) × (s.ran ≡ none ∷ some b ∷ none ∷ [])
  unfolding run
  overtaken₆ = (refl, refl)

  -- In this order, with three slots or more, the owner runs a slot that holds no event, twice, the
  -- first producer's event has not run, and the count of claims is the largest `Count`.
  pub overtaken_underflows :
      let s = run idle overtaken in
      (s.shared.events_claimed ≡ u32 - 1) × (s.ran ≡ none ∷ some b ∷ none ∷ [])
  overtaken_underflows =
      rw
        (
          run-append idle takes_slot _,
          overtaken₁,
          run-append _ adds_event _,
          overtaken₂,
          run-append _ runs_event _,
          overtaken₃,
          run-append _ runs_event _,
          overtaken₄,
          run-append _ goes_on _,
          overtaken₅,
        )
        overtaken₆
