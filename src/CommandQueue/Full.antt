-- ===== src/CommandQueue/Full.antt =====
-- Applications/CommandQueue/CommandQueue.hpp: a full array. The two indices meet there, as they do
-- when no command waits.
use abstraction_layer.Prelude.{ℕ, ◌≡◌, refl, true, Option, none, List, [], ◌∷◌, arith, le→ltb, ◌==◌}
use abstraction_layer.Error.{ErrorType, limit_reached, no_data}
use abstraction_layer.CommandQueue.{CommandQueue, max_size, add_to_queue, get_next_in_queue}
use abstraction_layer.CommandQueue.Laws.{IsValid, indices_meet, move_first_meet}

-- One call of a producer or of the consumer; `get` has the spurious failures of its exchange.
pub data Call (T : Type 0) : Type 0 where
  add : T → Call T
  get : ℕ → Call T

module _ {T : Type 0} (d : T) where
  unfoldable pub call : CommandQueue T → Call T → ErrorType × Option T × CommandQueue T
  call q (add command) = let (error, q', _) = add_to_queue q command in (error, none, q')
  call q (get spurious) = get_next_in_queue d spurious q

  unfoldable pub run : CommandQueue T → List (Call T) → List (ErrorType × Option T)
  run q [] = []
  run q (c ∷ cs) = let (error, data', q') = call q c in (error, data') ∷ run q' cs

  -- What a stuck queue answers.
  abbrev pub refusal : Call T → ErrorType × Option T
  refusal (add command) = (limit_reached, none)
  refusal (get spurious) = (no_data, none)

  abbrev pub refusals : List (Call T) → List (ErrorType × Option T)
  refusals [] = []
  refusals (c ∷ cs) = refusal c ∷ refusals cs

  IsFull : CommandQueue T → Type 0
  IsFull q = (q.commands_claimed ≡ max_size q) × ((q.index_first == q.index_last) ≡ true)

  call-IsFull :
      (q : CommandQueue T) (c : Call T)
      → IsFull q
      → let r = call q c in (r.0 ≡ (refusal c).0) × (r.1 ≡ (refusal c).1) × IsFull r.2
  unfolding call add_to_queue get_next_in_queue IsFull
  call-IsFull q (add command) (full, meet) =
      rw (le→ltb q.commands_claimed (max_size q) (omega (arith, full))) (refl, refl, (full, meet))
  call-IsFull q (get spurious) (full, meet) = rw (move_first_meet spurious q meet) (ground arith)

  run-full : (q : CommandQueue T) (cs : List (Call T)) → IsFull q → run q cs ≡ refusals cs
  unfolding run
  run-full q [] full = refl
  run-full q (c ∷ cs) full =
      let (error, answer, still) = call-IsFull q c full in
      ground (arith, error, answer, run-full (call q c).2 cs still)

  -- Once every slot is taken, no call ever succeeds again: each `addToQueue` is refused, each
  -- `getNextInQueue` finds no data, and the commands that wait are never returned.
  pub full_forever :
      (q : CommandQueue T) (cs : List (Call T))
      → IsValid q
      → q.commands_claimed ≡ max_size q
      → run q cs ≡ refusals cs
  unfolding IsFull
  full_forever q cs v full = run-full q cs (full, indices_meet q v full)
