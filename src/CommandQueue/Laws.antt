-- ===== src/CommandQueue/Laws.antt =====
-- Applications/CommandQueue/CommandQueue.hpp: the commands that wait, and what `addToQueue` and
-- `getNextInQueue` do to them.
use abstraction_layer.Prelude.{
  ℕ, zero, suc, ◌+◌, ◌%◌, ◌≤◌, ◌<◌, ◌≡◌, refl, ap, ap₂, sym, ◌∙◌, inl, inr, true, false, some, List,
  [], ◌∷◌, ◌++◌, arith, ◌==◌, u32, inc32, dec32, length, get_or, set, length-set, lt→ltb, ==_ne,
  Bool-cases,
}
use abstraction_layer.Error.{success}
use abstraction_layer.Ring.{
  window, length-window, window-push, offset_cases, offset-ne, next_index, next_index-lt,
  next_index-offset, next_index-last,
}
use abstraction_layer.EventQueue.{to_unblock}
use abstraction_layer.CommandQueue.{
  CommandQueue, max_size, save_command, add_to_queue, move_first, get_next_in_queue,
}

module _ {T : Type 0} where
  -- A command that waits is announced, unless the array is full.
  pub record IsValid (q : CommandQueue T) : Type 0 where
    pub size_fits : max_size q < u32
    pub first_in : q.index_first < max_size q
    pub claimed_in : q.commands_claimed ≤ max_size q
    pub last_is : q.index_last ≡ (q.index_first + q.commands_claimed) % max_size q
    pub ready_is :
        0 < q.commands_claimed → q.commands_claimed < max_size q → q.commands_ready ≡ true

  abbrev pub appended : CommandQueue T → T → CommandQueue T
  appended q command =
      save_command (record q { commands_claimed = inc32 q.commands_claimed }) command

  pub inc-claimed :
      (q : CommandQueue T)
      → IsValid q
      → q.commands_claimed < max_size q
      → inc32 q.commands_claimed ≡ suc q.commands_claimed
  inc-claimed q v room = omega (arith, v.size_fits)

  pub appended-IsValid :
      (q : CommandQueue T) (command : T)
      → IsValid q
      → q.commands_claimed < max_size q
      → IsValid (appended q command)
  appended-IsValid q command v room = record {
    size_fits = omega (arith, v.size_fits, sized);
    first_in = omega (arith, v.first_in, sized);
    claimed_in = omega (arith, sized, inc-claimed q v room);
    last_is =
        ap (λ t. (t + 1) % max_size q) v.last_is
        ∙ next_index-last (max_size q) q.index_first q.commands_claimed
        ∙ ap₂ (λ c n. (q.index_first + c) % n) (sym (inc-claimed q v room)) (sym sized);
    ready_is = λ _ _. refl;
  }
    where
      sized : length (set q.commands q.index_last command) ≡ max_size q
      sized = length-set q.commands q.index_last command

  -- The first and the last index meet when no command waits and when the array is full.
  pub indices_differ :
      (q : CommandQueue T)
      → IsValid q
      → 0 < q.commands_claimed
      → q.commands_claimed < max_size q
      → (q.index_first == q.index_last) ≡ false
  indices_differ q v some_wait not_full = ==_ne q.index_first q.index_last λ e.
      offset-ne (max_size q) q.index_first q.commands_claimed v.first_in some_wait not_full
        (sym v.last_is ∙ sym e)

  pub indices_meet :
      (q : CommandQueue T)
      → IsValid q
      → q.commands_claimed ≡ max_size q
      → (q.index_first == q.index_last) ≡ true
  indices_meet q v full =
      rw (v.last_is) (
        ground
          (arith, full, v.first_in, offset_cases (max_size q) q.index_first q.commands_claimed))

  -- Spurious failures of the exchange change nothing.
  pub move_first-spurious : (n : ℕ) (q : CommandQueue T) → move_first n q ≡ move_first 0 q
  unfolding move_first
  move_first-spurious zero q = refl
  move_first-spurious (suc n) q = elim (Bool-cases (q.index_first == q.index_last)) [
    | inl meet ↦ rw meet
    | inr differ ↦
        rw differ
          (move_first-spurious n (record q { commands_ready = true }) ∙ rw (differ, move_first))
  ]

  -- The queue after its oldest command has been taken.
  abbrev pub taken : CommandQueue T → CommandQueue T
  taken q = record q {
    commands_ready = true;
    index_first = next_index (max_size q) q.index_first;
    commands_claimed = dec32 q.commands_claimed;
  }

  pub move_first_differ :
      (n : ℕ) (q : CommandQueue T)
      → (q.index_first == q.index_last) ≡ false
      → move_first n q
        ≡ record q { commands_ready = true; index_first = next_index (max_size q) q.index_first }
  unfolding move_first
  move_first_differ n q differ = move_first-spurious n q ∙ rw (differ, move_first)

  pub move_first_meet :
      (n : ℕ) (q : CommandQueue T)
      → (q.index_first == q.index_last) ≡ true
      → move_first n q ≡ record q { commands_ready = false }
  unfolding move_first
  move_first_meet n q meet = move_first-spurious n q ∙ rw (meet, move_first)

  dec-claimed :
      (q : CommandQueue T) (c : ℕ)
      → IsValid q
      → q.commands_claimed ≡ suc c
      → dec32 q.commands_claimed ≡ c
  dec-claimed q c v e = omega (arith, v.size_fits, v.claimed_in)

  pub taken-IsValid :
      (q : CommandQueue T) (c : ℕ) → IsValid q → q.commands_claimed ≡ suc c → IsValid (taken q)
  taken-IsValid q c v e = record {
    size_fits = v.size_fits;
    first_in = next_index-lt (max_size q) q.index_first v.first_in;
    claimed_in = omega (arith, v.claimed_in, dec-claimed q c v e);
    last_is =
        v.last_is
        ∙ ap (λ k. (q.index_first + k) % max_size q) e
        ∙ sym (
            next_index-offset (max_size q) q.index_first c v.first_in (omega (arith, v.claimed_in)))
        ∙ ap (λ k. (next_index (max_size q) q.index_first + k) % max_size q)
            (sym (dec-claimed q c v e));
    ready_is = λ _ _. refl;
  }

module _ {T : Type 0} (d : T) where
  -- The commands that wait, oldest first.
  abbrev pub pending : CommandQueue T → List T
  pending q = window d (max_size q) q.commands q.index_first q.commands_claimed

  -- With room, the command is queued behind all others and every waiting thread is unblocked.
  pub add_to_queue-pending :
      (q : CommandQueue T) (command : T)
      → IsValid q
      → q.commands_claimed < max_size q
      → let r = add_to_queue q command in
        (r.0 ≡ success)
        × IsValid r.1
        × (pending r.1 ≡ pending q ++ command ∷ [])
        × (r.2 ≡ to_unblock q.waiting_threads)
  unfolding add_to_queue
  add_to_queue-pending q command v room =
      rw (lt→ltb q.commands_claimed (max_size q) room)
        (refl, appended-IsValid q command v room, added, refl)
    where
      added : pending (appended q command) ≡ pending q ++ command ∷ []
      added =
          window-push d q.commands (max_size q) (max_size (appended q command)) q.index_first
            q.commands_claimed (inc32 q.commands_claimed) q.index_last command refl
            (length-set q.commands q.index_last command) (inc-claimed q v room) v.last_is v.first_in
            room

  pending-taken :
      (q : CommandQueue T) (c : ℕ)
      → IsValid q
      → q.commands_claimed ≡ suc c
      → pending q ≡ get_or q.commands q.index_first d ∷ pending (taken q)
  unfolding window
  pending-taken q c v e =
      ap (window d (max_size q) q.commands q.index_first) e
      ∙ ap
          (λ k.
            get_or q.commands q.index_first d
            ∷ window d (max_size q) q.commands (next_index (max_size q) q.index_first) k)
          (sym (dec-claimed q c v e))

  -- Below the array's size, the oldest command is returned and leaves the queue.
  pub get_next_in_queue-pending :
      (spurious : ℕ) (q : CommandQueue T) (command : T) (rest : List T)
      → IsValid q
      → pending q ≡ command ∷ rest
      → length (pending q) < max_size q
      → let r = get_next_in_queue d spurious q in
        (r.0 ≡ success) × (r.1 ≡ some command) × IsValid r.2 × (pending r.2 ≡ rest)
  unfolding get_next_in_queue
  get_next_in_queue-pending spurious q command rest v e not_full =
      rw
        (
          move_first_differ spurious q (indices_differ q v some_wait below),
          v.ready_is some_wait below,
        )
        (refl, cc oldest, taken-IsValid q (length rest) v count, cc oldest)
    where
      count : q.commands_claimed ≡ suc (length rest)
      count =
          sym (length-window d (max_size q) q.commands q.index_first q.commands_claimed)
          ∙ ap length e

      some_wait : 0 < q.commands_claimed
      some_wait = omega (arith, count)

      below : q.commands_claimed < max_size q
      below = omega (arith, count, not_full, ap length e)

      oldest : command ∷ rest ≡ get_or q.commands q.index_first d ∷ pending (taken q)
      oldest = sym e ∙ pending-taken q (length rest) v count
