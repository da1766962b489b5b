-- ===== src/CommandQueue.antt =====
-- Applications/CommandQueue/CommandQueue.hpp: a ring buffer of commands with a list of waiting
-- threads. The static members of one instance of the template are a record. A call runs to its end:
-- the compare-and-exchange of `addToQueue` ends at once, and that of `getNextInQueue` may fail
-- `spurious` times before it succeeds. Indices stay below the array's size, so `index + 1` does not
-- wrap.
pub mod Laws
pub mod Full
pub mod Waiting
mod Examples
use abstraction_layer.Prelude.{
  ℕ, zero, suc, ◌+◌, ◌%◌, Bool, true, false, not, Option, none, some, List, [], ◌∷◌, ltb, ◌==◌,
  if◌then◌else◌, inc32, dec32, length, get_or, set, replicate,
}
use abstraction_layer.Error.{ErrorType, success, limit_reached, no_data, is_success}
use abstraction_layer.EventQueue.{null_id, to_unblock}

pub record CommandQueue (T : Type 0) : Type 0 where
  pub commands : List T
  pub index_first : ℕ
  pub index_last : ℕ
  pub commands_claimed : ℕ
  pub commands_ready : Bool
  pub waiting_threads : List ℕ

-- The static members' initial values; `d` is the value of `T()`.
pub init : {T : Type 0} → T → ℕ → ℕ → CommandQueue T
init d max_commands max_threads = record {
  commands = replicate max_commands d;
  index_first = 0;
  index_last = 0;
  commands_claimed = 0;
  commands_ready = false;
  waiting_threads = replicate max_threads null_id;
}

module _ {T : Type 0} where
  abbrev pub max_size : CommandQueue T → ℕ
  max_size q = length q.commands

  -- `addCommandIfNotFull`.
  abbrev pub add_command_if_not_full : CommandQueue T → CommandQueue T × Bool
  add_command_if_not_full q =
      if ltb q.commands_claimed (max_size q)
      then (record q { commands_claimed = inc32 q.commands_claimed }, true)
      else (q, false)

  abbrev pub save_command : CommandQueue T → T → CommandQueue T
  save_command q command = record q {
    index_last = (q.index_last + 1) % max_size q;
    commands = set q.commands q.index_last command;
    commands_ready = true;
  }

  -- The error, the queue, and the threads that are unblocked.
  pub add_to_queue : CommandQueue T → T → ErrorType × CommandQueue T × List ℕ
  add_to_queue q command =
      let (q', claimed) = add_command_if_not_full q in
      if claimed
      then (success, save_command q' command, to_unblock q'.waiting_threads)
      else (limit_reached, q', [])

  -- `commandsReady`.
  pub are_commands_ready : CommandQueue T → Bool
  are_commands_ready q = not (q.index_first == q.index_last)

  -- The loop of `getNextInQueue`: it sets `_CommandsReady`, and moves the first index if that is true
  -- and the exchange succeeds. A failed exchange reads the first index again.
  pub move_first : ℕ → CommandQueue T → CommandQueue T
  move_first zero q =
      let ready = not (q.index_first == q.index_last) in
      if ready
      then record q { commands_ready = ready; index_first = (q.index_first + 1) % max_size q }
      else record q { commands_ready = ready }
  move_first (suc spurious) q =
      let ready = not (q.index_first == q.index_last) in
      let again = move_first spurious (record q { commands_ready = ready }) in
      if ready then again else record q { commands_ready = ready }

  module _ (d : T) (spurious : ℕ) where
    -- The data that is moved out of the slot at the old first index `i`, and the claim given back.
    abbrev pub take_command : ℕ → CommandQueue T → ErrorType × Option T × CommandQueue T
    take_command i q =
        if q.commands_ready
        then (
          success,
          some (get_or q.commands i d),
          record q { commands_claimed = dec32 q.commands_claimed },
        )
        else (no_data, none, q)

    pub get_next_in_queue : CommandQueue T → ErrorType × Option T × CommandQueue T
    get_next_in_queue q =
        if q.commands_ready
        then take_command q.index_first (move_first spurious q)
        else (no_data, none, q)

  -- `peakNextInQueue`: it leaves the caller's error alone where no command waits.
  pub peak_next_in_queue : T → CommandQueue T → ErrorType → ErrorType × T
  peak_next_in_queue d q error = (
    if not (q.index_first == q.index_last) then success else error,
    get_or q.commands q.index_first d,
  )

  -- `status`.
  pub commands_queued : CommandQueue T → ℕ
  commands_queued q = q.commands_claimed
