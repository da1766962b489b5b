-- ===== src/EventQueue.antt =====
-- Applications/Event/EventQueue.hpp and EventQueue.cpp: a ring buffer of callbacks. A callback is a
-- function on the state `W` of the rest of the program. A call runs to its end here, so a
-- compare-and-exchange loop ends at once and is an atomic increment; Interleaving has the steps of
-- several threads. Indices stay below the array's size, a `Count`, so `index + 1` does not wrap. What
-- the operating system answers is an argument: the identity of the calling thread, and what has
-- happened when `block` returns.
pub mod Laws
pub mod Running
pub mod Waiting
mod Examples
pub mod Fifo
pub mod Interleaving
use abstraction_layer.Prelude.{
  ℕ, zero, suc, ◌+◌, ◌-◌, ◌%◌, Bool, true, false, not, ◌&&◌, ◌||◌, Option, none, some, List, [],
  ◌∷◌, ltb, ◌==◌, if◌then◌else◌, inc32, dec32, length, get_or, set, replicate,
}
use abstraction_layer.Error.{
  ErrorType, success, invalid_parameter, limit_reached, no_data, is_success,
}

-- `OperatingSystemTypes::NullId`.
abbrev pub null_id : ℕ
null_id = 0

pub data LoopMode : Type 0 where
  unknown polling blocking : LoopMode

-- What `OperatingSystem::currentThreadId` returns, and the identity that it writes.
pub record CurrentThread : Type 0 where
  pub error : ErrorType
  pub id : ℕ

-- `Event`: the callback, or the null function.
abbrev pub Event : Type 0 → Type 0
Event W = Option (W → W × ErrorType)

pub record EventQueue (W : Type 0) : Type 0 where
  pub events : List (Event W)
  pub index_first : ℕ
  pub index_last : ℕ
  pub events_claimed : ℕ
  pub owner_thread_id : ℕ
  pub events_ready : Bool
  pub add_event_optimizations_enabled : Bool
  pub waiting_threads : List ℕ

-- The result of a call: its error, the queue and the rest of the program after it, and the threads
-- that it unblocked, in order.
pub record Outcome (W : Type 0) : Type 0 where
  pub error : ErrorType
  pub queue : EventQueue W
  pub world : W
  pub unblocked : List ℕ

-- What `block` returns, with the queue and the world as other threads have left them.
abbrev pub Block : Type 0 → Type 0
Block W = EventQueue W → W → ErrorType × EventQueue W × W

-- The constructor, with the template's sizes.
pub init : {W : Type 0} → ℕ → ℕ → CurrentThread → EventQueue W
init max_events max_threads me = record {
  events = replicate max_events none;
  index_first = 0;
  index_last = 0;
  events_claimed = 0;
  owner_thread_id = me.id;
  events_ready = false;
  add_event_optimizations_enabled = is_success me.error;
  waiting_threads = replicate max_threads null_id;
}

-- The waiting threads that `addEvent` unblocks.
pub to_unblock : List ℕ → List ℕ
to_unblock [] = []
to_unblock (t ∷ ts) = let rest = to_unblock ts in if t == null_id then rest else t ∷ rest

-- The first free place in the list of waiting threads.
pub free_place : List ℕ → Option ℕ
free_place [] = none
free_place (t ∷ ts) =
    let rest : Option ℕ = elim (free_place ts) [ none ↦ none | some i ↦ some (suc i) ] in
    if t == null_id then some 0 else rest

module _ {W : Type 0} where
  abbrev pub max_size : EventQueue W → ℕ
  max_size q = length q.events

  -- `Event::run`: the world and the result, and what is left of the event.
  abbrev pub run_event : Event W → W → W × ErrorType × Event W
  run_event none w = (w, invalid_parameter, none)
  run_event (some callback) w = ((callback w).0, (callback w).1, none)

  -- `addEventIfNotFull`.
  abbrev pub add_event_if_not_full : EventQueue W → EventQueue W × Bool
  add_event_if_not_full q =
      if ltb q.events_claimed (max_size q)
      then (record q { events_claimed = inc32 q.events_claimed }, true)
      else (q, false)

  -- The queued branch of `addEvent`, once a slot is claimed.
  abbrev pub save_event : EventQueue W → Event W → EventQueue W
  save_event q event = record q {
    index_last = (q.index_last + 1) % max_size q;
    events = set q.events q.index_last event;
    events_ready = true;
  }

  abbrev pub run_now : EventQueue W → Event W → W → Outcome W
  run_now q event w =
      let (w', error, _) = run_event event w in
      record { error = error; queue = q; world = w'; unblocked = [] }

  abbrev pub queue_event : EventQueue W → Event W → W → Outcome W
  queue_event q event w =
      let (q', claimed) = add_event_if_not_full q in
      if claimed
      then record {
        error = success;
        queue = save_event q' event;
        world = w;
        unblocked = to_unblock q'.waiting_threads;
      }
      else record { error = limit_reached; queue = q'; world = w; unblocked = [] }

  pub add_event : CurrentThread → EventQueue W → Event W → W → Outcome W
  add_event me q event w =
      if (q.owner_thread_id == me.id) && q.add_event_optimizations_enabled
      then run_now q event w
      else if (null_id == me.id) || (null_id == q.owner_thread_id)
      then run_now q event w
      else queue_event q event w

  abbrev pub wait_in_place :
      Option ℕ → ℕ → Block W → EventQueue W → W → ErrorType × EventQueue W × W
  wait_in_place none thread block q w = (limit_reached, q, w)
  wait_in_place (some i) thread block q w =
      let (error, q', w') =
        block (record q { waiting_threads = set q.waiting_threads i thread }) w in
      (error, record q' { waiting_threads = set q'.waiting_threads i null_id }, w')

  pub wait_for_events : CurrentThread → Block W → EventQueue W → W → ErrorType × EventQueue W × W
  wait_for_events me block q w =
      if is_success me.error
      then wait_in_place (free_place q.waiting_threads) me.id block q w
      else (limit_reached, q, w)

  -- The branch of `runNextEvent` that runs the event at the first index.
  abbrev pub run_first : EventQueue W → W → ErrorType × EventQueue W × W
  run_first q w =
      let (w', error, spent) = run_event (get_or q.events q.index_first none) w in
      let first = (q.index_first + 1) % max_size q in
      (
        error,
        record q {
          events = set q.events q.index_first spent;
          events_claimed = dec32 q.events_claimed;
          index_first = first;
          events_ready = not (first == q.index_last);
        },
        w',
      )

  abbrev pub wait_if_blocking :
      LoopMode → CurrentThread → Block W → EventQueue W → W → ErrorType × EventQueue W × W
  wait_if_blocking LoopMode.blocking me block q w = wait_for_events me block q w
  wait_if_blocking _ me block q w = (no_data, q, w)

  pub run_next_event :
      CurrentThread → Block W → LoopMode → EventQueue W → W → ErrorType × EventQueue W × W
  run_next_event me block mode q w =
      if q.events_ready then run_first q w else wait_if_blocking mode me block q w

  -- `changeOwner`.
  pub change_owner : EventQueue W → ℕ → EventQueue W
  change_owner q id = record q { owner_thread_id = id }
