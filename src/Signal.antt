-- ===== src/Signal.antt =====
-- Applications/SignalsAndSlots/SignalsAndSlots.hpp: a signal with 16 slots for observers. A slot holds
-- the event queue and the callback of an observer. The event queues are the state `S` of the rest of
-- the program: `add` is `EventQueue::addEvent` of a queue, by its name, with the event that binds the
-- callback to the signal's parameters.
pub mod Laws
pub mod Emission
mod Examples
use abstraction_layer.Prelude.{
  ℕ, zero, suc, ◌+◌, Bool, true, false, Option, none, some, List, [], ◌∷◌, ltb, ◌==◌, if◌then◌else◌,
  inc32, dec32, length, set, replicate,
}
use abstraction_layer.Error.{ErrorType, success, no_data, limit_reached}

-- `_MaxNumberOfObservers`.
abbrev pub max_number_of_observers : ℕ
max_number_of_observers = 16

-- The pair of a pointer to an event queue and a function; either may be null.
pub record Slot (C : Type 0) : Type 0 where
  pub event_queue : Option ℕ
  pub callback : Option C

abbrev pub null_slot : {C : Type 0} → Slot C
null_slot = record { event_queue = none; callback = none }

pub record Signal (C : Type 0) : Type 0 where
  pub current_number_of_observers : ℕ
  pub slots : List (Slot C)

pub init : {C : Type 0} → Signal C
init = record {
  current_number_of_observers = 0;
  slots = replicate max_number_of_observers null_slot;
}

module _ {C : Type 0} where
  -- The first slot with no event queue.
  unfoldable pub free_slot : List (Slot C) → Option ℕ
  free_slot [] = none
  free_slot (s ∷ ss) =
      let later : Option ℕ = elim (free_slot ss) [ none ↦ none | some i ↦ some (suc i) ] in
      elim s.event_queue [ none ↦ some 0 | some q ↦ later ]

  -- The error, the handle that is written, and the signal. `fetch_add` returns the count before it.
  pub connect : ℕ → Option C → Signal C → ErrorType × Option ℕ × Signal C
  connect event_queue callback s = elim (free_slot s.slots) [
    | none ↦ (limit_reached, none, s)
    | some i ↦
        let count = inc32 s.current_number_of_observers in
        if ltb s.current_number_of_observers max_number_of_observers
        then (
          success,
          some i,
          record {
            current_number_of_observers = count;
            slots = set s.slots i (record { event_queue = some event_queue; callback = callback });
          },
        )
        else (limit_reached, none, record s { current_number_of_observers = dec32 count })
  ]

  pub disconnect : ℕ → Signal C → ErrorType × Signal C
  disconnect handle s =
      if ltb handle (length s.slots)
      then (
        success,
        record {
          current_number_of_observers = dec32 s.current_number_of_observers;
          slots = set s.slots handle null_slot;
        },
      )
      else (success, s)

  module _ {S : Type 0} (add : ℕ → C → S → ErrorType × S) where
    -- One round of the loop of `_emit`.
    abbrev pub emit_slot : Option ℕ → Option C → ErrorType × S → ErrorType × S
    emit_slot none callback r = r
    emit_slot (some q) none r = r
    emit_slot (some q) (some callback) r = add q callback r.1

    -- `_emit`, from the error so far.
    pub emit_slots : List (Slot C) → ErrorType × S → ErrorType × S
    emit_slots [] r = r
    emit_slots (s ∷ ss) r = emit_slots ss (emit_slot s.event_queue s.callback r)

    pub emit : Signal C → S → ErrorType × S
    emit s state =
        if s.current_number_of_observers == 0
        then (no_data, state)
        else emit_slots s.slots (no_data, state)
