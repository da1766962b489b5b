-- ===== src/Signal/Examples.antt =====
-- Applications/SignalsAndSlots: the theorems on a signal with one observer, and on one with none.
use abstraction_layer.Prelude.{
  ℕ, ◌+◌, ◌-◌, ◌≡◌, ◌⊎◌, refl, none, some, List, [], ◌∷◌, arith, u32, get_or, replicate,
}
use abstraction_layer.Error.{ErrorType, success, no_data, limit_reached}
use abstraction_layer.Signal.{Signal, max_number_of_observers, null_slot, connect, disconnect, emit}
use abstraction_layer.Signal.Laws.{
  IsValid, IsFree, taken, connected, connect_cases, disconnect-IsValid, disconnect_underflow,
}
use abstraction_layer.Signal.Emission.{deliver, emit-deliver}

abbrev one_observer : Signal ℕ
one_observer = record {
  current_number_of_observers = 1;
  slots = record { event_queue = some 3; callback = some 40 } ∷ replicate 15 null_slot;
}

abbrev no_observer : Signal ℕ
no_observer = record { current_number_of_observers = 0; slots = replicate 16 null_slot }

one_observer-IsValid : IsValid one_observer
one_observer-IsValid = record { slots_size = refl; counted = refl }

no_observer-IsValid : IsValid no_observer
no_observer-IsValid = record { slots_size = refl; counted = refl }

connect_cases_test :
    ((taken one_observer.slots ≡ max_number_of_observers)
      × (connect 4 (some 50) one_observer ≡ (limit_reached, none, one_observer)))
    ⊎ ((i : ℕ) × IsFree one_observer.slots i
        × (connect 4 (some 50) one_observer
            ≡ (success, some i, connected one_observer i 4 (some 50)))
        × IsValid (connected one_observer i 4 (some 50)))
connect_cases_test = connect_cases one_observer 4 (some 50) one_observer-IsValid

disconnect-IsValid_test :
    let r = disconnect 0 one_observer in
    (r.0 ≡ success)
    × IsValid r.1
    × (get_or r.1.slots 0 null_slot ≡ null_slot)
    × (taken r.1.slots + 1 ≡ taken one_observer.slots)
disconnect-IsValid_test =
    disconnect-IsValid one_observer 0 3 one_observer-IsValid (omega arith) refl

disconnect_underflow_test :
    let s' = (disconnect 5 no_observer).1 in
    (s'.current_number_of_observers ≡ u32 - 1)
    × (taken s'.slots ≡ 0)
    × (connect 4 (some 50) s' ≡ (limit_reached, none, s'))
disconnect_underflow_test =
    disconnect_underflow no_observer 5 4 (some 50) no_observer-IsValid refl (omega arith)

-- Event queues as the list of the events that were added.
abbrev add_to : ℕ → ℕ → List (ℕ × ℕ) → ErrorType × List (ℕ × ℕ)
add_to queue callback events = (success, (queue, callback) ∷ events)

emit-deliver_example : emit add_to one_observer [] ≡ deliver add_to ((3, 40) ∷ []) (no_data, [])
emit-deliver_example = emit-deliver add_to one_observer [] one_observer-IsValid
