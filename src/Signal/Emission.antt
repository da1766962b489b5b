-- ===== src/Signal/Emission.antt =====
-- Applications/SignalsAndSlots/SignalsAndSlots.hpp, `emit` and `_emit`: who is notified, in which
-- order, and what error comes back.
use abstraction_layer.Prelude.{
  ℕ, ◌≡◌, refl, sym, ◌∙◌, Option, none, some, List, [], ◌∷◌, ◌++◌, arith, ◌==◌, Bool-cases, inl,
  inr, ==_iff,
}
use abstraction_layer.Error.{ErrorType, no_data}
use abstraction_layer.Signal.{Slot, Signal, emit_slot, emit_slots, emit}
use abstraction_layer.Signal.Laws.{IsValid, taken}

module _ {C : Type 0} where
  abbrev pub observer : Option ℕ → Option C → List (ℕ × C)
  observer (some q) (some callback) = (q, callback) ∷ []
  observer none callback = []
  observer (some q) none = []

  -- The observers with an event queue and a callback, in the order of their slots.
  abbrev pub observers : List (Slot C) → List (ℕ × C)
  observers [] = []
  observers (s ∷ ss) = observer s.event_queue s.callback ++ observers ss

  no_observers : (ss : List (Slot C)) → taken ss ≡ 0 → observers ss ≡ []
  no_observers [] e = refl
  no_observers (s ∷ ss) e = ground (arith, no_observers ss)

  module _ {S : Type 0} (add : ℕ → C → S → ErrorType × S) where
    -- Add the event to each observer's queue in turn. The error is that of the last addition.
    abbrev pub deliver : List (ℕ × C) → ErrorType × S → ErrorType × S
    deliver [] r = r
    deliver ((q, callback) ∷ os) r = deliver os (add q callback r.1)

    slot_step :
        (q : Option ℕ) (callback : Option C) (os : List (ℕ × C)) (r : ErrorType × S)
        → deliver os (emit_slot add q callback r) ≡ deliver (observer q callback ++ os) r
    slot_step none callback os r = refl
    slot_step (some q) none os r = refl
    slot_step (some q) (some callback) os r = refl

    emit_slots-deliver :
        (ss : List (Slot C)) (r : ErrorType × S) → emit_slots add ss r ≡ deliver (observers ss) r
    unfolding emit_slots
    emit_slots-deliver [] r = refl
    emit_slots-deliver (s ∷ ss) r =
        emit_slots-deliver ss (emit_slot add s.event_queue s.callback r)
        ∙ slot_step s.event_queue s.callback (observers ss) r

    -- `emit` adds one event for each observer, in the order of the slots, and returns the result of
    -- the last addition; without observers it adds none and returns `NoData`.
    pub emit-deliver :
        (s : Signal C) (state : S)
        → IsValid s
        → emit add s state ≡ deliver (observers s.slots) (no_data, state)
    unfolding emit
    emit-deliver s state v = elim (Bool-cases (s.current_number_of_observers == 0)) [
      | inl idle ↦ rw (idle, no_observers s.slots (sym v.counted ∙ (==_iff _ 0).0 idle))
      | inr busy ↦ rw busy (emit_slots-deliver s.slots (no_data, state))
    ]
