-- ===== src/Signal/Laws.antt =====
-- Applications/SignalsAndSlots/SignalsAndSlots.hpp, `connect` and `disconnect`: the count of observers
-- against the slots that are taken.
use abstraction_layer.Prelude.{
  ℕ, zero, suc, ◌+◌, ◌-◌, ◌≤◌, ◌<◌, ◌≡◌, ◌⊎◌, refl, ap, subst, ◌∙◌, Option, none, some, List, [],
  ◌∷◌, arith, u32, inc32, dec32, length, get_or, set, length-set, get_or-set_self, Option-cases,
  inl, inr, lt→ltb, le→ltb,
}
use abstraction_layer.Error.{success, limit_reached}
use abstraction_layer.Signal.{
  Slot, Signal, max_number_of_observers, null_slot, free_slot, connect, disconnect,
}

abbrev pub is_taken : Option ℕ → ℕ
is_taken none = 0
is_taken (some q) = 1

module _ {C : Type 0} where
  -- The number of slots that hold an observer.
  abbrev pub taken : List (Slot C) → ℕ
  taken [] = 0
  taken (s ∷ ss) = is_taken s.event_queue + taken ss

  pub record IsValid (s : Signal C) : Type 0 where
    pub slots_size : length s.slots ≡ max_number_of_observers
    pub counted : s.current_number_of_observers ≡ taken s.slots

  taken-le : (ss : List (Slot C)) → taken ss ≤ length ss
  taken-le [] = omega arith
  taken-le (s ∷ ss) = ground (arith, taken-le ss)

  taken-set :
      (ss : List (Slot C)) (i : ℕ) (s : Slot C)
      → i < length ss
      → taken (set ss i s) + is_taken (get_or ss i null_slot).event_queue
        ≡ taken ss + is_taken s.event_queue
  taken-set [] i s h = absurd (omega arith)
  taken-set (x ∷ ss) zero s h = omega arith
  taken-set (x ∷ ss) (suc i) s h = omega (arith, taken-set ss i s (omega arith))

  -- A slot with no event queue, and so fewer observers than slots.
  abbrev pub IsFree : List (Slot C) → ℕ → Type 0
  IsFree ss i =
      (i < length ss) × ((get_or ss i null_slot).event_queue ≡ none) × (taken ss < length ss)

  free_slot-some : (ss : List (Slot C)) (i : ℕ) → free_slot ss ≡ some i → IsFree ss i
  unfolding free_slot
  free_slot-some [] i e = absurd (cc)
  free_slot-some (s ∷ ss) i e = elim (Option-cases s.event_queue) [
    | inl free ↦
        subst (IsFree (s ∷ ss)) {x = 0} (ground (arith, free))
          (omega arith, free, ground (arith, taken-le ss, free))
    | inr (q, held) ↦ elim (Option-cases (free_slot ss)) [
      | inl full ↦ absurd (ground (arith, held, full))
      | inr (k, found) ↦
          let (inside, free, room) = free_slot-some ss k found in
          subst (IsFree (s ∷ ss)) {x = suc k} (ground (arith, held, found))
            (omega (arith, inside), free, ground (arith, held, room))
    ]
  ]

  free_slot-none : (ss : List (Slot C)) → free_slot ss ≡ none → taken ss ≡ length ss
  unfolding free_slot
  free_slot-none [] e = refl
  free_slot-none (s ∷ ss) e = elim (Option-cases (free_slot ss)) [
    | inl full ↦ ground (arith, free_slot-none ss full)
    | inr (i, found) ↦ ground (arith, found)
  ]

  -- The signal with an observer in slot `i`.
  abbrev pub connected : Signal C → ℕ → ℕ → Option C → Signal C
  connected s i event_queue callback = record {
    current_number_of_observers = inc32 s.current_number_of_observers;
    slots = set s.slots i (record { event_queue = some event_queue; callback = callback });
  }

  -- `connect` is refused only when all 16 slots are taken, and then changes nothing. Otherwise the
  -- observer gets a slot that was free, whose index is the handle, and the count stays right.
  pub connect_cases :
      (s : Signal C) (event_queue : ℕ) (callback : Option C)
      → IsValid s
      → ((taken s.slots ≡ max_number_of_observers)
          × (connect event_queue callback s ≡ (limit_reached, none, s)))
        ⊎ ((i : ℕ) × IsFree s.slots i
            × (connect event_queue callback s
                ≡ (success, some i, connected s i event_queue callback))
            × IsValid (connected s i event_queue callback))
  unfolding connect
  connect_cases s event_queue callback v = elim (Option-cases (free_slot s.slots)) [
    | inl full ↦ inl (free_slot-none s.slots full ∙ v.slots_size, rw (full, connect))
    | inr (i, found) ↦ inr (
      i,
      free_slot-some s.slots i found,
      let few = lt→ltb s.current_number_of_observers max_number_of_observers (room i found) in
          rw (found, few, connect),
      taken-connected i found,
    )
  ]
    where
      room :
          (i : ℕ)
          → free_slot s.slots ≡ some i
          → s.current_number_of_observers < max_number_of_observers
      room i found = omega (arith, (free_slot-some s.slots i found).2, v.slots_size, v.counted)

      observer : Slot C
      observer = record { event_queue = some event_queue; callback = callback }

      taken-connected :
          (i : ℕ) → free_slot s.slots ≡ some i → IsValid (connected s i event_queue callback)
      taken-connected i found =
          let (inside, free, _) = free_slot-some s.slots i found in
          record {
            slots_size = length-set s.slots i observer ∙ v.slots_size;
            counted = omega (
              arith,
              v.counted,
              room i found,
              ap is_taken free,
              taken-set s.slots i observer inside,
            );
          }

  abbrev freed : Signal C → ℕ → Signal C
  freed s handle = record {
    current_number_of_observers = dec32 s.current_number_of_observers;
    slots = set s.slots handle null_slot;
  }

  disconnect-freed :
      (s : Signal C) (handle : ℕ)
      → handle < length s.slots
      → disconnect handle s ≡ (success, freed s handle)
  unfolding disconnect
  disconnect-freed s handle h = rw (lt→ltb handle (length s.slots) h)

  -- With 16 observers counted or more, `connect` is refused and changes nothing.
  connect_refused :
      (s : Signal C) (event_queue : ℕ) (callback : Option C)
      → max_number_of_observers ≤ s.current_number_of_observers
      → s.current_number_of_observers < u32
      → connect event_queue callback s ≡ (limit_reached, none, s)
  unfolding connect
  connect_refused s event_queue callback many word = elim (Option-cases (free_slot s.slots)) [
    | inl full ↦ rw (full, connect)
    | inr (i, found) ↦
        rw (found, le→ltb s.current_number_of_observers max_number_of_observers many, back, connect)
  ]
    where
      back : dec32 (inc32 s.current_number_of_observers) ≡ s.current_number_of_observers
      back = omega arith

  -- Disconnecting the observer in slot `handle` frees that slot, and the count stays right.
  pub disconnect-IsValid :
      (s : Signal C) (handle q : ℕ)
      → IsValid s
      → handle < max_number_of_observers
      → (get_or s.slots handle null_slot).event_queue ≡ some q
      → let r = disconnect handle s in
        (r.0 ≡ success)
        × IsValid r.1
        × (get_or r.1.slots handle null_slot ≡ null_slot)
        × (taken r.1.slots + 1 ≡ taken s.slots)
  disconnect-IsValid s handle q v h held = rw (disconnect-freed s handle inside) (
    refl,
    record {
      slots_size = length-set s.slots handle null_slot ∙ v.slots_size;
      counted = omega (arith, v.counted, fewer, taken-le s.slots, v.slots_size);
    },
    get_or-set_self s.slots handle null_slot null_slot inside,
    fewer,
  )
    where
      inside : handle < length s.slots
      inside = omega (arith, v.slots_size)

      fewer : taken (set s.slots handle null_slot) + 1 ≡ taken s.slots
      fewer = omega (arith, ap is_taken held, taken-set s.slots handle null_slot inside)

  -- Disconnecting a handle while no observer is connected takes the count below zero: from then on
  -- every `connect` is refused and changes nothing, although all 16 slots are free.
  pub disconnect_underflow :
      (s : Signal C) (handle event_queue : ℕ) (callback : Option C)
      → IsValid s
      → taken s.slots ≡ 0
      → handle < max_number_of_observers
      → let s' = (disconnect handle s).1 in
        (s'.current_number_of_observers ≡ u32 - 1)
        × (taken s'.slots ≡ 0)
        × (connect event_queue callback s' ≡ (limit_reached, none, s'))
  disconnect_underflow s handle event_queue callback v idle h =
      rw (disconnect-freed s handle inside) (
        below,
        omega (arith, idle, taken-set s.slots handle null_slot inside),
        connect_refused (freed s handle) event_queue callback (omega (arith, below))
            (omega (arith, below)),
      )
    where
      inside : handle < length s.slots
      inside = omega (arith, v.slots_size)

      below : dec32 s.current_number_of_observers ≡ u32 - 1
      below = omega (arith, v.counted, idle)
