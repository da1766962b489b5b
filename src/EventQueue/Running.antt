-- ===== src/EventQueue/Running.antt =====
-- Applications/Event/EventQueue.cpp: what `runNextEvent` does to the events that wait.
use abstraction_layer.Prelude.{
  ℕ, suc, ◌+◌, ◌%◌, ◌≡◌, ap, ap₂, sym, ◌∙◌, none, List, [], ◌∷◌, arith, dec32, length, get_or, set,
  length-set, lt→ltb,
}
use abstraction_layer.Ring.{
  length-window, window-pop, offset_cases, offset-ne, next_index, next_index-lt, next_index-offset,
}
use abstraction_layer.EventQueue.{
  EventQueue, Event, CurrentThread, Block, LoopMode, max_size, run_event, run_first,
  wait_if_blocking, run_next_event,
}
use abstraction_layer.EventQueue.Laws.{IsValid, pending}

module _ {W : Type 0} where
  -- The queue after the oldest event has run.
  abbrev pub popped : EventQueue W → W → EventQueue W
  popped q w = (run_first q w).1

  dec-claimed :
      (q : EventQueue W) (c : ℕ) → IsValid q → q.events_claimed ≡ suc c → dec32 q.events_claimed ≡ c
  dec-claimed q c v e = omega (arith, v.size_fits, v.claimed_in)

  pub pending-popped :
      (q : EventQueue W) (w : W) (c : ℕ)
      → IsValid q
      → q.events_claimed ≡ suc c
      → pending q ≡ get_or q.events q.index_first none ∷ pending (popped q w)
  pending-popped q w c v e =
      window-pop none q.events (max_size q) (max_size (popped q w)) q.index_first q.events_claimed
        (dec32 q.events_claimed) spent (length-set q.events q.index_first spent)
        (e ∙ ap suc (sym (dec-claimed q c v e))) v.first_in v.claimed_in
    where
      spent : Event W
      spent = (run_event (get_or q.events q.index_first none) w).2

  pub popped-IsValid :
      (q : EventQueue W) (w : W) (c : ℕ)
      → IsValid q
      → q.events_claimed ≡ suc c
      → IsValid (popped q w)
  popped-IsValid q w c v e = record {
    size_fits = omega (arith, v.size_fits, sized);
    first_in = omega (arith, v.first_in, sized, next_index-lt (max_size q) q.index_first);
    claimed_in = omega (arith, v.claimed_in, sized, dec-claimed q c v e);
    last_is =
        last
        ∙ ap₂ (λ k n. (next_index (max_size q) q.index_first + k) % n) (sym (dec-claimed q c v e))
            (sym sized);
    ready_is = ground (
      arith,
      dec-claimed q c v e,
      last,
      offset-ne (max_size q) (next_index (max_size q) q.index_first) c,
      offset_cases (max_size q) (next_index (max_size q) q.index_first) c,
      next_index-lt (max_size q) q.index_first v.first_in,
      v.claimed_in,
    );
  }
    where
      spent : Event W
      spent = (run_event (get_or q.events q.index_first none) w).2

      sized : length (set q.events q.index_first spent) ≡ max_size q
      sized = length-set q.events q.index_first spent

      last : q.index_last ≡ (next_index (max_size q) q.index_first + c) % max_size q
      last =
          v.last_is
          ∙ ap (λ k. (q.index_first + k) % max_size q) e
          ∙ sym (
              next_index-offset (max_size q) q.index_first c v.first_in
                (omega (arith, v.claimed_in)))

  some_wait :
      (q : EventQueue W) (event : Event W) (rest : List (Event W))
      → pending q ≡ event ∷ rest
      → q.events_claimed ≡ suc (length rest)
  some_wait q event rest e =
      sym (length-window none (max_size q) q.events q.index_first q.events_claimed) ∙ ap length e

  none_wait : (q : EventQueue W) → pending q ≡ [] → q.events_claimed ≡ 0
  none_wait q e =
      sym (length-window none (max_size q) q.events q.index_first q.events_claimed) ∙ ap length e

  pub run_next_event-run_first :
      (me : CurrentThread) (block : Block W) (mode : LoopMode) (q : EventQueue W) (w : W) (c : ℕ)
      → IsValid q
      → q.events_claimed ≡ suc c
      → run_next_event me block mode q w ≡ run_first q w
  unfolding run_next_event
  run_next_event-run_first me block mode q w c v e =
      rw (v.ready_is, lt→ltb 0 q.events_claimed (omega (arith, e)))

  -- The owner runs the oldest event: it reports that event's result, and the rest still wait.
  pub run_next_event-pending :
      (me : CurrentThread) (block : Block W) (mode : LoopMode) (q : EventQueue W) (w : W)
      (event : Event W) (rest : List (Event W))
      → IsValid q
      → pending q ≡ event ∷ rest
      → let r = run_next_event me block mode q w in
        (r.0 ≡ (run_event event w).1)
        × IsValid r.1
        × (pending r.1 ≡ rest)
        × (r.2 ≡ (run_event event w).0)
  run_next_event-pending me block mode q w event rest v e =
      rw (run_next_event-run_first me block mode q w (length rest) v (some_wait q event rest e)) (
        cc oldest,
        popped-IsValid q w (length rest) v (some_wait q event rest e),
        cc oldest,
        cc oldest,
      )
    where
      oldest : event ∷ rest ≡ get_or q.events q.index_first none ∷ pending (popped q w)
      oldest = sym e ∙ pending-popped q w (length rest) v (some_wait q event rest e)

  -- With no event waiting, polling reports that and changes nothing; blocking waits.
  pub run_next_event_empty :
      (me : CurrentThread) (block : Block W) (mode : LoopMode) (q : EventQueue W) (w : W)
      → IsValid q
      → pending q ≡ []
      → run_next_event me block mode q w ≡ wait_if_blocking mode me block q w
  unfolding run_next_event
  run_next_event_empty me block mode q w v e = rw (v.ready_is, none_wait q e)
