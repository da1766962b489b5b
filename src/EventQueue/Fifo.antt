-- ===== src/EventQueue/Fifo.antt =====
-- Applications/Event: the queue against a bounded first-in first-out list of events. Other threads
-- add events and the owner polls, in any order of whole calls.
use abstraction_layer.Prelude.{
  ℕ, ◌≡◌, ◌≢◌, inl, inr, refl, ap, subst₂, none, List, [], ◌∷◌, ◌++◌, arith, ltb, if◌then◌else◌,
  length, ==_ne, Bool-cases, ltb→lt, length-set, ℕ-cases,
}
use abstraction_layer.Error.{ErrorType, success, limit_reached, no_data}
use abstraction_layer.Ring.{window, length-window}
use abstraction_layer.EventQueue.{
  EventQueue, Event, CurrentThread, Block, LoopMode, null_id, max_size, run_event, run_first,
  add_event, run_next_event,
}
use abstraction_layer.EventQueue.Laws.{
  IsValid, pending, Queues, appended, appended-IsValid, pending-appended, add_event-queue_event,
}
use abstraction_layer.EventQueue.Running.{
  popped, popped-IsValid, pending-popped, run_next_event-run_first, run_next_event_empty,
}

-- A thread adds an event, or the owner polls.
pub data Call (W : Type 0) : Type 0 where
  put : CurrentThread → Event W → Call W
  poll : Call W

-- The errors that the calls return, the queue, and the rest of the program.
pub record Run (Q W : Type 0) : Type 0 where
  pub errors : List ErrorType
  pub queue : Q
  pub world : W

abbrev after : {Q W : Type 0} → ErrorType → Run Q W → Run Q W
after e r = record r { errors = e ∷ r.errors }

module _ {W : Type 0} (owner : CurrentThread) (block : Block W) where
  unfoldable pub run_calls : EventQueue W → W → List (Call W) → Run (EventQueue W) W
  run_calls q w [] = record { errors = []; queue = q; world = w }
  run_calls q w (put me event ∷ cs) =
      let r = add_event me q event w in after r.error (run_calls r.queue r.world cs)
  run_calls q w (poll ∷ cs) =
      let (error, q', w') = run_next_event owner block LoopMode.polling q w in
      after error (run_calls q' w' cs)

module _ {W : Type 0} (bound : ℕ) where
  -- The specification: a list of at most `bound` events.
  pub spec_calls : List (Event W) → W → List (Call W) → Run (List (Event W)) W
  spec_calls es w [] = record { errors = []; queue = es; world = w }
  spec_calls es w (put me event ∷ cs) =
      let taken = after success (spec_calls (es ++ event ∷ []) w cs) in
      let refused = after limit_reached (spec_calls es w cs) in
      if ltb (length es) bound then taken else refused
  spec_calls [] w (poll ∷ cs) = after no_data (spec_calls [] w cs)
  spec_calls (e ∷ es) w (poll ∷ cs) = after (run_event e w).1 (spec_calls es (run_event e w).0 cs)

-- Every event is added by a known thread other than the owner.
abbrev pub AllForeign : {W : Type 0} → ℕ → List (Call W) → Type 0
AllForeign owner [] = Unit {0}
AllForeign owner (put me event ∷ cs) = (owner ≢ me.id) × (me.id ≢ null_id) × AllForeign owner cs
AllForeign owner (poll ∷ cs) = AllForeign owner cs

module _ {W : Type 0} (owner : CurrentThread) (block : Block W) where
  abbrev pub Implements : Run (EventQueue W) W → Run (List (Event W)) W → Type 0
  Implements r s =
      (r.errors ≡ s.errors) × (pending r.queue ≡ s.queue) × (r.world ≡ s.world) × IsValid r.queue

  after-Implements :
      (e : ErrorType) {r : Run (EventQueue W) W} {s : Run (List (Event W)) W}
      → Implements r s
      → Implements (after e r) (after e s)
  after-Implements e h = (ap (◌∷◌ e) h.0, h.1, h.2, h.3)

  -- The statement at another queue, with its size and its events given by equations.
  moved :
      (q : EventQueue W) (n : ℕ) (es : List (Event W)) (w : W) (cs : List (Call W))
      → max_size q ≡ n
      → pending q ≡ es
      → Implements (run_calls owner block q w cs) (spec_calls (max_size q) (pending q) w cs)
      → Implements (run_calls owner block q w cs) (spec_calls n es w cs)
  moved q n es w cs size events =
      subst₂ (λ m ps. Implements (run_calls owner block q w cs) (spec_calls m ps w cs)) size events

  waits : (q : EventQueue W) → length (pending q) ≡ q.events_claimed
  waits q = length-window none (max_size q) q.events q.index_first q.events_claimed

  queues :
      (q : EventQueue W) (me : CurrentThread) {P : Type 0}
      → (q.owner_thread_id ≢ me.id) × (me.id ≢ null_id) × P
      → q.owner_thread_id ≢ null_id
      → Queues me q
  queues q me (other, here, _) known =
      (ground (arith, ==_ne q.owner_thread_id me.id other), here, known)

  empty : (q : EventQueue W) → q.events_claimed ≡ 0 → pending q ≡ []
  unfolding window
  empty q e = ap (window none (max_size q) q.events q.index_first) e

  -- From any well-formed queue, every sequence of calls returns what the bounded list returns, leaves
  -- the same events in the same order, and has the same effect on the program.
  pub run_calls-spec_calls :
      (q : EventQueue W) (w : W) (cs : List (Call W))
      → IsValid q
      → q.owner_thread_id ≢ null_id
      → AllForeign q.owner_thread_id cs
      → Implements (run_calls owner block q w cs) (spec_calls (max_size q) (pending q) w cs)
  unfolding run_calls spec_calls
  run_calls-spec_calls q w [] v known foreign = (refl, refl, refl, v)
  run_calls-spec_calls q w (put me event ∷ cs) v known foreign =
      elim (Bool-cases (ltb q.events_claimed (max_size q))) [
        | inl room ↦
            rw (add_event-queue_event me q event w (queues q me foreign known), waits q, room)
              (after-Implements success (
                moved (appended q event) (max_size q) (pending q ++ event ∷ []) w cs
                  (length-set q.events q.index_last event)
                  (pending-appended q event v (ltb→lt _ _ room))
                  (run_calls-spec_calls (appended q event) w cs
                    (appended-IsValid q event v (ltb→lt _ _ room)) known foreign.2)))
        | inr full ↦
            rw (add_event-queue_event me q event w (queues q me foreign known), waits q, full)
              (after-Implements limit_reached (run_calls-spec_calls q w cs v known foreign.2))
      ]
  run_calls-spec_calls q w (poll ∷ cs) v known foreign = elim (ℕ-cases q.events_claimed) [
    | inl idle ↦
        rw (run_next_event_empty owner block LoopMode.polling q w v (empty q idle), empty q idle)
          (after-Implements no_data (
            moved q (max_size q) [] w cs refl (empty q idle)
              (run_calls-spec_calls q w cs v known foreign)))
    | inr (c, some_left) ↦
        rw
          (
            run_next_event-run_first owner block LoopMode.polling q w c v some_left,
            pending-popped q w c v some_left,
          )
          (after-Implements (run_first q w).0 (
            moved (popped q w) (max_size q) (pending (popped q w)) (run_first q w).2 cs
              (length-set q.events q.index_first _) refl
              (run_calls-spec_calls (popped q w) (run_first q w).2 cs
                (popped-IsValid q w c v some_left) known foreign)))
  ]
