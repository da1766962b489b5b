-- ===== src/EventQueue/Examples.antt =====
-- Applications/Event: the theorems on small queues, and runs.
use abstraction_layer.Prelude.{
  ℕ, ◌+◌, ◌-◌, ◌<◌, ◌≡◌, refl, true, none, some, [], ◌∷◌, ◌++◌, map, arith, u32,
}
use abstraction_layer.Error.{success, failure, limit_reached, no_data}
use abstraction_layer.Ring.{window}
use abstraction_layer.EventQueue.{
  EventQueue, Event, CurrentThread, Block, LoopMode, max_size, add_event, wait_for_events,
  run_next_event, to_unblock,
}
use abstraction_layer.EventQueue.Laws.{IsValid, pending, add_event-pending}
use abstraction_layer.EventQueue.Running.{run_next_event-pending}
use abstraction_layer.EventQueue.Waiting.{wait_for_events_restores}
use abstraction_layer.EventQueue.Fifo.{
  put, poll, run_calls, spec_calls, Implements, run_calls-spec_calls,
}
use abstraction_layer.EventQueue.Interleaving.{System, loads_claimed, tests_ready, by_producer, run}
use abstraction_layer.EventQueue.Interleaving.Claims.{claims_bounded}
use abstraction_layer.EventQueue.Interleaving.Races.{
  claims_past_size, overtaken_underflows, two_producers, idle, overtaken,
}

abbrev owner : CurrentThread
owner = record { error = success; id = 7 }

abbrev other : CurrentThread
other = record { error = success; id = 9 }

abbrev add_one : Event ℕ
add_one = some (λ w. (w + 1, success))

abbrev fail : Event ℕ
fail = some (λ w. (w, failure))

abbrev two_slots : EventQueue ℕ
two_slots = record {
  events = none ∷ add_one ∷ [];
  index_first = 1;
  index_last = 0;
  events_claimed = 1;
  owner_thread_id = 7;
  events_ready = true;
  add_event_optimizations_enabled = true;
  waiting_threads = 0 ∷ 5 ∷ [];
}

abbrev no_wait : Block ℕ
no_wait q w = (success, q, w)

two_slots-IsValid : IsValid two_slots
two_slots-IsValid = record {
  size_fits = omega arith;
  first_in = omega arith;
  claimed_in = omega arith;
  last_is = refl;
  ready_is = refl;
}

run_calls-spec_calls_example :
    let cs = put other fail ∷ put other add_one ∷ poll ∷ poll ∷ poll ∷ [] in
    Implements owner no_wait
      (run_calls owner no_wait two_slots 3 cs)
      (spec_calls (max_size two_slots) (pending two_slots) 3 cs)
run_calls-spec_calls_example =
    run_calls-spec_calls owner no_wait two_slots 3
      (put other fail ∷ put other add_one ∷ poll ∷ poll ∷ poll ∷ []) two_slots-IsValid (omega arith)
      (omega arith)

run_calls_errors :
    (run_calls owner no_wait two_slots 3
      (put other fail ∷ put other add_one ∷ poll ∷ poll ∷ poll ∷ [])).errors
    ≡ success ∷ limit_reached ∷ success ∷ failure ∷ no_data ∷ []
unfolding run_calls add_event run_next_event to_unblock
run_calls_errors = refl

add_event-pending_test :
    let r = add_event other two_slots fail 3 in
    (r.error ≡ success)
    × IsValid r.queue
    × (pending r.queue ≡ pending two_slots ++ fail ∷ [])
    × (r.world ≡ 3)
    × (r.unblocked ≡ to_unblock (0 ∷ 5 ∷ []))
add_event-pending_test =
    add_event-pending other two_slots fail 3 two_slots-IsValid (refl, omega arith, omega arith)
      (omega arith)

run_next_event-pending_test :
    let r = run_next_event owner no_wait LoopMode.blocking two_slots 3 in
    (r.0 ≡ success) × IsValid r.1 × (pending r.1 ≡ []) × (r.2 ≡ 4)
unfolding window
run_next_event-pending_test =
    run_next_event-pending owner no_wait LoopMode.blocking two_slots 3 add_one [] two_slots-IsValid
      refl

wait_for_events_restores_test :
    (wait_for_events owner no_wait two_slots 3).1.waiting_threads ≡ 0 ∷ 5 ∷ []
wait_for_events_restores_test = wait_for_events_restores owner no_wait two_slots 3 (λ q w. refl)

abbrev three_producers : System
three_producers = record {
  shared = record {
    events = none ∷ none ∷ [];
    index_first = 0;
    index_last = 0;
    events_claimed = 1;
    events_ready = true;
  };
  producers = loads_claimed 1 ∷ loads_claimed 2 ∷ loads_claimed 3 ∷ [];
  consumer = tests_ready;
  ran = [];
}

claims_bounded_example :
    (run three_producers (map by_producer (0 ∷ 1 ∷ 2 ∷ 0 ∷ 1 ∷ 2 ∷ []))).shared.events_claimed
    < 2 + 3
claims_bounded_example =
    claims_bounded three_producers (0 ∷ 1 ∷ 2 ∷ 0 ∷ 1 ∷ 2 ∷ []) refl (omega arith) (omega arith)

claims_bounded_tight :
    (run three_producers (map by_producer (0 ∷ 1 ∷ 2 ∷ 0 ∷ 1 ∷ 2 ∷ []))).shared.events_claimed ≡ 4
unfolding run
claims_bounded_tight = refl

claims_past_size_test :
    (run
      (two_producers three_producers.shared 1 2)
      (by_producer 0 ∷ by_producer 1 ∷ by_producer 0 ∷ by_producer 1 ∷ [])).shared.events_claimed
    ≡ 3
claims_past_size_test = claims_past_size three_producers.shared 1 2 refl (omega arith)

overtaken_underflows_test :
    let s = run (idle [] 1 2) overtaken in
    (s.shared.events_claimed ≡ u32 - 1) × (s.ran ≡ none ∷ some 2 ∷ none ∷ [])
overtaken_underflows_test = overtaken_underflows [] 1 2
