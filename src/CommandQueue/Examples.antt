-- ===== src/CommandQueue/Examples.antt =====
-- Applications/CommandQueue: the theorems on small queues, and runs.
use abstraction_layer.Prelude.{ℕ, ◌≡◌, refl, true, false, none, some, [], ◌∷◌, ◌++◌, arith}
use abstraction_layer.Error.{success, limit_reached, no_data}
use abstraction_layer.Ring.{window}
use abstraction_layer.EventQueue.{CurrentThread, to_unblock}
use abstraction_layer.CommandQueue.{CommandQueue, add_to_queue, get_next_in_queue, move_first}
use abstraction_layer.CommandQueue.Laws.{
  IsValid, pending, add_to_queue-pending, get_next_in_queue-pending,
}
use abstraction_layer.CommandQueue.Full.{add, get, call, run, refusals, full_forever}
use abstraction_layer.CommandQueue.Waiting.{
  Watched, add_to_waiting_list, remove_from_waiting_list, wait_for_commands,
  remove-add_to_waiting_list, wait_for_commands_restores,
}

abbrev one_of_three : CommandQueue ℕ
one_of_three = record {
  commands = 0 ∷ 0 ∷ 4 ∷ [];
  index_first = 2;
  index_last = 0;
  commands_claimed = 1;
  commands_ready = true;
  waiting_threads = 0 ∷ 6 ∷ [];
}

abbrev full_queue : CommandQueue ℕ
full_queue = record {
  commands = 8 ∷ 9 ∷ [];
  index_first = 1;
  index_last = 1;
  commands_claimed = 2;
  commands_ready = true;
  waiting_threads = [];
}

one_of_three-IsValid : IsValid one_of_three
one_of_three-IsValid = record {
  size_fits = omega arith;
  first_in = omega arith;
  claimed_in = omega arith;
  last_is = refl;
  ready_is = λ _ _. refl;
}

full_queue-IsValid : IsValid full_queue
full_queue-IsValid = record {
  size_fits = omega arith;
  first_in = omega arith;
  claimed_in = omega arith;
  last_is = refl;
  ready_is = λ _ _. refl;
}

add_to_queue-pending_test :
    let r = add_to_queue one_of_three 5 in
    (r.0 ≡ success)
    × IsValid r.1
    × (pending 0 r.1 ≡ pending 0 one_of_three ++ 5 ∷ [])
    × (r.2 ≡ to_unblock (0 ∷ 6 ∷ []))
add_to_queue-pending_test = add_to_queue-pending 0 one_of_three 5 one_of_three-IsValid (omega arith)

get_next_in_queue-pending_example :
    let r = get_next_in_queue 0 2 one_of_three in
    (r.0 ≡ success) × (r.1 ≡ some 4) × IsValid r.2 × (pending 0 r.2 ≡ [])
unfolding window
get_next_in_queue-pending_example =
    get_next_in_queue-pending 0 2 one_of_three 4 [] one_of_three-IsValid refl (omega arith)

full_forever_example :
    run 0 full_queue (get 0 ∷ add 7 ∷ get 1 ∷ []) ≡ refusals 0 (get 0 ∷ add 7 ∷ get 1 ∷ [])
full_forever_example =
    full_forever 0 full_queue (get 0 ∷ add 7 ∷ get 1 ∷ []) full_queue-IsValid refl

full_after_adds :
    run 0 one_of_three (add 5 ∷ add 6 ∷ add 7 ∷ get 0 ∷ [])
    ≡ (success, none) ∷ (success, none) ∷ (limit_reached, none) ∷ (no_data, none) ∷ []
unfolding run call add_to_queue get_next_in_queue move_first
full_after_adds = refl

remove-add_to_waiting_list_test :
    (remove_from_waiting_list 3 (add_to_waiting_list 3 (6 ∷ 0 ∷ 0 ∷ [])).1).1 ≡ 6 ∷ 0 ∷ 0 ∷ []
remove-add_to_waiting_list_test =
    remove-add_to_waiting_list 3 (6 ∷ 0 ∷ 0 ∷ []) (omega arith, (omega arith, (omega arith, _)))

abbrev main_thread : CurrentThread
main_thread = record { error = success; id = 3 }

abbrev idle_queue : Watched
idle_queue = record { commands_ready = false; waiting_threads = 0 ∷ 6 ∷ [] }

wait_for_commands_restores_test :
    (wait_for_commands main_thread (λ qs. (success, qs)) (idle_queue ∷ idle_queue ∷ [])).1
    ≡ idle_queue ∷ idle_queue ∷ []
wait_for_commands_restores_test =
    wait_for_commands_restores main_thread (λ qs. (success, qs)) (idle_queue ∷ idle_queue ∷ [])
      ((omega arith, (omega arith, _)), ((omega arith, (omega arith, _)), _)) (λ ws. refl)
