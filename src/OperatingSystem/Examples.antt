-- ===== src/OperatingSystem/Examples.antt =====
-- Modules/OperatingSystem/Linux: the theorems on a table of three threads.
use abstraction_layer.Prelude.{
  ℕ, zero, suc, ◌≡◌, refl, true, false, none, some, List, [], ◌∷◌, replicate, arith,
}
use abstraction_layer.Error.{success, negative}
use abstraction_layer.OperatingSystem.{
  OperatingSystem, ThreadStatus, pos, new_thread, thread_id, delete_thread, create_thread,
  is_deleted,
}
use abstraction_layer.OperatingSystem.Names.{
  IsFresh, created, create_thread_found, create_thread_again,
}
use abstraction_layer.OperatingSystem.Wakeups.{blocks, unblocks, awake, asleep, spec_thread}
use abstraction_layer.OperatingSystem.Waiting.{
  Wait, Place, Step, caller, unblocked, run_steps, step, waits, run_steps-waits,
}
use abstraction_layer.OperatingSystem.Timers.{Timer, delete_timer, stop_timer, timers_never_end}

-- The threads "a", which has been deleted, and "b".
abbrev two_threads : OperatingSystem
two_threads = record {
  threads =
      record {
        name = 97 ∷ 0 ∷ [];
        thread_id = 1;
        block_count = pos 0;
        status = ThreadStatus.terminated;
      }
      ∷ new_thread (98 ∷ 0 ∷ []) 2
      ∷ record {
        name = 0 ∷ 0 ∷ [];
        thread_id = 0;
        block_count = pos 0;
        status = ThreadStatus.unknown;
      }
      ∷ [];
  next_thread_id = 3;
  thread_count = 3;
}

abbrev name_a : List ℕ
name_a = 97 ∷ 0 ∷ []

abbrev name_c : List ℕ
name_c = 99 ∷ 0 ∷ []

third_is_fresh : IsFresh name_c two_threads (omega arith)
third_is_fresh zero h = refl
third_is_fresh (suc zero) h = refl
third_is_fresh (suc (suc zero)) h = refl
third_is_fresh (suc (suc (suc j))) h = absurd (omega (arith, h))

create_thread_found_test :
    let os' = created name_c two_threads in
    (create_thread name_c success two_threads ≡ some (success, some 3, os'))
    × (thread_id name_c os' ≡ (success, some 3))
    × (is_deleted name_c os' ≡ negative)
    × (is_deleted name_c (delete_thread name_c os').1 ≡ success)
create_thread_found_test = create_thread_found name_c two_threads (omega arith) third_is_fresh

create_thread_again_test :
    let os' = created name_a two_threads in
    (create_thread name_a success two_threads ≡ some (success, some 3, os'))
    × (thread_id name_a os' ≡ (success, some 1))
    × (is_deleted name_a os' ≡ success)
create_thread_again_test =
    create_thread_again name_a two_threads (omega arith) 0 (omega arith) refl refl
      (λ k h. absurd (omega (arith, h)))

sleeps_at_last : spec_thread (awake 0) (unblocks ∷ unblocks ∷ blocks ∷ blocks ∷ []) ≡ asleep
sleeps_at_last = refl

abbrev first_timer : Timer
first_timer = record { posix_id = 70; id = 0; auto_reload = true; period = 2000 }

abbrev second_timer : Timer
second_timer = record { posix_id = 71; id = 1; auto_reload = true; period = 3000 }

timers_never_end_test :
    (delete_timer 1000 1 (first_timer ∷ second_timer ∷ []) ≡ none)
    × (stop_timer (λ round. true) 1000 1 (first_timer ∷ second_timer ∷ []) ≡ none)
timers_never_end_test =
    timers_never_end (λ round. true) 1000 1 first_timer (second_timer ∷ []) (omega arith)

abbrev at_test : Wait
at_test = record { thread = new_thread (97 ∷ []) 1; place = Place.testing; is_done = false }

run_steps-waits_test :
    (let w = run_steps at_test (replicate 3 Step.caller) in
      (w.is_done ≡ false) × (waits w.place w.thread ≡ true))
run_steps-waits_test = run_steps-waits at_test 3 refl refl

-- An `unblock` that belongs to an earlier call ends the loop before the callback has run.
late_unblock :
    (let w = run_steps at_test (caller ∷ caller ∷ unblocked ∷ caller ∷ []) in
      (w.place ≡ Place.returned) × (w.is_done ≡ false))
unfolding run_steps step
late_unblock = (refl, refl)
