-- ===== src/CommandQueue/Waiting.antt =====
-- Applications/CommandQueue/CommandQueue.hpp: the lists of waiting threads, and `WaitForCommands`
-- on several queues at once. Of each queue it uses `commandsReady` and the list of waiting threads.
use abstraction_layer.Prelude.{
  ℕ, ◌≡◌, ◌≢◌, refl, Bool, true, not, ◌&&◌, Option, none, some, List, [], ◌∷◌, arith, ◌==◌,
  if◌then◌else◌, Bool-cases, Option-cases, inl, inr,
}
use abstraction_layer.Error.{ErrorType, success, limit_reached, no_data, is_success}
use abstraction_layer.EventQueue.{null_id, CurrentThread}

-- Write `new` over the first `old` in the list, if there is one.
abbrev replace_first : ℕ → ℕ → List ℕ → Option (List ℕ)
replace_first old new [] = none
replace_first old new (t ∷ ts) =
    let rest : Option (List ℕ) = elim (replace_first old new ts) [
      | none ↦ none
      | some us ↦ some (t ∷ us)
    ] in
    if t == old then some (new ∷ ts) else rest

abbrev or_unchanged : List ℕ → ErrorType → Option (List ℕ) → ErrorType × List ℕ
or_unchanged ts error none = (error, ts)
or_unchanged ts error (some us) = (success, us)

pub add_to_waiting_list : ℕ → List ℕ → ErrorType × List ℕ
add_to_waiting_list thread ts = or_unchanged ts limit_reached (replace_first null_id thread ts)

pub remove_from_waiting_list : ℕ → List ℕ → ErrorType × List ℕ
remove_from_waiting_list thread ts = or_unchanged ts no_data (replace_first thread null_id ts)

-- What `WaitForCommands` sees of a queue.
pub record Watched : Type 0 where
  pub commands_ready : Bool
  pub waiting_threads : List ℕ

-- `AddToWaitingList`: the queues in order, up to the first that refuses.
pub add_to_all : ℕ → List Watched → ErrorType × List Watched
add_to_all thread [] = (success, [])
add_to_all thread (q ∷ qs) =
    let (error, ts) = add_to_waiting_list thread q.waiting_threads in
    let q' : Watched = record q { waiting_threads = ts } in
    let (error', qs') = add_to_all thread qs in
    if is_success error then (error', q' ∷ qs') else (limit_reached, q' ∷ qs)

pub remove_from_all : ℕ → List Watched → List Watched
remove_from_all thread [] = []
remove_from_all thread (q ∷ qs) =
    record q { waiting_threads = (remove_from_waiting_list thread q.waiting_threads).1 }
    ∷ remove_from_all thread qs

abbrev none_ready : List Watched → Bool
none_ready [] = true
none_ready (q ∷ qs) = not q.commands_ready && none_ready qs

-- `block` is what the operating system returns, with the queues as other threads have left them.
pub wait_for_commands :
    CurrentThread
    → (List Watched → ErrorType × List Watched)
    → List Watched
    → ErrorType × List Watched
wait_for_commands me block qs =
    let (added, qs') = add_to_all me.id qs in
    let (error, qs'') = if is_success added then block qs' else (added, qs') in
    if none_ready qs
    then (if is_success me.error then (error, remove_from_all me.id qs'') else (me.error, qs))
    else (success, qs)

-- The thread is on none of the lists.
abbrev pub NotIn : ℕ → List ℕ → Type 0
NotIn thread [] = Unit {0}
NotIn thread (t ∷ ts) = (t ≢ thread) × NotIn thread ts

abbrev pub NotWaiting : ℕ → List Watched → Type 0
NotWaiting thread [] = Unit {0}
NotWaiting thread (q ∷ qs) = NotIn thread q.waiting_threads × NotWaiting thread qs

remove_absent :
    (thread : ℕ) (ts : List ℕ) → NotIn thread ts → replace_first thread null_id ts ≡ none
remove_absent thread [] h = refl
remove_absent thread (t ∷ ts) h = ground (arith, remove_absent thread ts h.1)

remove_added :
    (thread : ℕ) (ts us : List ℕ)
    → NotIn thread ts
    → replace_first null_id thread ts ≡ some us
    → replace_first thread null_id us ≡ some ts
remove_added thread [] us h e = cc
remove_added thread (t ∷ ts) us h e = elim (Option-cases (replace_first null_id thread ts)) [
  | inl full ↦ ground arith
  | inr (vs, rest) ↦ ground (arith, remove_added thread ts vs h.1 rest)
]

-- Removing a thread undoes adding it, whether there was room or not.
pub remove-add_to_waiting_list :
    (thread : ℕ) (ts : List ℕ)
    → NotIn thread ts
    → (remove_from_waiting_list thread (add_to_waiting_list thread ts).1).1 ≡ ts
unfolding remove_from_waiting_list add_to_waiting_list
remove-add_to_waiting_list thread ts h = elim (Option-cases (replace_first null_id thread ts)) [
  | inl full ↦ rw (full, remove_absent thread ts h)
  | inr (us, added) ↦ rw (added, remove_added thread ts us h added)
]

remove_from_all_absent :
    (thread : ℕ) (qs : List Watched) → NotWaiting thread qs → remove_from_all thread qs ≡ qs
unfolding remove_from_all remove_from_waiting_list
remove_from_all_absent thread [] h = refl
remove_from_all_absent thread (q ∷ qs) h =
    rw (remove_absent thread q.waiting_threads h.0, remove_from_all_absent thread qs h.1)

remove-add_to_all :
    (thread : ℕ) (qs : List Watched)
    → NotWaiting thread qs
    → remove_from_all thread (add_to_all thread qs).1 ≡ qs
unfolding remove_from_all add_to_all
remove-add_to_all thread [] h = refl
remove-add_to_all thread (q ∷ qs) h =
    elim (Bool-cases (is_success (add_to_waiting_list thread q.waiting_threads).0)) [
      | inl added ↦ rw (
        added,
        remove-add_to_waiting_list thread q.waiting_threads h.0,
        remove-add_to_all thread qs h.1,
      )
      | inr full ↦ rw (
        full,
        remove-add_to_waiting_list thread q.waiting_threads h.0,
        remove_from_all_absent thread qs h.1,
      )
    ]

-- If other threads leave the lists alone while the caller is blocked, then `WaitForCommands` leaves
-- every list of waiting threads as it found it, on success and on every error.
pub wait_for_commands_restores :
    (me : CurrentThread) (block : List Watched → ErrorType × List Watched) (qs : List Watched)
    → NotWaiting me.id qs
    → ((ws : List Watched) → (block ws).1 ≡ ws)
    → (wait_for_commands me block qs).1 ≡ qs
unfolding wait_for_commands
wait_for_commands_restores me block qs h quiet =
    ground (arith, remove-add_to_all me.id qs h, quiet (add_to_all me.id qs).1)
