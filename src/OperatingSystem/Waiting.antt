-- ===== src/OperatingSystem/Waiting.antt =====
-- The loop that every blocking call of the modules ends with, as in FileSystemModule.cpp:
-- `while (!done && LimitReached == block())`, with the callback that sets the flag and calls `unblock`.
use abstraction_layer.Prelude.{
  ℕ, zero, suc, ◌+◌, ◌≡◌, Bool, true, false, Option, none, some, List, [], ◌∷◌, replicate, arith,
  if◌then◌else◌,
}
use abstraction_layer.Error.{ErrorType, limit_reached}
use abstraction_layer.OperatingSystem.{
  Thread, ThreadStatus, ℤ, pos, negsuc, is_blocked, is_natural, fall_asleep, wake,
}
use abstraction_layer.OperatingSystem.Wakeups.{CountFits}

-- Where the caller is: at the test of the flag, at the call of `block`, asleep in it, or behind the loop.
pub data Place : Type 0 where
  testing blocking sleeping returned : Place

pub record Wait : Type 0 where
  pub thread : Thread
  pub place : Place
  pub is_done : Bool

-- The next thing that happens: a step of the caller, the callback's `done = true`, or an `unblock` of
-- the caller's thread, by the callback or by somebody else.
pub data Step : Type 0 where
  caller finished unblocked : Step

-- `LimitReached == block()`; a thread that was asleep returns `Success`.
abbrev pub after_block : Thread × Option ErrorType → Wait → Wait
after_block (t, none) w = record w { thread = t; place = Place.sleeping }
after_block (t, some limit_reached) w = record w { thread = t; place = Place.testing }
after_block (t, some _) w = record w { thread = t; place = Place.returned }

abbrev pub go_on : Place → Wait → Wait
go_on Place.testing w = record w { place = if w.is_done then Place.returned else Place.blocking }
go_on Place.blocking w = after_block (fall_asleep w.thread) w
go_on Place.sleeping w = record w {
  place = if is_blocked w.thread.status then Place.sleeping else Place.returned;
}
go_on Place.returned w = w

unfoldable pub step : Wait → Step → Wait
step w Step.caller = go_on w.place w
step w Step.finished = record w { is_done = true }
step w Step.unblocked = record w { thread = (wake w.thread).0 }

unfoldable pub run_steps : Wait → List Step → Wait
unfolding step
run_steps w [] = w
run_steps w (s ∷ steps) = run_steps (step w s) steps

-- How many of the steps are the caller's.
abbrev pub is_caller : Step → ℕ
is_caller Step.caller = 1
is_caller _ = 0

abbrev pub callers : List Step → ℕ
callers [] = 0
callers (s ∷ steps) = is_caller s + callers steps

-- Only a caller that sleeps is blocked, and the count fits.
abbrev pub Fits : Place → Thread → Type 0
Fits Place.sleeping t = CountFits (is_blocked t.status) t.block_count
Fits _ t = (is_blocked t.status ≡ false) × CountFits false t.block_count

-- Still in the loop, and asleep only if blocked.
abbrev pub waits : Place → Thread → Bool
waits Place.sleeping t = is_blocked t.status
waits Place.returned t = false
waits _ t = true

-- What holds once the flag is set: the caller does not fall asleep any more.
abbrev Ready : Place → Thread → Type 0
Ready Place.blocking t = (is_natural t.block_count ≡ false) × (is_blocked t.status ≡ false)
Ready Place.sleeping t = is_blocked t.status ≡ false
Ready _ t = Unit

-- The steps that the caller still takes then.
abbrev steps_left : Place → ℕ
steps_left Place.testing = 1
steps_left Place.blocking = 2
steps_left Place.sleeping = 1
steps_left Place.returned = 0

module _ (name : List ℕ) (id : ℕ) where
  abbrev thread_of : ℤ → ThreadStatus → Thread
  thread_of n status = record { name = name; thread_id = id; block_count = n; status = status }

  go_on-waits :
      (p : Place) (n : ℤ) (status : ThreadStatus) (d : Bool)
      → d ≡ false
      → waits p (thread_of n status) ≡ true
      → (let w = go_on p (record { thread = thread_of n status; place = p; is_done = d }) in
          (w.is_done ≡ false) × (waits w.place w.thread ≡ true))
  go_on-waits Place.testing n status d idle h = (grind arith, grind arith)
  go_on-waits Place.blocking (pos n) status d idle h = (grind arith, grind arith)
  go_on-waits Place.blocking (negsuc n) status d idle h = (grind arith, grind arith)
  go_on-waits Place.sleeping n status d idle h = (grind arith, grind arith)
  go_on-waits Place.returned n status d idle h = (grind arith, grind arith)

abbrev Served : Wait → Type 0
Served w = (w.is_done ≡ true) × Ready w.place w.thread

-- As long as the flag is not set and nobody unblocks the thread, the caller stays in the loop, however
-- many steps it takes, and whatever wake-ups it has in hand: when it is at the test of the flag or at
-- the call of `block`, or asleep and blocked, it is at one of these places after any number of its own
-- steps.
pub run_steps-waits :
    (w : Wait) (n : ℕ)
    → w.is_done ≡ false
    → waits w.place w.thread ≡ true
    → (let w' = run_steps w (replicate n Step.caller) in
        (w'.is_done ≡ false) × (waits w'.place w'.thread ≡ true))
unfolding run_steps step
run_steps-waits w zero idle h = (idle, h)
run_steps-waits w (suc n) idle h =
    let t = w.thread in
    let (later, still) =
      go_on-waits t.name t.thread_id w.place t.block_count t.status w.is_done idle h in
    run_steps-waits (step w Step.caller) n later still
