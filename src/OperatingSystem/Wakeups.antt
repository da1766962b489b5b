-- ===== src/OperatingSystem/Wakeups.antt =====
-- Modules/OperatingSystem/Linux/OperatingSystemModule.cpp, `block` and `unblock` of one thread: no
-- wake-up is lost.
use abstraction_layer.Prelude.{ℕ, zero, suc, ◌≡◌, Bool, true, false, List, [], ◌∷◌, if◌then◌else◌}
use abstraction_layer.OperatingSystem.{Thread, ℤ, pos, negsuc, is_blocked, fall_asleep, wake}

-- What happens to a thread, in order. A thread that sleeps makes no call.
pub data Call : Type 0 where
  blocks unblocks : Call

abbrev call : Thread → Call → Thread
call t blocks = if is_blocked t.status then t else (fall_asleep t).0
call t unblocks = (wake t).0

pub run_thread : Thread → List Call → Thread
run_thread t [] = t
run_thread t (c ∷ cs) = run_thread (call t c) cs

-- The specification: a thread that sleeps, or that is awake with a number of wake-ups in hand.
pub data Sleeper : Type 0 where
  awake : ℕ → Sleeper
  asleep : Sleeper

abbrev pub spec_call : Sleeper → Call → Sleeper
spec_call (awake zero) blocks = asleep
spec_call (awake (suc n)) blocks = awake 0
spec_call asleep blocks = asleep
spec_call (awake n) unblocks = awake (suc n)
spec_call asleep unblocks = awake 0

abbrev pub spec_thread : Sleeper → List Call → Sleeper
spec_thread s [] = s
spec_thread s (c ∷ cs) = spec_thread (spec_call s c) cs

abbrev pub wake_ups : ℤ → ℕ
wake_ups (pos n) = 0
wake_ups (negsuc n) = suc n

abbrev pub sleeper : Thread → Sleeper
sleeper t = if is_blocked t.status then asleep else awake (wake_ups t.block_count)

-- A thread that sleeps has blocked once; the count of one that is awake is not positive.
abbrev pub CountFits : Bool → ℤ → Type 0
CountFits true n = n ≡ pos 1
CountFits false (pos n) = n ≡ 0
CountFits false (negsuc n) = Unit {0}
