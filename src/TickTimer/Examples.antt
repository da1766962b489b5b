-- ===== src/TickTimer/Examples.antt =====
-- Applications/TickTimer: the theorems at ticks near 0 and near the largest tick.
use abstraction_layer.Prelude.{◌+◌, ◌≤◌, ◌≡◌, ◌↔◌, refl, arith, u32}
use abstraction_layer.Error.{success}
use abstraction_layer.TickTimer.{timer, elapsed, timer_no_rollover, timer_rollover}

timer_no_rollover_test : (timer 100 50 120 ≡ success) ↔ (50 ≤ elapsed 100 120)
timer_no_rollover_test = timer_no_rollover 100 50 120 (omega arith) (omega arith) (omega arith)

-- A term of 10 ticks that starts 6 ticks before the wrap is over after 4.
timer_rollover_test :
    (timer 4294967290 10 4294967294 ≡ success) ↔ (4294967300 ≤ elapsed 4294967290 4294967294 + u32)
timer_rollover_test =
    timer_rollover 4294967290 10 4294967294 (omega arith) (omega arith) (omega arith) (omega arith)

timer_early : timer 4294967290 10 4294967294 ≡ success
unfolding timer
timer_early = refl
