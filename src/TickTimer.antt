-- ===== src/TickTimer.antt =====
-- Applications/TickTimer/TickTimer.hpp: `Timer`, with the current tick as an argument. Ticks are
-- `uint32_t` and wrap.
mod Examples
use abstraction_layer.Prelude.{
  ℕ, ◌+◌, ◌-◌, ◌≤◌, ◌<◌, ◌≡◌, ◌↔◌, arith, ltb, if◌then◌else◌, u32, add32, sub32, inc32,
}
use abstraction_layer.Error.{ErrorType, success, negative}

-- `std::numeric_limits<Ticks>::max()`.
abbrev pub max_ticks : ℕ
max_ticks = u32 - 1

pub timer : ℕ → ℕ → ℕ → ErrorType
timer start_time duration current_time =
    let timeout_time = add32 start_time duration in
    let rollover_compensation =
      if ltb timeout_time start_time then inc32 (sub32 max_ticks start_time) else 0 in
    if ltb (add32 current_time rollover_compensation) timeout_time then negative else success

-- The ticks that have passed since the start, at most one turn of the counter ago.
abbrev pub elapsed : ℕ → ℕ → ℕ
elapsed start_time current_time = sub32 current_time start_time

-- If neither the end of the term nor the current tick has passed the largest tick, the timer has
-- run out exactly when the term is over.
pub timer_no_rollover :
    (start_time duration current_time : ℕ)
    → start_time + duration < u32
    → start_time ≤ current_time
    → current_time < u32
    → (timer start_time duration current_time ≡ success)
      ↔ (duration ≤ elapsed start_time current_time)
unfolding timer
timer_no_rollover start_time duration current_time fits later word = ground arith

-- If the end of the term lies past the largest tick, the timer runs out as soon as the wrapped end,
-- `start + duration - 2 ^ 32`, has passed, which is `2 ^ 32 - start` ticks early.
pub timer_rollover :
    (start_time duration current_time : ℕ)
    → start_time < u32
    → duration < u32
    → current_time < u32
    → u32 ≤ start_time + duration
    → (timer start_time duration current_time ≡ success)
      ↔ (start_time + duration ≤ elapsed start_time current_time + u32)
unfolding timer
timer_rollover start_time duration current_time s d c wraps = ground arith
