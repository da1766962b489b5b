-- ===== src/OperatingSystem/Timers.antt =====
-- Modules/OperatingSystem/Linux/OperatingSystemModule.cpp: the loops of `deleteTimer` and `stopTimer`
-- over the map of timers, which do not move their iterator, so they look at the first timer again
-- and again; and `startTimer`. A run has fuel; `none` is a run that has not ended.
use abstraction_layer.Prelude.{
  ℕ, zero, suc, ◌≡◌, ◌≢◌, refl, Bool, Option, none, some, not, ◌/◌, List, [], ◌∷◌, arith, ◌==◌,
  if◌then◌else◌,
}
use abstraction_layer.Error.{ErrorType, success, failure, no_data}

-- Without the callback. `posix_id` is the key of the map.
pub record Timer : Type 0 where
  pub posix_id : ℕ
  pub id : ℕ
  pub auto_reload : Bool
  pub period : ℕ

pub delete_timer : ℕ → ℕ → List Timer → Option (ErrorType × List Timer)
delete_timer zero timer timers = none
delete_timer (suc fuel) timer [] = some (no_data, [])
delete_timer (suc fuel) timer (t ∷ ts) =
    let again = delete_timer fuel timer (t ∷ ts) in
    if timer == t.id then some (success, ts) else again

-- The answers of `timer_settime` are a function of the round.
pub stop_timer : (ℕ → Bool) → ℕ → ℕ → List Timer → Option ErrorType
stop_timer settime zero timer timers = none
stop_timer settime (suc fuel) timer [] = some failure
stop_timer settime (suc fuel) timer (t ∷ ts) =
    let again = stop_timer settime fuel timer (t ∷ ts) in
    if t.id == timer then (if settime fuel then some success else again) else again

-- `startTimer`. `settime` says whether `timer_settime` accepts the seconds before the first expiry and
-- between expiries, and `error` is what is returned if no call succeeds. The second result is the
-- timer that was armed, with its times; `none` is a failed assertion.
pub start_timer :
    (ℕ → ℕ → ℕ → Bool)
    → ErrorType
    → ℕ
    → ErrorType
    → List Timer
    → Option (ErrorType × Option (ℕ × ℕ × ℕ))
start_timer settime error_of_errno timer error [] = some (error, none)
start_timer settime error_of_errno timer error (t ∷ ts) =
    let value = if t.auto_reload then 1 else t.period / 1000 in
    let interval = if t.auto_reload then t.period / 1000 else 0 in
    let skipped = start_timer settime error_of_errno timer error ts in
    let failed = start_timer settime error_of_errno timer error_of_errno ts in
    if not (t.id == timer)
    then skipped
    else if value == 0
    then none
    else if settime t.posix_id value interval
    then some (success, some (t.posix_id, value, interval))
    else failed

-- If the first timer of the map is another one, neither `deleteTimer` nor `stopTimer` ever ends,
-- whether the timer is in the map or not.
pub timers_never_end :
    (settime : ℕ → Bool) (fuel timer : ℕ) (t : Timer) (ts : List Timer)
    → t.id ≢ timer
    → (delete_timer fuel timer (t ∷ ts) ≡ none) × (stop_timer settime fuel timer (t ∷ ts) ≡ none)
unfolding delete_timer stop_timer
timers_never_end settime zero timer t ts other = (refl, refl)
timers_never_end settime (suc fuel) timer t ts other =
    let (delete, stop) = timers_never_end settime fuel timer t ts other in
    (ground (arith, delete, other), ground (arith, stop, other))
