-- ===== src/HBridge/Examples.antt =====
-- Applications/IntegratedCircuits/HBridge: the theorems on a bridge whose state is its two levels.
use abstraction_layer.Prelude.{ℕ, ◌≡◌, ◌⊎◌, refl, Bool, true, false, arith}
use abstraction_layer.Error.{ErrorType, success, failure, is_success}
use abstraction_layer.HBridge.{
  PwmType, ConfigurationParameters, Input, one, two, Pwm, Drivers, init, drive_forward,
  drive_backward, coast, brake, change_duty_cycle,
}
use abstraction_layer.HBridge.Laws.{
  Works, Sets, commands_levels, init_masks, change_duty_cycle_cases,
}

abbrev with_level : Input → Bool → Bool × Bool → Bool × Bool
with_level one on s = (on, s.1)
with_level two on s = (s.0, on)

-- A PWM whose `init` returns the given error.
abbrev ideal : ErrorType → Input → Pwm ℕ ℕ (Bool × Bool)
ideal error i = record {
  assign = λ number pin s. s;
  set_period = λ period s. (success, s);
  set_duty_cycle = λ duty s. (success, s);
  init = λ s. (error, s);
  start = λ s. (success, with_level i true s);
  stop = λ s. (success, with_level i false s);
}

abbrev broken_first : Input → Pwm ℕ ℕ (Bool × Bool)
broken_first one = ideal failure one
broken_first two = ideal success two

abbrev bridge : Drivers ℕ ℕ (Bool × Bool)
bridge = record {
  gpt_pwms = broken_first;
  pwms = ideal success;
  pin_write = λ i on s. (success, with_level i on s);
}

abbrev parameters : ConfigurationParameters ℕ ℕ
parameters = record {
  pwm_type = PwmType.gptm;
  input1 = 5;
  input2 = 6;
  pwm1 = 0;
  pwm2 = 1;
  pwm_period = 1000;
  pwm_duty_cycle = 50;
}

abbrev left : Bool × Bool → Bool
left s = s.0

abbrev right : Bool × Bool → Bool
right s = s.1

ideal-Works : Works left right (ideal success)
ideal-Works = record {
  one_succeeds = λ on s. ground arith;
  two_succeeds = λ on s. ground arith;
  one_first = λ on s. ground arith;
  two_first = λ on s. ground arith;
  two_second = λ on s. ground arith;
}

broken_first-Works : Works left right broken_first
broken_first-Works = record {
  one_succeeds = λ on s. ground arith;
  two_succeeds = λ on s. ground arith;
  one_first = λ on s. ground arith;
  two_first = λ on s. ground arith;
  two_second = λ on s. ground arith;
}

commands_levels_test :
    Sets left right (drive_forward bridge true PwmType.gptm (false, true)) true false
    × Sets left right (drive_backward bridge true PwmType.gptm (false, true)) false true
    × Sets left right (coast bridge true PwmType.gptm (false, true)) false false
    × Sets left right (brake bridge true PwmType.gptm (false, true)) true true
commands_levels_test =
    commands_levels left right bridge true PwmType.gptm (false, true) refl broken_first-Works
      ideal-Works

init_masks_test : (init bridge parameters (false, false)).0 ≡ success
init_masks_test = init_masks bridge parameters (false, false) refl (λ s'. refl)

change_duty_cycle_cases_test :
    let r = change_duty_cycle bridge 20 parameters (true, false) in
    ((is_success r.0 ≡ true) × (r.1 ≡ record parameters { pwm_duty_cycle = 20 }))
    ⊎ ((is_success r.0 ≡ false) × (r.1 ≡ parameters))
change_duty_cycle_cases_test = change_duty_cycle_cases bridge 20 parameters (true, false)
