-- ===== src/HBridge.antt =====
-- Applications/IntegratedCircuits/HBridge/HBridgeAbstraction.hpp and TiDrv8872/TiDrv8872.cpp: a bridge
-- that drives a motor by two inputs. The drivers of the inputs belong to a platform and are an
-- argument: operations on the state `S` of the hardware. `asserts` says whether `assert` is compiled
-- in; `none` is a failed assertion. Pins and duty cycles are only passed on.
mod Examples
pub mod Laws
use abstraction_layer.Prelude.{
  ℕ, Bool, true, false, not, ◌&&◌, ◌||◌, Option, none, some, if◌then◌else◌,
}
use abstraction_layer.Error.{
  ErrorType, success, failure, not_supported, invalid_parameter, is_success,
}

pub data PwmType : Type 0 where
  unknown gptm gpio standalone : PwmType

pub record ConfigurationParameters (Pin Percent : Type 0) : Type 0 where
  pub pwm_type : PwmType
  pub input1 : Pin
  pub input2 : Pin
  pub pwm1 : ℕ
  pub pwm2 : ℕ
  pub pwm_period : ℕ
  pub pwm_duty_cycle : Percent

-- The two inputs, by their index in the arrays of drivers.
pub data Input : Type 0 where
  one two : Input

-- What the bridge uses of a PWM: assignments of its number and its pin, and five methods.
pub record Pwm (Pin Percent S : Type 0) : Type 0 where
  pub assign : ℕ → Pin → S → S
  pub set_period : ℕ → S → ErrorType × S
  pub set_duty_cycle : Percent → S → ErrorType × S
  pub init : S → ErrorType × S
  pub start : S → ErrorType × S
  pub stop : S → ErrorType × S

-- The drivers; `pin_write` sets a pin high or low.
pub record Drivers (Pin Percent S : Type 0) : Type 0 where
  pub gpt_pwms : Input → Pwm Pin Percent S
  pub pwms : Input → Pwm Pin Percent S
  pub pin_write : Input → Bool → S → ErrorType × S

abbrev pub is_driven_by_gptm_pwm : PwmType → Bool
is_driven_by_gptm_pwm PwmType.gptm = true
is_driven_by_gptm_pwm _ = false

abbrev pub is_driven_by_standalone_pwm : PwmType → Bool
is_driven_by_standalone_pwm PwmType.standalone = true
is_driven_by_standalone_pwm _ = false

abbrev pub is_driven_by_gpio : PwmType → Bool
is_driven_by_gpio PwmType.gpio = true
is_driven_by_gpio _ = false

-- The next call, if the last one succeeded.
abbrev pub and_then : {S : Type 0} → ErrorType × S → (S → ErrorType × S) → ErrorType × S
and_then r next = if is_success r.0 then next r.1 else r

module _ {Pin Percent S : Type 0} where
  -- `setPeriod`, `setDutyCycle` and `init` of one PWM.
  abbrev pub set_up : ConfigurationParameters Pin Percent → Pwm Pin Percent S → S → ErrorType × S
  set_up p pwm s =
      and_then (and_then (pwm.set_period p.pwm_period s) (pwm.set_duty_cycle p.pwm_duty_cycle))
        pwm.init

  -- The loop of `init` over both PWMs. The error is that of the second.
  abbrev pub set_up_both :
      ConfigurationParameters Pin Percent → (Input → Pwm Pin Percent S) → S → ErrorType × S
  set_up_both p pwms s =
      let assigned = (pwms two).assign p.pwm2 p.input2 ((pwms one).assign p.pwm1 p.input1 s) in
      set_up p (pwms two) (set_up p (pwms one) assigned).1

  abbrev pub switch : Pwm Pin Percent S → Bool → S → ErrorType × S
  switch pwm on s = if on then pwm.start s else pwm.stop s

module _ {Pin Percent S : Type 0} (d : Drivers Pin Percent S) where
  pub init : ConfigurationParameters Pin Percent → S → ErrorType × S
  init p s =
      if is_driven_by_gptm_pwm p.pwm_type
      then set_up_both p d.gpt_pwms s
      else if is_driven_by_standalone_pwm p.pwm_type
      then set_up_both p d.pwms s
      else if is_driven_by_gpio p.pwm_type
      then (not_supported, s)
      else (invalid_parameter, s)

  -- The body that the four commands share, up to the levels of the two inputs.
  abbrev pub set_inputs : Bool → PwmType → Bool → Bool → S → Option (ErrorType × S)
  set_inputs asserts type first second s =
      let pwm_driven = is_driven_by_gptm_pwm type || is_driven_by_standalone_pwm type in
      let r =
        if is_driven_by_gptm_pwm type
        then and_then (switch (d.gpt_pwms one) first s) (switch (d.gpt_pwms two) second)
        else if is_driven_by_standalone_pwm type
        then and_then (switch (d.pwms one) first s) (switch (d.pwms two) second)
        else if is_driven_by_gpio type
        then and_then (d.pin_write one first s) (d.pin_write two second)
        else (not_supported, s) in
      if asserts && not pwm_driven then none else some r

  pub drive_forward : Bool → PwmType → S → Option (ErrorType × S)
  drive_forward asserts type = set_inputs asserts type true false

  pub drive_backward : Bool → PwmType → S → Option (ErrorType × S)
  drive_backward asserts type = set_inputs asserts type false true

  pub coast : Bool → PwmType → S → Option (ErrorType × S)
  coast asserts type = set_inputs asserts type false false

  pub brake : Bool → PwmType → S → Option (ErrorType × S)
  brake asserts type = set_inputs asserts type true true

  -- The loops of `changeDutyCycle` and `changePeriod`, which stop at the first error.
  abbrev pub change_both : PwmType → (Pwm Pin Percent S → S → ErrorType × S) → S → ErrorType × S
  change_both type call s =
      if is_driven_by_gptm_pwm type
      then and_then (call (d.gpt_pwms one) s) (call (d.gpt_pwms two))
      else if is_driven_by_standalone_pwm type
      then and_then (call (d.pwms one) s) (call (d.pwms two))
      else if is_driven_by_gpio type
      then (not_supported, s)
      else (invalid_parameter, s)

  pub change_duty_cycle :
      Percent
      → ConfigurationParameters Pin Percent
      → S
      → ErrorType × ConfigurationParameters Pin Percent × S
  change_duty_cycle duty_cycle p s =
      let (error, s') = change_both p.pwm_type (λ pwm. pwm.set_duty_cycle duty_cycle) s in
      (error, if is_success error then record p { pwm_duty_cycle = duty_cycle } else p, s')

  pub change_period :
      ℕ
      → ConfigurationParameters Pin Percent
      → S
      → ErrorType × ConfigurationParameters Pin Percent × S
  change_period period p s =
      let (error, s') = change_both p.pwm_type (λ pwm. pwm.set_period period) s in
      (error, if is_success error then record p { pwm_period = period } else p, s')
