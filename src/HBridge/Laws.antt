-- ===== src/HBridge/Laws.antt =====
-- Applications/IntegratedCircuits/HBridge: the levels of the two inputs after each command, and the
-- errors of `init` and `changeDutyCycle`.
use abstraction_layer.Prelude.{
  ◌≡◌, ◌∙◌, ◌⊎◌, ◌||◌, inl, inr, Bool, true, false, Bool-cases, Option, none, some,
}
use abstraction_layer.Error.{ErrorType, success, is_success}
use abstraction_layer.HBridge.{
  PwmType, ConfigurationParameters, Input, one, two, Pwm, Drivers, is_driven_by_gptm_pwm,
  is_driven_by_standalone_pwm, set_up, switch, and_then, change_both, init, drive_forward,
  drive_backward, coast, brake, change_duty_cycle,
}

-- The call ends without a failed assertion, succeeds, and leaves the inputs at these levels.
abbrev pub Sets :
    {S : Type 0} → (S → Bool) → (S → Bool) → Option (ErrorType × S) → Bool → Bool → Type 0
Sets first second none a b = ⊥
Sets first second (some (error, s)) a b = (error ≡ success) × (first s ≡ a) × (second s ≡ b)

module _ {Pin Percent S : Type 0} (first second : S → Bool) where
  -- What a pair of PWMs promises: `start` and `stop` succeed, set the level of their own input and
  -- leave the other one alone.
  pub record Works (pwms : Input → Pwm Pin Percent S) : Type 0 where
    pub one_succeeds : (on : Bool) (s : S) → (switch (pwms one) on s).0 ≡ success
    pub two_succeeds : (on : Bool) (s : S) → (switch (pwms two) on s).0 ≡ success
    pub one_first : (on : Bool) (s : S) → first (switch (pwms one) on s).1 ≡ on
    pub two_first : (on : Bool) (s : S) → first (switch (pwms two) on s).1 ≡ first s
    pub two_second : (on : Bool) (s : S) → second (switch (pwms two) on s).1 ≡ on

  both :
      (pwms : Input → Pwm Pin Percent S) (a b : Bool) (s : S)
      → Works pwms
      → Sets first second (some (and_then (switch (pwms one) a s) (switch (pwms two) b))) a b
  both pwms a b s w =
      rw (w.one_succeeds a s)
        (w.two_succeeds b _, w.two_first b _ ∙ w.one_first a s, w.two_second b _)

  all_four :
      (pwms : Input → Pwm Pin Percent S) (s : S)
      → Works pwms
      → let call = λ (a b : Bool). some (and_then (switch (pwms one) a s) (switch (pwms two) b)) in
        Sets first second (call true false) true false
        × Sets first second (call false true) false true
        × Sets first second (call false false) false false
        × Sets first second (call true true) true true
  all_four pwms s w = (
    both pwms true false s w,
    both pwms false true s w,
    both pwms false false s w,
    both pwms true true s w,
  )

  module _ (d : Drivers Pin Percent S) where
    -- With PWMs that work, forward sets the first input only, backward the second only, coast none
    -- and brake both.
    pub commands_levels :
        (asserts : Bool) (type : PwmType) (s : S)
        → is_driven_by_gptm_pwm type || is_driven_by_standalone_pwm type ≡ true
        → Works d.gpt_pwms
        → Works d.pwms
        → Sets first second (drive_forward d asserts type s) true false
          × Sets first second (drive_backward d asserts type s) false true
          × Sets first second (coast d asserts type s) false false
          × Sets first second (brake d asserts type s) true true
    unfolding drive_forward drive_backward coast brake
    commands_levels true PwmType.gptm s pwm g w = all_four d.gpt_pwms s g
    commands_levels false PwmType.gptm s pwm g w = all_four d.gpt_pwms s g
    commands_levels true PwmType.standalone s pwm g w = all_four d.pwms s w
    commands_levels false PwmType.standalone s pwm g w = all_four d.pwms s w
    commands_levels asserts PwmType.unknown s pwm g w = cc
    commands_levels asserts PwmType.gpio s pwm g w = cc

-- The first PWM's errors are lost: if the second PWM is set up, `init` returns `Success`, whatever
-- the set-up of the first one returned.
pub init_masks :
    {Pin Percent S : Type 0} (d : Drivers Pin Percent S) (p : ConfigurationParameters Pin Percent)
    (s : S)
    → p.pwm_type ≡ PwmType.gptm
    → ((s' : S) → (set_up p (d.gpt_pwms two) s').0 ≡ success)
    → (init d p s).0 ≡ success
unfolding init
init_masks d p s type works = rw type (works _)

-- `changeDutyCycle` records the new duty cycle exactly when it returns `Success`; on an error the
-- parameters stay as they were.
pub change_duty_cycle_cases :
    {Pin Percent S : Type 0} (d : Drivers Pin Percent S) (duty_cycle : Percent)
    (p : ConfigurationParameters Pin Percent) (s : S)
    → let r = change_duty_cycle d duty_cycle p s in
      ((is_success r.0 ≡ true) × (r.1 ≡ record p { pwm_duty_cycle = duty_cycle }))
      ⊎ ((is_success r.0 ≡ false) × (r.1 ≡ p))
unfolding change_duty_cycle
change_duty_cycle_cases d duty_cycle p s =
    elim (Bool-cases
      (is_success (change_both d p.pwm_type (λ pwm. pwm.set_duty_cycle duty_cycle) s).0)) [
        | inl done ↦ inl (done, rw done)
        | inr failed ↦ inr (failed, rw failed)
      ]
