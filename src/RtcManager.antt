-- ===== src/RtcManager.antt =====
-- Applications/RtcManager: the time that is submitted, against the clocks inside and outside of the chip.
-- A clock that is not managed is none; the drivers of the two are arguments. Log messages are left out.
pub mod Laws
pub mod Synchronized
mod Examples
use abstraction_layer.Prelude.{ℕ, ◌+◌, ◌-◌, Bool, Option, none, some, ltb, leb, if◌then◌else◌}
use abstraction_layer.Error.{ErrorType, success, no_data, is_success}
use abstraction_layer.DateTime.{DateTime, init, to_unix_time, to_date_time}

-- `readDate` with the date that is overwritten, and `writeDate`.
pub record Rtc (W : Type 0) : Type 0 where
  pub read_date : DateTime → W → ErrorType × DateTime × W
  pub write_date : DateTime → W → ErrorType × W

pub record Criteria : Type 0 where
  pub max_difference_between_internal_and_external_rtc : ℕ
  pub max_difference_between_internal_rtc_and_input_time : ℕ

pub record RtcManager (W : Type 0) : Type 0 where
  pub internal_rtc : Option (Rtc W)
  pub external_rtc : Option (Rtc W)
  pub criteria : Criteria
  pub last_external_rtc_time_queried : DateTime

abbrev pub difference : ℕ → ℕ → ℕ
difference a b = if leb a b then b - a else a - b

module _ {W : Type 0} where
  -- The constructor, with a driver for each clock; the error of the first read is not looked at.
  unfoldable pub make : Criteria → Option (Rtc W) → Option (Rtc W) → W → RtcManager W × W
  make criteria external internal w =
      let (error, date, w') : ErrorType × DateTime × W = elim external [
        | none ↦ (success, init, w)
        | some rtc ↦ rtc.read_date init w
      ] in
      (
        record {
          internal_rtc = internal;
          external_rtc = external;
          criteria = criteria;
          last_external_rtc_time_queried = date;
        },
        w',
      )

  unfoldable pub set_criteria : Criteria → RtcManager W → ErrorType × RtcManager W
  set_criteria criteria m = (success, record m { criteria = criteria })

  unfoldable pub internal_rtc_time : RtcManager W → DateTime → W → ErrorType × DateTime × W
  internal_rtc_time m date w = elim m.internal_rtc [
    | none ↦ (no_data, date, w)
    | some rtc ↦ rtc.read_date date w
  ]

  -- None if the pointer to the clock is null and used all the same.
  unfoldable pub external_rtc_time :
      Bool → DateTime → RtcManager W → W → Option (ErrorType × DateTime × RtcManager W × W)
  external_rtc_time force_query date m w =
      let queried : Option (ErrorType × DateTime × RtcManager W × W) = elim m.external_rtc [
        | none ↦ none
        | some rtc ↦
            let (error, date', w') = rtc.read_date date w in
            some (
              error,
              date',
              if is_success error then record m { last_external_rtc_time_queried = date' } else m,
              w',
            )
      ] in
      if force_query then queried else some (success, m.last_external_rtc_time_queried, m, w)

  -- The write of the input to the clock inside, where the difference is too large.
  unfoldable pub update_internal : ℕ → ℕ → RtcManager W → ErrorType → W → ErrorType × W
  update_internal input internal m error w =
      let written : ErrorType × W = elim m.internal_rtc [
        | none ↦ (error, w)
        | some rtc ↦ rtc.write_date (to_date_time input) w
      ] in
      if ltb m.criteria.max_difference_between_internal_rtc_and_input_time
        (difference input internal)
      then written
      else (error, w)

  -- The write of the input to the clock outside, and the read of its time.
  unfoldable pub update_external :
      ℕ → ℕ → RtcManager W → ErrorType → W → ErrorType × RtcManager W × W
  update_external input internal m error w =
      let synchronized : ErrorType × RtcManager W × W = elim m.external_rtc [
        | none ↦ (error, m, w)
        | some rtc ↦
            let (written, w₁) = rtc.write_date (to_date_time input) w in
            let (read, date, w₂) = rtc.read_date m.last_external_rtc_time_queried w₁ in
            if is_success written
            then (read, record m { last_external_rtc_time_queried = date }, w₂)
            else (written, m, w₁)
      ] in
      if ltb m.criteria.max_difference_between_internal_and_external_rtc
        (difference internal (to_unix_time m.last_external_rtc_time_queried))
      then synchronized
      else (error, m, w)

  unfoldable pub submit_input_time : ℕ → RtcManager W → W → ErrorType × RtcManager W × W
  submit_input_time input m w =
      let (error, date, w₁) = internal_rtc_time m init w in
      let internal = to_unix_time date in
      let (error', w₂) = update_internal input internal m error w₁ in
      let updated = update_external input internal m error' w₂ in
      if is_success error then updated else (error, m, w₁)
