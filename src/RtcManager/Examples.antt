-- ===== src/RtcManager/Examples.antt =====
-- Applications/RtcManager: two clocks whose dates are the state; the first does not take a date.
use abstraction_layer.Prelude.{◌≡◌, refl, arith, some, if◌then◌else◌}
use abstraction_layer.Error.{success, failure}
use abstraction_layer.DateTime.{DateTime, init, days_since, to_unix_time, to_date_time}
use abstraction_layer.RtcManager.{Rtc, RtcManager, submit_input_time}
use abstraction_layer.RtcManager.Synchronized.{
  Keeps, is_input_far, is_last_far, submit_input_time_sets,
}
use abstraction_layer.RtcManager.Laws.{
  submit_input_time_within, submit_input_time_drifts, submit_input_time_masks,
}

abbrev Dates : Type 0
Dates = DateTime × DateTime

-- The twentieth of January 1970.
abbrev later_date : DateTime
later_date = record { second = 0; minute = 0; hour = 0; day = 20; weekday = 2; month = 1; year = 0 }

abbrev inner : Rtc Dates
inner = record { read_date = λ d s. (success, s.0, s); write_date = λ d s. (failure, s) }

abbrev outer : Rtc Dates
outer = record { read_date = λ d s. (success, s.1, s); write_date = λ d s. (success, (s.0, d)) }

abbrev manager : DateTime → RtcManager Dates
manager last = record {
  internal_rtc = some inner;
  external_rtc = some outer;
  criteria = record {
    max_difference_between_internal_and_external_rtc = 10;
    max_difference_between_internal_rtc_and_input_time = 10;
  };
  last_external_rtc_time_queried = last;
}

init_seconds : to_unix_time init ≡ 0
unfolding to_unix_time days_since init
init_seconds = refl

later_seconds : to_unix_time later_date ≡ 1641600
unfolding to_unix_time days_since init
later_seconds = refl

submit_input_time_within_test :
    submit_input_time 7 (manager init) (init, init) ≡ (success, manager init, (init, init))
submit_input_time_within_test =
    submit_input_time_within 7 (manager init) inner refl init (init, init) (init, init) refl
      (ground (arith, init_seconds)) (ground (arith, init_seconds))

submit_input_time_drifts_test :
    submit_input_time 100 (manager init) (init, init) ≡ (failure, manager init, (init, init))
submit_input_time_drifts_test =
    submit_input_time_drifts 100 (manager init) inner refl init failure (init, init) (init, init)
      (init, init) refl (ground (arith, init_seconds)) (ground (arith, init_seconds)) refl

submit_input_time_masks_test :
    submit_input_time 100 (manager later_date) (init, later_date)
    ≡ (success, manager (to_date_time 100), (init, to_date_time 100))
submit_input_time_masks_test =
    submit_input_time_masks 100 (manager later_date) inner refl outer init (to_date_time 100)
      failure (init, later_date) (init, later_date) (init, later_date) (init, to_date_time 100)
      (init, to_date_time 100) refl refl (ground (arith, init_seconds, later_seconds))
      (ground (arith, init_seconds, later_seconds)) refl refl refl

abbrev settable : Rtc Dates
settable = record { read_date = λ d s. (success, s.0, s); write_date = λ d s. (success, (d, s.1)) }

settable-Keeps : Keeps settable outer (λ s. s.0) (λ s. s.1)
settable-Keeps = record {
  read_inside = λ d w. refl;
  read_outside = λ d w. refl;
  write_inside_error = λ d w. refl;
  write_inside = λ d w. refl;
  write_inside_outside = λ d w. refl;
  write_outside_error = λ d w. refl;
  write_outside = λ d w. refl;
  write_outside_inside = λ d w. refl;
}

abbrev both : RtcManager Dates
both = record (manager init) { internal_rtc = some settable }

abbrev dates : Dates
dates = (init, later_date)

submit_input_time_sets_example :
    let (error, m', w') = submit_input_time 100 both dates in
    (error ≡ success)
    × (w'.0 ≡ (if is_input_far 100 both init then to_date_time 100 else init))
    × (w'.1 ≡ (if is_last_far both init then to_date_time 100 else later_date))
    × (m'.last_external_rtc_time_queried
        ≡ (if is_last_far both init then to_date_time 100 else init))
submit_input_time_sets_example =
    submit_input_time_sets 100 both settable outer (λ s. s.0) (λ s. s.1) settable-Keeps refl refl
      dates
