-- ===== src/DateTime/Examples.antt =====
-- Utilities/Types.hpp: the theorems on particular dates, and dates converted.
use abstraction_layer.Prelude.{◌+◌, ◌*◌, ◌/◌, ◌%◌, ◌≤◌, ◌<◌, ◌≡◌, ◌↔◌, refl, true, arith}
use abstraction_layer.DateTime.{
  DateTime, equal, earlier, later, not_later, not_earlier, days_since, to_unix_time, to_date_time,
}
use abstraction_layer.DateTime.Order.{IsWords, key, comparisons-key}
use abstraction_layer.DateTime.Unix.{month_found, to_date_time_clock, to_date_time_december}
use abstraction_layer.DateTime.Calendar.{
  epoch_day, IsDate, days_since-epoch_day, to_unix_time-epoch_day,
}

-- 2024-06-15 12:30:45.
abbrev in_june : DateTime
in_june = record {
  second = 45;
  minute = 30;
  hour = 12;
  day = 15;
  weekday = 6;
  month = 6;
  year = 54;
}

-- 2024-02-10 00:00:00.
abbrev in_february : DateTime
in_february = record {
  second = 0;
  minute = 0;
  hour = 0;
  day = 10;
  weekday = 6;
  month = 2;
  year = 54;
}

in_june-IsDate : IsDate in_june
in_june-IsDate = record {
  year_in = omega arith;
  month_in = (omega arith, omega arith);
  day_in = (omega arith, omega arith);
}

in_february-IsDate : IsDate in_february
in_february-IsDate = record {
  year_in = omega arith;
  month_in = (omega arith, omega arith);
  day_in = (omega arith, omega arith);
}

in_june-IsWords : IsWords in_june
in_june-IsWords = record {
  second_fits = omega arith;
  minute_fits = omega arith;
  hour_fits = omega arith;
  day_fits = omega arith;
  month_fits = omega arith;
}

in_february-IsWords : IsWords in_february
in_february-IsWords = record {
  second_fits = omega arith;
  minute_fits = omega arith;
  hour_fits = omega arith;
  day_fits = omega arith;
  month_fits = omega arith;
}

comparisons-key_example :
    ((earlier in_february in_june ≡ true) ↔ (key in_february < key in_june))
    × ((later in_february in_june ≡ true) ↔ (key in_june < key in_february))
    × ((equal in_february in_june ≡ true) ↔ (key in_february ≡ key in_june))
    × ((not_later in_february in_june ≡ true) ↔ (key in_february ≤ key in_june))
    × ((not_earlier in_february in_june ≡ true) ↔ (key in_june ≤ key in_february))
comparisons-key_example = comparisons-key in_february in_june in_february-IsWords in_june-IsWords

days_since-epoch_day_example : days_since in_february + 31 ≡ epoch_day in_february + 1
days_since-epoch_day_example = days_since-epoch_day in_february in_february-IsDate

to_unix_time-epoch_day_test :
    to_unix_time in_june ≡ epoch_day in_june * 86400 + 12 * 3600 + 30 * 60 + 45
to_unix_time-epoch_day_test =
    to_unix_time-epoch_day in_june in_june-IsDate (omega arith) (omega arith) (omega arith)
      (omega arith)

to_unix_time_june : to_unix_time in_june ≡ 1718454645
unfolding to_unix_time days_since
to_unix_time_june = refl

to_date_time_clock_test :
    let t = to_date_time 1718454645 in
    (t.hour * 3600 + t.minute * 60 + t.second ≡ 1718454645 % 86400)
    × (t.hour < 24)
    × (t.minute < 60)
    × (t.second < 60)
to_date_time_clock_test = to_date_time_clock 1718454645

to_date_time_december_test :
    let t = to_date_time 1718454645 in
    let days = 1718454645 / 86400 in (t.year ≡ days / 366) × (t.month ≡ month_found (days % 366))
to_date_time_december_test = to_date_time_december 1718454645 (omega arith)
