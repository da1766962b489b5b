-- ===== src/DateTime.antt =====
-- Utilities/Types.hpp: `DateTime`, its comparisons, and the conversions to and from Unix time. Fields
-- are `uint8_t` but for `_year`, a `uint16_t` that counts from 1970. Day counts are `uint16_t`.
pub mod Order
pub mod Unix
pub mod Calendar
mod Examples
use abstraction_layer.Prelude.{
  ℕ, zero, suc, ◌+◌, ◌-◌, ◌*◌, ◌/◌, ◌%◌, Bool, true, false, not, ◌&&◌, ◌||◌, ltb, leb, ◌==◌,
  if◌then◌else◌, u32, add32,
}

pub record DateTime : Type 0 where
  pub second : ℕ
  pub minute : ℕ
  pub hour : ℕ
  pub day : ℕ
  pub weekday : ℕ
  pub month : ℕ
  pub year : ℕ

-- The constructor.
unfoldable pub init : DateTime
init = record { second = 0; minute = 0; hour = 0; day = 1; weekday = 1; month = 1; year = 0 }

-- `operator ==`, `<`, `>`, `<=` and `>=`. The weekday is not compared.
pub equal : DateTime → DateTime → Bool
equal a b =
    (a.year == b.year)
    && (a.month == b.month)
    && (a.day == b.day)
    && (a.hour == b.hour)
    && (a.minute == b.minute)
    && (a.second == b.second)

pub earlier : DateTime → DateTime → Bool
earlier a b =
    if not (a.year == b.year)
    then ltb a.year b.year
    else if not (a.month == b.month)
    then ltb a.month b.month
    else if not (a.day == b.day)
    then ltb a.day b.day
    else if not (a.hour == b.hour)
    then ltb a.hour b.hour
    else if not (a.minute == b.minute)
    then ltb a.minute b.minute
    else ltb a.second b.second

pub later : DateTime → DateTime → Bool
later a b =
    if not (a.year == b.year)
    then ltb b.year a.year
    else if not (a.month == b.month)
    then ltb b.month a.month
    else if not (a.day == b.day)
    then ltb b.day a.day
    else if not (a.hour == b.hour)
    then ltb b.hour a.hour
    else if not (a.minute == b.minute)
    then ltb b.minute a.minute
    else ltb b.second a.second

pub not_later : DateTime → DateTime → Bool
unfolding earlier equal
not_later a b = earlier a b || equal a b

pub not_earlier : DateTime → DateTime → Bool
unfolding later equal
not_earlier a b = later a b || equal a b

-- A conversion to `uint16_t`.
abbrev u16 : ℕ → ℕ
u16 n = n % 65536

-- The days of a common year before the month: the switch of `ToUnixTime`.
unfoldable pub days_from_january_to_now : ℕ → ℕ
days_from_january_to_now m =
    if m == 3
    then 31
    else if m == 4
    then 90
    else if m == 5
    then 120
    else if m == 6
    then 151
    else if m == 7
    then 181
    else if m == 8
    then 212
    else if m == 9
    then 243
    else if m == 10
    then 273
    else if m == 11
    then 304
    else if m == 12
    then 334
    else 0

-- The days since the epoch that `ToUnixTime` counts. `1970 / 4` is 492, and `year & 3` is the
-- remainder by 4.
unfoldable pub days_since : DateTime → ℕ
unfolding days_from_january_to_now
days_since dt =
    let years = u16 (dt.year * 365) in
    let leaps = u16 (years + ((1970 + dt.year) / 4 - 1970 / 4)) in
    let months = u16 (leaps + days_from_january_to_now dt.month) in
    let days = if ltb 0 dt.day then u16 (months + (dt.day - 1)) else months in
    if not (dt.year == 0) && (dt.year % 4 == 0) && leb dt.year 2 then u16 (days + 65535) else days

unfoldable pub to_unix_time : DateTime → ℕ
to_unix_time dt = (days_since dt * 86400 + dt.hour * 3600 + dt.minute * 60 + dt.second) % u32

-- The lambda `daysPerMonth` of `ToDateTime`.
pub days_per_month : ℕ → ℕ → ℕ
days_per_month current_year m =
    if ltb 12 m || ltb m 1
    then 0
    else if not (current_year % 4 == 0) && (m == 2)
    then 29
    else if m == 2
    then 28
    else if (m == 4) || (m == 6) || (m == 9) || (m == 11)
    then 30
    else 31

-- The loop of `ToDateTime` over the years. It tests the year of the date under construction, which
-- stays 0 until the loop has ended.
pub subtract_years : ℕ → ℕ → ℕ → ℕ → ℕ × ℕ
subtract_years date_year zero days years = (days, years)
subtract_years date_year (suc fuel) days years =
    let days' = if date_year % 4 == 0 then u16 (days + 65535) else days in
    let rest = subtract_years date_year fuel (u16 (days' + 65536 - 365)) (u16 (years + 1)) in
    if ltb 365 days then rest else (days, years)

-- The loop over the months, with the rounds that are left: the month so far and the days left.
pub find_month : ℕ → ℕ → ℕ → ℕ → ℕ → ℕ × ℕ
unfolding days_per_month
find_month year zero m month days = (month, days)
find_month year (suc rounds) m month days =
    let days_in_month = days_per_month year m in
    let fits = not (days_in_month == 0) && leb days days_in_month in
    let month' = if fits then m else month in
    let days' = if fits then days else u16 (days + 65536 - days_in_month) in
    let rest = find_month year rounds (suc m) month' days' in
    if ltb 0 days then rest else (month, days)

-- The date under construction begins at year 0. 180 rounds are enough for the years of a `uint16_t`
-- of days (`Unix.subtract_years_lem`); month 0 to month 12 are 13 rounds.
pub to_date_time : ℕ → DateTime
unfolding subtract_years find_month
to_date_time seconds =
    let left = seconds % 86400 in
    let (days, years) = subtract_years 0 180 (u16 (seconds / 86400)) 0 in
    let (month, day) = find_month years 13 0 1 days in
    record {
      hour = left / 3600 % 256;
      minute = left % 3600 / 60 % 256;
      second = left % 3600 % 60 % 256;
      day = day % 256;
      weekday = 1;
      month = month;
      year = years;
    }

-- `operator +`.
pub add : DateTime → DateTime → DateTime
unfolding to_unix_time to_date_time
add a b = to_date_time (add32 (to_unix_time a) (to_unix_time b))
