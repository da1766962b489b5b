-- ===== src/DateTime/Calendar.antt =====
-- Utilities/Types.hpp: `ToUnixTime` against the days of the Gregorian calendar since 1970-01-01.
use abstraction_layer.Prelude.{
  ℕ, zero, suc, ◌+◌, ◌-◌, ◌*◌, ◌/◌, ◌%◌, ◌≤◌, ◌<◌, ◌≡◌, refl, subst, inl, inr, Bool-cases, lt→ltb,
  Bool, false, not, ◌&&◌, ◌||◌, arith, leb, ◌==◌, if◌then◌else◌,
}
use abstraction_layer.DateTime.{DateTime, days_from_january_to_now, days_since, to_unix_time}

abbrev pub is_leap : ℕ → Bool
is_leap y = (y % 4 == 0) && (not (y % 100 == 0) || (y % 400 == 0))

abbrev pub month_length : ℕ → ℕ → ℕ
month_length y m =
    if (m == 11) || (m == 9) || (m == 6) || (m == 4)
    then 30
    else if not (m == 2)
    then 31
    else (if is_leap y then 29 else 28)

-- The days of the years from 1970 up to `1970 + y`.
unfoldable pub days_before_year : ℕ → ℕ
days_before_year zero = 0
days_before_year (suc y) = days_before_year y + (if is_leap (1970 + y) then 366 else 365)

-- The days of the first `m` months of year `y`.
unfoldable pub days_of_months : ℕ → ℕ → ℕ
days_of_months y zero = 0
days_of_months y (suc m) = days_of_months y m + month_length y (suc m)

-- The days from 1970-01-01 to the date.
abbrev pub epoch_day : DateTime → ℕ
epoch_day t = days_before_year t.year + days_of_months (1970 + t.year) (t.month - 1) + (t.day - 1)

-- A date of the years 1970 to 2099.
pub record IsDate (t : DateTime) : Type 0 where
  pub year_in : t.year < 130
  pub month_in : (1 ≤ t.month) × (t.month ≤ 12)
  pub day_in : (1 ≤ t.day) × (t.day ≤ 31)

leap_in_range : (y : ℕ) → y < 130 → is_leap (1970 + y) ≡ ((1970 + y) % 4 == 0)
leap_in_range y h = ground arith

days_before_year_lem : (y : ℕ) → y ≤ 130 → days_before_year y ≡ y * 365 + ((1969 + y) / 4 - 492)
unfolding days_before_year
days_before_year_lem zero h = refl
days_before_year_lem (suc y) h =
    rw (leap_in_range y (omega arith)) (ground (arith, days_before_year_lem y (omega arith)))

-- What the table of `ToUnixTime` lacks in February and in March.
abbrev pub missing : ℕ → ℕ
missing m = if m == 2 then 31 else if m == 3 then 28 else 0

-- A leap year's own leap day, which `ToUnixTime` counts from January on.
abbrev pub leap_day : ℕ → ℕ
leap_day y = if is_leap y then 1 else 0

-- The twelve months, as numerals.
twelve :
    (P : ℕ → Type 0)
    → P 0
    → P 1
    → P 2
    → P 3
    → P 4
    → P 5
    → P 6
    → P 7
    → P 8
    → P 9
    → P 10
    → P 11
    → (m : ℕ) → m < 12
    → P m
twelve P a b c d e f g h i j k l zero lt = a
twelve P a b c d e f g h i j k l (suc zero) lt = b
twelve P a b c d e f g h i j k l (suc (suc zero)) lt = c
twelve P a b c d e f g h i j k l (suc (suc (suc zero))) lt = d
twelve P a b c d e f g h i j k l (suc (suc (suc (suc zero)))) lt = e
twelve P a b c d e f g h i j k l (suc (suc (suc (suc (suc zero))))) lt = f
twelve P a b c d e f g h i j k l (suc (suc (suc (suc (suc (suc zero)))))) lt = g
twelve P a b c d e f g h i j k l (suc (suc (suc (suc (suc (suc (suc zero))))))) lt = h
twelve P a b c d e f g h i j k l (suc (suc (suc (suc (suc (suc (suc (suc zero)))))))) lt = i
twelve P a b c d e f g h i j k l (suc (suc (suc (suc (suc (suc (suc (suc (suc zero))))))))) lt = j
twelve P a b c d e f g h i j k l (suc (suc (suc (suc (suc (suc (suc (suc (suc (suc zero))))))))))
      lt =
    k
twelve P a b c d e f g h i j k l (suc (suc (suc (suc (suc (suc (suc (suc (suc (suc (suc n)))))))))))
      lt =
    subst P (omega arith) l

-- The table of `ToUnixTime` against the months' lengths, a leap year's extra day included.
abbrev TableRow : ℕ → ℕ → Type 0
TableRow y m =
    days_of_months y m + (if leb m 1 then leap_day y else 0)
    ≡ days_from_january_to_now (suc m) + missing (suc m) + leap_day y

months_table : (y m : ℕ) → m < 12 → TableRow y m
unfolding days_of_months days_from_january_to_now
months_table y = elim (Bool-cases (is_leap y)) [
  | inl leap ↦
      twelve (TableRow y) (rw leap) (rw leap) (rw leap) (rw leap) (rw leap) (rw leap) (rw leap)
        (rw leap) (rw leap) (rw leap) (rw leap) (rw leap)
  | inr common ↦
      twelve (TableRow y) (rw common) (rw common) (rw common) (rw common) (rw common) (rw common)
        (rw common) (rw common) (rw common) (rw common) (rw common) (rw common)
]

early_leap :
    (y : ℕ) → y < 130 → ((1970 + y) / 4 - 492) ≡ ((1969 + y) / 4 - 492) + leap_day (1970 + y)
early_leap y h = rw (leap_in_range y h) (ground arith)

table_le : (m : ℕ) → days_from_january_to_now m ≤ 334
unfolding days_from_january_to_now
table_le m = ground arith

-- The test for January and February of a leap year compares the year, and never holds.
never_early : (y : ℕ) → not (y == 0) && (y % 4 == 0) && leb y 2 ≡ false
never_early y = ground arith

-- Nothing wraps in these years.
days_since_lem :
    (t : DateTime)
    → IsDate t
    → days_since t
      ≡ t.year * 365 + ((1970 + t.year) / 4 - 492) + days_from_january_to_now t.month + (t.day - 1)
unfolding days_since
days_since_lem t v =
    rw (never_early t.year, lt→ltb 0 t.day (omega (arith, v.day_in)))
      (omega (arith, v.year_in, v.day_in, table_le t.month))

-- From 1970 to 2099, `ToUnixTime` counts the days since the epoch, but for 31 days that it leaves out
-- in February, 28 that it leaves out in March, and one that it adds in January and February of a leap
-- year.
pub days_since-epoch_day :
    (t : DateTime)
    → IsDate t
    → days_since t + missing t.month
      ≡ epoch_day t + (if leb t.month 2 then leap_day (1970 + t.year) else 0)
days_since-epoch_day t v =
    rw (days_since_lem t v, days_before_year_lem t.year (omega (arith, v.year_in)))
      (ground (arith, row, early_leap t.year v.year_in, v.month_in))
  where
    row :
        days_of_months (1970 + t.year) (t.month - 1)
          + (if leb (t.month - 1) 1 then leap_day (1970 + t.year) else 0)
        ≡ days_from_january_to_now t.month + missing t.month + leap_day (1970 + t.year)
    row =
        subst
          (λ k.
            days_of_months (1970 + t.year) (t.month - 1)
              + (if leb (t.month - 1) 1 then leap_day (1970 + t.year) else 0)
            ≡ days_from_january_to_now k + missing k + leap_day (1970 + t.year))
          {x = suc (t.month - 1)} (omega (arith, v.month_in))
          (months_table (1970 + t.year) (t.month - 1) (omega (arith, v.month_in)))

-- A date from April to December, at a time of day, is converted to the right second.
pub to_unix_time-epoch_day :
    (t : DateTime)
    → IsDate t
    → 4 ≤ t.month
    → t.hour < 24
    → t.minute < 60
    → t.second < 60
    → to_unix_time t ≡ epoch_day t * 86400 + t.hour * 3600 + t.minute * 60 + t.second
unfolding to_unix_time
to_unix_time-epoch_day t v late h m s = rw exact (omega (arith, h, m, s, few))
  where
    exact : days_since t ≡ epoch_day t
    exact = ground (arith, days_since-epoch_day t v, late)

    few : epoch_day t ≤ 48000
    few = rw (← exact, days_since_lem t v) (omega (arith, v.year_in, v.day_in, table_le t.month))
