-- ===== src/DateTime/Unix.antt =====
-- Utilities/Types.hpp: `ToDateTime`. The loop over the years tests the year of the date under
-- construction, which is still 0, so every year is taken to have 366 days; the loop over the months
-- does not stop at the month that it has found.
use abstraction_layer.Prelude.{
  ℕ, zero, suc, ◌+◌, ◌-◌, ◌*◌, ◌/◌, ◌%◌, ◌<◌, ◌≡◌, refl, ap₂, ◌∙◌, ltb→lt, holds_below,
  holds_below-at, Bool, true, false, arith, ltb, ◌==◌, if◌then◌else◌, u32, ◌&&◌, ==_iff, inl, inr,
  Bool-cases,
}
use abstraction_layer.DateTime.{subtract_years, days_per_month, find_month, to_date_time}

-- With enough rounds the loop divides by 366.
pub subtract_years_lem :
    (fuel days years : ℕ)
    → days < 366 * fuel
    → days < 65536
    → years + days / 366 < 65536
    → subtract_years 0 fuel days years ≡ (days % 366, years + days / 366)
unfolding subtract_years
subtract_years_lem zero days years enough d y = absurd (omega arith)
subtract_years_lem (suc fuel) days years enough d y = elim (Bool-cases (ltb 365 days)) [
  | inl more ↦
      rw (more, shorter more, one_more more)
        (subtract_years_lem fuel (days - 366) (years + 1) (omega (arith, ltb→lt _ _ more))
            (omega arith) (omega (arith, ltb→lt _ _ more))
          ∙ ap₂ (λ d y. (d, y)) (omega (arith, ltb→lt _ _ more)) (omega (arith, ltb→lt _ _ more)))
  | inr last ↦ rw last (ground (arith, last))
]
  where
    shorter : ltb 365 days ≡ true → (((days + 65535) % 65536) + 65536 - 365) % 65536 ≡ days - 366
    shorter more = omega (arith, ltb→lt 365 days more)

    one_more : ltb 365 days ≡ true → (years + 1) % 65536 ≡ years + 1
    one_more more = omega (arith, ltb→lt 365 days more)

-- Only the remainder of the year by 4 matters to the months, and of it only whether it is 0.
days_per_month_same :
    (y z m : ℕ) → (y % 4 == 0) ≡ (z % 4 == 0) → days_per_month y m ≡ days_per_month z m
unfolding days_per_month
days_per_month_same y z m e = rw e

find_month_same :
    (y z rounds m month days : ℕ)
    → (y % 4 == 0) ≡ (z % 4 == 0)
    → find_month y rounds m month days ≡ find_month z rounds m month days
unfolding find_month
find_month_same y z zero m month days e = refl
find_month_same y z (suc rounds) m month days e =
    rw (days_per_month_same y z m e, find_month_same y z rounds (suc m) _ _ e)

-- The month that the loop ends with, by the days left in the year.
abbrev pub month_found : ℕ → ℕ
month_found days = if days == 0 then 1 else 12

abbrev finds : ℕ → ℕ → Bool
finds year days = (find_month year 13 0 1 days).0 == month_found days

finds_table : holds_below (λ d. finds 0 d && finds 1 d) 366 ≡ true
unfolding find_month holds_below
finds_table = refl

find_month-month_found :
    (year days : ℕ) → days < 366 → (find_month year 13 0 1 days).0 ≡ month_found days
find_month-month_found year days h = elim (Bool-cases (year % 4 == 0)) [
  | inl leap ↦
      rw (find_month_same year 0 13 0 1 days leap) ((==_iff _ _).0 (and_left _ _ (found days h)))
  | inr common ↦
      rw (find_month_same year 1 13 0 1 days common) ((==_iff _ _).0 (and_right _ _ (found days h)))
]
  where
    found : (d : ℕ) → d < 366 → finds 0 d && finds 1 d ≡ true
    found d h = holds_below-at (λ d. finds 0 d && finds 1 d) 366 d h finds_table

    and_left : (a b : Bool) → a && b ≡ true → a ≡ true
    and_left true b e = refl
    and_left false b e = e

    and_right : (a b : Bool) → a && b ≡ true → b ≡ true
    and_right true b e = e
    and_right false b e = cc

-- The time of day is right.
pub to_date_time_clock :
    (seconds : ℕ)
    → let t = to_date_time seconds in
      (t.hour * 3600 + t.minute * 60 + t.second ≡ seconds % 86400)
      × (t.hour < 24)
      × (t.minute < 60)
      × (t.second < 60)
unfolding to_date_time
to_date_time_clock seconds = omega arith

-- The date is not: whatever the time, the year is the number of days by 366, and the month is
-- December, or January with day 0 where 366 divides the days.
pub to_date_time_december :
    (seconds : ℕ)
    → seconds < u32
    → let t = to_date_time seconds in
      let days = seconds / 86400 in (t.year ≡ days / 366) × (t.month ≡ month_found (days % 366))
unfolding to_date_time
to_date_time_december seconds h =
    rw (fits, subtract_years_lem 180 (seconds / 86400) 0 (omega arith) (omega arith) (omega arith))
      (
        omega arith,
        find_month-month_found (0 + seconds / 86400 / 366) (seconds / 86400 % 366) (omega arith),
      )
  where
    fits : seconds / 86400 % 65536 ≡ seconds / 86400
    fits = omega arith
