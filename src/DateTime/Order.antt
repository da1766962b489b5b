-- ===== src/DateTime/Order.antt =====
-- Utilities/Types.hpp: the comparisons of `DateTime` against one number for each date.
use abstraction_layer.Prelude.{
  ℕ, ◌+◌, ◌*◌, ◌≤◌, ◌<◌, ◌≡◌, ◌↔◌, true, not, ◌&&◌, ◌||◌, arith, ltb, ◌==◌, if◌then◌else◌,
}
use abstraction_layer.DateTime.{DateTime, equal, earlier, later, not_later, not_earlier}

-- The fields fit their types.
pub record IsWords (a : DateTime) : Type 0 where
  pub second_fits : a.second < 256
  pub minute_fits : a.minute < 256
  pub hour_fits : a.hour < 256
  pub day_fits : a.day < 256
  pub month_fits : a.month < 256

-- The compared fields as the digits of one number, the year first.
abbrev pub key : DateTime → ℕ
key a =
    ((((a.year * 256 + a.month) * 256 + a.day) * 256 + a.hour) * 256 + a.minute) * 256 + a.second

-- One more digit of the numbers that are compared.
lt_digit :
    (m n x y : ℕ)
    → x < 256
    → y < 256
    → ltb (m * 256 + x) (n * 256 + y) ≡ (if not (m == n) then ltb m n else ltb x y)
lt_digit m n x y hx hy = ground arith

eq_digit : (m n x y : ℕ) → x < 256 → y < 256 → (m * 256 + x == n * 256 + y) ≡ (m == n) && (x == y)
eq_digit m n x y hx hy = ground arith

==_sym : (m n : ℕ) → (m == n) ≡ (n == m)
==_sym m n = ground arith

earlier-key : (a b : DateTime) → IsWords a → IsWords b → earlier a b ≡ ltb (key a) (key b)
unfolding earlier
earlier-key a b va vb =
    simp
      (
        lt_digit _ _ _ _ va.second_fits vb.second_fits,
        lt_digit _ _ _ _ va.minute_fits vb.minute_fits,
        lt_digit _ _ _ _ va.hour_fits vb.hour_fits,
        lt_digit _ _ _ _ va.day_fits vb.day_fits,
        lt_digit _ _ _ _ va.month_fits vb.month_fits,
        eq_digit _ _ _ _ va.minute_fits vb.minute_fits,
        eq_digit _ _ _ _ va.hour_fits vb.hour_fits,
        eq_digit _ _ _ _ va.day_fits vb.day_fits,
        eq_digit _ _ _ _ va.month_fits vb.month_fits,
      )
      (ground arith)

later-earlier : (a b : DateTime) → later a b ≡ earlier b a
unfolding earlier later
later-earlier a b = rw (
  ==_sym a.year b.year,
  ==_sym a.month b.month,
  ==_sym a.day b.day,
  ==_sym a.hour b.hour,
  ==_sym a.minute b.minute,
)

equal-key : (a b : DateTime) → IsWords a → IsWords b → equal a b ≡ (key a == key b)
unfolding equal
equal-key a b va vb = simp (
  eq_digit _ _ _ _ va.second_fits vb.second_fits,
  eq_digit _ _ _ _ va.minute_fits vb.minute_fits,
  eq_digit _ _ _ _ va.hour_fits vb.hour_fits,
  eq_digit _ _ _ _ va.day_fits vb.day_fits,
  eq_digit _ _ _ _ va.month_fits vb.month_fits,
)

-- What the five tests on numbers mean.
tests :
    (m n : ℕ)
    → ((ltb m n ≡ true) ↔ (m < n))
      × ((ltb n m ≡ true) ↔ (n < m))
      × (((m == n) ≡ true) ↔ (m ≡ n))
      × ((ltb m n || (m == n) ≡ true) ↔ (m ≤ n))
      × ((ltb n m || (m == n) ≡ true) ↔ (n ≤ m))
tests m n = (ground arith, ground arith, ground arith, ground arith, ground arith)

-- The five comparisons are those of the dates read as numbers, the year first and the second last.
pub comparisons-key :
    (a b : DateTime)
    → IsWords a
    → IsWords b
    → ((earlier a b ≡ true) ↔ (key a < key b))
      × ((later a b ≡ true) ↔ (key b < key a))
      × ((equal a b ≡ true) ↔ (key a ≡ key b))
      × ((not_later a b ≡ true) ↔ (key a ≤ key b))
      × ((not_earlier a b ≡ true) ↔ (key b ≤ key a))
unfolding not_later not_earlier
comparisons-key a b va vb =
    rw (later-earlier a b, earlier-key a b va vb, earlier-key b a vb va, equal-key a b va vb)
      (tests (key a) (key b))
