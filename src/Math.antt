-- ===== src/Math.antt =====
-- Utilities/Math.hpp, with the templates at `uint32_t`.
mod Examples
use native.Mathlib.Nat.{le-div_iff_mul-le, div-lt_iff_lt-mul, mul-le-mul_left, mul-le-mul_right}
use abstraction_layer.Prelude.{
  ℕ, suc, ◌+◌, ◌-◌, ◌*◌, ◌/◌, ◌%◌, ◌≤◌, ◌<◌, ◌≡◌, refl, ap, ◌∙◌, inl, inr, Bool-cases, arith, ltb,
  ◌==◌, if◌then◌else◌, u32, add32, sub32, min, max,
}

-- `a * b` on `uint32_t`.
abbrev mul32 : ℕ → ℕ → ℕ
mul32 a b = (a * b) % u32

pub running_average : ℕ → ℕ → ℕ → ℕ
running_average current_average new_value num_values =
    if ltb 2 num_values
    then add32 (mul32 current_average (num_values - 1)) new_value / num_values
    else if num_values == 0
    then current_average
    else add32 current_average new_value / num_values

-- `differenceBetween` with the largest value as an argument, and at the type's own largest value.
pub difference_between_max : ℕ → ℕ → ℕ → ℕ
difference_between_max expected_larger expected_smaller max_value =
    if ltb expected_larger expected_smaller
    then add32 (sub32 max_value expected_larger) (add32 expected_smaller 1)
    else expected_larger - expected_smaller

pub difference_between : ℕ → ℕ → ℕ
difference_between expected_larger expected_smaller =
    if ltb expected_larger expected_smaller
    then add32 (sub32 (u32 - 1) expected_larger) (add32 expected_smaller 1)
    else expected_larger - expected_smaller

-- `ToBits` and `ToAscii`.
pub to_bits : ℕ → ℕ
to_bits number_of_bytes = mul32 number_of_bytes 8

pub to_ascii : ℕ → ℕ
to_ascii number = number + 48

-- On `uint8_t`; 87 is `'f' - 15`.
pub ascii_hexidecimal_encoding_to_value : ℕ → ℕ
ascii_hexidecimal_encoding_to_value c = (c + 256 - (b'f' - 15)) % 256

div_between : (x n lo hi : ℕ) → 0 < n → lo * n ≤ x → x ≤ hi * n → (lo ≤ x / n) × (x / n ≤ hi)
div_between x n lo hi pos above below =
    let low : lo ≤ x / n = (le-div_iff_mul-le pos).1 above in
    let high : x / n < suc hi = (div-lt_iff_lt-mul pos).1 (omega arith) in (low, omega arith)

-- Where the sum fits, nothing wraps.
running_average_lem :
    (c v n : ℕ) → 1 < n → c * n + v < u32 → running_average c v n ≡ (c * (n - 1) + v) / n
unfolding running_average
running_average_lem c v n h fits = elim (Bool-cases (ltb 2 n)) [
  | inl more ↦ rw (more, products) refl
  | inr two ↦
      let e : n ≡ 2 = ground arith in
      rw (two, e) (ap (λ t. t / 2) (omega (arith, fits, ap (λ t. c * t) e)))
]
  where
    products : add32 (mul32 c (n - 1)) v ≡ c * (n - 1) + v
    products = omega (arith, fits, mul-le-mul_left {m = n - 1} {n = n} c (omega arith))

-- For two values or more, and sums that fit, the average lies between the old one and the new value.
pub running_average_bounds :
    (current_average new_value num_values : ℕ)
    → 1 < num_values
    → current_average * num_values + new_value < u32
    → (min current_average new_value ≤ running_average current_average new_value num_values)
      × (running_average current_average new_value num_values ≤ max current_average new_value)
running_average_bounds c v n h fits = rw (running_average_lem c v n h fits) (
    div_between (c * (n - 1) + v) n (min c v) (max c v) (omega arith)
      (omega
        (arith, n_parts (min c v), mul-le-mul_right {m = min c v} {n = c} (n - 1) (omega arith)))
      (omega
        (arith, n_parts (max c v), mul-le-mul_right {m = c} {n = max c v} (n - 1) (omega arith))))
  where
    n_parts : (a : ℕ) → a * n ≡ a * (n - 1) + a
    n_parts a = ap (λ t. a * t) last ∙ omega arith
      where
        last : n ≡ n - 1 + 1
        last = omega arith

-- The difference is that of the two values, whichever is larger: `differenceBetween` is symmetric,
-- and does not count the ticks of a counter that has wrapped.
pub difference_between_symmetric :
    (a b : ℕ)
    → a < u32
    → b < u32
    → (difference_between a b ≡ difference_between b a)
      × (difference_between a b ≡ max a b - min a b)
unfolding difference_between
difference_between_symmetric a b ha hb = ground arith

-- A counter that turns at `max_value` has gone `max_value - smaller + larger + 1` steps when it has
-- wrapped. The result is another number, past `max_value`.
pub difference_between_max_wrapped :
    (larger smaller max_value : ℕ)
    → larger < smaller
    → smaller ≤ max_value
    → max_value + smaller + 1 < u32
    → max_value < difference_between_max larger smaller max_value
unfolding difference_between_max
difference_between_max_wrapped larger smaller max_value h le fits = ground arith

-- The hexadecimal digits a to f decode to 10 to 15; the digits 0 to 9 decode to 217 to 226.
pub ascii_hexidecimal_digits :
    (d : ℕ)
    → (d < 6 → ascii_hexidecimal_encoding_to_value (b'a' + d) ≡ 10 + d)
      × (d < 10 → ascii_hexidecimal_encoding_to_value (to_ascii d) ≡ 217 + d)
unfolding ascii_hexidecimal_encoding_to_value to_ascii
ascii_hexidecimal_digits d = omega arith
