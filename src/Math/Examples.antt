-- ===== src/Math/Examples.antt =====
-- Utilities/Math.hpp: the theorems on small numbers.
use abstraction_layer.Prelude.{◌+◌, ◌-◌, ◌≤◌, ◌<◌, ◌≡◌, refl, arith, min, max}
use abstraction_layer.Math.{
  running_average, difference_between_max, difference_between, to_ascii,
  ascii_hexidecimal_encoding_to_value, running_average_bounds, difference_between_symmetric,
  ascii_hexidecimal_digits,
}

running_average_bounds_test :
    (min 10 20 ≤ running_average 10 20 5) × (running_average 10 20 5 ≤ max 10 20)
running_average_bounds_test = running_average_bounds 10 20 5 (omega arith) (omega arith)

running_average_of_five : running_average 10 20 5 ≡ 12
unfolding running_average
running_average_of_five = refl

difference_between_symmetric_test :
    (difference_between 3 10 ≡ difference_between 10 3)
    × (difference_between 3 10 ≡ max 3 10 - min 3 10)
difference_between_symmetric_test = difference_between_symmetric 3 10 (omega arith) (omega arith)

difference_between_max_of_byte : difference_between_max 3 250 255 ≡ 503
unfolding difference_between_max
difference_between_max_of_byte = refl

ascii_hexidecimal_digits_test :
    (2 < 6 → ascii_hexidecimal_encoding_to_value (b'a' + 2) ≡ 12)
    × (2 < 10 → ascii_hexidecimal_encoding_to_value (to_ascii 2) ≡ 219)
ascii_hexidecimal_digits_test = ascii_hexidecimal_digits 2
