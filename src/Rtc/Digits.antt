-- ===== src/Rtc/Digits.antt =====
-- Applications/IntegratedCircuits/Rtc/NxpPcf8506a: the two decimal digits in a byte.
use abstraction_layer.Prelude.{ℕ, ◌<◌, ◌≡◌, arith}
use abstraction_layer.Rtc.{to_binary_coded_decimal, from_binary_coded_decimal}

-- Decoding undoes encoding for every number below 160.
pub from-to_binary_coded_decimal :
    (n : ℕ) → n < 160 → from_binary_coded_decimal (to_binary_coded_decimal n) ≡ n
unfolding from_binary_coded_decimal to_binary_coded_decimal
from-to_binary_coded_decimal n h = omega arith
