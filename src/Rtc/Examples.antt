-- ===== src/Rtc/Examples.antt =====
-- Applications/IntegratedCircuits/Rtc/NxpPcf8506a: the theorems on a clock whose state is its control
-- register and the seven registers of the date.
use abstraction_layer.Prelude.{
  length, replicate, ℕ, ◌≡◌, refl, List, [], ◌∷◌, ◌==◌, if◌then◌else◌, get_or,
}
use abstraction_layer.Error.{success}
use abstraction_layer.DateTime.{DateTime}
use abstraction_layer.Rtc.{Bus, control1, to_binary_coded_decimal}

-- The clock with its registers, for a read of the buffer's length and a write of any.
abbrev registers : Bus (ℕ × List ℕ)
registers = record {
  tx_blocking = λ r bytes s. (success, stored r bytes s);
  rx_blocking = λ r buffer s. (success, fetched (length buffer) r s, s);
}
  where
    stored : ℕ → List ℕ → ℕ × List ℕ → ℕ × List ℕ
    stored r [] s = s
    stored r (b ∷ bytes) s = if r == control1 then (b, s.1) else (s.0, b ∷ bytes)

    fetched : ℕ → ℕ → ℕ × List ℕ → List ℕ
    fetched n r s = replicate n (if r == control1 then s.0 else get_or s.1 0 0)

abbrev evening : DateTime
evening = record {
  second = 59;
  minute = 8;
  hour = 21;
  day = 30;
  weekday = 4;
  month = 11;
  year = 54;
}

abbrev noon : DateTime
noon = record { second = 0; minute = 0; hour = 12; day = 1; weekday = 1; month = 1; year = 0 }

to_binary_coded_decimal_digits : to_binary_coded_decimal 59 ≡ 0x59
unfolding to_binary_coded_decimal
to_binary_coded_decimal_digits = refl

abbrev begin : ℕ × List ℕ
begin = (0xa2, [])
