-- ===== src/Rtc.antt =====
-- Applications/IntegratedCircuits/Rtc/NxpPcf8506a: a clock with registers of 8 bits behind a bus. The
-- bus is an argument: operations on the state `S` of the clock, each at the register where the
-- transfer begins. The clock's address and the timeout of a second are the same in every call and are
-- left out. A buffer is the list of its bytes. That of `Container(std::integral_constant<size_t, n>)` is
-- set to an empty string, so it has no byte, whatever `n` is; `behind` is what memory holds behind a
-- string, which `operator[]` reads there without a check.
pub mod Digits
pub mod Date
mod Examples
use abstraction_layer.Prelude.{
  ℕ, ◌+◌, ◌-◌, ◌*◌, ◌/◌, ◌%◌, ◌^◌, Bool, List, [], ◌∷◌, if◌then◌else◌, get_or, set, length, ltb,
}
use abstraction_layer.Error.{ErrorType, success, not_implemented, is_success}
use abstraction_layer.DateTime.{DateTime}

-- `txBlocking` and `rxBlocking` with a buffer; the second has the bytes of the buffer before and after.
pub record Bus (S : Type 0) : Type 0 where
  pub tx_blocking : ℕ → List ℕ → S → ErrorType × S
  pub rx_blocking : ℕ → List ℕ → S → ErrorType × List ℕ × S

abbrev pub new_container : List ℕ
new_container = []

-- `operator[]`, as a value.
abbrev pub element : (ℕ → ℕ) → List ℕ → ℕ → ℕ
element behind bytes i = if ltb i (length bytes) then get_or bytes i 0 else behind i

-- `RegisterMap`, the two registers that the code addresses.
abbrev pub control1 : ℕ
control1 = 0

abbrev pub seconds : ℕ
seconds = 4

-- On `uint8_t`. The shift leaves four zero bits, so that `|=` adds.
pub to_binary_coded_decimal : ℕ → ℕ
to_binary_coded_decimal value = (value / 10 * 16) % 256 + value % 10

pub from_binary_coded_decimal : ℕ → ℕ
from_binary_coded_decimal b = (b % 16 + b / 16 * 10) % 256

-- `b |= 1 << k` and `b &= ~(1 << k)`.
abbrev pub bit : ℕ → ℕ → ℕ
bit k b = b / 2 ^ k % 2

abbrev pub set_bit : ℕ → ℕ → ℕ
set_bit k b = b + (1 - bit k b) * 2 ^ k

abbrev pub clear_bit : ℕ → ℕ → ℕ
clear_bit k b = b - bit k b * 2 ^ k

-- The seven bytes of a date; the year is passed as a `uint8_t`.
abbrev pub date_bytes : DateTime → List ℕ
date_bytes t =
    to_binary_coded_decimal t.second
    ∷ to_binary_coded_decimal t.minute
    ∷ to_binary_coded_decimal t.hour
    ∷ to_binary_coded_decimal t.day
    ∷ to_binary_coded_decimal t.weekday
    ∷ to_binary_coded_decimal t.month
    ∷ to_binary_coded_decimal (t.year % 256)
    ∷ []

abbrev pub date_of_bytes : (ℕ → ℕ) → DateTime
date_of_bytes byte = record {
  second = from_binary_coded_decimal (byte 0);
  minute = from_binary_coded_decimal (byte 1);
  hour = from_binary_coded_decimal (byte 2);
  day = from_binary_coded_decimal (byte 3);
  weekday = from_binary_coded_decimal (byte 4);
  month = from_binary_coded_decimal (byte 5);
  year = from_binary_coded_decimal (byte 6);
}

module _ {S : Type 0} (bus : Bus S) (behind : ℕ → ℕ) where
  -- Read the control register into a new buffer, change its first byte, and send the buffer, unless the
  -- read fails.
  abbrev pub modify_control : (ℕ → ℕ) → S → ErrorType × S
  modify_control change s =
      let (error, bytes, s') = bus.rx_blocking control1 new_container s in
      if is_success error
      then bus.tx_blocking control1 (set bytes 0 (change (element behind bytes 0))) s'
      else (error, s')

  unfoldable pub set_hour_mode : Bool → S → ErrorType × S
  set_hour_mode twenty_four = modify_control λ b. if twenty_four then clear_bit 1 b else set_bit 1 b

  unfoldable pub start_clock : S → ErrorType × S
  start_clock = modify_control λ b. clear_bit 7 (clear_bit 5 b)

  unfoldable pub stop_clock : S → ErrorType × S
  stop_clock = modify_control (set_bit 5)

  -- The write's error; the two calls after it run only if the register could be read.
  unfoldable pub software_reset : S → ErrorType × S
  software_reset s =
      let (error, bytes, s') = bus.rx_blocking control1 new_container s in
      let (error', s'') = bus.tx_blocking control1 (set bytes 0 0x58) s' in
      if is_success error then (error', (start_clock (stop_clock s'').1).1) else (error, s')

  -- This buffer is filled by `push_back`.
  unfoldable pub write_date : DateTime → S → ErrorType × S
  write_date t s =
      let (error, s') = bus.tx_blocking seconds (date_bytes t) (stop_clock s).1 in
      (error, (start_clock s').1)

  -- On an error the date is left alone.
  unfoldable pub read_date : DateTime → S → ErrorType × DateTime × S
  read_date t s =
      let (error, bytes, s') = bus.rx_blocking seconds new_container s in
      (error, if is_success error then date_of_bytes (element behind bytes) else t, s')

  pub write_alarm : DateTime → S → ErrorType × S
  write_alarm t s = (not_implemented, s)

  pub read_alarm : DateTime → S → ErrorType × DateTime × S
  read_alarm t s = (not_implemented, t, s)
