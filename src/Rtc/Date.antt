-- ===== src/Rtc/Date.antt =====
-- Applications/IntegratedCircuits/Rtc/NxpPcf8506a: what the calls do on a bus that transfers as many bytes
-- as a buffer has.
use abstraction_layer.Prelude.{ℕ, ◌<◌, ◌≡◌, List, [], length}
use abstraction_layer.Error.{success}
use abstraction_layer.DateTime.{DateTime}
use abstraction_layer.Rtc.{Bus, seconds, date_bytes}

-- The fields are in their ranges, and the year has at most two digits.
pub record IsInRange (t : DateTime) : Type 0 where
  pub second_fits : t.second < 60
  pub minute_fits : t.minute < 60
  pub hour_fits : t.hour < 24
  pub day_fits : t.day < 32
  pub weekday_fits : t.weekday < 7
  pub month_fits : t.month < 13
  pub year_fits : t.year < 100

-- A bus that works, reads as many bytes as the buffer has and sends those that it has, and a clock that
-- stands still: nothing is changed by a read, or by a write of no bytes, and a date in its ranges that is
-- written from the register of the seconds on is kept in the registers of the date.
pub record Transfers {S : Type 0} (bus : Bus S) (control : S → ℕ) (date : S → List ℕ) : Type 0 where
  pub rx_error : (r : ℕ) (buffer : List ℕ) (s : S) → (bus.rx_blocking r buffer s).0 ≡ success
  pub rx_length :
      (r : ℕ) (buffer : List ℕ) (s : S) → length (bus.rx_blocking r buffer s).1 ≡ length buffer
  pub rx_control :
      (r : ℕ) (buffer : List ℕ) (s : S) → control (bus.rx_blocking r buffer s).2 ≡ control s
  pub rx_date : (r : ℕ) (buffer : List ℕ) (s : S) → date (bus.rx_blocking r buffer s).2 ≡ date s
  pub tx_nothing_control : (r : ℕ) (s : S) → control (bus.tx_blocking r [] s).1 ≡ control s
  pub tx_nothing_date : (r : ℕ) (s : S) → date (bus.tx_blocking r [] s).1 ≡ date s
  pub tx_date_error :
      (t : DateTime) (s : S) → (bus.tx_blocking seconds (date_bytes t) s).0 ≡ success
  pub tx_date :
      (t : DateTime) (s : S)
      → IsInRange t
      → date (bus.tx_blocking seconds (date_bytes t) s).1 ≡ date_bytes t
  pub tx_date_control :
      (t : DateTime) (s : S) → control (bus.tx_blocking seconds (date_bytes t) s).1 ≡ control s

module _ {S : Type 0} (bus : Bus S) (behind : ℕ → ℕ) (control : S → ℕ) (date : S → List ℕ)
    (v : Transfers bus control date) where
  -- Neither register changes.
  abbrev Same : S → S → Type 0
  Same s s' = (control s' ≡ control s) × (date s' ≡ date s)
