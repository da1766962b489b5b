-- ===== src/Lcd.antt =====
-- Applications/IntegratedCircuits/Lcd/Bridgetek/Bridgetek81x.hpp: the memory of the display, read and
-- written over SPI. The drivers of the bus and of the chip select are an argument, with a state of their
-- own; timeouts are left out. `char` is unsigned, as on the targets of the driver.
pub mod Display
pub mod Commands
pub mod Decode
pub mod Memory
pub mod Buffer
pub mod Control
mod Examples
use abstraction_layer.Prelude.{
  ℕ, zero, suc, ◌+◌, ◌*◌, ◌/◌, ◌%◌, ◌^◌, Bool, true, false, not, ◌&&◌, ◌||◌, Option, none, some,
  List, [], ◌∷◌, leb, ltb, ◌==◌, if◌then◌else◌,
}
use abstraction_layer.Error.{ErrorType, success, failure, limit_reached, is_success}

-- The SPI driver, the pin of the chip select, and the delay of the operating system.
pub record Spi (W : Type 0) : Type 0 where
  pub pin_write : Bool → W → ErrorType × W
  pub tx_blocking : List ℕ → W → ErrorType × W
  pub rx_blocking : W → ErrorType × ℕ × W
  pub flush_rx_buffer : W → W
  pub delay : W → W

-- The lowest bytes of a number, the lowest first, and the number that at most four bytes make.
abbrev pub to_bytes : ℕ → ℕ → List ℕ
to_bytes zero v = []
to_bytes (suc n) v = (v % 256) ∷ to_bytes n (v / 256)

abbrev pub from_bytes : ℕ → List ℕ → ℕ
from_bytes zero bs = 0
from_bytes (suc n) [] = 0
from_bytes (suc n) (b ∷ bs) = b + 256 * from_bytes n bs

abbrev pub registers_start : ℕ
registers_start = 0x302000

abbrev pub is_register : ℕ → Bool
is_register address = leb registers_start address && ltb address (registers_start + 4 * 1024)

-- `valueMask |= valueMask >> 1` and so on: all bits up to the highest of the value, of 32, as the
-- number of values below the mask and with it.
unfoldable pub mask_size : ℕ → ℕ → ℕ → ℕ
mask_size zero size v = size
mask_size (suc bits) size v = if ltb v size then size else mask_size bits (size * 2) v

module _ {W : Type 0} (spi : Spi W) where
  -- The loop over the bytes. A byte that is not received is left out, and the loop goes on.
  unfoldable pub read_bytes : ℕ → ℕ → ℕ → ErrorType → W → ErrorType × ℕ × W
  read_bytes zero place buffer error w = (error, buffer, w)
  read_bytes (suc bytes) place buffer error w =
      let (sent, w₁) = spi.tx_blocking (0 ∷ []) w in
      let (received, byte, w₂) = spi.rx_blocking w₁ in
      let rest =
        read_bytes bytes (place * 256)
          (if is_success received then buffer + byte % 256 * place else buffer) received w₂ in
      if is_success sent then rest else (sent, buffer, w₁)

  unfoldable pub host_memory_read : ℕ → ℕ → W → ErrorType × ℕ × W
  host_memory_read bytes address w =
      let (low, w₁) = spi.pin_write false w in
      let header =
        (address / 2 ^ 16 % 2 ^ 6) ∷ (address / 2 ^ 8 % 2 ^ 8) ∷ (address % 2 ^ 8) ∷ 0 ∷ [] in
      let (error, w₂) : ErrorType × W =
        if is_success low then spi.tx_blocking header w₁ else (low, w₁) in
      let w₃ = spi.flush_rx_buffer w₂ in
      let (error', value, w₄) : ErrorType × ℕ × W =
        if is_success error then read_bytes bytes 1 0 error w₃ else (error, 0, w₃) in
      (error', value, spi.flush_rx_buffer (spi.pin_write true w₄).1)

  -- The address and the data, between the two levels of the chip select.
  unfoldable pub transmit : ℕ → List ℕ → W → ErrorType × W
  transmit address bytes w =
      let (low, w₁) = spi.pin_write false w in
      let header =
        (address / 2 ^ 16 % 2 ^ 6 + 2 ^ 7) ∷ (address / 2 ^ 8 % 2 ^ 8) ∷ (address % 2 ^ 8) ∷ [] in
      let (error, w₂) : ErrorType × W =
        if is_success low then spi.tx_blocking header w₁ else (low, w₁) in
      let (error', w₃) : ErrorType × W =
        if is_success error then spi.tx_blocking bytes w₂ else (error, w₂) in
      (error', (spi.pin_write true w₃).1)

  -- Whether the value that is read differs from the one that was written, a 0 never.
  abbrev pub is_different : List ℕ → ErrorType → ℕ → Bool
  is_different bytes read value =
      let written = from_bytes 4 bytes in
      (ltb 0 written && is_success read) && not (value % mask_size 32 1 written == written)

  -- A register is read back while there are retries left; only the bits up to the highest of the value
  -- are compared. The error of the read replaces that of the write.
  unfoldable pub read_back : ℕ → List ℕ → ErrorType → ℕ → W → ErrorType × ℕ × W
  read_back address bytes error retries w =
      let (read, value, w') = host_memory_read 4 address w in
      if is_different bytes read value then (failure, retries + 1, w') else (read, retries, w')

  -- One round: the error, the number of retries and the state.
  unfoldable pub write_round : ℕ → List ℕ → ℕ → ℕ → W → ErrorType × ℕ × W
  write_round address bytes max_retries retries w =
      let (sent, w₁) = transmit address bytes w in
      if ltb retries max_retries && is_register address
      then read_back address bytes sent retries w₁
      else (sent, retries, w₁)

  -- The loop until a write succeeds, with fuel for its rounds.
  unfoldable pub write_rounds : ℕ → ℕ → List ℕ → ℕ → ℕ → W → Option (ErrorType × W)
  write_rounds zero address bytes max_retries retries w = none
  write_rounds (suc fuel) address bytes max_retries retries w =
      let (error, retries', w') = write_round address bytes max_retries retries w in
      let again = write_rounds fuel address bytes max_retries retries' w' in
      let result = if max_retries == 0 || ltb retries' max_retries then error else limit_reached in
      if is_success error then some (result, w') else again

  unfoldable pub host_memory_write : ℕ → ℕ → List ℕ → ℕ → W → Option (ErrorType × W)
  host_memory_write fuel address bytes max_retries w =
      write_rounds fuel address bytes max_retries 0 w
