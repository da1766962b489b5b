-- ===== src/Lcd/Control.antt =====
-- Applications/IntegratedCircuits/Lcd/Bridgetek/Bridgetek81x.cpp: the registers that are read until the
-- chip has started, the parameters of the screen, and a copy of the memory.
pub mod Endings
use abstraction_layer.Prelude.{
  ℕ, zero, suc, ◌+◌, ◌*◌, ◌%◌, ◌^◌, Bool, ◌&&◌, Option, none, some, List, [], ◌∷◌, ◌++◌, length,
  leb, ltb, ◌==◌, if◌then◌else◌, ◌>>=◌, add32,
}
use abstraction_layer.Error.{ErrorType, success, timeout, invalid_parameter, is_success}
use abstraction_layer.Image.{Area}
use abstraction_layer.Lcd.{Spi, to_bytes, host_memory_read, host_memory_write}

pub record ScreenParameters : Type 0 where
  pub active_area : Area
  pub horizontal_offset : ℕ
  pub vertical_offset : ℕ
  pub total_horizontal_lines : ℕ
  pub total_vertical_lines : ℕ
  pub horizontal_front_porch : ℕ
  pub vertical_front_porch : ℕ
  pub vertical_pulse_width : ℕ
  pub horizontal_pulse_width : ℕ
  pub swizzle : ℕ
  pub pixel_clock_divisor : ℕ
  pub pixel_clock_polarity : ℕ
  pub dithering : ℕ

-- The address and the bytes of a write, and its number of retries.
pub record Setting : Type 0 where
  pub address : ℕ
  pub bytes : List ℕ
  pub max_retries : ℕ

-- A write with 100 retries, of so many bytes.
abbrev setting : ℕ → ℕ → ℕ → Setting
setting address size value = record {
  address = address;
  bytes = to_bytes size value;
  max_retries = 100;
}

-- The writes of `setScreenParameters`, in their order.
unfoldable pub screen_settings : ScreenParameters → List Setting
screen_settings p =
    setting 0x302034 4 (p.active_area.width)
    ∷ setting 0x30202C 2 (p.total_horizontal_lines)
    ∷ setting 0x302030 2 (p.horizontal_offset)
    ∷ setting 0x302038 2 (p.horizontal_front_porch)
    ∷ setting 0x30203C 2 ((p.horizontal_front_porch + p.horizontal_pulse_width) % 2 ^ 16)
    ∷ setting 0x302048 4 (p.active_area.height)
    ∷ setting 0x302040 2 (p.total_vertical_lines)
    ∷ setting 0x302044 2 (p.vertical_offset)
    ∷ setting 0x30204C 2 (p.vertical_front_porch)
    ∷ setting 0x302050 2 ((p.vertical_front_porch + p.vertical_pulse_width) % 2 ^ 16)
    ∷ record { address = 0x302064; bytes = to_bytes 1 p.swizzle; max_retries = 0 }
    ∷ setting 0x302068 1 0
    ∷ setting 0x30206C 1 (p.pixel_clock_polarity)
    ∷ setting 0x302060 1 (p.dithering)
    ∷ []

-- Whether the coprocessor, the touch and the audio engine are to be reset.
abbrev reset_bits : Bool → Bool → Bool → ℕ
reset_bits coprocessor touch audio =
    (if coprocessor then 1 else 0) + (if touch then 2 else 0) + (if audio then 4 else 0)

module _ {W : Type 0} (spi : Spi W) where
  -- The reads of `readRegId`, with the number of retries that are left.
  unfoldable pub reg_id_rounds : ℕ → ℕ → ErrorType → W → ErrorType × W
  reg_id_rounds zero data_read error w = (error, w)
  reg_id_rounds (suc left) data_read error w =
      let (read, data_read', w') = host_memory_read spi 1 0x302000 w in
      let rest = reg_id_rounds left data_read' (if left == 0 then timeout else read) w' in
      if data_read == 0x7C then (error, w) else rest

  -- The error that is not initialised is an argument: it is returned without retries.
  unfoldable pub read_reg_id : ErrorType → ℕ → W → ErrorType × W
  read_reg_id uninitialised max_retries w = reg_id_rounds max_retries 0 uninitialised w

  unfoldable pub read_chip_id : W → ErrorType × ℕ × W
  read_chip_id w = host_memory_read spi 4 0xC0000 w

  -- The reads of `readResetStatus`, with the number of retries that are left after the next.
  unfoldable pub reset_status_rounds : ℕ → W → ErrorType × W
  reset_status_rounds zero w =
      let (read, status, w') = host_memory_read spi 1 0x302020 w in
      (if is_success read then read else timeout, w')
  reset_status_rounds (suc left) w =
      let (read, status, w') = host_memory_read spi 1 0x302020 w in
      let rest = reset_status_rounds left w' in if status % 8 == 0 then (read, w') else rest

  unfoldable pub read_reset_status : W → ErrorType × W
  read_reset_status w = reset_status_rounds 499 w

  -- The loop of `memoryCopy`, with the bytes that were copied to the front of the buffer.
  unfoldable pub copy_rounds : ℕ → ℕ → ℕ → ℕ → ErrorType → List ℕ → W → ErrorType × List ℕ × W
  copy_rounds zero address size i error copied w = (error, copied, w)
  copy_rounds (suc fuel) address size i error copied w =
      let (read, word, w') = host_memory_read spi 4 (add32 address i) w in
      let rest = copy_rounds fuel address size (i + 4) read (copied ++ to_bytes 4 word) w' in
      if ltb i size
      then (if is_success read then rest else (read, copied, w'))
      else (error, copied, w)

  -- `bytesCopied` grows by the number of the bytes.
  unfoldable pub memory_copy : ℕ → ℕ → W → ErrorType × List ℕ × W
  memory_copy address size w = copy_rounds size address size 0 invalid_parameter [] w

  -- Writes until one is not a success; each has fuel for its loop.
  unfoldable pub write_settings : ℕ → List Setting → ErrorType → W → Option (ErrorType × W)
  write_settings writes [] error w = some (error, w)
  write_settings writes (s ∷ settings) error w =
      let rest = write_settings writes settings in
      host_memory_write spi writes s.address s.bytes s.max_retries w >>= λ r.
      if is_success r.0 then rest r.0 r.1 else some (r.0, r.1)

  unfoldable pub set_screen_parameters : ℕ → ScreenParameters → W → Option (ErrorType × W)
  set_screen_parameters writes p w = write_settings writes (screen_settings p) success w

  unfoldable pub reset_engines : ℕ → Bool → Bool → Bool → W → Option (ErrorType × W)
  reset_engines writes audio touch coprocessor w =
      write_settings writes
        (record {
          address = 0x302020;
          bytes = to_bytes 1 (reset_bits coprocessor touch audio);
          max_retries = 10;
        }
          ∷ record { address = 0x302020; bytes = 0 ∷ []; max_retries = 10 }
          ∷ [])
        success w
