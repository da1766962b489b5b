-- ===== src/Lcd/Examples.antt =====
-- Applications/IntegratedCircuits/Lcd/Bridgetek: words of the display list, and calls on three buses.
use abstraction_layer.Prelude.{
  ℕ, suc, ◌+◌, ◌≡◌, ◌<◌, ◌⊎◌, inl, length, refl, ap, arith, true, none, some, List, [], ◌∷◌,
}
use abstraction_layer.Error.{ErrorType, success, failure, timeout, limit_reached, is_success}
use abstraction_layer.Lcd.{
  Spi, host_memory_read, host_memory_write, write_rounds, write_round, read_back, read_bytes,
  transmit, mask_size,
}
use abstraction_layer.Lcd.Display
use abstraction_layer.Lcd.Commands.{begin_graphics_primitive}
use abstraction_layer.Lcd.Decode.{decode}
use abstraction_layer.Lcd.Decode.RoundTrip.{decode-bitmap_source_address}
use abstraction_layer.Lcd.Buffer.{
  free_space, write_data, words_to_bytes, flush_rounds, write_to_command_buffer,
}
use abstraction_layer.Lcd.Buffer.Flush.{flush_exact, flush_cases}
use abstraction_layer.Lcd.Control.{
  ScreenParameters, memory_copy, reg_id_rounds, read_reg_id, read_reset_status,
  set_screen_parameters,
}
use abstraction_layer.Lcd.Control.Endings.{
  read_reset_status_works, length-memory_copy, set_screen_parameters_ends,
}
use abstraction_layer.Lcd.Memory.{Works, host_memory_write_ends, host_memory_write_never_ends}

decode-bitmap_source_address_example :
    decode (Display.bitmap_source_address 4096) ≡ some (begin_graphics_primitive 15)
decode-bitmap_source_address_example = decode-bitmap_source_address 4096 (inl (omega arith))

-- A bus that is not connected, and counts the delays.
abbrev dead_bus : Spi ℕ
dead_bus = record {
  pin_write = λ level w. (success, w);
  tx_blocking = λ bytes w. (timeout, w);
  rx_blocking = λ w. (timeout, 0, w);
  flush_rx_buffer = λ w. w;
  delay = λ w. w + 1;
}

host_memory_write_never_ends_example : host_memory_write dead_bus 1000 0x302094 (1 ∷ []) 5 0 ≡ none
host_memory_write_never_ends_example =
    host_memory_write_never_ends dead_bus (λ bytes w. refl) 1000 0x302094 5 (1 ∷ []) 0

-- A bus that always reads the byte of its state.
abbrev constant_bus : Spi ℕ
constant_bus = record {
  pin_write = λ level w. (success, w);
  tx_blocking = λ bytes w. (success, w);
  rx_blocking = λ w. (success, w, w);
  flush_rx_buffer = λ w. w;
  delay = λ w. w;
}

constant_bus-Works : Works constant_bus
constant_bus-Works = record { pin = λ level w. refl; sends = λ bytes w. refl; receives = λ w. refl }

host_memory_write_ends_example :
    (error : ErrorType) × (w' : ℕ) × (host_memory_write constant_bus (suc 5) 0x302094 (3 ∷ []) 5 7
      ≡ some (error, w'))
    × ((is_success error ≡ true) ⊎ ((error ≡ limit_reached) × (0 < 5)))
host_memory_write_ends_example =
    host_memory_write_ends constant_bus constant_bus-Works 0x302094 5 (3 ∷ []) 7

-- A register that reads as another value ends with LimitReached, one that reads as the value with success.
writes_test : host_memory_write constant_bus 6 0x302094 (4 ∷ []) 5 3 ≡ some (limit_reached, 3)
unfolding host_memory_write write_rounds write_round read_back host_memory_read read_bytes transmit
    mask_size
writes_test = refl

writes_same_test : host_memory_write constant_bus 1 0x302094 (3 ∷ []) 5 3 ≡ some (success, 3)
unfolding host_memory_write write_rounds write_round read_back host_memory_read read_bytes transmit
    mask_size
writes_same_test = refl

reads_test : host_memory_read constant_bus 4 0 1 ≡ (success, 0x01010101, 1)
unfolding host_memory_read read_bytes
reads_test = refl

-- A bus that reads the bytes of its state, one after the other.
abbrev next_byte : List ℕ → ErrorType × ℕ × List ℕ
next_byte [] = (success, 0, [])
next_byte (byte ∷ bytes) = (success, byte, bytes)

abbrev stream_bus : Spi (List ℕ)
stream_bus = record {
  pin_write = λ level w. (success, w);
  tx_blocking = λ bytes w. (success, w);
  rx_blocking = next_byte;
  flush_rx_buffer = λ w. w;
  delay = λ w. w;
}

reads_four : host_memory_read stream_bus 2 free_space (4 ∷ 0 ∷ 9 ∷ []) ≡ (success, 4, 9 ∷ [])
unfolding host_memory_read read_bytes
reads_four = refl

flush_exact_example :
    write_to_command_buffer stream_bus 1 2 (suc 0) 0xFFFFFF01 [] true [] (4 ∷ 0 ∷ 9 ∷ [])
    ≡ some (success, [], 9 ∷ [])
flush_exact_example =
    flush_exact stream_bus 1 2 0 0xFFFFFF01 [] [] (4 ∷ 0 ∷ 9 ∷ []) (9 ∷ []) (omega arith) reads_four

reads_free : host_memory_read stream_bus 2 free_space (244 ∷ 15 ∷ []) ≡ (success, 4084, [])
unfolding host_memory_read read_bytes
reads_free = refl

stream_bus-Works : Works stream_bus
stream_bus-Works = record {
  pin = λ level w. refl;
  sends = λ bytes w. refl;
  receives = receives_next;
}
  where
    receives_next : (w : List ℕ) → is_success (next_byte w).0 ≡ true
    receives_next [] = refl
    receives_next (byte ∷ bytes) = refl

abbrev begun : List ℕ
begun = 244 ∷ 15 ∷ []

abbrev pending : List ℕ
pending = words_to_bytes (0xFFFFFF01 ∷ 7 ∷ [])

flush_cases_example :
    let (_, free, w') = host_memory_read stream_bus 2 free_space begun in
    let flushed =
      write_to_command_buffer stream_bus 1 2 (suc 0) 0xFFFFFF01 (7 ∷ []) true [] begun in
    (length pending < free
      → flushed ≡ some (success, [], (transmit stream_bus write_data pending w').1))
    × (length pending ≡ free → flushed ≡ some (success, [], w'))
    × (free < length pending → flushed ≡ flush_rounds stream_bus 1 2 0 pending w')
flush_cases_example =
    flush_cases stream_bus 0 2 0 0xFFFFFF01 (7 ∷ []) [] begun stream_bus-Works (omega arith)
      (λ e. omega (arith, e, ap (λ r. r.1) reads_free))

read_reset_status_works_test : is_success (read_reset_status constant_bus 7).0 ≡ true
read_reset_status_works_test = read_reset_status_works constant_bus constant_bus-Works 7

-- A buffer of six bytes gets eight.
length-memory_copy_example :
    (is_success (memory_copy constant_bus 4096 6 7).0 ≡ true)
    × (length ((memory_copy constant_bus 4096 6 7).1) ≡ 8)
length-memory_copy_example =
    length-memory_copy constant_bus constant_bus-Works 4096 6 7 (omega arith)

abbrev screen : ScreenParameters
screen = record {
  active_area = record { width = 480; height = 272 };
  horizontal_offset = 43;
  vertical_offset = 12;
  total_horizontal_lines = 548;
  total_vertical_lines = 292;
  horizontal_front_porch = 0;
  vertical_front_porch = 0;
  vertical_pulse_width = 10;
  horizontal_pulse_width = 41;
  swizzle = 0;
  pixel_clock_divisor = 5;
  pixel_clock_polarity = 1;
  dithering = 1;
}

set_screen_parameters_ends_test :
    (error : ErrorType) × (w' : ℕ) × (set_screen_parameters constant_bus 101 screen 7
      ≡ some (error, w'))
    × ((is_success error ≡ true) ⊎ (error ≡ limit_reached))
set_screen_parameters_ends_test =
    set_screen_parameters_ends constant_bus constant_bus-Works 101 screen 7 (omega arith)

-- The identity that is found at the last read is a Timeout all the same.
reads_id_test : read_reg_id constant_bus failure 1 0x7C ≡ (timeout, 0x7C)
unfolding read_reg_id reg_id_rounds host_memory_read read_bytes
reads_id_test = refl

reads_id_early_test : read_reg_id constant_bus failure 2 0x7C ≡ (success, 0x7C)
unfolding read_reg_id reg_id_rounds host_memory_read read_bytes
reads_id_early_test = refl
