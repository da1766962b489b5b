-- ===== src/Lcd/Buffer.antt =====
-- Applications/IntegratedCircuits/Lcd/Bridgetek/Bridgetek81x.cpp, `writeToCommandBuffer` and
-- `commandBufferSpace`: the commands for the coprocessor, which are kept until they are flushed. The two
-- call each other when the coprocessor has a fault, so the rounds of the loop have fuel, and so have the
-- writes to the memory.
pub mod Flush
use abstraction_layer.Prelude.{
  ℕ, zero, suc, ◌+◌, ◌*◌, ◌%◌, Bool, true, false, ◌&&◌, ◌||◌, not, Option, none, some, List, [],
  ◌∷◌, ◌++◌, length, leb, ltb, ◌==◌, if◌then◌else◌,
}
use abstraction_layer.Error.{ErrorType, success, negative, limit_reached, is_success}
use abstraction_layer.Lcd.{Spi, to_bytes, host_memory_read, host_memory_write}

abbrev pub capacity : ℕ
capacity = 512

abbrev pub fault_code : ℕ
fault_code = 0xfff

-- Registers of `CoprocessorEngineRegisters`, `MiscellaneousRegisters` and `SpecialRegisters`.
abbrev pub free_space : ℕ
free_space = 0x302574

abbrev pub write_data : ℕ
write_data = 0x302578

abbrev read_fifo_offset : ℕ
read_fifo_offset = 0x3020F8

abbrev write_fifo_offset : ℕ
write_fifo_offset = 0x3020FC

abbrev display_list_offset : ℕ
display_list_offset = 0x302100

abbrev cpu_reset : ℕ
cpu_reset = 0x302020

abbrev pixel_clock : ℕ
pixel_clock = 0x302614

abbrev patch_pointer : ℕ
patch_pointer = 0x309162

abbrev flashattach : ℕ
flashattach = 0xFFFFFF49

abbrev flashfast : ℕ
flashfast = 0xFFFFFF4A

-- The command and its parameters, four bytes each.
abbrev pub words_to_bytes : List ℕ → List ℕ
words_to_bytes [] = []
words_to_bytes (word ∷ words) = to_bytes 4 word ++ words_to_bytes words

-- What a call returns and leaves: the error, the command buffer and the state of the drivers, or
-- nothing when it does not end.
abbrev pub Outcome : Type 0 → Type 0
Outcome W = Option (ErrorType × List ℕ × W)

-- A call after another, where that one was a success.
unfoldable pub on_success : {W : Type 0} → Outcome W → (List ℕ → W → Outcome W) → Outcome W
on_success none next = none
on_success (some (error, buffer, w)) next =
    let rest = next buffer w in if is_success error then rest else some (error, buffer, w)

-- The commands of a call without a flush, with what `flush` does with the buffer else.
unfoldable pub append_commands :
    {W : Type 0} → (List ℕ → W → Outcome W) → ℕ → List ℕ → Bool → List ℕ → W → Outcome W
append_commands flush_now command parameters flush buffer w =
    let commands = buffer ++ words_to_bytes (command ∷ parameters) in
    let flushed = flush_now commands w in
    if leb (length buffer + length parameters * 4 + 4) capacity
    then (if flush then flushed else some (success, commands, w))
    else some (limit_reached, buffer, w)

-- The free space that was read, with the error and the rest.
abbrev pub Space : Type 0 → Type 0
Space W = Option (ℕ × ErrorType × List ℕ × W)

abbrev pub with_space : {W : Type 0} → ℕ → Outcome W → Space W
with_space free none = none
with_space free (some (error, buffer, w)) = some (free, error, buffer, w)

abbrev pub kept : {W : Type 0} → List ℕ → Option (ErrorType × W) → Outcome W
kept buffer none = none
kept buffer (some (error, w)) = some (error, buffer, w)

abbrev negative_after : {W : Type 0} → Outcome W → Outcome W
negative_after none = none
negative_after (some (error, buffer, w)) = some (negative, buffer, w)

-- The end of the loop: another round, or the buffer is cleared.
unfoldable pub end_round : {W : Type 0} → (List ℕ → W → Outcome W) → Space W → Outcome W
end_round again none = none
end_round again (some (free, error, buffer, w)) =
    let rest = again buffer w in
    if not (is_success error) || ltb free (length buffer) then rest else some (error, [], w)

module _ {W : Type 0} (spi : Spi W) (writes pixel_clock_divisor : ℕ) where
  -- `hostMemoryWrite`, with fuel for its loop; it leaves the buffer as it is.
  unfoldable pub write_memory : ℕ → List ℕ → ℕ → List ℕ → W → Outcome W
  write_memory address bytes retries buffer w =
      kept buffer (host_memory_write spi writes address bytes retries w)

  -- The handling of a fault: the engine is reset, its offsets are cleared, the patch pointer is written
  -- back and the two commands for the flash memory are sent.
  unfoldable pub recover : (ℕ → List ℕ → W → Outcome W) → List ℕ → W → Outcome W
  recover send buffer w =
      let (read, patch, w₁) = host_memory_read spi 4 patch_pointer w in
      let zeros = to_bytes 4 0 in
      on_success (some (read, buffer, w₁)) λ b w.
        on_success (write_memory cpu_reset (1 ∷ []) 100 b w) λ b w.
          on_success (write_memory read_fifo_offset zeros 100 b w) λ b w.
            on_success (write_memory write_fifo_offset zeros 100 b w) λ b w.
              on_success (write_memory display_list_offset zeros 100 b w) λ b w.
                on_success (write_memory cpu_reset zeros 100 b w) λ b w.
                  on_success (write_memory patch_pointer (to_bytes 4 patch) 100 b w) λ b w.
                    on_success (send flashattach b w) λ b w. on_success (send flashfast b w) λ b w.
                      negative_after
                        (write_memory pixel_clock (pixel_clock_divisor % 256 ∷ []) 100 b w)

  unfoldable pub command_buffer_space : (ℕ → List ℕ → W → Outcome W) → List ℕ → W → Space W
  command_buffer_space send buffer w =
      let (read, free, w₁) = host_memory_read spi 2 free_space w in
      let recovered = recover send buffer w₁ in
      with_space free (if free == fault_code then recovered else some (read, buffer, w₁))

  -- The buffer is written when it is shorter than the free space.
  unfoldable pub write_buffer : Space W → Space W
  write_buffer none = none
  write_buffer (some (free, error, buffer, w)) =
      let written = write_memory write_data buffer 0 buffer w in
      with_space free (
        if is_success error && ltb (length buffer) free
        then written
        else some (error, buffer, spi.delay w))

  -- The loop until the space is enough.
  unfoldable pub flush_rounds : ℕ → List ℕ → W → Outcome W
  flush_rounds zero buffer w = none
  flush_rounds (suc fuel) buffer w =
      let again = flush_rounds fuel in
      let send = λ (command : ℕ) (b : List ℕ) (w : W). append_commands again command [] true b w in
      end_round again (write_buffer (command_buffer_space send buffer w))

  unfoldable pub write_to_command_buffer : ℕ → ℕ → List ℕ → Bool → List ℕ → W → Outcome W
  write_to_command_buffer fuel command parameters flush buffer w =
      append_commands (flush_rounds fuel) command parameters flush buffer w
