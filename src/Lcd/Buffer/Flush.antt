-- ===== src/Lcd/Buffer/Flush.antt =====
-- Applications/IntegratedCircuits/Lcd/Bridgetek/Bridgetek81x.cpp: what a flush of the commands does.
use abstraction_layer.Prelude.{
  ℕ, suc, ◌+◌, ◌*◌, ◌≡◌, ◌<◌, ◌≤◌, ◌≢◌, ◌∙◌, arith, refl, sym, ap, lt→ltb, true, false, some, List,
  [], ◌∷◌, ◌++◌, length, length-append, leb, ltb, ==_ne,
}
use abstraction_layer.Error.{ErrorType, success, is_success}
use abstraction_layer.Lcd.{
  Spi, to_bytes, host_memory_read, host_memory_write, write_rounds, write_round, transmit,
}
use abstraction_layer.Lcd.Memory.{Works, read_works, transmit_works}
use abstraction_layer.Lcd.Buffer.{
  Outcome, capacity, fault_code, free_space, write_data, words_to_bytes, append_commands, end_round,
  write_memory, command_buffer_space, write_buffer, flush_rounds, write_to_command_buffer,
}

module _ {W : Type 0} (spi : Spi W) (writes pixel_clock_divisor : ℕ) where
  length-words_to_bytes : (words : List ℕ) → length (words_to_bytes words) ≡ length words * 4
  length-words_to_bytes [] = refl
  length-words_to_bytes (word ∷ words) =
      length-append (to_bytes 4 word) (words_to_bytes words)
      ∙ omega (arith, length-words_to_bytes words)

  fits :
      (command : ℕ) (parameters buffer : List ℕ)
      → length (buffer ++ words_to_bytes (command ∷ parameters)) ≤ capacity
      → leb (length buffer + length parameters * 4 + 4) capacity ≡ true
  fits command parameters buffer h = ground (
    arith,
    h,
    length-append buffer (words_to_bytes (command ∷ parameters)),
    length-words_to_bytes (command ∷ parameters),
  )

  space :
      (send : ℕ → List ℕ → W → Outcome W) (buffer : List ℕ) (w w' : W) (free : ℕ)
      → host_memory_read spi 2 free_space w ≡ (success, free, w')
      → free ≢ fault_code
      → command_buffer_space spi writes pixel_clock_divisor send buffer w
        ≡ some (free, success, buffer, w')
  unfolding command_buffer_space
  space send buffer w w' free read sound = rw (read, ==_ne free fault_code sound) refl

  end_round_done :
      (again : List ℕ → W → Outcome W) (free : ℕ) (commands : List ℕ) (w : W)
      → length commands ≤ free
      → end_round again (some (free, success, commands, w)) ≡ some (success, [], w)
  unfolding end_round
  end_round_done again free commands w enough = rw (below free (length commands) enough) refl
    where
      below : (a b : ℕ) → b ≤ a → ltb a b ≡ false
      below a b h = ground arith

  -- A flush of commands that are as long as the free space that is read returns Success and clears the
  -- buffer, but writes nothing: after the read there is only the delay.
  pub flush_exact :
      (fuel command : ℕ) (parameters buffer : List ℕ) (w w' : W)
      → (let commands = buffer ++ words_to_bytes (command ∷ parameters) in
          length commands ≤ capacity)
      → (let commands = buffer ++ words_to_bytes (command ∷ parameters) in
          host_memory_read spi 2 free_space w ≡ (success, length commands, w'))
      → write_to_command_buffer spi writes pixel_clock_divisor
          (suc fuel)
          command
          parameters
          true
          buffer
          w
        ≡ some (success, [], spi.delay w')
  unfolding write_to_command_buffer append_commands flush_rounds write_buffer
  flush_exact fuel command parameters buffer w w' small read =
      let commands = buffer ++ words_to_bytes (command ∷ parameters) in
      let size = length commands in
      rw
        (
          fits command parameters buffer small,
          space _ commands w w' size read (λ e. omega (arith, small, e)),
          ltb_same size,
        )
        (end_round_done _ size commands _ (omega arith))
    where
      ltb_same : (n : ℕ) → ltb n n ≡ false
      ltb_same n = ground arith

  flush_writes :
      (fuel command free : ℕ) (parameters buffer : List ℕ) (w w' w'' : W)
      → (let commands = buffer ++ words_to_bytes (command ∷ parameters) in
          (length commands ≤ capacity) × (length commands < free))
      → free ≢ fault_code
      → host_memory_read spi 2 free_space w ≡ (success, free, w')
      → (let commands = buffer ++ words_to_bytes (command ∷ parameters) in
          host_memory_write spi writes write_data commands 0 w' ≡ some (success, w''))
      → write_to_command_buffer spi writes pixel_clock_divisor
          (suc fuel)
          command
          parameters
          true
          buffer
          w
        ≡ some (success, [], w'')
  unfolding write_to_command_buffer append_commands flush_rounds write_buffer write_memory
  flush_writes fuel command free parameters buffer w w' w'' (small, less) sound read written =
      let commands = buffer ++ words_to_bytes (command ∷ parameters) in
      let size = length commands in
      rw
        (
          fits command parameters buffer small,
          space _ commands w w' free read sound,
          below size free less,
          written,
        )
        (end_round_done _ free commands _ (omega (arith, less)))
    where
      below : (a b : ℕ) → a < b → ltb a b ≡ true
      below a b h = ground arith

  flush_again :
      (fuel command free : ℕ) (parameters buffer : List ℕ) (w w' : W)
      → (let commands = buffer ++ words_to_bytes (command ∷ parameters) in
          (length commands ≤ capacity) × (free < length commands))
      → free ≢ fault_code
      → host_memory_read spi 2 free_space w ≡ (success, free, w')
      → write_to_command_buffer spi writes pixel_clock_divisor
          (suc fuel)
          command
          parameters
          true
          buffer
          w
        ≡ flush_rounds spi writes pixel_clock_divisor fuel
            (buffer ++ words_to_bytes (command ∷ parameters))
            (spi.delay w')
  unfolding write_to_command_buffer append_commands flush_rounds write_buffer end_round
  flush_again fuel command free parameters buffer w w' (small, more) sound read =
      let commands = buffer ++ words_to_bytes (command ∷ parameters) in
      let size = length commands in
      rw
        (
          fits command parameters buffer small,
          space _ commands w w' free read sound,
          above size free more,
          lt→ltb free size more,
        )
        refl
    where
      above : (a b : ℕ) → b < a → ltb a b ≡ false
      above a b h = ground arith

  success_of : (error : ErrorType) → is_success error ≡ true → error ≡ success
  success_of success h = refl
  success_of error h = cc

  written_once :
      (address n : ℕ) (bytes : List ℕ) (w : W)
      → Works spi
      → host_memory_write spi (suc n) address bytes 0 w
        ≡ some (success, (transmit spi address bytes w).1)
  unfolding host_memory_write write_rounds write_round
  written_once address n bytes w works =
      rw (success_of _ (transmit_works spi works address bytes w)) refl

  free_read :
      (w : W)
      → Works spi
      → let (error, free, w') = host_memory_read spi 2 free_space w in
        host_memory_read spi 2 free_space w ≡ (success, free, w')
  free_read w works =
      let (error, free, w') = host_memory_read spi 2 free_space w in
      ap (λ e. (e, free, w')) (success_of error (read_works spi works 2 free_space w))

module _ {W : Type 0} (spi : Spi W) (writes pixel_clock_divisor : ℕ) where
  -- On a bus that works, where no fault is read: a flush of commands that are shorter than the free space
  -- that is read sends them all at once, one that is as long sends nothing, and both return Success
  -- with an empty buffer; one that is longer waits and goes on with another round of the same commands.
  pub flush_cases :
      (fuel command : ℕ) (parameters buffer : List ℕ) (w : W)
      → Works spi
      → length (buffer ++ words_to_bytes (command ∷ parameters)) ≤ capacity
      → (host_memory_read spi 2 free_space w).1 ≢ fault_code
      → let commands = buffer ++ words_to_bytes (command ∷ parameters) in
        let (_, free, w') = host_memory_read spi 2 free_space w in
        let flushed =
          write_to_command_buffer spi
            (suc writes)
            pixel_clock_divisor
            (suc fuel)
            command
            parameters
            true
            buffer
            w in
        (length commands < free
          → flushed ≡ some (success, [], (transmit spi write_data commands w').1))
        × (length commands ≡ free → flushed ≡ some (success, [], spi.delay w'))
        × (free < length commands
            → flushed
              ≡ flush_rounds spi (suc writes) pixel_clock_divisor fuel commands (spi.delay w'))
  flush_cases fuel command parameters buffer w works small sound =
      let commands = buffer ++ words_to_bytes (command ∷ parameters) in
      let (_, free, w') = host_memory_read spi 2 free_space w in
      let read = free_read spi (suc writes) pixel_clock_divisor w works in
      (
        λ less.
            flush_writes spi (suc writes) pixel_clock_divisor fuel command free parameters buffer w
              w' _ (small, less) sound read
              (written_once spi (suc writes) pixel_clock_divisor write_data writes commands w'
                works),
        λ same.
            flush_exact spi (suc writes) pixel_clock_divisor fuel command parameters buffer w w'
              small (read ∙ ap (λ n. (success, n, w')) (sym same)),
        λ more.
            flush_again spi (suc writes) pixel_clock_divisor fuel command free parameters buffer w
              w' (small, more) sound read,
      )
