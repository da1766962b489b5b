-- ===== src/Lcd/Control/Endings.antt =====
-- Applications/IntegratedCircuits/Lcd/Bridgetek/Bridgetek81x.cpp: how the calls end on a bus that works.
use abstraction_layer.Prelude.{
  ℕ, zero, suc, ◌+◌, ◌-◌, ◌*◌, ◌/◌, ◌%◌, ◌<◌, ◌≤◌, ◌≡◌, ◌⊎◌, refl, inl, inr, ◌∙◌, arith, Bool, true,
  false, Bool-cases, some, List, [], ◌∷◌, ◌++◌, length, length-append, ltb, leb, ◌&&◌, ◌==◌, add32,
}
use abstraction_layer.Prelude.Text.Laws.{All}
use abstraction_layer.Error.{ErrorType, success, limit_reached, invalid_parameter, is_success}
use abstraction_layer.Lcd.{Spi, to_bytes, host_memory_read}
use abstraction_layer.Lcd.Memory.{Works, read_works, host_memory_write_in}
use abstraction_layer.Lcd.Control.{
  ScreenParameters, Setting, screen_settings, reset_status_rounds, read_reset_status, copy_rounds,
  memory_copy, write_settings, set_screen_parameters,
}

module _ {W : Type 0} (spi : Spi W) (works : Works spi) where
  reset_status_rounds_work :
      (left : ℕ) (w : W) → is_success (reset_status_rounds spi left w).0 ≡ true
  unfolding reset_status_rounds
  reset_status_rounds_work zero w = let reads = read_works spi works 1 0x302020 w in rw reads reads
  reset_status_rounds_work (suc left) w =
      elim (Bool-cases ((host_memory_read spi 1 0x302020 w).1 % 8 == 0)) [
        | inl e ↦ rw e (read_works spi works 1 0x302020 w)
        | inr e ↦ rw e (reset_status_rounds_work left _)
      ]

  -- On a bus that works readResetStatus returns Success, also when an engine is in reset at each of its
  -- reads.
  pub read_reset_status_works : (w : W) → is_success (read_reset_status spi w).0 ≡ true
  unfolding read_reset_status
  read_reset_status_works w = reset_status_rounds_work 499 w

  copy_rounds_work :
      (fuel address size i : ℕ) (error : ErrorType) (copied : List ℕ) (w : W)
      → size ≤ i + fuel * 4
      → (is_success error ≡ true) ⊎ (i < size)
      → (let r = copy_rounds spi fuel address size i error copied w in
          (is_success r.0 ≡ true) × (length (r.1) ≡ length copied + (size - i + 3) / 4 * 4))
  unfolding copy_rounds
  copy_rounds_work zero address size i error copied w enough (inl right) =
      (right, omega (arith, enough))
  copy_rounds_work zero address size i error copied w enough (inr more) =
      absurd (omega (arith, enough, more))
  copy_rounds_work (suc fuel) address size i error copied w enough start =
      let reads = read_works spi works 4 (add32 address i) w in
      elim (Bool-cases (ltb i size)) [
        | inl e ↦
            let (right, same) =
              copy_rounds_work fuel address size (i + 4) _ _ _ (omega (arith, enough))
                (inl reads) in
            rw (e, reads)
              (
                right,
                same
                    ∙ counted (length copied) size i (length (copied ++ to_bytes 4 _)) e
                        (length-append copied _),
              )
        | inr e ↦ rw e (is_over start e, ground (arith, e))
      ]
    where
      counted :
          (n size i m : ℕ)
          → ltb i size ≡ true
          → m ≡ n + 4
          → m + (size - (i + 4) + 3) / 4 * 4 ≡ n + (size - i + 3) / 4 * 4
      counted n size i m e h = ground (arith, e, h)

      is_over :
          (is_success error ≡ true) ⊎ (i < size) → ltb i size ≡ false → is_success error ≡ true
      is_over (inl right) e = right
      is_over (inr more) e = absurd (ground (arith, more, e))

  -- On a bus that works memoryCopy of more than 0 bytes ends with Success and writes as many bytes as the
  -- size of the buffer, rounded up to a multiple of four.
  pub length-memory_copy :
      (address size : ℕ) (w : W)
      → 0 < size
      → (let r = memory_copy spi address size w in
          (is_success r.0 ≡ true) × (length (r.1) ≡ (size + 3) / 4 * 4))
  unfolding memory_copy
  length-memory_copy address size w some_bytes =
      let (right, same) =
        copy_rounds_work size address size 0 invalid_parameter [] w (omega arith)
          (inr some_bytes) in
      (right, same ∙ omega arith)

  no_setting_above : List Setting → Bool
  no_setting_above [] = true
  no_setting_above (s ∷ settings) = leb s.max_retries 100 && no_setting_above settings

  few :
      (writes : ℕ) (settings : List Setting)
      → no_setting_above settings ≡ true
      → 100 < writes
      → All (λ s. s.max_retries < writes) settings
  unfolding no_setting_above
  few writes [] h enough = tt
  few writes (s ∷ settings) h enough = (
    below s.max_retries writes _ h enough,
    few writes settings (rest (leb s.max_retries 100) _ h) enough,
  )
    where
      below : (a b : ℕ) (c : Bool) → leb a 100 && c ≡ true → 100 < b → a < b
      below a b c h enough = ground (arith, h, enough)

      rest : (a b : Bool) → a && b ≡ true → b ≡ true
      rest true b h = h
      rest false b h = ground (arith, h)

  write_settings_end :
      (writes : ℕ) (settings : List Setting) (error : ErrorType) (w : W)
      → All (λ s. s.max_retries < writes) settings
      → (is_success error ≡ true)
      → (error' : ErrorType) × (w' : W) × (write_settings spi writes settings error w
          ≡ some (error', w'))
        × ((is_success error' ≡ true) ⊎ (error' ≡ limit_reached))
  unfolding write_settings
  write_settings_end writes [] error w few right = (error, w, refl, inl right)
  write_settings_end writes (s ∷ settings) error w (few, all) right =
      let (e, w', ends, result) =
        host_memory_write_in spi works writes s.address s.max_retries s.bytes w few in
      elim result [
        | inl good ↦
            let (error', w'', f, result') = write_settings_end writes settings e w' all good in
            (error', w'', rw (ends, good) f, result')
        | inr (limit, many) ↦ (limit_reached, w', rw (ends, limit) refl, inr refl)
      ]

  -- On a bus that works, and with fuel for more rounds than a write has retries, setScreenParameters ends
  -- with Success or with LimitReached, whatever the parameters.
  pub set_screen_parameters_ends :
      (writes : ℕ) (p : ScreenParameters) (w : W)
      → 100 < writes
      → (error : ErrorType) × (w' : W) × (set_screen_parameters spi writes p w ≡ some (error, w'))
        × ((is_success error ≡ true) ⊎ (error ≡ limit_reached))
  unfolding set_screen_parameters screen_settings no_setting_above
  set_screen_parameters_ends writes p w enough =
      write_settings_end writes (screen_settings p) success w
        (few writes (screen_settings p) refl enough) refl
