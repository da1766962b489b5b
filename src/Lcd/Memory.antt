-- ===== src/Lcd/Memory.antt =====
-- Applications/IntegratedCircuits/Lcd/Bridgetek/Bridgetek81x.hpp: when a write to the memory ends.
use abstraction_layer.Prelude.{
  ℕ, zero, suc, ◌+◌, ◌-◌, ◌*◌, ◌<◌, ◌≤◌, ◌≡◌, ◌⊎◌, refl, inl, inr, arith, Bool, true, false, none,
  some, List, [], ◌∷◌, Bool-cases, ltb, ◌&&◌, ◌||◌, ◌==◌,
}
use abstraction_layer.Error.{ErrorType, limit_reached, is_success}
use abstraction_layer.Lcd.{
  Spi, host_memory_read, read_bytes, transmit, read_back, write_round, write_rounds,
  host_memory_write, is_register, is_different,
}

module _ {W : Type 0} (spi : Spi W) where
  -- No transmission succeeds.
  abbrev pub Fails : Type 0
  Fails = (bytes : List ℕ) (w : W) → is_success (spi.tx_blocking bytes w).0 ≡ false

  module _ (fails : Fails) where
    transmit_fails :
        (address : ℕ) (bytes : List ℕ) (w : W) → is_success (transmit spi address bytes w).0 ≡ false
    unfolding transmit
    transmit_fails address bytes w = elim (Bool-cases (is_success (spi.pin_write false w).0)) [
      | inl e ↦ rw (e, fails _ _) (fails _ _)
      | inr e ↦ rw (e, e) e
    ]

    read_fails :
        (bytes address : ℕ) (w : W) → is_success (host_memory_read spi bytes address w).0 ≡ false
    unfolding host_memory_read
    read_fails bytes address w = elim (Bool-cases (is_success (spi.pin_write false w).0)) [
      | inl e ↦ rw (e, fails _ _) (fails _ _)
      | inr e ↦ rw (e, e) e
    ]

    read_back_fails :
        (address : ℕ) (bytes : List ℕ) (error : ErrorType) (retries : ℕ) (w : W)
        → is_success (read_back spi address bytes error retries w).0 ≡ false
    unfolding read_back
    read_back_fails address bytes error retries w =
        elim (Bool-cases (
          is_different spi bytes (host_memory_read spi 4 address w).0
            (host_memory_read spi 4 address w).1)) [
              | inl e ↦ rw e refl
              | inr e ↦ rw e (read_fails 4 address w)
            ]

    write_round_fails :
        (address max_retries retries : ℕ) (bytes : List ℕ) (w : W)
        → is_success (write_round spi address bytes max_retries retries w).0 ≡ false
    unfolding write_round
    write_round_fails address max_retries retries bytes w =
        elim (Bool-cases (ltb retries max_retries && is_register address)) [
          | inl e ↦ rw e (read_back_fails address bytes _ retries _)
          | inr e ↦ rw e (transmit_fails address bytes w)
        ]

    write_rounds_never_end :
        (fuel address max_retries retries : ℕ) (bytes : List ℕ) (w : W)
        → write_rounds spi fuel address bytes max_retries retries w ≡ none
    unfolding write_rounds
    write_rounds_never_end zero address max_retries retries bytes w = refl
    write_rounds_never_end (suc fuel) address max_retries retries bytes w =
        rw (write_round_fails address max_retries retries bytes w)
          (write_rounds_never_end fuel address max_retries _ bytes _)

    -- On a bus on which no transmission succeeds a write never ends, whatever its number of retries:
    -- no number of rounds is enough.
    pub host_memory_write_never_ends :
        (fuel address max_retries : ℕ) (bytes : List ℕ) (w : W)
        → host_memory_write spi fuel address bytes max_retries w ≡ none
    unfolding host_memory_write
    host_memory_write_never_ends fuel address max_retries bytes w =
        write_rounds_never_end fuel address max_retries 0 bytes w

  -- Every transmission and reception succeeds, and the pin can be set.
  pub record Works : Type 0 where
    pub pin : (level : Bool) (w : W) → is_success (spi.pin_write level w).0 ≡ true
    pub sends : (bytes : List ℕ) (w : W) → is_success (spi.tx_blocking bytes w).0 ≡ true
    pub receives : (w : W) → is_success (spi.rx_blocking w).0 ≡ true

  module _ (works : Works) where
    pub transmit_works :
        (address : ℕ) (bytes : List ℕ) (w : W) → is_success (transmit spi address bytes w).0 ≡ true
    unfolding transmit
    transmit_works address bytes w = rw (works.pin false w, works.sends _ _) (works.sends _ _)

    read_bytes_work :
        (bytes place buffer : ℕ) (error : ErrorType) (w : W)
        → is_success error ≡ true
        → is_success (read_bytes spi bytes place buffer error w).0 ≡ true
    unfolding read_bytes
    read_bytes_work zero place buffer error w h = h
    read_bytes_work (suc bytes) place buffer error w h =
        rw (works.sends (0 ∷ []) w) (read_bytes_work bytes (place * 256) _ _ _ (works.receives _))

    pub read_works :
        (bytes address : ℕ) (w : W) → is_success (host_memory_read spi bytes address w).0 ≡ true
    unfolding host_memory_read
    read_works bytes address w =
        rw (works.pin false w, works.sends _ _) (read_bytes_work bytes 1 0 _ _ (works.sends _ _))

    -- A register that is read back is found right, or counts as a retry.
    read_back_works :
        (address : ℕ) (bytes : List ℕ) (error : ErrorType) (retries : ℕ) (w : W)
        → (let r = read_back spi address bytes error retries w in
            ((is_success r.0 ≡ true) × (r.1 ≡ retries))
            ⊎ ((is_success r.0 ≡ false) × (r.1 ≡ retries + 1)))
    unfolding read_back
    read_back_works address bytes error retries w =
        let (read, value, w') = host_memory_read spi 4 address w in
        elim (Bool-cases (is_different spi bytes read value)) [
          | inl e ↦ rw e (inr (refl, refl))
          | inr e ↦ rw e (inl (read_works 4 address w, refl))
        ]

    write_round_works :
        (address max_retries retries : ℕ) (bytes : List ℕ) (w : W)
        → (let r = write_round spi address bytes max_retries retries w in
            ((is_success r.0 ≡ true) × (r.1 ≡ retries))
            ⊎ ((is_success r.0 ≡ false) × (r.1 ≡ retries + 1) × (retries < max_retries)))
    unfolding write_round
    write_round_works address max_retries retries bytes w =
        elim (Bool-cases (ltb retries max_retries && is_register address)) [
          | inl e ↦ rw e (again _ _ (read_back_works address bytes _ retries _) (ground arith))
          | inr e ↦ rw e (inl (transmit_works address bytes w, refl))
        ]
      where
        again :
            (error : ErrorType) (retries' : ℕ)
            → ((is_success error ≡ true) × (retries' ≡ retries))
              ⊎ ((is_success error ≡ false) × (retries' ≡ retries + 1))
            → retries < max_retries
            → ((is_success error ≡ true) × (retries' ≡ retries))
              ⊎ ((is_success error ≡ false) × (retries' ≡ retries + 1) × (retries < max_retries))
        again error retries' (inl right) below = inl right
        again error retries' (inr (wrong, more)) below = inr (wrong, more, below)

    write_rounds_end :
        (fuel address max_retries retries : ℕ) (bytes : List ℕ) (w : W)
        → retries ≤ max_retries
        → max_retries - retries < fuel
        → (error : ErrorType) × (w' : W) × (write_rounds spi fuel address bytes max_retries retries
              w
            ≡ some (error, w'))
          × ((is_success error ≡ true) ⊎ ((error ≡ limit_reached) × (0 < max_retries)))
    unfolding write_rounds
    write_rounds_end zero address max_retries retries bytes w low enough = absurd (omega arith)
    write_rounds_end (suc fuel) address max_retries retries bytes w low enough =
        let (error, retries', w') = write_round spi address bytes max_retries retries w in
        elim (write_round_works address max_retries retries bytes w) [
          | inl (right, same) ↦ elim (Bool-cases (max_retries == 0 || ltb retries' max_retries)) [
            | inl left ↦ (error, w', rw (right, left) refl, inl right)
            | inr spent ↦ (
              limit_reached,
              w',
              rw (right, spent) refl,
              inr (refl, ground (arith, spent, low, same)),
            )
          ]
          | inr (wrong, more, below) ↦
              let (e, w'', f, result) =
                write_rounds_end fuel address max_retries retries' bytes w'
                  (omega (arith, more, below)) (omega (arith, more, below, enough)) in
              (e, w'', rw wrong f, result)
        ]

    pub host_memory_write_in :
        (fuel address max_retries : ℕ) (bytes : List ℕ) (w : W)
        → max_retries < fuel
        → (error : ErrorType) × (w' : W) × (host_memory_write spi fuel address bytes max_retries w
            ≡ some (error, w'))
          × ((is_success error ≡ true) ⊎ ((error ≡ limit_reached) × (0 < max_retries)))
    unfolding host_memory_write
    host_memory_write_in fuel address max_retries bytes w enough =
        write_rounds_end fuel address max_retries 0 bytes w (omega arith) (omega (arith, enough))

    -- On a bus on which everything succeeds a write ends within one more round than its retries: with
    -- success, or with LimitReached when it has any retries.
    pub host_memory_write_ends :
        (address max_retries : ℕ) (bytes : List ℕ) (w : W)
        → (error : ErrorType) × (w' : W) × (host_memory_write spi
              (suc max_retries)
              address
              bytes
              max_retries
              w
            ≡ some (error, w'))
          × ((is_success error ≡ true) ⊎ ((error ≡ limit_reached) × (0 < max_retries)))
    host_memory_write_ends address max_retries bytes w =
        host_memory_write_in (suc max_retries) address max_retries bytes w (omega arith)
