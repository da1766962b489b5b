-- ===== src/OperatingSystem/Semaphores/Waits.antt =====
-- Modules/OperatingSystem/Linux/OperatingSystemModule.cpp, `waitSemaphore`: the loop tests `errno` after a
-- successful `sem_wait` too, which POSIX does not say anything about.
use abstraction_layer.Prelude.{ℕ, ◌<◌, ◌≤◌, ◌≡◌, ◌⊎◌, true, false, none, some}
use abstraction_layer.Error.{success}
use abstraction_layer.OperatingSystem.Semaphores.{Platform, Semaphores, wait_rounds, Counts}

module _ {K : Type 0} (p : Platform K) (handle : ℕ) (count : K → ℕ)
    (posix : Counts p handle count) where
  -- From the first state the semaphore is taken, and taken again while `errno` is `EAGAIN`.
  pub data Takes : K → K → Type 0 where
    last : {k k' : K} → p.sem_wait handle k ≡ some (true, k') → p.is_again k' ≡ false → Takes k k'
    again :
        {k k' k'' : K}
        → p.sem_wait handle k ≡ some (true, k')
        → p.is_again k' ≡ true
        → Takes k' k''
        → Takes k k''

  -- Every take leaves `EAGAIN`, until the semaphore is at 0.
  pub data Drains : K → Type 0 where
    empty : {k : K} → count k ≡ 0 → Drains k
    drain :
        {k k' : K}
        → p.sem_wait handle k ≡ some (true, k')
        → p.is_again k' ≡ true
        → Drains k'
        → Drains k

  abbrev Ends : ℕ → K → Type 0
  Ends remaining k =
      ((k' : K) × Takes k k'
        × (count k' < count k)
        × ((fuel : ℕ)
            → count k ≤ fuel
            → wait_rounds p fuel handle remaining k ≡ some (success, k')))
      ⊎ (Drains k × ((fuel : ℕ) → wait_rounds p fuel handle remaining k ≡ none))
