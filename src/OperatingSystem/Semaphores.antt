-- ===== src/OperatingSystem/Semaphores.antt =====
-- Modules/OperatingSystem/Linux/OperatingSystemModule.cpp: the semaphores. The map from names to
-- handles is an association list. What POSIX does is an argument: operations on the state `K` of the
-- kernel, `errno` included. `true` is a call that returns 0.
pub mod Waits
mod Examples
use abstraction_layer.Prelude.{
  ℕ, zero, suc, ◌+◌, ◌-◌, ◌<◌, ◌≡◌, refl, Bool, true, false, Option, none, some, List, [], ◌∷◌,
  arith, ltb, ◌==◌, if◌then◌else◌, length, Bool-cases, inl, inr,
}
use abstraction_layer.Error.{ErrorType, success, timeout, no_data, invalid_parameter}
use abstraction_layer.OperatingSystem.{equal_name}

-- `sem_wait` of a semaphore that stays at 0 does not return: `none`. `error_of_errno` is
-- `fromPlatformError(errno)`, and `is_again` the test `EAGAIN == errno`.
pub record Platform (K : Type 0) : Type 0 where
  pub name_max : ℕ
  pub sem_open : List ℕ → ℕ → K → Option ℕ × K
  pub sem_unlink : List ℕ → K → Bool × K
  pub sem_wait : ℕ → K → Option (Bool × K)
  pub sem_post : ℕ → K → Bool × K
  pub sem_try_wait : ℕ → K → Bool × K
  pub delay : K → K
  pub error_of_errno : K → ErrorType
  pub is_again : K → Bool

abbrev pub Semaphores : Type 0
Semaphores = List (List ℕ × ℕ)

abbrev pub find : List ℕ → Semaphores → Option ℕ
find name [] = none
find name ((n, handle) ∷ ss) =
    let rest = find name ss in if equal_name n name then some handle else rest

abbrev pub erase : List ℕ → Semaphores → Semaphores
erase name [] = []
erase name ((n, handle) ∷ ss) =
    let rest = erase name ss in if equal_name n name then rest else (n, handle) ∷ rest

module _ {K : Type 0} (p : Platform K) where
  abbrev result : Bool → K → ErrorType × K
  result returns_zero k = (if returns_zero then success else p.error_of_errno k, k)

  -- The name with a `/` in front.
  abbrev internal_name : List ℕ → List ℕ
  internal_name name = b'/' ∷ name

  pub delete_semaphore : List ℕ → Semaphores → K → ErrorType × Semaphores × K
  delete_semaphore name ss k =
      let (unlinked, k') = p.sem_unlink (internal_name name) k in
      if unlinked then (success, erase name ss, k') else (p.error_of_errno k', ss, k')

  -- An older semaphore of the same name is deleted first; the maximal count is not used.
  pub create_semaphore : ℕ → List ℕ → Semaphores → K → ErrorType × Semaphores × K
  unfolding delete_semaphore
  create_semaphore initial name ss k =
      let (_, ss', k') = delete_semaphore name ss k in
      let (opened, k'') = p.sem_open (internal_name name) initial k' in
      let created : ErrorType × Semaphores × K = elim opened [
        | none ↦ (p.error_of_errno k'', ss', k'')
        | some handle ↦ (success, (name, handle) ∷ erase name ss', k'')
      ] in
      if ltb (p.name_max - 4) (length name + 1) then (invalid_parameter, ss, k) else created

  -- One failed round of the loop: it waits a millisecond if time is left.
  abbrev time_left : ℕ → ℕ
  time_left remaining = remaining - 1

  abbrev after_failure : ℕ → K → K
  after_failure remaining k = if ltb 0 remaining then p.delay k else k

  -- The loop of `waitSemaphore`, with fuel for its rounds. `none` is a call that has not returned.
  pub wait_rounds : ℕ → ℕ → ℕ → K → Option (ErrorType × K)
  wait_rounds zero handle remaining k = none
  wait_rounds (suc fuel) handle remaining k = elim (p.sem_wait handle k) [
    | none ↦ none
    | some (true, k') ↦
        let again = wait_rounds fuel handle remaining k' in
        if p.is_again k' then again else some (success, k')
    | some (false, k') ↦
        let k'' = after_failure remaining k' in
        let again = wait_rounds fuel handle (time_left remaining) k'' in
        if time_left remaining == 0
        then some (timeout, k'')
        else if p.is_again k''
        then again
        else some (result false k'')
  ]

  pub wait_semaphore : ℕ → List ℕ → ℕ → Semaphores → K → Option (ErrorType × K)
  unfolding wait_rounds
  wait_semaphore fuel name remaining ss k = elim (find name ss) [
    | none ↦ some (no_data, k)
    | some handle ↦ wait_rounds fuel handle remaining k
  ]

  pub increment_semaphore : List ℕ → Semaphores → K → ErrorType × K
  increment_semaphore name ss k = elim (find name ss) [
    | none ↦ (no_data, k)
    | some handle ↦ result (p.sem_post handle k).0 (p.sem_post handle k).1
  ]

  pub decrement_semaphore : List ℕ → Semaphores → K → ErrorType × K
  decrement_semaphore name ss k = elim (find name ss) [
    | none ↦ (no_data, k)
    | some handle ↦ result (p.sem_try_wait handle k).0 (p.sem_try_wait handle k).1
  ]

  -- What POSIX documents of a semaphore that no other thread uses, without signals: `sem_wait` takes one
  -- from a count above 0, and does not return from 0. What a success leaves in `errno` is not documented.
  pub record Counts (handle : ℕ) (count : K → ℕ) : Type 0 where
    pub sleeps : (k : K) → count k ≡ 0 → p.sem_wait handle k ≡ none
    pub takes :
        (k : K)
        → 0 < count k
        → (k' : K) × (p.sem_wait handle k ≡ some (true, k')) × (count k' + 1 ≡ count k)
