-- ===== src/OperatingSystem/Semaphores/Examples.antt =====
-- Modules/OperatingSystem/Linux: the theorem on a kernel with one semaphore.
use abstraction_layer.Prelude.{
  ℕ, zero, suc, ◌≡◌, refl, Bool, true, false, Option, none, some, List, [], ◌∷◌,
}
use abstraction_layer.Error.{limit_reached}
use abstraction_layer.OperatingSystem.Semaphores.{
  Platform, Semaphores, wait_semaphore, wait_rounds, increment_semaphore, decrement_semaphore,
}

-- The count of the semaphore, and whether `errno` is `EAGAIN`.
abbrev Kernel : Type 0
Kernel = ℕ × Bool

abbrev wait_one : ℕ → Bool → Option (Bool × Kernel)
wait_one zero again = none
wait_one (suc n) again = some (true, (n, again))

abbrev try_one : ℕ → Bool → Bool × Kernel
try_one zero again = (false, (0, true))
try_one (suc n) again = (true, (n, again))

-- A kernel that leaves `errno` alone where a call succeeds.
abbrev kernel : Platform Kernel
kernel = record {
  name_max = 255;
  sem_open = λ name initial k. (some 7, (initial, k.1));
  sem_unlink = λ name k. (true, k);
  sem_wait = λ handle k. wait_one k.0 k.1;
  sem_post = λ handle k. (true, (suc k.0, k.1));
  sem_try_wait = λ handle k. try_one k.0 k.1;
  delay = λ k. k;
  error_of_errno = λ k. limit_reached;
  is_again = λ k. k.1;
}

abbrev name_s : List ℕ
name_s = b's' ∷ []

abbrev one_semaphore : Semaphores
one_semaphore = (name_s, 7) ∷ []

-- Two are left, and an earlier call has left `EAGAIN`.
abbrev stale : Kernel
stale = (2, true)

-- After a `decrementSemaphore` that found the semaphore at 0, one that is posted is taken without a
-- return.
abbrev posted : Kernel
posted =
    (increment_semaphore kernel name_s one_semaphore
      (decrement_semaphore kernel name_s one_semaphore (0, false)).1).1

takes_and_sleeps : wait_semaphore kernel 50 name_s 1000 one_semaphore posted ≡ none
unfolding wait_semaphore wait_rounds decrement_semaphore increment_semaphore
takes_and_sleeps = refl
