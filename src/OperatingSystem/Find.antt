-- ===== src/OperatingSystem/Find.antt =====
-- Modules/OperatingSystem/Linux/OperatingSystemModule.cpp: which thread a search of the table by name
-- finds.
use abstraction_layer.Prelude.{
  ℕ, zero, suc, ◌<◌, ◌≡◌, ◌≢◌, refl, sym, subst, ap, Bool, true, false, ◌&&◌, Option, none, some,
  List, [], ◌∷◌, arith, ◌==◌, length, get_or, set, Bool-cases, ==_iff, inl, inr,
}
use abstraction_layer.Error.{success, negative}
use abstraction_layer.OperatingSystem.{
  OperatingSystem, Thread, ThreadStatus, same_name, equal_name, is_terminated, find_if, no_thread,
  thread_at, thread_id, delete_thread, is_deleted,
}

-- The first thread that passes a test.
pub find_if-first :
    (test : Thread → Bool) (ts : List Thread) (i : ℕ)
    → i < length ts
    → test (get_or ts i no_thread) ≡ true
    → ((j : ℕ) → j < i → test (get_or ts j no_thread) ≡ false)
    → find_if test ts ≡ some i
unfolding find_if
find_if-first test [] i h here before = absurd (omega arith)
find_if-first test (t ∷ ts) zero h here before = rw here refl
find_if-first test (t ∷ ts) (suc i) h here before =
    rw
      (
        before 0 (omega arith),
        find_if-first test ts i (omega arith) here (λ j k. before (suc j) (omega arith)),
      )
      refl

pub find_if-none :
    (test : Thread → Bool) (ts : List Thread)
    → ((j : ℕ) → j < length ts → test (get_or ts j no_thread) ≡ false)
    → find_if test ts ≡ none
unfolding find_if
find_if-none test [] all = refl
find_if-none test (t ∷ ts) all =
    rw (all 0 (omega arith), find_if-none test ts (λ j k. all (suc j) (omega arith))) refl

pub same_name_self : (name : List ℕ) → same_name name name ≡ true
same_name_self [] = refl
same_name_self (x ∷ xs) = ground (arith, same_name_self xs)

pub equal_name_self : (name : List ℕ) → equal_name name name ≡ true
equal_name_self [] = refl
equal_name_self (x ∷ xs) = ground (arith, equal_name_self xs)

pub different_name : (xs ys : List ℕ) → same_name xs ys ≡ false → equal_name xs ys ≡ false
different_name [] ys h = cc
different_name (x ∷ xs) [] h = refl
different_name (x ∷ xs) (y ∷ ys) h = ground (arith, different_name xs ys)

pub another : (b : Bool) (xs ys : List ℕ) → same_name xs ys ≡ false → b && equal_name xs ys ≡ false
another b xs ys h = rw (different_name xs ys h) (ground arith)

pub set-set : (ts : List Thread) (i : ℕ) (a b : Thread) → set (set ts i a) i b ≡ set ts i b
set-set [] i a b = refl
set-set (t ∷ ts) zero a b = refl
set-set (t ∷ ts) (suc i) a b = ap (◌∷◌ t) (set-set ts i a b)

-- A table in which only the thread at index `i` has the name.
module _ (name : List ℕ) (ts : List Thread) (i : ℕ) (inside : i < length ts) where
  abbrev pub OnlyHere : Type 0
  OnlyHere = (j : ℕ) → j < length ts → j ≢ i → same_name (get_or ts j no_thread).name name ≡ false

  pub find_by_name :
      OnlyHere
      → (get_or ts i no_thread).name ≡ name
      → find_if (λ t. same_name t.name name) ts ≡ some i
  find_by_name only here =
      find_if-first (λ t. same_name t.name name) ts i inside (rw here (same_name_self name))
        (λ j h. only j (omega (arith, h, inside)) (λ e. omega (arith, e, h)))

  pub find_terminated :
      OnlyHere
      → (get_or ts i no_thread).name ≡ name
      → is_terminated (get_or ts i no_thread).status ≡ true
      → find_if (λ t. is_terminated t.status && equal_name t.name name) ts ≡ some i
  find_terminated only here dead =
      find_if-first (λ t. is_terminated t.status && equal_name t.name name) ts i inside
        (rw (dead, here) (equal_name_self name))
        (λ j h.
          another _ (get_or ts j no_thread).name name
            (only j (omega (arith, h, inside)) (λ e. omega (arith, e, h))))

  pub find_terminated_none :
      OnlyHere
      → is_terminated (get_or ts i no_thread).status ≡ false
      → find_if (λ t. is_terminated t.status && equal_name t.name name) ts ≡ none
  find_terminated_none only alive =
      find_if-none (λ t. is_terminated t.status && equal_name t.name name) ts at
    where
      at :
          (j : ℕ)
          → j < length ts
          → is_terminated (get_or ts j no_thread).status
              && equal_name (get_or ts j no_thread).name name
            ≡ false
      at j h = elim (Bool-cases (j == i)) [
        | inl here ↦
            subst
              (λ k.
                is_terminated (get_or ts k no_thread).status
                  && equal_name (get_or ts k no_thread).name name
                ≡ false)
              (sym ((==_iff j i).0 here)) (rw alive refl)
        | inr other ↦
            another _ (get_or ts j no_thread).name name (only j h (λ e. ground (arith, e, other)))
      ]

module _ (name : List ℕ) (os : OperatingSystem) (i : ℕ) where
  pub thread_id-some :
      find_if (λ t. same_name t.name name) os.threads ≡ some i
      → thread_id name os ≡ (success, some (thread_at os i).thread_id)
  unfolding thread_id
  thread_id-some h = rw (h, thread_id) refl

  pub delete_thread-some :
      find_if (λ t. same_name t.name name) os.threads ≡ some i
      → (delete_thread name os).1.threads
        ≡ set os.threads i (record (thread_at os i) { status = ThreadStatus.terminated })
  unfolding delete_thread
  delete_thread-some h = rw (h, delete_thread) refl

  pub is_deleted-some :
      (found : Option ℕ)
      → find_if (λ t. same_name t.name name) os.threads ≡ some i
      → find_if (λ t. is_terminated t.status && equal_name t.name name) os.threads ≡ found
      → is_deleted name os ≡ elim found [ none ↦ negative | some j ↦ success ]
  unfolding is_deleted
  is_deleted-some found h f = rw (thread_id-some h, f) refl
