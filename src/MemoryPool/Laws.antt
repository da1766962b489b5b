-- ===== src/MemoryPool/Laws.antt =====
-- Applications/MemoryPool/MemoryPool.hpp: which block is allocated, and what giving it back does.
use native.Mathlib.Nat.{mul-lt-mul_of_pos_right}
use abstraction_layer.Prelude.{
  ℕ, zero, suc, ◌+◌, ◌*◌, ◌≤◌, ◌<◌, ◌≡◌, ◌≢◌, ◌⊎◌, refl, subst, subst₂, false, ap, Option, none,
  some, List, [], ◌∷◌, arith, ◌==◌, if◌then◌else◌, length, get_or, set, length-set, Option-cases,
  Bool-cases, inl, inr, ==_iff, ==_self, ==_ne,
}
use abstraction_layer.Error.{success, no_memory}
use abstraction_layer.MemoryPool.{
  MemoryPool, first_available, block_at, address, allocate, deallocate,
}

-- The number of free blocks.
abbrev pub free_blocks : List ℕ → ℕ
free_blocks [] = 0
free_blocks (b ∷ bs) = (if b == 0 then 1 else 0) + free_blocks bs

-- What the first free block is: free, inside the map, and no block before it is free.
pub record IsFirstFree (bs : List ℕ) (i : ℕ) : Type 0 where
  pub inside : i < length bs
  pub free : get_or bs i 1 ≡ 0
  pub first : (j : ℕ) → j < i → get_or bs j 1 ≢ 0
  pub count : suc (free_blocks (set bs i 1)) ≡ free_blocks bs

later_free : (b : ℕ) (bs : List ℕ) (k : ℕ) → IsFirstFree bs k → IsFirstFree (suc b ∷ bs) (suc k)
later_free b bs k v = record {
  inside = omega (arith, v.inside);
  free = v.free;
  first = not_before;
  count = omega (arith, v.count);
}
  where
    not_before : (j : ℕ) → j < suc k → get_or (suc b ∷ bs) j 1 ≢ 0
    not_before zero h = λ e. omega (arith, e)
    not_before (suc j) h = v.first j (omega arith)

first_free : (bs : List ℕ) → IsFirstFree (0 ∷ bs) 0
first_free bs = record {
  inside = omega arith;
  free = refl;
  first = λ j h. absurd (omega arith);
  count = omega arith;
}

first_available-some : (bs : List ℕ) (i : ℕ) → first_available bs ≡ some i → IsFirstFree bs i
unfolding first_available
first_available-some [] i e = cc
first_available-some (zero ∷ bs) i e = subst (IsFirstFree (0 ∷ bs)) (ground arith) (first_free bs)
first_available-some (suc b ∷ bs) i e = elim (Option-cases (first_available bs)) [
  | inl full ↦ ground (arith, full)
  | inr (k, found) ↦
      subst (IsFirstFree (suc b ∷ bs)) (ground (arith, found))
        (later_free b bs k (first_available-some bs k found))
]

first_available-none : (bs : List ℕ) → first_available bs ≡ none → free_blocks bs ≡ 0
unfolding first_available
first_available-none [] e = refl
first_available-none (b ∷ bs) e = elim (Option-cases (first_available bs)) [
  | inl h ↦ ground (arith, first_available-none bs h)
  | inr (i, h) ↦ ground arith
]

-- With distinct addresses, the block that stands at the address of block `i` is block `i`.
block_at-address :
    (base size_of i j blocks : ℕ)
    → 0 < size_of
    → i ≤ j
    → j < i + blocks
    → block_at base size_of (base + j * size_of) i blocks ≡ some j
unfolding block_at
block_at-address base size_of i j zero pos lo hi = absurd (omega arith)
block_at-address base size_of i j (suc blocks) pos lo hi = elim (Bool-cases (j == i)) [
  | inl here ↦ rw ((==_iff j i).0 here, ==_self (base + i * size_of))
  | inr later ↦
      rw (==_ne (base + j * size_of) (base + i * size_of) (apart later))
        (block_at-address base size_of (suc i) j blocks pos (ground arith) (omega arith))
]
  where
    apart : (j == i) ≡ false → base + j * size_of ≢ base + i * size_of
    apart h = λ e.
        omega (arith, e, mul-lt-mul_of_pos_right {m = i} {n = j} {k = size_of} (ground arith) pos)

-- Writing a value and then the old value again changes nothing.
set-set_back :
    {A : Type 0} (xs : List A) (i : ℕ) (v d old : A)
    → i < length xs
    → get_or xs i d ≡ old
    → set (set xs i v) i old ≡ xs
set-set_back [] i v d old h e = refl
set-set_back (x ∷ xs) zero v d old h e = rw e
set-set_back (x ∷ xs) (suc i) v d old h e = ap (◌∷◌ x) (set-set_back xs i v d old (omega arith) e)

-- A block that is free holds no object.
abbrev pub Agree : {T : Type 0} → List ℕ → List (Option T) → Type 0
Agree [] [] = Unit {0}
Agree [] (o ∷ os) = ⊥
Agree (b ∷ bs) [] = ⊥
Agree (b ∷ bs) (o ∷ os) = ((b ≡ 0) → (o ≡ none)) × Agree bs os

Agree-at :
    {T : Type 0} (bs : List ℕ) (os : List (Option T)) (i : ℕ) (d : Option T)
    → Agree bs os
    → i < length bs
    → get_or bs i 1 ≡ 0
    → (i < length os) × (get_or os i d ≡ none)
Agree-at [] os i d a h e = absurd (omega arith)
Agree-at (b ∷ bs) [] i d a h e = absurd a
Agree-at (b ∷ bs) (o ∷ os) zero d a h e = (omega arith, a.0 e)
Agree-at (b ∷ bs) (o ∷ os) (suc i) d a h e =
    let (inside, empty) = Agree-at bs os i d a.1 (omega arith) e in (omega (arith, inside), empty)

module _ {T : Type 0} (d : T) where
  abbrev pub allocated : MemoryPool T → ℕ → MemoryPool T
  allocated p i = record p {
    objects = set p.objects i (some d);
    block_allocation_map = set p.block_allocation_map i 1;
  }

  -- `allocate` fails only when no block is free, and then changes nothing. Otherwise it returns the
  -- address of the first free block, which then holds a new object; no other block changes.
  pub allocate_cases :
      (p : MemoryPool T)
      → ((free_blocks p.block_allocation_map ≡ 0) × (allocate d p ≡ (no_memory, none, p)))
        ⊎ ((i : ℕ) × IsFirstFree p.block_allocation_map i
            × (allocate d p ≡ (success, some (address p i), allocated p i)))
  unfolding allocate
  allocate_cases p = elim (Option-cases (first_available p.block_allocation_map)) [
    | inl full ↦ inl (first_available-none p.block_allocation_map full, rw (full, allocate))
    | inr (i, found) ↦
        inr (i, first_available-some p.block_allocation_map i found, rw (found, allocate))
  ]

  give_back :
      (p : MemoryPool T) (i : ℕ)
      → 0 < p.size_of
      → Agree p.block_allocation_map p.objects
      → IsFirstFree p.block_allocation_map i
      → deallocate (address p i) (allocated p i) ≡ (success, p)
  unfolding deallocate
  give_back p i pos agree free =
      let (inside, empty) =
        Agree-at p.block_allocation_map p.objects i none agree free.inside free.free in
      rw (
        length-set p.block_allocation_map i 1,
        block_at-address p.base p.size_of 0 i (length p.block_allocation_map) pos (omega arith)
            (omega (arith, free.inside)),
        set-set_back p.block_allocation_map i 1 1 0 free.inside free.free,
        set-set_back p.objects i (some d) none none inside empty,
        deallocate,
      )

  -- Giving the block back at once restores the pool.
  pub deallocate-allocate :
      (p q : MemoryPool T) (item : ℕ)
      → 0 < p.size_of
      → Agree p.block_allocation_map p.objects
      → allocate d p ≡ (success, some item, q)
      → deallocate item q ≡ (success, p)
  deallocate-allocate p q item pos agree e = elim (allocate_cases p) [
    | inl (_, failed) ↦ cc
    | inr (i, free, done) ↦
        subst₂ (λ a r. deallocate a r ≡ (success, p)) (ground (arith, done, e))
          (ground (arith, done, e)) (give_back p i pos agree free)
  ]
