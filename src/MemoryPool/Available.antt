-- ===== src/MemoryPool/Available.antt =====
-- Applications/MemoryPool/MemoryPool.hpp, `available`: the sum of the sizes of the free blocks.
use abstraction_layer.Prelude.{
  ℕ, zero, suc, ◌+◌, ◌*◌, ◌<◌, ◌≡◌, ap, subst, false, ◌==◌, ◌∙◌, some, List, [], ◌∷◌, arith, u32,
  add32, inl, inr,
}
use abstraction_layer.Error.{success}
use abstraction_layer.MemoryPool.{MemoryPool, add_available, allocate, available}
use abstraction_layer.MemoryPool.Laws.{free_blocks, IsFirstFree, allocated, allocate_cases}

add_available-free_blocks :
    (size_of size : ℕ) (bs : List ℕ)
    → size + free_blocks bs * size_of < u32
    → add_available size_of size bs ≡ size + free_blocks bs * size_of
unfolding add_available
add_available-free_blocks size_of size [] fits = omega arith
add_available-free_blocks size_of size (zero ∷ bs) fits =
    rw enough (omega (arith, add_available-free_blocks size_of (size + size_of) bs (omega arith)))
  where
    enough : add32 size size_of ≡ size + size_of
    enough = omega arith
add_available-free_blocks size_of size (suc b ∷ bs) fits =
    rw held (omega (arith, add_available-free_blocks size_of size bs small))
  where
    held : (suc b == 0) ≡ false
    held = ground arith

    small : size + free_blocks bs * size_of < u32
    small = let h = rw held at fits in omega (arith, h)

module _ {T : Type 0} where
  -- `available` reports the number of free blocks times their size, where `Bytes` can hold that.
  pub available-free_blocks :
      (p : MemoryPool T)
      → free_blocks p.block_allocation_map * p.size_of < u32
      → available p ≡ (success, free_blocks p.block_allocation_map * p.size_of)
  unfolding available
  available-free_blocks p fits =
      ap (λ n. (success, n))
        (add_available-free_blocks p.size_of 0 p.block_allocation_map (omega arith) ∙ omega arith)

  -- An allocation takes one block's size from what is available.
  pub available-allocate :
      (d : T) (p q : MemoryPool T) (item : ℕ)
      → free_blocks p.block_allocation_map * p.size_of < u32
      → allocate d p ≡ (success, some item, q)
      → (available q).1 + p.size_of ≡ (available p).1
  available-allocate d p q item fits e = elim (allocate_cases d p) [
    | inl (_, failed) ↦ cc
    | inr (i, free, done) ↦
        subst (λ r. (available r).1 + p.size_of ≡ (available p).1) (ground (arith, done, e))
          (taken i free)
  ]
    where
      taken :
          (i : ℕ)
          → IsFirstFree p.block_allocation_map i
          → (available (allocated d p i)).1 + p.size_of ≡ (available p).1
      taken i free = omega (
        arith,
        smaller,
        ap (λ r. r.1) (available-free_blocks (allocated d p i) (omega (arith, smaller))),
        ap (λ r. r.1) (available-free_blocks p fits),
      )
        where
          smaller :
              free_blocks (allocated d p i).block_allocation_map * p.size_of + p.size_of
              ≡ free_blocks p.block_allocation_map * p.size_of
          smaller = omega (arith, ap (λ n. n * p.size_of) free.count)
