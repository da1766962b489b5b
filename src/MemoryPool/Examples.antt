-- ===== src/MemoryPool/Examples.antt =====
-- Applications/MemoryPool: the theorems on a pool of three blocks.
use abstraction_layer.Prelude.{ℕ, ◌+◌, ◌≡◌, ◌⊎◌, refl, none, some, [], ◌∷◌, arith}
use abstraction_layer.Error.{success, no_memory}
use abstraction_layer.MemoryPool.{
  MemoryPool, first_available, address, allocate, deallocate, available,
}
use abstraction_layer.MemoryPool.Laws.{
  free_blocks, IsFirstFree, allocated, allocate_cases, deallocate-allocate,
}
use abstraction_layer.MemoryPool.Available.{available-free_blocks, available-allocate}

abbrev three_blocks : MemoryPool ℕ
three_blocks = record {
  base = 1000;
  size_of = 8;
  block_allocation_map = 1 ∷ 0 ∷ 0 ∷ [];
  objects = some 5 ∷ none ∷ none ∷ [];
}

allocate_cases_example :
    ((free_blocks three_blocks.block_allocation_map ≡ 0)
      × (allocate 9 three_blocks ≡ (no_memory, none, three_blocks)))
    ⊎ ((i : ℕ) × IsFirstFree three_blocks.block_allocation_map i
        × (allocate 9 three_blocks
            ≡ (success, some (address three_blocks i), allocated 9 three_blocks i)))
allocate_cases_example = allocate_cases 9 three_blocks

deallocate-allocate_test : deallocate 1008 (allocated 9 three_blocks 1) ≡ (success, three_blocks)
unfolding allocate first_available
deallocate-allocate_test =
    deallocate-allocate 9 three_blocks (allocated 9 three_blocks 1) 1008 (omega arith)
      ((λ e. absurd (omega (arith, e))), ((λ e. refl), ((λ e. refl), _))) refl

available-free_blocks_test : available three_blocks ≡ (success, 16)
available-free_blocks_test = available-free_blocks three_blocks (omega arith)

available-allocate_test :
    (available (allocated 9 three_blocks 1)).1 + 8 ≡ (available three_blocks).1
unfolding allocate first_available
available-allocate_test =
    available-allocate 9 three_blocks (allocated 9 three_blocks 1) 1008 (omega arith) refl
