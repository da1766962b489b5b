-- ===== src/MemoryPool.antt =====
-- Applications/MemoryPool/MemoryPool.hpp: a pool of blocks of one size, with a byte of the
-- allocation map for each block. A pointer is an address: block `i` stands at
-- `base + i * sizeof(T)`. `objects` says which blocks hold an object, and which.
pub mod Laws
pub mod Available
mod Examples
use abstraction_layer.Prelude.{
  ℕ, zero, suc, ◌+◌, ◌*◌, Option, none, some, List, [], ◌∷◌, ◌==◌, if◌then◌else◌, add32, length,
  set, replicate,
}
use abstraction_layer.Error.{ErrorType, success, no_memory, invalid_parameter}

pub record MemoryPool (T : Type 0) : Type 0 where
  pub base : ℕ
  pub size_of : ℕ
  pub block_allocation_map : List ℕ
  pub objects : List (Option T)

pub init : {T : Type 0} → ℕ → ℕ → ℕ → MemoryPool T
init base size_of blocks = record {
  base = base;
  size_of = size_of;
  block_allocation_map = replicate blocks 0;
  objects = replicate blocks none;
}

-- The first index at which the map is zero: the loop of `allocate` with `blockIsAvailable`.
unfoldable pub first_available : List ℕ → Option ℕ
first_available [] = none
first_available (b ∷ bs) =
    let rest : Option ℕ = elim (first_available bs) [ none ↦ none | some i ↦ some (suc i) ] in
    if b == 0 then some 0 else rest

-- The first of the next `blocks` blocks, from block `i` on, that stands at the address: the loop of
-- `deallocate`.
unfoldable pub block_at : ℕ → ℕ → ℕ → ℕ → ℕ → Option ℕ
block_at base size_of item i zero = none
block_at base size_of item i (suc blocks) =
    let rest = block_at base size_of item (suc i) blocks in
    if item == base + i * size_of then some i else rest

-- The sum of the sizes of the free blocks, in `Bytes`: the loop of `available`.
unfoldable pub add_available : ℕ → ℕ → List ℕ → ℕ
add_available size_of size [] = size
add_available size_of size (b ∷ bs) =
    add_available size_of (if b == 0 then add32 size size_of else size) bs

module _ {T : Type 0} where
  abbrev pub address : MemoryPool T → ℕ → ℕ
  address p i = p.base + i * p.size_of

  -- `d` is the value of `T()`.
  pub allocate : T → MemoryPool T → ErrorType × Option ℕ × MemoryPool T
  allocate d p = elim (first_available p.block_allocation_map) [
    | none ↦ (no_memory, none, p)
    | some i ↦ (
      success,
      some (address p i),
      record p {
        objects = set p.objects i (some d);
        block_allocation_map = set p.block_allocation_map i 1;
      },
    )
  ]

  pub deallocate : ℕ → MemoryPool T → ErrorType × MemoryPool T
  deallocate item p = elim (block_at p.base p.size_of item 0 (length p.block_allocation_map)) [
    | none ↦ (invalid_parameter, p)
    | some i ↦ (
      success,
      record p {
        objects = set p.objects i none;
        block_allocation_map = set p.block_allocation_map i 0;
      },
    )
  ]

  pub available : MemoryPool T → ErrorType × ℕ
  available p = (success, add_available p.size_of 0 p.block_allocation_map)
