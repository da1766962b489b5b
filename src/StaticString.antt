-- ===== src/StaticString.antt =====
-- Utilities/StaticString.hpp, `Container`: strings of any size behind one type, in a static buffer for
-- each size or, while another container has that, in a `std::any`. Containers are numbered. A moved
-- `std::any` is empty, as in the standard libraries in use; `is_inline` says of which sizes it keeps the
-- object in itself.
pub mod Ownership
pub mod Sequences
pub mod Misuse
mod Examples
use abstraction_layer.Prelude.{
  ℕ, ◌+◌, Bool, true, false, not, Option, none, some, List, ◌==◌, if◌then◌else◌,
}

-- Where the object of a string is: in the buffer of a size, in memory that a `std::any` has allocated,
-- or inside the `std::any` of a container.
pub data Address : Type 0 where
  buffer : ℕ → Address
  heap : ℕ → Address
  inside : ℕ → Address

pub record AnyData : Type 0 where
  pub place : Address
  pub text : List ℕ

-- `_data`, `_dataPtr`, `_destroy` by its size, and `_dataBufferisFree` by the size of its buffer.
pub record Container : Type 0 where
  pub any_data : Option AnyData
  pub data_ptr : Option Address
  pub destroy : Option ℕ
  pub buffer_flag : Option ℕ

abbrev pub empty : Container
empty = record { any_data = none; data_ptr = none; destroy = none; buffer_flag = none }

-- The containers; of the buffer of each size its flag and the object in it; the number of allocations.
pub record Memory : Type 0 where
  pub containers : ℕ → Container
  pub in_use : ℕ → Bool
  pub contents : ℕ → Option (List ℕ)
  pub allocations : ℕ

abbrev pub start : Memory
start = record {
  containers = λ c. empty;
  in_use = λ n. false;
  contents = λ n. none;
  allocations = 0;
}

abbrev pub update {ℓ} : {A : Type ℓ} → (ℕ → A) → ℕ → A → ℕ → A
update f i a j = if j == i then a else f j

-- A write through a pointer that may be null.
abbrev pub update? {ℓ} : {A : Type ℓ} → (ℕ → A) → Option ℕ → A → ℕ → A
update? f none a = f
update? f (some i) a = update f i a

abbrev pub same_address : Address → Address → Bool
same_address (buffer n) (buffer m) = n == m
same_address (heap k) (heap l) = k == l
same_address (inside c) (inside d) = c == d
same_address a b = false

-- The text that is found through a pointer: an object of a `std::any` is there only if it is this
-- container's.
abbrev pub text_at : Option AnyData → Address → Option (List ℕ)
text_at none a = none
text_at (some d) a = if same_address d.place a then some d.text else none

abbrev pub dereference : Memory → Container → Option Address → Option (List ℕ)
dereference m k none = none
dereference m k (some (buffer n)) = m.contents n
dereference m k (some a) = text_at k.any_data a

unfoldable pub read : Memory → ℕ → Option (List ℕ)
read m c = dereference m (m.containers c) (m.containers c).data_ptr

module _ (is_inline : ℕ → Bool) where
  -- `set<_n>`: the flag of the buffer is exchanged at once, and the buffer taken if it was free.
  unfoldable pub set : ℕ → ℕ → List ℕ → Memory → Memory
  set c n text m =
      let k = m.containers c in
      let place = if is_inline n then inside c else heap m.allocations in
      if not (m.in_use n)
      then record m {
        in_use = update m.in_use n true;
        contents = update m.contents n (some text);
        containers =
            update m.containers c
              (record k { data_ptr = some (buffer n); destroy = some n; buffer_flag = some n });
      }
      else record m {
        allocations = m.allocations + 1;
        containers = update m.containers c (record {
          any_data = some (record { place = place; text = text });
          data_ptr = some place;
          destroy = none;
          buffer_flag = none;
        });
      }

  -- The constructors.
  unfoldable pub construct : ℕ → ℕ → List ℕ → Memory → Memory
  construct c n text m = set c n text (record m { containers = update m.containers c empty })

-- `reset`. A container with `_destroy` keeps its `std::any`.
abbrev pub reset_container : Container → Container
reset_container k = elim k.destroy [
  | some n ↦ record k { data_ptr = none; destroy = none; buffer_flag = none }
  | none ↦ record k { any_data = none; data_ptr = none }
]

-- The call of `_destroy` and the release of the buffer, which `reset` and the destructor share.
abbrev pub release : Container → Memory → Memory
release k m = elim k.destroy [
  | some n ↦ record m {
    contents = update m.contents n none;
    in_use = update? m.in_use k.buffer_flag false;
  }
  | none ↦ m
]

unfoldable pub reset : ℕ → Memory → Memory
reset c m =
    let k = m.containers c in
    let m' = release k m in record m' { containers = update m.containers c (reset_container k) }

-- The destructor; what is left of the container is not used again.
unfoldable pub destruct : ℕ → Memory → Memory
destruct c m =
    let m' = release (m.containers c) m in record m' { containers = update m.containers c empty }

-- A `std::any` that moves takes the object inside it along.
abbrev pub moved : ℕ → AnyData → AnyData
moved c d = elim d.place [ inside other ↦ record d { place = inside c } | place ↦ d ]

-- `c = std::move(d)`, and the constructor from a container that is moved, for a new `c`.
abbrev pub take_over : ℕ → Container → Container → Container
take_over c old other = elim other.any_data [
  | some object ↦ record old { any_data = some (moved c object); data_ptr = other.data_ptr }
  | none ↦ record old {
    data_ptr = other.data_ptr;
    destroy = other.destroy;
    buffer_flag = other.buffer_flag;
  }
]

unfoldable pub move : ℕ → ℕ → Memory → Memory
unfolding reset
move c d m =
    let m' = reset c m in
    let taken = update m'.containers c (take_over c (m'.containers c) (m.containers d)) in
    if c == d then m else record m' { containers = update taken d empty }
