-- ===== src/Concatenate.antt =====
-- Utilities/Algorithm.hpp, `ConcatenateStrings`. A string is the list of its bytes; `none` is a write
-- behind the end of the array.
pub mod Laws
mod Examples
use abstraction_layer.Prelude.{
  ℕ, zero, suc, ◌+◌, Option, none, some, List, [], ◌∷◌, length, set, replicate, ltb, ◌==◌,
  if◌then◌else◌,
}
use abstraction_layer.Prelude.Text.{Text}

-- `totalSize`.
unfoldable pub total_size : List Text → ℕ
total_size [] = 0
total_size (s ∷ ss) = length s + total_size ss

-- An element of the array is written.
abbrev pub write_at : Text → ℕ → ℕ → Option Text
write_at result pos c = if ltb pos (length result) then some (set result pos c) else none

-- `std::copy_if` of what is not zero, from the position on.
unfoldable pub copy_if : Text → ℕ → Text → Option Text
copy_if [] pos result = some result
copy_if (c ∷ cs) pos result =
    if c == 0
    then copy_if cs pos result
    else elim (write_at result pos c) [ none ↦ none | some next ↦ copy_if cs (pos + 1) next ]

-- `std::count_if` of what is not zero.
unfoldable pub count_if : Text → ℕ
count_if [] = 0
count_if (c ∷ cs) = (if c == 0 then 0 else 1) + count_if cs

-- The strings in order, and the zero at the end.
unfoldable pub concatenate_from : List Text → ℕ → Text → Option Text
concatenate_from [] pos result = write_at result pos 0
concatenate_from (s ∷ ss) pos result = elim (copy_if s pos result) [
  | none ↦ none
  | some next ↦ concatenate_from ss (pos + count_if s) next
]

unfoldable pub concatenate_strings : List Text → Option Text
concatenate_strings ss = concatenate_from ss 0 (replicate (total_size ss + 1) 0)
