-- ===== src/Split.antt =====
-- Utilities/Algorithm.hpp, `Split`. A view is the list of its bytes.
pub mod Laws
mod Examples
use abstraction_layer.Prelude.{
  ℕ, zero, suc, ◌+◌, ◌-◌, Option, none, some, List, [], ◌∷◌, length, ◌==◌, if◌then◌else◌,
}
use abstraction_layer.Prelude.Text.{Text, find_from, substr}

-- `tokens.push_back`, before the later tokens; `none` is `std::out_of_range`.
abbrev pub push_back : Option Text → Option (List Text) → Option (List Text)
push_back none rest = none
push_back (some token) none = none
push_back (some token) (some rest) = some (token ∷ rest)

-- The loop, at `lastDelimiterPosition`.
unfoldable pub split_from : ℕ → Text → Text → ℕ → Option (List Text)
split_from zero s delimiter last = none
split_from (suc fuel) s delimiter last = elim (find_from delimiter s (some last)) [
  | none ↦ push_back (substr s last none) (some [])
  | some next ↦
      push_back (substr s last (some (next - last))) (split_from fuel s delimiter (next + 1))
]

-- The delimiter is a C string: what stands before its first zero.
unfoldable pub c_string : Text → Text
c_string [] = []
c_string (c ∷ cs) = if c == 0 then [] else c ∷ c_string cs

-- The position grows with each round, and nothing is found beyond the end of the text.
unfoldable pub split : Text → Text → Option (List Text)
unfolding split_from
split s delimiter = split_from (length s + 2) s (c_string delimiter) 0
