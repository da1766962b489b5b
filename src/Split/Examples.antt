-- ===== src/Split/Examples.antt =====
-- Utilities/Algorithm.hpp: `Split` on three tokens, one of them empty.
use abstraction_layer.Prelude.{◌≡◌, refl, arith, none, some, [], ◌∷◌}
use abstraction_layer.Prelude.Text.{codes, find_from, substr}
use abstraction_layer.Prelude.Text.Search.{lacks-Lacks}
use abstraction_layer.Split.{split, split_from, c_string}
use abstraction_layer.Split.Laws.{joined, split-joined}

split-joined_example :
    split (joined b',' (codes "ab") ([] ∷ codes "c" ∷ [])) (codes ",")
    ≡ some (codes "ab" ∷ [] ∷ codes "c" ∷ [])
split-joined_example =
    split-joined b',' (codes "ab") ([] ∷ codes "c" ∷ []) (λ e. omega (arith, e))
      (lacks-Lacks b',' (codes "ab") refl, (tt, (lacks-Lacks b',' (codes "c") refl, tt)))

-- The search goes on one character behind the start of the delimiter.
longer_delimiter : split (codes "a, b") (codes ", ") ≡ some (codes "a" ∷ codes " b" ∷ [])
unfolding split c_string split_from find_from substr
longer_delimiter = refl

-- A delimiter ends at its first zero, so this one is empty.
zero_delimiter : split (codes "ab") (0 ∷ []) ≡ none
unfolding split c_string split_from find_from substr
zero_delimiter = refl

-- An empty delimiter is found at the end too, and `substr` throws behind it.
empty_delimiter : split (codes "ab") [] ≡ none
unfolding split c_string split_from find_from substr
empty_delimiter = refl
