-- ===== src/Concatenate/Examples.antt =====
-- Utilities/Algorithm.hpp: `ConcatenateStrings` on strings with a zero among their bytes.
use abstraction_layer.Prelude.{◌≡◌, ◌-◌, refl, suc, some, [], ◌∷◌, ◌++◌, length, replicate}
use abstraction_layer.Prelude.Text.{codes}
use abstraction_layer.Concatenate.{
  total_size, copy_if, count_if, concatenate_from, concatenate_strings,
}
use abstraction_layer.Concatenate.Laws.{all_written, concatenate_strings-all_written}

concatenate_strings-all_written_example :
    concatenate_strings ((codes "ab" ++ 0 ∷ []) ∷ codes "c" ∷ [])
    ≡ some (
        all_written ((codes "ab" ++ 0 ∷ []) ∷ codes "c" ∷ [])
        ++ replicate
            (suc (
              total_size ((codes "ab" ++ 0 ∷ []) ∷ codes "c" ∷ [])
              - length (all_written ((codes "ab" ++ 0 ∷ []) ∷ codes "c" ∷ []))))
            0)
concatenate_strings-all_written_example =
    concatenate_strings-all_written ((codes "ab" ++ 0 ∷ []) ∷ codes "c" ∷ [])

zeros_are_left_out :
    concatenate_strings ((codes "ab" ++ 0 ∷ []) ∷ codes "c" ∷ []) ≡ some (codes "abc" ++ 0 ∷ 0 ∷ [])
unfolding concatenate_strings concatenate_from copy_if count_if total_size
zeros_are_left_out = refl
