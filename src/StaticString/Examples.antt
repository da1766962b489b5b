-- ===== src/StaticString/Examples.antt =====
-- Utilities/StaticString.hpp, `Container`: three containers of the same size.
use abstraction_layer.Prelude.{
  ℕ, ◌≡◌, ◌≢◌, refl, arith, Bool, true, false, none, some, List, [], ◌∷◌,
}
use abstraction_layer.StaticString.{start, read, set, construct, destruct, move}
use abstraction_layer.StaticString.Ownership.{start-Owned, construct-Owned}
use abstraction_layer.StaticString.Sequences.{
  Operation, construct_new, reset_one, move_to, destruct_one, perform_all, spec_all, AllAllowed,
  IsExclusive, perform_all-spec_all, perform_all-IsExclusive,
}
use abstraction_layer.StaticString.Misuse.{set_again_leaks, move_inside}

abbrev outside : ℕ → Bool
outside n = false

-- The second is allocated, since the first has the buffer; the buffer moves to the third and is free
-- again when that is reset; the next takes it.
abbrev operations : List Operation
operations =
    construct_new 0 8 (7 ∷ [])
    ∷ construct_new 1 8 (9 ∷ [])
    ∷ move_to 2 0
    ∷ move_to 0 1
    ∷ reset_one 2
    ∷ construct_new 1 8 (5 ∷ [])
    ∷ destruct_one 0
    ∷ []

operations_allowed : AllAllowed outside operations (λ c. none)
operations_allowed = ((refl, refl), ((refl, refl), (tt, (tt, (tt, ((refl, refl), (tt, tt)))))))

perform_all-spec_all_example :
    read (perform_all outside operations start) 1 ≡ spec_all operations (λ c. none) 1
perform_all-spec_all_example = perform_all-spec_all outside operations 1 operations_allowed

spec_test : spec_all operations (λ c. none) 1 ≡ some (5 ∷ [])
spec_test = refl

perform_all-IsExclusive_example : IsExclusive (perform_all outside operations start)
perform_all-IsExclusive_example = perform_all-IsExclusive outside operations operations_allowed

set_again_leaks_example :
    (let m' = destruct 3 (set outside 3 8 (6 ∷ []) (construct outside 3 8 (7 ∷ []) start)) in
      (m'.in_use 8 ≡ true) × ((d : ℕ) → (m'.containers d).buffer_flag ≢ some 8))
set_again_leaks_example =
    set_again_leaks outside 3 8 (7 ∷ []) (6 ∷ [])
      (construct-Owned outside 3 8 (7 ∷ []) start-Owned refl refl) refl

move_inside_example :
    read
      (move 5 4 (construct (λ n. true) 4 8 (2 ∷ []) (construct (λ n. true) 3 8 (1 ∷ []) start)))
      5
    ≡ none
unfolding construct set
move_inside_example =
    move_inside (λ n. true) 5 4 8 (2 ∷ []) (construct (λ n. true) 3 8 (1 ∷ []) start) refl refl
      (λ e. absurd (omega (arith, e)))
