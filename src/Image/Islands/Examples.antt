-- ===== src/Image/Islands/Examples.antt =====
-- Utilities/ComputerVision.hpp: two islands in an image of four by three pixels.
use abstraction_layer.Prelude.{ℕ, ◌≡◌, ◌<◌, refl, arith, true, List, [], ◌∷◌, length, get_or}
use abstraction_layer.Prelude.Text.Laws.{All}
use abstraction_layer.Error.{success}
use abstraction_layer.Image.{Area, size, get_neighbours, flat_index_to_xy}
use abstraction_layer.Image.Bounds.{IsArea}
use abstraction_layer.Image.Filters.{returns, for_each, store, promote}
use abstraction_layer.Image.Filters.Loops.{Painted}
use abstraction_layer.Image.Islands.{
  extract_largest_island, island_filter, largest_island, walk_from, walk, visit, is_new,
  keep_island, filter_islands, filter_island,
}
use abstraction_layer.Image.Islands.Laws.{Land, Kept}
use abstraction_layer.Image.Islands.Components.{IsIsland, Bound}
use abstraction_layer.Image.Islands.Largest.{
  extract_largest_island-IsIsland, extract_largest_island-Kept,
}
use abstraction_layer.Image.Islands.Small.{
  WasLand, extract_largest_island-bright, island_filter-Painted,
}

abbrev four_by_three : Area
four_by_three = record { width = 4; height = 3 }

four_by_three-IsArea : IsArea four_by_three
four_by_three-IsArea = record { wide = omega arith; high = omega arith; fits = omega arith }

-- One pixel at the top, and three at the right edge.
abbrev pixels : List ℕ
pixels = 90 ∷ 0 ∷ 0 ∷ 90 ∷ 0 ∷ 0 ∷ 0 ∷ 90 ∷ 7 ∷ 0 ∷ 90 ∷ 0 ∷ []

extract_largest_island-Kept_test :
    (largest : List ℕ) × (after : List ℕ) × (extract_largest_island true four_by_three 90 pixels
      ≡ returns success after)
    × All (Land true four_by_three 90 pixels four_by_three-IsArea refl) largest
    × Kept true four_by_three 90 pixels four_by_three-IsArea refl largest after
    × ((i : ℕ) → Land true four_by_three 90 pixels four_by_three-IsArea refl i → 0 < length largest)
extract_largest_island-Kept_test =
    extract_largest_island-Kept true four_by_three 90 pixels four_by_three-IsArea refl

extract_largest_island-IsIsland_example :
    (island : List ℕ) × (after : List ℕ) × (extract_largest_island true four_by_three 90 pixels
      ≡ returns success after)
    × IsIsland true four_by_three 90 pixels island
    × ((p : ℕ)
        → Land true four_by_three 90 pixels four_by_three-IsArea refl p
        → Bound true four_by_three 90 pixels p island)
    × Kept true four_by_three 90 pixels four_by_three-IsArea refl island after
extract_largest_island-IsIsland_example =
    extract_largest_island-IsIsland true four_by_three 90 pixels four_by_three-IsArea refl

three_pixels_are_kept :
    extract_largest_island true four_by_three 90 pixels
    ≡ returns success (0 ∷ 0 ∷ 0 ∷ 90 ∷ 0 ∷ 0 ∷ 0 ∷ 90 ∷ 0 ∷ 0 ∷ 90 ∷ 0 ∷ [])
unfolding extract_largest_island largest_island walk_from walk visit is_new keep_island for_each
    store promote size get_neighbours flat_index_to_xy
three_pixels_are_kept = refl

abbrev bright : List ℕ
bright = 200 ∷ 0 ∷ 0 ∷ 0 ∷ 0 ∷ 0 ∷ 0 ∷ 200 ∷ 0 ∷ 0 ∷ 200 ∷ 0 ∷ []

extract_largest_island-bright_example :
    (after : List ℕ) × (extract_largest_island true four_by_three 200 bright
      ≡ returns success after)
    × ((i : ℕ) → i < length bright → get_or after i 0 ≡ 0)
extract_largest_island-bright_example =
    extract_largest_island-bright four_by_three 200 bright four_by_three-IsArea refl (omega arith)
      (omega arith) (omega arith)

abbrev two_pixels : Area
two_pixels = record { width = 2; height = 1 }

island_filter-Painted_test :
    (after : List ℕ) × (island_filter true four_by_three 90 7 two_pixels pixels
      ≡ returns success after)
    × Painted pixels 7
        (WasLand true four_by_three 90 7 two_pixels pixels four_by_three-IsArea refl)
        after
island_filter-Painted_test =
    island_filter-Painted true four_by_three 90 7 two_pixels pixels four_by_three-IsArea refl

one_pixel_is_removed :
    island_filter true four_by_three 90 7 two_pixels pixels
    ≡ returns success (7 ∷ 0 ∷ 0 ∷ 90 ∷ 0 ∷ 0 ∷ 0 ∷ 90 ∷ 7 ∷ 0 ∷ 90 ∷ 0 ∷ [])
unfolding island_filter filter_islands filter_island walk_from walk visit is_new for_each store
    promote size get_neighbours flat_index_to_xy
one_pixel_is_removed = refl
