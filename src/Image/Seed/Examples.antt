-- ===== src/Image/Seed/Examples.antt =====
-- Utilities/ComputerVision.hpp, `GetSeed`, on an image of ten by five pixels.
use abstraction_layer.Prelude.{
  ℕ, ◌≡◌, ◌+◌, ◌-◌, ◌*◌, ◌/◌, ◌<◌, refl, arith, some, List, ◌∷◌, ◌++◌, replicate,
}
use abstraction_layer.Error.{success}
use abstraction_layer.Image.{Area, PixelFormat, xy_to_flat_index}
use abstraction_layer.Image.Bounds.{IsArea}
use abstraction_layer.Image.Filters.{for_each}
use abstraction_layer.Image.Seed.{Best, get_seed, total_at, add_pixel, returns}
use abstraction_layer.Image.Seed.Maximum.{Chosen, AtLeast, get_seed-AtLeast}

abbrev ten_by_five : Area
ten_by_five = record { width = 10; height = 5 }

abbrev five_by_five : Area
five_by_five = record { width = 5; height = 5 }

-- One bright pixel, at the left edge.
abbrev pixels : List ℕ
pixels = replicate 20 0 ++ 90 ∷ replicate 29 0

ten_by_five-IsArea : IsArea ten_by_five
ten_by_five-IsArea = record { wide = omega arith; high = omega arith; fits = omega arith }

five_by_five-IsArea : IsArea five_by_five
five_by_five-IsArea = record { wide = omega arith; high = omega arith; fits = omega arith }

get_seed-AtLeast_example :
    (best : Best) × (get_seed five_by_five ten_by_five 50 100 pixels PixelFormat.greyscale
      ≡ returns success best.seed)
    × Chosen five_by_five ten_by_five 50 100 pixels ten_by_five-IsArea refl best
    × ((i j : ℕ)
        → 5 / 2 + i * 5 < 10 - 5 / 2
        → 5 / 2 + j * 5 < 5 - 5 / 2
        → AtLeast five_by_five ten_by_five 50 100 pixels ten_by_five-IsArea refl best.score
            (5 / 2 + i * 5)
            (5 / 2 + j * 5))
get_seed-AtLeast_example =
    get_seed-AtLeast five_by_five ten_by_five 50 100 pixels ten_by_five-IsArea refl
      five_by_five-IsArea (omega arith) (omega arith) (omega arith)

-- The kernel at (2, 2) begins one pixel before its middle, so the column at the edge is left out.
edge_is_not_seen : total_at five_by_five ten_by_five 50 100 pixels 2 2 ≡ some 0
unfolding total_at add_pixel for_each xy_to_flat_index
edge_is_not_seen = refl
