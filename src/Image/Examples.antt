-- ===== src/Image/Examples.antt =====
-- Utilities/ComputerVision.hpp: the theorem on an image of three by two pixels.
use abstraction_layer.Prelude.{ℕ, ◌≡◌, refl, List, [], ◌∷◌, arith}
use abstraction_layer.Error.{success}
use abstraction_layer.Image.{
  Area, Coordinate, returns, PixelFormat, sharpen, push_neighbours, sharpen_connected_pixels,
}
use abstraction_layer.Image.Bounds.{IsArea}
use abstraction_layer.Image.Fill.{Filled, sharpen_connected_pixels_ends}

abbrev three_by_two : Area
three_by_two = record { width = 3; height = 2 }

abbrev corner : Coordinate
corner = record { x = 0; y = 0 }

abbrev pixels : List ℕ
pixels = 100 ∷ 0 ∷ 100 ∷ 0 ∷ 100 ∷ 0 ∷ []

three_by_two-IsArea : IsArea three_by_two
three_by_two-IsArea = record { wide = omega arith; high = omega arith; fits = omega arith }

sharpen_connected_pixels_ends_example :
    let r =
      sharpen_connected_pixels three_by_two 50 200 255 40 PixelFormat.greyscale corner pixels in
    (r.0 ≡ success)
    × (buffer' : List ℕ) × (r.1 ≡ returns buffer')
    × Filled three_by_two 50 200 255 pixels buffer'
sharpen_connected_pixels_ends_example =
    sharpen_connected_pixels_ends three_by_two 50 200 255 40 corner pixels three_by_two-IsArea refl
      (omega arith)

diagonal_is_connected :
    sharpen three_by_two 50 200 255 40 pixels (corner ∷ [])
    ≡ returns (255 ∷ 0 ∷ 255 ∷ 0 ∷ 255 ∷ 0 ∷ [])
unfolding sharpen push_neighbours
diagonal_is_connected = refl
