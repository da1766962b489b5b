-- ===== src/Image/Filters/Examples.antt =====
-- Utilities/ComputerVision.hpp: the filters on an image of four by three pixels.
use abstraction_layer.Prelude.{ℕ, ◌≡◌, refl, arith, true, List, [], ◌∷◌}
use abstraction_layer.Error.{success}
use abstraction_layer.Image.{Area, PixelFormat, xy_to_flat_index, size}
use abstraction_layer.Image.Bounds.{IsArea}
use abstraction_layer.Image.Filters.{
  coordinate, fill_pixel_gaps, dilate, vertical_strip_filter, returns, for_each, fill_pixel,
  to_fill, is_gap, is_both, promote, store, dilate_pixel, dilate_target,
}
use abstraction_layer.Image.Filters.Loops.{Painted, HasColour}
use abstraction_layer.Image.Filters.Gaps.{IsGap, GapAt, fill_pixel_gaps-IsGap}
use abstraction_layer.Image.Filters.Dilation.{IsDilated, TargetAt, target, dilate-IsDilated}
use abstraction_layer.Image.Filters.Strips.{InRows, vertical_strip_filter_ends}

abbrev four_by_three : Area
four_by_three = record { width = 4; height = 3 }

four_by_three-IsArea : IsArea four_by_three
four_by_three-IsArea = record { wide = omega arith; high = omega arith; fits = omega arith }

-- A gap of one pixel in the row in the middle.
abbrev pixels : List ℕ
pixels = 0 ∷ 0 ∷ 0 ∷ 0 ∷ 90 ∷ 0 ∷ 90 ∷ 0 ∷ 0 ∷ 0 ∷ 0 ∷ 0 ∷ []

fill_pixel_gaps-IsGap_example :
    (filled : List ℕ) × (fill_pixel_gaps true pixels four_by_three PixelFormat.greyscale 1 0 90
      ≡ returns success filled)
    × Painted pixels 90 (GapAt true pixels four_by_three 1 0 90 four_by_three-IsArea refl) filled
    × ((x y : ℕ)
        → IsGap true pixels four_by_three 1 0 90 x y
        → HasColour 90 (xy_to_flat_index four_by_three (coordinate x y)) filled)
fill_pixel_gaps-IsGap_example =
    fill_pixel_gaps-IsGap true pixels four_by_three 1 0 90 four_by_three-IsArea refl

one_pixel_is_filled :
    fill_pixel_gaps true pixels four_by_three PixelFormat.greyscale 1 0 90
    ≡ returns success (0 ∷ 0 ∷ 0 ∷ 0 ∷ 90 ∷ 90 ∷ 90 ∷ 0 ∷ 0 ∷ 0 ∷ 0 ∷ 0 ∷ [])
unfolding fill_pixel_gaps fill_pixel for_each to_fill is_gap is_both promote store xy_to_flat_index
    size
one_pixel_is_filled = refl

-- Where `char` is signed, 200 is not the colour of a pixel with the byte 200.
bright_gap_is_not_filled :
    fill_pixel_gaps true
      (200 ∷ 0 ∷ 200 ∷ 0 ∷ 0 ∷ 0 ∷ [])
      (record { width = 3; height = 2 })
      PixelFormat.greyscale
      0
      0
      200
    ≡ returns success (200 ∷ 0 ∷ 200 ∷ 0 ∷ 0 ∷ 0 ∷ [])
unfolding fill_pixel_gaps fill_pixel for_each to_fill is_gap is_both promote store xy_to_flat_index
    size
bright_gap_is_not_filled = refl

abbrev two_by_two : Area
two_by_two = record { width = 2; height = 2 }

dilate-IsDilated_example :
    (dilated : List ℕ) × (dilate pixels four_by_three two_by_two 50 100 PixelFormat.greyscale pixels
      ≡ returns success dilated)
    × Painted pixels 100 (TargetAt pixels pixels four_by_three two_by_two 50 100) dilated
    × ((x y right down : ℕ)
        → IsDilated pixels pixels four_by_three two_by_two 50 100 x y right down
        → HasColour 100
            (target pixels pixels four_by_three two_by_two 50 100 x y right down)
            dilated)
dilate-IsDilated_example =
    dilate-IsDilated pixels pixels four_by_three two_by_two 50 100 four_by_three-IsArea refl refl
      (omega arith)

four_pixels_each :
    dilate pixels four_by_three two_by_two 50 100 PixelFormat.greyscale pixels
    ≡ returns success (0 ∷ 0 ∷ 0 ∷ 0 ∷ 100 ∷ 100 ∷ 100 ∷ 100 ∷ 100 ∷ 100 ∷ 100 ∷ 100 ∷ [])
unfolding dilate dilate_pixel dilate_target for_each store xy_to_flat_index size
four_pixels_each = refl

vertical_strip_filter_ends_test :
    (after : List ℕ) × (vertical_strip_filter four_by_three two_by_two 50 100 0
        PixelFormat.greyscale pixels
      ≡ returns success after)
    × Painted pixels 0 (InRows pixels four_by_three two_by_two 50 100 0) after
vertical_strip_filter_ends_test =
    vertical_strip_filter_ends pixels four_by_three two_by_two 50 100 0 four_by_three-IsArea refl
      (unfold size in omega arith) (omega arith)
