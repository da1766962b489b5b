-- ===== src/Image/Seed.antt =====
-- Utilities/ComputerVision.hpp, `GetSeed`: the place of a kernel on a grid whose pixels in a range of
-- colours have the largest sum.
pub mod Maximum
mod Examples
use abstraction_layer.Prelude.{
  ℕ, zero, suc, ◌+◌, ◌/◌, Bool, ◌&&◌, Option, none, some, List, [], ◌∷◌, leb, ltb, ◌==◌,
  if◌then◌else◌, add32, sub32, length,
}
use abstraction_layer.Error.{ErrorType, success, invalid_parameter}
use abstraction_layer.Image.{
  Coordinate, Area, size, xy_to_flat_index, at, PixelFormat, is_greyscale,
}
use abstraction_layer.Image.Filters.{for_each, from_to, coordinate}

pub data SeedRun : Type 0 where
  throws unfinished : SeedRun
  returns : ErrorType → Coordinate → SeedRun

-- The score of the best place so far, and the place.
pub record Best : Type 0 where
  pub score : ℕ
  pub seed : Coordinate

-- The values of a variable that runs from `x` in steps to below the bound; `none` if it takes more than
-- `fuel` steps.
unfoldable pub steps : ℕ → ℕ → ℕ → ℕ → Option (List ℕ)
steps zero x bound step = none
steps (suc fuel) x bound step =
    let later : Option (List ℕ) = elim (steps fuel (add32 x step) bound step) [
      | none ↦ none
      | some xs ↦ some (x ∷ xs)
    ] in
    if ltb x bound then later else some []

module _ (kernel a : Area) (min_intensity max_intensity : ℕ) (buffer : List ℕ) where
  unfoldable pub add_pixel : ℕ → ℕ → ℕ → Option ℕ
  add_pixel y x total = elim (at buffer (xy_to_flat_index a (coordinate x y))) [
    | none ↦ none
    | some v ↦ some (if leb min_intensity v && leb v max_intensity then add32 total v else total)
  ]

  -- The sum over the kernel, which begins one pixel before the place.
  unfoldable pub total_at : ℕ → ℕ → Option ℕ
  total_at x y =
      for_each
        (λ kernel_y.
          for_each (add_pixel kernel_y) (from_to (sub32 x 1) (add32 (sub32 x 1) kernel.width)))
        (from_to (sub32 y 1) (add32 (sub32 y 1) kernel.height)) 0

  unfoldable pub try_place : ℕ → ℕ → Best → Option Best
  try_place y x best = elim (total_at x y) [
    | none ↦ none
    | some total ↦
        some
          (if ltb best.score total then record { score = total; seed = coordinate x y } else best)
  ]

  abbrev pub no_seed : Best
  no_seed = record { score = 0; seed = coordinate 0 0 }

  -- An image of another format has no seed, which is a success too.
  unfoldable pub get_seed : PixelFormat → SeedRun
  get_seed format =
      let columns =
        steps (suc a.width) (kernel.width / 2) (sub32 a.width (kernel.width / 2)) kernel.width in
      let rows =
        steps (suc a.height) (kernel.height / 2) (sub32 a.height (kernel.height / 2))
          kernel.height in
      let searched : SeedRun = elim columns [
        | none ↦ unfinished
        | some xs ↦ elim rows [
          | none ↦ unfinished
          | some ys ↦ elim (for_each (λ y. for_each (try_place y) xs) ys no_seed) [
            | none ↦ throws
            | some best ↦ returns success best.seed
          ]
        ]
      ] in
      if ltb 0 (size kernel)
        && (ltb 0 (size a) && (leb (size kernel) (size a) && (length buffer == size a)))
      then (if is_greyscale format then searched else returns success (coordinate 0 0))
      else returns invalid_parameter (coordinate 0 0)
