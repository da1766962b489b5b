-- ===== src/Image.antt =====
-- Utilities/Types.hpp, `Area` and `Coordinate`, and Utilities/ComputerVision.hpp,
-- `SharpenConnectedPixels`: a fill of the pixels connected to a start, on a greyscale buffer of bytes.
-- Coordinates are `uint32_t`. `at` past the end of the buffer throws.
pub mod Bounds
pub mod Fill
pub mod Filters
pub mod Islands
pub mod Seed
mod Examples
use abstraction_layer.Prelude.{
  ℕ, zero, suc, ◌+◌, ◌-◌, ◌*◌, ◌/◌, ◌%◌, min, Bool, true, false, not, ◌&&◌, Option, none, some,
  List, [], ◌∷◌, leb, ltb, ◌==◌, if◌then◌else◌, u32, sub32, inc32, length, set,
}
use abstraction_layer.Error.{ErrorType, success, invalid_parameter}

pub record Coordinate : Type 0 where
  pub x : ℕ
  pub y : ℕ

-- Without the origin, which the functions below do not use.
pub record Area : Type 0 where
  pub width : ℕ
  pub height : ℕ

pub size : Area → ℕ
size a = a.width * a.height % u32

pub xy_to_flat_index : Area → Coordinate → ℕ
xy_to_flat_index a xy = (min xy.y (sub32 a.height 1) * a.width + min xy.x (sub32 a.width 1)) % u32

-- For a width other than 0.
pub flat_index_to_xy : Area → ℕ → Coordinate
flat_index_to_xy a i = record { x = i % a.width; y = i / a.width }

-- The eight neighbours, in the order of the array.
pub get_neighbours : Area → Coordinate → List ℕ
unfolding xy_to_flat_index
get_neighbours a c =
    let left = if c.x == 0 then 0 else c.x - 1 in
    let above = if c.y == 0 then 0 else c.y - 1 in
    xy_to_flat_index a (record { x = left; y = above })
    ∷ xy_to_flat_index a (record { x = c.x; y = above })
    ∷ xy_to_flat_index a (record { x = inc32 c.x; y = above })
    ∷ xy_to_flat_index a (record { x = left; y = c.y })
    ∷ xy_to_flat_index a (record { x = inc32 c.x; y = c.y })
    ∷ xy_to_flat_index a (record { x = left; y = inc32 c.y })
    ∷ xy_to_flat_index a (record { x = c.x; y = inc32 c.y })
    ∷ xy_to_flat_index a (record { x = inc32 c.x; y = inc32 c.y })
    ∷ []

-- `buffer->at`.
abbrev pub at : List ℕ → ℕ → Option ℕ
at [] i = none
at (b ∷ bs) zero = some b
at (b ∷ bs) (suc i) = at bs i

pub data PixelFormat : Type 0 where
  unknown argb4 argb1555 argb2 rgb565 rgb8 rgb4 greyscale : PixelFormat

abbrev pub is_greyscale : PixelFormat → Bool
is_greyscale PixelFormat.greyscale = true
is_greyscale _ = false

-- How a run of the loop ends; `unfinished` is a run whose fuel was too little.
pub data Run : Type 0 where
  throws unfinished : Run
  returns : List ℕ → Run

module _ (a : Area) (minimum maximum sharpen_to : ℕ) where
  -- The test of a pixel; the new colour is cut to a byte.
  abbrev pub is_connected : ℕ → Bool
  is_connected v = leb minimum v && leb v maximum && not (v == sharpen_to % 256)

  -- Push the neighbours that pass the test; the head of the list is the back of the stack.
  unfoldable pub push_neighbours : List ℕ → List ℕ → List Coordinate → Option (List Coordinate)
  unfolding flat_index_to_xy
  push_neighbours buffer [] stack = some stack
  push_neighbours buffer (n ∷ ns) stack =
      let pushed = push_neighbours buffer ns (flat_index_to_xy a n ∷ stack) in
      let skipped = push_neighbours buffer ns stack in
      elim (at buffer n) [ none ↦ none | some v ↦ if is_connected v then pushed else skipped ]

  -- The loop of `SharpenConnectedPixels`, with fuel for its rounds.
  unfoldable pub sharpen : ℕ → List ℕ → List Coordinate → Run
  unfolding xy_to_flat_index get_neighbours
  sharpen zero buffer stack = unfinished
  sharpen (suc fuel) buffer [] = returns buffer
  sharpen (suc fuel) buffer (c ∷ stack) =
      let i = xy_to_flat_index a c in
      let buffer' = set buffer i (sharpen_to % 256) in
      let skip = sharpen fuel buffer stack in
      let fill : Run = elim (push_neighbours buffer' (get_neighbours a c) stack) [
        | none ↦ throws
        | some stack' ↦ sharpen fuel buffer' stack'
      ] in
      elim (at buffer i) [ none ↦ throws | some v ↦ if is_connected v then fill else skip ]

  -- The error, and how the loop ends; on an error the buffer is left alone.
  pub sharpen_connected_pixels : ℕ → PixelFormat → Coordinate → List ℕ → ErrorType × Run
  sharpen_connected_pixels fuel format start buffer =
      if ltb 0 (length buffer) && is_greyscale format
      then (success, sharpen fuel buffer (start ∷ []))
      else (invalid_parameter, returns buffer)
