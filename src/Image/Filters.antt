-- ===== src/Image/Filters.antt =====
-- Utilities/ComputerVision.hpp, `FillPixelGaps`, `Dilate` and `VerticalStripFilter`, on buffers of
-- bytes. `none` is the exception of an `at` past the end, and `unfinished` a loop that goes on for
-- more rounds than the area has columns.
pub mod Loops
pub mod Gaps
pub mod Dilation
pub mod Strips
mod Examples
use abstraction_layer.Prelude.{
  ℕ, zero, suc, ◌+◌, ◌-◌, ◌%◌, min, Bool, true, false, ◌&&◌, Option, none, some, List, [], ◌∷◌, leb,
  ltb, ◌==◌, if◌then◌else◌, ◌>>=◌, u32, add32, sub32, length, set,
}
use abstraction_layer.Error.{ErrorType, success, not_supported, invalid_parameter}
use abstraction_layer.Image.{
  Coordinate, Area, size, xy_to_flat_index, at, PixelFormat, is_greyscale,
}

-- A `char` where it meets a `uint32_t`: on platforms where `char` is signed the sign is extended.
unfoldable pub promote : Bool → ℕ → ℕ
promote is_signed v = if is_signed && leb 128 v then v + (u32 - 256) else v

-- `buffer->at(i) = colour`, cut to a byte.
unfoldable pub store : List ℕ → ℕ → ℕ → Option (List ℕ)
store buffer i colour = elim (at buffer i) [
  | none ↦ none
  | some old ↦ some (set buffer i (colour % 256))
]

-- The values of a variable that runs from `low` to below `low + count`.
abbrev pub count_up : ℕ → ℕ → List ℕ
count_up low zero = []
count_up low (suc count) = low ∷ count_up (suc low) count

abbrev pub from_to : ℕ → ℕ → List ℕ
from_to low high = count_up low (high - low)

module _ {ℓ κ} {A : Type ℓ} {S : Type κ} where
  unfoldable pub for_each : (A → S → Option S) → List A → S → Option S
  for_each body [] s = some s
  for_each body (x ∷ xs) s = elim (body x s) [ none ↦ none | some s' ↦ for_each body xs s' ]

abbrev pub coordinate : ℕ → ℕ → Coordinate
coordinate x y = record { x = x; y = y }

-- How a function ends: by an exception, not at all, or with its error and the buffer.
pub data Outcome : Type 0 where
  throws unfinished : Outcome
  returns : ErrorType → List ℕ → Outcome

abbrev pub succeeds : Option (List ℕ) → Outcome
succeeds none = throws
succeeds (some buffer) = returns success buffer

module _ (is_signed : Bool) (unfilled : List ℕ) (a : Area) where
  -- `unfilled->at(i) == colour && unfilled->at(j) == colour`.
  unfoldable pub is_both : ℕ → ℕ → ℕ → Option Bool
  is_both colour i j = elim (at unfilled i) [
    | none ↦ none
    | some v ↦
        if promote is_signed v == colour
        then (elim (at unfilled j) [ none ↦ none | some w ↦ some (promote is_signed w == colour) ])
        else some false
  ]

  -- The loop over the sizes of a gap, which ends at the first that fits.
  unfoldable pub is_gap : ℕ → ℕ → ℕ → List ℕ → Option Bool
  is_gap fill_colour x y [] = some false
  is_gap fill_colour x y (gap ∷ gaps) =
      elim (is_both fill_colour (xy_to_flat_index a (coordinate (sub32 x gap) y))
        (xy_to_flat_index a (coordinate (add32 x gap) y))) [
          | none ↦ none
          | some true ↦ some true
          | some false ↦
              elim (is_both fill_colour (xy_to_flat_index a (coordinate x (sub32 y gap)))
                (xy_to_flat_index a (coordinate x (add32 y gap)))) [
                  | none ↦ none
                  | some true ↦ some true
                  | some false ↦ is_gap fill_colour x y gaps
                ]
        ]

  -- Whether the pixel has the colour of a gap and lies in one.
  unfoldable pub to_fill : ℕ → ℕ → ℕ → ℕ → ℕ → Option Bool
  to_fill max_gap_size gap_colour fill_colour x y =
      elim (at unfilled (xy_to_flat_index a (coordinate x y))) [
        | none ↦ none
        | some v ↦
            if promote is_signed v == gap_colour
            then is_gap fill_colour x y (from_to 1 (max_gap_size + 1))
            else some false
      ]

  unfoldable pub fill_pixel : ℕ → ℕ → ℕ → ℕ → ℕ → List ℕ → Option (List ℕ)
  fill_pixel max_gap_size gap_colour fill_colour y x filled =
      elim (to_fill max_gap_size gap_colour fill_colour x y) [
        | none ↦ none
        | some true ↦ store filled (xy_to_flat_index a (coordinate x y)) fill_colour
        | some false ↦ some filled
      ]

  unfoldable pub fill_pixel_gaps : PixelFormat → ℕ → ℕ → ℕ → Outcome
  fill_pixel_gaps format max_gap_size gap_colour fill_colour =
      if is_greyscale format
      then (if ltb 0 (size a) && size a == length unfilled
          then succeeds (
              for_each
                (λ y.
                  for_each (fill_pixel max_gap_size gap_colour fill_colour y)
                    (from_to max_gap_size (sub32 a.width 1)))
                (from_to max_gap_size (sub32 a.height 1)) unfilled)
          else returns invalid_parameter unfilled)
      else returns not_supported unfilled

module _ (undilated : List ℕ) (a kernel : Area) (minimum maximum : ℕ) where
  unfoldable pub dilate_target : ℕ → ℕ → ℕ → ℕ → List ℕ → Option (List ℕ)
  dilate_target x y kernel_y kernel_x dilated =
      store dilated (xy_to_flat_index a (coordinate (add32 x kernel_x) (add32 y kernel_y))) maximum

  -- The pixel is read as a `uint8_t`.
  unfoldable pub dilate_pixel : ℕ → ℕ → List ℕ → Option (List ℕ)
  dilate_pixel y x dilated = elim (at undilated (xy_to_flat_index a (coordinate x y))) [
    | none ↦ none
    | some v ↦
        if leb minimum v && leb v maximum
        then for_each (λ kernel_y. for_each (dilate_target x y kernel_y) (from_to 0 kernel.width))
            (from_to 0 kernel.height) dilated
        else some dilated
  ]

  unfoldable pub dilate : PixelFormat → List ℕ → Outcome
  dilate format dilated =
      if is_greyscale format
      then (if ltb 0 (size a)
          then succeeds (
              for_each (λ y. for_each (dilate_pixel y) (from_to 0 a.width)) (from_to 0 a.height)
                dilated)
          else returns invalid_parameter dilated)
      else returns not_supported dilated

module _ (a strip : Area) (minimum_intensity max_filter_intensity convert_to : ℕ) where
  -- The pixels of the strip at `x`, column by column.
  abbrev pub strip_columns : ℕ → List ℕ
  strip_columns x = from_to x (min (min (add32 x strip.width) a.width) a.width)

  abbrev pub strip_rows : List ℕ
  strip_rows = from_to 0 (min strip.height a.height)

  unfoldable pub add_intensity : List ℕ → ℕ → ℕ → ℕ → Option ℕ
  add_intensity buffer x y total = elim (at buffer (xy_to_flat_index a (coordinate x y))) [
    | none ↦ none
    | some v ↦ some (if leb minimum_intensity v then add32 total v else total)
  ]

  unfoldable pub total_intensity : List ℕ → ℕ → Option ℕ
  total_intensity buffer x =
      for_each (λ strip_x. for_each (add_intensity buffer strip_x) strip_rows) (strip_columns x) 0

  unfoldable pub convert_strip : List ℕ → ℕ → Option (List ℕ)
  convert_strip buffer x =
      for_each
        (λ strip_x.
          for_each
            (λ strip_y now. store now (xy_to_flat_index a (coordinate strip_x strip_y)) convert_to)
            strip_rows)
        (strip_columns x) buffer

  unfoldable pub filter_strip : List ℕ → ℕ → Option (List ℕ)
  filter_strip buffer x = elim (total_intensity buffer x) [
    | none ↦ none
    | some total ↦ if leb total max_filter_intensity then convert_strip buffer x else some buffer
  ]

  -- The loop over the strips, with fuel for its rounds.
  unfoldable pub filter_strips : ℕ → ℕ → List ℕ → Outcome
  filter_strips zero x buffer = unfinished
  filter_strips (suc fuel) x buffer =
      let next : Outcome = elim (filter_strip buffer x) [
        | none ↦ throws
        | some buffer' ↦ filter_strips fuel (add32 x strip.width) buffer'
      ] in
      if ltb x a.width then next else returns success buffer

  -- An area of the strip that is 0, or a buffer of another size, is a success too.
  unfoldable pub vertical_strip_filter : PixelFormat → List ℕ → Outcome
  vertical_strip_filter format buffer =
      if is_greyscale format
      then (if ltb 0 (size strip) && length buffer == size a
          then filter_strips (a.width + 1) 0 buffer
          else returns success buffer)
      else returns not_supported buffer
