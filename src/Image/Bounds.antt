-- ===== src/Image/Bounds.antt =====
-- Utilities/Types.hpp: every flat index lies inside the area, and coordinates and flat indices
-- correspond.
use native.Mathlib.Nat.{mul-le-mul_right, mul-le-mul_left}
use abstraction_layer.Prelude.{
  ℕ, ◌+◌, ◌-◌, ◌*◌, ◌<◌, ◌≤◌, ◌≡◌, ◌∙◌, min, arith, ap, List, [], ◌∷◌, u32, sub32,
}
use abstraction_layer.Image.{Area, Coordinate, size, xy_to_flat_index, get_neighbours}

-- An area with pixels whose number fits a `uint32_t`.
pub record IsArea (a : Area) : Type 0 where
  pub wide : 0 < a.width
  pub high : 0 < a.height
  pub fits : a.height * a.width < u32

module _ (a : Area) (v : IsArea a) where
  row_end : a.height * a.width ≡ (a.height - 1) * a.width + a.width
  row_end = ap (λ n. n * a.width) last ∙ omega arith
    where
      last : a.height ≡ a.height - 1 + 1
      last = omega (arith, v.high)

  width_le : a.width ≤ a.height * a.width
  width_le = omega (arith, row_end)

  height_le : a.height ≤ a.height * a.width
  height_le = omega (arith, mul-le-mul_left {m = 1} {n = a.width} a.height (omega (arith, v.wide)))

  -- The sides of an area are not longer together than it is large, but for one.
  pub sides_le : a.width + a.height ≤ a.height * a.width + 1
  sides_le = omega (
    arith,
    row_end,
    v.high,
    mul-le-mul_left {m = 1} {n = a.width} (a.height - 1) (omega (arith, v.wide)),
  )

  pub size-IsArea : size a ≡ a.height * a.width
  unfolding size
  size-IsArea = omega (arith, v.fits)

  last_row : sub32 a.height 1 ≡ a.height - 1
  last_row = omega (arith, v.high, v.fits, height_le)

  last_column : sub32 a.width 1 ≡ a.width - 1
  last_column = omega (arith, v.wide, v.fits, width_le)

  inside_area :
      (c : Coordinate)
      → min c.y (a.height - 1) * a.width + min c.x (a.width - 1) < a.height * a.width
  inside_area c = omega (
    arith,
    row_end,
    v.wide,
    mul-le-mul_right {m = min c.y (a.height - 1)} {n = a.height - 1} a.width (omega arith),
  )

  -- The coordinates are cut to the area.
  pub xy_to_flat_index_lem :
      (c : Coordinate)
      → xy_to_flat_index a c ≡ min c.y (a.height - 1) * a.width + min c.x (a.width - 1)
  unfolding xy_to_flat_index
  xy_to_flat_index_lem c = rw (last_row, last_column) (omega (arith, inside_area c, v.fits))

  pub xy_to_flat_index-lt : (c : Coordinate) → xy_to_flat_index a c < a.height * a.width
  xy_to_flat_index-lt c = rw (xy_to_flat_index_lem c) (inside_area c)

-- Every number of the list is below the bound.
abbrev pub AllBelow : ℕ → List ℕ → Type 0
AllBelow n [] = Unit {0}
AllBelow n (x ∷ xs) = (x < n) × AllBelow n xs

pub get_neighbours-AllBelow :
    (a : Area) (c : Coordinate) → IsArea a → AllBelow (a.height * a.width) (get_neighbours a c)
unfolding get_neighbours
get_neighbours-AllBelow a c v =
    let inside = xy_to_flat_index-lt a v in
    (
      inside _,
      (inside _, (inside _, (inside _, (inside _, (inside _, (inside _, (inside _, _))))))),
    )
