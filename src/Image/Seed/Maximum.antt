-- ===== src/Image/Seed/Maximum.antt =====
-- Utilities/ComputerVision.hpp, `GetSeed`: the place that it returns has the largest sum.
use native.Mathlib.Nat.{mul-le-mul_right, mul-le-mul_left}
use abstraction_layer.Prelude.{
  ℕ, zero, suc, ◌+◌, ◌-◌, ◌*◌, ◌/◌, ◌<◌, ◌≤◌, ◌≡◌, ◌⊎◌, refl, subst, inl, inr, arith, ◌&&◌, Option,
  some, List, [], ◌∷◌, length, get_or, Bool-cases, ==_self, ltb, leb, lt→ltb, le→leb, ltb→lt,
  ltb-false, if◌then◌else◌, u32, add32, sub32,
}
use abstraction_layer.Error.{success}
use abstraction_layer.Image.{Area, xy_to_flat_index, PixelFormat}
use abstraction_layer.Image.Bounds.{IsArea, size-IsArea, sides_le, xy_to_flat_index-lt}
use abstraction_layer.Image.Fill.{at-get_or}
use abstraction_layer.Image.Filters.{for_each, from_to, coordinate}
use abstraction_layer.Image.Filters.Loops.{Among, grid-Keeps}
use abstraction_layer.Image.Seed.{
  Best, steps, add_pixel, total_at, try_place, no_seed, get_seed, returns,
}

-- A value of a variable that runs from `x` in steps to below the bound.
abbrev pub OnGrid : ℕ → ℕ → ℕ → ℕ → Type 0
OnGrid x bound step p = (i : ℕ) × (p ≡ x + i * step) × (p < bound)

-- The loop ends, and takes each value of the grid and no other.
steps_end :
    (fuel x bound step : ℕ)
    → 0 < step
    → bound + step ≤ u32
    → bound - x < fuel
    → (xs : List ℕ) × (steps fuel x bound step ≡ some xs)
      × ((i : ℕ) → x + i * step < bound → Among (x + i * step) xs)
      × ((p : ℕ) → Among p xs → OnGrid x bound step p)
unfolding steps
steps_end zero x bound step pos fits enough = absurd (omega arith)
steps_end (suc fuel) x bound step pos fits enough = elim (Bool-cases (ltb x bound)) [
  | inl more ↦
      let below = ltb→lt x bound more in
      let (xs, e, each, only) =
        steps_end fuel (add32 x step) bound step pos fits (omega (arith, below)) in
      (
        x ∷ xs,
        rw (more, e, steps) refl,
        next xs (omega (arith, below)) each,
        back xs below (omega (arith, below)) only,
      )
  | inr done ↦ (
    [],
    rw done refl,
    (λ i below. absurd (omega (arith, below, ltb-false x bound done))),
    λ p m. absurd m,
  )
]
  where
    next :
        (xs : List ℕ)
        → add32 x step ≡ x + step
        → ((i : ℕ) → add32 x step + i * step < bound → Among (add32 x step + i * step) xs)
        → (i : ℕ) → x + i * step < bound
        → Among (x + i * step) (x ∷ xs)
    next xs e each zero below = inl (omega arith)
    next xs e each (suc i) below = inr (
        subst (λ n. Among n xs) {x = add32 x step + i * step} {y = x + suc i * step}
          (omega (arith, e)) (each i (omega (arith, e, below))))

    back :
        (xs : List ℕ)
        → x < bound
        → add32 x step ≡ x + step
        → ((p : ℕ) → Among p xs → OnGrid (add32 x step) bound step p)
        → (p : ℕ) → Among p (x ∷ xs)
        → OnGrid x bound step p
    back xs below e only p (inl same) = (0, omega (arith, same), omega (arith, same, below))
    back xs below e only p (inr m) =
        let (i, at, inside) = only p m in (suc i, omega (arith, at, e), inside)

module _ (kernel a : Area) (min_intensity max_intensity : ℕ) (buffer : List ℕ) (v : IsArea a)
    (whole : length buffer ≡ a.height * a.width) where
  abbrev total_of : ℕ → ℕ → Option ℕ
  total_of = total_at kernel a min_intensity max_intensity buffer

  abbrev place : ℕ → ℕ → Best → Option Best
  place = try_place kernel a min_intensity max_intensity buffer

  add_pixel-some :
      (x y t : ℕ)
      → (t' : ℕ) × (add_pixel kernel a min_intensity max_intensity buffer y x t ≡ some t')
  unfolding add_pixel
  add_pixel-some x y t =
      let v' = get_or buffer (xy_to_flat_index a (coordinate x y)) 0 in
      (
        (if leb min_intensity v' && leb v' max_intensity then add32 t v' else t),
        rw
            (
              at-get_or buffer (xy_to_flat_index a (coordinate x y))
                  (omega (arith, whole, xy_to_flat_index-lt a v (coordinate x y))),
              add_pixel,
            )
            refl,
      )

  total_at-some : (x y : ℕ) → (total : ℕ) × (total_of x y ≡ some total)
  unfolding total_at
  total_at-some x y =
      let (total, e, _) =
        grid-Keeps (λ (t : ℕ). Unit {0}) (add_pixel kernel a min_intensity max_intensity buffer)
          (from_to (sub32 x 1) (add32 (sub32 x 1) kernel.width))
          (from_to (sub32 y 1) (add32 (sub32 y 1) kernel.height)) 0
          (λ px py mx my t u. let (t', e) = add_pixel-some px py t in (t', e, tt)) tt in
      (total, e)

  abbrev pub Column : ℕ → Type 0
  Column = OnGrid (kernel.width / 2) (a.width - kernel.width / 2) kernel.width

  abbrev pub Row : ℕ → Type 0
  Row = OnGrid (kernel.height / 2) (a.height - kernel.height / 2) kernel.height

  -- The best place is one of the grid with its sum, which is above 0, or none has been found.
  abbrev pub Chosen : Best → Type 0
  Chosen best =
      (best ≡ no_seed kernel a min_intensity max_intensity buffer)
      ⊎ ((x : ℕ) × (y : ℕ) × Column x
          × Row y
          × (best.seed ≡ coordinate x y)
          × (total_of x y ≡ some best.score)
          × (0 < best.score))

  -- At least the score of another, and the sum at a place.
  abbrev pub AtLeast : ℕ → ℕ → ℕ → Type 0
  AtLeast score x y = (total : ℕ) × (total_of x y ≡ some total) × (total ≤ score)

  try_place_lem :
      (x y : ℕ) (best : Best)
      → Column x
      → Row y
      → Chosen best
      → (best' : Best) × (place y x best ≡ some best')
        × Chosen best'
        × (best.score ≤ best'.score)
        × AtLeast best'.score x y
  unfolding try_place
  try_place_lem x y best column row h =
      let (total, e) = total_at-some x y in
      elim (Bool-cases (ltb best.score total)) [
        | inl better ↦ (
          record { score = total; seed = coordinate x y },
          rw (e, try_place, better) refl,
          inr (x, y, column, row, refl, e, omega (arith, ltb→lt best.score total better)),
          omega (arith, ltb→lt best.score total better),
          (total, e, omega arith),
        )
        | inr worse ↦ (
          best,
          rw (e, try_place, worse) refl,
          h,
          omega arith,
          (total, e, ltb-false best.score total worse),
        )
      ]

  row_lem :
      (y : ℕ) (xs : List ℕ) (best : Best)
      → ((x : ℕ) → Among x xs → Column x)
      → Row y
      → Chosen best
      → (best' : Best) × (for_each (place y) xs best ≡ some best')
        × Chosen best'
        × (best.score ≤ best'.score)
        × ((x : ℕ) → Among x xs → AtLeast best'.score x y)
  unfolding for_each
  row_lem y [] best columns row h = (best, refl, h, omega arith, λ x m. absurd m)
  row_lem y (x ∷ xs) best columns row h =
      let (best', e, h', more, here) = try_place_lem x y best (columns x (inl refl)) row h in
      let (last, f, k, more', each) = row_lem y xs best' (λ x' m. columns x' (inr m)) row h' in
      (
        last,
        rw (e, for_each) f,
        k,
        omega (arith, more, more'),
        λ x' m. first_or_rest x' m here more' (each x'),
      )
    where
      first_or_rest :
          {score score' : ℕ} (x' : ℕ)
          → Among x' (x ∷ xs)
          → AtLeast score x y
          → score ≤ score'
          → (Among x' xs → AtLeast score' x' y)
          → AtLeast score' x' y
      first_or_rest x' (inl e) (total, t, few) more rest = (total, rw e t, omega (arith, few, more))
      first_or_rest x' (inr m) here more rest = rest m

  rows_lem :
      (xs ys : List ℕ) (best : Best)
      → ((x : ℕ) → Among x xs → Column x)
      → ((y : ℕ) → Among y ys → Row y)
      → Chosen best
      → (best' : Best) × (for_each (λ y. for_each (place y) xs) ys best ≡ some best')
        × Chosen best'
        × (best.score ≤ best'.score)
        × ((x y : ℕ) → Among x xs → Among y ys → AtLeast best'.score x y)
  unfolding for_each
  rows_lem xs [] best columns rows h = (best, refl, h, omega arith, λ x y m n. absurd n)
  rows_lem xs (y ∷ ys) best columns rows h =
      let (best', e, h', more, row) = row_lem y xs best columns (rows y (inl refl)) h in
      let (last, f, k, more', each) = rows_lem xs ys best' columns (λ y' m. rows y' (inr m)) h' in
      (
        last,
        rw (e, for_each) f,
        k,
        omega (arith, more, more'),
        λ x y' m n. first_or_rest x y' n (row x m) more' (each x y' m),
      )
    where
      first_or_rest :
          {score score' : ℕ} (x y' : ℕ)
          → Among y' (y ∷ ys)
          → AtLeast score x y
          → score ≤ score'
          → (Among y' ys → AtLeast score' x y')
          → AtLeast score' x y'
      first_or_rest x y' (inl e) (total, t, few) more rest =
          (total, rw e t, omega (arith, few, more))
      first_or_rest x y' (inr m) here more rest = rest m

  smaller :
      kernel.width ≤ a.width
      → kernel.height ≤ a.height
      → kernel.height * kernel.width ≤ a.height * a.width
  smaller narrow low = omega (
    arith,
    mul-le-mul_right {m = kernel.height} {n = a.height} kernel.width low,
    mul-le-mul_left {m = kernel.width} {n = a.width} a.height narrow,
  )

  get_seed_run :
      IsArea kernel
      → kernel.width ≤ a.width
      → kernel.height ≤ a.height
      → (xs ys : List ℕ) (best : Best)
      → steps (suc a.width) (kernel.width / 2) (a.width - kernel.width / 2) kernel.width ≡ some xs
      → steps (suc a.height) (kernel.height / 2) (a.height - kernel.height / 2) kernel.height
        ≡ some ys
      → for_each
          (λ y. for_each (place y) xs)
          ys
          (no_seed kernel a min_intensity max_intensity buffer)
        ≡ some best
      → get_seed kernel a min_intensity max_intensity buffer PixelFormat.greyscale
        ≡ returns success best.seed
  unfolding get_seed
  get_seed_run k narrow low xs ys best columns rows found =
      let e : sub32 a.width (kernel.width / 2) ≡ a.width - kernel.width / 2 =
        omega (arith, sides_le a v, v.fits, v.high, narrow) in
      let f : sub32 a.height (kernel.height / 2) ≡ a.height - kernel.height / 2 =
        omega (arith, sides_le a v, v.fits, v.wide, low) in
      rw
        (
          size-IsArea kernel k,
          size-IsArea a v,
          ← whole,
          ==_self (length buffer),
          lt→ltb 0 (kernel.height * kernel.width)
              (omega (arith, sides_le kernel k, k.wide, k.high)),
          lt→ltb 0 (length buffer) (omega (arith, whole, sides_le a v, v.wide, v.high)),
          le→leb (kernel.height * kernel.width) (length buffer)
              (omega (arith, whole, smaller narrow low)),
          e,
          columns,
          f,
          rows,
          found,
        )
        refl

  -- On a greyscale buffer of the area's size, with a kernel that is neither wider nor higher than the
  -- area, the search succeeds and throws nothing. The place that it returns is (0, 0) if no sum is
  -- above 0, and else one of the grid of places where the sum of the kernel, which is above 0, is
  -- largest on the grid. The grid begins at half a kernel and goes on in steps of a kernel to half a
  -- kernel before the right and the lower edge. The sums of the sides fit a `uint32_t`.
  pub get_seed-AtLeast :
      IsArea kernel
      → kernel.width ≤ a.width
      → kernel.height ≤ a.height
      → (a.width + kernel.width ≤ u32) × (a.height + kernel.height ≤ u32)
      → (best : Best) × (get_seed kernel a min_intensity max_intensity buffer PixelFormat.greyscale
          ≡ returns success best.seed)
        × Chosen best
        × ((i j : ℕ)
            → kernel.width / 2 + i * kernel.width < a.width - kernel.width / 2
            → kernel.height / 2 + j * kernel.height < a.height - kernel.height / 2
            → AtLeast best.score
                (kernel.width / 2 + i * kernel.width)
                (kernel.height / 2 + j * kernel.height))
  get_seed-AtLeast k narrow low fits =
      let (xs, columns, column, in_columns) =
        steps_end (suc a.width) (kernel.width / 2) (a.width - kernel.width / 2) kernel.width k.wide
          (omega (arith, fits)) (omega arith) in
      let (ys, rows, row, in_rows) =
        steps_end (suc a.height) (kernel.height / 2) (a.height - kernel.height / 2) kernel.height
          k.high (omega (arith, fits)) (omega arith) in
      let (best, found, chosen, _, each) =
        rows_lem xs ys (no_seed kernel a min_intensity max_intensity buffer) in_columns in_rows
          (inl refl) in
      (
        best,
        get_seed_run k narrow low xs ys best columns rows found,
        chosen,
        λ i j p q. each _ _ (column i p) (row j q),
      )
