-- ===== src/Image/Filters/Strips.antt =====
-- Utilities/ComputerVision.hpp, `VerticalStripFilter`: its loop ends, and what it colours.
use abstraction_layer.Prelude.{
  ℕ, zero, suc, ◌+◌, ◌-◌, ◌*◌, ◌%◌, ◌<◌, ◌≤◌, ◌≡◌, refl, ap, inl, inr, arith, Option, some, List,
  length, get_or, Bool-cases, ℕ-cases, u32, add32, min, lt→ltb, ltb→lt, ltb, leb, ==_self,
  if◌then◌else◌,
}
use abstraction_layer.Error.{success}
use abstraction_layer.Image.{Area, size, xy_to_flat_index, PixelFormat}
use abstraction_layer.Image.Bounds.{IsArea, size-IsArea, xy_to_flat_index-lt}
use abstraction_layer.Image.Fill.{at-get_or}
use abstraction_layer.Image.Filters.{
  store, coordinate, strip_columns, strip_rows, add_intensity, total_intensity, convert_strip,
  filter_strip, filter_strips, vertical_strip_filter, returns,
}
use abstraction_layer.Image.Filters.Loops.{
  Among, Among-from_to, Painted, store-Painted, Painted-self, grid-Keeps, grid-Paints,
}

module _ (before : List ℕ) (a strip : Area)
    (minimum_intensity max_filter_intensity convert_to : ℕ) where
  -- A pixel of the rows that a strip has.
  abbrev pub InRows : ℕ → Type 0
  InRows i =
      (x : ℕ) × (y : ℕ) × (i ≡ xy_to_flat_index a (coordinate x y))
      × ((x < a.width) × (y < strip.height))

  module _ (v : IsArea a) (whole : length before ≡ a.height * a.width) where
    inside : (x y : ℕ) → xy_to_flat_index a (coordinate x y) < length before
    inside x y = omega (arith, whole, xy_to_flat_index-lt a v (coordinate x y))

    abbrev columns : ℕ → List ℕ
    columns = strip_columns a strip minimum_intensity max_filter_intensity convert_to

    abbrev rows : List ℕ
    rows = strip_rows a strip minimum_intensity max_filter_intensity convert_to

    abbrev sum_of : List ℕ → ℕ → Option ℕ
    sum_of = total_intensity a strip minimum_intensity max_filter_intensity convert_to

    add_intensity-some :
        (now : List ℕ) (x y t : ℕ)
        → length now ≡ length before
        → (t' : ℕ) × (add_intensity a strip minimum_intensity max_filter_intensity convert_to now x
              y t
            ≡ some t')
    unfolding add_intensity
    add_intensity-some now x y t same =
        let v = get_or now (xy_to_flat_index a (coordinate x y)) 0 in
        (
          (if leb minimum_intensity v then add32 t v else t),
          rw
              (
                at-get_or now (xy_to_flat_index a (coordinate x y))
                    (omega (arith, same, inside x y)),
                add_intensity,
              )
              refl,
        )

    -- The sum is taken without an exception.
    total_intensity-some :
        (now : List ℕ) (x : ℕ)
        → length now ≡ length before
        → (total : ℕ) × (sum_of now x ≡ some total)
    unfolding total_intensity
    total_intensity-some now x same =
        let (total, e, u) =
          grid-Keeps (λ (t : ℕ). Unit {0})
            (add_intensity a strip minimum_intensity max_filter_intensity convert_to now) rows
            (columns x) 0
            (λ strip_y strip_x my mx t u.
              let (t', e) = add_intensity-some now strip_x strip_y t same in (t', e, tt))
            tt in
        (total, e)

    column_inside : (x strip_x : ℕ) → Among strip_x (columns x) → strip_x < a.width
    column_inside x strip_x m =
        omega (arith, Among-from_to x (min (min (add32 x strip.width) a.width) a.width) strip_x m)

    row_inside : (strip_y : ℕ) → Among strip_y rows → strip_y < strip.height
    row_inside strip_y m = omega (arith, Among-from_to 0 (min strip.height a.height) strip_y m)

    convert_strip-Paints :
        (x : ℕ) (now : List ℕ)
        → Painted before convert_to InRows now
        → (next : List ℕ) × (convert_strip a strip minimum_intensity max_filter_intensity convert_to
              now x
            ≡ some next)
          × Painted before convert_to InRows next
    unfolding convert_strip
    convert_strip-Paints x now h =
        let (next, e, p, keep, paint) =
          grid-Paints before convert_to InRows
            (λ strip_x strip_y now.
              store now (xy_to_flat_index a (coordinate strip_x strip_y)) convert_to)
            (λ strip_y strip_x j. ⊥) rows (columns x)
            (λ strip_y strip_x my mx s p.
              let (s', f, q, here, keep) =
                store-Painted before convert_to InRows s
                  (xy_to_flat_index a (coordinate strip_x strip_y)) (inside strip_x strip_y)
                  (strip_x, strip_y, refl, (column_inside x strip_x mx, row_inside strip_y my)) p in
              (s', f, q, keep, λ j none'. absurd none'))
            now h in
        (next, e, p)

    filter_strip-Painted :
        (x : ℕ) (now : List ℕ)
        → Painted before convert_to InRows now
        → (next : List ℕ) × (filter_strip a strip minimum_intensity max_filter_intensity convert_to
              now x
            ≡ some next)
          × Painted before convert_to InRows next
    unfolding filter_strip
    filter_strip-Painted x now h =
        let (total, e) = total_intensity-some now x h.0 in
        let (next, f, p) = convert_strip-Paints x now h in
        elim (Bool-cases (leb total max_filter_intensity)) [
          | inl dark ↦ (next, rw (e, filter_strip, dark) f, p)
          | inr light ↦ (now, rw (e, filter_strip, light) refl, h)
        ]

    filter_strips_end :
        (fuel x : ℕ) (now : List ℕ)
        → 0 < strip.width
        → a.width + strip.width ≤ u32
        → a.width - x < fuel
        → Painted before convert_to InRows now
        → (next : List ℕ) × (filter_strips a strip minimum_intensity max_filter_intensity convert_to
              fuel x now
            ≡ returns success next)
          × Painted before convert_to InRows next
    unfolding filter_strips
    filter_strips_end zero x now wide fits enough h = absurd (omega arith)
    filter_strips_end (suc fuel) x now wide fits enough h = elim (Bool-cases (ltb x a.width)) [
      | inl more ↦
          let (now', e, p) = filter_strip-Painted x now h in
          let (next, f, q) =
            filter_strips_end fuel (add32 x strip.width) now' wide fits
              (omega (arith, enough, ltb→lt x a.width more, fits, wide)) p in
          (next, rw (more, e, filter_strips) f, q)
      | inr done ↦ (now, rw done refl, h)
    ]

    size-width : 0 < size strip → 0 < strip.width
    unfolding size
    size-width h = elim (ℕ-cases strip.width) [
      | inl e ↦ absurd (omega (arith, h, ap (λ (w : ℕ). w * strip.height % u32) e))
      | inr (n, e) ↦ omega arith
    ]

    -- On a greyscale buffer of the area's size and a strip with pixels the loop ends with success and
    -- throws nothing, where the width of the area and of a strip together fit a `uint32_t`; each pixel
    -- is as it was, or lies in the rows of a strip and has the colour to convert to.
    pub vertical_strip_filter_ends :
        0 < size strip
        → a.width + strip.width ≤ u32
        → (after : List ℕ) × (vertical_strip_filter a strip minimum_intensity max_filter_intensity
              convert_to PixelFormat.greyscale before
            ≡ returns success after)
          × Painted before convert_to InRows after
    unfolding vertical_strip_filter
    vertical_strip_filter_ends some_pixels fits =
        let (after, e, p) =
          filter_strips_end (a.width + 1) 0 before (size-width some_pixels) fits (omega arith)
            (Painted-self before convert_to InRows) in
        (
          after,
          rw (lt→ltb 0 (size strip) some_pixels, size-IsArea a v, ← whole, ==_self (length before))
              e,
          p,
        )
