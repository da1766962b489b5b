-- ===== src/Image/Filters/Dilation.antt =====
-- Utilities/ComputerVision.hpp, `Dilate`: which pixels it colours.
use abstraction_layer.Prelude.{
  ℕ, ◌+◌, ◌*◌, ◌<◌, ◌≤◌, ◌≡◌, refl, ap, inl, inr, arith, false, ◌&&◌, Option, some, List, length,
  get_or, Bool-cases, u32, add32, lt→ltb, leb,
}
use abstraction_layer.Error.{success}
use abstraction_layer.Image.{Area, at, xy_to_flat_index, PixelFormat}
use abstraction_layer.Image.Bounds.{IsArea, sides_le, size-IsArea, xy_to_flat_index-lt}
use abstraction_layer.Image.Fill.{at-get_or}
use abstraction_layer.Image.Filters.{
  from_to, coordinate, dilate_target, dilate_pixel, dilate, returns, succeeds,
}
use abstraction_layer.Image.Filters.Loops.{
  Among-from_to, from_to-Among, Painted, HasColour, store-Painted, Painted-self, Paints,
  grid-Paints,
}

module _ (undilated before : List ℕ) (a kernel : Area) (minimum maximum : ℕ) where
  abbrev pub source : ℕ → ℕ → ℕ
  source x y = get_or undilated (xy_to_flat_index a (coordinate x y)) 0

  -- The pixel is in the range, and the offset is inside the kernel.
  abbrev pub IsDilated : ℕ → ℕ → ℕ → ℕ → Type 0
  IsDilated x y right down =
      ((x < a.width) × (y < a.height))
      × ((right < kernel.width) × (down < kernel.height))
      × ((minimum ≤ source x y) × (source x y ≤ maximum))

  abbrev pub target : ℕ → ℕ → ℕ → ℕ → ℕ
  target x y right down = xy_to_flat_index a (coordinate (x + right) (y + down))

  abbrev pub TargetAt : ℕ → Type 0
  TargetAt i =
      (x : ℕ) × (y : ℕ) × (right : ℕ) × (down : ℕ) × (i ≡ target x y right down)
      × IsDilated x y right down

  module _ (v : IsArea a) (whole : length undilated ≡ a.height * a.width)
      (room : length before ≡ a.height * a.width)
      (fits : (a.width + kernel.width ≤ u32) × (a.height + kernel.height ≤ u32)) where
    abbrev paint : ℕ → ℕ → ℕ → ℕ → List ℕ → Option (List ℕ)
    paint = dilate_target undilated a kernel minimum maximum

    dilate_target-Paints :
        (x y right down : ℕ)
        → IsDilated x y right down
        → Paints before maximum TargetAt (paint x y down right) (λ j. j ≡ target x y right down)
    unfolding dilate_target
    dilate_target-Paints x y right down d s h =
        let e : add32 x right ≡ x + right = omega (arith, d.0, d.1, fits) in
        let f : add32 y down ≡ y + down = omega (arith, d.0, d.1, fits) in
        let (s', stored, p, here, keep) =
          store-Painted before maximum TargetAt s (target x y right down)
            (omega (arith, room, xy_to_flat_index-lt a v (coordinate (x + right) (y + down))))
            (x, y, right, down, refl, d) h in
        (s', rw (e, f) stored, p, keep, λ j same. rw same here)

    -- A target of the pixel, by its index.
    abbrev Marks : ℕ → ℕ → ℕ → Type 0
    Marks x y j = (right : ℕ) × (down : ℕ) × (j ≡ target x y right down) × IsDilated x y right down

    at-source : (x y : ℕ) → at undilated (xy_to_flat_index a (coordinate x y)) ≡ some (source x y)
    at-source x y =
        at-get_or undilated (xy_to_flat_index a (coordinate x y))
          (omega (arith, whole, xy_to_flat_index-lt a v (coordinate x y)))

    dilate_pixel-Paints :
        (x y : ℕ)
        → x < a.width
        → y < a.height
        → Paints before maximum TargetAt
            (dilate_pixel undilated a kernel minimum maximum y x)
            (Marks x y)
    unfolding dilate_pixel
    dilate_pixel-Paints x y p q s h =
        elim (Bool-cases (leb minimum (source x y) && leb (source x y) maximum)) [
          | inl passes ↦
              let (s', e, now, keep, paint) =
                grid-Paints before maximum TargetAt (paint x y)
                  (λ right down j. j ≡ target x y right down) (from_to 0 kernel.width)
                  (from_to 0 kernel.height)
                  (λ right down mr md. dilate_target-Paints x y right down (
                    (p, q),
                    (
                      (Among-from_to 0 kernel.width right mr).1,
                      (Among-from_to 0 kernel.height down md).1,
                    ),
                    ground arith,
                  ))
                  s h in
              (
                s',
                rw (at-source x y, dilate_pixel, passes) e,
                now,
                keep,
                λ j (right, down, same, d). paint j (
                  down,
                  from_to-Among 0 kernel.height down (omega arith) d.1.1,
                  (right, from_to-Among 0 kernel.width right (omega arith) d.1.0, same),
                ),
              )
          | inr differs ↦ (
            s,
            rw (at-source x y, dilate_pixel, differs) refl,
            h,
            (λ j k. k),
            λ j (right, down, same, d). absurd (outside x y d.2 differs),
          )
        ]
      where
        outside :
            (x y : ℕ)
            → (minimum ≤ source x y) × (source x y ≤ maximum)
            → (leb minimum (source x y) && leb (source x y) maximum) ≡ false
            → ⊥
        outside x y d differs = ground arith

    -- On a greyscale area, with both buffers of its size, the function succeeds and throws nothing; it
    -- gives the largest colour to the pixels that the kernel covers when its corner lies on a pixel in
    -- the range of colours, where a coordinate past the right or the lower edge is that of the edge.
    -- All other pixels are as they were. The sums of the sides fit a `uint32_t`.
    pub dilate-IsDilated :
        (dilated : List ℕ) × (dilate undilated a kernel minimum maximum PixelFormat.greyscale before
          ≡ returns success dilated)
        × Painted before maximum TargetAt dilated
        × ((x y right down : ℕ)
            → IsDilated x y right down
            → HasColour maximum (target x y right down) dilated)
    unfolding dilate
    dilate-IsDilated =
        let (dilated, e, p, keep, paint) =
          grid-Paints before maximum TargetAt (dilate_pixel undilated a kernel minimum maximum)
            Marks (from_to 0 a.width) (from_to 0 a.height)
            (λ x y mx my.
              dilate_pixel-Paints x y (Among-from_to 0 a.width x mx).1
                (Among-from_to 0 a.height y my).1)
            before (Painted-self before maximum TargetAt) in
        (
          dilated,
          rw
              (
                size-IsArea a v,
                ← room,
                lt→ltb 0 (length before) (omega (arith, room, sides_le a v, v.wide, v.high)),
              )
              (ap succeeds e),
          p,
          λ x y right down d. paint (target x y right down) (
            y,
            from_to-Among 0 a.height y (omega arith) d.0.1,
            (x, from_to-Among 0 a.width x (omega arith) d.0.0, (right, down, refl, d)),
          ),
        )
