-- ===== src/Image/Filters/Gaps.antt =====
-- Utilities/ComputerVision.hpp, `FillPixelGaps`: which pixels it fills.
use abstraction_layer.Prelude.{
  ℕ, ◌+◌, ◌-◌, ◌*◌, ◌<◌, ◌≤◌, ◌≡◌, ◌⊎◌, refl, ap, subst, inl, inr, arith, Bool, true, false, ◌&&◌,
  ◌||◌, Option, some, List, [], ◌∷◌, length, get_or, Bool-cases, ==_iff, ◌==◌, if◌then◌else◌, add32,
  sub32, lt→ltb, ==_self,
}
use abstraction_layer.Error.{success}
use abstraction_layer.Image.{Area, at, xy_to_flat_index, PixelFormat}
use abstraction_layer.Image.Bounds.{IsArea, sides_le, size-IsArea, xy_to_flat_index-lt}
use abstraction_layer.Image.Fill.{at-get_or}
use abstraction_layer.Image.Filters.{
  promote, from_to, coordinate, is_both, is_gap, to_fill, fill_pixel, fill_pixel_gaps, returns,
  succeeds,
}
use abstraction_layer.Image.Filters.Loops.{
  Among, Among-from_to, from_to-Among, Painted, HasColour, store-Painted, Painted-self, Paints,
  grid-Paints,
}

module _ (is_signed : Bool) (unfilled : List ℕ) (a : Area)
    (max_gap_size gap_colour fill_colour : ℕ) where
  -- The colour of a pixel; a coordinate past the edge is that of the edge.
  abbrev pub pixel : ℕ → ℕ → ℕ
  pixel x y = promote is_signed (get_or unfilled (xy_to_flat_index a (coordinate x y)) 0)

  -- The fill colour stands on both sides, left and right or above and below, at the same distance.
  abbrev pub Enclosed : ℕ → ℕ → ℕ → Type 0
  Enclosed x y gap =
      ((pixel (x - gap) y ≡ fill_colour) × (pixel (x + gap) y ≡ fill_colour))
      ⊎ ((pixel x (y - gap) ≡ fill_colour) × (pixel x (y + gap) ≡ fill_colour))

  -- A pixel inside the margins that has the colour of a gap and is enclosed.
  pub record IsGap (x y : ℕ) : Type 0 where
    pub columns : (max_gap_size ≤ x) × (x < a.width - 1)
    pub rows : (max_gap_size ≤ y) × (y < a.height - 1)
    pub coloured : pixel x y ≡ gap_colour
    pub gap : ℕ
    pub is_small : (1 ≤ gap) × (gap ≤ max_gap_size)
    pub enclosed : Enclosed x y gap

  module _ (v : IsArea a) (whole : length unfilled ≡ a.height * a.width) where
    at_pixel :
        (x y : ℕ)
        → at unfilled (xy_to_flat_index a (coordinate x y))
          ≡ some (get_or unfilled (xy_to_flat_index a (coordinate x y)) 0)
    at_pixel x y =
        at-get_or unfilled (xy_to_flat_index a (coordinate x y))
          (omega (arith, whole, xy_to_flat_index-lt a v (coordinate x y)))

    is_both_lem :
        (x y x' y' : ℕ)
        → is_both is_signed unfilled a fill_colour
            (xy_to_flat_index a (coordinate x y))
            (xy_to_flat_index a (coordinate x' y'))
          ≡ some ((pixel x y == fill_colour) && (pixel x' y' == fill_colour))
    unfolding is_both
    is_both_lem x y x' y' = elim (Bool-cases (pixel x y == fill_colour)) [
      | inl e ↦ rw (at_pixel x y, is_both, e, at_pixel x' y') refl
      | inr e ↦ rw (at_pixel x y, is_both, e) refl
    ]

    abbrev Plain : ℕ → ℕ → ℕ → Type 0
    Plain x y g =
        (sub32 x g ≡ x - g) × (add32 x g ≡ x + g) × (sub32 y g ≡ y - g) × (add32 y g ≡ y + g)

    abbrev is_beside : ℕ → ℕ → ℕ → Bool
    is_beside x y g = (pixel (x - g) y == fill_colour) && (pixel (x + g) y == fill_colour)

    abbrev is_above : ℕ → ℕ → ℕ → Bool
    is_above x y g = (pixel x (y - g) == fill_colour) && (pixel x (y + g) == fill_colour)

    is_gap-cons :
        (x y g : ℕ) (gs : List ℕ)
        → Plain x y g
        → is_gap is_signed unfilled a fill_colour x y (g ∷ gs) ≡ (
            if is_beside x y g || is_above x y g
            then some true
            else is_gap is_signed unfilled a fill_colour x y gs)
    unfolding is_gap
    is_gap-cons x y g gs (p, q, r, s) = elim (Bool-cases (is_beside x y g)) [
      | inl e ↦ rw (p, q, is_both_lem (x - g) y (x + g) y, is_gap, e) refl
      | inr e ↦ elim (Bool-cases (is_above x y g)) [
        | inl f ↦
            rw
              (
                p,
                q,
                is_both_lem (x - g) y (x + g) y,
                is_gap,
                e,
                r,
                s,
                is_both_lem x (y - g) x (y + g),
                f,
              )
              refl
        | inr f ↦
            rw
              (
                p,
                q,
                is_both_lem (x - g) y (x + g) y,
                is_gap,
                e,
                r,
                s,
                is_both_lem x (y - g) x (y + g),
                f,
              )
              refl
      ]
    ]

    Enclosed-of : (x y g : ℕ) → (is_beside x y g || is_above x y g) ≡ true → Enclosed x y g
    Enclosed-of x y g h = elim (Bool-cases (is_beside x y g)) [
      | inl e ↦ inl (ground arith)
      | inr e ↦ inr (ground arith)
    ]

    of-Enclosed : (x y g : ℕ) → Enclosed x y g → (is_beside x y g || is_above x y g) ≡ true
    of-Enclosed x y g (inl (p, q)) = ground arith
    of-Enclosed x y g (inr (p, q)) = ground arith

    -- The result of the search says whether one of the distances fits.
    abbrev Decides : ℕ → ℕ → List ℕ → Bool → Type 0
    Decides x y gs b =
        (b ≡ true → (g : ℕ) × Among g gs × Enclosed x y g)
        × ((g : ℕ) → Among g gs → Enclosed x y g → b ≡ true)

    search_gaps :
        (x y : ℕ) (gs : List ℕ)
        → ((g : ℕ) → Among g gs → Plain x y g)
        → (b : Bool) × (is_gap is_signed unfilled a fill_colour x y gs ≡ some b) × Decides x y gs b
    search_gaps x y [] plain = (false, unfold is_gap in refl, ((λ h. cc), (λ g m e. absurd m)))
    search_gaps x y (g ∷ gs) plain = elim (Bool-cases (is_beside x y g || is_above x y g)) [
      | inl e ↦ (
        true,
        rw (is_gap-cons x y g gs (plain g (inl refl)), e) refl,
        ((λ h. (g, inl refl, Enclosed-of x y g e)), (λ g m e. refl)),
      )
      | inr e ↦
          let (b, f, (there, back)) = search_gaps x y gs (λ g m. plain g (inr m)) in
          (
            b,
            rw (is_gap-cons x y g gs (plain g (inl refl)), e) f,
            (
              (λ h. let (g', m, k) = there h in (g', inr m, k)),
              (λ g' m k. earlier g' m k e (back g')),
            ),
          )
    ]
      where
        earlier :
            {b : Bool} (g' : ℕ)
            → Among g' (g ∷ gs)
            → Enclosed x y g'
            → (is_beside x y g || is_above x y g) ≡ false
            → (Among g' gs → Enclosed x y g' → b ≡ true)
            → b ≡ true
        earlier g' (inl same) k e back = cc (of-Enclosed x y g (subst (Enclosed x y) same k), e)
        earlier g' (inr m) k e back = back m k

    Plain-inside : (x y g : ℕ) → g ≤ x → g ≤ y → x < a.width → y < a.height → Plain x y g
    Plain-inside x y g p q r s = omega (arith, sides_le a v, v.fits)

    to_fill_lem :
        (x y : ℕ)
        → (max_gap_size ≤ x) × (x < a.width - 1)
        → (max_gap_size ≤ y) × (y < a.height - 1)
        → (b : Bool) × (to_fill is_signed unfilled a max_gap_size gap_colour fill_colour x y
            ≡ some b)
          × (b ≡ true → IsGap x y)
          × (IsGap x y → b ≡ true)
    unfolding to_fill
    to_fill_lem x y columns rows =
        let gaps = from_to 1 (max_gap_size + 1) in
        let (b, e, (there, back)) = search_gaps x y gaps (λ g m.
          Plain-inside x y g (omega (arith, Among-from_to 1 (max_gap_size + 1) g m))
            (omega (arith, Among-from_to 1 (max_gap_size + 1) g m)) (omega arith) (omega arith)) in
        elim (Bool-cases (pixel x y == gap_colour)) [
          | inl same ↦ (
            b,
            rw (at_pixel x y, to_fill, same) e,
            (λ h.
                let (g, m, k) = there h in
                record {
                  columns = columns;
                  rows = rows;
                  coloured = (==_iff _ _).0 same;
                  gap = g;
                  is_small = omega (arith, Among-from_to 1 (max_gap_size + 1) g m);
                  enclosed = k;
                }),
            (λ h.
                back h.gap
                  (from_to-Among 1 (max_gap_size + 1) h.gap h.is_small.0
                    (omega (arith, h.is_small.1)))
                  h.enclosed),
          )
          | inr other ↦ (
            false,
            rw (at_pixel x y, to_fill, other) refl,
            (λ h. cc),
            (λ h. cc ((==_iff _ _).1 h.coloured, other)),
          )
        ]

    abbrev pub GapAt : ℕ → Type 0
    GapAt i = (x : ℕ) × (y : ℕ) × (i ≡ xy_to_flat_index a (coordinate x y)) × IsGap x y

    abbrev columns_inside : List ℕ
    columns_inside = from_to max_gap_size (sub32 a.width 1)

    abbrev rows_inside : List ℕ
    rows_inside = from_to max_gap_size (sub32 a.height 1)

    last_column : (x : ℕ) → x < a.width - 1 → x < sub32 a.width 1
    last_column x h = omega (arith, h, sides_le a v, v.high, v.fits)

    last_row : (y : ℕ) → y < a.height - 1 → y < sub32 a.height 1
    last_row y h = omega (arith, h, sides_le a v, v.wide, v.fits)

    abbrev fill : ℕ → ℕ → List ℕ → Option (List ℕ)
    fill = fill_pixel is_signed unfilled a max_gap_size gap_colour fill_colour

    columns_at : (x : ℕ) → Among x columns_inside → (max_gap_size ≤ x) × (x < a.width - 1)
    columns_at x m = omega (
      arith,
      Among-from_to max_gap_size (sub32 a.width 1) x m,
      sides_le a v,
      v.wide,
      v.high,
      v.fits,
    )

    rows_at : (y : ℕ) → Among y rows_inside → (max_gap_size ≤ y) × (y < a.height - 1)
    rows_at y m = omega (
      arith,
      Among-from_to max_gap_size (sub32 a.height 1) y m,
      sides_le a v,
      v.wide,
      v.high,
      v.fits,
    )

    -- A pixel that is a gap, by its index.
    abbrev Marks : ℕ → ℕ → ℕ → Type 0
    Marks x y i = (i ≡ xy_to_flat_index a (coordinate x y)) × IsGap x y

    fill_pixel-Paints :
        (x y : ℕ)
        → (max_gap_size ≤ x) × (x < a.width - 1)
        → (max_gap_size ≤ y) × (y < a.height - 1)
        → Paints unfilled fill_colour GapAt (fill y x) (Marks x y)
    unfolding fill_pixel
    fill_pixel-Paints x y columns rows s h =
        let (b, e, there, back) = to_fill_lem x y columns rows in
        let i = xy_to_flat_index a (coordinate x y) in
        elim (Bool-cases b) [
          | inl fills ↦
              let (s', f, p, here, keep) =
                store-Painted unfilled fill_colour GapAt s i
                  (omega (arith, whole, xy_to_flat_index-lt a v (coordinate x y)))
                  (x, y, refl, there fills) h in
              (s', rw (e, fill_pixel, fills) f, p, keep, λ j (same, g). rw same here)
          | inr stays ↦
              (s, rw (e, fill_pixel, stays) refl, h, (λ j k. k), λ j (same, g). cc (back g, stays))
        ]

    -- On a greyscale buffer of the area's size the function succeeds and throws nothing; it gives the
    -- fill colour to each pixel inside the margins that has the colour of a gap and stands between two
    -- pixels of the fill colour, left and right or above and below, at one distance up to the largest
    -- size, where a coordinate past the right or the lower edge is that of the edge. All other pixels
    -- are as they were.
    pub fill_pixel_gaps-IsGap :
        (filled : List ℕ) × (fill_pixel_gaps is_signed unfilled a PixelFormat.greyscale max_gap_size
            gap_colour fill_colour
          ≡ returns success filled)
        × Painted unfilled fill_colour GapAt filled
        × ((x y : ℕ)
            → IsGap x y
            → HasColour fill_colour (xy_to_flat_index a (coordinate x y)) filled)
    unfolding fill_pixel_gaps
    fill_pixel_gaps-IsGap =
        let (filled, e, p, keep, paint) =
          grid-Paints unfilled fill_colour GapAt fill Marks columns_inside rows_inside
            (λ x y mx my. fill_pixel-Paints x y (columns_at x mx) (rows_at y my)) unfilled
            (Painted-self unfilled fill_colour GapAt) in
        (
          filled,
          rw
              (
                size-IsArea a v,
                ← whole,
                ==_self (length unfilled),
                lt→ltb 0 (length unfilled) (omega (arith, whole, sides_le a v, v.wide, v.high)),
              )
              (ap succeeds e),
          p,
          λ x y gap. paint (xy_to_flat_index a (coordinate x y)) (
            y,
            from_to-Among max_gap_size (sub32 a.height 1) y gap.rows.0 (last_row y gap.rows.1),
            (
              x,
              from_to-Among max_gap_size (sub32 a.width 1) x gap.columns.0
                  (last_column x gap.columns.1),
              (refl, gap),
            ),
          ),
        )
