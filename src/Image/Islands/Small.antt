-- ===== src/Image/Islands/Small.antt =====
-- Utilities/ComputerVision.hpp: where `char` is signed, `ExtractLargestIsland` knows no bright colour;
-- and what `IslandFilter` changes.
use abstraction_layer.Prelude.{
  ℕ, zero, suc, ◌==◌, ◌&&◌, ◌*◌, ◌<◌, ◌≤◌, ◌≡◌, ◌⊎◌, refl, sym, ap, ◌∙◌, subst, inl, inr, arith,
  Bool, true, false, some, List, [], ◌∷◌, length, get_or, replicate, length-replicate, Bool-cases,
  ==_self, ltb, lt→ltb,
}
use abstraction_layer.Prelude.Text.Laws.{All}
use abstraction_layer.Error.{success}
use abstraction_layer.Image.{Area, size}
use abstraction_layer.Image.Bounds.{IsArea, AllBelow, size-IsArea, sides_le}
use abstraction_layer.Image.Filters.{promote, from_to, returns}
use abstraction_layer.Image.Filters.Loops.{Among, Painted, HasColour, Painted-self, stores-Paints}
use abstraction_layer.Image.Islands.{
  found, extract_largest_island, filter_island, filter_islands, island_filter,
}
use abstraction_layer.Image.Islands.Explore.{IsLand, new-cases, walk_from-IsLand}
use abstraction_layer.Image.Islands.Laws.{all_below, Land-of}
use abstraction_layer.Image.Islands.Largest.{extract_largest_island-Kept}

no_bright_land :
    (v colour : ℕ) → v < 256 → 128 ≤ colour → colour < 256 → promote true v ≡ colour → ⊥
unfolding promote
no_bright_land v colour byte bright small e = ground arith

get_or-AllBelow : (n : ℕ) (xs : List ℕ) (i : ℕ) → 0 < n → AllBelow n xs → get_or xs i 0 < n
get_or-AllBelow n [] i pos h = pos
get_or-AllBelow n (x ∷ xs) zero pos h = h.0
get_or-AllBelow n (x ∷ xs) (suc i) pos h = get_or-AllBelow n xs i pos h.1

-- Where `char` is signed, a search for islands of a colour from 128 to 255 succeeds, and every pixel of
-- the image is 0 then, whatever the image was. The pixels are bytes.
pub extract_largest_island-bright :
    (a : Area) (colour : ℕ) (buffer : List ℕ)
    → IsArea a
    → length buffer ≡ a.height * a.width
    → AllBelow 256 buffer
    → 128 ≤ colour
    → colour < 256
    → (after : List ℕ) × (extract_largest_island true a colour buffer ≡ returns success after)
      × ((i : ℕ) → i < length buffer → get_or after i 0 ≡ 0)
extract_largest_island-bright a colour buffer v whole bytes bright small =
    let (largest, after, e, land, kept, some') =
      extract_largest_island-Kept true a colour buffer v whole in
    (
      after,
      e,
      λ i below.
          black after largest i
            (λ m.
              let l = Land-of true a colour buffer v whole largest i land m in
              no_bright_land (get_or buffer i 0) colour
                (get_or-AllBelow 256 buffer i (omega arith) bytes) bright small l.1)
            (kept.1 i below),
    )
  where
    black :
        (after largest : List ℕ) (i : ℕ)
        → (Among i largest → ⊥)
        → (get_or after i 0 ≡ 0) ⊎ (HasColour colour i after × Among i largest)
        → get_or after i 0 ≡ 0
    black after largest i no_land (inl zero') = zero'
    black after largest i no_land (inr (c, m)) = absurd (no_land m)

module _ (is_signed : Bool) (a : Area) (island_colour : ℕ) (filter_to : ℕ) (minimum : Area)
    (before : List ℕ) (v : IsArea a) (whole : length before ≡ a.height * a.width) where
  abbrev pub WasLand : ℕ → Type 0
  WasLand = IsLand is_signed a island_colour before

  -- What is land in an image that is partly filtered was land at first.
  land_before :
      (now : List ℕ) (i : ℕ)
      → Painted before filter_to WasLand now
      → IsLand is_signed a island_colour now i
      → WasLand i
  land_before now i (same, each) (below, e) = which (each i)
    where
      which :
          (get_or now i 0 ≡ get_or before i 0) ⊎ (HasColour filter_to i now × WasLand i) → WasLand i
      which (inl kept) = (omega (arith, same, below), ap (promote is_signed) (sym kept) ∙ e)
      which (inr painted) = painted.1

  filter_island-Painted :
      (island now : List ℕ)
      → All (IsLand is_signed a island_colour now) island
      → Painted before filter_to WasLand now
      → (next : List ℕ) × (filter_island is_signed a island_colour filter_to minimum island now
          ≡ some next)
        × Painted before filter_to WasLand next
  unfolding filter_island
  filter_island-Painted island now land h =
      let (next, e, p, keep, marks) =
        stores-Paints before filter_to WasLand island
          (λ i m. let l = land_before now i h (land_at island land i m) in (l.0, l)) now h in
      elim (Bool-cases (ltb (length island) (size minimum))) [
        | inl few ↦ (next, rw few e, p)
        | inr many ↦ (now, rw many refl, h)
      ]
    where
      land_at :
          (is : List ℕ)
          → All (IsLand is_signed a island_colour now) is
          → (i : ℕ) → Among i is
          → IsLand is_signed a island_colour now i
      land_at [] h i m = absurd m
      land_at (x ∷ xs) h i (inl e) = subst (IsLand is_signed a island_colour now) (sym e) h.0
      land_at (x ∷ xs) h i (inr m) = land_at xs h.1 i m

  filter_islands-Painted :
      (is : List ℕ) (visited : List Bool) (now : List ℕ)
      → AllBelow (length before) is
      → length visited ≡ length before
      → Painted before filter_to WasLand now
      → (next : List ℕ) × (filter_islands is_signed a island_colour filter_to minimum now is visited
          ≡ found next)
        × Painted before filter_to WasLand next
  unfolding filter_islands
  filter_islands-Painted [] visited now inside same h = (now, refl, h)
  filter_islands-Painted (i ∷ is) visited now inside same h =
      elim (new-cases is_signed a island_colour now visited i (omega (arith, inside, h.0))) [
        | inl (new, here, unseen) ↦
            let (island, visited', e, same', land, some') =
              walk_from-IsLand is_signed a island_colour now visited i v (h.0 ∙ whole)
                (same ∙ sym h.0) here unseen in
            let (now', f, h') = filter_island-Painted island now land h in
            let (next, g, p) = filter_islands-Painted is visited' now' inside.1 (same' ∙ h.0) h' in
            (next, rw (new, e, f, filter_islands) g, p)
        | inr (old, seen) ↦
            let (next, g, p) = filter_islands-Painted is visited now inside.1 same h in
            (next, rw (old, filter_islands) g, p)
      ]

  -- On a buffer of the area's size the filter ends with success and throws nothing; each pixel is as it
  -- was, or had the colour of the islands and has the colour to filter to.
  pub island_filter-Painted :
      (after : List ℕ) × (island_filter is_signed a island_colour filter_to minimum before
        ≡ returns success after)
      × Painted before filter_to WasLand after
  unfolding island_filter
  island_filter-Painted =
      let (after, e, p) =
        filter_islands-Painted (from_to 0 (size a)) (replicate (size a) false) before
          (all_below is_signed a island_colour before v whole)
          (length-replicate (size a) false ∙ size-IsArea a v ∙ sym whole)
          (Painted-self before filter_to WasLand) in
      (after, rw (passes, e) refl, p)
    where
      passes : (ltb 0 (size a) && (size a == length before)) ≡ true
      passes =
          let same : size a ≡ length before = size-IsArea a v ∙ sym whole in
          rw
            (
              same,
              ==_self (length before),
              lt→ltb 0 (length before) (omega (arith, whole, sides_le a v, v.wide, v.high)),
            )
            refl
