-- ===== src/Image/Islands/Largest.antt =====
-- Utilities/ComputerVision.hpp: `ExtractLargestIsland` finds a whole island, and no other is longer.
use abstraction_layer.Prelude.{
  ℕ, zero, suc, ◌*◌, ◌<◌, ◌≤◌, ◌≡◌, refl, sym, ◌∙◌, subst, inl, inr, arith, Bool, false, List, [],
  ◌∷◌, length, replicate, length-replicate, ltb, lt→ltb, if◌then◌else◌,
}
use abstraction_layer.Prelude.Text.Laws.{All}
use abstraction_layer.Error.{success}
use abstraction_layer.Image.{Area, size}
use abstraction_layer.Image.Bounds.{IsArea, AllBelow, size-IsArea, sides_le}
use abstraction_layer.Image.Filters.{from_to, returns}
use abstraction_layer.Image.Filters.Loops.{Among, from_to-Among}
use abstraction_layer.Image.Islands.{found, largest_island, extract_largest_island}
use abstraction_layer.Image.Islands.Explore.{new-cases, walk_from-IsLand}
use abstraction_layer.Image.Islands.Distinct.{length-Within}
use abstraction_layer.Image.Islands.Visits.{Marked}
use abstraction_layer.Image.Islands.Walks.{
  here, Reach_trans, Met, walk_from-Met, Met-complete, Met-Closed, Closed, BothWays,
}
use abstraction_layer.Image.Islands.Symmetry.{Among-get_neighbours}
use abstraction_layer.Image.Islands.Laws.{Kept, keep_island-Kept, all_below}
use abstraction_layer.Image.Islands.Components.{
  Pixel, Leads, Bound, IsIsland, IsLonger, Bound-le, either-IsLonger,
}

none_marked : (n q : ℕ) → ¬ Marked (replicate n false) q
none_marked zero q e = absurd (cc)
none_marked (suc n) zero e = absurd (cc)
none_marked (suc n) (suc q) e = none_marked n q e

module _ (is_signed : Bool) (a : Area) (island_colour : ℕ) (buffer : List ℕ) where
  abbrev Coloured : ℕ → Type 0
  Coloured = Pixel is_signed a island_colour buffer

  abbrev Joined : ℕ → ℕ → Type 0
  Joined = Leads is_signed a island_colour buffer

  abbrev Island : List ℕ → Type 0
  Island = IsIsland is_signed a island_colour buffer

  abbrev AtLeast : ℕ → List ℕ → Type 0
  AtLeast = Bound is_signed a island_colour buffer

  module _ (v : IsArea a) (whole : length buffer ≡ a.height * a.width) where
    mutual_neighbours : BothWays is_signed a island_colour buffer
    mutual_neighbours p q land land' near =
        Among-get_neighbours a v p q (omega (arith, land.0, whole)) (omega (arith, land'.0, whole))
          near

    -- What is known before a pixel of the search.
    record Searched (visited : List Bool) (largest : List ℕ) : Type 0 where
      same : length visited ≡ length buffer
      covered : Closed is_signed a island_colour buffer visited
      bounds : (p : ℕ) → Marked visited p → Coloured p → AtLeast p largest
      island : Island largest

    explore :
        (i : ℕ) (visited visited' : List Bool) (largest island : List ℕ)
        → Searched visited largest
        → Coloured i
        → (length visited' ≡ length buffer)
        → All Coloured island
        → Met is_signed a island_colour buffer i visited visited' island island
        → (longer : List ℕ)
        → (Island island → IsLonger is_signed a island_colour buffer largest island longer)
        → Searched visited' longer × AtLeast i longer × (length largest ≤ length longer)
    explore i visited visited' largest island s land same pixels met longer choose =
        let complete = λ (q : ℕ) (r : Joined i q).
          Met-complete is_signed a island_colour buffer mutual_neighbours s.covered land met r in
        let (chosen, grows, grows') = choose (record {
          distinct = met.distinct;
          pixels = pixels;
          component = inr (i, land, met.reach, complete);
        }) in
        let within : (p : ℕ) → Joined i p → AtLeast p longer = λ p r others d leads. omega (
          arith,
          grows',
          length-Within others island d
              (λ q m. complete q (Reach_trans is_signed a island_colour buffer r (leads q m))),
        ) in
        (
          record {
            same = same;
            covered = Met-Closed is_signed a island_colour buffer s.covered met;
            bounds = λ p m h. elim (met.marks p m) [
              | inl old ↦
                  Bound-le is_signed a island_colour buffer p largest longer grows
                    (s.bounds p old h)
              | inr new ↦ within p (met.reach p new)
            ];
            island = chosen;
          },
          within i (met.reach i met.start),
          grows,
        )

    largest_island-IsIsland :
        (is : List ℕ) (visited : List Bool) (largest : List ℕ)
        → AllBelow (length buffer) is
        → Searched visited largest
        → (largest' : List ℕ) × (largest_island is_signed a island_colour buffer is visited largest
            ≡ found largest')
          × Island largest'
          × (length largest ≤ length largest')
          × ((p : ℕ) → Among p is → Coloured p → AtLeast p largest')
    unfolding largest_island
    largest_island-IsIsland [] visited largest inside s =
        (largest, refl, s.island, omega arith, λ p m h. absurd m)
    largest_island-IsIsland (i ∷ is) visited largest inside s =
        elim (new-cases is_signed a island_colour buffer visited i inside.0) [
          | inl (new, coloured, unseen) ↦
              let (island, visited', e, same, pixels, _) =
                walk_from-IsLand is_signed a island_colour buffer visited i v whole s.same coloured
                  unseen in
              let met =
                walk_from-Met is_signed a island_colour buffer visited visited' i island v whole
                  s.same coloured.0 (λ m. cc) e in
              let longer = if ltb (length largest) (length island) then island else largest in
              let (s', bound, grows) =
                explore i visited visited' largest island s coloured same pixels met.0 longer
                  (either-IsLonger is_signed a island_colour buffer largest island s.island) in
              let (largest', f, result, grows', bounds) =
                largest_island-IsIsland is visited' longer inside.1 s' in
              (
                largest',
                rw (new, e, largest_island) f,
                result,
                omega (arith, grows, grows'),
                λ p m h. elim m [
                  | inl g ↦
                      subst (λ z. AtLeast z largest') (sym g)
                        (Bound-le is_signed a island_colour buffer i longer largest' grows' bound)
                  | inr k ↦ bounds p k h
                ],
              )
          | inr (old, seen) ↦
              let (largest', f, result, grows, bounds) =
                largest_island-IsIsland is visited largest inside.1 s in
              (
                largest',
                rw (old, largest_island) f,
                result,
                grows,
                λ p m h. elim m [
                  | inl g ↦
                      Bound-le is_signed a island_colour buffer p largest largest' grows
                        (s.bounds p (subst (Marked visited) (sym g) (seen (subst Coloured g h))) h)
                  | inr k ↦ bounds p k h
                ],
              )
        ]

    start : Searched (replicate (size a) false) []
    start = record {
      same = length-replicate (size a) false ∙ size-IsArea a v ∙ sym whole;
      covered = λ p q m. absurd (none_marked (size a) p m);
      bounds = λ p m. absurd (none_marked (size a) p m);
      island = record { distinct = tt; pixels = tt; component = inl refl };
    }

    -- On a buffer of the area's size the search ends with success, and what is left is one island
    -- in its colour, cut to a byte, and 0 elsewhere. The island is empty or all that is reached from
    -- one of the pixels of the colour through neighbours of the colour, each pixel once, and it is
    -- at least as long as any list without repetition of pixels that are reached from one pixel of
    -- the colour.
    pub extract_largest_island-IsIsland :
        (island : List ℕ) × (after : List ℕ) × (extract_largest_island is_signed a island_colour
            buffer
          ≡ returns success after)
        × Island island
        × ((p : ℕ) → Coloured p → AtLeast p island)
        × Kept is_signed a island_colour buffer v whole island after
    unfolding extract_largest_island
    extract_largest_island-IsIsland =
        let (island, e, result, _, bounds) =
          largest_island-IsIsland (from_to 0 (size a)) (replicate (size a) false) []
            (all_below is_signed a island_colour buffer v whole) start in
        let (after, f, kept) =
          keep_island-Kept is_signed a island_colour buffer v whole island result.pixels in
        (
          island,
          after,
          rw
              (
                lt→ltb 0 (size a) (omega (arith, size-IsArea a v, sides_le a v, v.wide, v.high)),
                e,
                f,
              )
              refl,
          result,
          λ p h.
              bounds p
                (from_to-Among 0 (size a) p (omega arith)
                  (omega (arith, h.0, size-IsArea a v, whole)))
                h,
          kept,
        )

    -- What is left is one list of pixels that had the colour of the islands, in that colour, and 0
    -- elsewhere. The list is empty only if no pixel has the colour.
    pub extract_largest_island-Kept :
        (largest : List ℕ) × (after : List ℕ) × (extract_largest_island is_signed a island_colour
            buffer
          ≡ returns success after)
        × All Coloured largest
        × Kept is_signed a island_colour buffer v whole largest after
        × ((p : ℕ) → Coloured p → 0 < length largest)
    extract_largest_island-Kept =
        let (island, after, e, result, bounds, kept) = extract_largest_island-IsIsland in
        (
          island,
          after,
          e,
          result.pixels,
          kept,
          λ p h.
              bounds p h (p ∷ []) (λ m. m, tt)
                (λ q m. elim m [ inl f ↦ subst (Joined p) (sym f) here | inr n ↦ absurd n ]),
        )
