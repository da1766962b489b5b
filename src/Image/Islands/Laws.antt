-- ===== src/Image/Islands/Laws.antt =====
-- Utilities/ComputerVision.hpp: what `ExtractLargestIsland` leaves of an image when it keeps an island.
use abstraction_layer.Prelude.{
  ℕ, zero, suc, ◌+◌, ◌-◌, ◌*◌, ◌<◌, ◌≤◌, ◌≡◌, ◌⊎◌, sym, ◌∙◌, subst, inl, inr, arith, Bool, some,
  List, [], ◌∷◌, length, get_or,
}
use abstraction_layer.Prelude.Text.Laws.{All}
use abstraction_layer.Image.{Area, size}
use abstraction_layer.Image.Bounds.{IsArea, AllBelow, size-IsArea}
use abstraction_layer.Image.Filters.{count_up, from_to}
use abstraction_layer.Image.Filters.Loops.{
  Among, Among-from_to, from_to-Among, HasColour, Painted-self, stores-Paints,
}
use abstraction_layer.Image.Islands.{keep_island}
use abstraction_layer.Image.Islands.Explore.{IsLand}

module _ (is_signed : Bool) (a : Area) (island_colour : ℕ) (buffer : List ℕ) (v : IsArea a)
    (whole : length buffer ≡ a.height * a.width) where
  abbrev pub Land : ℕ → Type 0
  Land = IsLand is_signed a island_colour buffer

  -- What is left: the island in its colour, and 0 elsewhere.
  abbrev pub Kept : List ℕ → List ℕ → Type 0
  Kept island after =
      (length after ≡ length buffer)
      × ((i : ℕ)
          → i < length buffer
          → (get_or after i 0 ≡ 0) ⊎ (HasColour island_colour i after × Among i island))
      × ((i : ℕ) → Among i island → HasColour island_colour i after)

  pub Land-of : (is : List ℕ) (i : ℕ) → All Land is → Among i is → Land i
  Land-of [] i h m = absurd m
  Land-of (x ∷ xs) i h (inl e) = subst Land (sym e) h.0
  Land-of (x ∷ xs) i h (inr m) = Land-of xs i h.1 m

  pub keep_island-Kept :
      (island : List ℕ)
      → All Land island
      → (after : List ℕ) × (keep_island is_signed a island_colour island buffer ≡ some after)
        × Kept island after
  unfolding keep_island
  keep_island-Kept island land =
      let (cleared, e, p, keep, zeros) =
        stores-Paints buffer 0 (λ i. Unit {0}) (from_to 0 (size a))
          (λ i m. (omega (arith, Among-from_to 0 (size a) i m, size-IsArea a v, whole), tt)) buffer
          (Painted-self buffer 0 (λ i. Unit {0})) in
      let (after, f, q, keep', marks) =
        stores-Paints cleared island_colour (λ i. Among i island) island
          (λ i m. (omega (arith, (Land-of island i land m).0, p.0), m)) cleared
          (Painted-self cleared island_colour (λ i. Among i island)) in
      (
        after,
        rw (e, keep_island) f,
        (
          q.0 ∙ p.0,
          (λ i below.
              either cleared after i
                (zeros i (
                  from_to-Among 0 (size a) i (omega arith)
                    (omega (arith, below, size-IsArea a v, whole))))
                (q.1 i)),
          marks,
        ),
      )
    where
      either :
          (cleared after : List ℕ) (i : ℕ)
          → get_or cleared i 0 ≡ 0
          → (get_or after i 0 ≡ get_or cleared i 0)
            ⊎ (HasColour island_colour i after × Among i island)
          → (get_or after i 0 ≡ 0) ⊎ (HasColour island_colour i after × Among i island)
      either cleared after i zero' (inl same) = inl (same ∙ zero')
      either cleared after i zero' (inr marked) = inr marked

  from_to-AllBelow : (n low count : ℕ) → low + count ≤ n → AllBelow n (count_up low count)
  from_to-AllBelow n low zero h = tt
  from_to-AllBelow n low (suc count) h =
      (omega arith, from_to-AllBelow n (suc low) count (omega arith))

  pub all_below : AllBelow (length buffer) (from_to 0 (size a))
  all_below =
      from_to-AllBelow (length buffer) 0 (size a - 0) (omega (arith, size-IsArea a v, whole))
