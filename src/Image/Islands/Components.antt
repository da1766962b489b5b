-- ===== src/Image/Islands/Components.antt =====
-- Utilities/ComputerVision.hpp: what an island of `ExtractLargestIsland` is, and the longer of two islands.
use abstraction_layer.Prelude.{
  ℕ, ◌≤◌, ◌≡◌, ◌⊎◌, inl, inr, arith, Bool, Bool-cases, List, [], length, ltb, ltb→lt, ltb-false,
  if◌then◌else◌,
}
use abstraction_layer.Prelude.Text.Laws.{All}
use abstraction_layer.Image.{Area}
use abstraction_layer.Image.Filters.Loops.{Among}
use abstraction_layer.Image.Islands.Distinct.{Distinct}
use abstraction_layer.Image.Islands.Visits.{Land}
use abstraction_layer.Image.Islands.Walks.{Reach}

module _ (is_signed : Bool) (a : Area) (island_colour : ℕ) (buffer : List ℕ) where
  abbrev pub Pixel : ℕ → Type 0
  Pixel = Land is_signed a island_colour buffer

  -- From the first to the second through neighbours of the colour.
  abbrev pub Leads : ℕ → ℕ → Type 0
  Leads = Reach is_signed a island_colour buffer

  -- All that is reached from one pixel of the colour, and nothing else.
  abbrev pub Component : List ℕ → Type 0
  Component island =
      (s : ℕ) × Pixel s
      × ((q : ℕ) → Among q island → Leads s q)
      × ((q : ℕ) → Leads s q → Among q island)

  -- Of what is reached from the pixel, no more than the island has.
  abbrev pub Bound : ℕ → List ℕ → Type 0
  Bound p island =
      (others : List ℕ)
      → Distinct others
      → ((q : ℕ) → Among q others → Leads p q)
      → length others ≤ length island

  pub record IsIsland (island : List ℕ) : Type 0 where
    pub distinct : Distinct island
    pub pixels : All Pixel island
    pub component : (island ≡ []) ⊎ Component island

  pub Bound-le : (p : ℕ) (xs ys : List ℕ) → length xs ≤ length ys → Bound p xs → Bound p ys
  Bound-le p xs ys h bound others d r = omega (arith, h, bound others d r)

  abbrev pub IsLonger : List ℕ → List ℕ → List ℕ → Type 0
  IsLonger largest island longer =
      IsIsland longer × (length largest ≤ length longer) × (length island ≤ length longer)

  pub either-IsLonger :
      (largest island : List ℕ)
      → IsIsland largest
      → IsIsland island
      → IsLonger largest island (if ltb (length largest) (length island) then island else largest)
  either-IsLonger largest island h k = elim (Bool-cases (ltb (length largest) (length island))) [
    | inl e ↦ rw e (k, omega (arith, ltb→lt _ _ e), omega arith)
    | inr e ↦ rw e (h, omega arith, ltb-false _ _ e)
  ]
