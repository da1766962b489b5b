-- ===== src/Image/Islands.antt =====
-- Utilities/ComputerVision.hpp, `ExtractLargestIsland` and `IslandFilter`: the islands of one colour,
-- found breadth first. Of the queue that is read from `head` on, the part behind it is kept. An index
-- past the end of the vector of the visited pixels, which C++ does not check, reads as not visited.
pub mod Explore
pub mod Distinct
pub mod Visits
pub mod Walks
pub mod Symmetry
pub mod Laws
pub mod Components
pub mod Largest
pub mod Small
mod Examples
use abstraction_layer.Prelude.{
  ℕ, zero, suc, ◌+◌, Bool, true, false, not, ◌&&◌, ◌||◌, Option, none, some, List, [], ◌∷◌, ◌++◌,
  ltb, ◌==◌, if◌then◌else◌, length, get_or, set, replicate,
}
use abstraction_layer.Error.{ErrorType, success, invalid_parameter, prerequisites_not_met}
use abstraction_layer.Image.{Area, size, flat_index_to_xy, get_neighbours, at}
use abstraction_layer.Image.Filters.{
  promote, store, from_to, for_each, Outcome, throws, unfinished, returns,
}

-- The result of a walk over an island: its pixels, and the pixels that are visited then.
pub data Walk : Type 0 where
  fails endless : Walk
  walked : List ℕ → List Bool → Walk

-- How the search for islands ends, with the last state.
pub data Search (S : Type 0) : Type 0 where
  broken stuck : Search S
  found : S → Search S

module _ (is_signed : Bool) (a : Area) (island_colour : ℕ) where
  -- `buffer->at(i) == islandColour && !visited[i]`.
  unfoldable pub is_new : List ℕ → List Bool → ℕ → Option Bool
  is_new buffer visited i = elim (at buffer i) [
    | none ↦ none
    | some v ↦ some ((promote is_signed v == island_colour) && not (get_or visited i false))
  ]

  -- The neighbours that are new are visited, and put at the end of the queue.
  unfoldable pub visit : List ℕ → List ℕ → List ℕ → List Bool → Option (List ℕ × List Bool)
  visit buffer [] queue visited = some (queue, visited)
  visit buffer (n ∷ ns) queue visited =
      let added = visit buffer ns (queue ++ n ∷ []) (set visited n true) in
      let skipped = visit buffer ns queue visited in
      elim (is_new buffer visited n) [ none ↦ none | some true ↦ added | some false ↦ skipped ]

  -- The loop over the queue, with fuel for its rounds.
  unfoldable pub walk : ℕ → List ℕ → List ℕ → List Bool → List ℕ → Walk
  walk zero buffer queue visited island = endless
  walk (suc fuel) buffer [] visited island = walked island visited
  walk (suc fuel) buffer (i ∷ queue) visited island =
      elim (visit buffer (get_neighbours a (flat_index_to_xy a i)) queue visited) [
        | none ↦ fails
        | some (queue', visited') ↦ walk fuel buffer queue' visited' (island ++ i ∷ [])
      ]

  -- A pixel is put on the queue once, so a round for each and one more are enough.
  unfoldable pub walk_from : List ℕ → List Bool → ℕ → Walk
  walk_from buffer visited i = walk (suc (size a)) buffer (i ∷ []) (set visited i true) []

  -- The pixels in order; an island that is longer than the longest so far takes its place.
  unfoldable pub largest_island : List ℕ → List ℕ → List Bool → List ℕ → Search (List ℕ)
  largest_island buffer [] visited largest = found largest
  largest_island buffer (i ∷ is) visited largest =
      let skipped = largest_island buffer is visited largest in
      let explored : Search (List ℕ) = elim (walk_from buffer visited i) [
        | fails ↦ broken
        | endless ↦ stuck
        | walked island visited' ↦
            largest_island buffer is visited'
              (if ltb (length largest) (length island) then island else largest)
      ] in
      elim (is_new buffer visited i) [ none ↦ broken | some true ↦ explored | some false ↦ skipped ]

  -- All pixels become 0, and those of the island get their colour again.
  unfoldable pub keep_island : List ℕ → List ℕ → Option (List ℕ)
  keep_island island buffer = elim (for_each (λ i now. store now i 0) (from_to 0 (size a)) buffer) [
    | none ↦ none
    | some cleared ↦ for_each (λ i now. store now i island_colour) island cleared
  ]

  -- The guard lets an area pass that is not of the buffer's size.
  unfoldable pub extract_largest_island : List ℕ → Outcome
  extract_largest_island buffer =
      let extracted : Outcome =
        elim (largest_island buffer (from_to 0 (size a)) (replicate (size a) false) []) [
          | broken ↦ throws
          | stuck ↦ unfinished
          | found largest ↦ elim (keep_island largest buffer) [
            | none ↦ throws
            | some kept ↦ returns success kept
          ]
        ] in
      if ltb 0 (size a) || (size a == length buffer)
      then extracted
      else returns invalid_parameter buffer

  module _ (filter_to : ℕ) (minimum : Area) where
    -- An island that is too small is coloured at once.
    unfoldable pub filter_island : List ℕ → List ℕ → Option (List ℕ)
    filter_island island buffer =
        if ltb (length island) (size minimum)
        then for_each (λ i now. store now i filter_to) island buffer
        else some buffer

    unfoldable pub filter_islands : List ℕ → List ℕ → List Bool → Search (List ℕ)
    filter_islands buffer [] visited = found buffer
    filter_islands buffer (i ∷ is) visited =
        let skipped = filter_islands buffer is visited in
        let explored : Search (List ℕ) = elim (walk_from buffer visited i) [
          | fails ↦ broken
          | endless ↦ stuck
          | walked island visited' ↦ elim (filter_island island buffer) [
            | none ↦ broken
            | some buffer' ↦ filter_islands buffer' is visited'
          ]
        ] in
        elim (is_new buffer visited i) [
          | none ↦ broken
          | some true ↦ explored
          | some false ↦ skipped
        ]

    unfoldable pub island_filter : List ℕ → Outcome
    island_filter buffer =
        let filtered : Outcome =
          elim (filter_islands buffer (from_to 0 (size a)) (replicate (size a) false)) [
            | broken ↦ throws
            | stuck ↦ unfinished
            | found buffer' ↦ returns success buffer'
          ] in
        if ltb 0 (size a) && (size a == length buffer)
        then filtered
        else returns prerequisites_not_met buffer
