-- ===== src/Image/Islands/Explore.antt =====
-- Utilities/ComputerVision.hpp: the walk over an island ends, and meets pixels of its colour only.
use abstraction_layer.Prelude.{
  ℕ, zero, suc, ◌+◌, ◌*◌, ◌<◌, ◌≤◌, ◌≡◌, ◌⊎◌, refl, ap, ◌∙◌, inl, inr, arith, Bool, true, false,
  not, ◌&&◌, some, List, [], ◌∷◌, ◌++◌, length, get_or, set, length-set, length-append, Bool-cases,
  ◌==◌, if◌then◌else◌,
}
use abstraction_layer.Prelude.Text.Laws.{All, All-append}
use abstraction_layer.Image.{Area, size, flat_index_to_xy, get_neighbours}
use abstraction_layer.Image.Bounds.{IsArea, AllBelow, get_neighbours-AllBelow, size-IsArea}
use abstraction_layer.Image.Fill.{at-get_or}
use abstraction_layer.Image.Filters.{promote}
use abstraction_layer.Image.Islands.{is_new, visit, walk, walk_from, walked}

-- The pixels that are not visited.
abbrev pub fresh : List Bool → ℕ
fresh [] = 0
fresh (v ∷ vs) = (if v then 0 else 1) + fresh vs

pub fresh-le : (vs : List Bool) → fresh vs ≤ length vs
fresh-le [] = omega arith
fresh-le (true ∷ vs) = omega (arith, fresh-le vs)
fresh-le (false ∷ vs) = omega (arith, fresh-le vs)

pub fresh-set :
    (vs : List Bool) (i : ℕ)
    → i < length vs
    → get_or vs i false ≡ false
    → fresh (set vs i true) + 1 ≡ fresh vs
fresh-set [] i h e = absurd (omega arith)
fresh-set (v ∷ vs) zero h e = rw e (omega arith)
fresh-set (v ∷ vs) (suc i) h e = omega (arith, fresh-set vs i (omega arith) e)

module _ (is_signed : Bool) (a : Area) (island_colour : ℕ) (buffer : List ℕ) where
  -- A pixel inside the buffer that has the colour of the islands.
  abbrev pub IsLand : ℕ → Type 0
  IsLand i = (i < length buffer) × (promote is_signed (get_or buffer i 0) ≡ island_colour)

  pub is_new_lem :
      (visited : List Bool) (i : ℕ)
      → i < length buffer
      → is_new is_signed a island_colour buffer visited i
        ≡ some (
            (promote is_signed (get_or buffer i 0) == island_colour)
            && not (get_or visited i false))
  unfolding is_new
  is_new_lem visited i h = rw (at-get_or buffer i h, is_new) refl

  -- A new pixel is land that was not visited; of another it is known which of the two fails.
  pub new-cases :
      (visited : List Bool) (i : ℕ)
      → i < length buffer
      → ((is_new is_signed a island_colour buffer visited i ≡ some true)
          × IsLand i
          × (get_or visited i false ≡ false))
        ⊎ ((is_new is_signed a island_colour buffer visited i ≡ some false)
            × (IsLand i → get_or visited i false ≡ true))
  new-cases visited i h =
      elim (Bool-cases (
        (promote is_signed (get_or buffer i 0) == island_colour) && not (get_or visited i false))) [
          | inl e ↦ inl (is_new_lem visited i h ∙ ap some e, (h, ground arith), ground arith)
          | inr e ↦ inr (is_new_lem visited i h ∙ ap some e, λ land. ground arith)
        ]

  visit_lem :
      (ns queue : List ℕ) (visited : List Bool)
      → AllBelow (length buffer) ns
      → length visited ≡ length buffer
      → All IsLand queue
      → (queue' : List ℕ) × (visited' : List Bool) × (visit is_signed a island_colour buffer ns
            queue visited
          ≡ some (queue', visited'))
        × (length visited' ≡ length buffer)
        × All IsLand queue'
        × (fresh visited' + length queue' ≡ fresh visited + length queue)
        × (length queue ≤ length queue')
  unfolding visit
  visit_lem [] queue visited inside same land =
      (queue, visited, refl, same, land, refl, omega arith)
  visit_lem (n ∷ ns) queue visited inside same land = elim (new-cases visited n inside.0) [
    | inl (new, here, unseen) ↦
        let (queue', visited', e, same', land', count, longer) =
          visit_lem ns (queue ++ n ∷ []) (set visited n true) inside.1
            (length-set visited n true ∙ same) (All-append IsLand queue (n ∷ []) land (here, tt)) in
        (
          queue',
          visited',
          rw (new, visit) e,
          same',
          land',
          omega (
            arith,
            count,
            length-append queue (n ∷ []),
            fresh-set visited n (omega (arith, same, inside)) unseen,
          ),
          omega (arith, longer, length-append queue (n ∷ [])),
        )
    | inr (old, seen) ↦
        let (queue', visited', e, same', land', count, longer) =
          visit_lem ns queue visited inside.1 same land in
        (queue', visited', rw (old, visit) e, same', land', count, longer)
  ]

  -- A round for each pixel that is not visited and each on the queue, and one more, are enough.
  walk_lem :
      (fuel : ℕ) (queue : List ℕ) (visited : List Bool) (island : List ℕ)
      → IsArea a
      → length buffer ≡ a.height * a.width
      → length visited ≡ length buffer
      → All IsLand queue
      → All IsLand island
      → fresh visited + length queue < fuel
      → (island' : List ℕ) × (visited' : List Bool) × (walk is_signed a island_colour fuel buffer
            queue visited island
          ≡ walked island' visited')
        × (length visited' ≡ length buffer)
        × All IsLand island'
        × (length island + length queue ≤ length island')
  unfolding walk
  walk_lem zero queue visited island v whole same land found enough = absurd (omega arith)
  walk_lem (suc fuel) [] visited island v whole same land found enough =
      (island, visited, refl, same, found, omega arith)
  walk_lem (suc fuel) (i ∷ queue) visited island v whole same land found enough =
      let (queue', visited', e, same', land', count, more) =
        visit_lem (get_neighbours a (flat_index_to_xy a i)) queue visited
          (rw whole (get_neighbours-AllBelow a (flat_index_to_xy a i) v)) same land.1 in
      let (island', visited'', f, same'', found', longer) =
        walk_lem fuel queue' visited' (island ++ i ∷ []) v whole same' land'
          (All-append IsLand island (i ∷ []) found (land.0, tt)) (omega (arith, count, enough)) in
      (
        island',
        visited'',
        rw (e, walk) f,
        same'',
        found',
        omega (arith, longer, more, length-append island (i ∷ [])),
      )

  -- The walk from a pixel of land that is not visited.
  pub walk_from-IsLand :
      (visited : List Bool) (i : ℕ)
      → IsArea a
      → length buffer ≡ a.height * a.width
      → length visited ≡ length buffer
      → IsLand i
      → get_or visited i false ≡ false
      → (island : List ℕ) × (visited' : List Bool) × (walk_from is_signed a island_colour buffer
            visited i
          ≡ walked island visited')
        × (length visited' ≡ length buffer)
        × All IsLand island
        × (0 < length island)
  unfolding walk_from
  walk_from-IsLand visited i v whole same land unseen =
      let (island, visited', e, same', found, longer) =
        walk_lem (suc (size a)) (i ∷ []) (set visited i true) [] v whole
          (length-set visited i true ∙ same) (land, tt) tt
          (omega (
            arith,
            size-IsArea a v,
            whole,
            same,
            fresh-le visited,
            fresh-set visited i (omega (arith, same, land.0)) unseen,
          )) in
      (island, visited', e, same', found, omega (arith, longer))
