-- ===== src/Image/Islands/Walks.antt =====
-- Utilities/ComputerVision.hpp: the walk over an island meets each pixel that is reached from the first
-- through pixels of the colour, once.
use abstraction_layer.Prelude.{
  ℕ, zero, suc, ◌*◌, ◌<◌, ◌≡◌, ◌⊎◌, refl, sym, ◌∙◌, subst, subst₂, inl, inr, arith, Bool, true,
  false, List, [], ◌∷◌, ◌++◌, append_assoc, append-nil, length, set, get_or-set_self, length-set,
}
use abstraction_layer.Image.{Area, size, flat_index_to_xy, get_neighbours}
use abstraction_layer.Image.Bounds.{IsArea, get_neighbours-AllBelow}
use abstraction_layer.Image.Filters.Loops.{Among}
use abstraction_layer.Image.Islands.{walk, walk_from, walked}
use abstraction_layer.Image.Islands.Distinct.{
  Distinct, Distinct-append, Among-append, among_left, among_right,
}
use abstraction_layer.Image.Islands.Visits.{
  Marked, Marked-set, set-Marked, Land, Added, visit-Added,
}

module _ (is_signed : Bool) (a : Area) (island_colour : ℕ) (buffer : List ℕ) where
  abbrev pub Next : ℕ → ℕ → Type 0
  Next p q = Among q (get_neighbours a (flat_index_to_xy a p))

  -- The pixels that are reached from the first by steps to neighbours of the colour.
  pub data Reach (s : ℕ) : ℕ → Type 0 where
    here : Reach s s
    step : {p q : ℕ} → Reach s p → Next p q → (Land is_signed a island_colour buffer) q → Reach s q

  -- The pixels that were met so far, of which those of the island have had their neighbours visited.
  pub record Met (s : ℕ) (before visited : List Bool) (island met : List ℕ) : Type 0 where
    pub start : Among s met
    pub reach : (q : ℕ) → Among q met → Reach s q
    pub marks : (q : ℕ) → Marked visited q → Marked before q ⊎ Among q met
    pub fresh : (q : ℕ) → Among q met → Marked visited q × (¬ Marked before q)
    pub keeps : (q : ℕ) → Marked before q → Marked visited q
    pub covered :
        (p q : ℕ)
        → Among p island
        → Next p q
        → (Land is_signed a island_colour buffer) q
        → Marked visited q
    pub distinct : Distinct met

  -- A round of the walk.
  further :
      (s i : ℕ) (before visited visited' : List Bool) (island met new : List ℕ)
      → Among i met
      → Met s before visited island met
      → Added is_signed a island_colour buffer
          (get_neighbours a (flat_index_to_xy a i))
          visited
          visited'
          new
      → Met s before visited' (island ++ i ∷ []) (met ++ new)
  further s i before visited visited' island met new i_met m added = record {
    start = among_left s met new m.start;
    reach = λ q k. elim (Among-append q met new k) [
      | inl l ↦ m.reach q l
      | inr r ↦ let (land, near, _) = added.fresh q r in step (m.reach i i_met) near land
    ];
    marks = λ q k. elim (added.marks q k) [
      | inl l ↦ elim (m.marks q l) [ inl b ↦ inl b | inr r ↦ inr (among_left q met new r) ]
      | inr r ↦ inr (among_right q met new r)
    ];
    fresh = λ q k. elim (Among-append q met new k) [
      | inl l ↦ (added.keeps q (m.fresh q l).0, (m.fresh q l).1)
      | inr r ↦ (added.marked q r, λ b. (added.fresh q r).2 (m.keeps q b))
    ];
    keeps = λ q b. added.keeps q (m.keeps q b);
    covered = λ p q k near land. elim (Among-append p island (i ∷ []) k) [
      | inl l ↦ added.keeps q (m.covered p q l near land)
      | inr r ↦ elim r [
        | inl e ↦ added.covers q (subst (λ z. Next z q) e near) land
        | inr n ↦ absurd n
      ]
    ];
    distinct =
        Distinct-append met new m.distinct added.distinct
          (λ q k r. (added.fresh q r).2 (m.fresh q k).0);
  }

  walk-Met :
      (fuel s : ℕ) (queue : List ℕ) (before visited visited' : List Bool) (island island' : List ℕ)
      → IsArea a
      → length buffer ≡ a.height * a.width
      → length visited ≡ length buffer
      → Met s before visited island (island ++ queue)
      → walk is_signed a island_colour fuel buffer queue visited island ≡ walked island' visited'
      → Met s before visited' island' island' × (length visited' ≡ length buffer)
  unfolding walk
  walk-Met zero s queue before visited visited' island island' v whole same m e = absurd (cc)
  walk-Met (suc fuel) s [] before visited visited' island island' v whole same m e =
      let p : island ≡ island' = cc in
      let q : visited ≡ visited' = cc in
      subst₂ (λ x y. Met s before y x x × (length y ≡ length buffer)) p q
        (subst (Met s before visited island) (append-nil island) m, same)
  walk-Met (suc fuel) s (i ∷ queue) before visited visited' island island' v whole same m e =
      let ns = get_neighbours a (flat_index_to_xy a i) in
      let (new, visited'', f, added) =
        visit-Added is_signed a island_colour buffer ns queue visited
          (rw whole (get_neighbours-AllBelow a (flat_index_to_xy a i) v)) same in
      let regroup : (island ++ i ∷ []) ++ (queue ++ new) ≡ (island ++ i ∷ queue) ++ new =
        append_assoc island (i ∷ []) (queue ++ new) ∙ sym (append_assoc island (i ∷ queue) new) in
      let m' =
        further s i before visited visited'' island (island ++ i ∷ queue) new
          (among_right i island (i ∷ queue) (inl refl)) m added in
      walk-Met fuel s (queue ++ new) before visited'' visited' (island ++ i ∷ []) island' v whole
        added.same (subst (Met s before visited'' (island ++ i ∷ [])) (sym regroup) m')
        (sym (rw (f, walk) refl) ∙ e)

  -- The walk from a pixel of the colour that is not visited.
  pub walk_from-Met :
      (visited visited' : List Bool) (s : ℕ) (island : List ℕ)
      → IsArea a
      → length buffer ≡ a.height * a.width
      → length visited ≡ length buffer
      → s < length buffer
      → (¬ Marked visited s)
      → walk_from is_signed a island_colour buffer visited s ≡ walked island visited'
      → Met s visited visited' island island × (length visited' ≡ length buffer)
  unfolding walk_from
  walk_from-Met visited visited' s island v whole same below unseen e =
      walk-Met (suc (size a)) s (s ∷ []) visited (set visited s true) visited' [] island v whole
        (length-set visited s true ∙ same)
        (record {
          start = inl refl;
          reach = λ q m. elim m [ inl f ↦ subst (Reach s) (sym f) here | inr n ↦ absurd n ];
          marks = λ q m. elim (Marked-set visited s q m) [ inl f ↦ inr (inl f) | inr l ↦ inl l ];
          fresh = λ q m. elim m [
            | inl f ↦
                subst (λ z. Marked (set visited s true) z × (¬ Marked visited z)) (sym f)
                  (get_or-set_self visited s true false (omega (arith, below, same)), unseen)
            | inr n ↦ absurd n
          ];
          keeps = λ q m. set-Marked visited s q (omega (arith, below, same)) m;
          covered = λ p q m near land. absurd m;
          distinct = (λ m. m, tt);
        })
        e

  -- From a set of pixels that is closed, on neighbours that are mutual, all that is reached is met.
  abbrev pub Closed : List Bool → Type 0
  Closed visited =
      (p q : ℕ)
      → Marked visited p
      → (Land is_signed a island_colour buffer) p
      → Next p q
      → (Land is_signed a island_colour buffer) q
      → Marked visited q

  abbrev pub BothWays : Type 0
  BothWays =
      (p q : ℕ)
      → (Land is_signed a island_colour buffer) p
      → (Land is_signed a island_colour buffer) q
      → Next p q
      → Next q p

  Reach-Land :
      {s q : ℕ}
      → (Land is_signed a island_colour buffer) s
      → Reach s q
      → (Land is_signed a island_colour buffer) q
  Reach-Land land here = land
  Reach-Land land (step r near there) = there

  pub Met-complete :
      {s q : ℕ} {before visited : List Bool} {island : List ℕ}
      → BothWays
      → Closed before
      → (Land is_signed a island_colour buffer) s
      → Met s before visited island island
      → Reach s q
      → Among q island
  Met-complete both_ways closed land m here = m.start
  Met-complete both_ways closed land m (step {p} {q} r near there) =
      let p_met = Met-complete both_ways closed land m r in
      elim (m.marks q (m.covered p q p_met near there)) [
        | inl old ↦
            let p_land = Reach-Land land r in
            absurd
              ((m.fresh p p_met).1 (closed q p old there (both_ways p q p_land there near) p_land))
        | inr met ↦ met
      ]

  pub Met-Closed :
      {s : ℕ} {before visited : List Bool} {island : List ℕ}
      → Closed before
      → Met s before visited island island
      → Closed visited
  Met-Closed closed m p q marked land near there = elim (m.marks p marked) [
    | inl old ↦ m.keeps q (closed p q old land near there)
    | inr met ↦ m.covered p q met near there
  ]

  pub Reach_trans : {p q r : ℕ} → Reach p q → Reach q r → Reach p r
  Reach_trans first here = first
  Reach_trans first (step r near land) = step (Reach_trans first r) near land
