-- ===== src/Image/Islands/Visits.antt =====
-- Utilities/ComputerVision.hpp: what a visit of a pixel's neighbours marks and puts on the queue.
use abstraction_layer.Prelude.{
  ℕ, ◌<◌, ◌≡◌, ◌⊎◌, refl, sym, ap, ◌∙◌, subst, inl, inr, arith, Bool, true, false, Bool-cases, some,
  List, [], ◌∷◌, ◌++◌, append_assoc, append-nil, length, get_or, set, get_or-set_self,
  get_or-set_ne, length-set, ◌==◌, ==_iff,
}
use abstraction_layer.Image.{Area}
use abstraction_layer.Image.Bounds.{AllBelow}
use abstraction_layer.Image.Filters.Loops.{Among}
use abstraction_layer.Image.Islands.{visit}
use abstraction_layer.Image.Islands.Explore.{IsLand, new-cases}
use abstraction_layer.Image.Islands.Distinct.{Distinct}

abbrev pub Marked : List Bool → ℕ → Type 0
Marked visited q = get_or visited q false ≡ true

pub Marked-set :
    (visited : List Bool) (n q : ℕ) → Marked (set visited n true) q → (q ≡ n) ⊎ Marked visited q
Marked-set visited n q m = elim (Bool-cases (n == q)) [
  | inl e ↦ inl (sym ((==_iff n q).0 e))
  | inr e ↦ inr (sym (get_or-set_ne visited n q true false (λ f. cc ((==_iff n q).1 f, e))) ∙ m)
]

pub set-Marked :
    (visited : List Bool) (n q : ℕ)
    → n < length visited
    → Marked visited q
    → Marked (set visited n true) q
set-Marked visited n q below m = elim (Bool-cases (n == q)) [
  | inl e ↦
      subst (Marked (set visited n true)) ((==_iff n q).0 e)
        (get_or-set_self visited n true false below)
  | inr e ↦ get_or-set_ne visited n q true false (λ f. cc ((==_iff n q).1 f, e)) ∙ m
]

module _ (is_signed : Bool) (a : Area) (island_colour : ℕ) (buffer : List ℕ) where
  abbrev pub Land : ℕ → Type 0
  Land = IsLand is_signed a island_colour buffer

  -- What a visit of the pixels adds to the queue and marks.
  pub record Added (ns : List ℕ) (visited visited' : List Bool) (new : List ℕ) : Type 0 where
    pub same : length visited' ≡ length buffer
    pub marks : (q : ℕ) → Marked visited' q → Marked visited q ⊎ Among q new
    pub keeps : (q : ℕ) → Marked visited q → Marked visited' q
    pub marked : (q : ℕ) → Among q new → Marked visited' q
    pub fresh : (q : ℕ) → Among q new → Land q × Among q ns × (¬ Marked visited q)
    pub covers : (q : ℕ) → Among q ns → Land q → Marked visited' q
    pub distinct : Distinct new

  -- A pixel that is new stands first.
  first :
      (n : ℕ) (ns : List ℕ) (visited visited' : List Bool) (more : List ℕ)
      → n < length visited
      → Land n
      → get_or visited n false ≡ false
      → Added ns (set visited n true) visited' more
      → Added (n ∷ ns) visited visited' (n ∷ more)
  first n ns visited visited' more below here unseen added = record {
    same = added.same;
    marks = λ q m. elim (added.marks q m) [
      | inl k ↦ elim (Marked-set visited n q k) [ inl e ↦ inr (inl e) | inr l ↦ inl l ]
      | inr k ↦ inr (inr k)
    ];
    keeps = λ q m. added.keeps q (set-Marked visited n q below m);
    marked =
        λ q m. elim m [ inl e ↦ subst (Marked visited') (sym e) there | inr k ↦ added.marked q k ];
    fresh = λ q m. elim m [
      | inl e ↦
          subst (λ z. Land z × Among z (n ∷ ns) × (¬ Marked visited z)) (sym e)
            (here, inl refl, λ f. cc)
      | inr k ↦
          let (land, near, other) = added.fresh q k in
          (land, inr near, λ f. other (set-Marked visited n q below f))
    ];
    covers = λ q m land. elim m [
      | inl e ↦ subst (Marked visited') (sym e) there
      | inr k ↦ added.covers q k land
    ];
    distinct =
        (λ m. (added.fresh n m).2 (get_or-set_self visited n true false below), added.distinct);
  }
    where
      there : Marked visited' n
      there = added.keeps n (get_or-set_self visited n true false below)

  -- A pixel that is not new is passed over.
  passed :
      (n : ℕ) (ns : List ℕ) (visited visited' : List Bool) (more : List ℕ)
      → (Land n → get_or visited n false ≡ true)
      → Added ns visited visited' more
      → Added (n ∷ ns) visited visited' more
  passed n ns visited visited' more seen added = record {
    same = added.same;
    marks = added.marks;
    keeps = added.keeps;
    marked = added.marked;
    fresh = λ q m. let (land, near, other) = added.fresh q m in (land, inr near, other);
    covers = λ q m land. elim m [
      | inl e ↦ added.keeps q (subst (Marked visited) (sym e) (seen (subst Land e land)))
      | inr k ↦ added.covers q k land
    ];
    distinct = added.distinct;
  }

  pub visit-Added :
      (ns queue : List ℕ) (visited : List Bool)
      → AllBelow (length buffer) ns
      → length visited ≡ length buffer
      → (new : List ℕ) × (visited' : List Bool) × (visit is_signed a island_colour buffer ns queue
            visited
          ≡ some (queue ++ new, visited'))
        × Added ns visited visited' new
  unfolding visit
  visit-Added [] queue visited inside same = (
    [],
    visited,
    ap (λ q. some (q, visited)) (sym (append-nil queue)),
    record {
      same = same;
      marks = λ q m. inl m;
      keeps = λ q m. m;
      marked = λ q m. absurd m;
      fresh = λ q m. absurd m;
      covers = λ q m. absurd m;
      distinct = tt;
    },
  )
  visit-Added (n ∷ ns) queue visited inside same =
      elim (new-cases is_signed a island_colour buffer visited n inside.0) [
        | inl (new, here, unseen) ↦
            let below : n < length visited = omega (arith, same, inside.0) in
            let (more, visited', e, added) =
              visit-Added ns (queue ++ n ∷ []) (set visited n true) inside.1
                (length-set visited n true ∙ same) in
            (
              n ∷ more,
              visited',
              rw (new, visit) (e ∙ ap (λ q. some (q, visited')) (append_assoc queue (n ∷ []) more)),
              first n ns visited visited' more below here unseen added,
            )
        | inr (old, seen) ↦
            let (more, visited', e, added) = visit-Added ns queue visited inside.1 same in
            (more, visited', rw (old, visit) e, passed n ns visited visited' more seen added)
      ]
