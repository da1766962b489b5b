-- ===== src/Image/Filters/Loops.antt =====
-- What a loop of the filters keeps, and what its rounds bring about.
use abstraction_layer.Prelude.{
  ℕ, zero, suc, ◌+◌, ◌-◌, ◌%◌, ◌<◌, ◌≤◌, ◌≡◌, ◌⊎◌, refl, ◌∙◌, subst, inl, inr, arith, true, false,
  Option, some, List, [], ◌∷◌, length, get_or, set, Bool-cases, ==_iff, ◌==◌, get_or-set_self,
  get_or-set_ne, length-set,
}
use abstraction_layer.Image.Fill.{at-get_or}
use abstraction_layer.Image.Filters.{for_each, count_up, from_to, store}

abbrev pub Among : ℕ → List ℕ → Type 0
Among a [] = ⊥
Among a (x ∷ xs) = (a ≡ x) ⊎ Among a xs

module _ {κ μ} {S : Type κ} (P : S → Type μ) (body : ℕ → S → Option S) where
  -- Each round succeeds and keeps the invariant.
  abbrev pub Keeps : List ℕ → Type (κ ⊔ μ)
  Keeps xs = (x : ℕ) → Among x xs → (s : S) → P s → (s' : S) × (body x s ≡ some s') × P s'

  pub for_each-Keeps :
      (xs : List ℕ) (s : S) → Keeps xs → P s → (s' : S) × (for_each body xs s ≡ some s') × P s'
  unfolding for_each
  for_each-Keeps [] s keeps h = (s, refl, h)
  for_each-Keeps (x ∷ xs) s keeps h =
      let (s', e, h') = keeps x (inl refl) s h in
      let (t, f, k) = for_each-Keeps xs s' (λ y m. keeps y (inr m)) h' in (t, rw (e, for_each) f, k)

-- What is marked in a round is marked in the first or in a later one.
first_or_later :
    {C : Type 0} (Marks : ℕ → Type 0) (x : ℕ) (xs : List ℕ)
    → (Marks x → C)
    → ((y : ℕ) × Among y xs × Marks y → C)
    → (y : ℕ) × Among y (x ∷ xs) × Marks y
    → C
first_or_later Marks x xs first later (y, inl e, k) = first (subst Marks e k)
first_or_later Marks x xs first later (y, inr m, k) = later (y, m, k)

pub Among-count_up : (n low x : ℕ) → Among x (count_up low n) → (low ≤ x) × (x < low + n)
Among-count_up zero low x m = absurd m
Among-count_up (suc n) low x (inl e) = omega arith
Among-count_up (suc n) low x (inr m) = omega (arith, Among-count_up n (suc low) x m)

pub count_up-Among : (n low x : ℕ) → low ≤ x → x < low + n → Among x (count_up low n)
count_up-Among zero low x h k = absurd (omega arith)
count_up-Among (suc n) low x h k = elim (Bool-cases (x == low)) [
  | inl e ↦ inl ((==_iff x low).0 e)
  | inr e ↦ inr (count_up-Among n (suc low) x (ground arith) (omega arith))
]

pub Among-from_to : (low high x : ℕ) → Among x (from_to low high) → (low ≤ x) × (x < high)
Among-from_to low high x m = omega (arith, Among-count_up (high - low) low x m)

pub from_to-Among : (low high x : ℕ) → low ≤ x → x < high → Among x (from_to low high)
from_to-Among low high x h k = count_up-Among (high - low) low x h (omega arith)

pub store-some :
    (buffer : List ℕ) (i colour : ℕ)
    → i < length buffer
    → store buffer i colour ≡ some (set buffer i (colour % 256))
unfolding store
store-some buffer i colour h = rw (at-get_or buffer i h, store) refl

module _ {κ μ} {S : Type κ} (P : S → Type μ) (body : ℕ → ℕ → S → Option S) where
  -- The same for a loop over the columns in a loop over the rows.
  abbrev pub GridKeeps : List ℕ → List ℕ → Type (κ ⊔ μ)
  GridKeeps xs ys =
      (x y : ℕ) → Among x xs → Among y ys → (s : S) → P s → (s' : S) × (body y x s ≡ some s') × P s'

  pub grid-Keeps :
      (xs ys : List ℕ) (s : S)
      → GridKeeps xs ys
      → P s
      → (s' : S) × (for_each (λ y. for_each (body y) xs) ys s ≡ some s') × P s'
  grid-Keeps xs ys s keeps h =
      for_each-Keeps P (λ y. for_each (body y) xs) ys s
        (λ y m s h. for_each-Keeps P (body y) xs s (λ x k. keeps x y k m) h) h

abbrev pub HasColour : ℕ → ℕ → List ℕ → Type 0
HasColour colour i now = get_or now i 0 ≡ colour % 256

-- A buffer whose pixels are as they were before, or have the new colour for a reason.
module _ (before : List ℕ) (colour : ℕ) (Reason : ℕ → Type 0) where
  abbrev pub Painted : List ℕ → Type 0
  Painted now =
      (length now ≡ length before)
      × ((i : ℕ)
          → (get_or now i 0 ≡ get_or before i 0) ⊎ ((get_or now i 0 ≡ colour % 256) × Reason i))

  pub Painted-self : Painted before
  Painted-self = (refl, λ i. inl refl)

  -- One more pixel is painted, and those that have the colour keep it.
  pub store-Painted :
      (now : List ℕ) (i : ℕ)
      → i < length before
      → Reason i
      → Painted now
      → (next : List ℕ) × (store now i colour ≡ some next)
        × Painted next
        × HasColour colour i next
        × ((j : ℕ) → HasColour colour j now → HasColour colour j next)
  store-Painted now i inside why (same, each) = (
    set now i (colour % 256),
    store-some now i colour (omega (arith, same, inside)),
    (length-set now i (colour % 256) ∙ same, λ j. painted j (Bool-cases (i == j))),
    here,
    λ j h. kept j h (Bool-cases (i == j)),
  )
    where
      here : HasColour colour i (set now i (colour % 256))
      here = get_or-set_self now i (colour % 256) 0 (omega (arith, same, inside))

      elsewhere :
          (j : ℕ) → (i == j) ≡ false → get_or (set now i (colour % 256)) j 0 ≡ get_or now j 0
      elsewhere j other = get_or-set_ne now i j (colour % 256) 0 (λ e. cc ((==_iff i j).1 e, other))

      painted :
          (j : ℕ)
          → ((i == j) ≡ true) ⊎ ((i == j) ≡ false)
          → (get_or (set now i (colour % 256)) j 0 ≡ get_or before j 0)
            ⊎ ((get_or (set now i (colour % 256)) j 0 ≡ colour % 256) × Reason j)
      painted j (inl e) = inr (
          subst (λ k. HasColour colour k (set now i (colour % 256)) × Reason k) ((==_iff i j).0 e)
            (here, why))
      painted j (inr e) = rw (elsewhere j e) (each j)

      kept :
          (j : ℕ)
          → HasColour colour j now
          → ((i == j) ≡ true) ⊎ ((i == j) ≡ false)
          → HasColour colour j (set now i (colour % 256))
      kept j h (inl e) =
          subst (λ k. HasColour colour k (set now i (colour % 256))) ((==_iff i j).0 e) here
      kept j h (inr e) = elsewhere j e ∙ h

  -- A step that keeps the colours that are there, and colours what it marks.
  abbrev pub Paints : (List ℕ → Option (List ℕ)) → (ℕ → Type 0) → Type 0
  Paints change Marks =
      (now : List ℕ)
      → Painted now
      → (next : List ℕ) × (change now ≡ some next)
        × Painted next
        × ((j : ℕ) → HasColour colour j now → HasColour colour j next)
        × ((j : ℕ) → Marks j → HasColour colour j next)

  -- A loop of such steps colours what any of them marks.
  pub for_each-Paints :
      (body : ℕ → List ℕ → Option (List ℕ)) (Marks : ℕ → ℕ → Type 0) (xs : List ℕ)
      → ((x : ℕ) → Among x xs → Paints (body x) (Marks x))
      → Paints (for_each body xs) (λ j. (x : ℕ) × Among x xs × Marks x j)
  unfolding for_each
  for_each-Paints body Marks [] each now h = (now, refl, h, (λ j k. k), λ j (x, m, k). absurd m)
  for_each-Paints body Marks (x ∷ xs) each now h =
      let (next, e, p, keep, paint) = each x (inl refl) now h in
      let (last, f, q, keep', paint') =
        for_each-Paints body Marks xs (λ y m. each y (inr m)) next p in
      (
        last,
        rw (e, for_each) f,
        q,
        (λ j k. keep' j (keep j k)),
        λ j. first_or_later (λ y. Marks y j) x xs (λ k. keep' j (paint j k)) (paint' j),
      )

  pub grid-Paints :
      (body : ℕ → ℕ → List ℕ → Option (List ℕ)) (Marks : ℕ → ℕ → ℕ → Type 0) (xs ys : List ℕ)
      → ((x y : ℕ) → Among x xs → Among y ys → Paints (body y x) (Marks x y))
      → Paints
          (for_each (λ y. for_each (body y) xs) ys)
          (λ j. (y : ℕ) × Among y ys × ((x : ℕ) × Among x xs × Marks x y j))
  grid-Paints body Marks xs ys each =
      for_each-Paints (λ y. for_each (body y) xs) (λ y j. (x : ℕ) × Among x xs × Marks x y j) ys
        (λ y m. for_each-Paints (body y) (λ x. Marks x y) xs (λ x k. each x y k m))

  -- A loop that paints the pixels of a list.
  pub stores-Paints :
      (is : List ℕ)
      → ((i : ℕ) → Among i is → (i < length before) × Reason i)
      → Paints (for_each (λ i now. store now i colour) is) (λ i. Among i is)
  stores-Paints is each now h =
      let (next, e, p, keep, paint) =
        for_each-Paints (λ i now. store now i colour) (λ i j. j ≡ i) is
          (λ i m now h.
            let (next, e, p, here, keep) = store-Painted now i (each i m).0 (each i m).1 h in
            (next, e, p, keep, λ j same. rw same here))
          now h in
      (next, e, p, keep, λ j m. paint j (j, m, refl))
