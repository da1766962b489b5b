-- ===== src/Image/Islands/Distinct.antt =====
-- Utilities/ComputerVision.hpp: lists of pixels without repetition, what is appended to one, and the
-- length of one that lies within another list.
use abstraction_layer.Prelude.{
  ℕ, suc, ◌≤◌, ◌≢◌, ◌⊎◌, refl, sym, subst, inl, inr, arith, Bool-cases, List, [], ◌∷◌, ◌++◌, length,
  ◌==◌, ==_iff, ==_self, ◌∙◌, if◌then◌else◌,
}
use abstraction_layer.Image.Filters.Loops.{Among}

abbrev pub Distinct : List ℕ → Type 0
Distinct [] = Unit {0}
Distinct (x ∷ xs) = (¬ Among x xs) × Distinct xs

abbrev pub Within : List ℕ → List ℕ → Type 0
Within xs ys = (q : ℕ) → Among q xs → Among q ys

pub Among-append : (q : ℕ) (xs ys : List ℕ) → Among q (xs ++ ys) → Among q xs ⊎ Among q ys
Among-append q [] ys m = inr m
Among-append q (x ∷ xs) ys (inl e) = inl (inl e)
Among-append q (x ∷ xs) ys (inr m) = elim (Among-append q xs ys m) [
  | inl l ↦ inl (inr l)
  | inr r ↦ inr r
]

pub among_left : (q : ℕ) (xs ys : List ℕ) → Among q xs → Among q (xs ++ ys)
among_left q [] ys m = absurd m
among_left q (x ∷ xs) ys (inl e) = inl e
among_left q (x ∷ xs) ys (inr m) = inr (among_left q xs ys m)

pub among_right : (q : ℕ) (xs ys : List ℕ) → Among q ys → Among q (xs ++ ys)
among_right q [] ys m = m
among_right q (x ∷ xs) ys m = inr (among_right q xs ys m)

pub Distinct-append :
    (xs ys : List ℕ)
    → Distinct xs
    → Distinct ys
    → ((q : ℕ) → Among q xs → Among q ys → ⊥)
    → Distinct (xs ++ ys)
Distinct-append [] ys h k apart = k
Distinct-append (x ∷ xs) ys (new, h) k apart = (
  λ m. elim (Among-append x xs ys m) [ inl l ↦ new l | inr r ↦ apart x (inl refl) r ],
  Distinct-append xs ys h k (λ q m n. apart q (inr m) n),
)

without : ℕ → List ℕ → List ℕ
without x [] = []
without x (y ∷ ys) = if x == y then ys else y ∷ without x ys

length-without : (x : ℕ) (ys : List ℕ) → Among x ys → suc (length (without x ys)) ≤ length ys
unfolding without
length-without x [] m = absurd m
length-without x (y ∷ ys) (inl same) = rw (same, ==_self y) (omega arith)
length-without x (y ∷ ys) (inr m) = elim (Bool-cases (x == y)) [
  | inl e ↦ rw e (omega arith)
  | inr e ↦ rw e (omega (arith, length-without x ys m))
]

Among-without : (q x : ℕ) (ys : List ℕ) → q ≢ x → Among q ys → Among q (without x ys)
unfolding without
Among-without q x [] other m = absurd m
Among-without q x (y ∷ ys) other (inl same) = elim (Bool-cases (x == y)) [
  | inl e ↦ absurd (other (same ∙ sym ((==_iff x y).0 e)))
  | inr e ↦ rw e (inl same)
]
Among-without q x (y ∷ ys) other (inr m) = elim (Bool-cases (x == y)) [
  | inl e ↦ rw e m
  | inr e ↦ rw e (inr (Among-without q x ys other m))
]

pub length-Within : (xs ys : List ℕ) → Distinct xs → Within xs ys → length xs ≤ length ys
length-Within [] ys h inside = omega arith
length-Within (x ∷ xs) ys (new, h) inside = omega (
  arith,
  length-without x ys (inside x (inl refl)),
  length-Within xs (without x ys) h
      (λ q m. Among-without q x ys (λ e. new (subst (λ z. Among z xs) e m)) (inside q (inr m))),
)
