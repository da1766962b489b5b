-- ===== src/Prelude/Text/Search.antt =====
-- Lemmas on what is found in a part of a text.
use Prim.Native.Nat.{ℕ, zero, suc, ◌-◌, ◌≤◌}
use mathlib.Core.Path.{◌≡◌, refl, sym, ap, ◌∙◌}
use mathlib.Core.Logic.{inl, inr}
use mathlib.Core.Bool.{Bool, true, false, not, ◌&&◌}
use mathlib.Core.Option.{Option, none, some}
use mathlib.Core.List.{[], ◌∷◌, ◌++◌}
use native.Mathlib.Omega.{arith}
use abstraction_layer.Prelude.Tests.{◌==◌, Bool-cases}
use abstraction_layer.Prelude.Lists.{length}
use abstraction_layer.Prelude.Text.{Text, take, drop, is_some, shift, is_prefix, find, contains}
use abstraction_layer.Prelude.Text.Laws.{Lacks, contains-cons}

is_prefix_grow :
    (needle text more : Text)
    → is_prefix needle text ≡ true
    → is_prefix needle (text ++ more) ≡ true
unfolding is_prefix
is_prefix_grow [] text more h = refl
is_prefix_grow (x ∷ needle) [] more h = cc
is_prefix_grow (x ∷ needle) (y ∷ text) more h = ground (arith, is_prefix_grow needle text more)

contains-here : (needle text : Text) → is_prefix needle text ≡ true → contains needle text ≡ true
unfolding contains find
contains-here needle [] h = rw h refl
contains-here needle (y ∷ text) h = rw h refl

contains-later :
    (needle : Text) (y : ℕ) (text : Text)
    → is_prefix needle (y ∷ text) ≡ false
    → contains needle (y ∷ text) ≡ contains needle text
unfolding contains find
contains-later needle y text h = rw h (is_some-shift _)
  where
    is_some-shift : (o : Option ℕ) → is_some (shift 1 o) ≡ is_some o
    is_some-shift none = refl
    is_some-shift (some i) = refl

prefix_of_nil : (needle more : Text) → contains needle [] ≡ true → is_prefix needle more ≡ true
unfolding contains
prefix_of_nil [] more h = unfold is_prefix in refl
prefix_of_nil (x ∷ needle) more h = cc

-- What a text contains, a longer one contains.
pub contains_grow :
    (needle text more : Text) → contains needle text ≡ true → contains needle (text ++ more) ≡ true
contains_grow needle [] more h = contains-here needle more (prefix_of_nil needle more h)
contains_grow needle (y ∷ text) more h = elim (Bool-cases (is_prefix needle (y ∷ text))) [
  | inl e ↦ contains-here needle (y ∷ (text ++ more)) (is_prefix_grow needle (y ∷ text) more e)
  | inr e ↦
      contains-cons needle y (text ++ more)
        (contains_grow needle text more (sym (contains-later needle y text e) ∙ h))
]

pub contains_behind :
    (needle before text : Text)
    → contains needle text ≡ true
    → contains needle (before ++ text) ≡ true
contains_behind needle [] text h = h
contains_behind needle (b ∷ before) text h =
    contains-cons needle b (before ++ text) (contains_behind needle before text h)

pub take_longer :
    (n : ℕ) (xs ys : Text) → length xs ≤ n → take n (xs ++ ys) ≡ xs ++ take (n - length xs) ys
take_longer n [] ys h = ap (λ k. take k ys) (omega arith)
take_longer zero (x ∷ xs) ys h = absurd (omega arith)
take_longer (suc n) (x ∷ xs) ys h =
    ap (λ s. x ∷ s) (take_longer n xs ys (omega arith) ∙ ap (λ k. xs ++ take k ys) (omega arith))

is_prefix-split :
    (needle text : Text) → is_prefix needle text ≡ true → (rest : Text) × (text ≡ needle ++ rest)
unfolding is_prefix
is_prefix-split [] text h = (text, refl)
is_prefix-split (x ∷ needle) [] h = cc
is_prefix-split (x ∷ needle) (y ∷ text) h =
    let (rest, e) = is_prefix-split needle text (ground arith) in (rest, ground (arith, e))

find-yes : (needle text : Text) → is_prefix needle text ≡ true → find needle text ≡ some 0
unfolding find
find-yes needle [] e = rw e refl
find-yes needle (y ∷ text) e = rw e refl

find-no :
    (needle : Text) (y : ℕ) (text : Text)
    → is_prefix needle (y ∷ text) ≡ false
    → find needle (y ∷ text) ≡ shift 1 (find needle text)
unfolding find
find-no needle y text e = rw e refl

shift-some : (o : Option ℕ) (i : ℕ) → shift 1 o ≡ some i → (j : ℕ) × (o ≡ some j) × (i ≡ suc j)
shift-some none i h = cc
shift-some (some j) i h = (j, refl, ground arith)

-- Where a text is found, it stands.
pub find-split :
    (needle text : Text) (i : ℕ)
    → find needle text ≡ some i
    → (i ≤ length text) × ((rest : Text) × (drop i text ≡ needle ++ rest))
find-split [] [] i h = unfold find in (ground arith, (drop i [], refl))
find-split (x ∷ needle) [] i h = unfold find in cc
find-split needle (y ∷ text) i h = elim (Bool-cases (is_prefix needle (y ∷ text))) [
  | inl e ↦ at_start e (ground (arith, find-yes needle (y ∷ text) e))
  | inr e ↦
      let (j, found, z) = shift-some (find needle text) i (sym (find-no needle y text e) ∙ h) in
      let (bound, here) = find-split needle text j found in rw z (omega arith, here)
]
  where
    at_start :
        is_prefix needle (y ∷ text) ≡ true
        → i ≡ 0
        → (i ≤ length (y ∷ text)) × ((rest : Text) × (drop i (y ∷ text) ≡ needle ++ rest))
    at_start e z = rw z (omega arith, is_prefix-split needle (y ∷ text) e)

-- Whether a text lacks a character, as a test.
abbrev pub lacks : ℕ → Text → Bool
lacks c [] = true
lacks c (x ∷ s) = not (x == c) && lacks c s

pub lacks-Lacks : (c : ℕ) (s : Text) → lacks c s ≡ true → Lacks c s
lacks-Lacks c [] h = tt
lacks-Lacks c (x ∷ s) h = ground (arith, lacks-Lacks c s)
