-- ===== src/Prelude/Text/Laws.antt =====
-- Lemmas on the texts: where a search finds what stands in a text, and what it skips.
use Prim.Native.Nat.{ℕ, zero, suc, ◌+◌, ◌≤◌}
use mathlib.Core.Path.{◌≡◌, refl, sym, ap, ◌∙◌}
use mathlib.Core.Logic.{◌≢◌, inl, inr}
use mathlib.Core.Bool.{Bool, true, false}
use mathlib.Core.Option.{Option, none, some}
use mathlib.Core.List.{List, [], ◌∷◌, ◌++◌}
use native.Mathlib.Omega.{arith}
use abstraction_layer.Prelude.Tests.{◌==◌, ==_self, ==_ne, Bool-cases}
use abstraction_layer.Prelude.Lists.{length, length-append}
use abstraction_layer.Prelude.Text.{
  Text, take, drop, is_some, shift, is_prefix, find, contains, rfind,
}

module _ {ℓ κ} {A : Type ℓ} (P : A → Type κ) where
  abbrev pub All : List A → Type κ
  All [] = Unit
  All (x ∷ xs) = P x × All xs

module _ {ℓ κ} {A : Type ℓ} (P : A → Type κ) where
  pub All-append : (xs ys : List A) → All P xs → All P ys → All P (xs ++ ys)
  All-append [] ys hx hy = hy
  All-append (x ∷ xs) ys (h, hx) hy = (h, All-append xs ys hx hy)

abbrev pub Lacks : ℕ → Text → Type 0
Lacks c = All (λ x. x ≢ c)

abbrev pub is_empty : Text → Bool
is_empty [] = true
is_empty (c ∷ s) = false

pub is_prefix-append : (xs ys : Text) → is_prefix xs (xs ++ ys) ≡ true
unfolding is_prefix
is_prefix-append [] ys = refl
is_prefix-append (x ∷ xs) ys = rw (==_self x) (is_prefix-append xs ys)

pub shift-shift : (m n : ℕ) (o : Option ℕ) → shift m (shift n o) ≡ shift (m + n) o
shift-shift m n none = refl
shift-shift m n (some i) = ap some (omega arith)

pub shift_zero : (o : Option ℕ) → shift 0 o ≡ o
shift_zero none = refl
shift_zero (some i) = ap some (omega arith)

-- A search finds a text at its start.
pub find_here : (needle ys : Text) → find needle (needle ++ ys) ≡ some 0
unfolding find
find_here [] [] = refl
find_here [] (y ∷ ys) = refl
find_here (x ∷ xs) ys = rw (is_prefix-append (x ∷ xs) ys) refl

-- A search skips what lacks the first character.
pub find_past :
    (c : ℕ) (needle before rest : Text)
    → Lacks c before
    → find (c ∷ needle) (before ++ rest) ≡ shift (length before) (find (c ∷ needle) rest)
unfolding find
find_past c needle [] rest h = rw shift_zero
find_past c needle (b ∷ before) rest (h, hs) =
    grind (arith, find_past c needle before rest hs, shift-shift)

-- No search finds a text whose first character is missing in front and that is missing behind.
pub find_missing :
    (c : ℕ) (needle before rest : Text)
    → Lacks c before
    → find (c ∷ needle) rest ≡ none
    → find (c ∷ needle) (before ++ rest) ≡ none
find_missing c needle before rest lacks h = rw (find_past c needle before rest lacks, h) refl

find-cons :
    (c : ℕ) (needle text : Text)
    → is_prefix (c ∷ needle) (c ∷ text) ≡ false
    → find (c ∷ needle) (c ∷ text) ≡ shift 1 (find (c ∷ needle) text)
unfolding find
find-cons c needle text other = rw other refl

-- Nor if the text in front begins with that character only, but not with the text.
pub find_missing_here :
    (c : ℕ) (needle before rest : Text)
    → is_prefix (c ∷ needle) (c ∷ (before ++ rest)) ≡ false
    → Lacks c before
    → find (c ∷ needle) rest ≡ none
    → find (c ∷ needle) (c ∷ (before ++ rest)) ≡ none
find_missing_here c needle before rest other lacks h =
    find-cons c needle (before ++ rest) other
    ∙ ap (shift 1) (find_missing c needle before rest lacks h)

is_some-shift : (n : ℕ) (o : Option ℕ) → is_some (shift n o) ≡ is_some o
is_some-shift n none = refl
is_some-shift n (some i) = refl

-- A search finds what is found further on, there or earlier.
pub contains-cons :
    (needle : Text) (b : ℕ) (text : Text)
    → contains needle text ≡ true
    → contains needle (b ∷ text) ≡ true
unfolding contains find
contains-cons needle b text h = elim (Bool-cases (is_prefix needle (b ∷ text))) [
  | inl e ↦ rw e refl
  | inr e ↦ rw (e, is_some-shift) h
]

pub contains-append :
    (needle before rest : Text) → contains needle (before ++ needle ++ rest) ≡ true
contains-append needle [] rest = unfold contains in rw find_here refl
contains-append needle (b ∷ before) rest =
    contains-cons needle b (before ++ needle ++ rest) (contains-append needle before rest)

pub length-ne : (x : ℕ) (s t : Text) → (length s == length (s ++ x ∷ t)) ≡ false
length-ne x s t = ground (arith, length-append s (x ∷ t))

pub take-append : (xs ys : Text) → take (length xs) (xs ++ ys) ≡ xs
take-append [] ys = refl
take-append (x ∷ xs) ys = ap (λ s. x ∷ s) (take-append xs ys)

pub take_all : (n : ℕ) (xs : Text) → length xs ≤ n → take n xs ≡ xs
take_all zero [] h = refl
take_all zero (x ∷ xs) h = absurd (omega arith)
take_all (suc n) [] h = refl
take_all (suc n) (x ∷ xs) h = ap (λ s. x ∷ s) (take_all n xs (omega arith))

pub take-drop : (n : ℕ) (xs : Text) → take n xs ++ drop n xs ≡ xs
take-drop zero xs = refl
take-drop (suc n) [] = refl
take-drop (suc n) (x ∷ xs) = ap (λ s. x ∷ s) (take-drop n xs)

pub length-take : (n : ℕ) (xs : Text) → n ≤ length xs → length (take n xs) ≡ n
length-take zero xs h = refl
length-take (suc n) [] h = absurd (omega arith)
length-take (suc n) (x ∷ xs) h = ap suc (length-take n xs (omega arith))

pub length-drop : (n : ℕ) (xs : Text) → n ≤ length xs → length (drop n xs) + n ≡ length xs
length-drop zero xs h = omega arith
length-drop (suc n) [] h = absurd (omega arith)
length-drop (suc n) (x ∷ xs) h = omega (arith, length-drop n xs)

drop_nil : (n : ℕ) → drop {A = ℕ} n [] ≡ []
drop_nil zero = refl
drop_nil (suc n) = refl

pub drop-drop : (m n : ℕ) (xs : Text) → drop m (drop n xs) ≡ drop (n + m) xs
drop-drop m zero xs = ap (λ k. drop k xs) (omega arith)
drop-drop m (suc n) [] = drop_nil m ∙ sym (drop_nil (suc n + m))
drop-drop m (suc n) (x ∷ xs) =
    drop-drop m n xs ∙ ap (λ k. drop k (x ∷ xs)) {x = suc (n + m)} {y = suc n + m} (omega arith)

pub drop-append : (xs ys : Text) → drop (length xs) (xs ++ ys) ≡ ys
drop-append [] ys = refl
drop-append (x ∷ xs) ys = drop-append xs ys

pub rfind-Lacks : (c : ℕ) (ys : Text) → Lacks c ys → rfind c ys ≡ none
unfolding rfind
rfind-Lacks c [] h = refl
rfind-Lacks c (y ∷ ys) (h, hs) = rw (rfind-Lacks c ys hs, ==_ne y c h) refl

-- The last of a character is the one that none follows.
pub rfind-append : (c : ℕ) (xs ys : Text) → Lacks c ys → rfind c (xs ++ c ∷ ys) ≡ some (length xs)
unfolding rfind
rfind-append c [] ys h = rw (rfind-Lacks c ys h, ==_self c) refl
rfind-append c (x ∷ xs) ys h = rw (rfind-append c xs ys h) refl
