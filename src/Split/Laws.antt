-- ===== src/Split/Laws.antt =====
-- Utilities/Algorithm.hpp: what `Split` makes of tokens that a character separates.
use abstraction_layer.Prelude.{
  ℕ, zero, suc, ◌+◌, ◌-◌, ◌≤◌, ◌<◌, ◌≡◌, ◌≢◌, ==_ne, refl, sym, ap, ap₂, ◌∙◌, append_assoc,
  append-nil, none, some, List, [], ◌∷◌, ◌++◌, arith, length, length-append, le→leb,
}
use abstraction_layer.Prelude.Text.{Text, is_prefix, find, find_from, shift, substr, take}
use abstraction_layer.Prelude.Text.Laws.{
  All, Lacks, find_past, find_here, find_missing, take-append, drop-append,
}
use abstraction_layer.Split.{c_string, split, split_from, push_back}

-- The tokens, with the character between any two of them.
abbrev pub joined : ℕ → Text → List Text → Text
joined c t [] = t
joined c t (u ∷ us) = t ++ c ∷ joined c u us

find_from-behind :
    (needle before s : Text)
    → find_from needle (before ++ s) (some (length before)) ≡ shift (length before) (find needle s)
unfolding find_from
find_from-behind needle before s =
    rw
      (
        le→leb (length before) (length (before ++ s)) (omega (arith, length-append before s)),
        drop-append before s,
      )
      refl

substr-behind :
    (before s : Text) (count : ℕ)
    → substr (before ++ s) (length before) (some count) ≡ some (take count s)
unfolding substr
substr-behind before s count =
    rw
      (
        le→leb (length before) (length (before ++ s)) (omega (arith, length-append before s)),
        drop-append before s,
      )
      refl

substr-token :
    (before t rest : Text)
    → substr
        (before ++ (t ++ rest))
        (length before)
        (some (length before + length t - length before))
      ≡ some t
substr-token before t rest =
    substr-behind before (t ++ rest) (length before + length t - length before)
    ∙ ap (λ n. some (take n (t ++ rest))) {y = length t} (omega arith)
    ∙ ap some (take-append t rest)

substr-rest : (before s : Text) → substr (before ++ s) (length before) none ≡ some s
unfolding substr
substr-rest before s =
    rw
      (
        le→leb (length before) (length (before ++ s)) (omega (arith, length-append before s)),
        drop-append before s,
      )
      refl

find-end : (c : ℕ) (t : Text) → Lacks c t → find (c ∷ []) t ≡ none
find-end c t h =
    ap (find (c ∷ [])) (sym (append-nil t))
    ∙ find_missing c [] t [] h (unfold find is_prefix in refl)

find-separator :
    (c : ℕ) (t rest : Text) → Lacks c t → find (c ∷ []) (t ++ c ∷ rest) ≡ some (length t)
find-separator c t rest h =
    find_past c [] t (c ∷ rest) h
    ∙ ap (shift (length t)) (find_here (c ∷ []) rest)
    ∙ ap some (omega arith)

split_from_end :
    (fuel c : ℕ) (before t : Text)
    → Lacks c t
    → split_from (suc fuel) (before ++ t) (c ∷ []) (length before) ≡ some (t ∷ [])
unfolding split_from
split_from_end fuel c before t h =
    rw (find_from-behind (c ∷ []) before t, find-end c t h, substr-rest before t, split_from) refl

split_from_next :
    (fuel c : ℕ) (before t rest : Text)
    → Lacks c t
    → split_from (suc fuel) (before ++ (t ++ c ∷ rest)) (c ∷ []) (length before)
      ≡ push_back
          (some t)
          (split_from fuel (before ++ (t ++ c ∷ rest)) (c ∷ []) (length before + length t + 1))
unfolding split_from
split_from_next fuel c before t rest h =
    rw (find_from-behind (c ∷ []) before (t ++ c ∷ rest), find-separator c t rest h, split_from)
      (ap
        (λ token.
          push_back token
            (split_from fuel (before ++ (t ++ c ∷ rest)) (c ∷ []) (length before + length t + 1)))
        (substr-token before t (c ∷ rest)))

split_from-joined :
    (fuel c : ℕ) (before t : Text) (us : List Text)
    → All (Lacks c) (t ∷ us)
    → length us < fuel
    → split_from fuel (before ++ joined c t us) (c ∷ []) (length before) ≡ some (t ∷ us)
split_from-joined zero c before t us h enough = absurd (omega arith)
split_from-joined (suc fuel) c before t [] (h, hs) enough = split_from_end fuel c before t h
split_from-joined (suc fuel) c before t (u ∷ us) (h, hs) enough =
    split_from_next fuel c before t (joined c u us) h
    ∙ ap (push_back (some t)) (
        ap₂ (λ s last. split_from fuel s (c ∷ []) last)
          (sym (
            append_assoc before (t ++ c ∷ []) (joined c u us)
            ∙ ap (λ s. before ++ s) (append_assoc t (c ∷ []) (joined c u us))))
          (omega (arith, length-append before (t ++ c ∷ []), length-append t (c ∷ [])))
        ∙ split_from-joined fuel c (before ++ (t ++ c ∷ [])) u us hs (omega arith))

length-joined : (c : ℕ) (t : Text) (us : List Text) → length us ≤ length (joined c t us)
length-joined c t [] = omega arith
length-joined c t (u ∷ us) =
    omega (arith, length-joined c u us, length-append t (c ∷ joined c u us))

-- Tokens that lack a character other than 0, with that character between any two of them, are what `Split` at that
-- character returns, empty ones too, and it neither throws nor runs out of rounds.
pub split-joined :
    (c : ℕ) (t : Text) (us : List Text)
    → c ≢ 0
    → All (Lacks c) (t ∷ us)
    → split (joined c t us) (c ∷ []) ≡ some (t ∷ us)
unfolding split c_string
split-joined c t us not_end h = rw (==_ne c 0 not_end) (
    split_from-joined (length (joined c t us) + 2) c [] t us h
      (omega (arith, length-joined c t us)))
