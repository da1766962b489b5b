-- ===== src/Concatenate/Laws.antt =====
-- Utilities/Algorithm.hpp: what `ConcatenateStrings` returns.
use abstraction_layer.Prelude.{
  ℕ, suc, ◌+◌, ◌-◌, ◌≤◌, ◌≡◌, refl, sym, ap, ap₂, ◌∙◌, inl, inr, arith, Bool-cases, some, List, [],
  ◌∷◌, ◌++◌, append_assoc, length, set, length-append, false, append-nil, replicate, lt→ltb, ◌==◌,
  if◌then◌else◌,
}
use abstraction_layer.Prelude.Text.{Text}
use abstraction_layer.Concatenate.{
  total_size, write_at, copy_if, count_if, concatenate_from, concatenate_strings,
}

-- The strings one after the other, without their zeros.
abbrev pub written : Text → Text
written [] = []
written (c ∷ cs) = if c == 0 then written cs else c ∷ written cs

abbrev pub all_written : List Text → Text
all_written [] = []
all_written (s ∷ ss) = written s ++ all_written ss

count_if_lem : (s : Text) → count_if s ≡ length (written s)
unfolding count_if
count_if_lem [] = refl
count_if_lem (c ∷ cs) = elim (Bool-cases (c == 0)) [
  | inl e ↦ rw e (omega (arith, count_if_lem cs))
  | inr e ↦ rw e (omega (arith, count_if_lem cs))
]

count_if-le : (s : Text) → count_if s ≤ length s
unfolding count_if
count_if-le [] = omega arith
count_if-le (c ∷ cs) = elim (Bool-cases (c == 0)) [
  | inl e ↦ rw e (omega (arith, count_if-le cs))
  | inr e ↦ rw e (omega (arith, count_if-le cs))
]

set-behind :
    (before after : Text) (x c : ℕ)
    → set (before ++ x ∷ after) (length before) c ≡ before ++ c ∷ after
set-behind [] after x c = refl
set-behind (b ∷ before) after x c = ap (λ r. b ∷ r) (set-behind before after x c)

write_at-behind :
    (before : Text) (room c : ℕ)
    → write_at (before ++ replicate (suc room) 0) (length before) c
      ≡ some (before ++ c ∷ replicate room 0)
write_at-behind before room c =
    rw
      (lt→ltb (length before) (length (before ++ 0 ∷ replicate room 0))
        (omega (arith, length-append before (0 ∷ replicate room 0))))
      (ap some (set-behind before (replicate room 0) 0 c))

written-next : (c : ℕ) (cs : Text) → (c == 0) ≡ false → written (c ∷ cs) ≡ c ∷ written cs
written-next c cs e = rw e refl

copy_next :
    (cs before : Text) (c room : ℕ)
    → (c == 0) ≡ false
    → copy_if (c ∷ cs) (length before) (before ++ replicate (suc room) 0)
      ≡ copy_if cs (length (before ++ c ∷ [])) ((before ++ c ∷ []) ++ replicate room 0)
unfolding copy_if
copy_next cs before c room e =
    rw (e, write_at-behind before room c)
      (ap₂ (copy_if cs) (sym (length-append before (c ∷ [])))
        (sym (append_assoc before (c ∷ []) (replicate room 0))))

-- With room for what is not zero, it is written behind what stands there.
copy_if-written :
    (s before : Text) (n room : ℕ)
    → n ≡ count_if s + room
    → copy_if s (length before) (before ++ replicate n 0)
      ≡ some ((before ++ written s) ++ replicate room 0)
unfolding copy_if count_if
copy_if-written [] before n room h =
    ap₂ (λ b k. some (b ++ replicate k 0)) (sym (append-nil before)) (omega (arith, h))
copy_if-written (c ∷ cs) before n room h = elim (Bool-cases (c == 0)) [
  | inl e ↦ rw e (copy_if-written cs before n room (h ∙ rw e (omega arith)))
  | inr e ↦
      let counted : n ≡ suc (count_if cs + room) = h ∙ rw e (omega arith) in
      ap (λ k. copy_if (c ∷ cs) (length before) (before ++ replicate k 0)) counted
      ∙ copy_next cs before c (count_if cs + room) e
      ∙ copy_if-written cs (before ++ c ∷ []) (count_if cs + room) room refl
      ∙ ap (λ b. some (b ++ replicate room 0))
          (append_assoc before (c ∷ []) (written cs)
            ∙ ap (λ r. before ++ r) (sym (written-next c cs e)))
]

concatenate_from-written :
    (ss : List Text) (before : Text) (n room : ℕ)
    → n ≡ length (all_written ss) + suc room
    → concatenate_from ss (length before) (before ++ replicate n 0)
      ≡ some ((before ++ all_written ss) ++ replicate (suc room) 0)
unfolding concatenate_from
concatenate_from-written [] before n room h =
    ap (λ k. concatenate_from [] (length before) (before ++ replicate k 0)) {y = suc room}
      (omega (arith, h))
    ∙ write_at-behind before room 0
    ∙ ap (λ b. some (b ++ replicate (suc room) 0)) (sym (append-nil before))
concatenate_from-written (s ∷ ss) before n room h =
    rw
      (
        copy_if-written s before n (length (all_written ss) + suc room)
            (omega (arith, h, count_if_lem s, length-append (written s) (all_written ss))),
        concatenate_from,
      )
      (ap
          (λ pos.
            concatenate_from ss pos
              ((before ++ written s) ++ replicate (length (all_written ss) + suc room) 0))
          (omega (arith, count_if_lem s, length-append before (written s)))
        ∙ concatenate_from-written ss (before ++ written s) (length (all_written ss) + suc room)
            room refl
        ∙ ap (λ b. some (b ++ replicate (suc room) 0))
            (append_assoc before (written s) (all_written ss)))

length-all_written : (ss : List Text) → length (all_written ss) ≤ total_size ss
unfolding total_size
length-all_written [] = omega arith
length-all_written (s ∷ ss) = omega (
  arith,
  length-all_written ss,
  count_if_lem s,
  count_if-le s,
  length-append (written s) (all_written ss),
)

-- No write leaves the array: what is returned is the strings one after the other without their zeros,
-- and zeros, at least one, up to the sum of the sizes and one.
pub concatenate_strings-all_written :
    (ss : List Text)
    → concatenate_strings ss
      ≡ some (all_written ss ++ replicate (suc (total_size ss - length (all_written ss))) 0)
unfolding concatenate_strings
concatenate_strings-all_written ss =
    concatenate_from-written ss [] (total_size ss + 1) (total_size ss - length (all_written ss))
      (omega (arith, length-all_written ss))
