-- ===== src/StaticString/Misuse.antt =====
-- Utilities/StaticString.hpp, `Container`: a second `set`, and strings that a `std::any` keeps inside.
use abstraction_layer.Prelude.{
  ℕ, ◌≡◌, ◌≢◌, inl, inr, refl, Bool, true, Bool-cases, none, some, List, ◌==◌, ==_self, ==_ne,
  arith,
}
use abstraction_layer.StaticString.{
  Container, inside, Memory, read, set, construct, reset, destruct, move,
}
use abstraction_layer.StaticString.Ownership.{
  Holding, nothing, in_buffer, on_heap, as_container, Owned,
}

-- A second `set` of the size of the buffer that a container holds leaves the buffer in use for ever:
-- after the container is destroyed no container has it, and it is still in use.
pub set_again_leaks :
    {m : Memory} {h : ℕ → Holding} (is_inline : ℕ → Bool) (c n : ℕ) (t u : List ℕ)
    → Owned m h
    → h c ≡ in_buffer n t
    → (let m' = destruct c (set is_inline c n u m) in
        (m'.in_use n ≡ true) × ((d : ℕ) → (m'.containers d).buffer_flag ≢ some n))
unfolding set destruct
set_again_leaks {m} {h} is_inline c n t u o e =
    rw ((o.filled c n t e).0, ==_self c)
      (
        (o.filled c n t e).0,
        λ d. elim (Bool-cases (d == c)) [
          | inl same ↦ rw same (λ f. cc)
          | inr other ↦
              rw (other, o.shape d) (flagged (h d) λ v f. ground (arith, o.alone d c n v t))
        ],
      )
  where
    flagged :
        (v : Holding) → ((w : List ℕ) → v ≢ in_buffer n w) → (as_container v).buffer_flag ≢ some n
    flagged nothing other f = cc
    flagged (in_buffer k w) other f = ground (arith, other w, f)
    flagged (on_heap k w) other f = cc

abbrev inside_container : ℕ → List ℕ → Container
inside_container c t = record {
  any_data = some (record { place = inside c; text = t });
  data_ptr = some (inside c);
  destroy = none;
  buffer_flag = none;
}

containers-construct :
    (is_inline : ℕ → Bool) (d n : ℕ) (t : List ℕ) (m : Memory)
    → is_inline n ≡ true
    → m.in_use n ≡ true
    → (construct is_inline d n t m).containers d ≡ inside_container d t
unfolding construct set
containers-construct is_inline d n t m kept_inside busy = rw (busy, ==_self d, kept_inside) refl

read-move :
    (c d : ℕ) (t : List ℕ) (m : Memory)
    → m.containers d ≡ inside_container d t
    → c ≢ d
    → read (move c d m) c ≡ none
unfolding read move reset
read-move c d t m e other = rw (==_ne c d other, ==_self c, e) (ground (arith, other))

-- A string that a `std::any` keeps inside cannot be read any more from the container that it is moved
-- to: the pointer still shows to the container that it was moved from.
pub move_inside :
    (is_inline : ℕ → Bool) (c d n : ℕ) (t : List ℕ) (m : Memory)
    → is_inline n ≡ true
    → m.in_use n ≡ true
    → c ≢ d
    → read (move c d (construct is_inline d n t m)) c ≡ none
move_inside is_inline c d n t m kept_inside busy other =
    read-move c d t (construct is_inline d n t m)
      (containers-construct is_inline d n t m kept_inside busy) other
