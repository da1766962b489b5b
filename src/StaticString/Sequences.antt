-- ===== src/StaticString/Sequences.antt =====
-- Utilities/StaticString.hpp, `Container`: sequences of its operations against texts that are held by
-- number.
use abstraction_layer.Prelude.{
  ℕ, ◌≡◌, inl, inr, refl, sym, ◌∙◌, Bool, true, false, Bool-cases, Option, none, some, List, [],
  ◌∷◌, ◌==◌, if◌then◌else◌, arith,
}
use abstraction_layer.StaticString.{Memory, start, update, read, construct, reset, destruct, move}
use abstraction_layer.StaticString.Ownership.{
  Holding, nothing, in_buffer, on_heap, as_container, text_of, Owned, start-Owned, read_holding,
  reset-Owned, destruct-Owned, move-Owned, new_holding, construct-Owned,
}

pub data Operation : Type 0 where
  construct_new : ℕ → ℕ → List ℕ → Operation
  reset_one : ℕ → Operation
  move_to : ℕ → ℕ → Operation
  destruct_one : ℕ → Operation

unfoldable pub perform : (ℕ → Bool) → Operation → Memory → Memory
perform is_inline (construct_new c n t) m = construct is_inline c n t m
perform is_inline (reset_one c) m = reset c m
perform is_inline (move_to c d) m = move c d m
perform is_inline (destruct_one c) m = destruct c m

unfoldable pub perform_all : (ℕ → Bool) → List Operation → Memory → Memory
perform_all is_inline [] m = m
perform_all is_inline (op ∷ ops) m = perform_all is_inline ops (perform is_inline op m)

-- The containers as independent texts: a text is held or not, and a move leaves none behind.
abbrev pub Texts : Type 0
Texts = ℕ → Option (List ℕ)

abbrev pub spec : Operation → Texts → Texts
spec (construct_new c n t) s = update s c (some t)
spec (reset_one c) s = update s c none
spec (move_to c d) s = if c == d then s else update (update s c (s d)) d none
spec (destruct_one c) s = update s c none

abbrev pub spec_all : List Operation → Texts → Texts
spec_all [] s = s
spec_all (op ∷ ops) s = spec_all ops (spec op s)

-- A container is constructed where none holds a text, with a size that a `std::any` keeps outside.
abbrev pub Allowed : (ℕ → Bool) → Operation → Texts → Type 0
Allowed is_inline (construct_new c n t) s = (s c ≡ none) × (is_inline n ≡ false)
Allowed is_inline op s = Unit {0}

abbrev pub AllAllowed : (ℕ → Bool) → List Operation → Texts → Type 0
AllAllowed is_inline [] s = Unit {0}
AllAllowed is_inline (op ∷ ops) s = Allowed is_inline op s × AllAllowed is_inline ops (spec op s)

-- The containers hold what the texts are.
record Agrees (m : Memory) (s : Texts) : Type 0 where
  holding : ℕ → Holding
  owned : Owned m holding
  same : (c : ℕ) → s c ≡ text_of (holding c)

start-Agrees : Agrees start (λ c. none)
start-Agrees = record { holding = λ c. nothing; owned = start-Owned; same = λ c. refl }

no_text : (v : Holding) → text_of v ≡ none → v ≡ nothing
no_text nothing e = refl
no_text (in_buffer n t) e = absurd (cc)
no_text (on_heap k t) e = absurd (cc)

new_text : (m : Memory) (n : ℕ) (t : List ℕ) → text_of (new_holding m n t) ≡ some t
new_text m n t = ground arith

move_self : (c d : ℕ) (m : Memory) → (c == d) ≡ true → move c d m ≡ m
unfolding move
move_self c d m e = rw e refl

perform-Agrees :
    (is_inline : ℕ → Bool) (op : Operation) {m : Memory} {s : Texts}
    → Agrees m s
    → Allowed is_inline op s
    → Agrees (perform is_inline op m) (spec op s)
unfolding perform
perform-Agrees is_inline (construct_new c n t) {m} a (free, outside) =
    let h = a.holding in
    record {
      holding = update (update h c nothing) c (new_holding m n t);
      owned =
          construct-Owned is_inline c n t a.owned (no_text (h c) (sym (a.same c) ∙ free)) outside;
      same = λ d. ground (arith, a.same d, new_text m n t);
    }
perform-Agrees is_inline (reset_one c) a allowed = record {
  holding = update a.holding c nothing;
  owned = reset-Owned c a.owned;
  same = λ d. ground (arith, a.same d);
}
perform-Agrees is_inline (destruct_one c) a allowed = record {
  holding = update a.holding c nothing;
  owned = destruct-Owned c a.owned;
  same = λ d. ground (arith, a.same d);
}
perform-Agrees is_inline (move_to c d) {m} {s} a allowed = elim (Bool-cases (c == d)) [
  | inl e ↦ rw (e, move_self c d m e) a
  | inr e ↦ rw e (record {
    holding = update (update (update a.holding c nothing) c (a.holding d)) d nothing;
    owned = move-Owned c d a.owned (λ f. ground (arith, e, f));
    same = λ x. ground (arith, a.same x, a.same d);
  })
]

perform_all-Agrees :
    (is_inline : ℕ → Bool) (ops : List Operation) {m : Memory} {s : Texts}
    → Agrees m s
    → AllAllowed is_inline ops s
    → Agrees (perform_all is_inline ops m) (spec_all ops s)
unfolding perform_all
perform_all-Agrees is_inline [] a allowed = a
perform_all-Agrees is_inline (op ∷ ops) a (first, rest) =
    perform_all-Agrees is_inline ops (perform-Agrees is_inline op a first) rest

-- For every sequence of constructions, moves, resets and destructions from the start, each container
-- reads as the text of its number: no operation changes the text of another container. A container is
-- constructed only where none holds a text, with a size whose objects a `std::any` keeps outside.
pub perform_all-spec_all :
    (is_inline : ℕ → Bool) (ops : List Operation) (c : ℕ)
    → AllAllowed is_inline ops (λ c. none)
    → read (perform_all is_inline ops start) c ≡ spec_all ops (λ c. none) c
perform_all-spec_all is_inline ops c allowed =
    let a = perform_all-Agrees is_inline ops start-Agrees allowed in
    read_holding a.owned c ∙ sym (a.same c)

-- A buffer in use is one container's, and of no other.
pub record IsExclusive (m : Memory) : Type 0 where
  pub held : (n : ℕ) → m.in_use n ≡ true → (c : ℕ) × ((m.containers c).buffer_flag ≡ some n)
  pub alone :
      (c d n : ℕ)
      → (m.containers c).buffer_flag ≡ some n
      → (m.containers d).buffer_flag ≡ some n
      → c ≡ d

in_buffer_of :
    (v : Holding) (n : ℕ)
    → (as_container v).buffer_flag ≡ some n
    → (t : List ℕ) × (v ≡ in_buffer n t)
in_buffer_of nothing n e = absurd (cc)
in_buffer_of (in_buffer k t) n e = (t, cc)
in_buffer_of (on_heap k t) n e = absurd (cc)

Owned-IsExclusive : {m : Memory} {h : ℕ → Holding} → Owned m h → IsExclusive m
Owned-IsExclusive {m} {h} o = record {
  held = λ n e. let (c, t, f) = o.used n e in (c, rw (o.shape c, f) refl);
  alone = λ c d n e f.
      let (t, g) = in_buffer_of (h c) n (rw (← o.shape c) e) in
      let (u, k) = in_buffer_of (h d) n (rw (← o.shape d) f) in o.alone c d n t u g k;
}

-- After every such sequence each buffer in use is one container's, and of no other.
pub perform_all-IsExclusive :
    (is_inline : ℕ → Bool) (ops : List Operation)
    → AllAllowed is_inline ops (λ c. none)
    → IsExclusive (perform_all is_inline ops start)
perform_all-IsExclusive is_inline ops allowed =
    Owned-IsExclusive (perform_all-Agrees is_inline ops start-Agrees allowed).owned
