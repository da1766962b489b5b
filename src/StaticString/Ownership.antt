-- ===== src/StaticString/Ownership.antt =====
-- Utilities/StaticString.hpp, `Container`: which container has which buffer.
use abstraction_layer.Prelude.{
  ℕ, ◌+◌, ◌≡◌, ◌≢◌, inl, inr, refl, ap, ◌∙◌, Bool, true, false, not, Bool-cases, Option, none, some,
  List, ◌==◌, ==_self, ==_ne, if◌then◌else◌, arith,
}
use abstraction_layer.StaticString.{
  buffer, heap, Container, empty, Memory, start, update, read, dereference, set, construct, reset,
  destruct, move, take_over,
}

-- What a container holds: nothing, the object in the buffer of a size, or one that was allocated.
pub data Holding : Type 0 where
  nothing : Holding
  in_buffer : ℕ → List ℕ → Holding
  on_heap : ℕ → List ℕ → Holding

abbrev pub as_container : Holding → Container
as_container nothing = empty
as_container (in_buffer n t) = record {
  any_data = none;
  data_ptr = some (buffer n);
  destroy = some n;
  buffer_flag = some n;
}
as_container (on_heap k t) = record {
  any_data = some (record { place = heap k; text = t });
  data_ptr = some (heap k);
  destroy = none;
  buffer_flag = none;
}

abbrev pub text_of : Holding → Option (List ℕ)
text_of nothing = none
text_of (in_buffer n t) = some t
text_of (on_heap k t) = some t

-- Each container has the fields for what it holds; a buffer that is held is in use and has the text; no
-- two containers hold one buffer; and a buffer in use is held by a container.
pub record Owned (m : Memory) (h : ℕ → Holding) : Type 0 where
  pub shape : (c : ℕ) → m.containers c ≡ as_container (h c)
  pub filled :
      (c n : ℕ) (t : List ℕ) → h c ≡ in_buffer n t → (m.in_use n ≡ true) × (m.contents n ≡ some t)
  pub alone : (c d n : ℕ) (t u : List ℕ) → h c ≡ in_buffer n t → h d ≡ in_buffer n u → c ≡ d
  pub used : (n : ℕ) → m.in_use n ≡ true → (c : ℕ) × (t : List ℕ) × (h c ≡ in_buffer n t)

pub start-Owned : Owned start (λ c. nothing)
start-Owned = record {
  shape = λ c. refl;
  filled = λ c n t e. cc;
  alone = λ c d n t u e f. cc;
  used = λ n e. absurd (cc);
}

pub read_holding : {m : Memory} {h : ℕ → Holding} → Owned m h → (c : ℕ) → read m c ≡ text_of (h c)
unfolding read
read_holding {m} {h} o c = held (h c) refl
  where
    held :
        (v : Holding)
        → h c ≡ v
        → dereference m (m.containers c) (m.containers c).data_ptr ≡ text_of (h c)
    held nothing e = rw (o.shape c, e) refl
    held (in_buffer n t) e = rw (o.shape c, e) (o.filled c n t e).1
    held (on_heap k t) e = rw (o.shape c, e, ==_self k) refl

-- A container gives up what it holds.
emptied :
    {m : Memory} {h : ℕ → Holding} (c n : ℕ) (t : List ℕ)
    → Owned m h
    → h c ≡ in_buffer n t
    → Owned
        (record m {
          containers = update m.containers c empty;
          contents = update m.contents n none;
          in_use = update m.in_use n false;
        })
        (update h c nothing)
emptied {m} {h} c n t o e = record {
  shape = λ d. ground (arith, o.shape d);
  filled = λ d k u f. ground (arith, o.filled d k u, o.alone d c n u t);
  alone = λ d d' k u u' f f'. ground (arith, o.alone d d' k u u');
  used = λ k f. let (d, u, g) = o.used k (ground (arith, f)) in (d, u, ground (arith, e, f, g));
}

vacated :
    {m : Memory} {h : ℕ → Holding} (c : ℕ)
    → Owned m h
    → ((n : ℕ) (t : List ℕ) → h c ≢ in_buffer n t)
    → Owned (record m { containers = update m.containers c empty }) (update h c nothing)
vacated {m} {h} c o e = record {
  shape = λ d. ground (arith, o.shape d);
  filled = λ d k u f. ground (arith, o.filled d k u);
  alone = λ d d' k u u' f f'. ground (arith, o.alone d d' k u u');
  used = λ k f. let (d, u, g) = o.used k f in (d, u, ground (arith, e k u, g));
}

pub reset-Owned :
    {m : Memory} {h : ℕ → Holding} (c : ℕ) → Owned m h → Owned (reset c m) (update h c nothing)
unfolding reset
reset-Owned {m} {h} c o = held (h c) refl
  where
    held : (v : Holding) → h c ≡ v → Owned (reset c m) (update h c nothing)
    held nothing e = rw (o.shape c, e) (vacated c o (λ n t f. cc))
    held (in_buffer n t) e = rw (o.shape c, e) (emptied c n t o e)
    held (on_heap k t) e = rw (o.shape c, e) (vacated c o (λ n t f. cc))

pub destruct-Owned :
    {m : Memory} {h : ℕ → Holding} (c : ℕ) → Owned m h → Owned (destruct c m) (update h c nothing)
unfolding destruct
destruct-Owned {m} {h} c o = held (h c) refl
  where
    held : (v : Holding) → h c ≡ v → Owned (destruct c m) (update h c nothing)
    held nothing e = rw (o.shape c, e) (vacated c o (λ n t f. cc))
    held (in_buffer n t) e = rw (o.shape c, e) (emptied c n t o e)
    held (on_heap k t) e = rw (o.shape c, e) (vacated c o (λ n t f. cc))

-- The container of the first number gets what the second holds.
transferred :
    {m : Memory} {h : ℕ → Holding} (c d : ℕ)
    → Owned m h
    → h c ≡ nothing
    → c ≢ d
    → Owned
        (record m { containers = update (update m.containers c (as_container (h d))) d empty })
        (update (update h c (h d)) d nothing)
transferred {m} {h} c d o e other = record {
  shape = λ x. ground (arith, o.shape x, o.shape d);
  filled = λ x k u f. ground (arith, o.filled x k u, o.filled d k u);
  alone =
      λ x y k u v f g. ground (arith, o.alone x y k u v, o.alone d y k u v, o.alone x d k u v, e);
  used = λ k f.
      let (x, u, g) = o.used k f in (if x == d then c else x, u, ground (arith, e, g, other));
}

take_over_lem : (c : ℕ) (v : Holding) → take_over c empty (as_container v) ≡ as_container v
take_over_lem c nothing = refl
take_over_lem c (in_buffer n t) = refl
take_over_lem c (on_heap k t) = refl

pub move-Owned :
    {m : Memory} {h : ℕ → Holding} (c d : ℕ)
    → Owned m h
    → c ≢ d
    → Owned (move c d m) (update (update (update h c nothing) c (h d)) d nothing)
unfolding move
move-Owned {m} {h} c d o other =
    let o' = reset-Owned c o in
    let same : m.containers d ≡ as_container (h d) = o.shape d in
    let there : update h c nothing d ≡ h d = ground (arith, other) in
    let gone : update h c nothing c ≡ nothing = ground arith in
    let vacant : (reset c m).containers c ≡ empty = o'.shape c ∙ ap as_container gone in
    rw (==_ne c d other, vacant, same, take_over_lem c (h d), ← there)
      (transferred c d o' gone other)

-- The buffer is free, and the container takes it.
took :
    {m : Memory} {h : ℕ → Holding} (c n : ℕ) (t : List ℕ)
    → Owned m h
    → h c ≡ nothing
    → m.in_use n ≡ false
    → Owned
        (record m {
          in_use = update m.in_use n true;
          contents = update m.contents n (some t);
          containers = update m.containers c (as_container (in_buffer n t));
        })
        (update h c (in_buffer n t))
took {m} {h} c n t o e free = record {
  shape = λ d. ground (arith, o.shape d);
  filled = λ d k u f. ground (arith, o.filled d k u);
  alone = λ d d' k u u' f f'. ground (arith, o.alone d d' k u u', o.filled d k u, o.filled d' k u');
  used = λ k f. elim (Bool-cases (k == n)) [
    | inl same ↦ (c, t, ground (arith, same))
    | inr new ↦ let (d, u, g) = o.used k (ground (arith, f, new)) in (d, u, ground (arith, e, g))
  ];
}

-- The buffer is in use, and an object is allocated.
allocated :
    {m : Memory} {h : ℕ → Holding} (c k : ℕ) (t : List ℕ)
    → Owned m h
    → h c ≡ nothing
    → Owned
        (record m {
          allocations = m.allocations + 1;
          containers = update m.containers c (as_container (on_heap k t));
        })
        (update h c (on_heap k t))
allocated {m} {h} c k t o e = record {
  shape = λ d. ground (arith, o.shape d);
  filled = λ d n u f. ground (arith, o.filled d n u);
  alone = λ d d' n u u' f f'. ground (arith, o.alone d d' n u u');
  used = λ n f. let (d, u, g) = o.used n f in (d, u, ground (arith, e, g));
}

-- What a new container of a size holds.
abbrev pub new_holding : Memory → ℕ → List ℕ → Holding
new_holding m n t = if not (m.in_use n) then in_buffer n t else on_heap m.allocations t

pub construct-Owned :
    {m : Memory} {h : ℕ → Holding} (is_inline : ℕ → Bool) (c n : ℕ) (t : List ℕ)
    → Owned m h
    → h c ≡ nothing
    → is_inline n ≡ false
    → Owned (construct is_inline c n t m) (update (update h c nothing) c (new_holding m n t))
unfolding construct set
construct-Owned {m} {h} is_inline c n t o e outside =
    let o' = vacated c o (λ k u f. cc) in
    let gone : update h c nothing c ≡ nothing = ground arith in
    elim (Bool-cases (m.in_use n)) [
      | inl busy ↦ rw (busy, outside) (allocated c m.allocations t o' gone)
      | inr free ↦ rw (free, ==_self c) (took c n t o' gone free)
    ]
