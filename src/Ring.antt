-- ===== src/Ring.antt =====
-- What the two ring buffers (Applications/Event, Applications/CommandQueue) share: the slots
-- between a first index and a count, read in order, with indices taken modulo the array's size.
use native.Mathlib.Nat.{mod-eq_of_lt, mod-eq-sub-mod, mod-add-mod}
use native.Mathlib.Decide.{dec_lt}
use abstraction_layer.Prelude.{
  ℕ, zero, suc, ◌+◌, ◌-◌, ◌%◌, ◌≤◌, ◌<◌, ◌≡◌, ◌≢◌, ◌⊎◌, inl, inr, refl, ap, ap₂, sym, subst, ◌∙◌,
  List, [], ◌∷◌, ◌++◌, arith, length, get_or, set, get_or-set_self, get_or-set_ne,
}

-- The index after `i` in a ring of `n` slots.
abbrev pub next_index : ℕ → ℕ → ℕ
next_index n i = (i + 1) % n

-- The ring index `k` places after `i`, without a remainder.
pub offset_cases :
    (n i k : ℕ)
    → i < n
    → k ≤ n
    → ((i + k < n) × ((i + k) % n ≡ i + k)) ⊎ ((n ≤ i + k) × ((i + k) % n ≡ i + k - n))
offset_cases n i k hi hk = elim (dec_lt (i + k) n) [
  | yes below ↦ inl (below, mod-eq_of_lt below)
  | no past ↦ inr (omega arith, mod-eq-sub-mod (omega arith) ∙ mod-eq_of_lt (omega arith))
]

pub next_index-lt : (n i : ℕ) → i < n → next_index n i < n
next_index-lt n i h = omega (arith, offset_cases n i 1)

-- Going one step and then `k` more is going `k + 1`.
pub next_index-offset : (n i k : ℕ) → i < n → k < n → (next_index n i + k) % n ≡ (i + suc k) % n
next_index-offset n i k hi hk = omega (
  arith,
  offset_cases n i 1,
  offset_cases n (next_index n i) k,
  offset_cases n i (suc k),
  next_index-lt n i,
)

-- Places further on in the ring are other slots.
pub offset-ne : (n i k : ℕ) → i < n → 0 < k → k < n → (i + k) % n ≢ i
offset-ne n i k hi h hk = omega (arith, offset_cases n i k)

module _ {ℓ} {A : Type ℓ} (d : A) (n : ℕ) where
  -- The `count` slots from index `i` on.
  unfoldable pub window : List A → ℕ → ℕ → List A
  window xs i zero = []
  window xs i (suc count) = get_or xs i d ∷ window xs (next_index n i) count

  pub length-window : (xs : List A) (i count : ℕ) → length (window xs i count) ≡ count
  unfolding window
  length-window xs i zero = refl
  length-window xs i (suc count) = ap suc (length-window xs (next_index n i) count)

  -- A write just past the window leaves it alone.
  pub window-set_past :
      (xs : List A) (i count k : ℕ) (v : A)
      → i < n
      → count ≤ k
      → k < n
      → window (set xs ((i + k) % n) v) i count ≡ window xs i count
  unfolding window
  window-set_past xs i zero k v hi hc hk = refl
  window-set_past xs i (suc count) zero v hi hc hk = absurd (omega arith)
  window-set_past xs i (suc count) (suc k) v hi hc hk =
      ap₂ ◌∷◌ (get_or-set_ne xs ((i + suc k) % n) i v d (offset-ne n i (suc k) hi (omega arith) hk))
        (subst (λ p. window (set xs p v) (next_index n i) count ≡ window xs (next_index n i) count)
          (next_index-offset n i k hi (omega arith))
          (window-set_past xs (next_index n i) count k v (next_index-lt n i hi) (omega arith)
            (omega arith)))

  -- A write just past the window adds the value at the end.
  pub window-set :
      (xs : List A) (i count : ℕ) (v : A)
      → length xs ≡ n
      → i < n
      → count < n
      → window (set xs ((i + count) % n) v) i (suc count) ≡ window xs i count ++ v ∷ []
  unfolding window
  window-set xs i zero v e hi hc = rw (start, get_or-set_self xs i v d (omega arith))
    where
      start : (i + 0) % n ≡ i
      start = omega (arith, offset_cases n i 0)
  window-set xs i (suc count) v e hi hc =
      ap₂ ◌∷◌
        (get_or-set_ne xs ((i + suc count) % n) i v d
          (offset-ne n i (suc count) hi (omega arith) hc))
        (subst
          (λ p.
            window (set xs p v) (next_index n i) (suc count)
            ≡ window xs (next_index n i) count ++ v ∷ [])
          (next_index-offset n i count hi (omega arith))
          (window-set xs (next_index n i) count v e (next_index-lt n i hi) (omega arith)))

-- The steps of a producer and of a consumer, for arrays and counters given by equations.
module _ {ℓ} {A : Type ℓ} (d : A) where
  pub window-push :
      (xs : List A) (n n' i count count' last : ℕ) (v : A)
      → length xs ≡ n
      → n' ≡ n
      → count' ≡ suc count
      → last ≡ (i + count) % n
      → i < n
      → count < n
      → window d n' (set xs last v) i count' ≡ window d n xs i count ++ v ∷ []
  window-push xs n n' i count count' last v e en ec el hi hc =
      rw (en, ec, el) (window-set d n xs i count v e hi hc)

  -- The oldest element leaves, and its slot is overwritten.
  pub window-pop :
      (xs : List A) (n n' i count count' : ℕ) (v : A)
      → n' ≡ n
      → count ≡ suc count'
      → i < n
      → count ≤ n
      → window d n xs i count ≡ get_or xs i d ∷ window d n' (set xs i v) (next_index n i) count'
  unfolding window
  window-pop xs n n' i count count' v en ec hi hc =
      rw (en, ec)
        (ap (◌∷◌ (get_or xs i d)) (
          sym (
            subst
              (λ p.
                window d n (set xs p v) (next_index n i) count'
                ≡ window d n xs (next_index n i) count')
              round
              (window-set_past d n xs (next_index n i) count' (n - 1) v (next_index-lt n i hi)
                (omega arith) (omega arith)))))
    where
      round : (next_index n i + (n - 1)) % n ≡ i
      round =
          omega
            (arith, offset_cases n i 1, offset_cases n (next_index n i) (n - 1), next_index-lt n i)

-- The next index after the last is the index after one more.
pub next_index-last : (n i count : ℕ) → ((i + count) % n + 1) % n ≡ (i + suc count) % n
next_index-last n i count = mod-add-mod (i + count) n 1 ∙ ap (λ t. t % n) (omega arith)
