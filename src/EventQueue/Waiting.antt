-- ===== src/EventQueue/Waiting.antt =====
-- Applications/Event/EventQueue.cpp, `waitForEvents`: the list of waiting threads.
use abstraction_layer.Prelude.{
  ℕ, suc, ◌≡◌, ap, ◌∙◌, subst, some, List, [], ◌∷◌, arith, ◌==◌, set, Option-cases, Bool-cases, inl,
  inr,
}
use abstraction_layer.Error.{is_success}
use abstraction_layer.EventQueue.{
  EventQueue, CurrentThread, Block, null_id, free_place, wait_for_events,
}

-- Taking the free place and giving it back changes nothing.
free_place_back : (ts : List ℕ) (i t : ℕ) → free_place ts ≡ some i → set (set ts i t) i null_id ≡ ts
unfolding free_place
free_place_back [] i t e = cc
free_place_back (x ∷ ts) i t e = elim (Bool-cases (x == null_id)) [
  | inl free ↦
      subst (λ k. set (set (x ∷ ts) k t) k null_id ≡ x ∷ ts) {x = 0} (ground (arith, free))
        (ap (λ y. y ∷ ts) (ground (arith, free)))
  | inr held ↦ elim (Option-cases (free_place ts)) [
    | inl full ↦ absurd (ground (arith, held, full))
    | inr (k, found) ↦
        subst (λ k. set (set (x ∷ ts) k t) k null_id ≡ x ∷ ts) {x = suc k}
          (ground (arith, held, found)) (ap (◌∷◌ x) (free_place_back ts k t found))
  ]
]

module _ {W : Type 0} where
  -- If other threads leave the list of waiting threads alone while the caller is blocked, then
  -- `waitForEvents` leaves it as it found it, on success and on every error.
  pub wait_for_events_restores :
      (me : CurrentThread) (block : Block W) (q : EventQueue W) (w : W)
      → ((p : EventQueue W) (v : W) → (block p v).1.waiting_threads ≡ p.waiting_threads)
      → (wait_for_events me block q w).1.waiting_threads ≡ q.waiting_threads
  unfolding wait_for_events
  wait_for_events_restores me block q w quiet = elim (Bool-cases (is_success me.error)) [
    | inr unknown ↦ rw unknown
    | inl known ↦ elim (Option-cases (free_place q.waiting_threads)) [
      | inl full ↦ rw (known, full)
      | inr (i, found) ↦
          rw (known, found)
            (ap (λ ts. set ts i null_id)
                (quiet (record q { waiting_threads = set q.waiting_threads i me.id }) w)
              ∙ free_place_back q.waiting_threads i me.id found)
    ]
  ]
