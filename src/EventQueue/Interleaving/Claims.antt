-- ===== src/EventQueue/Interleaving/Claims.antt =====
-- Applications/Event/EventQueue.cpp, `addEventIfNotFull`: the load and the increment of
-- `_eventsClaimed` are two steps. How far the count can go past the array's size between them.
use abstraction_layer.Prelude.{
  ℕ, zero, suc, ◌+◌, ◌≤◌, ◌<◌, ◌≡◌, refl, ◌∙◌, inl, inr, List, [], ◌∷◌, map, arith, ltb, inc32,
  length, get_or, set, length-set, Bool-cases, ltb→lt,
}
use abstraction_layer.EventQueue.Interleaving.{
  Shared, Producer, loads_claimed, adds_claimed, takes_index, writes_event, sets_ready, finished,
  refused, System, by_producer, produce, step, run,
}

-- 1 for a producer that has passed the test and has not counted itself yet.
abbrev has_passed : Producer → ℕ
has_passed (adds_claimed e) = 1
has_passed _ = 0

abbrev pub passed : List Producer → ℕ
passed [] = 0
passed (p ∷ ps) = has_passed p + passed ps

passed-set :
    (ps : List Producer) (t : ℕ) (p : Producer)
    → passed (set ps t p) + has_passed (get_or ps t finished) ≤ passed ps + has_passed p
passed-set [] t p = omega arith
passed-set (q ∷ ps) zero p = omega arith
passed-set (q ∷ ps) (suc t) p = omega (arith, passed-set ps t p)

passed-le : (ps : List Producer) → passed ps ≤ length ps
passed-le [] = omega arith
passed-le (adds_claimed e ∷ ps) = omega (arith, passed-le ps)
passed-le (_ ∷ ps) = omega (arith, passed-le ps)

-- A producer that has yet to test is not among those that have passed.
passed-lt :
    (ps : List Producer) (t e : ℕ) → get_or ps t finished ≡ loads_claimed e → passed ps < length ps
passed-lt [] t e h = absurd (cc)
passed-lt (p ∷ ps) zero e h = rw h (omega (arith, passed-le ps))
passed-lt (adds_claimed a ∷ ps) (suc t) e h = omega (arith, passed-lt ps t e h)
passed-lt (_ ∷ ps) (suc t) e h = omega (arith, passed-lt ps t e h)

-- The room that is left for the claims that have passed the test.
pub record WithinClaims (n threads : ℕ) (s : System) : Type 0 where
  pub events_size : length s.shared.events ≡ n
  pub producers_size : length s.producers ≡ threads
  pub claims : s.shared.events_claimed + passed s.producers + 1 ≤ n + threads

inc32-le : (a : ℕ) → inc32 a ≤ a + 1
inc32-le a = omega arith

module _ (n threads : ℕ) (s : System) (v : WithinClaims n threads s) (t : ℕ) where
  -- A step that leaves the array's size alone keeps the room, if the claims and those that have
  -- passed do not grow in sum.
  within :
      (p : Producer) (shared : Shared)
      → length shared.events ≡ n
      → shared.events_claimed + has_passed p
        ≤ s.shared.events_claimed + has_passed (get_or s.producers t finished)
      → WithinClaims n threads (record s { shared = shared; producers = set s.producers t p })
  within p shared size no_more = record {
    events_size = size;
    producers_size = length-set s.producers t p ∙ v.producers_size;
    claims = omega (arith, v.claims, no_more, passed-set s.producers t p);
  }

  -- A producer passes the test only below the array's size.
  passes :
      (e : ℕ)
      → get_or s.producers t finished ≡ loads_claimed e
      → s.shared.events_claimed < length s.shared.events
      → WithinClaims n threads
          (record s { shared = s.shared; producers = set s.producers t (adds_claimed e) })
  passes e h room = record {
    events_size = v.events_size;
    producers_size = length-set s.producers t _ ∙ v.producers_size;
    claims = omega (
      arith,
      v.events_size,
      v.producers_size,
      room,
      passed-set s.producers t (adds_claimed e),
      passed-lt s.producers t e h,
    );
  }

  moved :
      (p : Producer)
      → get_or s.producers t finished ≡ p
      → let r = produce p s.shared in
        WithinClaims n threads (record s { shared = r.1; producers = set s.producers t r.0 })
  unfolding produce
  moved (loads_claimed e) h =
      elim (Bool-cases (ltb s.shared.events_claimed (length s.shared.events))) [
        | inl room ↦ rw (room, produce) (passes e h (ltb→lt _ _ room))
        | inr full ↦ rw (full, produce) (within refused s.shared v.events_size (omega arith))
      ]
  moved (adds_claimed e) h =
      within _ _ v.events_size (rw h (omega (arith, inc32-le s.shared.events_claimed)))
  moved (takes_index e) h = within _ _ v.events_size (omega arith)
  moved (writes_event i e) h =
      within _ _ (length-set s.shared.events i _ ∙ v.events_size) (omega arith)
  moved sets_ready h = within _ _ v.events_size (omega arith)
  moved finished h = within _ _ v.events_size (omega arith)
  moved refused h = within _ _ v.events_size (omega arith)

  produce-WithinClaims : WithinClaims n threads (step s (by_producer t))
  unfolding step
  produce-WithinClaims = moved (get_or s.producers t finished) refl

produces-WithinClaims :
    (n threads : ℕ) (s : System) (ts : List ℕ)
    → WithinClaims n threads s
    → WithinClaims n threads (run s (map by_producer ts))
unfolding run
produces-WithinClaims n threads s [] v = v
produces-WithinClaims n threads s (t ∷ ts) v =
    produces-WithinClaims n threads (step s (by_producer t)) ts
      (produce-WithinClaims n threads s v t)

-- While the owner runs nothing, the count of claimed events passes the array's size by less than the
-- number of producers, in whatever order these take their steps.
pub claims_bounded :
    (s : System) (ts : List ℕ)
    → passed s.producers ≡ 0
    → s.shared.events_claimed ≤ length s.shared.events
    → 0 < length s.producers
    → (run s (map by_producer ts)).shared.events_claimed
      < length s.shared.events + length s.producers
claims_bounded s ts none_passed fits some_producer =
    omega (
      arith,
      (produces-WithinClaims (length s.shared.events) (length s.producers) s ts start).claims,
    )
  where
    start : WithinClaims (length s.shared.events) (length s.producers) s
    start = record { events_size = refl; producers_size = refl; claims = omega arith }
