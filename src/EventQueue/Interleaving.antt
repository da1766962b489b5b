-- ===== src/EventQueue/Interleaving.antt =====
-- Applications/Event/EventQueue.cpp: `addEvent` by several threads and `runNextEvent` by the owner,
-- cut into the reads and writes of the shared members. A schedule says whose step comes next.
-- An event is a number here, and `none` is the null callback. The caller is foreign to the queue, so
-- that `addEvent` queues. A failed compare-and-exchange repeats, so the loop is one step.
-- `addEvent` ends by unblocking threads, which touches none of these members.
pub mod Claims
pub mod Races
use abstraction_layer.Prelude.{
  ℕ, zero, suc, ◌+◌, ◌-◌, ◌%◌, ◌≤◌, ◌<◌, ◌≡◌, refl, ap, ◌∙◌, Bool, true, false, not, Option, none,
  some, List, [], ◌∷◌, ◌++◌, arith, ltb, ◌==◌, if◌then◌else◌, u32, inc32, dec32, length, get_or,
  set, replicate,
}

pub record Shared : Type 0 where
  pub events : List (Option ℕ)
  pub index_first : ℕ
  pub index_last : ℕ
  pub events_claimed : ℕ
  pub events_ready : Bool

-- Where a producer of an event stands in `addEvent`, by the next thing that it does.
pub data Producer : Type 0 where
  loads_claimed adds_claimed takes_index : ℕ → Producer
  writes_event : ℕ → ℕ → Producer
  sets_ready finished refused : Producer

-- Where the owner stands in `runNextEvent`. The last load and the store are two steps.
pub data Consumer : Type 0 where
  tests_ready runs_first subtracts_claimed moves_first loads_last : Consumer
  stores_ready : Bool → Consumer

pub produce : Producer → Shared → Producer × Shared
produce (loads_claimed e) s =
    if ltb s.events_claimed (length s.events) then (adds_claimed e, s) else (refused, s)
produce (adds_claimed e) s = (takes_index e, record s { events_claimed = inc32 s.events_claimed })
produce (takes_index e) s =
    (writes_event s.index_last e, record s { index_last = (s.index_last + 1) % length s.events })
produce (writes_event i e) s = (sets_ready, record s { events = set s.events i (some e) })
produce sets_ready s = (finished, record s { events_ready = true })
produce finished s = (finished, s)
produce refused s = (refused, s)

-- The owner's step, and the event that it ran, if it ran one.
pub consume : Consumer → Shared → Consumer × Shared × List (Option ℕ)
consume tests_ready s = (if s.events_ready then runs_first else tests_ready, s, [])
consume runs_first s = (
  subtracts_claimed,
  record s { events = set s.events s.index_first none },
  get_or s.events s.index_first none ∷ [],
)
consume subtracts_claimed s =
    (moves_first, record s { events_claimed = dec32 s.events_claimed }, [])
consume moves_first s =
    (loads_last, record s { index_first = (s.index_first + 1) % length s.events }, [])
consume loads_last s = (stores_ready (not (s.index_first == s.index_last)), s, [])
consume (stores_ready b) s = (tests_ready, record s { events_ready = b }, [])

pub record System : Type 0 where
  pub shared : Shared
  pub producers : List Producer
  pub consumer : Consumer
  pub ran : List (Option ℕ)

pub data Move : Type 0 where
  by_producer : ℕ → Move
  by_consumer : Move

pub step : System → Move → System
unfolding produce consume
step s (by_producer t) =
    let (p, shared) = produce (get_or s.producers t finished) s.shared in
    record s { shared = shared; producers = set s.producers t p }
step s by_consumer =
    let (c, shared, ran) = consume s.consumer s.shared in
    record s { shared = shared; consumer = c; ran = s.ran ++ ran }

unfoldable pub run : System → List Move → System
unfolding step
run s [] = s
run s (m ∷ ms) = run (step s m) ms
