-- ===== src/EventQueue/Laws.antt =====
-- Applications/Event/EventQueue.cpp: the ring's well-formedness, and what each call does to the
-- sequence of events that wait in it.
use abstraction_layer.Prelude.{
  ℕ, suc, ◌+◌, ◌%◌, ◌≤◌, ◌<◌, ◌≡◌, ◌≢◌, refl, ap, ap₂, sym, ◌∙◌, false, ◌&&◌, none, List, [], ◌∷◌,
  ◌++◌, arith, ltb, ◌==◌, u32, inc32, length, set, length-set, length-replicate, lt→ltb, le→ltb,
  ==_iff, ==_ne, replicate,
}
use abstraction_layer.Error.{success, limit_reached}
use abstraction_layer.Ring.{window, window-push, offset_cases, next_index-last}
use abstraction_layer.EventQueue.{
  EventQueue, Event, CurrentThread, null_id, init, max_size, queue_event, save_event, run_now,
  add_event, to_unblock,
}

module _ {W : Type 0} where
  pub record IsValid (q : EventQueue W) : Type 0 where
    pub size_fits : max_size q < u32
    pub first_in : q.index_first < max_size q
    pub claimed_in : q.events_claimed ≤ max_size q
    pub last_is : q.index_last ≡ (q.index_first + q.events_claimed) % max_size q
    pub ready_is : q.events_ready ≡ ltb 0 q.events_claimed

  -- The events that wait, oldest first.
  abbrev pub pending : EventQueue W → List (Event W)
  pending q = window none (max_size q) q.events q.index_first q.events_claimed

  -- The caller is neither the owner nor unknown, and nor is the owner: the event is queued.
  abbrev pub Queues : CurrentThread → EventQueue W → Type 0
  Queues me q =
      ((q.owner_thread_id == me.id) && q.add_event_optimizations_enabled ≡ false)
      × (me.id ≢ null_id)
      × (q.owner_thread_id ≢ null_id)

  pub init-IsValid :
      (n threads : ℕ) (me : CurrentThread) → 0 < n → n < u32 → IsValid (init n threads me)
  unfolding init
  init-IsValid n threads me h fits = record {
    size_fits = omega (arith, sized);
    first_in = omega (arith, sized);
    claimed_in = omega (arith, sized);
    last_is = rw (sized, offset);
    ready_is = refl;
  }
    where
      empty_slot : Event W
      empty_slot = none

      sized : length (replicate n empty_slot) ≡ n
      sized = length-replicate n none

      offset : (0 + 0) % n ≡ 0
      offset = omega (arith, offset_cases n 0 0)

  -- A caller that cannot run the event at once queues it.
  pub add_event-queue_event :
      (me : CurrentThread) (q : EventQueue W) (event : Event W) (w : W)
      → Queues me q
      → add_event me q event w ≡ queue_event q event w
  unfolding add_event
  add_event-queue_event me q event w (other, known, owned) =
      rw
        (
          other,
          ==_ne null_id me.id (λ e. known (sym e)),
          ==_ne null_id q.owner_thread_id (λ e. owned (sym e)),
        )
        refl

  -- The queue after a successful claim and save.
  abbrev pub appended : EventQueue W → Event W → EventQueue W
  appended q event = save_event (record q { events_claimed = inc32 q.events_claimed }) event

  inc-claimed :
      (q : EventQueue W)
      → IsValid q
      → q.events_claimed < max_size q
      → inc32 q.events_claimed ≡ suc q.events_claimed
  inc-claimed q v room = omega (arith, v.size_fits)

  pub appended-IsValid :
      (q : EventQueue W) (event : Event W)
      → IsValid q
      → q.events_claimed < max_size q
      → IsValid (appended q event)
  appended-IsValid q event v room = record {
    size_fits = omega (arith, v.size_fits, sized);
    first_in = omega (arith, v.first_in, sized);
    claimed_in = omega (arith, sized, inc-claimed q v room);
    last_is =
        ap (λ t. (t + 1) % max_size q) v.last_is
        ∙ next_index-last (max_size q) q.index_first q.events_claimed
        ∙ ap₂ (λ c n. (q.index_first + c) % n) (sym (inc-claimed q v room)) (sym sized);
    ready_is = ground (arith, inc-claimed q v room);
  }
    where
      sized : length (set q.events q.index_last event) ≡ max_size q
      sized = length-set q.events q.index_last event

  pub pending-appended :
      (q : EventQueue W) (event : Event W)
      → IsValid q
      → q.events_claimed < max_size q
      → pending (appended q event) ≡ pending q ++ event ∷ []
  pending-appended q event v room =
      window-push none q.events (max_size q) (max_size (appended q event)) q.index_first
        q.events_claimed (inc32 q.events_claimed) q.index_last event refl
        (length-set q.events q.index_last event) (inc-claimed q v room) v.last_is v.first_in room

  -- With room, the event is queued behind all others and every waiting thread is unblocked.
  pub add_event-pending :
      (me : CurrentThread) (q : EventQueue W) (event : Event W) (w : W)
      → IsValid q
      → Queues me q
      → q.events_claimed < max_size q
      → let r = add_event me q event w in
        (r.error ≡ success)
        × IsValid r.queue
        × (pending r.queue ≡ pending q ++ event ∷ [])
        × (r.world ≡ w)
        × (r.unblocked ≡ to_unblock q.waiting_threads)
  unfolding add_event
  add_event-pending me q event w v c room =
      rw (add_event-queue_event me q event w c, lt→ltb q.events_claimed (max_size q) room)
        (refl, appended-IsValid q event v room, pending-appended q event v room, refl, refl)

  -- With no room, the event is refused and nothing changes.
  pub add_event_full :
      (me : CurrentThread) (q : EventQueue W) (event : Event W) (w : W)
      → Queues me q
      → max_size q ≤ q.events_claimed
      → add_event me q event w
        ≡ record { error = limit_reached; queue = q; world = w; unblocked = [] }
  add_event_full me q event w c full =
      rw (add_event-queue_event me q event w c, le→ltb q.events_claimed (max_size q) full)

  -- A caller that owns the queue, or a caller or an owner that is not known, runs the event at once;
  -- the queue stays as it is.
  pub add_event-run_now :
      (me : CurrentThread) (q : EventQueue W) (event : Event W) (w : W)
      → ¬ Queues me q
      → add_event me q event w ≡ run_now q event w
  unfolding add_event
  add_event-run_now me q event w other = ground (arith, ==_iff q.owner_thread_id me.id)
