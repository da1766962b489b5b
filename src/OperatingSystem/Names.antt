-- ===== src/OperatingSystem/Names.antt =====
-- Modules/OperatingSystem/Linux/OperatingSystemModule.cpp: threads found by their name, after
-- `createThread` and `deleteThread`.
use abstraction_layer.Prelude.{
  ℕ, ◌<◌, ◌≡◌, refl, sym, subst, ap, ◌∙◌, true, false, ◌&&◌, none, some, List, arith, dec32, inc32,
  length, get_or, set, length-set, get_or-set_self, get_or-set_ne, lt→ltb,
}
use abstraction_layer.Error.{success, negative}
use abstraction_layer.OperatingSystem.{
  OperatingSystem, Thread, ThreadStatus, same_name, equal_name, is_terminated, find_if, no_thread,
  thread_at, add_thread, new_thread, thread_id, delete_thread, create_thread, is_deleted,
}
use abstraction_layer.OperatingSystem.Find.{
  find_if-first, same_name_self, equal_name_self, another, set-set, OnlyHere, find_by_name,
  find_terminated, find_terminated_none, thread_id-some, delete_thread-some, is_deleted-some,
}

-- The table after a successful `createThread`.
abbrev pub created : List ℕ → OperatingSystem → OperatingSystem
created name os = record (add_thread name os) {
  next_thread_id = inc32 os.next_thread_id;
  thread_count = length os.threads;
}

-- The next thread has a place in the table.
abbrev pub HasRoom : OperatingSystem → Type 0
HasRoom os = dec32 os.next_thread_id < length os.threads

create_thread-created :
    (name : List ℕ) (os : OperatingSystem)
    → HasRoom os
    → create_thread name success os ≡ some (success, some os.next_thread_id, created name os)
unfolding create_thread
create_thread-created name os room =
    rw (lt→ltb (dec32 os.next_thread_id) (length os.threads) room) refl

module _ (name : List ℕ) (os : OperatingSystem) (room : HasRoom os) where
  inside : dec32 os.next_thread_id < length (created name os).threads
  inside =
      subst (λ n. dec32 os.next_thread_id < n)
        (sym (length-set os.threads (dec32 os.next_thread_id) (new_thread name os.next_thread_id)))
        room

  new_at : thread_at (created name os) (dec32 os.next_thread_id) ≡ new_thread name os.next_thread_id
  new_at = get_or-set_self os.threads (dec32 os.next_thread_id) _ no_thread room

  old_at : (j : ℕ) → j < dec32 os.next_thread_id → thread_at (created name os) j ≡ thread_at os j
  old_at j h =
      get_or-set_ne os.threads (dec32 os.next_thread_id) j _ no_thread (λ e. omega (arith, e, h))

  -- If a deleted thread of the table has the name already, `threadId` still returns the identity of
  -- the deleted thread, and `isDeleted` says yes, although the new thread runs.
  pub create_thread_again :
      (j : ℕ)
      → j < dec32 os.next_thread_id
      → (thread_at os j).name ≡ name
      → is_terminated (thread_at os j).status ≡ true
      → ((k : ℕ) → k < j → same_name (thread_at os k).name name ≡ false)
      → let os' = created name os in
        (create_thread name success os ≡ some (success, some os.next_thread_id, os'))
        × (thread_id name os' ≡ (success, some (thread_at os j).thread_id))
        × (is_deleted name os' ≡ success)
  unfolding thread_id is_deleted
  create_thread_again j before same dead fresh = (
    create_thread-created name os room,
    thread_id-some name (created name os) j by_name ∙ ap (λ t. (success, some t.thread_id)) here,
    is_deleted-some name (created name os) j (some j) by_name terminated,
  )
    where
      here : thread_at (created name os) j ≡ thread_at os j
      here = old_at j before

      earlier : (k : ℕ) → k < j → same_name (thread_at (created name os) k).name name ≡ false
      earlier k h = rw (old_at k (omega (arith, h, before))) (fresh k h)

      by_name : find_if (λ t. same_name t.name name) (created name os).threads ≡ some j
      by_name =
          find_if-first (λ t. same_name t.name name) (created name os).threads j
            (omega (arith, before, inside)) (rw (here, same) (same_name_self name)) earlier

      terminated :
          find_if (λ t. is_terminated t.status && equal_name t.name name) (created name os).threads
          ≡ some j
      terminated =
          find_if-first (λ t. is_terminated t.status && equal_name t.name name)
            (created name os).threads j (omega (arith, before, inside))
            (rw (here, dead, same) (equal_name_self name))
            (λ k h. another _ (thread_at (created name os) k).name name (earlier k h))

module _ (name : List ℕ) (os : OperatingSystem) (room : HasRoom os) where
  -- The name is on no thread of the table.
  abbrev pub IsFresh : Type 0
  IsFresh = (j : ℕ) → j < length os.threads → same_name (thread_at os j).name name ≡ false

  abbrev place : ℕ
  place = dec32 os.next_thread_id

  abbrev placed : Thread → List Thread
  placed t = set os.threads place t

  within : (t : Thread) → place < length (placed t)
  within t = subst (λ n. place < n) (sym (length-set os.threads place t)) room

  placed_at : (t : Thread) → get_or (placed t) place no_thread ≡ t
  placed_at t = get_or-set_self os.threads place t no_thread room

  only : (t : Thread) → IsFresh → OnlyHere name (placed t) place (within t)
  only t fresh j h other =
      rw (get_or-set_ne os.threads place j t no_thread (λ e. other (sym e)))
        (fresh j (subst (λ n. j < n) (length-set os.threads place t) h))

  found_at :
      (t : Thread)
      → IsFresh
      → t.name ≡ name
      → find_if (λ t. same_name t.name name) (placed t) ≡ some place
  found_at t fresh e =
      find_by_name name (placed t) place (within t) (only t fresh) (rw (placed_at t) e)

  dead : Thread → Thread
  dead t = record t { status = ThreadStatus.terminated }

  deleted_threads :
      IsFresh
      → (delete_thread name (created name os)).1.threads
        ≡ placed (dead (new_thread name os.next_thread_id))
  unfolding dead
  deleted_threads fresh =
      delete_thread-some name (created name os) place (found_at _ fresh refl)
      ∙ rw (placed_at (new_thread name os.next_thread_id)) (set-set os.threads place _ _)

  deleted : IsFresh → is_deleted name (delete_thread name (created name os)).1 ≡ success
  unfolding dead
  deleted fresh =
      is_deleted-some name (delete_thread name (created name os)).1 place (some place)
        (rw (deleted_threads fresh) (found_at _ fresh refl))
        (rw (deleted_threads fresh) (
          find_terminated name (placed _) place (within _) (only _ fresh)
            (rw (placed_at (dead (new_thread name os.next_thread_id))) refl)
            (rw (placed_at (dead (new_thread name os.next_thread_id))) refl)))

  -- A name that no thread of the table has yet is given to the new thread: `createThread` returns the
  -- next identity, `threadId` finds it by the name, and `isDeleted` says no; once `deleteThread` has
  -- been called with that name, `isDeleted` says yes.
  pub create_thread_found :
      IsFresh
      → let os' = created name os in
        (create_thread name success os ≡ some (success, some os.next_thread_id, os'))
        × (thread_id name os' ≡ (success, some os.next_thread_id))
        × (is_deleted name os' ≡ negative)
        × (is_deleted name (delete_thread name os').1 ≡ success)
  create_thread_found fresh = (
    create_thread-created name os room,
    thread_id-some name (created name os) place (found_at t fresh refl)
        ∙ ap (λ t. (success, some t.thread_id)) (placed_at t),
    is_deleted-some name (created name os) place none (found_at t fresh refl) (
        find_terminated_none name (placed t) place (within t) (only t fresh)
          (rw (placed_at t) refl)),
    deleted fresh,
  )
    where
      t : Thread
      t = new_thread name os.next_thread_id
