-- ===== src/OperatingSystem.antt =====
-- Modules/OperatingSystem/Linux/OperatingSystemModule.hpp and .cpp: the table of threads, and the
-- calls that block a thread and wake it. What pthreads return is an argument, as an `ErrorType` that
-- `fromPlatformError` made of it. The memory regions of the status are left out. A name is the bytes of its array; all names have the same length.
pub mod Find
pub mod Names
pub mod Wakeups
pub mod Waiting
pub mod Timers
pub mod Semaphores
mod Examples
use abstraction_layer.Prelude.{
  ℕ, zero, suc, ◌+◌, ◌-◌, Bool, true, false, not, ◌&&◌, Option, none, some, List, [], ◌∷◌, ltb,
  ◌==◌, if◌then◌else◌, inc32, dec32, length, get_or, set,
}
use abstraction_layer.Error.{
  ErrorType, success, failure, no_data, negative, limit_reached, is_success,
}
use abstraction_layer.EventQueue.{null_id}

pub data ThreadStatus : Type 0 where
  unknown blocked terminated active : ThreadStatus

-- `int`; `negsuc n` is -(n + 1).
pub data ℤ : Type 0 where
  pos negsuc : ℕ → ℤ

abbrev pub increment : ℤ → ℤ
increment (pos n) = pos (suc n)
increment (negsuc zero) = pos 0
increment (negsuc (suc n)) = negsuc n

abbrev pub decrement : ℤ → ℤ
decrement (pos zero) = negsuc 0
decrement (pos (suc n)) = pos n
decrement (negsuc n) = negsuc (suc n)

-- `> -1`.
abbrev pub is_natural : ℤ → Bool
is_natural (pos n) = true
is_natural (negsuc n) = false

-- Without the mutex, the condition variable and the platform's own number.
pub record Thread : Type 0 where
  pub name : List ℕ
  pub thread_id : ℕ
  pub block_count : ℤ
  pub status : ThreadStatus

-- `nextThreadId` is a static variable of `createThread`.
pub record OperatingSystem : Type 0 where
  pub threads : List Thread
  pub next_thread_id : ℕ
  pub thread_count : ℕ

-- `0 == strncmp(a, b, MaxThreadNameLength)`.
abbrev pub same_name : List ℕ → List ℕ → Bool
same_name [] ys = true
same_name (x ∷ xs) [] = false
same_name (x ∷ xs) (y ∷ ys) =
    let rest = same_name xs ys in if not (x == y) then false else if x == 0 then true else rest

-- `a == b` on the arrays.
abbrev pub equal_name : List ℕ → List ℕ → Bool
equal_name [] [] = true
equal_name [] (y ∷ ys) = false
equal_name (x ∷ xs) [] = false
equal_name (x ∷ xs) (y ∷ ys) = (x == y) && equal_name xs ys

abbrev pub is_terminated : ThreadStatus → Bool
is_terminated ThreadStatus.terminated = true
is_terminated _ = false

abbrev pub is_blocked : ThreadStatus → Bool
is_blocked ThreadStatus.blocked = true
is_blocked _ = false

-- `std::find_if` on the threads: the index of the first thread that passes the test.
unfoldable pub find_if : (Thread → Bool) → List Thread → Option ℕ
find_if test [] = none
find_if test (t ∷ ts) =
    let later : Option ℕ = elim (find_if test ts) [ none ↦ none | some i ↦ some (suc i) ] in
    if test t then some 0 else later

abbrev pub no_thread : Thread
no_thread = record {
  name = [];
  thread_id = null_id;
  block_count = pos 0;
  status = ThreadStatus.unknown;
}

abbrev pub thread_at : OperatingSystem → ℕ → Thread
thread_at os i = get_or os.threads i no_thread

abbrev pub set_thread : OperatingSystem → ℕ → Thread → OperatingSystem
set_thread os i t = record os { threads = set os.threads i t }

-- `threadId`: the error, and the identity that is written.
pub thread_id : List ℕ → OperatingSystem → ErrorType × Option ℕ
thread_id name os = elim (find_if (λ t. same_name t.name name) os.threads) [
  | none ↦ (no_data, none)
  | some i ↦ (success, some (thread_at os i).thread_id)
]

pub delete_thread : List ℕ → OperatingSystem → ErrorType × OperatingSystem
delete_thread name os = elim (find_if (λ t. same_name t.name name) os.threads) [
  | none ↦ (no_data, os)
  | some i ↦ (
    success,
    record (set_thread os i (record (thread_at os i) { status = ThreadStatus.terminated })) {
      thread_count = dec32 os.thread_count;
    },
  )
]

abbrev pub new_thread : List ℕ → ℕ → Thread
new_thread name id = record {
  name = name;
  thread_id = id;
  block_count = pos 0;
  status = ThreadStatus.active;
}

-- The table with a new thread at the index of the next identity; `toThreadIndex` subtracts one.
abbrev pub add_thread : List ℕ → OperatingSystem → OperatingSystem
add_thread name os = set_thread os (dec32 os.next_thread_id) (new_thread name os.next_thread_id)

-- `threads.at` throws past the end of the array: `none`. The count of threads ends as the size of the
-- array.
pub create_thread :
    List ℕ → ErrorType → OperatingSystem → Option (ErrorType × Option ℕ × OperatingSystem)
unfolding delete_thread
create_thread name pthread_create os =
    let id = os.next_thread_id in
    let os' = add_thread name os in
    let size = length os.threads in
    let failed = (delete_thread name os').1 in
    if not (ltb (dec32 id) size)
    then none
    else if is_success pthread_create
    then some (success, some id, record os' { next_thread_id = inc32 id; thread_count = size })
    else some (pthread_create, none, record failed { thread_count = size })

-- `joinThread`; `pthread_join` is what the platform returns.
pub join_thread : List ℕ → ErrorType → OperatingSystem → ErrorType
unfolding thread_id
join_thread name pthread_join os =
    if is_success (thread_id name os).0 then pthread_join else no_data

-- Of a name that is not found, `isDeleted` says that it is deleted.
pub is_deleted : List ℕ → OperatingSystem → ErrorType
unfolding thread_id
is_deleted name os =
    let found = find_if (λ t. is_terminated t.status && equal_name t.name name) os.threads in
    let known = is_success (thread_id name os).0 in
    if known then (elim found [ none ↦ negative | some i ↦ success ]) else success

-- `currentThreadId`, of the thread at an index of the table, or of a thread that is not in it.
pub current_thread_id : Option ℕ → OperatingSystem → ErrorType × ℕ
current_thread_id none os = (no_data, null_id)
current_thread_id (some i) os = (success, (thread_at os i).thread_id)

-- The part of `block` under the thread's mutex, up to the wait. `none` is a thread that waits; it
-- returns `Success` once it is woken.
abbrev pub fall_asleep : Thread → Thread × Option ErrorType
fall_asleep t =
    if is_natural t.block_count
    then (record t { block_count = increment t.block_count; status = ThreadStatus.blocked }, none)
    else (record t { block_count = pos 0 }, some limit_reached)

-- By the thread at an index of the table, or by a thread that is not in it.
pub block : Option ℕ → OperatingSystem → Option ErrorType × OperatingSystem
block none os = (some no_data, os)
block (some me) os =
    let task = (thread_at os me).thread_id in
    elim (find_if (λ t. t.thread_id == task) os.threads) [
      | none ↦ (some no_data, os)
      | some i ↦
          if task == null_id
          then (some success, os)
          else ((fall_asleep (thread_at os i)).1, set_thread os i (fall_asleep (thread_at os i)).0)
    ]

-- The part of `unblock` under the thread's mutex; the second result says that the condition is
-- signalled.
abbrev pub wake : Thread → Thread × Bool
wake t =
    if is_blocked t.status
    then (record t { block_count = decrement t.block_count; status = ThreadStatus.active }, true)
    else (record t { block_count = decrement t.block_count }, false)

pub unblock : ℕ → OperatingSystem → ErrorType × OperatingSystem
unblock task os = elim (find_if (λ t. t.thread_id == task) os.threads) [
  | none ↦ (no_data, os)
  | some i ↦
      if task == null_id
      then (no_data, os)
      else (success, set_thread os i (wake (thread_at os i)).0)
]
