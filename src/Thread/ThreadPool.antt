-- ===== src/Thread/ThreadPool.antt =====
-- include/minirpc/thread/ThreadPool.h and src/thread/ThreadPool.cpp: the pool's own state, and the parts
-- of its methods that run under a lock. A task is a number with a priority and, for a submission with
-- a callback, the number of that callback; a thread id is a number that was not used before. Logging is
-- left out. `std::priority_queue` leaves open which of several top elements comes first: the position
-- of the one that it gives is an argument.
pub mod System
pub mod Sound
pub mod Sleep
pub mod Tasks
pub mod Progress
pub mod Shutdown
mod Queue
mod Counters
mod Ids
mod Frame
mod Moves
mod Staff
pub mod Drain
pub mod Futures
mod Tests
use mini_rpc.Base.{
  ℕ, zero, suc, ◌≡◌, List, [], ◌∷◌, ◌++◌, Bool, true, false, not, ◌&&◌, ◌||◌, ◌==◌, ltb, leb,
  if◌then◌else◌, Option, none, some, add_size, sub_size, length,
}
use mini_rpc.Base.Text.{Text, text}

pub data PoolMode : Type 0 where
  fixed cached : PoolMode

pub data TaskPriority : Type 0 where
  high normal low : TaskPriority

abbrev pub priority_value : TaskPriority → ℕ
priority_value high = 0
priority_value normal = 1
priority_value low = 2

-- `PrioritizedTask`
pub record Task : Type 0 where
  pub priority : ℕ
  pub func : ℕ
  pub callback : Option ℕ

-- `operator<`: the least of the queue's order is the last to be taken.
abbrev pub less : Task → Task → Bool
less a b = ltb b.priority a.priority

pub record ThreadPoolConfig : Type 0 where
  pub mode : PoolMode
  pub init_thread_count : ℕ
  pub max_thread_count : ℕ
  pub max_queue_size : ℕ

pub record ThreadPool : Type 0 where
  pub init_thread_size : ℕ
  pub threads : List ℕ
  pub mode : PoolMode
  pub is_running : Bool
  pub log_enabled : Bool
  pub max_thread_count : ℕ
  pub current_thread_count : ℕ
  pub idle_thread_count : ℕ
  pub task_queue_size : ℕ
  pub task_queue : List Task
  pub max_task_queue_size : ℕ
  pub callback_queue : List ℕ

unfoldable pub new : ThreadPool
new = record {
  init_thread_size = 0;
  threads = [];
  mode = fixed;
  is_running = false;
  log_enabled = true;
  max_thread_count = 8;
  current_thread_count = 0;
  idle_thread_count = 0;
  task_queue_size = 0;
  task_queue = [];
  max_task_queue_size = 1024;
  callback_queue = [];
}

abbrev pub is_cached : PoolMode → Bool
is_cached cached = true
is_cached fixed = false

unfoldable pub set_mode : PoolMode → ThreadPool → ThreadPool
set_mode mode p = if p.is_running then p else record p { mode = mode }

unfoldable pub set_task_queue_max_size : ℕ → ThreadPool → ThreadPool
set_task_queue_max_size n p = if p.is_running then p else record p { max_task_queue_size = n }

unfoldable pub set_max_thread_count : ℕ → ThreadPool → ThreadPool
set_max_thread_count n p =
    if p.is_running || not (is_cached p.mode) then p else record p { max_thread_count = n }

unfoldable pub set_log_enabled : Bool → ThreadPool → ThreadPool
set_log_enabled enabled p = record p { log_enabled = enabled }

-- `Start(config)` before its threads are created.
unfoldable pub configure : ThreadPoolConfig → ThreadPool → ThreadPool
configure c p = record p {
  is_running = true;
  mode = c.mode;
  init_thread_size = c.init_thread_count;
  max_thread_count = c.max_thread_count;
  max_task_queue_size = c.max_queue_size;
}

-- The configuration of `Start(initThreadSize)`.
abbrev pub default_config : ℕ → ThreadPool → ThreadPoolConfig
default_config n p = record {
  mode = p.mode;
  init_thread_count = n;
  max_thread_count = p.max_thread_count;
  max_queue_size = p.max_task_queue_size;
}

-- The counters of `CreateThread`; `none` where it returns at once.
abbrev pub counted_up : ThreadPool → ThreadPool
counted_up p = record p {
  current_thread_count = add_size p.current_thread_count 1;
  idle_thread_count = add_size p.idle_thread_count 1;
}

unfoldable pub count_thread : ThreadPool → Option ThreadPool
count_thread p = if leb p.max_thread_count p.current_thread_count then none else some (counted_up p)

abbrev pub has : ℕ → List ℕ → Bool
has id [] = false
has id (x ∷ xs) = (x == id) || has id xs

-- `erase` of an id from a set.
abbrev pub remove : ℕ → List ℕ → List ℕ
remove id [] = []
remove id (x ∷ xs) = let rest = remove id xs in if x == id then xs else x ∷ rest

unfoldable pub thread_exit : ℕ → ThreadPool → ThreadPool
thread_exit id p =
    if has id p.threads
    then record p {
      threads = remove id p.threads;
      current_thread_count = sub_size p.current_thread_count 1;
      idle_thread_count = sub_size p.idle_thread_count 1;
    }
    else p

-- Where a call of `enqueueTask` stands when it holds the lock.
pub data Enqueued : Type 0 where
  blocked : Enqueued
  refused : Enqueued
  queued : ThreadPool → Enqueued

abbrev pub push : Task → ThreadPool → ThreadPool
push task p = record p {
  task_queue = task ∷ p.task_queue;
  task_queue_size = add_size p.task_queue_size 1;
}

-- `expired` says that the time to wait is over.
unfoldable pub enqueue_task : Bool → Task → ThreadPool → Enqueued
enqueue_task expired task p =
    if ltb p.task_queue_size p.max_task_queue_size || not p.is_running
    then (if p.is_running then queued (push task p) else refused)
    else if expired
    then refused
    else blocked

-- Whether a task that was put in makes the pool grow.
unfoldable pub grows : ThreadPool → Bool
grows p =
    is_cached p.mode
    && (ltb p.idle_thread_count p.task_queue_size && ltb p.current_thread_count p.max_thread_count)

-- What the submitting methods make of a refusal: the text of the exception, or `nullopt`.
abbrev pub submit_result : Enqueued → Option (Option Text)
submit_result blocked = none
submit_result refused = some (some (text "ThreadPool: queue full, timed out"))
submit_result (queued p) = some none

abbrev pub try_submit_result : Enqueued → Option Bool
try_submit_result blocked = none
try_submit_result refused = some false
try_submit_result (queued p) = some true

-- The element at a position, and the others.
abbrev pub take_at : ℕ → List Task → Option (Task × List Task)
take_at i [] = none
take_at zero (t ∷ q) = some (t, q)
take_at (suc i) (t ∷ q) = elim (take_at i q) [ none ↦ none | some (u, rest) ↦ some (u, t ∷ rest) ]

abbrev pub is_top : Task → List Task → Bool
is_top t [] = true
is_top t (u ∷ q) = not (less t u) && is_top t q

-- `top` and `pop`; `none` where the element at the position is no top.
unfoldable pub pop_top : ℕ → List Task → Option (Task × List Task)
pop_top i q = elim (take_at i q) [
  | none ↦ none
  | some (t, rest) ↦ if is_top t rest then some (t, rest) else none
]

-- The predicate of a worker's wait, and whether the wait is one of sixty seconds.
unfoldable pub has_work : ThreadPool → Bool
has_work p = ltb 0 p.task_queue_size || not p.is_running

unfoldable pub waits_timed : ThreadPool → Bool
waits_timed p = is_cached p.mode && ltb p.init_thread_size p.current_thread_count

-- A worker takes a task that was popped.
unfoldable pub take_task : List Task → ThreadPool → ThreadPool
take_task rest p = record p {
  idle_thread_count = sub_size p.idle_thread_count 1;
  task_queue = rest;
  task_queue_size = sub_size p.task_queue_size 1;
}

-- After a task: unless it threw, its callback is put in; the worker is idle again.
unfoldable pub finish_task : Bool → Task → ThreadPool → ThreadPool
finish_task threw t p =
    let callbacks : List ℕ = elim (t.callback) [
      | none ↦ p.callback_queue
      | some cb ↦ if threw then p.callback_queue else p.callback_queue ++ (cb ∷ [])
    ] in
    record p { callback_queue = callbacks; idle_thread_count = add_size p.idle_thread_count 1 }

-- `insert` of an id into a set.
abbrev pub add : ℕ → List ℕ → List ℕ
add id xs = if has id xs then xs else id ∷ xs

-- The callbacks that are run, in order.
unfoldable pub run_pending_callbacks : ThreadPool → List ℕ × ThreadPool
run_pending_callbacks p = (p.callback_queue, record p { callback_queue = [] })
