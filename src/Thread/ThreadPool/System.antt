-- ===== src/Thread/ThreadPool/System.antt =====
-- src/thread/ThreadPool.cpp: the pool with its workers, each at its place in `WorkerThread`, and the steps that
-- they, the submitters and the destructor take. A worker's id is its position. What runs in one critical
-- section of `taskQueueMutex_` is one step; a worker between its test and its sleep keeps the mutex, and no
-- other step that takes the mutex is possible. A sleeping worker may wake at any time.
-- A thread is counted, spawned and registered in one step: until it is registered, its creator is in `Start`,
-- before any task is put in, or holds the mutex in `enqueueTask`, and while the pool runs the new worker
-- can then only come to wait for that mutex. A destructor that lowers the flag while a thread is being created, so
-- that it leaves before it is registered, is left out.
use mini_rpc.Base.{
  ℕ, zero, suc, ◌≡◌, ◌≢◌, List, [], ◌∷◌, ◌++◌, map, Bool, true, false, if◌then◌else◌, Option, none,
  some, length,
}
use mini_rpc.Base.Indexed.{get_elem?, set, total}
use mini_rpc.Thread.ThreadPool.{
  ThreadPool, ThreadPoolConfig, Task, add, configure, count_thread, thread_exit, queued,
  enqueue_task, grows, pop_top, has_work, waits_timed, take_task, finish_task,
  run_pending_callbacks,
}

-- Where a worker is: at the head of its loop; about to lock the mutex, with the kind of wait it is in,
-- if any (`true` for one of sixty seconds); with the mutex, having found no work; asleep; with a task;
-- out of the loop; past `threadExit`. What is left for the last, `exitCond_.notify_all()`, changes nothing of
-- the state, and the destructor's wait may end before it or after it.
pub data Phase : Type 0 where
  top : Phase
  awake : Option Bool → Phase
  about : Bool → Phase
  asleep : Bool → Phase
  holding : Task → Phase
  exiting : Phase
  unregistered : Phase

abbrev pub is_about : Phase → ℕ
is_about (about timed) = 1
is_about _ = 0

-- `notify_all` on `notEmpty_`.
abbrev pub wake : Phase → Phase
wake (asleep timed) = awake (some timed)
wake ph = ph

pub data Closing : Type 0 where
  open_ stopped notified joined : Closing

-- `accepted` and `ran` only record what happened: the tasks put in, and the tasks run.
pub record System : Type 0 where
  pub pool : ThreadPool
  pub workers : List Phase
  pub closing : Closing
  pub accepted : List Task
  pub ran : List Task

-- Moves without the mutex, as the pool and the worker's place before and after.
pub data Move : ThreadPool → Phase → ThreadPool → Phase → Type 0 where
  goes_on : {p : ThreadPool} → p.is_running ≡ true → Move p top p (awake none)
  breaks : {p : ThreadPool} → p.is_running ≡ false → Move p top p exiting
  sleeps : {p : ThreadPool} {timed : Bool} → Move p (about timed) p (asleep timed)
  wakes : {p : ThreadPool} {timed : Bool} → Move p (asleep timed) p (awake (some timed))
  finishes :
      {p : ThreadPool} {t : Task} (threw : Bool) → Move p (holding t) (finish_task threw t p) top

-- The kind of a wait is chosen once, when it begins.
abbrev pub wait_kind : Option Bool → ThreadPool → Bool
wait_kind none p = waits_timed p
wait_kind (some timed) p = timed

-- What a worker does with the mutex.
pub data Visit : ThreadPool → Option Bool → ThreadPool → Phase → Type 0 where
  quits : {p : ThreadPool} {k : Option Bool} → p.is_running ≡ false → Visit p k p exiting
  waits :
      {p : ThreadPool} {k : Option Bool} → has_work p ≡ false → Visit p k p (about (wait_kind k p))
  takes :
      {p : ThreadPool} {k : Option Bool} (i : ℕ) {t : Task} {rest : List Task}
      → p.is_running ≡ true
      → p.task_queue_size ≢ 0
      → pop_top i p.task_queue ≡ some (t, rest)
      → Visit p k (take_task rest p) (holding t)

abbrev pub after : Phase → List Task → List Task
after (holding t) ran = t ∷ ran
after _ ran = ran

-- A new worker, registered under the next id.
abbrev pub with_thread : System → ThreadPool → System
with_thread s p = record s {
  pool = record p { threads = add (length s.workers) p.threads };
  workers = s.workers ++ (top ∷ []);
}

-- `CreateThread`.
unfoldable pub create_thread : System → System
create_thread s = elim (count_thread s.pool) [ none ↦ s | some p ↦ with_thread s p ]

unfoldable pub create_threads : ℕ → System → System
create_threads zero s = s
create_threads (suc n) s = create_threads n (create_thread s)

-- `Start(config)` on a pool with no threads.
unfoldable pub start : ThreadPoolConfig → ThreadPool → System
start c p =
    create_threads c.init_thread_count
      (record { pool = configure c p; workers = []; closing = open_; accepted = []; ran = [] })

-- The rest of `enqueueTask` once the task is in.
unfoldable pub grow : System → System
grow s = if grows s.pool then create_thread s else s

abbrev pub IsFree : System → Type 0
IsFree s = total is_about s.workers ≡ 0

pub data Step : System → System → Type 0 where
  moves :
      {s : System} (i : ℕ) {ph ph' : Phase} {p' : ThreadPool}
      → get_elem? s.workers i ≡ some ph
      → Move s.pool ph p' ph'
      → Step s (record s { pool = p'; workers = set s.workers i ph'; ran = after ph s.ran })
  visits :
      {s : System} (i : ℕ) {k : Option Bool} {ph' : Phase} {p' : ThreadPool}
      → get_elem? s.workers i ≡ some (awake k)
      → IsFree s
      → Visit s.pool k p' ph'
      → Step s (record s { pool = p'; workers = set s.workers i ph' })
  expires :
      {s : System} (i : ℕ)
      → get_elem? s.workers i ≡ some (asleep true)
      → IsFree s
      → has_work s.pool ≡ false
      → Step s (record s { pool = thread_exit i s.pool; workers = set s.workers i unregistered })
  leaves :
      {s : System} (i : ℕ)
      → get_elem? s.workers i ≡ some exiting
      → Step s (record s { pool = thread_exit i s.pool; workers = set s.workers i unregistered })
  submits :
      {s : System} (expired : Bool) (t : Task) {p' : ThreadPool}
      → IsFree s
      → enqueue_task expired t s.pool ≡ queued p'
      → Step s
          (grow (record s { pool = p'; workers = map wake s.workers; accepted = t ∷ s.accepted }))
  calls_back : {s : System} → Step s (record s { pool = (run_pending_callbacks s.pool).1 })
  stops :
      {s : System}
      → s.closing ≡ open_
      → Step s (record s { pool = record (s.pool) { is_running = false }; closing = stopped })
  notifies :
      {s : System}
      → s.closing ≡ stopped
      → Step s (record s { workers = map wake s.workers; closing = notified })
  joins :
      {s : System}
      → s.closing ≡ notified
      → s.pool.threads ≡ []
      → Step s (record s { pool = (run_pending_callbacks s.pool).1; closing = joined })

pub data Reach (from : System) : System → Type 0 where
  here : Reach from from
  next : {s s' : System} → Reach from s → Step s s' → Reach from s'
