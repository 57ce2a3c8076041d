-- ===== src/Thread/ThreadPool/Tasks.antt =====
-- src/thread/ThreadPool.cpp: where the accepted tasks are.
use mini_rpc.Base.{
  All, ℕ, zero, suc, ◌+◌, ◌≡◌, refl, ap, subst, List, [], ◌∷◌, ◌++◌, map, Bool, Option, some, arith,
  if-cases,
}
use mini_rpc.Base.Indexed.{get_elem?, set, total, total-set, total-map}
use mini_rpc.Thread.ThreadPool.{
  ThreadPool, set_log_enabled, ThreadPoolConfig, Task, new, has, configure, thread_exit, push,
  grows, take_task, finish_task, run_pending_callbacks,
}
use mini_rpc.Thread.ThreadPool.System.{
  Phase, top, awake, holding, unregistered, wake, System, Move, finishes, Visit, takes, after,
  create_thread, create_threads, start, grow, Step, moves, visits, expires, leaves, submits,
  calls_back, stops, notifies, joins, Reach, here, next,
}
use mini_rpc.Thread.ThreadPool.Queue.{IsFirst, pop_top-All, pop_top-total, enqueue_task-queued}
use mini_rpc.Thread.ThreadPool.Moves.{create_thread-cases, total-push_back}

module _ (f : Task → ℕ) where
  -- The weight of the task in a worker's hands.
  abbrev pub carried : Phase → ℕ
  carried (holding t) = f t
  carried _ = 0

  -- The weight of the tasks that the pool still has or has run.
  abbrev pub placed : System → ℕ
  placed s = total f s.pool.task_queue + total carried s.workers + total f s.ran

  abbrev IsKept : System → Type 0
  IsKept s = total f s.accepted ≡ placed s

  create_thread-IsKept : (s : System) → IsKept s → IsKept (create_thread s)
  create_thread-IsKept s k = create_thread-cases IsKept s k (λ p e room is.
      subst
        (λ q.
          total f s.accepted
          ≡ total f q.task_queue + total carried (s.workers ++ (top ∷ [])) + total f s.ran)
        is (omega (arith, k, total-push_back carried s.workers top)))

  grow-IsKept : (s : System) → IsKept s → IsKept (grow s)
  unfolding grow
  grow-IsKept s k = if-cases IsKept (grows s.pool) (λ _. create_thread-IsKept s k) (λ _. k)

  thread_exit-queue : (i : ℕ) (p : ThreadPool) → (thread_exit i p).task_queue ≡ p.task_queue
  unfolding thread_exit
  thread_exit-queue i p =
      if-cases (λ (q : ThreadPool). q.task_queue ≡ p.task_queue) (has i p.threads) (λ _. refl)
        (λ _. refl)

  Move-carried :
      {p p' : ThreadPool} {ph ph' : Phase}
      → Move p ph p' ph'
      → (ran : List Task)
      → (total f (after ph ran) ≡ total f ran + carried ph)
        × (carried ph' ≡ 0)
        × (p'.task_queue ≡ p.task_queue)
  unfolding finish_task
  Move-carried (finishes threw) ran = (omega arith, refl, refl)
  Move-carried mv ran = (omega arith, refl, refl)

  Visit-carried :
      {p p' : ThreadPool} {k : Option Bool} {ph' : Phase}
      → Visit p k p' ph'
      → total f p'.task_queue + carried ph' ≡ total f p.task_queue
  unfolding take_task
  Visit-carried {p} (takes i r ne e) = omega (arith, pop_top-total i p.task_queue e f)
  Visit-carried vi = omega arith

  ends-IsKept :
      (s : System) (i : ℕ) {ph : Phase}
      → get_elem? s.workers i ≡ some ph
      → carried ph ≡ 0
      → IsKept s
      → IsKept (record s { pool = thread_exit i s.pool; workers = set s.workers i unregistered })
  ends-IsKept s i {ph} at none_ k = omega (
    arith,
    k,
    total-set carried s.workers i ph unregistered at,
    none_,
    ap (total f) (thread_exit-queue i s.pool),
  )

  Step-IsKept : {s s' : System} → Step s s' → IsKept s → IsKept s'
  unfolding run_pending_callbacks
  Step-IsKept (moves {s} i {ph} {ph'} at mv) k =
      let (ran, none_, queue) = Move-carried mv s.ran in
      omega (arith, k, ran, none_, ap (total f) queue, total-set carried s.workers i ph ph' at)
  Step-IsKept (visits {s} i {k} {ph'} at free vi) kept =
      omega (arith, kept, Visit-carried vi, total-set carried s.workers i (awake k) ph' at)
  Step-IsKept (expires {s} i at free idle) k = ends-IsKept s i at refl k
  Step-IsKept (leaves {s} i at) k = ends-IsKept s i at refl k
  Step-IsKept (submits {s} expired t {p'} free e) k =
      let (_, _, is) = enqueue_task-queued expired t s.pool p' e in grow-IsKept _ (with_task is)
    where
      with_task :
          push t s.pool ≡ p'
          → IsKept (record s { pool = p'; workers = map wake s.workers; accepted = t ∷ s.accepted })
      with_task is =
          subst
            (λ q.
              f t + total f s.accepted
              ≡ total f q.task_queue + total carried (map wake s.workers) + total f s.ran)
            is (omega (arith, k, total-map carried carried wake s.workers (λ ph. ground arith)))
  Step-IsKept calls_back k = k
  Step-IsKept (stops _) k = k
  Step-IsKept (notifies {s} _) k =
      omega (arith, k, total-map carried carried wake s.workers (λ ph. ground arith))
  Step-IsKept (joins _ _) k = k

  create_threads-IsKept : (n : ℕ) (s : System) → IsKept s → IsKept (create_threads n s)
  unfolding create_threads
  create_threads-IsKept zero s k = k
  create_threads-IsKept (suc n) s k =
      create_threads-IsKept n (create_thread s) (create_thread-IsKept s k)

  -- In every state that the pool reaches from Start, each task that was accepted is in the queue, in
  -- the hands of a worker or run, once in all: for every weight on tasks, the weights of the accepted
  -- ones add up to those of the three places.
  pub accepted-placed :
      (c : ThreadPoolConfig) (b : Bool) {s : System}
      → Reach (start c (set_log_enabled b new)) s
      → total f s.accepted ≡ placed s
  unfolding start configure set_log_enabled new
  accepted-placed c b here = create_threads-IsKept c.init_thread_count _ refl
  accepted-placed c b (next r st) = Step-IsKept st (accepted-placed c b r)

-- A worker takes a task such that none that is left in the queue has a smaller priority number.
pub Visit-IsFirst :
    {p p' : ThreadPool} {k : Option Bool} {t : Task}
    → Visit p k p' (holding t)
    → All (IsFirst t) p'.task_queue
unfolding take_task
Visit-IsFirst {p} (takes i r ne e) = pop_top-All i p.task_queue e
