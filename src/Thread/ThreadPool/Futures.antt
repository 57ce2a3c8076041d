-- ===== src/Thread/ThreadPool/Futures.antt =====
-- The submitting methods of include/minirpc/thread/ThreadPool.h, and what becomes of their tasks. A submitted
-- function with its arguments is a number, and so is what it returns or throws. A future has the state of
-- its shared state: without a result, with one, or broken where the task is destroyed without being run.
use mini_rpc.Base.{
  ℕ, ◌+◌, ◌<◌, ◌≡◌, refl, sym, List, [], ◌∷◌, ◌++◌, Bool, true, false, Option, none, some, arith,
  append-nil, size_mod,
}
use mini_rpc.Base.Text.{Text}
use mini_rpc.Base.Indexed.{total}
use mini_rpc.Thread.ThreadPool.{
  ThreadPool, ThreadPoolConfig, Task, TaskPriority, normal, priority_value, Enqueued, enqueue_task,
  submit_result, try_submit_result, finish_task, new, set_log_enabled,
}
use mini_rpc.Thread.ThreadPool.System.{
  Phase, top, awake, about, asleep, holding, exiting, unregistered, System, joined, start, Reach,
}
use mini_rpc.Thread.ThreadPool.Counters.{is_live}
use mini_rpc.Thread.ThreadPool.Tasks.{carried, accepted-placed}
use mini_rpc.Thread.ThreadPool.Shutdown.{joined-unregistered}

-- What a submitted function does.
pub data Outcome : Type 0 where
  returned : ℕ → Outcome
  threw : ℕ → Outcome

-- What is put into the queue: a packaged task with a future, or a function with a callback.
pub data Job : Type 0 where
  packaged : ℕ → Job
  with_callback : ℕ → ℕ → Job

unfoldable pub task_of : TaskPriority → Job → Task
task_of priority (packaged f) = record {
  priority = priority_value priority;
  func = f;
  callback = none;
}
task_of priority (with_callback f cb) = record {
  priority = priority_value priority;
  func = f;
  callback = some cb;
}

-- `submitWithPriority`: what `enqueueTask` does, and the exception if there is one. `expired` says that the
-- sixty seconds are over.
unfoldable pub submit_with_priority :
    Bool → TaskPriority → ℕ → ThreadPool → Enqueued × Option (Option Text)
submit_with_priority expired priority f p =
    let e = enqueue_task expired (task_of priority (packaged f)) p in (e, submit_result e)

unfoldable pub submit : Bool → ℕ → ThreadPool → Enqueued × Option (Option Text)
submit expired f p = submit_with_priority expired normal f p

-- `trySubmitFor`; `some false` is `nullopt`.
unfoldable pub try_submit_for : Bool → ℕ → ThreadPool → Enqueued × Option Bool
try_submit_for expired f p =
    let e = enqueue_task expired (task_of normal (packaged f)) p in (e, try_submit_result e)

unfoldable pub submit_with_callback :
    Bool → TaskPriority → ℕ → ℕ → ThreadPool → Enqueued × Option (Option Text)
submit_with_callback expired priority f cb p =
    let e = enqueue_task expired (task_of priority (with_callback f cb)) p in (e, submit_result e)

-- Whether a job's closure throws: a packaged task keeps the exception for its future.
unfoldable pub throws : Job → Outcome → Bool
throws (packaged f) o = false
throws (with_callback f cb) (returned v) = false
throws (with_callback f cb) (threw e) = true

-- The worker after it ran a job.
unfoldable pub finish_job : TaskPriority → Job → Outcome → ThreadPool → ThreadPool
finish_job priority job o p = finish_task (throws job o) (task_of priority job) p

-- A callback is queued when its function has returned, and only then.
pub finish_job_callbacks :
    (priority : TaskPriority) (job : Job) (o : Outcome) (p : ThreadPool)
    → (finish_job priority job o p).callback_queue
      ≡ p.callback_queue ++ (elim job as (λ _. List ℕ) [
        | packaged f ↦ []
        | with_callback f cb ↦ elim o as (λ _. List ℕ) [ returned v ↦ cb ∷ [] | threw e ↦ [] ]
      ])
unfolding finish_job throws task_of finish_task
finish_job_callbacks priority (packaged f) o p = sym (append-nil p.callback_queue)
finish_job_callbacks priority (with_callback f cb) (returned v) p = refl
finish_job_callbacks priority (with_callback f cb) (threw e) p = sym (append-nil p.callback_queue)

carried-unregistered :
    (f : Task → ℕ) (ws : List Phase) → total is_live ws ≡ 0 → total (carried f) ws ≡ 0
carried-unregistered f [] h = refl
carried-unregistered f (unregistered ∷ ws) h =
    omega (arith, carried-unregistered f ws (omega (arith, h)))
carried-unregistered f (top ∷ ws) h = absurd (omega (arith, h))
carried-unregistered f (awake k ∷ ws) h = absurd (omega (arith, h))
carried-unregistered f (about k ∷ ws) h = absurd (omega (arith, h))
carried-unregistered f (asleep k ∷ ws) h = absurd (omega (arith, h))
carried-unregistered f (holding t ∷ ws) h = absurd (omega (arith, h))
carried-unregistered f (exiting ∷ ws) h = absurd (omega (arith, h))

-- In every state that the pool reaches from Start, with limits below 2^64 and a destructor that does
-- not begin while a thread is being created, after the destructor's wait has ended each task that was
-- accepted has been run or is dropped with the queue, once in all: for every weight on tasks, the
-- weights of the accepted ones add up to those of the two.
pub joined-settled :
    (f : Task → ℕ) (c : ThreadPoolConfig) (b : Bool) {s : System}
    → c.max_thread_count < size_mod
    → c.max_queue_size < size_mod
    → Reach (start c (set_log_enabled b new)) s
    → s.closing ≡ joined
    → total f s.accepted ≡ total f s.pool.task_queue + total f s.ran
joined-settled f c b {s} threads tasks r j =
    let none_left = joined-unregistered c b threads tasks r j in
    omega (arith, accepted-placed f c b r, carried-unregistered f s.workers none_left)
