-- ===== src/Thread/ThreadPool/Tests.antt =====
-- Runs of the pool on concrete inputs, and its theorems at them.
use mini_rpc.Base.{ℕ, ◌+◌, ◌≡◌, refl, List, [], ◌∷◌, Bool, true, false, none, some, arith}
use mini_rpc.Base.Text.{text}
use mini_rpc.Base.Indexed.{total}
use mini_rpc.Thread.ThreadPool.{
  ThreadPool, set_log_enabled, ThreadPoolConfig, fixed, Task, new, configure, count_thread,
  enqueue_task, grows, pop_top, has_work, waits_timed, thread_exit, run_pending_callbacks,
  take_task, finish_task,
}
use mini_rpc.Thread.ThreadPool.System.{
  top, asleep, holding, unregistered, open_, notified, joined, System, goes_on, finishes, sleeps,
  waits, takes, create_thread, create_threads, start, grow, moves, visits, leaves, submits, stops,
  notifies, joins, Reach, here, next, Visit, breaks, calls_back,
}
use mini_rpc.Thread.ThreadPool.Shutdown.{is_exiting, Reach-IsSound_open}
use mini_rpc.Thread.ThreadPool.Moves.{IsSound}
use mini_rpc.Thread.ThreadPool.Tasks.{placed, accepted-placed}
use mini_rpc.Thread.ThreadPool.Drain.{Served, drains}
use mini_rpc.Thread.ThreadPool.Futures.{submit, submit_with_priority, joined-settled}
use mini_rpc.Thread.ThreadPool.Sleep.{IsStuck, Quiet, stays, goes, woken, Quiet-IsStuck}

abbrev one : ThreadPoolConfig
one = record { mode = fixed; init_thread_count = 1; max_thread_count = 4; max_queue_size = 2 }

abbrev task : ℕ → ℕ → Task
task p n = record { priority = p; func = n; callback = some n }

abbrev pool_at : Bool → List ℕ → ℕ → ℕ → List Task → List ℕ → ThreadPool
pool_at running threads idle size queue callbacks = record {
  init_thread_size = 1;
  threads = threads;
  mode = fixed;
  is_running = running;
  log_enabled = true;
  max_thread_count = 4;
  current_thread_count = 1;
  idle_thread_count = idle;
  task_queue_size = size;
  task_queue = queue;
  max_task_queue_size = 2;
  callback_queue = callbacks;
}

-- A worker goes to sleep after the destructor has notified.
abbrev slept : System
slept = record {
  pool = pool_at false (0 ∷ []) 1 0 [] [];
  workers = asleep false ∷ [];
  closing = notified;
  accepted = [];
  ran = [];
}

slept-Reach : Reach (start one (set_log_enabled true new)) slept
unfolding start configure set_log_enabled new create_threads create_thread count_thread has_work
    waits_timed
slept-Reach =
    next
      (next
        (next (next (next here (moves 0 refl (goes_on refl))) (visits 0 refl refl (waits refl)))
          (stops refl))
        (notifies refl))
      (moves 0 refl sleeps)

slept_run : Quiet 0 slept slept
unfolding woken run_pending_callbacks
slept_run = goes stays calls_back (λ e. cc)

Quiet-IsStuck_example : IsStuck 0 slept
Quiet-IsStuck_example =
    Quiet-IsStuck 0 slept_run (record { told = refl; still = refl; waited = refl; sleeping = refl })

-- Two tasks are in, and the worker has not looked yet.
abbrev busy : System
busy = record {
  pool = pool_at true (0 ∷ []) 1 2 (task 0 8 ∷ task 1 7 ∷ []) [];
  workers = top ∷ [];
  closing = open_;
  accepted = task 0 8 ∷ task 1 7 ∷ [];
  ran = [];
}

busy-Reach : Reach (start one (set_log_enabled true new)) busy
unfolding start configure set_log_enabled new create_threads create_thread count_thread enqueue_task
    grows grow
busy-Reach =
    next (next here (submits false (task 1 7) refl refl)) (submits false (task 0 8) refl refl)

-- The worker has the first of them.
abbrev working : System
working = record {
  pool = pool_at true (0 ∷ []) 0 1 (task 1 7 ∷ []) [];
  workers = holding (task 0 8) ∷ [];
  closing = open_;
  accepted = task 0 8 ∷ task 1 7 ∷ [];
  ran = [];
}

first-Visit : Visit (busy.pool) none (working.pool) (holding (task 0 8))
unfolding pop_top take_task
first-Visit = takes 0 refl (λ e. cc) refl

working-Reach : Reach (start one (set_log_enabled true new)) working
working-Reach =
    next (next busy-Reach (moves 0 refl (goes_on refl))) (visits 0 refl refl first-Visit)

Reach-IsSound_open_example : IsSound working × (total is_exiting working.workers ≡ 0)
Reach-IsSound_open_example =
    Reach-IsSound_open one true (omega arith) (omega arith) working-Reach refl

accepted-placed_example : total (λ t. t.func) working.accepted ≡ placed (λ t. t.func) working
accepted-placed_example = accepted-placed (λ t. t.func) one true working-Reach

drains_example : Served busy
drains_example =
    drains one true (omega arith) (omega arith) (omega arith) (omega arith) busy-Reach refl

-- The worker has run the first task, and the destructor's wait has ended: the second is dropped.
abbrev over : System
over = record {
  pool = record (pool_at false [] 0 1 (task 1 7 ∷ []) []) { current_thread_count = 0 };
  workers = unregistered ∷ [];
  closing = joined;
  accepted = task 0 8 ∷ task 1 7 ∷ [];
  ran = task 0 8 ∷ [];
}

over-Reach : Reach (start one (set_log_enabled true new)) over
unfolding thread_exit finish_task run_pending_callbacks
over-Reach =
    next
      (next
        (next
          (next (next (next working-Reach (moves 0 refl (finishes false))) (stops refl))
            (moves 0 refl (breaks refl)))
          (leaves 0 refl))
        (notifies refl))
      (joins refl refl)

joined-settled_example :
    total (λ t. t.func) over.accepted
    ≡ total (λ t. t.func) over.pool.task_queue + total (λ t. t.func) over.ran
joined-settled_example =
    joined-settled (λ t. t.func) one true (omega arith) (omega arith) over-Reach refl

late_submit_test :
    (submit false 5 over.pool).1 ≡ some (some (text "ThreadPool: queue full, timed out"))
unfolding submit submit_with_priority enqueue_task
late_submit_test = refl
