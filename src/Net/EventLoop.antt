-- ===== src/Net/EventLoop.antt =====
-- include/minirpc/net/EventLoop.h and src/net/EventLoop.cpp: the queue of tasks from other threads and
-- its wake-ups. A task is a number; what the loop thread runs is returned. `wakeups` counts the unread
-- writes to the eventfd, and the lock makes each access to the queue one step.
pub mod Pending
mod Tests
use mini_rpc.Base.{
  ℕ, zero, suc, ◌+◌, List, [], ◌∷◌, ◌++◌, Bool, true, false, not, ◌||◌, if◌then◌else◌,
}

pub record EventLoop : Type 0 where
  pub looping : Bool
  pub quitting : Bool
  pub pending : List ℕ
  pub wakeups : ℕ

unfoldable pub wakeup : EventLoop → EventLoop
wakeup l = record l { wakeups = l.wakeups + 1 }

-- It reads until the eventfd is empty.
unfoldable pub handle_wakeup : EventLoop → EventLoop
handle_wakeup l = record l { wakeups = 0 }

-- The locked part of `queueInLoop`.
abbrev pub push : ℕ → EventLoop → EventLoop
push task l = record l { pending = l.pending ++ (task ∷ []) }

-- `here` is `isInLoopThread()`.
unfoldable pub queue_in_loop : Bool → ℕ → EventLoop → EventLoop
queue_in_loop here task l =
    let queued = push task l in if not here || not l.looping then wakeup queued else queued

unfoldable pub run_in_loop : Bool → ℕ → EventLoop → List ℕ × EventLoop
run_in_loop here task l = if here then (task ∷ [], l) else ([], queue_in_loop here task l)

unfoldable pub quit : Bool → EventLoop → EventLoop
quit here l = let q = record l { quitting = true } in if here then q else wakeup q

unfoldable pub do_pending_functors : EventLoop → List ℕ × EventLoop
do_pending_functors l = (l.pending, record l { pending = [] })

-- Where `loop` stands: before `poll` or in it, handling events, or running the tasks that it swapped out.
pub data Phase : Type 0 where
  polling dispatching draining : Phase

-- `functors` are the tasks that are swapped out and not run yet, and `waking` the other threads that have put a
-- task in, or set the flag, and not written to the eventfd yet. `own` only records the tasks that the
-- loop's thread has queued since the last swap.
pub record Running : Type 0 where
  pub phase : Phase
  pub loop : EventLoop
  pub functors : List ℕ
  pub waking : ℕ
  pub own : List ℕ
  pub ran : List ℕ

-- Another thread puts a task in, sets `quit_`, or writes to the eventfd after one of these; a callback or a
-- task queues a task or quits in the loop's thread; `poll` returns; `handleWakeup` runs; the queue is swapped; a
-- task of those swapped out is run, or the turn ends after the last one.
pub data Step : Type 0 where
  pushes : ℕ → Step
  quits : Step
  stops : Step
  wakes : Step
  queues : ℕ → Step
  polls : Step
  handles : Step
  swaps : Step
  runs : Step

abbrev pub wake_once : ℕ → Running → Running
wake_once zero r = r
wake_once (suc n) r = record r { loop = wakeup r.loop; waking = n }

-- Once `quit_` is set, the loop ends here.
abbrev pub poll_once : Phase → Running → Running
poll_once polling r = if r.loop.quitting then r else record r { phase = dispatching }
poll_once dispatching r = r
poll_once draining r = r

abbrev pub handle_once : Phase → Running → Running
handle_once polling r = r
handle_once dispatching r = record r { loop = handle_wakeup r.loop }
handle_once draining r = r

abbrev pub swap_once : Phase → Running → Running
swap_once polling r = r
swap_once dispatching r =
    let (tasks, l) = do_pending_functors r.loop in
    record r { phase = draining; loop = l; functors = tasks; own = [] }
swap_once draining r = r

abbrev pub run_once : Phase → List ℕ → Running → Running
run_once polling functors r = r
run_once dispatching functors r = r
run_once draining [] r = record r { phase = polling }
run_once draining (t ∷ ts) r = record r { functors = ts; ran = r.ran ++ (t ∷ []) }

unfoldable pub step : Step → Running → Running
step (pushes task) r = record r { loop = push task r.loop; waking = suc r.waking }
step quits r = record r { loop = quit true r.loop; waking = suc r.waking }
step stops r = record r { loop = quit true r.loop }
step wakes r = wake_once r.waking r
step (queues task) r = record r {
  loop = queue_in_loop true task r.loop;
  own = r.own ++ (task ∷ []);
}
step polls r = poll_once r.phase r
step handles r = handle_once r.phase r
step swaps r = swap_once r.phase r
step runs r = run_once r.phase r.functors r
