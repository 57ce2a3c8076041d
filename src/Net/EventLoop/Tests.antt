-- ===== src/Net/EventLoop/Tests.antt =====
-- A loop to which tasks are posted by other threads, one of them while it handles events, and by a task.
use mini_rpc.Base.{◌≡◌, refl, inr, List, [], ◌∷◌, ◌++◌, true, false}
use mini_rpc.Net.EventLoop.{
  Running, polling, pushes, wakes, queues, polls, handles, swaps, runs, Step, step, wakeup,
  handle_wakeup, do_pending_functors, queue_in_loop,
}
use mini_rpc.Net.EventLoop.Pending.{run, line, posted, Rested, run_in_order_of_posts}

abbrev idle : Running
idle = record {
  phase = polling;
  loop = record { looping = true; quitting = false; pending = []; wakeups = 0 };
  functors = [];
  waking = 0;
  own = [];
  ran = [];
}

abbrev history : List Step
history =
    pushes 1
    ∷ wakes
    ∷ polls
    ∷ handles
    ∷ pushes 2
    ∷ swaps
    ∷ runs
    ∷ queues 3
    ∷ runs
    ∷ wakes
    ∷ runs
    ∷ []

run_in_order_of_posts_example :
    (line (run history idle) ≡ line idle ++ posted history)
    × Rested (run history idle).phase (run history idle)
run_in_order_of_posts_example = run_in_order_of_posts history idle (refl, inr refl)

-- A task that another task queues is left in the queue of a loop that goes to sleep with nothing to wake it.
asleep_test :
    run (pushes 1 ∷ wakes ∷ polls ∷ handles ∷ swaps ∷ queues 3 ∷ runs ∷ runs ∷ []) idle
    ≡ record idle { loop = record idle.loop { pending = 3 ∷ [] }; own = 3 ∷ []; ran = 1 ∷ [] }
unfolding step wakeup handle_wakeup do_pending_functors queue_in_loop
asleep_test = refl
