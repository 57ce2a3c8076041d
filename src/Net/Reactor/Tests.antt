-- ===== src/Net/Reactor/Tests.antt =====
-- A loop with two ready channels, of which one queues a task that queues another.
use mini_rpc.Base.{
  ℕ, ◌≡◌, List, [], ◌∷◌, ◌++◌, Bool, true, false, arith, length, ◌==◌, if◌then◌else◌,
}
use mini_rpc.Net.Poller.{Callback, on_read, on_write, on_close, on_error}
use mini_rpc.Net.Reactor.{
  Event, Waited, found, failed, nothing, Act, calls, task, Effect, World, tasks, turn, run_loop,
}
use mini_rpc.Net.Reactor.Order.{Distinct, due, turn_tasks, queued, turn_runs}
use mini_rpc.Net.Reactor.Account.{tasks_of, run_loop-Accounts}

abbrev is_set : ℕ → Callback → Bool
is_set p c = true

abbrev queues : List ℕ → Effect
queues ts = record { queues = ts; quits = false }

-- The first read queues task 7, which queues task 8, which quits; a read after task 7 queues task 9.
abbrev effect : List Act → Act → Effect
effect past (calls p on_read) = if length past == 0 then queues (7 ∷ []) else queues (9 ∷ [])
effect past (calls p on_write) = queues []
effect past (calls p on_close) = queues []
effect past (calls p on_error) = queues []
effect past (task t) = if t == 7 then queues (8 ∷ []) else record { queues = []; quits = t == 8 }

abbrev events : List Event
events =
    record { pointer = 1; events = record nothing { input = true; output = true } }
    ∷ record { pointer = 2; events = record nothing { hang_up = true } }
    ∷ []

events-Distinct : Distinct events
events-Distinct = ((λ e. omega (arith, e), tt), (tt, tt))

abbrev idle : World
idle = record {
  loop = record { looping = true; quitting = false; pending = 5 ∷ []; wakeups = 0 };
  ready = [];
  ran = [];
}

turn_runs_example :
    ((turn is_set effect (found events) idle).ran
      ≡ idle.ran
        ++ (due is_set effect events
            ++ tasks is_set effect (turn_tasks is_set effect (due is_set effect events) idle)))
    × ((turn is_set effect (found events) idle).loop.pending
        ≡ queued is_set effect
            (idle.ran ++ due is_set effect events)
            (tasks is_set effect (turn_tasks is_set effect (due is_set effect events) idle)))
turn_runs_example = turn_runs is_set effect events idle events-Distinct

abbrev answers : List Waited
answers = found events ∷ failed ∷ found events ∷ []

run_loop-Accounts_example :
    (acts : List Act) × ((run_loop is_set effect answers idle).ran ≡ idle.ran ++ acts)
    × (tasks_of acts ++ (run_loop is_set effect answers idle).loop.pending
        ≡ idle.loop.pending ++ queued is_set effect idle.ran acts)
run_loop-Accounts_example = run_loop-Accounts is_set effect answers idle
