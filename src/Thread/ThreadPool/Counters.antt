-- ===== src/Thread/ThreadPool/Counters.antt =====
-- src/thread/ThreadPool.cpp: the pool's counters and its queue, and how each part of its methods changes them.
use mini_rpc.Base.{
  ℕ, ◌+◌, ◌≤◌, ◌<◌, ◌≡◌, List, Bool, true, false, Option, some, length, subst, size_mod, arith,
}
use mini_rpc.Thread.ThreadPool.{
  ThreadPool, Task, has, add, count_thread, thread_exit, queued, counted_up, enqueue_task,
  take_task, finish_task,
}
use mini_rpc.Thread.ThreadPool.System.{
  Phase, awake, about, asleep, holding, unregistered, Move, finishes, Visit, takes,
}
use mini_rpc.Thread.ThreadPool.Queue.{
  pop_top-length, length-remove, length-add, count_thread-some, enqueue_task-queued,
}

abbrev pub is_live : Phase → ℕ
is_live unregistered = 0
is_live _ = 1

abbrev pub is_held : Phase → ℕ
is_held (holding t) = 1
is_held _ = 0

abbrev pub rests : Phase → ℕ
rests (about timed) = 1
rests (asleep timed) = 1
rests _ = 0

-- The pool's counters, against the numbers of live workers and of workers with a task.
pub record IsCounted (p : ThreadPool) (live held : ℕ) : Type 0 where
  pub sized : p.task_queue_size ≡ length p.task_queue
  pub within : length p.task_queue ≤ p.max_task_queue_size
  pub registered : p.current_thread_count ≡ length p.threads
  pub capped : p.current_thread_count ≤ p.max_thread_count
  pub counted : length p.threads ≡ live
  pub idle : p.idle_thread_count + held ≡ live
  pub small : (p.max_thread_count < size_mod) × (p.max_task_queue_size < size_mod)

-- The worker's own part of a total.
abbrev pub Shift : ℕ → ℕ → (Phase → ℕ) → Phase → Phase → Type 0
Shift old new w ph ph' = new + w ph ≡ old + w ph'

pub Move-IsCounted :
    {p p' : ThreadPool} {ph ph' : Phase} {l h l' h' : ℕ}
    → Move p ph p' ph'
    → Shift l l' is_live ph ph'
    → Shift h h' is_held ph ph'
    → IsCounted p l h
    → IsCounted p' l' h'
unfolding finish_task
Move-IsCounted (finishes threw) dl dh c = record {
  sized = c.sized;
  within = c.within;
  registered = c.registered;
  capped = c.capped;
  counted = omega (arith, c.counted, dl);
  idle = omega (arith, c.idle, c.counted, c.registered, c.capped, c.small, dl, dh);
  small = c.small;
}
Move-IsCounted mv dl dh c = record {
  sized = c.sized;
  within = c.within;
  registered = c.registered;
  capped = c.capped;
  counted = omega (arith, c.counted, dl);
  idle = omega (arith, c.idle, dl, dh);
  small = c.small;
}

pub Visit-IsCounted :
    {p p' : ThreadPool} {k : Option Bool} {ph' : Phase} {l h l' h' : ℕ}
    → Visit p k p' ph'
    → Shift l l' is_live (awake k) ph'
    → Shift h h' is_held (awake k) ph'
    → h < l
    → IsCounted p l h
    → IsCounted p' l' h'
unfolding take_task
Visit-IsCounted {p} (takes i {t} {rest} r ne e) dl dh lt c = record {
  sized = omega (arith, c.sized, c.within, c.small, pop_top-length i p.task_queue e);
  within = omega (arith, c.within, pop_top-length i p.task_queue e);
  registered = c.registered;
  capped = c.capped;
  counted = omega (arith, c.counted, dl);
  idle = omega (arith, c.idle, c.counted, c.registered, c.capped, c.small, dl, dh);
  small = c.small;
}
Visit-IsCounted v dl dh lt c = record {
  sized = c.sized;
  within = c.within;
  registered = c.registered;
  capped = c.capped;
  counted = omega (arith, c.counted, dl);
  idle = omega (arith, c.idle, dl, dh);
  small = c.small;
}

pub thread_exit-IsCounted :
    {p : ThreadPool} (i : ℕ) {l h l' : ℕ}
    → has i p.threads ≡ true
    → l' + 1 ≡ l
    → IsCounted p l h
    → h < l
    → IsCounted (thread_exit i p) l' h
unfolding thread_exit
thread_exit-IsCounted {p} i {l} {h} {l'} e dl c lt = rw e (record {
  sized = c.sized;
  within = c.within;
  registered = omega (arith, c.registered, c.capped, c.small, length-remove i p.threads e);
  capped = omega (arith, c.registered, c.capped, c.small, length-remove i p.threads e);
  counted = omega (arith, c.counted, dl, length-remove i p.threads e);
  idle = omega (arith, c.idle, c.counted, c.registered, c.capped, c.small, dl);
  small = c.small;
})

pub count_thread-IsCounted :
    (i : ℕ) {p p' : ThreadPool} {l h l' : ℕ}
    → count_thread p ≡ some p'
    → has i p.threads ≡ false
    → l' ≡ l + 1
    → IsCounted p l h
    → IsCounted (record p' { threads = add i p'.threads }) l' h
count_thread-IsCounted i {p} {p'} {l} {h} {l'} e out dl c =
    subst (λ q. IsCounted (record q { threads = add i q.threads }) l' h) is.1
      (record {
        sized = c.sized;
        within = c.within;
        registered =
            omega (arith, c.registered, c.capped, c.small, length-add i p.threads out, is.0);
        capped = omega (arith, c.capped, c.small, is.0);
        counted = omega (arith, c.counted, dl, length-add i p.threads out);
        idle = omega (arith, c.idle, c.counted, c.registered, c.small, is.0, dl);
        small = c.small;
      })
  where
    is : (p.current_thread_count < p.max_thread_count) × (counted_up p ≡ p')
    is = count_thread-some p p' e

pub enqueue_task-IsCounted :
    (expired : Bool) (t : Task) {p p' : ThreadPool} {l h : ℕ}
    → enqueue_task expired t p ≡ queued p'
    → IsCounted p l h
    → IsCounted p' l h
enqueue_task-IsCounted expired t {p} {p'} {l} {h} e c =
    let (_, room, is) = enqueue_task-queued expired t p p' e in
    subst (λ q. IsCounted q l h) is
      (record {
        sized = omega (arith, c.sized, c.small, room);
        within = omega (arith, c.sized, room);
        registered = c.registered;
        capped = c.capped;
        counted = c.counted;
        idle = c.idle;
        small = c.small;
      })

-- The callbacks and the flag do not matter here.
pub same-IsCounted :
    {p : ThreadPool} {l h : ℕ} {cs : List ℕ} {b : Bool}
    → IsCounted p l h
    → IsCounted (record p { callback_queue = cs; is_running = b }) l h
same-IsCounted c = record {
  sized = c.sized;
  within = c.within;
  registered = c.registered;
  capped = c.capped;
  counted = c.counted;
  idle = c.idle;
  small = c.small;
}
