-- ===== src/Thread/ThreadPool/Shutdown.antt =====
-- src/thread/ThreadPool.cpp, the destructor: the flag, the workers that leave, and the end of its wait.
use mini_rpc.Base.{
  ℕ, zero, suc, ◌+◌, ◌≡◌, ◌≢◌, refl, ap, sym, ◌∙◌, subst, List, [], ◌∷◌, map, Bool, true, false,
  Option, some, arith, if-cases, length, size_mod, ◌<◌,
}
use mini_rpc.Base.Indexed.{get_elem?, set, total, total-set, total-map}
use mini_rpc.Thread.ThreadPool.{
  ThreadPool, set_log_enabled, ThreadPoolConfig, Task, new, has, remove, configure, thread_exit,
  push, grows, take_task, finish_task, run_pending_callbacks,
}
use mini_rpc.Thread.ThreadPool.System.{
  Phase, top, exiting, unregistered, wake, Closing, open_, joined, System, Move, breaks, finishes,
  Visit, quits, waits, takes, after, create_thread, create_threads, start, grow, Step, moves,
  visits, expires, leaves, submits, calls_back, stops, notifies, joins, Reach, here, next,
}
use mini_rpc.Thread.ThreadPool.Queue.{enqueue_task-queued}
use mini_rpc.Thread.ThreadPool.Counters.{is_live}
use mini_rpc.Thread.ThreadPool.Sound.{Reach-IsSound}
use mini_rpc.Thread.ThreadPool.Moves.{IsSound, create_thread-cases, total-push_back}

abbrev pub flag : Closing → Bool
flag open_ = true
flag _ = false

abbrev pub is_exiting : Phase → ℕ
is_exiting exiting = 1
is_exiting _ = 0

-- Workers leave the loop only when the flag is down, and nothing is left after the wait.
pub record IsOrderly (s : System) : Type 0 where
  pub running : s.pool.is_running ≡ flag s.closing
  pub staying : s.pool.is_running ≡ true → total is_exiting s.workers ≡ 0
  pub left : s.closing ≡ joined → s.pool.threads ≡ []

create_thread-IsOrderly :
    (s : System) → s.pool.is_running ≡ true → IsOrderly s → IsOrderly (create_thread s)
create_thread-IsOrderly s runs v = create_thread-cases IsOrderly s v (λ p e room is. record {
  running = subst (λ q. q.is_running ≡ flag s.closing) is v.running;
  staying = λ _. total-push_back is_exiting s.workers top ∙ ap (λ n. n + 0) (v.staying runs) ∙ refl;
  left = λ j. absurd (true-ne (sym runs ∙ v.running ∙ ap flag j));
})
  where
    true-ne : true ≢ false
    true-ne e = cc

pub Move-running :
    {p p' : ThreadPool} {ph ph' : Phase}
    → Move p ph p' ph'
    → (p'.is_running ≡ p.is_running)
      × (p'.threads ≡ p.threads)
      × (p.is_running ≡ true → is_exiting ph' ≡ 0)
unfolding finish_task
Move-running (breaks still) = (refl, refl, λ runs. absurd (cc))
Move-running (finishes threw) = (refl, refl, λ _. refl)
Move-running mv = (refl, refl, λ _. refl)

pub Visit-running :
    {p p' : ThreadPool} {k : Option Bool} {ph' : Phase}
    → Visit p k p' ph'
    → (p'.is_running ≡ p.is_running)
      × (p'.threads ≡ p.threads)
      × (p.is_running ≡ true → is_exiting ph' ≡ 0)
unfolding take_task
Visit-running (quits still) = (refl, refl, λ runs. absurd (cc))
Visit-running (takes i r ne e) = (refl, refl, λ _. refl)
Visit-running (waits e) = (refl, refl, λ _. refl)

pub thread_exit-running :
    (i : ℕ) (p : ThreadPool)
    → ((thread_exit i p).is_running ≡ p.is_running)
      × (p.threads ≡ [] → (thread_exit i p).threads ≡ [])
unfolding thread_exit
thread_exit-running i p =
    if-cases (λ (q : ThreadPool). (q.is_running ≡ p.is_running) × (p.threads ≡ [] → q.threads ≡ []))
      (has i p.threads) (λ _. (refl, λ e. ap (remove i) e)) (λ _. (refl, λ e. e))

-- A worker goes from one place to another.
put-IsOrderly :
    (s : System) (i : ℕ) {ph : Phase} (ph' : Phase) (p' : ThreadPool) (ran : List Task)
    → get_elem? s.workers i ≡ some ph
    → p'.is_running ≡ s.pool.is_running
    → (s.pool.threads ≡ [] → p'.threads ≡ [])
    → (s.pool.is_running ≡ true → is_exiting ph' ≡ 0)
    → IsOrderly s
    → IsOrderly (record s { pool = p'; workers = set s.workers i ph'; ran = ran })
put-IsOrderly s i {ph} ph' p' ran at same none_ stays v = record {
  running = same ∙ v.running;
  staying = λ runs. omega (
    arith,
    total-set is_exiting s.workers i ph ph' at,
    stays (sym same ∙ runs),
    v.staying (sym same ∙ runs),
  );
  left = λ j. none_ (v.left j);
}

pub Step-IsOrderly : {s s' : System} → Step s s' → IsOrderly s → IsOrderly s'
unfolding run_pending_callbacks grow
Step-IsOrderly (moves {s} i {ph} {ph'} {p'} at mv) v =
    let (same, threads, stays) = Move-running mv in
    put-IsOrderly s i ph' p' (after ph s.ran) at same (λ e. threads ∙ e) stays v
Step-IsOrderly (visits {s} i {k} {ph'} {p'} at free vi) v =
    let (same, threads, stays) = Visit-running vi in
    put-IsOrderly s i ph' p' s.ran at same (λ e. threads ∙ e) stays v
Step-IsOrderly (expires {s} i at free idle) v =
    let (same, threads) = thread_exit-running i s.pool in
    put-IsOrderly s i unregistered (thread_exit i s.pool) s.ran at same threads (λ _. refl) v
Step-IsOrderly (leaves {s} i at) v =
    let (same, threads) = thread_exit-running i s.pool in
    put-IsOrderly s i unregistered (thread_exit i s.pool) s.ran at same threads (λ _. refl) v
Step-IsOrderly (submits {s} expired t {p'} free e) v =
    let (runs, _, is) = enqueue_task-queued expired t s.pool p' e in
    subst
      (λ q.
        IsOrderly
          (grow (record s { pool = q; workers = map wake s.workers; accepted = t ∷ s.accepted })))
      is
      (grow-IsOrderly
        (record s { pool = push t s.pool; workers = map wake s.workers; accepted = t ∷ s.accepted })
        runs
        (record {
          running = v.running;
          staying = λ r.
              total-map is_exiting is_exiting wake s.workers (λ ph. ground arith) ∙ v.staying r;
          left = v.left;
        }))
  where
    grow-IsOrderly : (s : System) → s.pool.is_running ≡ true → IsOrderly s → IsOrderly (grow s)
    grow-IsOrderly s runs v =
        if-cases IsOrderly (grows s.pool) (λ _. create_thread-IsOrderly s runs v) (λ _. v)
Step-IsOrderly calls_back v = record { running = v.running; staying = v.staying; left = v.left }
Step-IsOrderly (stops _) v = record {
  running = refl;
  staying = λ r. absurd (cc);
  left = λ j. absurd (cc);
}
Step-IsOrderly (notifies {s} c) v = record {
  running = v.running ∙ ap flag c;
  staying = λ r. total-map is_exiting is_exiting wake s.workers (λ ph. ground arith) ∙ v.staying r;
  left = λ j. absurd (cc);
}
Step-IsOrderly (joins {s} c e) v = record {
  running = v.running ∙ ap flag c;
  staying = v.staying;
  left = λ _. e;
}

create_threads-IsOrderly :
    (n : ℕ) (s : System) → s.closing ≡ open_ → IsOrderly s → IsOrderly (create_threads n s)
unfolding create_threads
create_threads-IsOrderly zero s o v = v
create_threads-IsOrderly (suc n) s o v =
    create_threads-IsOrderly n (create_thread s)
      (create_thread-cases (λ t. t.closing ≡ open_) s o (λ p e room is. o))
      (create_thread-IsOrderly s (v.running ∙ ap flag o) v)

pub Reach-IsOrderly :
    (c : ThreadPoolConfig) (b : Bool) {s : System}
    → Reach (start c (set_log_enabled b new)) s
    → IsOrderly s
unfolding start configure set_log_enabled new
Reach-IsOrderly c b here =
    create_threads-IsOrderly c.init_thread_count _ refl
      (record { running = refl; staying = λ _. refl; left = λ j. absurd (cc) })
Reach-IsOrderly c b (next r st) = Step-IsOrderly st (Reach-IsOrderly c b r)

-- In every state that the pool reaches from Start before its destructor begins, with limits below
-- 2^64: the size counter is the length of the queue, which is within its limit; the thread counter is
-- the number of registered threads and of live workers, within its limit; the idle counter is that
-- number less the workers that hold a task; the set of threads holds the ids of the live workers; at
-- most one worker keeps the mutex between its test and its sleep; where a task is queued, no worker
-- sleeps or is about to; and no worker is on its way out.
pub Reach-IsSound_open :
    (c : ThreadPoolConfig) (b : Bool) {s : System}
    → c.max_thread_count < size_mod
    → c.max_queue_size < size_mod
    → Reach (start c (set_log_enabled b new)) s
    → s.closing ≡ open_
    → IsSound s × (total is_exiting s.workers ≡ 0)
Reach-IsSound_open c b threads tasks r o =
    let v = Reach-IsOrderly c b r in
    (Reach-IsSound c b threads tasks r, v.staying (v.running ∙ ap flag o))

-- After the destructor's wait has ended, every worker is past threadExit.
pub joined-unregistered :
    (c : ThreadPoolConfig) (b : Bool) {s : System}
    → c.max_thread_count < size_mod
    → c.max_queue_size < size_mod
    → Reach (start c (set_log_enabled b new)) s
    → s.closing ≡ joined
    → total is_live s.workers ≡ 0
joined-unregistered c b threads tasks r j =
    sym ((Reach-IsSound c b threads tasks r).count.counted)
    ∙ ap length ((Reach-IsOrderly c b r).left j)
