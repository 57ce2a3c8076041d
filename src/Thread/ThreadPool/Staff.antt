-- ===== src/Thread/ThreadPool/Staff.antt =====
-- src/thread/ThreadPool.cpp: a running pool with a queued task has a worker. A fixed pool never loses one, and
-- `enqueueTask` makes a cached pool without one grow.
use mini_rpc.Base.{
  ℕ, zero, suc, ◌<◌, ◌≡◌, ◌≢◌, refl, ap, sym, ◌∙◌, subst, List, ◌∷◌, map, Bool, true, some, arith,
  if-cases, length, size_mod, if◌then◌else◌, inl, inr, ◌⊎◌, lt→ltb,
}
use native.Mathlib.Decide.{dec_lt}
use mini_rpc.Base.Indexed.{get_elem?, set, total, total-elem, total-set, total-map}
use mini_rpc.Thread.ThreadPool.{
  ThreadPool, set_log_enabled, PoolMode, fixed, cached, ThreadPoolConfig, Task, new, has, configure,
  thread_exit, push, grows, run_pending_callbacks,
}
use mini_rpc.Thread.ThreadPool.System.{
  Phase, awake, asleep, exiting, unregistered, wake, System, after, create_thread, create_threads,
  start, grow, Step, moves, visits, expires, leaves, submits, calls_back, stops, notifies, joins,
  Reach, here, next,
}
use mini_rpc.Thread.ThreadPool.Queue.{enqueue_task-queued}
use mini_rpc.Thread.ThreadPool.Shutdown.{is_exiting, IsOrderly, Reach-IsOrderly}
use mini_rpc.Thread.ThreadPool.Sound.{Reach-IsSound}
use mini_rpc.Thread.ThreadPool.Moves.{IsSound}
use mini_rpc.Thread.ThreadPool.Frame.{
  is_timed, IsStaffed, create_thread-pos, create_thread-room, Frame, create_thread-Frame,
  idle_empty, Same, Move-Same, Visit-Same,
}

put-IsStaffed :
    (c : ThreadPoolConfig) (s : System) (i : ℕ) (ph ph' : Phase) (p' : ThreadPool) (ran : List Task)
    → get_elem? s.workers i ≡ some ph
    → Same s.pool p' ph ph'
    → IsStaffed c s
    → IsStaffed c (record s { pool = p'; workers = set s.workers i ph'; ran = ran })
put-IsStaffed c s i ph ph' p' ran at m v = record {
  mode = m.mode ∙ v.mode;
  cap = omega (arith, v.cap, m.cap);
  untimed = λ is.
      omega (arith, v.untimed is, total-set is_timed s.workers i ph ph' at, m.timed (v.mode ∙ is));
  kept = λ is runs. omega (arith, ap length m.threads, v.kept is (sym m.running ∙ runs));
  manned = λ runs some_. omega (
    arith,
    ap length m.threads,
    v.manned (sym m.running ∙ runs) (omega (arith, m.shorter, some_)),
  );
}

thread_exit-Frame :
    (i : ℕ) (p : ThreadPool)
    → ((thread_exit i p).mode ≡ p.mode)
      × ((thread_exit i p).max_thread_count ≡ p.max_thread_count)
      × ((thread_exit i p).is_running ≡ p.is_running)
      × ((thread_exit i p).task_queue ≡ p.task_queue)
unfolding thread_exit
thread_exit-Frame i p =
    if-cases
      (λ (q : ThreadPool).
        (q.mode ≡ p.mode)
        × (q.max_thread_count ≡ p.max_thread_count)
        × (q.is_running ≡ p.is_running)
        × (q.task_queue ≡ p.task_queue))
      (has i p.threads) (λ _. (refl, refl, refl, refl)) (λ _. (refl, refl, refl, refl))

-- A worker ends: for want of work, or after the flag went down.
ends-IsStaffed :
    (c : ThreadPoolConfig) (s : System) (i : ℕ) (ph : Phase)
    → get_elem? s.workers i ≡ some ph
    → (c.mode ≡ fixed → s.pool.is_running ≢ true)
    → (s.pool.is_running ≡ true → length s.pool.task_queue ≡ 0)
    → IsStaffed c s
    → IsStaffed c (record s { pool = thread_exit i s.pool; workers = set s.workers i unregistered })
ends-IsStaffed c s i ph at stays done v =
    let (mode, cap, running, queue) = thread_exit-Frame i s.pool in
    record {
      mode = mode ∙ v.mode;
      cap = omega (arith, v.cap, cap);
      untimed =
          λ is. omega (arith, v.untimed is, total-set is_timed s.workers i ph unregistered at);
      kept = λ is runs. absurd (stays is (sym running ∙ runs));
      manned =
          λ runs some_. absurd (omega (arith, some_, ap length queue, done (sym running ∙ runs)));
    }

wake-timed : (ws : List Phase) → total is_timed (map wake ws) ≡ total is_timed ws
wake-timed ws = total-map is_timed is_timed wake ws (λ ph. ground arith)

grow-Frame : (s : System) → Frame s (grow s)
unfolding grow
grow-Frame s =
    if-cases (Frame s) (grows s.pool) (λ _. create_thread-Frame s)
      (λ _. record { mode = refl; cap = refl; running = refl; timed = refl })

grow-pos : (s : System) → 0 < length s.pool.threads → 0 < length (grow s).pool.threads
unfolding grow
grow-pos s h =
    if-cases (λ (t : System). 0 < length t.pool.threads) (grows s.pool) (λ _. create_thread-pos s h)
      (λ _. h)

grows-cached :
    (p : ThreadPool)
    → p.mode ≡ cached
    → p.idle_thread_count < p.task_queue_size
    → p.current_thread_count < p.max_thread_count
    → grows p ≡ true
unfolding grows
grows-cached p is busy room = rw is (rw (lt→ltb _ _ busy) (rw (lt→ltb _ _ room) refl))

-- With a task and no thread, a cached pool grows.
grow-cached :
    (s : System)
    → s.pool.mode ≡ cached
    → s.pool.idle_thread_count < s.pool.task_queue_size
    → s.pool.current_thread_count < s.pool.max_thread_count
    → 0 < length (grow s).pool.threads
unfolding grow
grow-cached s is busy room =
    subst (λ b. 0 < length (if b then create_thread s else s).pool.threads)
      (sym (grows-cached s.pool is busy room)) (create_thread-room s room)

mode-cases : (m : PoolMode) → (m ≡ fixed) ⊎ (m ≡ cached)
mode-cases fixed = inl refl
mode-cases cached = inr refl

submits-IsStaffed :
    (c : ThreadPoolConfig) (s : System) (t : Task)
    → s.pool.is_running ≡ true
    → s.pool.task_queue_size < s.pool.max_task_queue_size
    → IsSound s
    → IsStaffed c s
    → IsStaffed c (
        grow (record s {
          pool = push t s.pool;
          workers = map wake s.workers;
          accepted = t ∷ s.accepted;
        }))
submits-IsStaffed c s t runs room sound v =
    let u : System = record s {
      pool = push t s.pool;
      workers = map wake s.workers;
      accepted = t ∷ s.accepted;
    } in
    let f = grow-Frame u in
    let some_ : 0 < length (grow u).pool.threads = elim (mode-cases c.mode) [
      | inl is ↦ grow-pos u (v.kept is runs)
      | inr is ↦ elim (dec_lt 0 (length s.pool.threads)) [
        | yes pos ↦ grow-pos u pos
        | no none_ ↦
            grow-cached u (v.mode ∙ is)
              (omega (arith, none_, sound.count.idle, sound.count.counted, sound.count.small, room))
              (omega (arith, none_, v.cap, sound.count.registered))
      ]
    ] in
    record {
      mode = f.mode ∙ v.mode;
      cap = omega (arith, f.cap, v.cap);
      untimed = λ is. f.timed ∙ wake-timed s.workers ∙ v.untimed is;
      kept = λ _ _. some_;
      manned = λ _ _. some_;
    }

Step-IsStaffed :
    (c : ThreadPoolConfig) {s s' : System}
    → Step s s'
    → IsSound s
    → IsOrderly s
    → IsStaffed c s
    → IsStaffed c s'
unfolding run_pending_callbacks
Step-IsStaffed c (moves {s} i {ph} {ph'} {p'} at mv) sound orderly v =
    put-IsStaffed c s i ph ph' p' (after ph s.ran) at (Move-Same mv) v
Step-IsStaffed c (visits {s} i {k} {ph'} {p'} at free vi) sound orderly v =
    put-IsStaffed c s i (awake k) ph' p' s.ran at (Visit-Same vi) v
Step-IsStaffed c (expires {s} i at free none_) sound orderly v =
    ends-IsStaffed c s i (asleep true) at
      (λ is runs. omega (arith, total-elem is_timed s.workers i at, v.untimed is))
      (λ runs. idle_empty s.pool none_ sound.count.sized) v
Step-IsStaffed c (leaves {s} i at) sound orderly v =
    let no_ : s.pool.is_running ≢ true =
      λ runs. omega (arith, total-elem is_exiting s.workers i at, orderly.staying runs) in
    ends-IsStaffed c s i exiting at (λ is runs. no_ runs) (λ runs. absurd (no_ runs)) v
Step-IsStaffed c (submits {s} expired t {p'} free e) sound orderly v =
    let (runs, room, is) = enqueue_task-queued expired t s.pool p' e in
    subst
      (λ q.
        IsStaffed c
          (grow (record s { pool = q; workers = map wake s.workers; accepted = t ∷ s.accepted })))
      is (submits-IsStaffed c s t runs room sound v)
Step-IsStaffed c calls_back sound orderly v = record {
  mode = v.mode;
  cap = v.cap;
  untimed = v.untimed;
  kept = v.kept;
  manned = v.manned;
}
Step-IsStaffed c (stops _) sound orderly v = record {
  mode = v.mode;
  cap = v.cap;
  untimed = v.untimed;
  kept = λ _ r. absurd (cc);
  manned = λ r _. absurd (cc);
}
Step-IsStaffed c (notifies {s} _) sound orderly v = record {
  mode = v.mode;
  cap = v.cap;
  untimed = λ is. wake-timed s.workers ∙ v.untimed is;
  kept = v.kept;
  manned = v.manned;
}
Step-IsStaffed c (joins _ _) sound orderly v = record {
  mode = v.mode;
  cap = v.cap;
  untimed = v.untimed;
  kept = v.kept;
  manned = v.manned;
}

create_threads-IsStaffed :
    (c : ThreadPoolConfig) (n : ℕ) (s : System)
    → 0 < length s.pool.threads
    → s.pool.mode ≡ c.mode
    → 0 < s.pool.max_thread_count
    → total is_timed s.workers ≡ 0
    → IsStaffed c (create_threads n s)
unfolding create_threads
create_threads-IsStaffed c zero s pos mode cap untimed = record {
  mode = mode;
  cap = cap;
  untimed = λ _. untimed;
  kept = λ _ _. pos;
  manned = λ _ _. pos;
}
create_threads-IsStaffed c (suc n) s pos mode cap untimed =
    let f = create_thread-Frame s in
    create_threads-IsStaffed c n (create_thread s) (create_thread-pos s pos) (f.mode ∙ mode)
      (omega (arith, f.cap, cap)) (f.timed ∙ untimed)

-- `Start` with a first thread to make, and room for it.
start-IsStaffed :
    (c : ThreadPoolConfig) (n : ℕ) (s : System)
    → s.pool.current_thread_count < s.pool.max_thread_count
    → s.pool.mode ≡ c.mode
    → total is_timed s.workers ≡ 0
    → 0 < n
    → IsStaffed c (create_threads n s)
unfolding create_threads
start-IsStaffed c zero s room mode untimed pos = absurd (omega arith)
start-IsStaffed c (suc n) s room mode untimed pos =
    let f = create_thread-Frame s in
    create_threads-IsStaffed c n (create_thread s) (create_thread-room s room) (f.mode ∙ mode)
      (omega (arith, f.cap, room)) (f.timed ∙ untimed)

pub Reach-IsStaffed :
    (c : ThreadPoolConfig) (b : Bool) {s : System}
    → c.max_thread_count < size_mod
    → c.max_queue_size < size_mod
    → 0 < c.init_thread_count
    → 0 < c.max_thread_count
    → Reach (start c (set_log_enabled b new)) s
    → IsStaffed c s
unfolding start configure set_log_enabled new
Reach-IsStaffed c b threads tasks some_ cap here =
    start-IsStaffed c c.init_thread_count _ cap refl refl some_
Reach-IsStaffed c b threads tasks some_ cap (next r st) =
    Step-IsStaffed c st (Reach-IsSound c b threads tasks r) (Reach-IsOrderly c b r)
      (Reach-IsStaffed c b threads tasks some_ cap r)
