-- ===== src/Thread/ThreadPool/Frame.antt =====
-- src/thread/ThreadPool.cpp: what the steps keep of the pool's mode, limit, flag and waits.
use mini_rpc.Base.{
  ℕ, ◌≤◌, ◌<◌, ◌≡◌, refl, ap, sym, subst, List, [], ◌∷◌, Bool, true, false, Option, none, some,
  arith, if-cases, length, leb, inl, inr, Bool-cases, leb→le,
}
use mini_rpc.Base.Indexed.{total}
use mini_rpc.Thread.ThreadPool.{
  ThreadPool, fixed, ThreadPoolConfig, has, add, has_work, waits_timed, take_task, finish_task,
  counted_up, count_thread,
}
use mini_rpc.Thread.ThreadPool.System.{
  Phase, top, awake, about, asleep, wait_kind, System, Move, finishes, Visit, quits, waits, takes,
  create_thread, with_thread,
}
use mini_rpc.Thread.ThreadPool.Queue.{pop_top-length}
use mini_rpc.Thread.ThreadPool.Moves.{create_thread-cases, total-push_back}

-- A worker whose wait has a time limit.
abbrev pub is_timed : Phase → ℕ
is_timed (about true) = 1
is_timed (asleep true) = 1
is_timed (awake (some true)) = 1
is_timed _ = 0

pub record IsStaffed (c : ThreadPoolConfig) (s : System) : Type 0 where
  pub mode : s.pool.mode ≡ c.mode
  pub cap : 0 < s.pool.max_thread_count
  pub untimed : c.mode ≡ fixed → total is_timed s.workers ≡ 0
  pub kept : c.mode ≡ fixed → s.pool.is_running ≡ true → 0 < length s.pool.threads
  pub manned : s.pool.is_running ≡ true → 0 < length s.pool.task_queue → 0 < length s.pool.threads

pub length-add_pos : (i : ℕ) (ids : List ℕ) → 0 < length (add i ids)
length-add_pos i [] = omega arith
length-add_pos i (x ∷ xs) =
    if-cases (λ (r : List ℕ). 0 < length r) (has i (x ∷ xs)) (λ _. omega arith) (λ _. omega arith)

-- A thread more, or none: there is a thread after `CreateThread` if there was one, or room.
pub create_thread-pos :
    (s : System) → 0 < length s.pool.threads → 0 < length (create_thread s).pool.threads
create_thread-pos s h =
    create_thread-cases (λ t. 0 < length t.pool.threads) s h
      (λ p e room is. length-add_pos (length s.workers) p.threads)

pub count_thread-room :
    (p : ThreadPool)
    → p.current_thread_count < p.max_thread_count
    → count_thread p ≡ some (counted_up p)
unfolding count_thread
count_thread-room p room = elim (Bool-cases (leb p.max_thread_count p.current_thread_count)) [
  | inl full ↦ absurd (omega (arith, room, leb→le _ _ full))
  | inr e ↦ rw e refl
]

pub create_thread-room :
    (s : System)
    → s.pool.current_thread_count < s.pool.max_thread_count
    → 0 < length (create_thread s).pool.threads
unfolding create_thread
create_thread-room s room =
    subst
      (λ o.
        0 < length (elim o as (λ _. System) [ none ↦ s | some p ↦ with_thread s p ]).pool.threads)
      (sym (count_thread-room s.pool room)) (length-add_pos (length s.workers) s.pool.threads)

-- `CreateThread` and the mode, the limit, the flag, the queue and the waits.
pub record Frame (s t : System) : Type 0 where
  pub mode : t.pool.mode ≡ s.pool.mode
  pub cap : t.pool.max_thread_count ≡ s.pool.max_thread_count
  pub running : t.pool.is_running ≡ s.pool.is_running
  pub timed : total is_timed t.workers ≡ total is_timed s.workers

pub create_thread-Frame : (s : System) → Frame s (create_thread s)
create_thread-Frame s =
    create_thread-cases (Frame s) s
      (record { mode = refl; cap = refl; running = refl; timed = refl })
      (λ p e room is. record {
        mode = ap (λ q. q.mode) (sym is);
        cap = ap (λ q. q.max_thread_count) (sym is);
        running = ap (λ q. q.is_running) (sym is);
        timed = omega (arith, total-push_back is_timed s.workers top);
      })

-- What a worker's step keeps of the pool, and that it begins no wait with a limit in a fixed pool.
pub idle_empty :
    (p : ThreadPool)
    → has_work p ≡ false
    → p.task_queue_size ≡ length p.task_queue
    → length p.task_queue ≡ 0
unfolding has_work
idle_empty p e sized = ground arith

pub record Same (p p' : ThreadPool) (ph ph' : Phase) : Type 0 where
  pub mode : p'.mode ≡ p.mode
  pub cap : p'.max_thread_count ≡ p.max_thread_count
  pub running : p'.is_running ≡ p.is_running
  pub threads : p'.threads ≡ p.threads
  pub shorter : length p'.task_queue ≤ length p.task_queue
  pub timed : p.mode ≡ fixed → is_timed ph' ≤ is_timed ph

pub Move-Same : {p p' : ThreadPool} {ph ph' : Phase} → Move p ph p' ph' → Same p p' ph ph'
unfolding finish_task
Move-Same (finishes threw) = record {
  mode = refl;
  cap = refl;
  running = refl;
  threads = refl;
  shorter = omega arith;
  timed = λ _. omega arith;
}
Move-Same mv = record {
  mode = refl;
  cap = refl;
  running = refl;
  threads = refl;
  shorter = omega arith;
  timed = λ _. ground arith;
}

pub Visit-Same :
    {p p' : ThreadPool} {k : Option Bool} {ph' : Phase} → Visit p k p' ph' → Same p p' (awake k) ph'
unfolding take_task
Visit-Same (quits still) = record {
  mode = refl;
  cap = refl;
  running = refl;
  threads = refl;
  shorter = omega arith;
  timed = λ _. omega arith;
}
Visit-Same {p} (takes i r ne e) = record {
  mode = refl;
  cap = refl;
  running = refl;
  threads = refl;
  shorter = omega (arith, pop_top-length i p.task_queue e);
  timed = λ _. omega arith;
}
Visit-Same {p} {k} (waits e) = record {
  mode = refl;
  cap = refl;
  running = refl;
  threads = refl;
  shorter = omega arith;
  timed = λ is. limit k is;
}
  where
    limit :
        (k : Option Bool) → p.mode ≡ fixed → is_timed (about (wait_kind k p)) ≤ is_timed (awake k)
    limit none is = unfold waits_timed in rw is (omega arith)
    limit (some true) is = omega arith
    limit (some false) is = omega arith
