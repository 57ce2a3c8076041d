-- ===== src/Thread/ThreadPool/Moves.antt =====
-- src/thread/ThreadPool.cpp: what the counters, the queue and the workers have to do with each other, and the parts of a step.
use mini_rpc.Base.{
  ℕ, ◌+◌, ◌≤◌, ◌<◌, ◌≡◌, refl, ◌∙◌, List, [], ◌∷◌, ◌++◌, map, Bool, true, Option, some, length, sym,
  subst, inl, inr, Option-cases, arith, if-cases,
}
use mini_rpc.Base.Indexed.{get_elem?, set, total, total-set, total-append, total-map, total-lt}
use mini_rpc.Thread.ThreadPool.{
  ThreadPool, has, add, count_thread, thread_exit, counted_up, grows, has_work, take_task,
  finish_task,
}
use mini_rpc.Thread.ThreadPool.System.{
  Phase, top, unregistered, is_about, wake, System, Move, finishes, Visit, quits, waits, takes,
  create_thread, with_thread, grow,
}
use mini_rpc.Thread.ThreadPool.Queue.{pop_top-length, thread_exit-has, count_thread-some}
use mini_rpc.Thread.ThreadPool.Counters.{
  is_live, is_held, rests, IsCounted, Shift, thread_exit-IsCounted, count_thread-IsCounted,
}
use mini_rpc.Thread.ThreadPool.Ids.{IsKnown, exit-IsKnown, add-IsKnown, length-IsFresh}

pub record IsSound (s : System) : Type 0 where
  pub count : IsCounted s.pool (total is_live s.workers) (total is_held s.workers)
  pub known : IsKnown s.pool.threads s.workers
  pub alone : total is_about s.workers ≤ 1
  pub calm : 0 < length s.pool.task_queue → total rests s.workers ≡ 0

-- A property that holds before and after a thread is added holds of `create_thread`.
pub create_thread-cases {κ} :
    (P : System → Type κ) (s : System)
    → P s
    → ((p : ThreadPool)
        → count_thread s.pool ≡ some p
        → s.pool.current_thread_count < s.pool.max_thread_count
        → counted_up s.pool ≡ p
        → P (with_thread s p))
    → P (create_thread s)
unfolding create_thread
create_thread-cases P s same more = elim (Option-cases (count_thread s.pool)) [
  | inl full ↦ rw (full, create_thread) same
  | inr (p, e) ↦
      let (room, is) = count_thread-some s.pool p e in rw (e, create_thread) (more p e room is)
]

pub total-push_back :
    {A : Type 0} (w : A → ℕ) (ws : List A) (a : A) → total w (ws ++ (a ∷ [])) ≡ total w ws + w a
total-push_back w ws a = omega (arith, total-append w ws (a ∷ []))

pub create_thread-IsSound : (s : System) → IsSound s → IsSound (create_thread s)
create_thread-IsSound s v = create_thread-cases IsSound s v (λ p e room is. record {
  count = count_thread-IsCounted (length s.workers) e (length-IsFresh v.known) (more is_live) (
      subst (λ h. IsCounted s.pool (total is_live s.workers) h) (sym (more is_held ∙ omega arith))
        v.count);
  known =
      subst (λ q. IsKnown (add (length s.workers) q.threads) (s.workers ++ (top ∷ []))) is
        (add-IsKnown v.known);
  alone = omega (arith, more is_about, v.alone);
  calm = λ some_.
      more rests ∙ omega (arith, v.calm (subst (λ q. 0 < length q.task_queue) (sym is) some_));
})
  where
    more : (w : Phase → ℕ) → total w (s.workers ++ (top ∷ [])) ≡ total w s.workers + w top
    more w = total-push_back w s.workers top

pub total-wake :
    (w : Phase → ℕ) (ws : List Phase)
    → ((ph : Phase) → w (wake ph) ≡ w ph)
    → total w (map wake ws) ≡ total w ws
total-wake w ws h = total-map w w wake ws h

-- After `notify_all`, with no worker on its way to sleep, none rests.
pub total-rests-wake : (ws : List Phase) → total is_about ws ≡ 0 → total rests (map wake ws) ≡ 0
total-rests-wake ws free = total-map rests is_about wake ws (λ ph. ground arith) ∙ free

-- What moves and visits do to the set of threads, to the queue and to the worker's weights.
pub record Moved (p : ThreadPool) (ph : Phase) (p' : ThreadPool) (ph' : Phase) : Type 0 where
  pub threads : p'.threads ≡ p.threads
  pub queue : p'.task_queue ≡ p.task_queue
  pub live : is_live ph ≡ 1
  pub about_ : is_about ph' ≤ is_about ph
  pub rest : rests ph' ≤ rests ph

pub Move-Moved : {p p' : ThreadPool} {ph ph' : Phase} → Move p ph p' ph' → Moved p ph p' ph'
unfolding finish_task
Move-Moved (finishes threw) = record {
  threads = refl;
  queue = refl;
  live = refl;
  about_ = omega arith;
  rest = omega arith;
}
Move-Moved mv = record {
  threads = refl;
  queue = refl;
  live = refl;
  about_ = omega arith;
  rest = omega arith;
}

pub record Visited (p p' : ThreadPool) (ph' : Phase) : Type 0 where
  pub threads : p'.threads ≡ p.threads
  pub shorter : length p'.task_queue ≤ length p.task_queue
  pub about_ : is_about ph' ≤ 1
  pub rest : 0 < length p'.task_queue → rests ph' ≡ 0

pub Visit-Visited :
    {p p' : ThreadPool} {k : Option Bool} {ph' : Phase}
    → Visit p k p' ph'
    → p.task_queue_size ≡ length p.task_queue
    → Visited p p' ph'
unfolding take_task has_work
Visit-Visited {p} (takes i r ne e) sized = record {
  threads = refl;
  shorter = omega (arith, pop_top-length i p.task_queue e);
  about_ = omega arith;
  rest = λ _. refl;
}
Visit-Visited (quits still) sized = record {
  threads = refl;
  shorter = omega arith;
  about_ = omega arith;
  rest = λ _. refl;
}
Visit-Visited (waits none_) sized = record {
  threads = refl;
  shorter = omega arith;
  about_ = omega arith;
  rest = λ some_. absurd (ground arith);
}

-- A worker ends: by `threadExit`, from a place that is neither a task nor a wait without the mutex.
pub ends-IsSound :
    (s : System) (i : ℕ) {ph : Phase}
    → get_elem? s.workers i ≡ some ph
    → is_live ph ≡ 1
    → is_held ph ≡ 0
    → is_about ph ≡ 0
    → IsSound s
    → IsSound (record s { pool = thread_exit i s.pool; workers = set s.workers i unregistered })
ends-IsSound s i {ph} at live held_ about_ v = record {
  count =
      subst (λ h. IsCounted (thread_exit i s.pool) (total is_live (set s.workers i unregistered)) h)
        (omega (arith, shift is_held, held_))
        (thread_exit-IsCounted i present (omega (arith, shift is_live, live)) v.count (
          total-lt is_held is_live s.workers i ph (λ a. ground arith) at
            (omega (arith, live, held_))));
  known =
      subst (λ ids. IsKnown ids (set s.workers i unregistered))
        (sym ((thread_exit-has i s.pool present).0)) (exit-IsKnown i v.known);
  alone = omega (arith, shift is_about, v.alone);
  calm = λ some_. omega (
    arith,
    shift rests,
    v.calm (subst (λ q. 0 < length q) ((thread_exit-has i s.pool present).1) some_),
  );
}
  where
    shift :
        (w : Phase → ℕ)
        → Shift (total w s.workers) (total w (set s.workers i unregistered)) w ph unregistered
    shift w = total-set w s.workers i ph unregistered at

    present : has i s.pool.threads ≡ true
    present = v.known.member i ph at live

pub grow-IsSound : (s : System) → IsSound s → IsSound (grow s)
unfolding grow
grow-IsSound s v = if-cases IsSound (grows s.pool) (λ _. create_thread-IsSound s v) (λ _. v)

pub total-rests-le : (ws : List Phase) → total rests (map wake ws) ≤ total rests ws
total-rests-le [] = omega arith
total-rests-le (ph ∷ ws) = ground (arith, total-rests-le ws)
