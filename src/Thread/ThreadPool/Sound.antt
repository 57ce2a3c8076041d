-- ===== src/Thread/ThreadPool/Sound.antt =====
-- src/thread/ThreadPool.cpp: the counters of the pool agree with its queue, its set of threads and its workers.
use mathlib.Core.Path.{subst₂}
use mini_rpc.Base.{ℕ, zero, suc, ◌<◌, refl, ◌∷◌, map, Bool, length, sym, subst, size_mod, arith}
use mini_rpc.Base.Indexed.{set, total, total-set, total-lt}
use mini_rpc.Thread.ThreadPool.{
  set_log_enabled, new, ThreadPoolConfig, configure, run_pending_callbacks,
}
use mini_rpc.Thread.ThreadPool.System.{
  Phase, awake, is_about, wake, System, create_thread, create_threads, start, Step, moves, visits,
  expires, leaves, submits, calls_back, stops, notifies, joins, Reach, here, next,
}
use mini_rpc.Thread.ThreadPool.Queue.{enqueue_task-queued}
use mini_rpc.Thread.ThreadPool.Counters.{
  is_live, is_held, rests, IsCounted, Shift, Move-IsCounted, Visit-IsCounted,
  enqueue_task-IsCounted, same-IsCounted,
}
use mini_rpc.Thread.ThreadPool.Ids.{IsKnown, set-IsKnown, wake-IsKnown}
use mini_rpc.Thread.ThreadPool.Moves.{
  IsSound, create_thread-IsSound, total-wake, total-rests-wake, Moved, Move-Moved, Visited,
  Visit-Visited, ends-IsSound, grow-IsSound, total-rests-le,
}

pub Step-IsSound : {s s' : System} → Step s s' → IsSound s → IsSound s'
unfolding run_pending_callbacks
Step-IsSound (moves {s} i {ph} {ph'} {p'} at mv) v = record {
  count = Move-IsCounted mv (shift is_live) (shift is_held) v.count;
  known =
      subst (λ ids. IsKnown ids (set s.workers i ph')) (sym m.threads)
        (set-IsKnown i ph' at m.live v.known);
  alone = omega (arith, v.alone, shift is_about, m.about_);
  calm =
      λ some_. omega (arith, shift rests, m.rest, v.calm (subst (λ q. 0 < length q) m.queue some_));
}
  where
    shift : (w : Phase → ℕ) → Shift (total w s.workers) (total w (set s.workers i ph')) w ph ph'
    shift w = total-set w s.workers i ph ph' at

    m : Moved s.pool ph p' ph'
    m = Move-Moved mv
Step-IsSound (visits {s} i {k} {ph'} {p'} at free vi) v = record {
  count =
      Visit-IsCounted vi (shift is_live) (shift is_held)
        (total-lt is_held is_live s.workers i (awake k) (λ ph. ground arith) at (omega arith))
        v.count;
  known =
      subst (λ ids. IsKnown ids (set s.workers i ph')) (sym m.threads)
        (set-IsKnown i ph' at refl v.known);
  alone = omega (arith, free, shift is_about, m.about_);
  calm = λ some_.
      omega (arith, shift rests, m.rest some_, m.shorter, v.calm (omega (arith, m.shorter, some_)));
}
  where
    shift :
        (w : Phase → ℕ) → Shift (total w s.workers) (total w (set s.workers i ph')) w (awake k) ph'
    shift w = total-set w s.workers i (awake k) ph' at

    m : Visited s.pool p' ph'
    m = Visit-Visited vi v.count.sized
Step-IsSound (expires {s} i at free idle) v = ends-IsSound s i at refl refl refl v
Step-IsSound (leaves {s} i at) v = ends-IsSound s i at refl refl refl v
Step-IsSound (submits {s} expired t {p'} free e) v =
    grow-IsSound (record s { pool = p'; workers = map wake s.workers; accepted = t ∷ s.accepted })
      (record {
        count =
            subst₂ (λ l h. IsCounted p' l h)
              (sym (total-wake is_live s.workers (λ ph. ground arith)))
              (sym (total-wake is_held s.workers (λ ph. ground arith)))
              (enqueue_task-IsCounted expired t e v.count);
        known =
            subst (λ q. IsKnown q.threads (map wake s.workers))
              ((enqueue_task-queued expired t s.pool p' e).2) (wake-IsKnown v.known);
        alone = omega (arith, free, total-wake is_about s.workers (λ ph. ground arith));
        calm = λ _. total-rests-wake s.workers free;
      })
Step-IsSound calls_back v = record {
  count = same-IsCounted v.count;
  known = v.known;
  alone = v.alone;
  calm = v.calm;
}
Step-IsSound (stops _) v = record {
  count = same-IsCounted v.count;
  known = v.known;
  alone = v.alone;
  calm = v.calm;
}
Step-IsSound (notifies {s} _) v = record {
  count =
      subst₂ (λ l h. IsCounted s.pool l h) (sym (total-wake is_live s.workers (λ ph. ground arith)))
        (sym (total-wake is_held s.workers (λ ph. ground arith))) v.count;
  known = wake-IsKnown v.known;
  alone = omega (arith, v.alone, total-wake is_about s.workers (λ ph. ground arith));
  calm = λ some_. omega (arith, v.calm some_, total-rests-le s.workers);
}
Step-IsSound (joins _ _) v = record {
  count = same-IsCounted v.count;
  known = v.known;
  alone = v.alone;
  calm = v.calm;
}

create_threads-IsSound : (n : ℕ) (s : System) → IsSound s → IsSound (create_threads n s)
unfolding create_threads
create_threads-IsSound zero s v = v
create_threads-IsSound (suc n) s v =
    create_threads-IsSound n (create_thread s) (create_thread-IsSound s v)

start-IsSound :
    (c : ThreadPoolConfig) (b : Bool)
    → c.max_thread_count < size_mod
    → c.max_queue_size < size_mod
    → IsSound (start c (set_log_enabled b new))
unfolding start configure set_log_enabled new
start-IsSound c b threads tasks = create_threads-IsSound c.init_thread_count _ (record {
  count = record {
    sized = refl;
    within = omega arith;
    registered = refl;
    capped = omega arith;
    counted = refl;
    idle = refl;
    small = (threads, tasks);
  };
  known = record { fresh = λ i e. absurd (cc); member = λ i ph e. absurd (cc) };
  alone = omega arith;
  calm = λ _. refl;
})

-- The counters agree in all that the steps reach.
pub Reach-IsSound :
    (c : ThreadPoolConfig) (b : Bool) {s : System}
    → c.max_thread_count < size_mod
    → c.max_queue_size < size_mod
    → Reach (start c (set_log_enabled b new)) s
    → IsSound s
Reach-IsSound c b threads tasks here = start-IsSound c b threads tasks
Reach-IsSound c b threads tasks (next r st) = Step-IsSound st (Reach-IsSound c b threads tasks r)
