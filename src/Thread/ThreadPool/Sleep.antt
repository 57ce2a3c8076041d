-- ===== src/Thread/ThreadPool/Sleep.antt =====
-- src/thread/ThreadPool.cpp: the destructor lowers the flag and notifies without `taskQueueMutex_`, so its
-- `notify_all` can fall between a worker's test and the worker's sleep.
use mini_rpc.Base.{
  ℕ, ◌≡◌, ◌≢◌, refl, ap, sym, ◌∙◌, subst, List, true, false, Option, none, some, if-cases,
}
use mini_rpc.Base.Indexed.{get_elem?, set, get_elem?-set_ne}
use mini_rpc.Thread.ThreadPool.{
  ThreadPool, Task, has, thread_exit, take_task, finish_task, run_pending_callbacks,
}
use mini_rpc.Thread.ThreadPool.System.{
  Phase, asleep, unregistered, notified, System, goes_on, breaks, sleeps, wakes, finishes, quits,
  waits, takes, Step, moves, visits, expires, leaves, submits, calls_back, stops, notifies, joins,
}
use mini_rpc.Thread.ThreadPool.Queue.{enqueue_task-queued, has-remove_ne}

-- The destructor has notified, and a worker that it waits for sleeps without a time limit.
pub record IsStuck (i : ℕ) (s : System) : Type 0 where
  pub told : s.closing ≡ notified
  pub still : s.pool.is_running ≡ false
  pub waited : has i s.pool.threads ≡ true
  pub sleeping : get_elem? s.workers i ≡ some (asleep false)

-- The worker that a step wakes though nobody notified it.
unfoldable pub woken : {s s' : System} → Step s s' → Option ℕ
woken (moves i at wakes) = some i
woken st = none

-- Steps that do not wake the worker by themselves.
pub data Quiet (i : ℕ) (from : System) : System → Type 0 where
  stays : Quiet i from from
  goes : {s s' : System} → Quiet i from s → (st : Step s s') → woken st ≢ some i → Quiet i from s'

put-IsStuck :
    (i j : ℕ) (s : System) (p' : ThreadPool) (ph' : Phase) (ran : List Task)
    → j ≢ i
    → p'.is_running ≡ s.pool.is_running
    → has i p'.threads ≡ has i s.pool.threads
    → IsStuck i s
    → IsStuck i (record s { pool = p'; workers = set s.workers j ph'; ran = ran })
put-IsStuck i j s p' ph' ran ne same threads v = record {
  told = v.told;
  still = same ∙ v.still;
  waited = threads ∙ v.waited;
  sleeping = get_elem?-set_ne s.workers j i ph' ne ∙ v.sleeping;
}

-- Who is not asleep for good is another worker.
other :
    (i j : ℕ) (s : System) {ph : Phase}
    → get_elem? s.workers j ≡ some ph
    → ph ≢ asleep false
    → IsStuck i s
    → j ≢ i
other i j s {ph} at ne v e =
    ne (go (sym at ∙ subst (λ k. get_elem? s.workers k ≡ some (asleep false)) (sym e) v.sleeping))
  where
    go : some ph ≡ some (asleep false) → ph ≡ asleep false
    go e = cc

exit-IsStuck :
    (i j : ℕ) (s : System)
    → j ≢ i
    → IsStuck i s
    → IsStuck i (record s { pool = thread_exit j s.pool; workers = set s.workers j unregistered })
exit-IsStuck i j s ne v =
    put-IsStuck i j s (thread_exit j s.pool) unregistered s.ran ne same.0 same.1 v
  where
    same :
        ((thread_exit j s.pool).is_running ≡ s.pool.is_running)
        × (has i (thread_exit j s.pool).threads ≡ has i s.pool.threads)
    same =
        unfold thread_exit in
        if-cases
          (λ (q : ThreadPool).
            (q.is_running ≡ s.pool.is_running) × (has i q.threads ≡ has i s.pool.threads))
          (has j s.pool.threads) (λ _. (refl, has-remove_ne j i s.pool.threads ne))
          (λ _. (refl, refl))

Step-IsStuck :
    (i : ℕ) {s s' : System} (st : Step s s') → woken st ≢ some i → IsStuck i s → IsStuck i s'
unfolding woken take_task finish_task run_pending_callbacks
Step-IsStuck i (moves {s} j at (goes_on e)) quiet v =
    put-IsStuck i j s _ _ _ (other i j s at (λ e. cc) v) refl refl v
Step-IsStuck i (moves {s} j at (breaks e)) quiet v =
    put-IsStuck i j s _ _ _ (other i j s at (λ e. cc) v) refl refl v
Step-IsStuck i (moves {s} j at sleeps) quiet v =
    put-IsStuck i j s _ _ _ (other i j s at (λ e. cc) v) refl refl v
Step-IsStuck i (moves {s} j at wakes) quiet v =
    put-IsStuck i j s _ _ _ (λ e. quiet (ap some e)) refl refl v
Step-IsStuck i (moves {s} j at (finishes threw)) quiet v =
    put-IsStuck i j s _ _ _ (other i j s at (λ e. cc) v) refl refl v
Step-IsStuck i (visits {s} j at free (quits e)) quiet v =
    put-IsStuck i j s _ _ _ (other i j s at (λ e. cc) v) refl refl v
Step-IsStuck i (visits {s} j at free (waits e)) quiet v =
    put-IsStuck i j s _ _ _ (other i j s at (λ e. cc) v) refl refl v
Step-IsStuck i (visits {s} j at free (takes k r ne e)) quiet v =
    put-IsStuck i j s _ _ _ (other i j s at (λ e. cc) v) refl refl v
Step-IsStuck i (expires {s} j at free idle) quiet v =
    exit-IsStuck i j s (other i j s at (λ e. cc) v) v
Step-IsStuck i (leaves {s} j at) quiet v = exit-IsStuck i j s (other i j s at (λ e. cc) v) v
Step-IsStuck i (submits {s} expired t {p'} free e) quiet v =
    absurd (cc (sym ((enqueue_task-queued expired t s.pool p' e).0) ∙ v.still))
Step-IsStuck i calls_back quiet v = record {
  told = v.told;
  still = v.still;
  waited = v.waited;
  sleeping = v.sleeping;
}
Step-IsStuck i (stops e) quiet v = absurd (cc (sym e ∙ v.told))
Step-IsStuck i (notifies e) quiet v = absurd (cc (sym e ∙ v.told))
Step-IsStuck i (joins {s} e none_) quiet v = absurd (cc (sym v.waited ∙ ap (has i) none_))

-- Once the destructor has lowered the flag and notified, a registered worker that sleeps without a
-- time limit stays so through all steps of the pool but its own spurious wake-up, and the destructor
-- goes on waiting.
pub Quiet-IsStuck : (i : ℕ) {s s' : System} → Quiet i s s' → IsStuck i s → IsStuck i s'
Quiet-IsStuck i stays v = v
Quiet-IsStuck i (goes q st quiet) v = Step-IsStuck i st quiet (Quiet-IsStuck i q v)
