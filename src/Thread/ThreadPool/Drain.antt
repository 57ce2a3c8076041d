-- ===== src/Thread/ThreadPool/Drain.antt =====
-- src/thread/ThreadPool.cpp: while the pool is open, its workers run every task that was accepted.
use mini_rpc.Base.{
  List-cases, ℕ, zero, suc, ◌<◌, ◌≡◌, refl, ap, sym, ◌∙◌, List, [], ◌∷◌, Bool, false, some, arith,
  length, size_mod, inl, inr,
}
use native.Mathlib.Decide.{dec_lt}
use mini_rpc.Base.Indexed.{set, get_elem?, total, total-set}
use mini_rpc.Thread.ThreadPool.{set_log_enabled, ThreadPoolConfig, Task, new, finish_task}
use mini_rpc.Thread.ThreadPool.System.{
  next, top, Phase, top, holding, open_, System, finishes, start, Step, moves, visits, Reach,
}
use mini_rpc.Thread.ThreadPool.Counters.{is_held}
use mini_rpc.Thread.ThreadPool.Staff.{Reach-IsStaffed}
use mini_rpc.Thread.ThreadPool.Shutdown.{flag, Reach-IsOrderly}
use mini_rpc.Thread.ThreadPool.Sound.{Reach-IsSound}
use mini_rpc.Thread.ThreadPool.Tasks.{carried, accepted-placed}
use mini_rpc.Thread.ThreadPool.Progress.{Works, done, then_, Drained, drains_within, backlog}

Works-trans : {s s' s'' : System} → Works s s' → Works s' s'' → Works s s''
Works-trans done more = more
Works-trans (then_ st w rest) more = then_ st w (Works-trans rest more)

Works-Reach : {from s s' : System} → Reach from s → Works s s' → Reach from s'
Works-Reach r done = r
Works-Reach r (then_ st w rest) = Works-Reach (next r st) rest

-- Workers accept nothing.
Works-accepted : {s s' : System} → Works s s' → s'.accepted ≡ s.accepted
Works-accepted done = refl
Works-accepted (then_ (moves i at mv) w rest) = Works-accepted rest
Works-accepted (then_ (visits i at free vi) w rest) = Works-accepted rest
Works-accepted (then_ st w rest) = absurd (cc)

find_held :
    (ws : List Phase)
    → 0 < total is_held ws
    → (i : ℕ) × (t : Task) × (get_elem? ws i ≡ some (holding t))
find_held [] h = absurd (omega arith)
find_held (holding t ∷ ws) h = (0, t, refl)
find_held (ph ∷ ws) h = let (i, t, at) = find_held ws (omega arith) in (suc i, t, at)

-- With an empty queue, the workers that hold a task finish it.
abbrev Idle : System → Type 0
Idle s = (s' : System) × Works s s' × (s'.pool.task_queue ≡ []) × (total is_held s'.workers ≡ 0)

finishes_within :
    (fuel : ℕ) (s : System) → total is_held s.workers < fuel → s.pool.task_queue ≡ [] → Idle s
unfolding finish_task
finishes_within zero s lt none_ = absurd (omega arith)
finishes_within (suc fuel) s lt none_ = elim (dec_lt 0 (total is_held s.workers)) [
  | no nobody ↦ (s, done, none_, omega (arith, nobody))
  | yes somebody ↦
      let (i, t, at) = find_held s.workers somebody in
      let st : Step s (record s {
        pool = finish_task false t s.pool;
        workers = set s.workers i top;
        ran = t ∷ s.ran;
      }) =
        moves i at (finishes false) in
      let (s', more, empty, idle) =
        finishes_within fuel _ (omega (arith, lt, total-set is_held s.workers i (holding t) top at))
          none_ in
      (s', then_ st refl more, empty, idle)
]

total-carried_none :
    (f : Task → ℕ) (ws : List Phase) → total is_held ws ≡ 0 → total (carried f) ws ≡ 0
total-carried_none f [] e = refl
total-carried_none f (holding t ∷ ws) e = absurd (omega arith)
total-carried_none f (ph ∷ ws) e = omega (arith, total-carried_none f ws (omega arith))

-- By steps of workers alone, every accepted task has been run once.
abbrev pub Served : System → Type 0
Served s =
    (s' : System) × Works s s'
    × (s'.pool.task_queue ≡ [])
    × ((f : Task → ℕ) → total f s.accepted ≡ total f s'.ran)

empties :
    (c : ThreadPoolConfig) (b : Bool) {s : System}
    → c.max_thread_count < size_mod
    → c.max_queue_size < size_mod
    → 0 < c.init_thread_count
    → 0 < c.max_thread_count
    → Reach (start c (set_log_enabled b new)) s
    → s.closing ≡ open_
    → Drained s
empties c b {s} threads tasks some_ cap_ r o = elim (List-cases s.pool.task_queue) [
  | inl none_ ↦ (s, done, none_)
  | inr (t, q, e) ↦
      let orderly = Reach-IsOrderly c b r in
      let runs = orderly.running ∙ ap flag o in
      drains_within (suc (backlog s)) s (omega arith) (record {
        sound = Reach-IsSound c b threads tasks r;
        orderly = orderly;
        runs = runs;
        live =
            (Reach-IsStaffed c b threads tasks some_ cap_ r).manned runs
              (omega (arith, ap length e));
      })
]

-- From every state that the pool reaches from Start with at least one thread, with limits below 2^64,
-- before its destructor runs, steps of its workers alone lead to a state with an empty queue in which
-- every accepted task has been run once, in the fixed and in the cached mode: for every weight on
-- tasks, the weights of the accepted ones add up to those of the ones run.
pub drains :
    (c : ThreadPoolConfig) (b : Bool) {s : System}
    → c.max_thread_count < size_mod
    → c.max_queue_size < size_mod
    → 0 < c.init_thread_count
    → 0 < c.max_thread_count
    → Reach (start c (set_log_enabled b new)) s
    → s.closing ≡ open_
    → Served s
drains c b {s} threads tasks some_ cap_ r o =
    let (s', work, empty) = empties c b threads tasks some_ cap_ r o in
    let (s'', more, empty', idle) =
      finishes_within (suc (total is_held s'.workers)) s' (omega arith) empty in
    let all = Works-trans work more in
    (
      s'',
      all,
      empty',
      λ f.
          sym (ap (total f) (Works-accepted all))
          ∙ accepted-placed f c b (Works-Reach r all)
          ∙ omega (arith, ap (total f) empty', total-carried_none f s''.workers idle),
    )
