-- ===== src/Thread/ThreadPool/Progress.antt =====
-- src/thread/ThreadPool.cpp: while tasks wait, the workers work, and the backlog falls with every step that they take.
use mini_rpc.Base.{
  List-cases, ℕ, zero, suc, ◌+◌, ◌*◌, ◌≤◌, ◌<◌, ◌≡◌, refl, ap, sym, ◌∙◌, subst, List, [], ◌∷◌, Bool,
  true, false, Option, some, arith, length, Bool-cases, inl, inr, leb, leb→le, leb→lt, Option-cases,
}
use mini_rpc.Base.Indexed.{total-elem, get_elem?, total, total-set, total-le}
use mini_rpc.Thread.ThreadPool.{
  ThreadPool, has_work, Task, pop_top, take_at, is_top, take_task, finish_task,
}
use mini_rpc.Thread.ThreadPool.System.{
  Phase, top, awake, holding, exiting, unregistered, is_about, System, Move, goes_on, breaks,
  sleeps, wakes, finishes, Visit, quits, waits, takes, IsFree, Step, moves, visits,
}
use mini_rpc.Thread.ThreadPool.Queue.{pop_top-take_at, pop_top-length}
use mini_rpc.Thread.ThreadPool.Counters.{is_live, rests}
use mini_rpc.Thread.ThreadPool.Shutdown.{
  Move-running, Visit-running, is_exiting, IsOrderly, Step-IsOrderly,
}
use mini_rpc.Thread.ThreadPool.Sound.{Step-IsSound}
use mini_rpc.Thread.ThreadPool.Moves.{IsSound}

-- The steps that a worker has to take before the pool is out of work, at most.
abbrev rank : Phase → ℕ
rank (awake k) = 1
rank top = 2
rank (holding t) = 3
rank _ = 0

abbrev pub backlog : System → ℕ
backlog s = 3 * length s.pool.task_queue + total rank s.workers

is_top-le :
    (t u : Task) (q : List Task) → t.priority ≤ u.priority → is_top u q ≡ true → is_top t q ≡ true
is_top-le t u [] le first = refl
is_top-le t u (v ∷ q) le first = ground (arith, is_top-le t u q le)

is_top-take_at :
    (t : Task) (i : ℕ) (q : List Task) (u : Task) (rest : List Task)
    → take_at i q ≡ some (u, rest)
    → t.priority ≤ u.priority
    → is_top t rest ≡ true
    → is_top t q ≡ true
is_top-take_at t i [] u rest e le first = refl
is_top-take_at t zero (v ∷ q) u rest e le first = grind arith
is_top-take_at t (suc i) (v ∷ q) u rest e le first = elim (Option-cases (take_at i q)) [
  | inl none_ ↦ absurd (grind arith)
  | inr ((w, more), taken) ↦ grind (arith, is_top-take_at t i q w more taken)
]

abbrev Top : List Task → Type 0
Top q = (i : ℕ) × (u : Task) × (rest : List Task) × (pop_top i q ≡ some (u, rest))

-- The new element is the top, or the old one is.
cons-Top :
    (t : Task) (q : List Task) (i : ℕ) (u : Task) (rest : List Task)
    → take_at i q ≡ some (u, rest)
    → is_top u rest ≡ true
    → Top (t ∷ q)
unfolding pop_top
cons-Top t q i u rest taken first = elim (Bool-cases (leb t.priority u.priority)) [
  | inl low ↦
      let all : is_top t q ≡ true =
        is_top-take_at t i q u rest taken (leb→le _ _ low)
          (is_top-le t u rest (leb→le _ _ low) first) in
      (0, t, q, rw all refl)
  | inr high ↦ (suc i, u, t ∷ rest, grind (arith, leb→lt _ _ high))
]

-- A queue with a task has a top.
some-Top : (t : Task) (q : List Task) → Top (t ∷ q)
some-Top t [] = unfold pop_top in (0, t, [], refl)
some-Top t (v ∷ q) =
    let (i, u, rest, e) = some-Top v q in
    let (taken, first) = pop_top-take_at i (v ∷ q) e in cons-Top t (v ∷ q) i u rest taken first

find_live :
    (ws : List Phase)
    → 0 < total is_live ws
    → (i : ℕ) × (ph : Phase) × (get_elem? ws i ≡ some ph) × (is_live ph ≡ 1)
find_live [] h = absurd (omega arith)
find_live (unregistered ∷ ws) h =
    let (i, ph, at, live) = find_live ws (omega arith) in (suc i, ph, at, live)
find_live (ph ∷ ws) h = (0, ph, refl, refl)

-- Whether a step is a worker's, other than its end.
abbrev pub works : {s s' : System} → Step s s' → Bool
works (moves i at mv) = true
works (visits i at free vi) = true
works _ = false

-- Steps of workers, one after another.
pub data Works : System → System → Type 0 where
  done : {s : System} → Works s s
  then_ : {s s' s'' : System} (st : Step s s') → works st ≡ true → Works s' s'' → Works s s''

pub record IsReady (s : System) : Type 0 where
  pub sound : IsSound s
  pub orderly : IsOrderly s
  pub runs : s.pool.is_running ≡ true
  pub live : 0 < length s.pool.threads

Move-rank :
    {p p' : ThreadPool} {ph ph' : Phase}
    → Move p ph p' ph'
    → p.is_running ≡ true
    → rests ph ≡ 0
    → (rank ph' < rank ph) × (p'.task_queue ≡ p.task_queue)
unfolding finish_task
Move-rank (breaks still) runs awake_ = absurd (cc)
Move-rank sleeps runs awake_ = absurd (omega arith)
Move-rank wakes runs awake_ = absurd (omega arith)
Move-rank mv runs awake_ = (omega arith, refl)

Visit-rank :
    {p p' : ThreadPool} {k : Option Bool} {ph' : Phase}
    → Visit p k p' ph'
    → p.is_running ≡ true
    → p.task_queue_size ≡ length p.task_queue
    → 0 < length p.task_queue
    → 3 * length p'.task_queue + rank ph' < 3 * length p.task_queue + 1
unfolding take_task has_work
Visit-rank (quits still) runs sized some_ = absurd (cc)
Visit-rank (waits none_) runs sized some_ = absurd (ground arith)
Visit-rank {p} (takes i r ne e) runs sized some_ = omega (arith, pop_top-length i p.task_queue e)

-- With a task in the queue each step of a worker lowers the backlog.
pub backlog-lt :
    {s s' : System} (st : Step s s')
    → works st ≡ true
    → IsSound s
    → s.pool.is_running ≡ true
    → 0 < length s.pool.task_queue
    → backlog s' < backlog s
backlog-lt (moves {s} i {ph} {ph'} at mv) w v runs some_ =
    let (less_, queue) =
      Move-rank mv runs (omega (arith, total-elem rests s.workers i at, v.calm some_)) in
    omega (arith, less_, ap length queue, total-set rank s.workers i ph ph' at)
backlog-lt (visits {s} i {k} {ph'} at free vi) w v runs some_ =
    omega
      (arith, Visit-rank vi runs v.count.sized some_, total-set rank s.workers i (awake k) ph' at)
backlog-lt st w v runs some_ = absurd (cc)

-- A live worker has a step to take.
progress :
    (s : System)
    → IsReady s
    → (t : Task) (q : List Task) → s.pool.task_queue ≡ t ∷ q
    → (s' : System) × (st : Step s s') × (works st ≡ true)
progress s v t q e =
    let (i, ph, at, live) = find_live s.workers (omega (arith, v.live, v.sound.count.counted)) in
    act i ph at live
  where
    some_ : 0 < length s.pool.task_queue
    some_ = omega (arith, ap length e)

    free : IsFree s
    free = omega (arith, v.sound.calm some_, total-le is_about rests s.workers (λ ph. ground arith))

    act :
        (i : ℕ) (ph : Phase)
        → get_elem? s.workers i ≡ some ph
        → is_live ph ≡ 1
        → (s' : System) × (st : Step s s') × (works st ≡ true)
    act i top at live = (_, moves i at (goes_on v.runs), refl)
    act i (awake k) at live =
        let (j, u, rest, found) = some-Top t q in
        (
          _,
          visits i at free (
              takes j v.runs (λ z. absurd (omega (arith, z, v.sound.count.sized, some_)))
                (ap (pop_top j) e ∙ found)),
          refl,
        )
    act i (holding u) at live = (_, moves i at (finishes false), refl)
    act i exiting at live =
        absurd (omega (arith, total-elem is_exiting s.workers i at, v.orderly.staying v.runs))
    act i unregistered at live = absurd (omega arith)
    act i ph at live = absurd (omega (arith, total-elem rests s.workers i at, v.sound.calm some_))

works-same :
    {s s' : System} (st : Step s s')
    → works st ≡ true
    → (s'.pool.is_running ≡ s.pool.is_running) × (s'.pool.threads ≡ s.pool.threads)
works-same (moves i at mv) w = let (running, threads, _) = Move-running mv in (running, threads)
works-same (visits i at free vi) w =
    let (running, threads, _) = Visit-running vi in (running, threads)
works-same st w = absurd (cc)

pub works-IsReady : {s s' : System} (st : Step s s') → works st ≡ true → IsReady s → IsReady s'
works-IsReady st w v = record {
  sound = Step-IsSound st v.sound;
  orderly = Step-IsOrderly st v.orderly;
  runs = (works-same st w).0 ∙ v.runs;
  live = subst (λ ids. 0 < length ids) (sym ((works-same st w).1)) v.live;
}

-- The workers alone empty the queue.
abbrev pub Drained : System → Type 0
Drained s = (s' : System) × Works s s' × (s'.pool.task_queue ≡ [])

pub drains_within : (fuel : ℕ) (s : System) → backlog s < fuel → IsReady s → Drained s
drains_within zero s le v = absurd (omega arith)
drains_within (suc fuel) s le v = elim (List-cases s.pool.task_queue) [
  | inl none_ ↦ (s, done, none_)
  | inr (t, q, e) ↦
      let (s', st, w) = progress s v t q e in
      let less_ : backlog s' < backlog s =
        backlog-lt st w v.sound v.runs (omega (arith, ap length e)) in
      let (s'', more, none_) =
        drains_within fuel s' (omega (arith, less_, le)) (works-IsReady st w v) in
      (s'', then_ st w more, none_)
]
