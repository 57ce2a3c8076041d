-- ===== src/Thread/ThreadPool/Queue.antt =====
-- include/minirpc/thread/ThreadPool.h: what `top` and `pop` of the queue of tasks give, and the set of ids.
use mini_rpc.Base.{
  ℕ, zero, suc, ◌+◌, ◌≤◌, ◌<◌, ◌≡◌, ◌≢◌, refl, List, [], ◌∷◌, Bool, true, false, ◌==◌, some, length,
  All, arith, if-cases, Option-cases, inl, inr, Bool-cases, leb, leb→lt, ltb, ltb→lt, ◌⊎◌,
}
use mini_rpc.Base.Indexed.{total}
use mini_rpc.Thread.ThreadPool.{
  ThreadPool, Task, queued, counted_up, count_thread, push, enqueue_task, thread_exit, has, remove,
  add, pop_top, take_at, is_top,
}

total-take_at :
    (f : Task → ℕ) (i : ℕ) (q : List Task) {t : Task} {rest : List Task}
    → take_at i q ≡ some (t, rest)
    → total f q ≡ f t + total f rest
total-take_at f i [] e = absurd (cc)
total-take_at f zero (u ∷ q) e = ground arith
total-take_at f (suc i) (u ∷ q) {t} {rest} e = elim (Option-cases (take_at i q)) [
  | inl none_ ↦ absurd (grind arith)
  | inr ((v, more), taken) ↦ grind (arith, total-take_at f i q taken)
]

length-take_at :
    (i : ℕ) (q : List Task) {t : Task} {rest : List Task}
    → take_at i q ≡ some (t, rest)
    → length q ≡ suc (length rest)
length-take_at i [] e = absurd (cc)
length-take_at zero (u ∷ q) e = ground arith
length-take_at (suc i) (u ∷ q) e = elim (Option-cases (take_at i q)) [
  | inl none_ ↦ absurd (grind arith)
  | inr ((v, more), taken) ↦ grind (arith, length-take_at i q taken)
]

-- What a successful `pop_top` did.
pub pop_top-take_at :
    (i : ℕ) (q : List Task) {t : Task} {rest : List Task}
    → pop_top i q ≡ some (t, rest)
    → (take_at i q ≡ some (t, rest)) × (is_top t rest ≡ true)
unfolding pop_top
pop_top-take_at i q {t} {rest} e = elim (Option-cases (take_at i q)) [
  | inl none_ ↦ absurd (grind arith)
  | inr ((v, more), taken) ↦ elim (Bool-cases (is_top v more)) [
    | inl first ↦ grind arith
    | inr other ↦ absurd (grind arith)
  ]
]

abbrev pub IsFirst : Task → Task → Type 0
IsFirst t u = t.priority ≤ u.priority

is_top-All : (t : Task) (q : List Task) → is_top t q ≡ true → All (IsFirst t) q
is_top-All t [] e = tt
is_top-All t (u ∷ q) e = (ground arith, is_top-All t q (ground arith))

module _ (i : ℕ) (q : List Task) {t : Task} {rest : List Task}
    (e : pop_top i q ≡ some (t, rest)) where
  pub pop_top-total : (f : Task → ℕ) → total f q ≡ f t + total f rest
  pop_top-total f = total-take_at f i q ((pop_top-take_at i q e).0)

  pub pop_top-length : length q ≡ suc (length rest)
  pop_top-length = length-take_at i q ((pop_top-take_at i q e).0)

  pub pop_top-All : All (IsFirst t) rest
  pop_top-All = is_top-All t rest ((pop_top-take_at i q e).1)

pub has-add : (i j : ℕ) (ids : List ℕ) → has j ids ≡ true → has j (add i ids) ≡ true
has-add i j ids e = if-cases (λ r. has j r ≡ true) (has i ids) (λ _. e) (λ _. ground arith)

pub has-add_self : (i : ℕ) (ids : List ℕ) → has i (add i ids) ≡ true
has-add_self i ids = if-cases (λ r. has i r ≡ true) (has i ids) (λ e. e) (λ _. ground arith)

pub has-remove_ne : (i j : ℕ) (ids : List ℕ) → i ≢ j → has j (remove i ids) ≡ has j ids
has-remove_ne i j [] ne = refl
has-remove_ne i j (x ∷ xs) ne = ground (arith, has-remove_ne i j xs ne)

pub has-remove : (i j : ℕ) (ids : List ℕ) → has j (remove i ids) ≡ true → has j ids ≡ true
has-remove i j [] e = e
has-remove i j (x ∷ xs) e = ground (arith, has-remove i j xs)

pub length-remove :
    (i : ℕ) (ids : List ℕ) → has i ids ≡ true → suc (length (remove i ids)) ≡ length ids
length-remove i [] e = absurd (cc)
length-remove i (x ∷ xs) e = ground (arith, length-remove i xs)

pub length-add : (i : ℕ) (ids : List ℕ) → has i ids ≡ false → length (add i ids) ≡ suc (length ids)
length-add i ids e = rw e refl

pub add-cases : (i j : ℕ) (ids : List ℕ) → has j (add i ids) ≡ true → (i ≡ j) ⊎ (has j ids ≡ true)
add-cases i j ids =
    if-cases (λ r. has j r ≡ true → (i ≡ j) ⊎ (has j ids ≡ true)) (has i ids) (λ _ e. inr e)
      (λ _ e. elim (Bool-cases (i == j)) [
        | inl same ↦ inl (ground arith)
        | inr other ↦ inr (ground arith)
      ])

-- When a thread is counted, and when a task is put in.
pub count_thread-some :
    (p p' : ThreadPool)
    → count_thread p ≡ some p'
    → (p.current_thread_count < p.max_thread_count) × (counted_up p ≡ p')
unfolding count_thread
count_thread-some p p' =
    if-cases
      (λ r. r ≡ some p' → (p.current_thread_count < p.max_thread_count) × (counted_up p ≡ p'))
      (leb p.max_thread_count p.current_thread_count) (λ _ e. absurd (cc))
      (λ room e. (leb→lt _ _ room, cc))

pub enqueue_task-queued :
    (expired : Bool) (t : Task) (p p' : ThreadPool)
    → enqueue_task expired t p ≡ queued p'
    → (p.is_running ≡ true) × (p.task_queue_size < p.max_task_queue_size) × (push t p ≡ p')
unfolding enqueue_task
enqueue_task-queued expired t p p' e = elim (Bool-cases p.is_running) [
  | inr still ↦ absurd (grind arith)
  | inl runs ↦ elim (Bool-cases (ltb p.task_queue_size p.max_task_queue_size)) [
    | inl room ↦ (runs, ltb→lt _ _ room, grind arith)
    | inr full ↦ absurd (grind arith)
  ]
]

pub thread_exit-has :
    (i : ℕ) (p : ThreadPool)
    → has i p.threads ≡ true
    → ((thread_exit i p).threads ≡ remove i p.threads)
      × ((thread_exit i p).task_queue ≡ p.task_queue)
unfolding thread_exit
thread_exit-has i p e = rw e (refl, refl)
