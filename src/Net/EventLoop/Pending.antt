-- ===== src/Net/EventLoop/Pending.antt =====
-- A posted task is run once, in its turn, and what the loop can sleep on is told.
use mini_rpc.Base.{
  if-cases, ℕ, zero, suc, ◌+◌, ◌<◌, ◌≡◌, ◌⊎◌, inl, inr, subst, refl, ap, sym, ◌∙◌, List, [], ◌∷◌,
  ◌++◌, append-nil, append_assoc, arith, true, not, ◌||◌, ◌≤◌,
}
use mini_rpc.Net.EventLoop.{
  EventLoop, Running, Phase, polling, dispatching, draining, Step, pushes, quits, stops, wakes,
  queues, polls, handles, swaps, runs, wake_once, poll_once, handle_once, swap_once, run_once, step,
  queue_in_loop, wakeup, handle_wakeup, quit, do_pending_functors,
}

abbrev pub posted_by : Step → List ℕ
posted_by (pushes task) = task ∷ []
posted_by (queues task) = task ∷ []
posted_by s = []

-- The tasks that the steps put in, in their order.
abbrev pub posted : List Step → List ℕ
posted [] = []
posted (s ∷ ss) = posted_by s ++ posted ss

abbrev pub run : List Step → Running → Running
run [] r = r
run (s ∷ ss) r = run ss (step s r)

-- The tasks that ran, those swapped out, and the queue.
abbrev pub line : Running → List ℕ
line r = r.ran ++ (r.functors ++ r.loop.pending)

-- A wake-up is unread or about to be written, or the queue has only what the loop's own thread queued
-- since the last swap.
abbrev pub Awake : Running → Type 0
Awake r = (0 < r.loop.wakeups + r.waking) ⊎ (r.loop.pending ≡ r.own)

-- What the loop rests on in each phase: nothing that was swapped out is left when it polls or handles events.
abbrev pub Rested : Phase → Running → Type 0
Rested polling r = (r.functors ≡ []) × Awake r
Rested dispatching r = r.functors ≡ []
Rested draining r = Awake r

record Moves (s : Step) (r next : Running) : Type 0 where
  order : line next ≡ line r ++ posted_by s
  awake : Rested next.phase next

-- One more task at the end of the line.
line-push :
    (r : Running) (task : ℕ)
    → r.ran ++ (r.functors ++ (r.loop.pending ++ (task ∷ []))) ≡ line r ++ (task ∷ [])
line-push r task =
    ap (r.ran ++◌) (sym (append_assoc r.functors r.loop.pending (task ∷ [])))
    ∙ sym (append_assoc r.ran (r.functors ++ r.loop.pending) (task ∷ []))

queue_in_loop-pending :
    (task : ℕ) (l : EventLoop)
    → ((queue_in_loop true task l).pending ≡ l.pending ++ (task ∷ []))
      × (l.wakeups ≤ (queue_in_loop true task l).wakeups)
unfolding queue_in_loop wakeup
queue_in_loop-pending task l =
    if-cases (λ (k : EventLoop). (k.pending ≡ l.pending ++ (task ∷ [])) × (l.wakeups ≤ k.wakeups))
      (not true || not l.looping) (λ h. (refl, omega arith)) (λ h. (refl, omega arith))

-- A step that leaves the line, the phase and what the loop is woken by.
same-Moves :
    (s : Step) (r next : Running)
    → posted_by s ≡ []
    → line next ≡ line r
    → Rested next.phase next
    → Moves s r next
same-Moves s r next e q a = record {
  order = q ∙ sym (ap (line r ++◌) e ∙ append-nil (line r));
  awake = a;
}

Rested-map :
    (p : Phase) (r next : Running)
    → next.functors ≡ r.functors
    → (Awake r → Awake next)
    → Rested p r
    → Rested p next
Rested-map polling r next e f (k, a) = (e ∙ k, f a)
Rested-map dispatching r next e f k = e ∙ k
Rested-map draining r next e f a = f a

queues-Awake :
    (task : ℕ) (r : Running)
    → Awake r
    → Awake (record r { loop = queue_in_loop true task r.loop; own = r.own ++ (task ∷ []) })
queues-Awake task r (inl h) = inl (omega (arith, (queue_in_loop-pending task r.loop).1))
queues-Awake task r (inr e) = inr ((queue_in_loop-pending task r.loop).0 ∙ ap (◌++ (task ∷ [])) e)

wake_once-Moves :
    (n : ℕ) (r : Running) → r.waking ≡ n → Rested r.phase r → Moves wakes r (wake_once n r)
unfolding wakeup
wake_once-Moves zero r e a = same-Moves wakes r r refl refl a
wake_once-Moves (suc n) r e a =
    same-Moves wakes r _ refl refl (Rested-map r.phase r _ refl (λ k. inl (omega arith)) a)

poll_once-Moves :
    (p : Phase) (r : Running) → r.phase ≡ p → Rested r.phase r → Moves polls r (poll_once p r)
poll_once-Moves polling r e a =
    if-cases (Moves polls r) r.loop.quitting (λ h. same-Moves polls r r refl refl a)
      (λ h. same-Moves polls r _ refl refl (subst (λ p. Rested p r) e a).0)
poll_once-Moves dispatching r e a = same-Moves polls r r refl refl a
poll_once-Moves draining r e a = same-Moves polls r r refl refl a

handle_once-Moves :
    (p : Phase) (r : Running) → r.phase ≡ p → Rested r.phase r → Moves handles r (handle_once p r)
unfolding handle_wakeup
handle_once-Moves polling r e a = same-Moves handles r r refl refl a
handle_once-Moves dispatching r e a = same-Moves handles r _ refl refl (
    subst (λ p. Rested p (record r { loop = handle_wakeup r.loop })) (sym e)
      (subst (λ p. Rested p r) e a))
handle_once-Moves draining r e a = same-Moves handles r r refl refl a

swap_once-Moves :
    (p : Phase) (r : Running) → r.phase ≡ p → Rested r.phase r → Moves swaps r (swap_once p r)
unfolding do_pending_functors
swap_once-Moves polling r e a = same-Moves swaps r r refl refl a
swap_once-Moves dispatching r e a =
    let none_left : r.functors ≡ [] = subst (λ p. Rested p r) e a in
    same-Moves swaps r _ refl
      (ap (r.ran ++◌) (append-nil r.loop.pending ∙ ap (λ k. k ++ r.loop.pending) (sym none_left)))
      (inr refl)
swap_once-Moves draining r e a = same-Moves swaps r r refl refl a

run_once-Moves :
    (p : Phase) (ts : List ℕ) (r : Running)
    → r.phase ≡ p
    → r.functors ≡ ts
    → Rested r.phase r
    → Moves runs r (run_once p ts r)
run_once-Moves polling ts r e f a = same-Moves runs r r refl refl a
run_once-Moves dispatching ts r e f a = same-Moves runs r r refl refl a
run_once-Moves draining [] r e f a = same-Moves runs r _ refl refl (f, subst (λ p. Rested p r) e a)
run_once-Moves draining (t ∷ ts) r e f a =
    let next = record r { functors = ts; ran = r.ran ++ (t ∷ []) } in
    same-Moves runs r next refl
      (append_assoc r.ran (t ∷ []) (ts ++ r.loop.pending)
        ∙ ap (λ k. r.ran ++ (k ++ r.loop.pending)) (sym f))
      (subst (λ p. Rested p next) (sym e) (subst (λ p. Rested p r) e a))

step-Moves : (s : Step) (r : Running) → Rested r.phase r → Moves s r (step s r)
unfolding step quit
step-Moves (pushes task) r a = record {
  order = line-push r task;
  awake = Rested-map r.phase r _ refl (λ k. inl (omega arith)) a;
}
step-Moves quits r a =
    same-Moves quits r _ refl refl (Rested-map r.phase r _ refl (λ k. inl (omega arith)) a)
step-Moves stops r a = same-Moves stops r _ refl refl (Rested-map r.phase r _ refl (λ k. k) a)
step-Moves wakes r a = wake_once-Moves r.waking r refl a
step-Moves (queues task) r a = record {
  order =
      ap (λ k. r.ran ++ (r.functors ++ k)) (queue_in_loop-pending task r.loop).0 ∙ line-push r task;
  awake = Rested-map r.phase r _ refl (queues-Awake task r) a;
}
step-Moves polls r a = poll_once-Moves r.phase r refl a
step-Moves handles r a = handle_once-Moves r.phase r refl a
step-Moves swaps r a = swap_once-Moves r.phase r refl a
step-Moves runs r a = run_once-Moves r.phase r.functors r refl refl a

-- In every interleaving of other threads, which put tasks in, quit and write to the eventfd
-- afterwards, with the loop's thread, whose callbacks and tasks queue tasks and quit: the tasks that
-- ran, then those swapped out, then the queue are what they were at the start and then all tasks put
-- in, in order; and where the loop does not handle events, a wake-up is unread or about to be written,
-- or the queue has only what the loop's own thread queued since the last swap; and where it polls or
-- handles events, nothing that was swapped out is left; if this was so at the start.
pub run_in_order_of_posts :
    (ss : List Step) (r : Running)
    → Rested r.phase r
    → (line (run ss r) ≡ line r ++ posted ss) × Rested (run ss r).phase (run ss r)
run_in_order_of_posts [] r a = (sym (append-nil (line r)), a)
run_in_order_of_posts (s ∷ ss) r a =
    let m = step-Moves s r a in
    let (order, awake) = run_in_order_of_posts ss (step s r) m.awake in
    (order ∙ ap (◌++ posted ss) m.order ∙ append_assoc (line r) (posted_by s) (posted ss), awake)
