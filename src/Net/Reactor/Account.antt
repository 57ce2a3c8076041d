-- ===== src/Net/Reactor/Account.antt =====
-- Whole runs of the loop: each task that is queued is run once, in its turn.
use mini_rpc.Base.{
  ℕ, ◌≡◌, refl, ap, sym, ◌∙◌, List, [], ◌∷◌, ◌++◌, append-nil, append_assoc, Bool, true, false,
  if-cases, ℕ_discrete,
}
use mini_rpc.Base.Dict.{lookup}
use mini_rpc.Net.Poller.{Callback, handle_event}
use mini_rpc.Net.Reactor.{
  Waited, Ready, poll, Act, calls, task, Effect, World, revents_of, callbacks, tasks, turn, turns,
  run_loop,
}
use mini_rpc.Net.Reactor.Order.{due_of, turn_tasks, queued, queued-append, Turned, turn-Turned}

-- The tasks among some acts.
abbrev pub tasks_of : List Act → List ℕ
tasks_of [] = []
tasks_of (calls p c ∷ rest) = tasks_of rest
tasks_of (task t ∷ rest) = t ∷ tasks_of rest

tasks_of-append : (xs ys : List Act) → tasks_of (xs ++ ys) ≡ tasks_of xs ++ tasks_of ys
tasks_of-append [] ys = refl
tasks_of-append (calls p c ∷ xs) ys = tasks_of-append xs ys
tasks_of-append (task t ∷ xs) ys = ap (t ∷◌) (tasks_of-append xs ys)

module _ (is_set : ℕ → Callback → Bool) (effect : List Act → Act → Effect) where
  tasks_of-callbacks : (p : ℕ) (cs : List Callback) → tasks_of (callbacks is_set effect p cs) ≡ []
  tasks_of-callbacks p [] = refl
  tasks_of-callbacks p (c ∷ cs) = tasks_of-callbacks p cs

  tasks_of-tasks : (ts : List ℕ) → tasks_of (tasks is_set effect ts) ≡ ts
  tasks_of-tasks [] = refl
  tasks_of-tasks (t ∷ ts) = ap (t ∷◌) (tasks_of-tasks ts)

  tasks_of-due_of : (ps : List ℕ) (ready : Ready) → tasks_of (due_of is_set effect ps ready) ≡ []
  tasks_of-due_of [] ready = refl
  tasks_of-due_of (p ∷ ps) ready =
      let cs = handle_event (is_set p) (revents_of (lookup ℕ_discrete p ready)) in
      tasks_of-append (callbacks is_set effect p cs) (due_of is_set effect ps ready)
      ∙ ap (◌++ tasks_of (due_of is_set effect ps ready)) (tasks_of-callbacks p cs)
      ∙ tasks_of-due_of ps ready

  -- What ran since `w`: its tasks and then the queue are the queue of `w` and then all tasks that it queued.
  pub record Accounts (w next : World) : Type 0 where
    pub acts : List Act
    pub ran : next.ran ≡ w.ran ++ acts
    pub order :
        tasks_of acts ++ next.loop.pending ≡ w.loop.pending ++ queued is_set effect w.ran acts

  Accounts-none : (w : World) → Accounts w w
  Accounts-none w = record {
    acts = [];
    ran = sym (append-nil w.ran);
    order = sym (append-nil w.loop.pending);
  }

  Accounts-more : {w m n : World} → Accounts w m → Accounts m n → Accounts w n
  Accounts-more {w} {m} {n} a b = record {
    acts = a.acts ++ b.acts;
    ran = b.ran ∙ ap (◌++ b.acts) a.ran ∙ append_assoc w.ran a.acts b.acts;
    order =
        let first = queued is_set effect w.ran a.acts in
        let second = queued is_set effect (w.ran ++ a.acts) b.acts in
        ap (◌++ n.loop.pending) (tasks_of-append a.acts b.acts)
        ∙ append_assoc (tasks_of a.acts) (tasks_of b.acts) n.loop.pending
        ∙ ap (tasks_of a.acts ++◌) b.order
        ∙ ap (λ k. tasks_of a.acts ++ (m.loop.pending ++ queued is_set effect k b.acts)) a.ran
        ∙ sym (append_assoc (tasks_of a.acts) m.loop.pending second)
        ∙ ap (◌++ second) a.order
        ∙ append_assoc w.loop.pending first second
        ∙ ap (w.loop.pending ++◌) (sym (queued-append is_set effect w.ran a.acts b.acts));
  }

  Turned-Accounts :
      (acts : List Act) (w next : World)
      → tasks_of acts ≡ []
      → Turned is_set effect acts w next
      → Accounts w next
  Turned-Accounts acts w next e t =
      let ts = turn_tasks is_set effect acts w in
      let run = tasks is_set effect ts in
      record {
        acts = acts ++ run;
        ran = t.ran;
        order =
            ap (◌++ next.loop.pending)
              (tasks_of-append acts run ∙ ap (◌++ tasks_of run) e ∙ tasks_of-tasks ts)
            ∙ ap (ts ++◌) t.pending
            ∙ append_assoc w.loop.pending (queued is_set effect w.ran acts)
                (queued is_set effect (w.ran ++ acts) run)
            ∙ ap (w.loop.pending ++◌) (sym (queued-append is_set effect w.ran acts run));
      }

  turn-Accounts : (answer : Waited) (w : World) → Accounts w (turn is_set effect answer w)
  turn-Accounts answer w =
      let r = poll answer w.ready [] in
      Turned-Accounts (due_of is_set effect r.1 r.0) w _ (tasks_of-due_of r.1 r.0)
        (turn-Turned is_set effect answer w)

  turns-Accounts : (answers : List Waited) (w : World) → Accounts w (turns is_set effect answers w)
  unfolding turns
  turns-Accounts [] w = Accounts-none w
  turns-Accounts (answer ∷ answers) w =
      if-cases (Accounts w) w.loop.quitting
        (λ h. let a = Accounts-none w in record { acts = a.acts; ran = a.ran; order = a.order })
        (λ h.
          Accounts-more (turn-Accounts answer w)
            (turns-Accounts answers (turn is_set effect answer w)))

  -- However the waits of a loop are answered, each with any events or a failure, and with any
  -- callbacks and tasks, which may queue tasks and quit, differently at each call: the tasks that have
  -- run since its start, and then its queue, are the queue at the start and then all tasks that the
  -- callbacks and the tasks that ran queued, in order.
  pub run_loop-Accounts :
      (answers : List Waited) (w : World)
      → (acts : List Act) × ((run_loop is_set effect answers w).ran ≡ w.ran ++ acts)
        × (tasks_of acts ++ (run_loop is_set effect answers w).loop.pending
            ≡ w.loop.pending ++ queued is_set effect w.ran acts)
  unfolding run_loop
  run_loop-Accounts answers w =
      let a =
        turns-Accounts answers
          (record w { loop = record w.loop { looping = true; quitting = false } }) in
      (a.acts, a.ran, a.order)
