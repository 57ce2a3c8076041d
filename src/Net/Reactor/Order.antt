-- ===== src/Net/Reactor/Order.antt =====
-- What a turn of the loop runs, and in what order.
use mini_rpc.Base.{
  ℕ, ◌≡◌, ◌≢◌, refl, ap, sym, ◌∙◌, List, [], ◌∷◌, ◌++◌, append-nil, append_assoc, Bool, true, All,
  ℕ_discrete, if-cases, subst,
}
use mini_rpc.Base.Dict.{lookup, insert, lookup-insert_self, lookup-insert_ne}
use mini_rpc.Net.Poller.{Callback, handle_event}
use mini_rpc.Net.EventLoop.{EventLoop, wakeup, queue_in_loop, quit, do_pending_functors}
use mini_rpc.Net.Reactor.{
  Event, Waited, found, Ready, fill_active_channels, poll, Act, Effect, World, revents_of,
  queue_all, act, act_all, callbacks, tasks, handle_events, run_functors, turn,
}

abbrev pub pointers : List Event → List ℕ
pointers [] = []
pointers (e ∷ es) = e.pointer ∷ pointers es

-- One event for each channel, as epoll reports them.
abbrev pub Distinct : List Event → Type 0
Distinct [] = Unit
Distinct (e ∷ es) = All (λ o. o.pointer ≢ e.pointer) es × Distinct es

abbrev filled : List Event → Ready → Ready
filled [] ready = ready
filled (e ∷ es) ready = filled es (insert ℕ_discrete e.pointer e.events ready)

fill-filled :
    (es : List Event) (ready : Ready) (active : List ℕ)
    → fill_active_channels es ready active ≡ (filled es ready, active ++ pointers es)
unfolding fill_active_channels
fill-filled [] ready active = ap (λ k. (ready, k)) (sym (append-nil active))
fill-filled (e ∷ es) ready active =
    fill-filled es (insert ℕ_discrete e.pointer e.events ready) (active ++ (e.pointer ∷ []))
    ∙ ap (λ k. (filled (e ∷ es) ready, k)) (append_assoc active (e.pointer ∷ []) (pointers es))

lookup-filled :
    (p : ℕ) (es : List Event) (ready : Ready)
    → All (λ o. o.pointer ≢ p) es
    → lookup ℕ_discrete p (filled es ready) ≡ lookup ℕ_discrete p ready
lookup-filled p [] ready h = refl
lookup-filled p (e ∷ es) ready h =
    lookup-filled p es (insert ℕ_discrete e.pointer e.events ready) h.1
    ∙ lookup-insert_ne ℕ_discrete e.pointer p e.events ready h.0

module _ (is_set : ℕ → Callback → Bool) (effect : List Act → Act → Effect) where
  -- The callbacks that some events cause, event by event.
  abbrev pub due : List Event → List Act
  due [] = []
  due (e ∷ es) =
      callbacks is_set effect e.pointer (handle_event (is_set e.pointer) e.events) ++ due es

  abbrev pub due_of : List ℕ → Ready → List Act
  due_of [] ready = []
  due_of (p ∷ ps) ready =
      callbacks is_set effect p (handle_event (is_set p) (revents_of (lookup ℕ_discrete p ready)))
      ++ due_of ps ready

  -- The tasks that some acts queue, after the acts `past`.
  abbrev pub queued : List Act → List Act → List ℕ
  queued past [] = []
  queued past (a ∷ rest) = (effect past a).queues ++ queued (past ++ (a ∷ [])) rest

  due_of-filled :
      (es : List Event) (ready : Ready)
      → Distinct es
      → due_of (pointers es) (filled es ready) ≡ due es
  due_of-filled [] ready d = refl
  due_of-filled (e ∷ es) ready d =
      let more = insert ℕ_discrete e.pointer e.events ready in
      let own =
        lookup-filled e.pointer es more d.0
        ∙ lookup-insert_self ℕ_discrete e.pointer e.events ready in
      rw own (
        ap (callbacks is_set effect e.pointer (handle_event (is_set e.pointer) e.events) ++◌)
          (due_of-filled es more d.1))

  queue_all-pending :
      (ts : List ℕ) (l : EventLoop) → (queue_all is_set effect ts l).pending ≡ l.pending ++ ts
  unfolding queue_all queue_in_loop wakeup
  queue_all-pending [] l = sym (append-nil l.pending)
  queue_all-pending (t ∷ ts) l =
      queue_all-pending ts (queue_in_loop true t l)
      ∙ ap (◌++ ts) (
          if-cases (λ (k : EventLoop). k.pending ≡ l.pending ++ (t ∷ [])) _ (λ h. refl) (λ h. refl))
      ∙ append_assoc l.pending (t ∷ []) ts

  -- A world after some acts.
  record After (acts : List Act) (w next : World) : Type 0 where
    ran : next.ran ≡ w.ran ++ acts
    pending : next.loop.pending ≡ w.loop.pending ++ queued w.ran acts
    ready : next.ready ≡ w.ready

  act-After : (a : Act) (w : World) → After (a ∷ []) w (act is_set effect a w)
  unfolding act quit
  act-After a w = record {
    ran = refl;
    pending =
        if-cases
          (λ (k : EventLoop).
            k.pending ≡ (queue_all is_set effect (effect w.ran a).queues w.loop).pending)
          (effect w.ran a).quits (λ h. refl) (λ h. refl)
        ∙ queue_all-pending (effect w.ran a).queues w.loop
        ∙ ap (w.loop.pending ++◌) (sym (append-nil (effect w.ran a).queues));
    ready = refl;
  }

  pub queued-append :
      (past xs ys : List Act) → queued past (xs ++ ys) ≡ queued past xs ++ queued (past ++ xs) ys
  queued-append past [] ys = ap (λ k. queued k ys) (sym (append-nil past))
  queued-append past (x ∷ xs) ys =
      ap ((effect past x).queues ++◌) (
        queued-append (past ++ (x ∷ [])) xs ys
        ∙ ap (λ k. queued (past ++ (x ∷ [])) xs ++ queued k ys) (append_assoc past (x ∷ []) xs))
      ∙ sym (
          append_assoc (effect past x).queues (queued (past ++ (x ∷ [])) xs)
            (queued (past ++ (x ∷ xs)) ys))

  After-more :
      {xs ys : List Act} {w m n : World} → After xs w m → After ys m n → After (xs ++ ys) w n
  After-more {xs} {ys} {w} {m} a b = record {
    ran = b.ran ∙ ap (◌++ ys) a.ran ∙ append_assoc w.ran xs ys;
    pending =
        b.pending
        ∙ ap (λ k. m.loop.pending ++ queued k ys) a.ran
        ∙ ap (◌++ queued (w.ran ++ xs) ys) a.pending
        ∙ append_assoc w.loop.pending (queued w.ran xs) (queued (w.ran ++ xs) ys)
        ∙ ap (w.loop.pending ++◌) (sym (queued-append w.ran xs ys));
    ready = b.ready ∙ a.ready;
  }

  After-none : (w : World) → After [] w w
  After-none w = record {
    ran = sym (append-nil w.ran);
    pending = sym (append-nil w.loop.pending);
    ready = refl;
  }

  act_all-After : (acts : List Act) (w : World) → After acts w (act_all is_set effect acts w)
  unfolding act_all
  act_all-After [] w = After-none w
  act_all-After (a ∷ rest) w =
      After-more (act-After a w) (act_all-After rest (act is_set effect a w))

  handle_events-After :
      (ps : List ℕ) (w : World) → After (due_of ps w.ready) w (handle_events is_set effect ps w)
  unfolding handle_events
  handle_events-After [] w = After-none w
  handle_events-After (p ∷ ps) w =
      let now =
        callbacks is_set effect p
          (handle_event (is_set p) (revents_of (lookup ℕ_discrete p w.ready))) in
      let a = act_all-After now w in
      let next = act_all is_set effect now w in
      After-more a (
        subst (λ k. After (due_of ps k) next (handle_events is_set effect ps next)) a.ready
          (handle_events-After ps next))

  -- The tasks of a turn in which `acts` ran before them.
  abbrev pub turn_tasks : List Act → World → List ℕ
  turn_tasks acts w = w.loop.pending ++ queued w.ran acts

  -- The callbacks come before the tasks, and these before the tasks that they queue.
  pub record Turned (acts : List Act) (w next : World) : Type 0 where
    pub ran : next.ran ≡ w.ran ++ (acts ++ tasks is_set effect (turn_tasks acts w))
    pub pending :
        next.loop.pending ≡ queued (w.ran ++ acts) (tasks is_set effect (turn_tasks acts w))

  run_functors-Turned :
      (acts : List Act) (w m : World)
      → After acts w m
      → Turned acts w (run_functors is_set effect m)
  unfolding run_functors do_pending_functors
  run_functors-Turned acts w m a =
      let b =
        act_all-After (tasks is_set effect m.loop.pending)
          (record m { loop = record m.loop { pending = [] } }) in
      record {
        ran =
            b.ran
            ∙ ap (λ k. m.ran ++ tasks is_set effect k) a.pending
            ∙ ap (◌++ tasks is_set effect (turn_tasks acts w)) a.ran
            ∙ append_assoc w.ran acts (tasks is_set effect (turn_tasks acts w));
        pending =
            b.pending
            ∙ ap (λ k. queued m.ran (tasks is_set effect k)) a.pending
            ∙ ap (λ k. queued k (tasks is_set effect (turn_tasks acts w))) a.ran;
      }

  pub turn-Turned :
      (answer : Waited) (w : World)
      → Turned
          (due_of (poll answer w.ready []).1 (poll answer w.ready []).0)
          w
          (turn is_set effect answer w)
  unfolding turn
  turn-Turned answer w =
      let r = poll answer w.ready [] in
      let m = record w { ready = r.0 } in
      let a = handle_events-After r.1 m in
      let t = run_functors-Turned (due_of r.1 r.0) m (handle_events is_set effect r.1 m) a in
      record { ran = t.ran; pending = t.pending }

  poll-due :
      (events : List Event) (ready : Ready)
      → Distinct events
      → due_of (poll (found events) ready []).1 (poll (found events) ready []).0 ≡ due events
  unfolding poll
  poll-due events ready d =
      ap (λ r. due_of r.1 r.0) (fill-filled events ready []) ∙ due_of-filled events ready d

  -- For events of distinct channels, a turn of the loop runs the callbacks that each event causes,
  -- event by event, and then the tasks: those that were queued before and those that the callbacks
  -- queued, in order; what these tasks queue is left for the next turn.
  pub turn_runs :
      (events : List Event) (w : World)
      → Distinct events
      → ((turn is_set effect (found events) w).ran
          ≡ w.ran ++ (due events ++ tasks is_set effect (turn_tasks (due events) w)))
        × ((turn is_set effect (found events) w).loop.pending
            ≡ queued (w.ran ++ due events) (tasks is_set effect (turn_tasks (due events) w)))
  turn_runs events w d =
      let t =
        subst (λ k. Turned k w (turn is_set effect (found events) w)) (poll-due events w.ready d)
          (turn-Turned (found events) w) in
      (t.ran, t.pending)
