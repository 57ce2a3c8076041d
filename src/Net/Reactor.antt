-- ===== src/Net/Reactor.antt =====
-- src/net/EventLoop.cpp and src/net/EpollPoller.cpp: the loop with the ready channels that `poll` finds
-- for it. What `epoll_wait` answers is an argument, one entry for each call. Channels, callbacks and
-- tasks are known by number; what one of them does to the loop, after all
-- that ran before it, is a parameter: the tasks that it queues, and whether it calls `quit`. All run in the loop's thread.
mod Tests
pub mod Order
pub mod Account
use mini_rpc.Base.{
  ℕ, List, [], ◌∷◌, ◌++◌, Bool, true, false, Option, none, some, if◌then◌else◌, ℕ_discrete,
}
use mini_rpc.Base.Dict.{lookup, insert}
use mini_rpc.Net.Poller.{Revents, Callback, handle_event}
use mini_rpc.Net.EventLoop.{EventLoop, queue_in_loop, quit, do_pending_functors}

-- An `epoll_event`: the channel's pointer, and what is ready.
pub record Event : Type 0 where
  pub pointer : ℕ
  pub events : Revents

pub data Waited : Type 0 where
  found : List Event → Waited
  failed : Waited

-- The `revents_` of the channels; one that was never set is 0.
abbrev pub Ready : Type 0
Ready = List (ℕ × Revents)

abbrev pub nothing : Revents
nothing = record {
  input = false;
  priority = false;
  peer_closed = false;
  output = false;
  error = false;
  hang_up = false;
}

unfoldable pub fill_active_channels : List Event → Ready → List ℕ → Ready × List ℕ
fill_active_channels [] ready active = (ready, active)
fill_active_channels (e ∷ es) ready active =
    fill_active_channels es (insert ℕ_discrete e.pointer e.events ready)
      (active ++ (e.pointer ∷ []))

unfoldable pub poll : Waited → Ready → List ℕ → Ready × List ℕ
poll failed ready active = (ready, active)
poll (found events) ready active = fill_active_channels events ready active

-- What ran: a callback of a channel, or a task.
pub data Act : Type 0 where
  calls : ℕ → Callback → Act
  task : ℕ → Act

-- What an act does to the loop.
pub record Effect : Type 0 where
  pub queues : List ℕ
  pub quits : Bool

pub record World : Type 0 where
  pub loop : EventLoop
  pub ready : Ready
  pub ran : List Act

abbrev pub revents_of : Option Revents → Revents
revents_of none = nothing
revents_of (some r) = r

module _ (is_set : ℕ → Callback → Bool) (effect : List Act → Act → Effect) where
  unfoldable pub queue_all : List ℕ → EventLoop → EventLoop
  queue_all [] l = l
  queue_all (t ∷ ts) l = queue_all ts (queue_in_loop true t l)

  unfoldable pub act : Act → World → World
  act a w =
      let queued = queue_all (effect w.ran a).queues w.loop in
      record w {
        loop = if (effect w.ran a).quits then quit true queued else queued;
        ran = w.ran ++ (a ∷ []);
      }

  unfoldable pub act_all : List Act → World → World
  act_all [] w = w
  act_all (a ∷ rest) w = act_all rest (act a w)

  abbrev pub callbacks : ℕ → List Callback → List Act
  callbacks p [] = []
  callbacks p (c ∷ cs) = calls p c ∷ callbacks p cs

  abbrev pub tasks : List ℕ → List Act
  tasks [] = []
  tasks (t ∷ ts) = task t ∷ tasks ts

  -- `handleEvent` of each active channel.
  unfoldable pub handle_events : List ℕ → World → World
  handle_events [] w = w
  handle_events (p ∷ ps) w =
      let due = handle_event (is_set p) (revents_of (lookup ℕ_discrete p w.ready)) in
      handle_events ps (act_all (callbacks p due) w)

  unfoldable pub run_functors : World → World
  run_functors w =
      let (functors, l) = do_pending_functors w.loop in
      act_all (tasks functors) (record w { loop = l })

  -- One turn of `loop`.
  unfoldable pub turn : Waited → World → World
  turn answer w =
      let (ready, active) = poll answer w.ready [] in
      run_functors (handle_events active (record w { ready = ready }))

  -- `while (!quit_)`.
  unfoldable pub turns : List Waited → World → World
  turns [] w = w
  turns (answer ∷ answers) w =
      let rest = turns answers (turn answer w) in
      if w.loop.quitting then record w { loop = record w.loop { looping = false } } else rest

  -- `loop`
  unfoldable pub run_loop : List Waited → World → World
  run_loop answers w =
      turns answers (record w { loop = record w.loop { looping = true; quitting = false } })
