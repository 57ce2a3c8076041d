-- ===== src/Net/Poller.antt =====
-- include/minirpc/net/Channel.h, src/net/Channel.cpp, include/minirpc/net/EpollPoller.h and
-- src/net/EpollPoller.cpp: the events of a descriptor, the callbacks they cause, and the table of
-- registered channels. An `epoll_ctl` is a value; its failure is only logged. A channel's pointer is a
-- number.
pub mod Calls
pub mod Watching
mod Tests
use mini_rpc.Base.{
  ℕ, List, [], ◌∷◌, ◌++◌, Bool, true, false, not, ◌&&◌, ◌||◌, if◌then◌else◌, Option, none, some,
  ℕ_discrete,
}
use mini_rpc.Base.Dict.{lookup, insert, erase}

-- A channel with its interest: EPOLLIN and EPOLLOUT.
pub record Channel : Type 0 where
  pub pointer : ℕ
  pub fd : ℕ
  pub reading : Bool
  pub writing : Bool

-- `revents_`
pub record Revents : Type 0 where
  pub input : Bool
  pub priority : Bool
  pub peer_closed : Bool
  pub output : Bool
  pub error : Bool
  pub hang_up : Bool

pub data Callback : Type 0 where
  on_read on_write on_close on_error : Callback

-- A callback that is set and due.
abbrev pub fire : (Callback → Bool) → Bool → Callback → List Callback
fire is_set due cb = if due && is_set cb then cb ∷ [] else []

-- `handleEvent`: the callbacks in the order of their calls.
unfoldable pub handle_event : (Callback → Bool) → Revents → List Callback
handle_event is_set r =
    if r.hang_up && not r.input
    then fire is_set true on_close
    else fire is_set r.error on_error
      ++ (fire is_set (r.input || (r.priority || r.peer_closed)) on_read
          ++ fire is_set r.output on_write)

abbrev pub is_none_event : Channel → Bool
is_none_event c = not c.reading && not c.writing

-- The calls of `epoll_ctl`, with the interest that they pass.
pub data Control : Type 0 where
  add : Channel → Control
  modify : Channel → Control
  delete : Channel → Control

-- `channels_`, from descriptors to pointers.
abbrev pub Table : Type 0
Table = List (ℕ × ℕ)

unfoldable pub update_channel : Channel → Table → Table × Option Control
update_channel c table = elim (lookup ℕ_discrete c.fd table) [
  | none ↦
      if is_none_event c
      then (table, none)
      else (insert ℕ_discrete c.fd c.pointer table, some (add c))
  | some p ↦
      if is_none_event c
      then (erase ℕ_discrete c.fd table, some (delete c))
      else (table, some (modify c))
]

unfoldable pub remove_channel : Channel → Table → Table × Option Control
remove_channel c table = elim (lookup ℕ_discrete c.fd table) [
  | none ↦ (table, none)
  | some p ↦ (erase ℕ_discrete c.fd table, some (delete c))
]

-- The changes of a channel's interest; each is followed by `update_channel`.
pub data Change : Type 0 where
  enable_reading disable_reading enable_writing disable_writing disable_all : Change

unfoldable pub changed : Change → Channel → Channel
changed enable_reading c = record c { reading = true }
changed disable_reading c = record c { reading = false }
changed enable_writing c = record c { writing = true }
changed disable_writing c = record c { writing = false }
changed disable_all c = record c { reading = false; writing = false }

unfoldable pub change_channel : Change → Channel → Table → Channel × (Table × Option Control)
change_channel change c table = let c' = changed change c in (c', update_channel c' table)
