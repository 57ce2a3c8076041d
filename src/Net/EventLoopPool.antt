-- ===== src/Net/EventLoopPool.antt =====
-- include/minirpc/net/EventLoopPool.h, src/net/EventLoopPool.cpp: threads that run a loop each. A loop is
-- named by the number of the thread that made it. `quits` are the loops that were told to stop.
pub mod Deal
mod Tests
use mini_rpc.Base.{
  ℕ, zero, suc, ◌%◌, ◌==◌, List, [], ◌∷◌, ◌++◌, length, get_or, Bool, true, false, if◌then◌else◌,
  Option, none, some, add_size,
}

pub record EventLoopPool : Type 0 where
  pub thread_count : ℕ
  pub loops : List ℕ
  pub threads : List ℕ
  pub next : ℕ
  pub started : Bool
  pub quits : List ℕ

unfoldable pub create : ℕ → EventLoopPool
create n = record {
  thread_count = if n == 0 then 1 else n;
  loops = [];
  threads = [];
  next = 0;
  started = false;
  quits = [];
}

-- The turns of `start`'s loop: how many are left, and the number of the first.
unfoldable pub start_threads : ℕ → ℕ → EventLoopPool → EventLoopPool
start_threads zero i p = p
start_threads (suc k) i p =
    start_threads k (suc i)
      (record p { threads = p.threads ++ (i ∷ []); loops = p.loops ++ (i ∷ []) })

unfoldable pub start : EventLoopPool → EventLoopPool
start p = if p.started then p else start_threads p.thread_count 0 (record p { started = true })

-- `none` is the null pointer.
unfoldable pub get_next : EventLoopPool → Option ℕ × EventLoopPool
get_next p =
    if length p.loops == 0
    then (none, p)
    else (some (get_or p.loops (p.next % length p.loops) 0), record p { next = add_size p.next 1 })

unfoldable pub size : EventLoopPool → ℕ
size p = length p.loops

-- The destructor: each loop is told to stop, and each thread, which then ends, is joined.
unfoldable pub destroy : EventLoopPool → EventLoopPool
destroy p = record p { quits = p.quits ++ p.loops; threads = [] }
