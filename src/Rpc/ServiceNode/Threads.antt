-- ===== src/Rpc/ServiceNode/Threads.antt =====
-- The two threads of a service's node in src/rpc/RpcServiceNode.cpp: the one that calls `start`, `stopHeartbeat`
-- and `shutdown`, and the heartbeat thread. A step is what a thread does between two points at which the
-- other can act; a request to the registry is one step, at the moment it is sent. The wait on the condition
-- variable ends by its time limit or by the notification at any time. `late` counts the heartbeats that were
-- sent after the flag `stop_` was set.
pub mod Requests
pub mod Join
use mini_rpc.Base.{ℕ, ◌+◌, ◌≡◌, List, [], ◌∷◌, ◌++◌, Bool, true, false, if◌then◌else◌}
use mini_rpc.Registry.{Request}
use mini_rpc.Rpc.ServiceNode.{ServiceNode, register_self, unregister_self, heartbeat_round}

-- Where the caller stands: before `start`, after `registerSelf`, after the thread was started, in the
-- `join` of `stopHeartbeat`, after it, after `unregisterSelf`.
pub data Main : Type 0 where
  outside registered running joining stopped gone : Main

-- Where the heartbeat thread stands: not started, at the test of the loop, before the request, in
-- `wait_for`, returned.
pub data Beat : Type 0 where
  absent testing sending waiting returned : Beat

pub record Threads : Type 0 where
  pub main : Main
  pub beat : Beat
  pub stop : Bool
  pub sent : List Request
  pub late : ℕ

unfoldable pub new : Threads
new = record { main = outside; beat = absent; stop = false; sent = []; late = 0 }

-- The loop's test.
unfoldable pub test_stop : Threads → Threads
test_stop s = record s { beat = if s.stop then returned else sending }

-- A heartbeat.
unfoldable pub beat_once : ServiceNode → Threads → Threads
beat_once n s = record s {
  beat = waiting;
  sent = s.sent ++ (heartbeat_round n ∷ []);
  late = if s.stop then s.late + 1 else s.late;
}

module _ (n : ServiceNode) where
  pub data Step (s t : Threads) : Type 0 where
    -- `start`
    registers :
        s.main ≡ outside
        → t ≡ record s { main = registered; sent = s.sent ++ (register_self n ∷ []) }
        → Step s t
    spawns : s.main ≡ registered → t ≡ record s { main = running; beat = testing } → Step s t
    -- `stopHeartbeat`
    stops : s.main ≡ running → t ≡ record s { main = joining; stop = true } → Step s t
    joins : s.main ≡ joining → s.beat ≡ returned → t ≡ record s { main = stopped } → Step s t
    -- the rest of `shutdown`
    unregisters :
        s.main ≡ stopped
        → t ≡ record s { main = gone; sent = s.sent ++ (unregister_self n ∷ []) }
        → Step s t
    -- `heartbeatLoop`
    tests : s.beat ≡ testing → t ≡ test_stop s → Step s t
    beats : s.beat ≡ sending → t ≡ beat_once n s → Step s t
    wakes : s.beat ≡ waiting → t ≡ record s { beat = testing } → Step s t

  pub data Reach (s : Threads) : Threads → Type 0 where
    here : Reach s s
    next : {t u : Threads} → Reach s t → Step t u → Reach s u
