-- ===== src/Rpc/ServiceNode/Life.antt =====
-- A node's heartbeats against the registry: what they keep, and what they do not bring back.
use mini_rpc.Base.{ℕ, ◌+◌, ◌≤◌, ◌≡◌, ◌∙◌, List, [], ◌∷◌, Bool, true, false, none, All, arith}
use mini_rpc.Base.Text.{Text}
use mini_rpc.Registry.{Services, Request, node_key, step}
use mini_rpc.Registry.Table.{view, IsValid, view-heartbeat}
use mini_rpc.Registry.Invariant.{step-IsValid}
use mini_rpc.Registry.History.{
  Present, Spares, run, run-Present, run-IsValid, change_self, Quiet, run-absent,
}
use mini_rpc.Rpc.ServiceNode.{ServiceNode, self, heartbeat_round, heartbeat_loop}

-- Requests with the times at which they arrive, as many as there are times.
abbrev pub timed : List ℕ → List Request → List (ℕ × Request)
timed [] rs = []
timed (t ∷ ts) [] = []
timed (t ∷ ts) (r ∷ rs) = (t, r) ∷ timed ts rs

heartbeat_loop-Quiet :
    (ts : List ℕ) (stops : List Bool) (n : ServiceNode) (name key : Text)
    → All (λ c. Quiet name key c.1) (timed ts (heartbeat_loop stops n))
unfolding heartbeat_loop heartbeat_round
heartbeat_loop-Quiet [] stops n name key = tt
heartbeat_loop-Quiet (t ∷ ts) [] n name key = tt
heartbeat_loop-Quiet (t ∷ ts) (true ∷ stops) n name key = tt
heartbeat_loop-Quiet (t ∷ ts) (false ∷ stops) n name key =
    (tt, heartbeat_loop-Quiet ts stops n name key)

-- A node whose entry is not in a valid registry does not come back by its heartbeat loop, at whatever
-- times the heartbeats arrive.
pub heartbeat_loop_lost :
    (timeout : ℕ) (ts : List ℕ) (stops : List Bool) (n : ServiceNode) (s : Services)
    → IsValid s
    → view s n.service_name (node_key (self n)) ≡ none
    → view (run timeout (timed ts (heartbeat_loop stops n)) s) n.service_name (node_key (self n))
      ≡ none
heartbeat_loop_lost timeout ts stops n s v e =
    run-absent timeout (timed ts (heartbeat_loop stops n)) s n.service_name (node_key (self n)) v
      (heartbeat_loop-Quiet ts stops n n.service_name (node_key (self n))) e

-- What the registry does before a heartbeat of the node, and when that heartbeat arrives.
pub record Round : Type 0 where
  pub others : List (ℕ × Request)
  pub arrival : ℕ

abbrev pub serve : ℕ → ServiceNode → List Round → Services → Services
serve timeout n [] s = s
serve timeout n (r ∷ rs) s =
    serve timeout n rs (step timeout r.arrival (heartbeat_round n) (run timeout r.others s)).1

-- The other requests of a round come within one timeout after the heartbeat before it, and none
-- unregisters the node.
abbrev pub OnTime : ℕ → ServiceNode → ℕ → List Round → Type 0
OnTime timeout n since [] = Unit {0}
OnTime timeout n since (r ∷ rs) =
    All
      (λ c. (since ≤ c.0) × (c.0 ≤ since + timeout) × Spares n.service_name (node_key (self n)) c.1)
      r.others
    × (since ≤ r.arrival)
    × OnTime timeout n r.arrival rs

abbrev pub last_arrival : ℕ → List Round → ℕ
last_arrival since [] = since
last_arrival since (r ∷ rs) = last_arrival r.arrival rs

heartbeat-Present :
    (timeout now : ℕ) (n : ServiceNode) (s : Services)
    → Present 0 (view s n.service_name (node_key (self n)))
    → Present now
        (view (step timeout now (heartbeat_round n) s).1 n.service_name (node_key (self n)))
unfolding heartbeat_round step
heartbeat-Present timeout now n s (e, q, h) =
    let key = node_key (self n) in
    (
      record e { last_heartbeat = now },
      view-heartbeat now n.service_name (self n) s e n.service_name key q
          ∙ change_self (view s) n.service_name key _,
      omega arith,
    )

-- A node that is registered in a valid registry stays registered, its last heartbeat the latest to
-- arrive, for as long as the eviction rounds and the other requests between two of its heartbeats come
-- within one timeout after the first of them and none unregisters it.
pub serve-Present :
    (timeout since : ℕ) (n : ServiceNode) (rs : List Round) (s : Services)
    → IsValid s
    → OnTime timeout n since rs
    → Present since (view s n.service_name (node_key (self n)))
    → Present
        (last_arrival since rs)
        (view (serve timeout n rs s) n.service_name (node_key (self n)))
serve-Present timeout since n [] s v h p = p
serve-Present timeout since n (r ∷ rs) s v (others, le, later) p =
    let s' = run timeout r.others s in
    let v' = run-IsValid timeout r.others s v in
    let (e, q, k) =
      run-Present timeout since r.others s n.service_name (node_key (self n)) v others p in
    serve-Present timeout r.arrival n rs (step timeout r.arrival (heartbeat_round n) s').1
      (step-IsValid timeout r.arrival (heartbeat_round n) s' v') later
      (heartbeat-Present timeout r.arrival n s' (e, q, omega arith))
