-- ===== src/Rpc/ServiceNode.antt =====
-- include/minirpc/rpc/RpcServiceNode.h and src/rpc/RpcServiceNode.cpp: the requests that a service's
-- node sends to the registry in its life. The RpcServer in it and the channel to the registry are
-- modelled elsewhere; the flag `stop_` as each round of the heartbeat loop reads it is an argument.
pub mod Life
pub mod Threads
use mini_rpc.Base.{ℕ, List, [], ◌∷◌, ◌++◌, Bool, true, false}
use mini_rpc.Base.Text.{Text, text}
use mini_rpc.Registry.{NodeInfo, Request, registers, unregisters, heartbeats}

pub record ServiceNode : Type 0 where
  pub node_name : Text
  pub service_name : Text
  pub port : ℕ

-- The node as each of the three requests describes it.
unfoldable pub self : ServiceNode → NodeInfo
self n = record { name = n.node_name; host = text "127.0.0.1"; port = n.port }

unfoldable pub register_self : ServiceNode → Request
register_self n = registers n.service_name (self n)

unfoldable pub unregister_self : ServiceNode → Request
unregister_self n = unregisters n.service_name (self n)

-- One round: the response's error code is not read.
unfoldable pub heartbeat_round : ServiceNode → Request
heartbeat_round n = heartbeats n.service_name (self n)

unfoldable pub heartbeat_loop : List Bool → ServiceNode → List Request
heartbeat_loop [] n = []
heartbeat_loop (true ∷ stops) n = []
heartbeat_loop (false ∷ stops) n = heartbeat_round n ∷ heartbeat_loop stops n

-- `start`, the heartbeats, and `shutdown` or, for a crash, `stopHeartbeat` alone.
unfoldable pub life : List Bool → Bool → ServiceNode → List Request
life stops crashed n =
    register_self n
    ∷ (heartbeat_loop stops n ++ (elim crashed [ true ↦ [] | false ↦ unregister_self n ∷ [] ]))
