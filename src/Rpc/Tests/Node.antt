-- ===== src/Rpc/Tests/Node.antt =====
-- A node that registers at 1000 ms and sends heartbeats each second, and one that was evicted.
use mini_rpc.Base.{◌≡◌, refl, true, List, [], ◌∷◌, false, none, some, arith}
use mini_rpc.Base.Dict.{lookup}
use mini_rpc.Base.Text.{text}
use mini_rpc.Registry.{NodeEntry, Services, evicts, discovers, node_key}
use mini_rpc.Registry.Table.{view, IsValid}
use mini_rpc.Registry.History.{Present, run}
use mini_rpc.Rpc.ServiceNode.{ServiceNode, self, register_self, heartbeat_round, heartbeat_loop}
use mini_rpc.Rpc.ServiceNode.Threads
use mini_rpc.Rpc.ServiceNode.Threads.{joining, sending, waiting, stopped, Threads}
use mini_rpc.Rpc.ServiceNode.Life.{
  timed, heartbeat_loop_lost, Round, serve, last_arrival, serve-Present,
}

abbrev node : ServiceNode
node = record { node_name = text "a"; service_name = text "Echo"; port = 8000 }

abbrev entry : NodeEntry
entry = record { node = self node; last_heartbeat = 1000 }

abbrev services : Services
services = (text "Echo", (node_key (self node), entry) ∷ []) ∷ []

services-IsValid : IsValid services
unfolding lookup
services-IsValid = record { services = (refl, tt); nodes = ((refl, tt), refl, tt) }

here : view services (text "Echo") (node_key (self node)) ≡ some entry
unfolding lookup
here = ground arith

abbrev rounds : List Round
rounds =
    record { others = (1500, evicts) ∷ (1600, discovers (text "Echo")) ∷ []; arrival = 2000 }
    ∷ record { others = (2500, evicts) ∷ []; arrival = 3000 }
    ∷ []

serve-Present_example :
    Present
      (last_arrival 1000 rounds)
      (view (serve 6000 node rounds services) node.service_name (node_key (self node)))
serve-Present_example =
    serve-Present 6000 1000 node rounds services services-IsValid
      ((
        (((omega arith), (omega arith), tt), (((omega arith), (omega arith), tt), tt)),
        (omega arith),
        ((((omega arith), (omega arith), tt), tt), (omega arith), tt),
      ))
      (entry, here, omega arith)

nothing-IsValid : IsValid []
nothing-IsValid = record { services = tt; nodes = tt }

nothing_there : view [] (text "Echo") (node_key (self node)) ≡ none
unfolding lookup
nothing_there = refl

heartbeat_loop_lost_example :
    view
      (run 6000 (timed (9000 ∷ 10000 ∷ []) (heartbeat_loop (false ∷ false ∷ []) node)) [])
      node.service_name
      (node_key (self node))
    ≡ none
heartbeat_loop_lost_example =
    heartbeat_loop_lost 6000 (9000 ∷ 10000 ∷ []) (false ∷ false ∷ []) node [] nothing-IsValid
      nothing_there

-- The node is told to stop just when it is about to send a heartbeat.
abbrev asked_late : Threads
asked_late = record {
  main = joining;
  beat = sending;
  stop = true;
  sent = register_self node ∷ [];
  late = 0;
}

abbrev beaten : Threads
beaten = record {
  main = joining;
  beat = waiting;
  stop = true;
  sent = register_self node ∷ heartbeat_round node ∷ [];
  late = 1;
}
