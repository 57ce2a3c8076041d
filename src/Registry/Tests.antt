-- ===== src/Registry/Tests.antt =====
-- A registry with one service and one node, which was heard of at 1000 ms.
use mini_rpc.Base.{ℕ, ◌≡◌, ◌↔◌, refl, List, [], ◌∷◌, arith, some, true}
use mini_rpc.Base.Dict.{lookup}
use mini_rpc.Base.Text.{Text, text}
use mini_rpc.Registry.{
  NodeInfo, NodeEntry, Services, Request, registers, unregisters, heartbeats, discovers, evicts,
  node_key, discover, is_alive, step,
}
use mini_rpc.Registry.Table.{view, IsValid}
use mini_rpc.Registry.Refine.{answers, codes, apply_all, run-refines_table}
use mini_rpc.Registry.Invariant.{step-IsValid}
use mini_rpc.Registry.History.{Present, run, run-Present}
use mini_rpc.Registry.Discovery.{mem-discover}
use mathlib.Core.List.{Mem}

abbrev echo : Text
echo = text "Echo"

abbrev node : NodeInfo
node = record { name = text "a"; host = text "h"; port = 80 }

abbrev entry : NodeEntry
entry = record { node = node; last_heartbeat = 1000 }

abbrev services : Services
services = (echo, (node_key node, entry) ∷ []) ∷ []

services-IsValid : IsValid services
unfolding lookup
services-IsValid = record { services = (refl, tt); nodes = ((refl, tt), refl, tt) }

here : view services echo (node_key node) ≡ some entry
unfolding lookup
here = ground arith

mem-discover_example :
    Mem node (discover 6000 2000 echo services).0.nodes
    ↔ ∥ (
        (key : Text) × (e : NodeEntry) × (view services echo key ≡ some e)
        × (is_alive 6000 2000 e ≡ true)
        × (e.node ≡ node)) ∥₁
mem-discover_example = mem-discover 6000 2000 echo services node services-IsValid

-- A heartbeat, a discovery and an eviction round.
abbrev history : List (ℕ × Request)
history = (2000, heartbeats echo node) ∷ (3000, discovers echo) ∷ (7000, evicts) ∷ []

run-Present_example : Present 1000 (view (run 6000 history services) echo (node_key node))
run-Present_example =
    run-Present 6000 1000 history services echo (node_key node) services-IsValid
      (
        ((omega arith), (omega arith), tt),
        (((omega arith), (omega arith), tt), (((omega arith), (omega arith), tt), tt)),
      )
      (entry, here, omega arith)

abbrev other_node : NodeInfo
other_node = record { name = text "b"; host = text "i"; port = 81 }

step-IsValid_example : IsValid (step 6000 9000 evicts services).1
step-IsValid_example = step-IsValid 6000 9000 evicts services services-IsValid

-- A second node registers, the first sends a heartbeat and leaves; then its heartbeat is refused.
abbrev life : List (ℕ × Request)
life =
    (2000, registers echo other_node)
    ∷ (2500, heartbeats echo node)
    ∷ (3000, unregisters echo node)
    ∷ (3500, heartbeats echo node)
    ∷ (9000, evicts)
    ∷ []

run-refines_table_example :
    (answers 6000 life services ≡ codes 6000 life (view services))
    × (view (run 6000 life services) ≡ apply_all 6000 life (view services))
run-refines_table_example = run-refines_table 6000 life services services-IsValid
