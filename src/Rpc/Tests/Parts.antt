-- ===== src/Rpc/Tests/Parts.antt =====
-- The controller, the table of services and the load balancers on small inputs.
use mini_rpc.Base.{ℕ, ◌+◌, ◌%◌, ◌<◌, List, [], ◌∷◌, ◌++◌, arith}
use mini_rpc.Base.Text.{Text, text}
use mini_rpc.Rpc.Controller.{Call, notifies, cancels}
use mathlib.Core.List.{Mem}
use mini_rpc.Rpc.LoadBalancer.Nearest.{IsNearest, select_node-IsNearest}
use mini_rpc.Rpc.LoadBalancer.ConsistentHash.{
  create, select_node, set_nodes, Moves, select_node-append,
}

-- A callback that is handed in and cancelled, twice.
abbrev calls : List Call
calls = notifies 4 ∷ cancels ∷ notifies 4 ∷ cancels ∷ []

-- A hash with many collisions.
abbrev hash : Text → ℕ
hash [] = 0
hash (c ∷ cs) = (c + hash cs) % 64

abbrev keys : List Text
keys = text "a:80" ∷ text "b:81" ∷ []

select_node-append_example :
    Moves
      (text "c:82")
      (select_node hash (text "request") (set_nodes hash keys (create 4)))
      (select_node hash (text "request") (set_nodes hash (keys ++ (text "c:82" ∷ [])) (create 4)))
select_node-append_example = select_node-append hash keys (text "c:82") (text "request") (create 4)

four : 0 < (create 4).virtual_nodes
unfolding create
four = omega arith

select_node-IsNearest_example :
    (j : ℕ) × Mem
      (j, select_node hash (text "request") (set_nodes hash keys (create 4)))
      (set_nodes hash keys (create 4)).ring
    × IsNearest (hash (text "request")) j (set_nodes hash keys (create 4)).ring
select_node-IsNearest_example =
    select_node-IsNearest hash keys (text "request") (create 4) (λ e. cc) four
