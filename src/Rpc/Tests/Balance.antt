-- ===== src/Rpc/Tests/Balance.antt =====
-- A balanced channel over two nodes, whose calls fail at once: the kernel refuses every connection.
use mini_rpc.Base.{ℕ, ◌≢◌, refl, List, [], ◌∷◌, Bool, none, some, length, arith, true}
use mini_rpc.Base.Text.{Text, text}
use mini_rpc.Registry.{NodeInfo, node_key}
use mini_rpc.Rpc.LoadBalancer.RoundRobin.{set_node_count, start}
use mini_rpc.Rpc.Controller.{fresh}
use mini_rpc.Rpc.Channel.{Caller}
use mini_rpc.Rpc.BalanceChannel.{
  new_balance_channel, BalanceChannel, consistent_hash, select_node_key_for_retry, refresh_nodes,
}
use mini_rpc.Rpc.BalanceChannel.Select.{select_node_key_for_retry-other}

abbrev parses : Text → Bool
parses t = true

abbrev hash : Text → ℕ
hash t = length t

abbrev node_a : NodeInfo
node_a = record { name = text "a"; host = text "10.0.0.1"; port = 8000 }

abbrev node_b : NodeInfo
node_b = record { name = text "b"; host = text "10.0.0.2"; port = 8001 }

abbrev nodes : List NodeInfo
nodes = node_a ∷ node_b ∷ []

-- Before the first call.
abbrev idle : BalanceChannel
idle = new_balance_channel (text "Echo") consistent_hash 3000 2000 1

abbrev ready : BalanceChannel
ready = refresh_nodes hash 5000 (some nodes) idle

abbrev caller : Caller
caller = record { controller = some fresh; reply = none }

select_node_key_for_retry-other_example :
    (select_node_key_for_retry (node_key node_a) ready).0 ≢ node_key node_a
unfolding refresh_nodes set_node_count start node_key new_balance_channel
select_node_key_for_retry-other_example =
    select_node_key_for_retry-other (node_key node_a) ready 1 refl (omega arith) (omega arith)
      (λ e. grind (arith, e))
