-- ===== src/Rpc/BalanceChannel.antt =====
-- include/minirpc/rpc/LoadBalanceChannel.h and src/rpc/LoadBalanceChannel.cpp: the client that discovers
-- a service's nodes and selects one for each call. The lock makes a call one step. The answers of the
-- registry (`none` where the call fails), the clock and the kernel are arguments.
pub mod Select
pub mod Retry
use mathlib.Core.Option
use mini_rpc.Base.{
  ℕ, zero, suc, ◌+◌, ◌-◌, ◌^◌, ◌%◌, List, [], ◌∷◌, ◌++◌, Bool, true, false, not, ◌&&◌, ◌||◌, ◌==◌,
  ltb, leb, if◌then◌else◌, ite, Option, none, some, length, get_or, map,
}
use mini_rpc.Base.Text.{Text, text, Text-discrete}
use mini_rpc.Base.Dict.{lookup, insert}
use mini_rpc.Base.Decimal.{atoi, split_last}
use mini_rpc.Common.ErrorCode
use mini_rpc.Common.ErrorCode.{ErrorCode}
use mini_rpc.Registry.{NodeInfo, node_key}
use mini_rpc.Net.Buffer.{create, initial_size}
use mini_rpc.Rpc.LoadBalancer.ConsistentHash
use mini_rpc.Rpc.LoadBalancer.RoundRobin.{start, RoundRobin, next, set_node_count}
use mini_rpc.Rpc.LoadBalancer.ConsistentHash.{ConsistentHash, select_node, set_nodes}
use mini_rpc.Rpc.Envelope.{Protobuf}
use mini_rpc.Rpc.Channel.{Channel, Caller, fail_controller, reset_controller}
use mini_rpc.Rpc.Channel.Call.{Attempt, Outcome, call_method}

pub data BalanceType : Type 0 where
  round_robin consistent_hash : BalanceType

-- A channel and the address that it dials.
pub record NodeChannel : Type 0 where
  pub host : Text
  pub port : ℕ
  pub channel : Channel

pub record BalanceChannel : Type 0 where
  pub service_name : Text
  pub kind : BalanceType
  pub refresh_interval : ℕ
  pub call_timeout : ℕ
  pub call_retries : ℕ
  pub last_refresh : ℕ
  pub nodes : List NodeInfo
  pub channels : List (Text × NodeChannel)
  pub turn : RoundRobin
  pub hashing : ConsistentHash
  pub failed_node_key : Text

-- The constructor, with the text of the service's name, the kind, and the three intervals and counts.
unfoldable pub new_balance_channel : Text → BalanceType → ℕ → ℕ → ℕ → BalanceChannel
new_balance_channel service_name kind refresh_interval call_timeout call_retries = record {
  service_name = service_name;
  kind = kind;
  refresh_interval = refresh_interval;
  call_timeout = call_timeout;
  call_retries = call_retries;
  last_refresh = 0;
  nodes = [];
  channels = [];
  turn = start;
  hashing = ConsistentHash.create 100;
  failed_node_key = [];
}

unfoldable pub node_count : BalanceChannel → ℕ
node_count b = length b.nodes

abbrev pub is_nil {ℓ} : {A : Type ℓ} → List A → Bool
is_nil [] = true
is_nil (x ∷ xs) = false

unfoldable pub need_refresh : ℕ → BalanceChannel → Bool
need_refresh now b = is_nil b.nodes || leb b.refresh_interval (now - b.last_refresh)

-- A fresh RpcChannel: it connects in its first call.
abbrev pub new_channel : ℕ → ℕ → Channel
new_channel timeout retries = record {
  connected = false;
  timeout = timeout;
  max_retries = retries;
  next_seq = 1;
  input = create initial_size;
}

-- The node key at a position of the list.
abbrev pub key_at : ℕ → List NodeInfo → Text
key_at i ns = get_or (map node_key ns) i []

-- `nodeKeyOf(nodes_[roundRobin_.next() % nodes_.size()])`
unfoldable pub next_key : BalanceChannel → Text × BalanceChannel
next_key b =
    let (i, r) = next b.turn in (key_at (i % length b.nodes) b.nodes, record b { turn = r })

-- The port is cast to `uint16_t`. Without a colon `npos + 1` is the text's start.
abbrev pub address_of : Option (Text × Text) → Text → Text × ℕ
address_of none key = (key, atoi key % 2 ^ 16)
address_of (some (host, port)) key = (host, atoi port % 2 ^ 16)

abbrev pub colon : ℕ
colon = 58

unfoldable pub open_channel : Text → BalanceChannel → NodeChannel
open_channel key b =
    let (host, port) = address_of (split_last colon key) key in
    record { host = host; port = port; channel = new_channel b.call_timeout b.call_retries }

-- `channelFor`, which stores a new channel under the key.
unfoldable pub channel_for : Text → BalanceChannel → NodeChannel × BalanceChannel
channel_for key b = elim (lookup Text-discrete key b.channels) [
  | some ch ↦ (ch, b)
  | none ↦
      let ch = open_channel key b in
      (ch, record b { channels = insert Text-discrete key ch b.channels })
]

-- The loop of `selectNodeKeyForRetry`.
unfoldable pub other_key : ℕ → Text → BalanceChannel → Text × BalanceChannel
other_key zero failed b = (failed, b)
other_key (suc n) failed b =
    let (key, b') = next_key b in
    let rest = other_key n failed b' in ite (Text-discrete key failed) rest (key, b')

unfoldable pub select_node_key_for_retry : Text → BalanceChannel → Text × BalanceChannel
select_node_key_for_retry failed b =
    if is_nil b.nodes then ([], b) else other_key (length b.nodes) failed b

-- An error of the connection, after which another node is tried.
abbrev pub is_connection_error : ErrorCode → Bool
is_connection_error code =
    (code == ErrorCode.closed) || ((code == ErrorCode.system) || (code == ErrorCode.timeout))

-- What the world answers in one attempt: to `socket` and `connect`, to the RpcChannel's attempts, to a
-- Discover after it, and the clock at that refresh.
pub record Try : Type 0 where
  pub dialled : Option Text
  pub attempts : List Attempt
  pub discovered : Option (List NodeInfo)
  pub now : ℕ

-- How a call ends, with the node keys that it called.
pub record Called : Type 0 where
  pub balance : BalanceChannel
  pub caller : Caller
  pub keys : List Text

abbrev pub with_key : Text → Called → Called
with_key key c = record c { keys = key ∷ c.keys }

-- `controller == nullptr || !controller->Failed()`, or an error that is not the connection's.
abbrev pub is_final : Caller → Bool
is_final caller = elim (caller.controller) [
  | none ↦ true
  | some c ↦ not c.failed || not (is_connection_error c.error_code)
]

module _ (hash64 : Text → ℕ) where
  unfoldable pub refresh_nodes : ℕ → Option (List NodeInfo) → BalanceChannel → BalanceChannel
  refresh_nodes now none b = b
  refresh_nodes now (some nodes) b = record b {
    nodes = nodes;
    turn = set_node_count (length nodes) b.turn;
    hashing = set_nodes hash64 (map node_key nodes) b.hashing;
    last_refresh = now;
  }

  -- The channel as a call finds it: the nodes are discovered anew when they are old.
  unfoldable pub refreshed : ℕ → Option (List NodeInfo) → BalanceChannel → BalanceChannel
  refreshed now discovered b = if need_refresh now b then refresh_nodes now discovered b else b

  -- The consistent hash's key, or the next of the round robin where it is empty.
  unfoldable pub hashed_key : Text → BalanceChannel → Text × BalanceChannel
  hashed_key [] b = next_key b
  hashed_key (c ∷ cs) b = (c ∷ cs, b)

  unfoldable pub by_kind : BalanceType → Text → BalanceChannel → Text × BalanceChannel
  unfolding hashed_key
  by_kind round_robin hash_key b = next_key b
  by_kind consistent_hash [] b = next_key b
  by_kind consistent_hash (c ∷ cs) b = hashed_key (select_node hash64 (c ∷ cs) b.hashing) b

  unfoldable pub select_node_key : Text → BalanceChannel → Text × BalanceChannel
  unfolding by_kind
  select_node_key hash_key b = if is_nil b.nodes then ([], b) else by_kind b.kind hash_key b

  module _ (pb : Protobuf) (parses : Text → Bool) where
    -- After the RpcChannel's call: the end, or another node.
    unfoldable pub after_call :
        (BalanceChannel → Caller → Option Called)
        → Text
        → Try
        → NodeChannel
        → BalanceChannel
        → Option Outcome
        → Option Called
    after_call again key env ch b none = none
    after_call again key env ch b (some o) =
        let stored = record ch { channel = o.channel } in
        let b' = record b { channels = insert Text-discrete key stored b.channels } in
        let ended = some (record { balance = b'; caller = o.caller; keys = key ∷ [] }) in
        let tried = record b' { failed_node_key = key } in
        let fresh = refresh_nodes env.now env.discovered tried in
        let rest = again fresh o.caller in
        if is_final o.caller || leb (length b.nodes) 1
        then ended
        else if leb (length fresh.nodes) 1
        then some (record { balance = fresh; caller = o.caller; keys = key ∷ [] })
        else Option.map (with_key key) rest

    -- The call on the node of a key.
    unfoldable pub call_node :
        Text
        → Text
        → (BalanceChannel → Caller → Option Called)
        → Try
        → Text × BalanceChannel
        → Caller
        → Option Called
    unfolding after_call
    call_node full_name payload again env (key, b) caller =
        let (ch, b') = channel_for key b in
        after_call again key env ch b'
          (call_method pb parses full_name payload env.dialled env.attempts ch.channel caller)

    -- The loop of attempts: what is left of `maxAttempts`, and the answers to each.
    unfoldable pub retries : Text → Text → ℕ → List Try → BalanceChannel → Caller → Option Called
    unfolding call_node
    retries full_name payload zero envs b caller =
        some (record { balance = b; caller = caller; keys = [] })
    retries full_name payload (suc n) [] b caller = none
    retries full_name payload (suc n) (env ∷ envs) b caller =
        call_node full_name payload (retries full_name payload n envs) env
          (select_node_key_for_retry b.failed_node_key b) caller

    unfoldable pub first_try :
        Text → Text → ℕ → List Try → Text → BalanceChannel → Caller → Option Called
    unfolding call_node
    first_try full_name payload more [] hash_key b caller = none
    first_try full_name payload more (env ∷ envs) hash_key b caller =
        call_node full_name payload (retries full_name payload more envs) env
          (select_node_key hash_key b) caller

    -- `CallMethod`. `payload` is the serialised request, which is the hash key too; with a `done` there
    -- is one attempt.
    unfoldable pub call :
        Text
        → Text
        → Bool
        → ℕ
        → Option (List NodeInfo)
        → List Try
        → BalanceChannel
        → Caller
        → Option Called
    unfolding first_try
    call full_name payload has_done now discovered envs b caller =
        let ready = refreshed now discovered b in
        let start = reset_controller caller in
        if is_nil ready.nodes
        then some (record {
          balance = ready;
          caller =
              fail_controller ErrorCode.no_service
                (text "no available node for service: " ++ b.service_name) start;
          keys = [];
        })
        else first_try full_name payload (if has_done then 0 else 1) envs payload ready start
