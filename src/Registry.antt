-- ===== src/Registry.antt =====
-- include/minirpc/registry/RegistryServiceImpl.h, src/registry/RegistryServiceImpl.cpp and the messages
-- of proto/registry.proto. The lock makes each request one step; `steady_clock::now()` is an argument,
-- in milliseconds, and so is the timeout (a duration that is not negative). An unordered map is a list
-- of entries; the order of its iteration is the list's.
pub mod Table
pub mod View
pub mod Invariant
pub mod History
pub mod Refine
pub mod Discovery
mod Tests
use mini_rpc.Base.{
  ℕ, ◌+◌, ◌-◌, ◌≡◌, List, [], ◌∷◌, ◌++◌, ltb, leb, ◌==◌, if◌then◌else◌, Bool, true, false, not,
  ◌&&◌, ◌||◌, Option, none, some, map,
}
use mini_rpc.Base.Dict.{lookup, insert, erase, keep}
use mini_rpc.Base.Text.{Text, text, Text-discrete}
use mini_rpc.Base.Decimal.{to_string}
use mini_rpc.Common.ErrorCode

pub record NodeInfo : Type 0 where
  pub name : Text
  pub host : Text
  pub port : ℕ

pub record NodeEntry : Type 0 where
  pub node : NodeInfo
  pub last_heartbeat : ℕ

abbrev pub ServiceMap : Type 0
ServiceMap = List (Text × NodeEntry)

abbrev pub Services : Type 0
Services = List (Text × ServiceMap)

-- `error_code` and `error_message` of the responses; `nodes` is empty but in DiscoverResponse.
pub record Response : Type 0 where
  pub error_code : ℕ
  pub error_message : Text
  pub nodes : List NodeInfo

abbrev pub ok_code : ℕ
ok_code = ErrorCode.ok

abbrev pub err_code : ℕ
err_code = ErrorCode.unknown

abbrev pub done : Response
done = record { error_code = ok_code; error_message = []; nodes = [] }

-- `nodeKey`
unfoldable pub node_key : NodeInfo → Text
node_key node = node.host ++ (text ":" ++ to_string node.port)

-- `!(now - lastHeartbeat > heartbeatTimeout_)`
abbrev pub is_alive : ℕ → ℕ → NodeEntry → Bool
is_alive timeout now entry = not (ltb timeout (now - entry.last_heartbeat))

abbrev pub is_empty : ServiceMap → Bool
is_empty [] = true
is_empty (e ∷ m) = false

-- `purgeExpired`: the expired nodes of each service, then the services that have none left.
unfoldable pub purge_expired : ℕ → ℕ → Services → Services
purge_expired timeout now [] = []
purge_expired timeout now ((name, nodes) ∷ services) =
    let rest = purge_expired timeout now services in
    let live = keep (is_alive timeout now) nodes in
    if is_empty live then rest else (name, live) ∷ rest

abbrev pub or_empty : Option ServiceMap → ServiceMap
or_empty none = []
or_empty (some nodes) = nodes

-- `services_[name]`, which makes an empty map where there is none.
abbrev pub nodes_of : Text → Services → ServiceMap
nodes_of name services = or_empty (lookup Text-discrete name services)

unfoldable pub register : ℕ → Text → NodeInfo → Services → Response × Services
register now name node services =
    let entry : NodeEntry = record { node = node; last_heartbeat = now } in
    (
      done,
      insert Text-discrete name
          (insert Text-discrete (node_key node) entry (nodes_of name services)) services,
    )

unfoldable pub unregister : Text → NodeInfo → Services → Response × Services
unregister name node services = elim (lookup Text-discrete name services) [
  | none ↦ (done, services)
  | some nodes ↦
      let left = erase Text-discrete (node_key node) nodes in
      (
        done,
        if is_empty left
            then erase Text-discrete name services
            else insert Text-discrete name left services,
      )
]

-- `std::string::operator<`
unfoldable pub text_less : Text → Text → Bool
text_less [] [] = false
text_less [] (y ∷ ys) = true
text_less (x ∷ xs) [] = false
text_less (x ∷ xs) (y ∷ ys) =
    let rest = text_less xs ys in if ltb x y then true else if ltb y x then false else rest

-- `std::pair`'s order on host and port.
unfoldable pub node_less : NodeInfo → NodeInfo → Bool
node_less a b = text_less a.host b.host || (not (text_less b.host a.host) && ltb a.port b.port)

unfoldable pub place : NodeInfo → List NodeInfo → List NodeInfo
place a [] = a ∷ []
place a (b ∷ bs) = let rest = place a bs in if node_less b a then b ∷ rest else a ∷ b ∷ bs

-- `std::sort`
unfoldable pub sort : List NodeInfo → List NodeInfo
unfolding place
sort [] = []
sort (a ∷ bs) = place a (sort bs)

abbrev pub entry_nodes : ServiceMap → List NodeInfo
entry_nodes = map λ kv. kv.1.node

unfoldable pub discover : ℕ → ℕ → Text → Services → Response × Services
discover timeout now name services =
    let live = purge_expired timeout now services in
    (
      record {
        error_code = ok_code;
        error_message = [];
        nodes = sort (entry_nodes (nodes_of name live));
      },
      live,
    )

abbrev pub not_registered : Response
not_registered = record {
  error_code = err_code;
  error_message = text "node not registered";
  nodes = [];
}

-- The second half of the guard, and the update.
unfoldable pub heartbeat_node : ℕ → Text → NodeInfo → ServiceMap → Services → Response × Services
heartbeat_node now name node nodes services = elim (lookup Text-discrete (node_key node) nodes) [
  | none ↦ (not_registered, services)
  | some entry ↦ (
    done,
    insert Text-discrete name
        (insert Text-discrete (node_key node) (record entry { last_heartbeat = now }) nodes)
        services,
  )
]

unfoldable pub heartbeat : ℕ → Text → NodeInfo → Services → Response × Services
heartbeat now name node services = elim (lookup Text-discrete name services) [
  | none ↦ (not_registered, services)
  | some nodes ↦ heartbeat_node now name node nodes services
]

count_alive : ℕ → ℕ → ServiceMap → ℕ
count_alive timeout now [] = 0
count_alive timeout now ((k, entry) ∷ m) =
    (if leb (now - entry.last_heartbeat) timeout then 1 else 0) + count_alive timeout now m

unfoldable pub live_node_count : ℕ → ℕ → Text → Services → ℕ
unfolding count_alive
live_node_count timeout now name services = elim (lookup Text-discrete name services) [
  | none ↦ 0
  | some nodes ↦ count_alive timeout now nodes
]

-- The requests, and a round of the eviction thread.
pub data Request : Type 0 where
  registers : Text → NodeInfo → Request
  unregisters : Text → NodeInfo → Request
  discovers : Text → Request
  heartbeats : Text → NodeInfo → Request
  evicts : Request

unfoldable pub step : ℕ → ℕ → Request → Services → Response × Services
step timeout now (registers name node) s = register now name node s
step timeout now (unregisters name node) s = unregister name node s
step timeout now (discovers name) s = discover timeout now name s
step timeout now (heartbeats name node) s = heartbeat now name node s
step timeout now evicts s = (done, purge_expired timeout now s)
