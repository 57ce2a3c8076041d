-- ===== src/Registry/Table.antt =====
-- src/registry/RegistryServiceImpl.cpp: the registry as a map from service and node key to entry, and what each request does to it.
use mini_rpc.Base.{
  ℕ, ◌≡◌, refl, inl, inr, [], ◌∷◌, true, false, Option, none, some, arith, ite, Option-cases,
}
use mini_rpc.Base.Dict.{lookup, insert, erase, Unique, lookup-insert, lookup-erase}
use mini_rpc.Base.Text.{Text, Text-discrete}
use mini_rpc.Registry.{
  NodeInfo, NodeEntry, ServiceMap, Services, not_registered, node_key, is_empty, nodes_of, register,
  unregister, heartbeat_node, heartbeat,
}

abbrev pub entry_of : Text → Option ServiceMap → Option NodeEntry
entry_of key none = none
entry_of key (some nodes) = lookup Text-discrete key nodes

-- The entry that is registered under a service and a node key.
abbrev pub view : Services → Text → Text → Option NodeEntry
view s name key = entry_of key (lookup Text-discrete name s)

-- The keys of each map are distinct, and no service is without nodes.
abbrev pub AllValid : Services → Type 0
AllValid [] = Unit {0}
AllValid ((name, nodes) ∷ s) = Unique Text-discrete nodes × (is_empty nodes ≡ false) × AllValid s

pub record IsValid (s : Services) : Type 0 where
  pub services : Unique Text-discrete s
  pub nodes : AllValid s

-- A partial map with one entry changed.
abbrev pub change :
    (Text → Text → Option NodeEntry)
    → Text
    → Text
    → Option NodeEntry
    → Text
    → Text
    → Option NodeEntry
change v name k e other key =
    ite (Text-discrete name other) (ite (Text-discrete k key) e (v other key)) (v other key)

-- Writing a service's map writes the view below that service.
pub view-insert :
    (name : Text) (nodes : ServiceMap) (s : Services) (other key : Text)
    → view (insert Text-discrete name nodes s) other key
      ≡ ite (Text-discrete name other) (lookup Text-discrete key nodes) (view s other key)
view-insert name nodes s other key = ground (arith, lookup-insert Text-discrete name other nodes s)

pub view-erase :
    (name : Text) (s : Services) (other key : Text)
    → view (erase Text-discrete name s) other key
      ≡ ite (Text-discrete name other) none (view s other key)
view-erase name s other key = ground (arith, lookup-erase Text-discrete name other s)

pub view-nodes_of :
    (name key : Text) (s : Services) → lookup Text-discrete key (nodes_of name s) ≡ view s name key
unfolding lookup
view-nodes_of name key s = ground arith

-- Register sets the entry of its node under its service to the node with the current time, and no
-- other entry changes.
pub view-register :
    (now : ℕ) (name : Text) (node : NodeInfo) (s : Services) (other key : Text)
    → view (register now name node s).1 other key
      ≡ change
          (view s)
          name
          (node_key node)
          (some (record { node = node; last_heartbeat = now }))
          other
          key
unfolding register
view-register now name node s other key =
    let entry : NodeEntry = record { node = node; last_heartbeat = now } in
    ground (
      arith,
      view-insert name (insert Text-discrete (node_key node) entry (nodes_of name s)) s other key,
      lookup-insert Text-discrete (node_key node) key entry (nodes_of name s),
      view-nodes_of name key s,
    )

pub is_empty-none :
    (nodes : ServiceMap) (key : Text)
    → is_empty nodes ≡ true
    → lookup Text-discrete key nodes ≡ none
unfolding lookup
is_empty-none [] key e = refl
is_empty-none (x ∷ nodes) key e = absurd (cc)

-- Unregister removes the entry of its node under its service, if there is one, and no other entry
-- changes.
pub view-unregister :
    (name : Text) (node : NodeInfo) (s : Services) (other key : Text)
    → view (unregister name node s).1 other key
      ≡ change (view s) name (node_key node) none other key
unfolding unregister
view-unregister name node s other key = elim (Option-cases (lookup Text-discrete name s)) [
  | inl e ↦ ground arith
  | inr (nodes, e) ↦
      let left = erase Text-discrete (node_key node) nodes in
      ground (
        arith,
        view-insert name left s other key,
        view-erase name s other key,
        lookup-erase Text-discrete (node_key node) key nodes,
        is_empty-none left key,
      )
]

-- A Heartbeat for an entry that exists sets its time to the current time, and no other entry and no
-- other part of it changes.
pub view-heartbeat :
    (now : ℕ) (name : Text) (node : NodeInfo) (s : Services) (entry : NodeEntry) (other key : Text)
    → view s name (node_key node) ≡ some entry
    → view (heartbeat now name node s).1 other key
      ≡ change
          (view s)
          name
          (node_key node)
          (some (record entry { last_heartbeat = now }))
          other
          key
unfolding heartbeat heartbeat_node
view-heartbeat now name node s entry other key h =
    elim (Option-cases (lookup Text-discrete name s)) [
      | inl e ↦ ground arith
      | inr (nodes, e) ↦
          let entry' : NodeEntry = record entry { last_heartbeat = now } in
          ground (
            arith,
            view-insert name (insert Text-discrete (node_key node) entry' nodes) s other key,
            lookup-insert Text-discrete (node_key node) key entry' nodes,
          )
    ]

-- A Heartbeat for an entry that does not exist is answered with an error, and the registry stays as it
-- is.
pub heartbeat_unknown :
    (now : ℕ) (name : Text) (node : NodeInfo) (s : Services)
    → view s name (node_key node) ≡ none
    → heartbeat now name node s ≡ (not_registered, s)
unfolding heartbeat heartbeat_node
heartbeat_unknown now name node s h = ground arith
