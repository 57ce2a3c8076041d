-- ===== src/Registry/Invariant.antt =====
-- Every request keeps the registry's maps well formed.
use mini_rpc.Base.{
  ℕ, ◌≡◌, refl, inl, inr, [], ◌∷◌, Bool, false, Option, none, some, arith, if_pos, if_neg,
  Bool-cases, Option-cases, subst,
}
use mini_rpc.Base.Dict.{
  lookup, insert, erase, keep, Unique, Unique-insert, Unique-erase, Unique-keep,
}
use mini_rpc.Base.Text.{Text, Text-discrete}
use mini_rpc.Registry.{
  NodeInfo, NodeEntry, ServiceMap, Services, node_key, is_alive, is_empty, purge_expired, nodes_of,
  or_empty, register, unregister, discover, heartbeat_node, heartbeat, Request, registers,
  unregisters, discovers, heartbeats, evicts, step,
}
use mini_rpc.Registry.View.{lookup-purge_none}
use mini_rpc.Registry.Table.{IsValid, AllValid}

is_empty-insert :
    (k : Text) (e : NodeEntry) (m : ServiceMap) → is_empty (insert Text-discrete k e m) ≡ false
unfolding insert
is_empty-insert k e [] = refl
is_empty-insert k e ((j, w) ∷ m) = ground arith

AllValid-insert :
    (name : Text) (nodes : ServiceMap) (s : Services)
    → Unique Text-discrete nodes
    → is_empty nodes ≡ false
    → AllValid s
    → AllValid (insert Text-discrete name nodes s)
unfolding insert
AllValid-insert name nodes [] u ne v = (u, ne, tt)
AllValid-insert name nodes ((svc, old) ∷ s) u ne v = elim (Text-discrete svc name) [
  | yes e ↦ rw (if_pos _ e) (u, ne, v.2)
  | no h ↦ rw (if_neg _ h) (v.0, v.1, AllValid-insert name nodes s u ne v.2)
]

AllValid-erase : (name : Text) (s : Services) → AllValid s → AllValid (erase Text-discrete name s)
unfolding erase
AllValid-erase name [] v = tt
AllValid-erase name ((svc, old) ∷ s) v = elim (Text-discrete svc name) [
  | yes e ↦ rw (if_pos _ e) (AllValid-erase name s v.2)
  | no h ↦ rw (if_neg _ h) (v.0, v.1, AllValid-erase name s v.2)
]

pub Unique-lookup :
    (name : Text) (s : Services) (nodes : ServiceMap)
    → AllValid s
    → lookup Text-discrete name s ≡ some nodes
    → Unique Text-discrete nodes
unfolding lookup
Unique-lookup name [] nodes v e = absurd (cc)
Unique-lookup name ((svc, old) ∷ s) nodes v e = elim (Text-discrete svc name) [
  | yes p ↦ subst (Unique Text-discrete) (ground arith) v.0
  | no p ↦ Unique-lookup name s nodes v.2 (ground arith)
]

-- Writing a non-empty map under a service.
insert-IsValid :
    (name : Text) (nodes : ServiceMap) (s : Services)
    → IsValid s
    → Unique Text-discrete nodes
    → is_empty nodes ≡ false
    → IsValid (insert Text-discrete name nodes s)
insert-IsValid name nodes s v u ne = record {
  services = Unique-insert Text-discrete name nodes s v.services;
  nodes = AllValid-insert name nodes s u ne v.nodes;
}

pub Unique-nodes_of :
    (name : Text) (s : Services) → IsValid s → Unique Text-discrete (nodes_of name s)
Unique-nodes_of name s v = go (lookup Text-discrete name s) refl
  where
    go :
        (o : Option ServiceMap)
        → lookup Text-discrete name s ≡ o
        → Unique Text-discrete (or_empty o)
    go none e = tt
    go (some m) e = Unique-lookup name s m v.nodes e

register-IsValid :
    (now : ℕ) (name : Text) (node : NodeInfo) (s : Services)
    → IsValid s
    → IsValid (register now name node s).1
unfolding register
register-IsValid now name node s v =
    let entry : NodeEntry = record { node = node; last_heartbeat = now } in
    insert-IsValid name _ s v
      (Unique-insert Text-discrete (node_key node) entry (nodes_of name s)
        (Unique-nodes_of name s v))
      (is_empty-insert (node_key node) entry (nodes_of name s))

unregister-IsValid :
    (name : Text) (node : NodeInfo) (s : Services) → IsValid s → IsValid (unregister name node s).1
unfolding unregister
unregister-IsValid name node s v = elim (Option-cases (lookup Text-discrete name s)) [
  | inl e ↦ rw (e, unregister) v
  | inr (nodes, e) ↦
      let left = erase Text-discrete (node_key node) nodes in
      rw (e, unregister)
        (elim (Bool-cases (is_empty left)) [
          | inl f ↦ rw f (record {
            services = Unique-erase Text-discrete name s v.services;
            nodes = AllValid-erase name s v.nodes;
          })
          | inr f ↦ rw f (
              insert-IsValid name left s v
                (Unique-erase Text-discrete (node_key node) nodes
                  (Unique-lookup name s nodes v.nodes e))
                f)
        ])
]

heartbeat_node-IsValid :
    (now : ℕ) (name : Text) (node : NodeInfo) (nodes : ServiceMap) (s : Services)
    → IsValid s
    → Unique Text-discrete nodes
    → IsValid (heartbeat_node now name node nodes s).1
unfolding heartbeat_node
heartbeat_node-IsValid now name node nodes s v u =
    elim (Option-cases (lookup Text-discrete (node_key node) nodes)) [
      | inl e ↦ rw (e, heartbeat_node) v
      | inr (entry, e) ↦
          let entry' : NodeEntry = record entry { last_heartbeat = now } in
          rw (e, heartbeat_node)
            (insert-IsValid name _ s v (Unique-insert Text-discrete (node_key node) entry' nodes u)
              (is_empty-insert (node_key node) entry' nodes))
    ]

heartbeat-IsValid :
    (now : ℕ) (name : Text) (node : NodeInfo) (s : Services)
    → IsValid s
    → IsValid (heartbeat now name node s).1
unfolding heartbeat
heartbeat-IsValid now name node s v = elim (Option-cases (lookup Text-discrete name s)) [
  | inl e ↦ rw (e, heartbeat) v
  | inr (nodes, e) ↦
      rw (e, heartbeat)
        (heartbeat_node-IsValid now name node nodes s v (Unique-lookup name s nodes v.nodes e))
]

pub purge-IsValid :
    (timeout now : ℕ) (s : Services) → IsValid s → IsValid (purge_expired timeout now s)
unfolding purge_expired
purge-IsValid timeout now [] v = v
purge-IsValid timeout now ((svc, nodes) ∷ s) v =
    let p : NodeEntry → Bool = is_alive timeout now in
    let (un, ne, vs) = v.nodes in
    let ih = purge-IsValid timeout now s (record { services = v.services.1; nodes = vs }) in
    elim (Bool-cases (is_empty (keep p nodes))) [
      | inl f ↦ rw f ih
      | inr f ↦ rw f (record {
        services = (lookup-purge_none timeout now svc s v.services.0, ih.services);
        nodes = (Unique-keep Text-discrete p nodes un, f, ih.nodes);
      })
    ]

-- Every request and every eviction round keeps a registry valid: service names and node keys distinct,
-- and no service without nodes.
pub step-IsValid :
    (timeout now : ℕ) (r : Request) (s : Services) → IsValid s → IsValid (step timeout now r s).1
unfolding step discover
step-IsValid timeout now (registers name node) s v = register-IsValid now name node s v
step-IsValid timeout now (unregisters name node) s v = unregister-IsValid name node s v
step-IsValid timeout now (discovers name) s v = purge-IsValid timeout now s v
step-IsValid timeout now (heartbeats name node) s v = heartbeat-IsValid now name node s v
step-IsValid timeout now evicts s v = purge-IsValid timeout now s v
