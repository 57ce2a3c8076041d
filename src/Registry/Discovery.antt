-- ===== src/Registry/Discovery.antt =====
-- What `Discover` and `liveNodeCount` answer, in which order.
use mathlib.Core.List.{Mem, Perm, mem-cons, mem-cons_self, mem-cons_of_mem, not-mem-nil, Mem-prop}
use mathlib.Core.Logic.{∥∥₁_map, ∥∥₁_elim}
use mathlib.Core.Logic.Or
use mathlib.Core.List.Perm
use mini_rpc.Base.{
  ℕ, suc, length, ◌≡◌, ◌↔◌, refl, sym, ◌∙◌, ap, subst, inl, inr, List, [], ◌∷◌, Bool, true, false,
  Option, none, some, arith, if_neg, Bool-cases,
}
use mini_rpc.Base.Dict.{lookup, keep, only, Unique}
use mini_rpc.Base.Text.{Text, Text-discrete}
use mini_rpc.Registry.{
  NodeInfo, NodeEntry, ServiceMap, Services, is_alive, is_empty, purge_expired, nodes_of, discover,
  count_alive, live_node_count, place, sort, node_less, text_less, entry_nodes,
}
use mini_rpc.Registry.View.{view-purge_expired, lookup-purge_none}
use mini_rpc.Registry.Table.{IsValid, view, view-nodes_of}
use mini_rpc.Registry.Invariant.{purge-IsValid, Unique-nodes_of}

place-perm : (a : NodeInfo) (bs : List NodeInfo) → Perm (place a bs) (a ∷ bs)
unfolding place
place-perm a [] = Perm.refl _
place-perm a (b ∷ bs) = elim (Bool-cases (node_less b a)) [
  | inl e ↦ rw e (Perm.trans (Perm.cons b (place-perm a bs)) (Perm.swap a b bs))
  | inr e ↦ rw e (Perm.refl _)
]

sort-perm : (ns : List NodeInfo) → Perm (sort ns) ns
unfolding sort
sort-perm [] = Perm.refl _
sort-perm (a ∷ ns) = Perm.trans (place-perm a (sort ns)) (Perm.cons a (sort-perm ns))

-- The nodes of a map, by their keys.
abbrev Listed : NodeInfo → ServiceMap → Type 0
Listed n m = (key : Text) × (e : NodeEntry) × (lookup Text-discrete key m ≡ some e) × (e.node ≡ n)

Listed-cons :
    (n : NodeInfo) (k : Text) (w : NodeEntry) (m : ServiceMap)
    → lookup Text-discrete k m ≡ none
    → Listed n m
    → Listed n ((k, w) ∷ m)
unfolding lookup
Listed-cons n k w m u (key, e, q, en) = elim (Text-discrete k key) [
  | yes p ↦ absurd (cc (subst (λ i. lookup Text-discrete i m ≡ none) p u))
  | no p ↦ (key, e, rw (if_neg (Text-discrete k key) p) q, en)
]

Listed-mem : (n : NodeInfo) (m : ServiceMap) → Listed n m → Mem n (entry_nodes m)
unfolding lookup
Listed-mem n [] (key, e, q, en) = absurd (cc)
Listed-mem n ((k, w) ∷ m) (key, e, q, en) = elim (Text-discrete k key) [
  | yes p ↦
      let same : w ≡ e = ground arith in
      subst (λ x. Mem x (w.node ∷ entry_nodes m)) (ap (λ (x : NodeEntry). x.node) same ∙ en)
        mem-cons_self
  | no p ↦
      mem-cons_of_mem w.node (Listed-mem n m (key, e, rw (if_neg (Text-discrete k key) p) at q, en))
]

lookup_head :
    (k : Text) (w : NodeEntry) (m : ServiceMap) → lookup Text-discrete k ((k, w) ∷ m) ≡ some w
unfolding lookup
lookup_head k w m = ground arith

mem-Listed :
    (n : NodeInfo) (m : ServiceMap)
    → Unique Text-discrete m
    → Mem n (entry_nodes m)
    → ∥ Listed n m ∥₁
mem-Listed n [] u h = absurd (not-mem-nil h)
mem-Listed n ((k, w) ∷ m) u h =
    Or.elim squash₁ (mem-cons.0 h) (λ e. ∣ (k, w, lookup_head k w m, sym e) ∣₁)
      (λ r. ∥∥₁_map (mem-Listed n m u.1 r) (Listed-cons n k w m u.0))

only-eq_some :
    (p : NodeEntry → Bool) (o : Option NodeEntry) (e : NodeEntry)
    → only p o ≡ some e ↔ (o ≡ some e) × (p e ≡ true)
only-eq_some p none e = (λ h. absurd (cc), λ h. absurd (cc (h.0)))
only-eq_some p (some v) e = (λ h. ground arith, λ h. ground arith)

-- An entry of a service after the purge is an entry of before that is alive.
lookup-nodes_of_purge :
    (timeout now : ℕ) (name key : Text) (s : Services)
    → IsValid s
    → lookup Text-discrete key (nodes_of name (purge_expired timeout now s))
      ≡ only (is_alive timeout now) (view s name key)
lookup-nodes_of_purge timeout now name key s v =
    view-nodes_of name key (purge_expired timeout now s)
    ∙ view-purge_expired timeout now s name key v

-- On a valid registry a node is in the answer of Discover if and only if an entry of the service has
-- it whose last heartbeat is within the timeout.
pub mem-discover :
    (timeout now : ℕ) (name : Text) (s : Services) (n : NodeInfo)
    → IsValid s
    → Mem n (discover timeout now name s).0.nodes
      ↔ ∥ (
          (key : Text) × (e : NodeEntry) × (view s name key ≡ some e)
          × (is_alive timeout now e ≡ true)
          × (e.node ≡ n)) ∥₁
unfolding discover
mem-discover timeout now name s n v =
    let live = purge_expired timeout now s in
    let same = Perm.mem_iff {a = n} (sort-perm (entry_nodes (nodes_of name live))) in
    let found = λ (key : Text). lookup-nodes_of_purge timeout now name key s v in
    let unique = Unique-nodes_of name live (purge-IsValid timeout now s v) in
    (
      λ h. ∥∥₁_map (mem-Listed n (nodes_of name live) unique (same.0 h)) λ (key, e, q, en).
          let both =
            (only-eq_some (is_alive timeout now) (view s name key) e).0 (sym (found key) ∙ q) in
          (key, e, both.0, both.1, en),
      λ h. ∥∥₁_elim h Mem-prop λ (key, e, q, a, en). same.1 (
          Listed-mem n (nodes_of name live) (
            key,
            e,
            found key ∙ (only-eq_some (is_alive timeout now) (view s name key) e).1 (q, a),
            en,
          )),
    )

text_less_asym : (a b : Text) → text_less a b ≡ true → text_less b a ≡ false
unfolding text_less
text_less_asym [] [] h = cc
text_less_asym [] (y ∷ ys) h = refl
text_less_asym (x ∷ xs) [] h = cc
text_less_asym (x ∷ xs) (y ∷ ys) h = ground (arith, text_less_asym xs ys)

node_less_asym : (a b : NodeInfo) → node_less a b ≡ true → node_less b a ≡ false
unfolding node_less
node_less_asym a b h = ground (arith, text_less_asym a.host b.host, text_less_asym b.host a.host)

-- No node stands before a smaller one.
abbrev pub IsSorted : List NodeInfo → Type 0
IsSorted [] = Unit {0}
IsSorted (a ∷ []) = Unit {0}
IsSorted (a ∷ b ∷ bs) = (node_less b a ≡ false) × IsSorted (b ∷ bs)

place-IsSorted : (a : NodeInfo) (bs : List NodeInfo) → IsSorted bs → IsSorted (place a bs)
unfolding place
place-IsSorted a [] h = tt
place-IsSorted a (b ∷ []) h = ground (arith, node_less_asym b a)
place-IsSorted a (b ∷ c ∷ bs) h = ground (arith, node_less_asym b a, place-IsSorted a (c ∷ bs) h.1)

-- The nodes of an answer are sorted: no node is less, by host and then port, than the one before it.
pub sort-IsSorted : (ns : List NodeInfo) → IsSorted (sort ns)
unfolding sort
sort-IsSorted [] = tt
sort-IsSorted (a ∷ ns) = place-IsSorted a (sort ns) (sort-IsSorted ns)

length-place : (a : NodeInfo) (bs : List NodeInfo) → length (place a bs) ≡ suc (length bs)
unfolding place
length-place a [] = refl
length-place a (b ∷ bs) = ground (arith, length-place a bs)

length-sort : (ns : List NodeInfo) → length (sort ns) ≡ length ns
unfolding sort
length-sort [] = refl
length-sort (a ∷ ns) = omega (arith, length-place a (sort ns), length-sort ns)

count_alive-keep :
    (timeout now : ℕ) (m : ServiceMap)
    → count_alive timeout now m ≡ length (entry_nodes (keep (is_alive timeout now) m))
unfolding count_alive keep
count_alive-keep timeout now [] = refl
count_alive-keep timeout now ((k, e) ∷ m) = ground (arith, count_alive-keep timeout now m)

is_empty_nil : (m : ServiceMap) → is_empty m ≡ true → m ≡ []
is_empty_nil [] e = refl
is_empty_nil (x ∷ m) e = absurd (cc)

count_nodes_of :
    (timeout now : ℕ) (name : Text) (s : Services)
    → live_node_count timeout now name s ≡ count_alive timeout now (nodes_of name s)
unfolding live_node_count
count_nodes_of timeout now name s = ground arith

-- the map of a service after the purge
nodes_of-purge :
    (timeout now : ℕ) (name : Text) (s : Services)
    → Unique Text-discrete s
    → nodes_of name (purge_expired timeout now s) ≡ keep (is_alive timeout now) (nodes_of name s)
unfolding purge_expired lookup
nodes_of-purge timeout now name [] u = unfold keep in refl
nodes_of-purge timeout now name ((svc, nodes) ∷ s) u =
    let p : NodeEntry → Bool = is_alive timeout now in
    let ih = nodes_of-purge timeout now name s u.1 in
    elim (Bool-cases (is_empty (keep p nodes))) [
      | inl f ↦ rw f (
          ground
            (arith, lookup-purge_none timeout now svc s u.0, is_empty_nil (keep p nodes) f, ih))
      | inr f ↦ rw f (ground (arith, ih))
    ]

-- On a valid registry liveNodeCount is the number of nodes in the answer of Discover at the same time.
pub live_node_count-discover :
    (timeout now : ℕ) (name : Text) (s : Services)
    → IsValid s
    → live_node_count timeout now name s ≡ length (discover timeout now name s).0.nodes
unfolding discover
live_node_count-discover timeout now name s v =
    let live = nodes_of name (purge_expired timeout now s) in
    count_nodes_of timeout now name s
    ∙ count_alive-keep timeout now (nodes_of name s)
    ∙ ap (λ m. length (entry_nodes m)) (sym (nodes_of-purge timeout now name s v.services))
    ∙ sym (length-sort (entry_nodes live))
