-- ===== src/Rpc/LoadBalancer/ConsistentHash.antt =====
-- `ConsistentHash`: virtual nodes on an ordered ring.
use mathlib.Core.List.{Mem, mem-cons_of_mem, mem-cons_self}
use mini_rpc.Base.{
  subst, ℕ, zero, suc, ◌+◌, ◌<◌, ◌≡◌, ◌≢◌, refl, ◌∙◌, sym, List, [], ◌∷◌, ◌++◌, ltb, ◌==◌,
  if◌then◌else◌, arith, Option, none, some, ◌⊎◌, inl, inr,
}
use mini_rpc.Base.Text.{Text, text}
use mini_rpc.Base.Decimal.{to_string}

-- `std::map<uint64_t, std::string>`: the entries by rising key.
abbrev pub Ring : Type 0
Ring = List (ℕ × Text)

-- `ring[h] = key`
unfoldable pub ring_insert : ℕ → Text → Ring → Ring
ring_insert h key [] = (h, key) ∷ []
ring_insert h key ((j, k) ∷ r) =
    let rest = ring_insert h key r in
    if ltb h j then (h, key) ∷ (j, k) ∷ r else if h == j then (h, key) ∷ r else (j, k) ∷ rest

-- `lower_bound(h)`, with the node that the iterator points to.
unfoldable pub lower_bound : ℕ → Ring → Option Text
lower_bound h [] = none
lower_bound h ((j, k) ∷ r) = if ltb j h then lower_bound h r else some k

-- `begin()->second`
unfoldable pub first_node : Ring → Text
first_node [] = []
first_node ((j, k) ∷ r) = k

-- The node of a ring for a hash; the empty text where the ring is empty.
unfoldable pub select : ℕ → Ring → Text
select h ring = elim (lower_bound h ring) [ none ↦ first_node ring | some k ↦ k ]

pub record ConsistentHash : Type 0 where
  pub ring : Ring
  pub virtual_nodes : ℕ
  pub node_keys : List Text

unfoldable pub create : ℕ → ConsistentHash
create virtual_nodes = record { ring = []; virtual_nodes = virtual_nodes; node_keys = [] }

module _ (hash64 : Text → ℕ) where
  -- `key + "#" + std::to_string(i)`
  unfoldable pub virtual_hash : Text → ℕ → ℕ
  virtual_hash key i = hash64 (key ++ (text "#" ++ to_string i))

  -- The inner loop, from `i` on with `n` rounds left.
  unfoldable pub add_virtual : Text → ℕ → ℕ → Ring → Ring
  add_virtual key i zero ring = ring
  add_virtual key i (suc n) ring =
      add_virtual key (i + 1) n (ring_insert (virtual_hash key i) key ring)

  unfoldable pub add_nodes : ℕ → List Text → Ring → Ring
  add_nodes n [] ring = ring
  add_nodes n (key ∷ keys) ring = add_nodes n keys (add_virtual key 0 n ring)

  unfoldable pub set_nodes : List Text → ConsistentHash → ConsistentHash
  set_nodes keys c = record c { ring = add_nodes c.virtual_nodes keys []; node_keys = keys }

  unfoldable pub select_node : Text → ConsistentHash → Text
  select_node key c = select (hash64 key) c.ring

lower_bound-ring_insert :
    (h q : ℕ) (key : Text) (r : Ring)
    → (lower_bound q (ring_insert h key r) ≡ lower_bound q r)
      ⊎ (lower_bound q (ring_insert h key r) ≡ some key)
unfolding lower_bound ring_insert
lower_bound-ring_insert h q key [] = ground arith
lower_bound-ring_insert h q key ((j, k) ∷ r) = ground (arith, lower_bound-ring_insert h q key r)

first_node-ring_insert :
    (h : ℕ) (key : Text) (r : Ring)
    → (first_node (ring_insert h key r) ≡ first_node r) ⊎ (first_node (ring_insert h key r) ≡ key)
unfolding first_node ring_insert
first_node-ring_insert h key [] = inr refl
first_node-ring_insert h key ((j, k) ∷ r) = ground arith

-- A new entry takes a hash over, or leaves it where it was.
abbrev pub Moves : Text → Text → Text → Type 0
Moves key old new = (new ≡ old) ⊎ (new ≡ key)

Moves-trans : (key a b c : Text) → Moves key a b → Moves key b c → Moves key a c
Moves-trans key a b c (inl p) (inl q) = inl (q ∙ p)
Moves-trans key a b c (inr p) (inl q) = inr (q ∙ p)
Moves-trans key a b c p (inr q) = inr q

select-ring_insert :
    (h q : ℕ) (key : Text) (r : Ring) → Moves key (select q r) (select q (ring_insert h key r))
unfolding select
select-ring_insert h q key r =
    ground (arith, lower_bound-ring_insert h q key r, first_node-ring_insert h key r)

select_single : (h q : ℕ) (key : Text) → select q (ring_insert h key []) ≡ key
unfolding select ring_insert lower_bound first_node
select_single h q key = ground arith

module _ (hash64 : Text → ℕ) where
  select-add_virtual :
      (key : Text) (i n q : ℕ) (r : Ring)
      → Moves key (select q r) (select q (add_virtual hash64 key i n r))
  unfolding add_virtual
  select-add_virtual key i zero q r = inl refl
  select-add_virtual key i (suc n) q r =
      let h = virtual_hash hash64 key i in
      Moves-trans key (select q r) (select q (ring_insert h key r)) _ (select-ring_insert h q key r)
        (select-add_virtual key (i + 1) n q (ring_insert h key r))

  add_nodes-append :
      (n : ℕ) (ks : List Text) (key : Text) (r : Ring)
      → add_nodes hash64 n (ks ++ (key ∷ [])) r
        ≡ add_virtual hash64 key 0 n (add_nodes hash64 n ks r)
  unfolding add_nodes
  add_nodes-append n [] key r = refl
  add_nodes-append n (k ∷ ks) key r = add_nodes-append n ks key (add_virtual hash64 k 0 n r)

  -- For every hash function, with a node added at the end of the list each request keeps its node or
  -- goes to the new one.
  pub select_node-append :
      (keys : List Text) (key request : Text) (c : ConsistentHash)
      → Moves key
          (select_node hash64 request (set_nodes hash64 keys c))
          (select_node hash64 request (set_nodes hash64 (keys ++ (key ∷ [])) c))
  unfolding select_node set_nodes
  select_node-append keys key request c =
      let n = c.virtual_nodes in
      let q = hash64 request in
      let r = add_nodes hash64 n keys [] in
      subst (λ ring. Moves key (select q r) (select q ring)) (sym (add_nodes-append n keys key []))
        (select-add_virtual key 0 n q r)

  -- A selected text is the one that was selected before, or one of the keys.
  select-add_nodes :
      (n q : ℕ) (ks : List Text) (r : Ring)
      → (select q (add_nodes hash64 n ks r) ≡ select q r)
        ⊎ Mem (select q (add_nodes hash64 n ks r)) ks
  unfolding add_nodes
  select-add_nodes n q [] r = inl refl
  select-add_nodes n q (k ∷ ks) r = elim (select-add_nodes n q ks (add_virtual hash64 k 0 n r)) [
    | inl e ↦ elim (select-add_virtual k 0 n q r) [
      | inl e' ↦ inl (e ∙ e')
      | inr e' ↦ inr (subst (λ x. Mem x (k ∷ ks)) (sym (e ∙ e')) mem-cons_self)
    ]
    | inr m ↦ inr (mem-cons_of_mem k m)
  ]

  select_first : (k : Text) (n q : ℕ) → 0 < n → select q (add_virtual hash64 k 0 n []) ≡ k
  unfolding add_virtual
  select_first k zero q h = absurd (omega arith)
  select_first k (suc n) q h =
      let h = virtual_hash hash64 k 0 in
      elim (select-add_virtual k 1 n q (ring_insert h k [])) [
        | inl e ↦ e ∙ select_single h q k
        | inr e ↦ e
      ]

  -- With at least one node and at least one virtual node for each, the selected node is one of those
  -- that were set.
  pub select_node-mem :
      (keys : List Text) (request : Text) (c : ConsistentHash)
      → keys ≢ []
      → 0 < c.virtual_nodes
      → Mem (select_node hash64 request (set_nodes hash64 keys c)) keys
  unfolding select_node set_nodes add_nodes
  select_node-mem [] request c ne pos = absurd (ne refl)
  select_node-mem (k ∷ ks) request c ne pos =
      let n = c.virtual_nodes in
      let q = hash64 request in
      elim (select-add_nodes n q ks (add_virtual hash64 k 0 n [])) [
        | inl e ↦ subst (λ x. Mem x (k ∷ ks)) (sym (e ∙ select_first k n q pos)) mem-cons_self
        | inr m ↦ mem-cons_of_mem k m
      ]
