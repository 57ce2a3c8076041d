-- ===== src/Rpc/LoadBalancer/Nearest.antt =====
-- src/rpc/LoadBalancer.cpp: the node that a ring selects stands at the nearest hash, going up and round.
use mathlib.Core.List.{Mem, mem-cons_of_mem, mem-cons_self}
use mini_rpc.Base.{
  ℕ, zero, suc, ◌+◌, ◌≤◌, ◌<◌, ◌≡◌, ◌≢◌, refl, ap, sym, subst, List, [], ◌∷◌, ltb, ltb→lt, ltb→le,
  ◌==◌, ==_iff, Bool-cases, arith, length, All, none, some, ◌⊎◌, inl, inr,
}
use mini_rpc.Base.Text.{Text}
use mini_rpc.Rpc.LoadBalancer.ConsistentHash.{
  Ring, ring_insert, lower_bound, first_node, select, ConsistentHash, virtual_hash, add_virtual,
  add_nodes, set_nodes, select_node,
}

abbrev Above : ℕ → Ring → Type 0
Above h r = All (λ e. h < e.0) r

-- The entries of a `std::map` rise.
abbrev IsOrdered : Ring → Type 0
IsOrdered [] = Unit
IsOrdered ((h, key) ∷ r) = Above h r × IsOrdered r

Above-ring_insert :
    (low h : ℕ) (key : Text) (r : Ring) → low < h → Above low r → Above low (ring_insert h key r)
unfolding ring_insert
Above-ring_insert low h key [] lt above = (lt, tt)
Above-ring_insert low h key ((j, k) ∷ r) lt above =
    ground (arith, Above-ring_insert low h key r lt above.1, above)

Above-trans : (low h : ℕ) (r : Ring) → low < h → Above h r → Above low r
Above-trans low h [] lt above = tt
Above-trans low h (e ∷ r) lt above = (omega (arith, above.0), Above-trans low h r lt above.1)

IsOrdered-ring_insert :
    (h : ℕ) (key : Text) (r : Ring) → IsOrdered r → IsOrdered (ring_insert h key r)
unfolding ring_insert
IsOrdered-ring_insert h key [] o = (tt, tt)
IsOrdered-ring_insert h key ((j, k) ∷ r) o = elim (Bool-cases (ltb h j)) [
  | inl lt ↦ rw lt ((ltb→lt _ _ lt, Above-trans h j r (ltb→lt _ _ lt) o.0), o)
  | inr ge ↦ elim (Bool-cases (h == j)) [
    | inl same ↦ rw (ge, same) (subst (λ i. Above i r) (sym ((==_iff h j).0 same)) o.0, o.1)
    | inr other ↦
        rw (ge, other)
          (
            Above-ring_insert j h key r (ground (arith, ge, other)) o.0,
            IsOrdered-ring_insert h key r o.1,
          )
  ]
]

-- An entry that is below `q` or not before `j`.
abbrev pub Outside : ℕ → ℕ → ℕ × Text → Type 0
Outside q j e = (e.0 < q) ⊎ (j ≤ e.0)

-- The entry with this hash is the first from `q` on, or there is none from `q` on and it is the first of all.
abbrev pub IsNearest : ℕ → ℕ → Ring → Type 0
IsNearest q j r = ((q ≤ j) × All (Outside q j) r) ⊎ (All (λ e. e.0 < q) r × All (λ e. j ≤ e.0) r)

All-weaken {ℓ} :
    {A : Type ℓ} {P Q : A → Type 0} (xs : List A) → ((a : A) → P a → Q a) → All P xs → All Q xs
All-weaken [] f h = tt
All-weaken (x ∷ xs) f h = (f x h.0, All-weaken xs f h.1)

-- What the iterator of `lower_bound` points to.
lower_bound-cases :
    (q : ℕ) (r : Ring)
    → IsOrdered r
    → ((lower_bound q r ≡ none) × All (λ e. e.0 < q) r)
      ⊎ ((j : ℕ) × (k : Text) × (lower_bound q r ≡ some k)
          × Mem (j, k) r
          × (q ≤ j)
          × All (Outside q j) r)
unfolding lower_bound
lower_bound-cases q [] o = inl (refl, tt)
lower_bound-cases q ((j, k) ∷ r) o = elim (Bool-cases (ltb j q)) [
  | inl lt ↦ elim (lower_bound-cases q r o.1) [
    | inl (none_, below) ↦ inl (rw lt none_, (ltb→lt _ _ lt, below))
    | inr (i, l, found, mem, le, outside) ↦
        inr (i, l, rw lt found, mem-cons_of_mem (j, k) mem, le, (inl (ltb→lt _ _ lt), outside))
  ]
  | inr ge ↦ inr (
    j,
    k,
    rw ge refl,
    mem-cons_self,
    ltb→le _ _ ge,
    (inr (omega arith), All-weaken r (λ e above. inr (omega (arith, above))) o.0),
  )
]

select_found : (q : ℕ) (r : Ring) (k : Text) → lower_bound q r ≡ some k → select q r ≡ k
unfolding select
select_found q r k e = rw (e, select) refl

select-none :
    (q h : ℕ) (key : Text) (r : Ring)
    → lower_bound q ((h, key) ∷ r) ≡ none
    → select q ((h, key) ∷ r) ≡ key
unfolding select first_node
select-none q h key r e = rw (e, select) refl

select-IsNearest :
    (q : ℕ) (r : Ring) → IsOrdered r → r ≢ [] → (j : ℕ) × Mem (j, select q r) r × IsNearest q j r
select-IsNearest q [] o ne = absurd (ne refl)
select-IsNearest q ((h, key) ∷ r) o ne =
    let ring : Ring = (h, key) ∷ r in
    elim (lower_bound-cases q ring o) [
      | inl (none_, below) ↦
          let first : select q ring ≡ key = select-none q h key r none_ in
          (
            h,
            subst (λ k. Mem (h, k) ring) (sym first) mem-cons_self,
            inr (below, (omega arith, All-weaken r (λ e above. omega (arith, above)) o.0)),
          )
      | inr (j, k, found, mem, le, outside) ↦
          let at : select q ring ≡ k = select_found q ring k found in
          (j, subst (λ l. Mem (j, l) ring) (sym at) mem, inl (le, outside))
    ]

ring_insert-pos : (h : ℕ) (key : Text) (r : Ring) → 0 < length (ring_insert h key r)
unfolding ring_insert
ring_insert-pos h key [] = omega arith
ring_insert-pos h key ((j, k) ∷ r) = ground arith

ring_insert-ne : (h : ℕ) (key : Text) (r : Ring) → ring_insert h key r ≢ []
ring_insert-ne h key r e = omega (arith, ring_insert-pos h key r, ap length e)

module _ (hash64 : Text → ℕ) where
  -- The loops keep the order, and leave nothing empty.
  add_virtual-IsOrdered :
      (key : Text) (i n : ℕ) (r : Ring) → IsOrdered r → IsOrdered (add_virtual hash64 key i n r)
  unfolding add_virtual
  add_virtual-IsOrdered key i zero r o = o
  add_virtual-IsOrdered key i (suc n) r o =
      add_virtual-IsOrdered key (i + 1) n (ring_insert (virtual_hash hash64 key i) key r)
        (IsOrdered-ring_insert (virtual_hash hash64 key i) key r o)

  add_virtual-ne : (key : Text) (i n : ℕ) (r : Ring) → r ≢ [] → add_virtual hash64 key i n r ≢ []
  unfolding add_virtual
  add_virtual-ne key i zero r ne = ne
  add_virtual-ne key i (suc n) r ne =
      add_virtual-ne key (i + 1) n (ring_insert (virtual_hash hash64 key i) key r)
        (ring_insert-ne (virtual_hash hash64 key i) key r)

  add_nodes-IsOrdered :
      (n : ℕ) (keys : List Text) (r : Ring) → IsOrdered r → IsOrdered (add_nodes hash64 n keys r)
  unfolding add_nodes
  add_nodes-IsOrdered n [] r o = o
  add_nodes-IsOrdered n (key ∷ keys) r o =
      add_nodes-IsOrdered n keys (add_virtual hash64 key 0 n r) (add_virtual-IsOrdered key 0 n r o)

  add_nodes-ne : (n : ℕ) (keys : List Text) (r : Ring) → r ≢ [] → add_nodes hash64 n keys r ≢ []
  unfolding add_nodes
  add_nodes-ne n [] r ne = ne
  add_nodes-ne n (key ∷ keys) r ne =
      add_nodes-ne n keys (add_virtual hash64 key 0 n r) (add_virtual-ne key 0 n r ne)

  set_nodes-ne : (n : ℕ) (keys : List Text) → keys ≢ [] → 0 < n → add_nodes hash64 n keys [] ≢ []
  unfolding add_nodes add_virtual
  set_nodes-ne n [] ne pos = absurd (ne refl)
  set_nodes-ne zero (key ∷ keys) ne pos = absurd (omega arith)
  set_nodes-ne (suc n) (key ∷ keys) ne pos =
      add_nodes-ne (suc n) keys (add_virtual hash64 key 0 (suc n) []) (
        add_virtual-ne key 1 n (ring_insert (virtual_hash hash64 key 0) key [])
          (ring_insert-ne (virtual_hash hash64 key 0) key []))

  -- For every hash function, with at least one node and one virtual node for each, the selected node
  -- is that of the ring's first entry whose hash is not below the request's, or of the ring's first
  -- entry where every hash is below it.
  pub select_node-IsNearest :
      (keys : List Text) (request : Text) (c : ConsistentHash)
      → keys ≢ []
      → 0 < c.virtual_nodes
      → (j : ℕ) × Mem
          (j, select_node hash64 request (set_nodes hash64 keys c))
          (set_nodes hash64 keys c).ring
        × IsNearest (hash64 request) j (set_nodes hash64 keys c).ring
  unfolding select_node set_nodes
  select_node-IsNearest keys request c ne pos =
      select-IsNearest (hash64 request) (add_nodes hash64 c.virtual_nodes keys [])
        (add_nodes-IsOrdered c.virtual_nodes keys [] tt) (set_nodes-ne c.virtual_nodes keys ne pos)
