-- ===== src/Rpc/LoadBalancer/RoundRobin.antt =====
-- `RoundRobin`: a counter modulo the number of nodes.
use mathlib.Core.Path.{ap₂}
use native.Mathlib.Decide.{dec_lt}
use native.Mathlib.Nat.{mod-add-mod, mod-eq_of_lt, mod-eq-sub-mod, mod-lt}
use mini_rpc.Base.{
  ℕ, zero, suc, ◌+◌, ◌-◌, ◌%◌, ◌≤◌, ◌<◌, ◌≡◌, ap, sym, ◌∙◌, leb, leb→le, leb→lt, Bool-cases, ◌⊎◌,
  inl, inr, List, [], ◌∷◌, ◌==◌, if◌then◌else◌, arith, add_size, size_mod, get_or,
}

pub record RoundRobin : Type 0 where
  pub index : ℕ
  pub node_count : ℕ

unfoldable pub start : RoundRobin
start = record { index = 0; node_count = 0 }

unfoldable pub set_node_count : ℕ → RoundRobin → RoundRobin
set_node_count n r = record r { node_count = n }

unfoldable pub next : RoundRobin → ℕ × RoundRobin
next r =
    if r.node_count == 0
    then (0, r)
    else (r.index % r.node_count, record r { index = add_size r.index 1 })

-- The nodes that `k` calls select, in order.
unfoldable pub picks : ℕ → RoundRobin → List ℕ
unfolding next
picks zero r = []
picks (suc k) r = let (node, r') = next r in node ∷ picks k r'

-- A selected node exists.
pub next-lt : (r : RoundRobin) → 0 < r.node_count → (next r).0 < r.node_count
unfolding next
next-lt r h = ground arith

pub next_lem :
    (r : RoundRobin)
    → 0 < r.node_count
    → next r ≡ (r.index % r.node_count, record r { index = add_size r.index 1 })
unfolding next
next_lem r h = ground arith

-- Call `j` of a run selects the counter's value plus `j`, modulo the number of nodes.
pub get_or-picks :
    (k j : ℕ) (r : RoundRobin)
    → 0 < r.node_count
    → r.index + k < size_mod
    → j < k
    → get_or (picks k r) j 0 ≡ (r.index + j) % r.node_count
unfolding picks
get_or-picks zero j r h small lt = absurd (omega arith)
get_or-picks (suc k) zero r h small lt =
    ap (λ p. p.0) (next_lem r h) ∙ ap (λ i. i % r.node_count) (omega arith)
get_or-picks (suc k) (suc j) r h small lt =
    let e = next_lem r h in
    let i = ap (λ p. p.1.index) e in
    let n : (next r).1.node_count ≡ r.node_count = ap (λ p. p.1.node_count) e in
    let sum : (next r).1.index + j ≡ r.index + suc j = omega arith in
    get_or-picks k j (next r).1 (omega arith) (omega arith) (omega arith) ∙ ap₂ ◌%◌ sum n

-- The remainder of a start plus an offset below `n`.
add-mod_cases :
    (i x n : ℕ)
    → x < n
    → ((i % n + x < n) × ((i + x) % n ≡ i % n + x))
      ⊎ ((n ≤ i % n + x) × ((i + x) % n + n ≡ i % n + x))
add-mod_cases i x n h = elim (dec_lt (i % n + x) n) [
  | yes p ↦ inl (p, sym (mod-add-mod i n x) ∙ mod-eq_of_lt p)
  | no p ↦ inr (
    (omega arith),
    omega (
      arith,
      mod-add-mod i n x,
      mod-eq-sub-mod {n = i % n + x} {m = n} (omega arith),
      mod-eq_of_lt {n = i % n + x - n} {m = n} (omega (arith, mod-lt i {m = n} (omega arith))),
    ),
  )
]

-- Two offsets below `n` from one start meet the same node only if they are equal.
offset_injective : (i j k n : ℕ) → j < n → k < n → (i + j) % n ≡ (i + k) % n → j ≡ k
offset_injective i j k n hj hk e = omega (arith, add-mod_cases i j n hj, add-mod_cases i k n hk)

-- The offset at which a node comes.
offset_of : ℕ → ℕ → ℕ → ℕ
offset_of i node n = if leb (i % n) node then node - i % n else node + n - i % n

offset_of_lem :
    (i node n : ℕ) → node < n → (offset_of i node n < n) × ((i + offset_of i node n) % n ≡ node)
unfolding offset_of
offset_of_lem i node n h =
    let r : i % n < n = mod-lt i {m = n} (omega arith) in
    elim (Bool-cases (leb (i % n) node)) [
      | inl e ↦
          let le = leb→le _ _ e in
          rw e ((omega arith), omega (arith, add-mod_cases i (node - i % n) n (omega arith)))
      | inr e ↦
          let lt = leb→lt _ _ e in
          rw e ((omega arith), omega (arith, add-mod_cases i (node + n - i % n) n (omega arith)))
    ]

-- As many calls in a row as there are nodes, the counter not wrapping in them, select each node at
-- exactly one call.
pub picks_fair :
    (r : RoundRobin) (node : ℕ)
    → r.index + r.node_count < size_mod
    → node < r.node_count
    → (j : ℕ) × (j < r.node_count)
      × (get_or (picks r.node_count r) j 0 ≡ node)
      × ((k : ℕ) → k < r.node_count → get_or (picks r.node_count r) k 0 ≡ node → k ≡ j)
picks_fair r node small h =
    let n = r.node_count in
    let j = offset_of r.index node n in
    let (lt, e) = offset_of_lem r.index node n h in
    let here = λ (k : ℕ) (hk : k < n). get_or-picks n k r (omega arith) small hk in
    (
      j,
      lt,
      here j lt ∙ e,
      λ k hk ek. offset_injective r.index k j n hk lt (sym (here k hk) ∙ ek ∙ sym e),
    )
