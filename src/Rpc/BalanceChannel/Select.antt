-- ===== src/Rpc/BalanceChannel/Select.antt =====
-- Which node a call and its retry go to, and the address that a node's key is dialled at.
use native.Mathlib.Nat.{mod-lt, mod-eq_of_lt}
use mathlib.Core.List.{Mem, mem-cons_of_mem, mem-cons_self}
use mini_rpc.Base.{
  ℕ, zero, suc, ◌+◌, ◌^◌, ◌%◌, ◌<◌, ◌≡◌, ◌≢◌, refl, ap, sym, subst, ◌∙◌, inl, inr, ◌⊎◌, List, [],
  ◌∷◌, true, if_pos, if_neg, if-cases, arith, none, some, length, get_or, map, length-map, All,
  size_mod, Option-cases,
}
use mini_rpc.Base.Text.{Text, Text-discrete}
use mini_rpc.Base.Dict.{lookup, insert, lookup-insert_self}
use mini_rpc.Base.Decimal.{
  split_last, atoi-to_string, split_last-append, to_string-IsDigit, to_string, IsDigit,
}
use mini_rpc.Registry.{NodeInfo, node_key}
use mini_rpc.Rpc.LoadBalancer.RoundRobin.{RoundRobin, next, set_node_count, picks, picks_fair}
use mini_rpc.Rpc.LoadBalancer.ConsistentHash.{
  ConsistentHash, select_node, set_nodes, select_node-mem,
}
use mini_rpc.Rpc.BalanceChannel.{
  BalanceChannel, BalanceType, round_robin, consistent_hash, NodeChannel, is_nil, key_at, next_key,
  address_of, open_channel, channel_for, other_key, select_node_key_for_retry, refresh_nodes,
  hashed_key, by_kind, select_node_key, new_channel, colon,
}

-- A port that fits is dialled as it was registered, whatever the host's text.
address_of-node_key :
    (node : NodeInfo)
    → node.port < 2 ^ 16
    → address_of (split_last colon (node_key node)) (node_key node) ≡ (node.host, node.port)
unfolding node_key
address_of-node_key node h =
    rw
      (split_last-append colon node.host (to_string node.port)
        (no_colon (to_string node.port) (to_string-IsDigit node.port)))
      (ap (λ p. (node.host, p)) (omega (arith, atoi-to_string node.port (omega arith))))
  where
    no_colon : (s : Text) → All IsDigit s → All (λ c. c ≢ colon) s
    no_colon [] d = tt
    no_colon (c ∷ cs) d = (λ e. omega (arith, d.0), no_colon cs d.1)

-- A channel that is opened for the key of a node whose port is below 2^16 dials that node's host and
-- port, whatever characters the host has.
pub open_channel-node_key :
    (node : NodeInfo) (b : BalanceChannel)
    → node.port < 2 ^ 16
    → open_channel (node_key node) b ≡ record {
      host = node.host;
      port = node.port;
      channel = new_channel b.call_timeout b.call_retries;
    }
unfolding open_channel
open_channel-node_key node b h =
    ap
      (λ (p : Text × ℕ). record {
        host = p.0;
        port = p.1;
        channel = new_channel b.call_timeout b.call_retries;
      })
      (address_of-node_key node h)

channel_for_known :
    (key : Text) (b : BalanceChannel) (ch : NodeChannel)
    → lookup Text-discrete key b.channels ≡ some ch
    → channel_for key b ≡ (ch, b)
unfolding channel_for
channel_for_known key b ch e = rw (channel_for, e) refl

channel_for_new :
    (key : Text) (b : BalanceChannel)
    → lookup Text-discrete key b.channels ≡ none
    → channel_for key b ≡ (
      open_channel key b,
      record b { channels = insert Text-discrete key (open_channel key b) b.channels },
    )
unfolding channel_for
channel_for_new key b e = rw (channel_for, e) refl

-- A second channelFor with the same key finds the channel that the first one gave.
pub channel_for_again :
    (key : Text) (b : BalanceChannel)
    → (channel_for key (channel_for key b).1).0 ≡ (channel_for key b).0
channel_for_again key b = elim (Option-cases (lookup Text-discrete key b.channels)) [
  | inl e ↦
      let found = lookup-insert_self Text-discrete key (open_channel key b) b.channels in
      rw (channel_for_new key b e)
        (ap (λ p. p.0) (channel_for_known key _ (open_channel key b) found))
  | inr (ch, e) ↦ rw (channel_for_known key b ch e) (ap (λ p. p.0) (channel_for_known key b ch e))
]

-- The round robin and the ring are those of the list of nodes.
pub record IsCurrent (hash64 : Text → ℕ) (b : BalanceChannel) : Type 0 where
  pub count : b.turn.node_count ≡ length b.nodes
  pub before : ConsistentHash
  pub ring : b.hashing ≡ set_nodes hash64 (map node_key b.nodes) before
  pub some_virtual : 0 < before.virtual_nodes

mem-get_or : (xs : List Text) (i : ℕ) → i < length xs → Mem (get_or xs i []) xs
mem-get_or [] i h = absurd (omega arith)
mem-get_or (x ∷ xs) zero h = mem-cons_self
mem-get_or (x ∷ xs) (suc i) h = mem-cons_of_mem x (mem-get_or xs i (omega arith))

not_nil : (ns : List NodeInfo) → is_nil ns ≡ true → 0 < length ns → ⊥
not_nil [] e h = omega (arith, h)
not_nil (n ∷ ns) e h = grind (arith, e)

next_key-mem : (b : BalanceChannel) → 0 < length b.nodes → Mem (next_key b).0 (map node_key b.nodes)
unfolding next_key
next_key-mem b h =
    mem-get_or (map node_key b.nodes) _
      (omega (arith, length-map node_key b.nodes, mod-lt (next b.turn).0 {m = length b.nodes} h))

module _ (hash64 : Text → ℕ) where
  pub refresh_nodes-IsCurrent :
      (now : ℕ) (ns : List NodeInfo) (b : BalanceChannel)
      → 0 < b.hashing.virtual_nodes
      → IsCurrent hash64 (refresh_nodes hash64 now (some ns) b)
  unfolding refresh_nodes set_node_count
  refresh_nodes-IsCurrent now ns b h = record {
    count = refl;
    before = b.hashing;
    ring = refl;
    some_virtual = h;
  }

  by_kind-mem :
      (kind : BalanceType) (key : Text) (b : BalanceChannel)
      → 0 < length b.nodes
      → IsCurrent hash64 b
      → Mem (by_kind hash64 kind key b).0 (map node_key b.nodes)
  unfolding by_kind
  by_kind-mem round_robin key b h c = next_key-mem b h
  by_kind-mem consistent_hash [] b h c = next_key-mem b h
  by_kind-mem consistent_hash (x ∷ xs) b h c = hashed _ b h (
      subst (λ ring. Mem (select_node hash64 (x ∷ xs) ring) (map node_key b.nodes)) (sym c.ring)
        (select_node-mem hash64 (map node_key b.nodes) (x ∷ xs) c.before
          (λ e. omega (arith, ap (length {A = Text}) e, length-map node_key b.nodes))
          c.some_virtual))
    where
      hashed :
          (k : Text) (b : BalanceChannel)
          → 0 < length b.nodes
          → Mem k (map node_key b.nodes)
          → Mem (hashed_key hash64 k b).0 (map node_key b.nodes)
      hashed [] b h m = next_key-mem b h
      hashed (x ∷ xs) b h m = m

  -- With at least one node listed, and the round robin and the ring made from that list with at least
  -- one virtual node each, the selected key is the key of a listed node.
  pub select_node_key-mem :
      (key : Text) (b : BalanceChannel)
      → 0 < length b.nodes
      → IsCurrent hash64 b
      → Mem (select_node_key hash64 key b).0 (map node_key b.nodes)
  unfolding select_node_key
  select_node_key-mem key b h c =
      if-cases (λ (p : Text × BalanceChannel). Mem p.0 (map node_key b.nodes)) (is_nil b.nodes)
        (λ e. absurd (not_nil b.nodes e h)) (λ e. by_kind-mem b.kind key b h c)

-- Of the next `n` keys in turn: all are the failed one.
abbrev AllFail : ℕ → Text → RoundRobin → List NodeInfo → Type 0
AllFail n failed r ns = (j : ℕ) → j < n → key_at (get_or (picks n r) j 0 % length ns) ns ≡ failed

AllFail-suc :
    (n : ℕ) (failed : Text) (r : RoundRobin) (ns : List NodeInfo)
    → key_at ((next r).0 % length ns) ns ≡ failed
    → AllFail n failed (next r).1 ns
    → AllFail (suc n) failed r ns
unfolding picks
AllFail-suc n failed r ns e all zero h = e
AllFail-suc n failed r ns e all (suc j) h = all j (omega arith)

-- Of `n` keys in turn either the loop takes one that is not the failed one, or all are.
other_key_cases :
    (n : ℕ) (failed : Text) (b : BalanceChannel)
    → ((other_key n failed b).0 ≢ failed) ⊎ AllFail n failed b.turn b.nodes
unfolding other_key next_key
other_key_cases zero failed b = inr (λ j h. absurd (omega arith))
other_key_cases (suc n) failed b =
    let b' = record b { turn = (next b.turn).1 } in
    let key = key_at ((next b.turn).0 % length b.nodes) b.nodes in
    let rest = other_key n failed b' in
    let d = Text-discrete key failed in
    elim d [
      | no ne ↦ inl (rw (if_neg _ ne rest (key, b')) ne)
      | yes e ↦ elim (other_key_cases n failed b') [
        | inl new ↦ inl (rw (if_pos _ e rest (key, b')) new)
        | inr all ↦ inr (AllFail-suc n failed b.turn b.nodes e all)
      ]
    ]

-- Where some listed node's key is not the failed one, the key selected for a retry is not the failed
-- one, for a round robin over as many nodes as are listed whose counter does not wrap within one turn.
pub select_node_key_for_retry-other :
    (failed : Text) (b : BalanceChannel) (node : ℕ)
    → b.turn.node_count ≡ length b.nodes
    → b.turn.index + length b.nodes < size_mod
    → node < length b.nodes
    → key_at node b.nodes ≢ failed
    → (select_node_key_for_retry failed b).0 ≢ failed
unfolding select_node_key_for_retry
select_node_key_for_retry-other failed b node count small lt other =
    if-cases (λ (p : Text × BalanceChannel). p.0 ≢ failed) (is_nil b.nodes)
      (λ e. absurd (not_nil b.nodes e (omega arith)))
      (λ e. elim (other_key_cases (length b.nodes) failed b) [
        | inl d ↦ d
        | inr all ↦
            let (j, hj, ej, only) = picks_fair b.turn node (omega arith) (omega arith) in
            let here = subst (λ n. get_or (picks n b.turn) j 0 ≡ node) count ej in
            absurd (
              other (
                sym
                  (ap (λ i. key_at i b.nodes) (ap (λ i. i % length b.nodes) here ∙ mod-eq_of_lt lt))
                ∙ all j (omega arith)))
      ])
