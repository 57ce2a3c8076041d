-- ===== src/Rpc/BalanceChannel/Retry.antt =====
-- How many nodes one call of a balanced channel tries.
use mathlib.Core.Option
use mini_rpc.Base.{
  ℕ, zero, suc, ◌≤◌, ◌≡◌, refl, List, [], ◌∷◌, ◌++◌, Bool, true, false, ◌||◌, leb, if◌then◌else◌,
  if-cases, arith, Option, none, some, length,
}
use mini_rpc.Base.Text.{Text, text, Text-discrete}
use mini_rpc.Common.ErrorCode
use mini_rpc.Base.Dict.{insert}
use mini_rpc.Registry.{NodeInfo}
use mini_rpc.Rpc.Envelope.{Protobuf}
use mini_rpc.Rpc.Channel.{Caller, fail_controller, reset_controller}
use mini_rpc.Rpc.Channel.Call.{Outcome, call_method}
use mini_rpc.Rpc.BalanceChannel.{
  BalanceChannel, NodeChannel, Try, Called, with_key, is_final, is_nil, refreshed, refresh_nodes,
  select_node_key, select_node_key_for_retry, channel_for, after_call, call_node, retries,
  first_try, call,
}

abbrev pub key_count : Option Called → ℕ
key_count none = 0
key_count (some c) = length c.keys

-- At most `n` nodes were called.
pub record IsFew (n : ℕ) (c : Option Called) : Type 0 where
  pub few : key_count c ≤ n

with_key-IsFew :
    (n : ℕ) (key : Text) (c : Option Called)
    → IsFew n c
    → IsFew (suc n) (Option.map (with_key key) c)
with_key-IsFew n key none h = record { few = omega arith }
with_key-IsFew n key (some c) h = record { few = omega (arith, h.few) }

module _ (hash64 : Text → ℕ) (pb : Protobuf) (parses : Text → Bool) where
  after_call-IsFew :
      (n : ℕ) (again : BalanceChannel → Caller → Option Called) (key : Text) (env : Try)
      (ch : NodeChannel) (b : BalanceChannel) (o : Option Outcome)
      → ((b' : BalanceChannel) (caller : Caller) → IsFew n (again b' caller))
      → IsFew (suc n) (after_call hash64 pb parses again key env ch b o)
  unfolding after_call
  after_call-IsFew n again key env ch b none h = record { few = omega arith }
  after_call-IsFew n again key env ch b (some o) h =
      let stored = record ch { channel = o.channel } in
      let b' = record b { channels = insert Text-discrete key stored b.channels } in
      let fresh =
        refresh_nodes hash64 env.now env.discovered (record b' { failed_node_key = key }) in
      if-cases (IsFew (suc n)) (is_final o.caller || leb (length b.nodes) 1) (λ e. one _ o.caller)
        (λ e.
          if-cases (IsFew (suc n)) (leb (length fresh.nodes) 1) (λ e'. one fresh o.caller)
            (λ e'. with_key-IsFew n key (again fresh o.caller) (h fresh o.caller)))
    where
      one :
          (b : BalanceChannel) (caller : Caller)
          → IsFew (suc n) (some (record { balance = b; caller = caller; keys = key ∷ [] }))
      one b caller = record { few = omega arith }

  call_node-IsFew :
      (n : ℕ) (full_name payload : Text) (again : BalanceChannel → Caller → Option Called)
      (env : Try) (selected : Text × BalanceChannel) (caller : Caller)
      → ((b : BalanceChannel) (caller : Caller) → IsFew n (again b caller))
      → IsFew (suc n) (call_node hash64 pb parses full_name payload again env selected caller)
  unfolding call_node
  call_node-IsFew n full_name payload again env (key, b) caller h =
      let (ch, b') = channel_for key b in
      after_call-IsFew n again key env ch b'
        (call_method pb parses full_name payload env.dialled env.attempts ch.channel caller) h

  retries-IsFew :
      (full_name payload : Text) (n : ℕ) (envs : List Try) (b : BalanceChannel) (caller : Caller)
      → IsFew n (retries hash64 pb parses full_name payload n envs b caller)
  unfolding retries
  retries-IsFew full_name payload zero envs b caller = record { few = omega arith }
  retries-IsFew full_name payload (suc n) [] b caller = record { few = omega arith }
  retries-IsFew full_name payload (suc n) (env ∷ envs) b caller =
      call_node-IsFew n full_name payload (retries hash64 pb parses full_name payload n envs) env
        (select_node_key_for_retry b.failed_node_key b) caller
        (retries-IsFew full_name payload n envs)

  first_try-IsFew :
      (full_name payload : Text) (n : ℕ) (envs : List Try) (key : Text) (b : BalanceChannel)
      (caller : Caller)
      → IsFew (suc n) (first_try hash64 pb parses full_name payload n envs key b caller)
  unfolding first_try
  first_try-IsFew full_name payload n [] key b caller = record { few = omega arith }
  first_try-IsFew full_name payload n (env ∷ envs) key b caller =
      call_node-IsFew n full_name payload (retries hash64 pb parses full_name payload n envs) env
        (select_node_key hash64 key b) caller (retries-IsFew full_name payload n envs)

  -- A call that ends has called at most two nodes, and at most one where it was given a done closure.
  pub call-IsFew :
      (full_name payload : Text) (has_done : Bool) (now : ℕ) (discovered : Option (List NodeInfo))
      (envs : List Try) (b : BalanceChannel) (caller : Caller)
      → IsFew
          (if has_done then 1 else 2)
          (call hash64 pb parses full_name payload has_done now discovered envs b caller)
  unfolding call
  call-IsFew full_name payload true now discovered envs b caller =
      if-cases (IsFew 1) (is_nil (refreshed hash64 now discovered b).nodes)
        (λ e. record { few = omega arith })
        (λ e.
          first_try-IsFew full_name payload 0 envs payload (refreshed hash64 now discovered b)
            (reset_controller caller))
  call-IsFew full_name payload false now discovered envs b caller =
      if-cases (IsFew 2) (is_nil (refreshed hash64 now discovered b).nodes)
        (λ e. record { few = omega arith })
        (λ e.
          first_try-IsFew full_name payload 1 envs payload (refreshed hash64 now discovered b)
            (reset_controller caller))

  -- Where the registry knows no node, no node is called and the controller says so.
  pub call-no_service :
      (full_name payload : Text) (has_done : Bool) (now : ℕ) (discovered : Option (List NodeInfo))
      (envs : List Try) (b : BalanceChannel) (caller : Caller)
      → is_nil (refreshed hash64 now discovered b).nodes ≡ true
      → call hash64 pb parses full_name payload has_done now discovered envs b caller
        ≡ some (record {
          balance = refreshed hash64 now discovered b;
          caller =
              fail_controller ErrorCode.no_service
                (text "no available node for service: " ++ b.service_name)
                (reset_controller caller);
          keys = [];
        })
  unfolding call
  call-no_service full_name payload has_done now discovered envs b caller e = rw (call, e) refl
