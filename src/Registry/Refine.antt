-- ===== src/Registry/Refine.antt =====
-- The registry against a partial map from service and node key to entry, over any history of requests.
use mathlib.Core.Path.{ap₂}
use mini_rpc.Base.{
  ℕ, ◌≡◌, refl, ap, sym, ◌∙◌, inl, inr, List, [], ◌∷◌, Option, none, some, arith, Option-cases,
  if_pos, if_neg,
}
use mini_rpc.Base.Dict.{only}
use mini_rpc.Base.Text.{Text, Text-discrete}
use mini_rpc.Registry.{
  NodeEntry, Services, node_key, is_alive, discover, Request, registers, unregisters, discovers,
  heartbeats, evicts, step, ok_code, err_code, register, unregister, heartbeat, heartbeat_node,
}
use mini_rpc.Registry.View.{view-purge_expired}
use mini_rpc.Registry.Table.{
  IsValid, view, change, view-register, view-unregister, view-heartbeat, heartbeat_unknown,
}
use mini_rpc.Registry.Invariant.{step-IsValid}
use mini_rpc.Registry.History.{run}

abbrev pub Table : Type 0
Table = Text → Text → Option NodeEntry

abbrev pub touch : ℕ → Option NodeEntry → Option NodeEntry
touch now none = none
touch now (some entry) = some (record entry { last_heartbeat = now })

-- What a request makes of the table.
abbrev pub apply : ℕ → ℕ → Request → Table → Table
apply timeout now (registers name node) t =
    change t name (node_key node) (some (record { node = node; last_heartbeat = now }))
apply timeout now (unregisters name node) t = change t name (node_key node) none
apply timeout now (discovers name) t = λ service key. only (is_alive timeout now) (t service key)
apply timeout now (heartbeats name node) t =
    change t name (node_key node) (touch now (t name (node_key node)))
apply timeout now evicts t = λ service key. only (is_alive timeout now) (t service key)

abbrev pub code_if : Option NodeEntry → ℕ
code_if none = err_code
code_if (some entry) = ok_code

-- Only the heartbeat of a node that is not there is an error.
abbrev pub code : Request → Table → ℕ
code (heartbeats name node) t = code_if (t name (node_key node))
code r t = ok_code

abbrev pub apply_all : ℕ → List (ℕ × Request) → Table → Table
apply_all timeout [] t = t
apply_all timeout ((now, r) ∷ rs) t = apply_all timeout rs (apply timeout now r t)

abbrev pub codes : ℕ → List (ℕ × Request) → Table → List ℕ
codes timeout [] t = []
codes timeout ((now, r) ∷ rs) t = code r t ∷ codes timeout rs (apply timeout now r t)

-- The error codes that the registry answers with.
abbrev pub answers : ℕ → List (ℕ × Request) → Services → List ℕ
answers timeout [] s = []
answers timeout ((now, r) ∷ rs) s =
    let (response, s') = step timeout now r s in response.error_code ∷ answers timeout rs s'

-- A change that puts back what is there.
change-same :
    (t : Table) (name key : Text) (o : Option NodeEntry) (service k : Text)
    → o ≡ t name key
    → t service k ≡ change t name key o service k
change-same t name key o service k e = elim (Text-discrete name service) [
  | yes a ↦ rw (if_pos _ a) (elim (Text-discrete key k) [
    | yes b ↦ rw (if_pos _ b) (ap₂ t (sym a) (sym b) ∙ sym e)
    | no b ↦ rw (if_neg _ b) refl
  ])
  | no a ↦ rw (if_neg _ a) refl
]

step-view :
    (timeout now : ℕ) (r : Request) (s : Services) (service key : Text)
    → IsValid s
    → view (step timeout now r s).1 service key ≡ apply timeout now r (view s) service key
unfolding step discover
step-view timeout now (registers name node) s service key v =
    view-register now name node s service key
step-view timeout now (unregisters name node) s service key v =
    view-unregister name node s service key
step-view timeout now (discovers name) s service key v =
    view-purge_expired timeout now s service key v
step-view timeout now evicts s service key v = view-purge_expired timeout now s service key v
step-view timeout now (heartbeats name node) s service key v =
    elim (Option-cases (view s name (node_key node))) [
      | inl e ↦
          ap (λ a. view a.1 service key) (heartbeat_unknown now name node s e)
          ∙ change-same (view s) name (node_key node) _ service key (ap (touch now) e ∙ sym e)
      | inr (entry, e) ↦
          view-heartbeat now name node s entry service key e
          ∙ ap (λ o. change (view s) name (node_key node) (touch now o) service key) (sym e)
    ]

step-code :
    (timeout now : ℕ) (r : Request) (s : Services)
    → (step timeout now r s).0.error_code ≡ code r (view s)
unfolding step discover register unregister heartbeat heartbeat_node
step-code timeout now (heartbeats name node) s = ground arith
step-code timeout now (unregisters name node) s = ground arith
step-code timeout now r s = refl

-- From a valid registry, in every history of requests and eviction rounds, the error codes of the
-- answers and the entries at the end are those of the same history on a partial map from service and
-- node key to entry: Register writes an entry, Unregister removes it, Heartbeat renews the time of one
-- that is there and is the only request that fails, where there is none; Discover and eviction drop
-- exactly the entries older than the timeout.
pub run-refines_table :
    (timeout : ℕ) (history : List (ℕ × Request)) (s : Services)
    → IsValid s
    → (answers timeout history s ≡ codes timeout history (view s))
      × (view (run timeout history s) ≡ apply_all timeout history (view s))
unfolding run
run-refines_table timeout [] s v = (refl, refl)
run-refines_table timeout ((now, r) ∷ rs) s v =
    let s' = (step timeout now r s).1 in
    let same : view s' ≡ apply timeout now r (view s) =
      λ i service key. step-view timeout now r s service key v i in
    let (said, left) = run-refines_table timeout rs s' (step-IsValid timeout now r s v) in
    (
      ap₂ ◌∷◌ (step-code timeout now r s) (said ∙ ap (codes timeout rs) same),
      left ∙ ap (apply_all timeout rs) same,
    )
