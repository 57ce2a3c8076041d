-- ===== src/Registry/History.antt =====
-- What stays registered, and what does not come back, over histories of requests.
use mini_rpc.Base.{
  ℕ, ◌+◌, ◌≤◌, ◌≡◌, refl, ◌∙◌, inl, inr, List, [], ◌∷◌, Bool, ite, Option, none, some, arith,
  if_pos, if_neg, Option-cases, All,
}
use mini_rpc.Base.Dict.{only}
use mini_rpc.Base.Text.{Text, Text-discrete}
use mini_rpc.Registry.{
  NodeEntry, Services, node_key, is_alive, discover, Request, registers, unregisters, discovers,
  heartbeats, evicts, step,
}
use mini_rpc.Registry.View.{view-purge_expired}
use mini_rpc.Registry.Table.{
  IsValid, view, change, view-register, view-unregister, view-heartbeat, heartbeat_unknown,
}
use mini_rpc.Registry.Invariant.{step-IsValid}

-- An entry that is still there, with a stamp no older than `since`.
abbrev pub Present : ℕ → Option NodeEntry → Type 0
Present since o = (e : NodeEntry) × (o ≡ some e) × (since ≤ e.last_heartbeat)

-- A request that does not unregister the node with this key of this service.
abbrev pub Spares : Text → Text → Request → Type 0
Spares name key (unregisters other node) = ¬ ((other ≡ name) × (node_key node ≡ key))
Spares name key r = Unit {0}

change-Present :
    (since : ℕ) (v : Text → Text → Option NodeEntry) (svc k : Text) (e : NodeEntry)
    (name key : Text)
    → Present since (v name key)
    → since ≤ e.last_heartbeat
    → Present since (change v svc k (some e) name key)
change-Present since v svc k e name key p h = elim (Text-discrete svc name) [
  | yes a ↦ rw (if_pos _ a) (elim (Text-discrete k key) [
    | yes b ↦ rw (if_pos _ b) (e, refl, h)
    | no b ↦ rw (if_neg _ b) p
  ])
  | no a ↦ rw (if_neg _ a) p
]

only-Present :
    (since timeout now : ℕ) (o : Option NodeEntry)
    → now ≤ since + timeout
    → Present since o
    → Present since (only (is_alive timeout now) o)
only-Present since timeout now o h (e, q, k) = (e, ground arith, k)

-- One request at a time no later than `since + timeout` keeps the entry.
step-Present :
    (timeout since now : ℕ) (r : Request) (s : Services) (name key : Text)
    → IsValid s
    → since ≤ now
    → now ≤ since + timeout
    → Spares name key r
    → Present since (view s name key)
    → Present since (view (step timeout now r s).1 name key)
unfolding step discover
step-Present timeout since now (registers svc node) s name key v lo hi sp p =
    rw view-register (change-Present since (view s) svc (node_key node) _ name key p lo)
step-Present timeout since now (unregisters svc node) s name key v lo hi sp p =
    rw view-unregister (elim (Text-discrete svc name) [
      | yes a ↦ rw (if_pos _ a) (elim (Text-discrete (node_key node) key) [
        | yes b ↦ absurd (sp (a, b))
        | no b ↦ rw (if_neg _ b) p
      ])
      | no a ↦ rw (if_neg _ a) p
    ])
step-Present timeout since now (discovers svc) s name key v lo hi sp p =
    rw (view-purge_expired timeout now s name key v) (only-Present since timeout now _ hi p)
step-Present timeout since now (heartbeats svc node) s name key v lo hi sp p =
    elim (Option-cases (view s svc (node_key node))) [
      | inl e ↦ rw (heartbeat_unknown now svc node s e) p
      | inr (entry, e) ↦
          rw (view-heartbeat now svc node s entry name key e)
            (change-Present since (view s) svc (node_key node) _ name key p lo)
    ]
step-Present timeout since now evicts s name key v lo hi sp p =
    rw (view-purge_expired timeout now s name key v) (only-Present since timeout now _ hi p)

-- The requests of a history, each with its time.
unfoldable pub run : ℕ → List (ℕ × Request) → Services → Services
run timeout [] s = s
run timeout ((now, r) ∷ rs) s = run timeout rs (step timeout now r s).1

-- A node of a valid registry whose last heartbeat was at some time or later stays registered, with a
-- heartbeat no older, through every history of requests and eviction rounds between that time and one
-- timeout later that does not unregister it.
pub run-Present :
    (timeout since : ℕ) (rs : List (ℕ × Request)) (s : Services) (name key : Text)
    → IsValid s
    → All (λ c. (since ≤ c.0) × (c.0 ≤ since + timeout) × Spares name key c.1) rs
    → Present since (view s name key)
    → Present since (view (run timeout rs s) name key)
unfolding run
run-Present timeout since [] s name key v h p = p
run-Present timeout since ((now, r) ∷ rs) s name key v h p =
    let (lo, hi, sp) = h.0 in
    run-Present timeout since rs (step timeout now r s).1 name key (step-IsValid timeout now r s v)
      h.1 (step-Present timeout since now r s name key v lo hi sp p)

-- A request that does not register the node with this key of this service.
abbrev pub Quiet : Text → Text → Request → Type 0
Quiet name key (registers other node) = ¬ ((other ≡ name) × (node_key node ≡ key))
Quiet name key r = Unit {0}

change_elsewhere :
    (v : Text → Text → Option NodeEntry) (svc k : Text) (e : Option NodeEntry) (name key : Text)
    → ¬ ((svc ≡ name) × (k ≡ key))
    → change v svc k e name key ≡ v name key
change_elsewhere v svc k e name key h = elim (Text-discrete svc name) [
  | yes a ↦
      rw (if_pos _ a)
        (elim (Text-discrete k key) [ yes b ↦ absurd (h (a, b)) | no b ↦ rw (if_neg _ b) refl ])
  | no a ↦ rw (if_neg _ a) refl
]

change-none :
    (v : Text → Text → Option NodeEntry) (svc k : Text) (name key : Text)
    → v name key ≡ none
    → change v svc k none name key ≡ none
change-none v svc k name key e = elim (Text-discrete svc name) [
  | yes a ↦
      rw (if_pos _ a)
        (elim (Text-discrete k key) [ yes b ↦ rw (if_pos _ b) refl | no b ↦ rw (if_neg _ b) e ])
  | no a ↦ rw (if_neg _ a) e
]

only-none : (p : NodeEntry → Bool) (o : Option NodeEntry) → o ≡ none → only p o ≡ none
only-none p o e = rw e refl

-- Without a Register an entry that is absent stays absent.
pub step-absent :
    (timeout now : ℕ) (r : Request) (s : Services) (name key : Text)
    → IsValid s
    → Quiet name key r
    → view s name key ≡ none
    → view (step timeout now r s).1 name key ≡ none
unfolding step discover
step-absent timeout now (registers svc node) s name key v q e =
    view-register now svc node s name key
    ∙ change_elsewhere (view s) svc (node_key node) _ name key q
    ∙ e
step-absent timeout now (unregisters svc node) s name key v q e =
    view-unregister svc node s name key ∙ change-none (view s) svc (node_key node) name key e
step-absent timeout now (discovers svc) s name key v q e =
    view-purge_expired timeout now s name key v ∙ only-none _ _ e
step-absent timeout now (heartbeats svc node) s name key v q e =
    elim (Option-cases (view s svc (node_key node))) [
      | inl h ↦ rw (heartbeat_unknown now svc node s h) e
      | inr (entry, h) ↦
          view-heartbeat now svc node s entry name key h
          ∙ change_elsewhere (view s) svc (node_key node) _ name key
              (λ (a, b). grind (arith, a, b, h, e))
          ∙ e
    ]
step-absent timeout now evicts s name key v q e =
    view-purge_expired timeout now s name key v ∙ only-none _ _ e

pub run-absent :
    (timeout : ℕ) (rs : List (ℕ × Request)) (s : Services) (name key : Text)
    → IsValid s
    → All (λ c. Quiet name key c.1) rs
    → view s name key ≡ none
    → view (run timeout rs s) name key ≡ none
unfolding run
run-absent timeout [] s name key v q e = e
run-absent timeout ((now, r) ∷ rs) s name key v q e =
    run-absent timeout rs (step timeout now r s).1 name key (step-IsValid timeout now r s v) q.1
      (step-absent timeout now r s name key v q.0 e)

pub run-IsValid :
    (timeout : ℕ) (rs : List (ℕ × Request)) (s : Services) → IsValid s → IsValid (run timeout rs s)
unfolding run
run-IsValid timeout [] s v = v
run-IsValid timeout ((now, r) ∷ rs) s v =
    run-IsValid timeout rs (step timeout now r s).1 (step-IsValid timeout now r s v)

pub change_self :
    (v : Text → Text → Option NodeEntry) (name key : Text) (e : Option NodeEntry)
    → change v name key e name key ≡ e
change_self v name key e =
    if_pos (Text-discrete name name) refl (ite (Text-discrete key key) e (v name key)) (v name key)
    ∙ if_pos (Text-discrete key key) refl e (v name key)
