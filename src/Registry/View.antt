-- ===== src/Registry/View.antt =====
-- src/registry/RegistryServiceImpl.cpp, `purgeExpired`: what eviction leaves of the map.
use mathlib.Core.Path.{ap₂}
use mini_rpc.Base.{
  ℕ, ◌≡◌, refl, ap, sym, ◌∙◌, subst, inl, inr, [], ◌∷◌, Bool, Option, none, arith, ite, if_pos,
  if_neg, Bool-cases,
}
use mini_rpc.Base.Dict.{lookup, keep, only, lookup-keep}
use mini_rpc.Base.Text.{Text, Text-discrete}
use mini_rpc.Registry.{NodeEntry, ServiceMap, Services, is_alive, is_empty, purge_expired}
use mini_rpc.Registry.Table.{entry_of, view, IsValid, is_empty-none}

pub lookup-purge_none :
    (timeout now : ℕ) (name : Text) (s : Services)
    → lookup Text-discrete name s ≡ none
    → lookup Text-discrete name (purge_expired timeout now s) ≡ none
unfolding purge_expired lookup
lookup-purge_none timeout now name [] e = refl
lookup-purge_none timeout now name ((svc, nodes) ∷ s) e =
    let live = keep (is_alive timeout now) nodes in
    elim (Bool-cases (is_empty live)) [
      | inl f ↦ rw f (lookup-purge_none timeout now name s (ground arith))
      | inr f ↦ rw f (ground (arith, lookup-purge_none timeout now name s))
    ]

view-cons :
    (svc : Text) (nodes : ServiceMap) (s : Services) (name key : Text)
    → view ((svc, nodes) ∷ s) name key
      ≡ ite (Text-discrete svc name) (lookup Text-discrete key nodes) (view s name key)
unfolding lookup
view-cons svc nodes s name key = ground arith

only-ite {ℓ κ} :
    {P : Type ℓ} {V : Type κ} (p : V → Bool) (d : Dec P) (a b : Option V)
    → only p (ite d a b) ≡ ite d (only p a) (only p b)
only-ite p (yes h) a b = refl
only-ite p (no h) a b = refl

-- A service that loses all its nodes is gone from the view.
view-dropped :
    (p : NodeEntry → Bool) (svc : Text) (nodes : ServiceMap) (s rest : Services) (name key : Text)
    → view rest name key ≡ only p (view s name key)
    → lookup Text-discrete svc rest ≡ none
    → only p (lookup Text-discrete key nodes) ≡ none
    → view rest name key ≡ only p (view ((svc, nodes) ∷ s) name key)
view-dropped p svc nodes s rest name key ih gone none_left = rw (view-cons svc nodes s name key) (
    rw only-ite (elim (Text-discrete svc name) [
      | yes e ↦ rw (if_pos _ e) (
          ap (entry_of key) (subst (λ n. lookup Text-discrete n rest ≡ none) e gone)
          ∙ sym none_left)
      | no ne ↦ rw (if_neg _ ne) ih
    ]))

-- On a valid registry purgeExpired drops exactly the entries whose last heartbeat is older than the
-- timeout.
pub view-purge_expired :
    (timeout now : ℕ) (s : Services) (name key : Text)
    → IsValid s
    → view (purge_expired timeout now s) name key ≡ only (is_alive timeout now) (view s name key)
unfolding purge_expired
view-purge_expired timeout now [] name key v = unfold lookup in refl
view-purge_expired timeout now ((svc, nodes) ∷ s) name key v =
    let p : NodeEntry → Bool = is_alive timeout now in
    let live = keep p nodes in
    let rest = purge_expired timeout now s in
    let (un, ne, vs) = v.nodes in
    let ih =
      view-purge_expired timeout now s name key (record { services = v.services.1; nodes = vs }) in
    let kept = lookup-keep Text-discrete p key nodes un in
    let gone = lookup-purge_none timeout now svc s v.services.0 in
    elim (Bool-cases (is_empty live)) [
      | inl f ↦
          rw f
            (view-dropped p svc nodes s rest name key ih gone (sym kept ∙ is_empty-none live key f))
      | inr f ↦ rw f (
          view-cons svc live rest name key
          ∙ ap₂ (ite (Text-discrete svc name)) kept ih
          ∙ sym (
              only-ite p (Text-discrete svc name) (lookup Text-discrete key nodes)
                (view s name key))
          ∙ ap (only p) (sym (view-cons svc nodes s name key)))
    ]
