-- ===== src/Thread/ThreadPool/Ids.antt =====
-- src/thread/ThreadPool.cpp: `threads_` holds the ids of the workers that have not ended.
use mini_rpc.Base.{
  ℕ, ◌<◌, ◌≡◌, ap, ◌∙◌, List, [], ◌∷◌, ◌++◌, map, true, false, some, length, length-append, sym,
  subst, inl, inr, Bool-cases, arith,
}
use mini_rpc.Base.Indexed.{
  get_elem?, set, set-cases, map-cases, append-cases, length-set, length-map,
}
use mini_rpc.Thread.ThreadPool.{has, remove, add}
use mini_rpc.Thread.ThreadPool.System.{Phase, top, unregistered, wake}
use mini_rpc.Thread.ThreadPool.Queue.{has-add, has-add_self, has-remove_ne, has-remove, add-cases}
use mini_rpc.Thread.ThreadPool.Counters.{is_live}

-- The set of threads holds the ids of the live workers.
pub record IsKnown (ids : List ℕ) (workers : List Phase) : Type 0 where
  pub fresh : (i : ℕ) → has i ids ≡ true → i < length workers
  pub member :
      (i : ℕ) (ph : Phase) → get_elem? workers i ≡ some ph → is_live ph ≡ 1 → has i ids ≡ true

pub live_wake : (ph : Phase) → is_live (wake ph) ≡ is_live ph
live_wake ph = ground arith

pub set-IsKnown :
    {ids : List ℕ} {ws : List Phase} (i : ℕ) {ph : Phase} (ph' : Phase)
    → get_elem? ws i ≡ some ph
    → is_live ph ≡ 1
    → IsKnown ids ws
    → IsKnown ids (set ws i ph')
set-IsKnown {ids} {ws} i {ph} ph' at live k = record {
  fresh = λ j e. rw (length-set ws i ph') (k.fresh j e);
  member = λ j b e lb. elim (set-cases ws i ph' j b e) [
    | inl (same, _) ↦ subst (λ x. has x ids ≡ true) same (k.member i ph at live)
    | inr (_, old) ↦ k.member j b old lb
  ];
}

pub exit-IsKnown :
    {ids : List ℕ} {ws : List Phase} (i : ℕ)
    → IsKnown ids ws
    → IsKnown (remove i ids) (set ws i unregistered)
exit-IsKnown {ids} {ws} i k = record {
  fresh = λ j e. rw (length-set ws i unregistered) (k.fresh j (has-remove i j ids e));
  member = λ j b e lb. elim (set-cases ws i unregistered j b e) [
    | inl (_, same) ↦ absurd (grind arith)
    | inr (ne, old) ↦ has-remove_ne i j ids ne ∙ k.member j b old lb
  ];
}

pub wake-IsKnown : {ids : List ℕ} {ws : List Phase} → IsKnown ids ws → IsKnown ids (map wake ws)
wake-IsKnown {ids} {ws} k = record {
  fresh = λ j e. rw (length-map wake ws) (k.fresh j e);
  member = λ j b e lb.
      let (a, old, same) = map-cases wake ws j b e in
      k.member j a old (sym (live_wake a) ∙ ap is_live same ∙ lb);
}

pub add-IsKnown :
    {ids : List ℕ} {ws : List Phase}
    → IsKnown ids ws
    → IsKnown (add (length ws) ids) (ws ++ (top ∷ []))
add-IsKnown {ids} {ws} k = record {
  fresh = λ j e. elim (add-cases (length ws) j ids e) [
    | inl same ↦ omega (arith, same, length-append ws (top ∷ []))
    | inr old ↦ omega (arith, k.fresh j old, length-append ws (top ∷ []))
  ];
  member = λ j b e lb. elim (append-cases ws top j b e) [
    | inl (same, _) ↦
        subst (λ x. has x (add (length ws) ids) ≡ true) same (has-add_self (length ws) ids)
    | inr old ↦ has-add (length ws) j ids (k.member j b old lb)
  ];
}

pub length-IsFresh : {ids : List ℕ} {ws : List Phase} → IsKnown ids ws → has (length ws) ids ≡ false
length-IsFresh {ids} {ws} k = elim (Bool-cases (has (length ws) ids)) [
  | inl old ↦ absurd (omega (arith, k.fresh (length ws) old))
  | inr new ↦ new
]
