-- ===== src/Net/Poller/Watching/Steps.antt =====
-- Every change and removal of src/net/Channel.cpp and src/net/EpollPoller.cpp, and what epoll watches then.
use mini_rpc.Base.{
  ℕ, ◌≡◌, refl, ap, sym, ◌∙◌, subst, List, [], ◌∷◌, Option, none, some, ℕ_discrete, ite, if-cases,
  Option-cases, Bool-cases, inl, inr, if_pos, if_neg,
}
use mini_rpc.Base.Dict.{lookup, insert, erase, lookup-insert, lookup-erase}
use mini_rpc.Net.Poller.{
  Channel, Control, add, modify, delete, Table, is_none_event, update_channel, remove_channel,
  Change, enable_reading, disable_reading, enable_writing, disable_writing, disable_all, changed,
  change_channel,
}
use mini_rpc.Net.Poller.Watching.{
  System, Step, opens, changes, removes, step, run, wanted, pointer_of, called, Watching, Puts,
  Puts-Watching, new_channel,
}

-- A table that already holds `y` for `fd`.
same-ite :
    {V : Type 0} (fd j : ℕ) (y : Option V) (m : List (ℕ × V))
    → lookup ℕ_discrete fd m ≡ y
    → lookup ℕ_discrete j m ≡ ite (ℕ_discrete fd j) y (lookup ℕ_discrete j m)
same-ite fd j y m e = elim (ℕ_discrete fd j) [
  | yes q ↦ rw (if_pos _ q) (subst (λ i. lookup ℕ_discrete i m ≡ y) q e)
  | no n ↦ rw (if_neg _ n) refl
]

changed-same :
    (ch : Change) (c : Channel) → ((changed ch c).fd ≡ c.fd) × ((changed ch c).pointer ≡ c.pointer)
unfolding changed
changed-same enable_reading c = (refl, refl)
changed-same disable_reading c = (refl, refl)
changed-same enable_writing c = (refl, refl)
changed-same disable_writing c = (refl, refl)
changed-same disable_all c = (refl, refl)

abbrev updated : Channel → System → Table × Option Control → System
updated c s r = record {
  live = insert ℕ_discrete c.fd c s.live;
  table = r.0;
  watched = called r.1 s.watched;
}

abbrev removed : Channel → System → Table × Option Control → System
removed c s r = record {
  live = erase ℕ_discrete c.fd s.live;
  table = r.0;
  watched = called r.1 s.watched;
}

module _ (s : System) (w : Watching s) where
  unwatched :
      (c : Channel)
      → lookup ℕ_discrete c.fd s.live ≡ some c
      → lookup ℕ_discrete c.fd s.table ≡ none
      → lookup ℕ_discrete c.fd s.watched ≡ none
  unwatched c l e = elim (Bool-cases (is_none_event c)) [
    | inl h ↦ w.watches c.fd ∙ ap wanted l ∙ rw h refl
    | inr h ↦
        let q : none ≡ some c.pointer =
          sym e ∙ w.points c.fd ∙ ap (λ k. pointer_of (wanted k)) l ∙ rw h refl in
        cc
  ]

  pointed :
      (c : Channel) (p : ℕ)
      → lookup ℕ_discrete c.fd s.live ≡ some c
      → lookup ℕ_discrete c.fd s.table ≡ some p
      → lookup ℕ_discrete c.fd s.table ≡ some c.pointer
  pointed c p l e = elim (Bool-cases (is_none_event c)) [
    | inl h ↦
        let q : none ≡ some p =
          sym (w.points c.fd ∙ ap (λ k. pointer_of (wanted k)) l ∙ rw h refl) ∙ e in
        cc
    | inr h ↦ w.points c.fd ∙ ap (λ k. pointer_of (wanted k)) l ∙ rw h refl
  ]

  Puts-updated :
      (x : Channel) (y : Option Channel) (r : Table × Option Control)
      → wanted (some x) ≡ y
      → ((j : ℕ)
          → lookup ℕ_discrete j (called r.1 s.watched)
            ≡ ite (ℕ_discrete x.fd j) y (lookup ℕ_discrete j s.watched))
      → ((j : ℕ)
          → lookup ℕ_discrete j r.0
            ≡ ite (ℕ_discrete x.fd j) (pointer_of y) (lookup ℕ_discrete j s.table))
      → Puts x.fd (some x) s (updated x s r)
  Puts-updated x y r e f g = record {
    live = λ j. lookup-insert ℕ_discrete x.fd j x s.live;
    watched = λ j. rw e (f j);
    table = λ j. rw e (g j);
    fits = λ k q. let e : x ≡ k = cc in ap (λ o. o.fd) (sym e);
  }

  update_channel-Puts :
      (c x : Channel)
      → x.fd ≡ c.fd
      → x.pointer ≡ c.pointer
      → lookup ℕ_discrete c.fd s.live ≡ some c
      → Puts x.fd (some x) s (updated x s (update_channel x s.table))
  unfolding update_channel
  update_channel-Puts c x e q l = elim (Option-cases (lookup ℕ_discrete x.fd s.table)) [
    | inl h ↦
        let u =
          ap (λ k. lookup ℕ_discrete k s.watched) e
          ∙ unwatched c l (sym (ap (λ k. lookup ℕ_discrete k s.table) e) ∙ h) in
        rw (update_channel, h)
          (if-cases (λ r. Puts x.fd (some x) s (updated x s r)) (is_none_event x)
            (λ b.
              Puts-updated x none (s.table, none) (rw b refl)
                (λ j. same-ite x.fd j none s.watched u) (λ j. same-ite x.fd j none s.table h))
            (λ b.
              Puts-updated x (some x) (insert ℕ_discrete x.fd x.pointer s.table, some (add x))
                (rw b refl) (λ j. lookup-insert ℕ_discrete x.fd j x s.watched)
                (λ j. lookup-insert ℕ_discrete x.fd j x.pointer s.table)))
    | inr (p, h) ↦
        let u =
          ap (λ k. lookup ℕ_discrete k s.table) e
          ∙ pointed c p l (sym (ap (λ k. lookup ℕ_discrete k s.table) e) ∙ h)
          ∙ ap some (sym q) in
        rw (update_channel, h)
          (if-cases (λ r. Puts x.fd (some x) s (updated x s r)) (is_none_event x)
            (λ b.
              Puts-updated x none (erase ℕ_discrete x.fd s.table, some (delete x)) (rw b refl)
                (λ j. lookup-erase ℕ_discrete x.fd j s.watched)
                (λ j. lookup-erase ℕ_discrete x.fd j s.table))
            (λ b.
              Puts-updated x (some x) (s.table, some (modify x)) (rw b refl)
                (λ j. lookup-insert ℕ_discrete x.fd j x s.watched)
                (λ j. same-ite x.fd j (some x.pointer) s.table u)))
  ]

  remove_channel-Puts :
      (c : Channel)
      → lookup ℕ_discrete c.fd s.live ≡ some c
      → Puts c.fd none s (removed c s (remove_channel c s.table))
  unfolding remove_channel
  remove_channel-Puts c l = elim (Option-cases (lookup ℕ_discrete c.fd s.table)) [
    | inl h ↦
        rw (remove_channel, h)
          (record {
            live = λ j. lookup-erase ℕ_discrete c.fd j s.live;
            watched = λ j. same-ite c.fd j none s.watched (unwatched c l h);
            table = λ j. same-ite c.fd j none s.table h;
            fits = λ k q. cc;
          })
    | inr (p, h) ↦
        rw (remove_channel, h)
          (record {
            live = λ j. lookup-erase ℕ_discrete c.fd j s.live;
            watched = λ j. lookup-erase ℕ_discrete c.fd j s.watched;
            table = λ j. lookup-erase ℕ_discrete c.fd j s.table;
            fits = λ k q. cc;
          })
  ]

step-Watching : (x : Step) (s : System) → Watching s → Watching (step x s)
unfolding step change_channel
step-Watching (opens pointer fd) s w = elim (Option-cases (lookup ℕ_discrete fd s.live)) [
  | inl h ↦
      let wanted' = ap wanted h in
      rw (step, h)
        (Puts-Watching fd (some (new_channel pointer fd)) s _
          (record {
            live = λ j. lookup-insert ℕ_discrete fd j (new_channel pointer fd) s.live;
            watched = λ j. same-ite fd j none s.watched (w.watches fd ∙ wanted');
            table = λ j. same-ite fd j none s.table (w.points fd ∙ ap pointer_of wanted');
            fits = λ k q. let e : new_channel pointer fd ≡ k = cc in ap (λ o. o.fd) (sym e);
          })
          w)
  | inr (c, h) ↦ rw (step, h) w
]
step-Watching (changes fd change) s w = elim (Option-cases (lookup ℕ_discrete fd s.live)) [
  | inl h ↦ rw (step, h) w
  | inr (c, h) ↦
      let x = changed change c in
      let (same, pointer) = changed-same change c in
      let l = ap (λ k. lookup ℕ_discrete k s.live) (w.owned fd c h) ∙ h in
      rw (step, h) (Puts-Watching x.fd (some x) s _ (update_channel-Puts s w c x same pointer l) w)
]
step-Watching (removes fd) s w = elim (Option-cases (lookup ℕ_discrete fd s.live)) [
  | inl h ↦ rw (step, h) w
  | inr (c, h) ↦
      let l = ap (λ k. lookup ℕ_discrete k s.live) (w.owned fd c h) ∙ h in
      rw (step, h) (Puts-Watching c.fd none s _ (remove_channel-Puts s w c l) w)
]

-- In every run of channels made for descriptors that have none, changes of their interests and
-- removals, epoll watches exactly the channels with an interest, each with that interest, and the
-- poller's table has exactly their pointers; if that was so at the start.
pub run-Watching : (xs : List Step) (s : System) → Watching s → Watching (run xs s)
run-Watching [] s w = w
run-Watching (x ∷ xs) s w = run-Watching xs (step x s) (step-Watching x s w)
