-- ===== src/Net/Poller/Calls.antt =====
-- The order of the poller's `epoll_ctl` calls.
use mathlib.Core.Path.{ap}
use mini_rpc.Base.{
  ℕ, ◌≡◌, refl, sym, ◌∙◌, List, [], ◌∷◌, Bool, true, false, Option, none, some, ℕ_discrete, ite,
  if-cases, Option-cases, inl, inr,
}
use mini_rpc.Base.Dict.{lookup, insert, erase, lookup-insert, lookup-erase}
use mini_rpc.Net.Poller.{
  Channel, Control, add, modify, delete, Table, is_none_event, update_channel, remove_channel,
  Change, changed, change_channel,
}

-- Whether a descriptor is registered after some calls, the latest first.
abbrev pub registered : ℕ → List Control → Bool
registered fd [] = false
registered fd (add c ∷ calls) = ite (ℕ_discrete c.fd fd) true (registered fd calls)
registered fd (modify c ∷ calls) = registered fd calls
registered fd (delete c ∷ calls) = ite (ℕ_discrete c.fd fd) false (registered fd calls)

-- A call that epoll accepts: ADD of a descriptor that is not registered, MOD and DEL of one that is.
abbrev pub Accepted : Control → List Control → Type 0
Accepted (add c) calls = registered c.fd calls ≡ false
Accepted (modify c) calls = registered c.fd calls ≡ true
Accepted (delete c) calls = registered c.fd calls ≡ true

abbrev pub AllAccepted : List Control → Type 0
AllAccepted [] = Unit
AllAccepted (c ∷ calls) = Accepted c calls × AllAccepted calls

abbrev pub has : Option ℕ → Bool
has none = false
has (some p) = true

-- The table has the descriptors that are registered.
pub record Agree (table : Table) (calls : List Control) : Type 0 where
  pub same : (fd : ℕ) → has (lookup ℕ_discrete fd table) ≡ registered fd calls
  pub accepted : AllAccepted calls

abbrev pub logged : Option Control → List Control → List Control
logged none calls = calls
logged (some c) calls = c ∷ calls

-- What a channel does to the poller.
pub data Step : Type 0 where
  changes : Change → Channel → Step
  removes : Channel → Step

abbrev pub step : Step → Table → Table × Option Control
step (changes change c) table = (change_channel change c table).1
step (removes c) table = remove_channel c table

-- A run from a table, with the calls made before it: the table and all calls after it.
abbrev pub run : List Step → Table → List Control → Table × List Control
run [] table calls = (table, calls)
run (s ∷ ss) table calls = let (table', call) = step s table in run ss table' (logged call calls)

has-ite :
    {P : Type 0} (d : Dec P) (x y : Option ℕ) (b : Bool)
    → has y ≡ b
    → has (ite d x y) ≡ ite d (has x) b
has-ite (yes p) x y b e = refl
has-ite (no p) x y b e = e

Agree-add :
    (c : Channel) (p : ℕ) (table : Table) (calls : List Control)
    → Agree table calls
    → lookup ℕ_discrete c.fd table ≡ none
    → Agree (insert ℕ_discrete c.fd p table) (add c ∷ calls)
Agree-add c p table calls a e = record {
  same = λ fd.
      ap has (lookup-insert ℕ_discrete c.fd fd p table)
      ∙ has-ite (ℕ_discrete c.fd fd) (some p) (lookup ℕ_discrete fd table) _ (a.same fd);
  accepted = (sym (a.same c.fd) ∙ ap has e, a.accepted);
}

Agree-delete :
    (c : Channel) (p : ℕ) (table : Table) (calls : List Control)
    → Agree table calls
    → lookup ℕ_discrete c.fd table ≡ some p
    → Agree (erase ℕ_discrete c.fd table) (delete c ∷ calls)
Agree-delete c p table calls a e = record {
  same = λ fd.
      ap has (lookup-erase ℕ_discrete c.fd fd table)
      ∙ has-ite (ℕ_discrete c.fd fd) none (lookup ℕ_discrete fd table) _ (a.same fd);
  accepted = (sym (a.same c.fd) ∙ ap has e, a.accepted);
}

abbrev Kept : List Control → Table × Option Control → Type 0
Kept calls r = Agree r.0 (logged r.1 calls)

update_channel-Kept :
    (c : Channel) (table : Table) (calls : List Control)
    → Agree table calls
    → Kept calls (update_channel c table)
unfolding update_channel
update_channel-Kept c table calls a = elim (Option-cases (lookup ℕ_discrete c.fd table)) [
  | inl e ↦
      rw (update_channel, e)
        (if-cases (Kept calls) (is_none_event c) (λ h. a)
          (λ h. Agree-add c c.pointer table calls a e))
  | inr (p, e) ↦
      rw (update_channel, e)
        (if-cases (Kept calls) (is_none_event c) (λ h. Agree-delete c p table calls a e)
          (λ h. record { same = a.same; accepted = (sym (a.same c.fd) ∙ ap has e, a.accepted) }))
]

remove_channel-Kept :
    (c : Channel) (table : Table) (calls : List Control)
    → Agree table calls
    → Kept calls (remove_channel c table)
unfolding remove_channel
remove_channel-Kept c table calls a = elim (Option-cases (lookup ℕ_discrete c.fd table)) [
  | inl e ↦ rw (remove_channel, e) a
  | inr (p, e) ↦ rw (remove_channel, e) (Agree-delete c p table calls a e)
]

-- In every run of interest changes and removals, a descriptor is in the table of channels if and only
-- if the epoll_ctl calls so far leave it registered, and every call is one that fits: ADD of a
-- descriptor that is not registered, MOD and DEL of one that is; if that was so at the start.
pub run-Agree :
    (steps : List Step) (table : Table) (calls : List Control)
    → Agree table calls
    → Agree (run steps table calls).0 (run steps table calls).1
unfolding change_channel
run-Agree [] table calls a = a
run-Agree (changes change c ∷ ss) table calls a =
    let r = update_channel (changed change c) table in
    run-Agree ss r.0 (logged r.1 calls) (update_channel-Kept (changed change c) table calls a)
run-Agree (removes c ∷ ss) table calls a =
    let r = remove_channel c table in
    run-Agree ss r.0 (logged r.1 calls) (remove_channel-Kept c table calls a)
