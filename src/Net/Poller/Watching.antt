-- ===== src/Net/Poller/Watching.antt =====
-- What epoll watches, where each descriptor has one channel: include/minirpc/net/Channel.h and
-- src/net/EpollPoller.cpp.
pub mod Steps
use mini_rpc.Base.{
  ℕ, ◌≡◌, refl, ap, sym, ◌∙◌, subst, List, [], ◌∷◌, Bool, true, false, Option, none, some,
  ℕ_discrete, ite, if-cases, Option-cases, Bool-cases, inl, inr, if◌then◌else◌, if_pos, if_neg,
}
use mini_rpc.Base.Dict.{lookup, insert, erase, lookup-insert, lookup-erase}
use mini_rpc.Net.Poller.{
  Channel, Control, add, modify, delete, Table, is_none_event, update_channel, remove_channel,
  Change, enable_reading, disable_reading, enable_writing, disable_writing, disable_all, changed,
  change_channel,
}

-- A table from descriptors to channels.
abbrev pub Channels : Type 0
Channels = List (ℕ × Channel)

-- What the calls of `epoll_ctl` leave watched: the last call on a descriptor decides.
abbrev pub controlled : Control → Channels → Channels
controlled (add c) ws = insert ℕ_discrete c.fd c ws
controlled (modify c) ws = insert ℕ_discrete c.fd c ws
controlled (delete c) ws = erase ℕ_discrete c.fd ws

abbrev pub called : Option Control → Channels → Channels
called none ws = ws
called (some c) ws = controlled c ws

-- The channels that exist, the poller's table, and what epoll watches.
pub record System : Type 0 where
  pub live : Channels
  pub table : Table
  pub watched : Channels

-- A channel is made for a descriptor that has none, changes its interest, or is removed.
pub data Step : Type 0 where
  opens : ℕ → ℕ → Step
  changes : ℕ → Change → Step
  removes : ℕ → Step

abbrev pub new_channel : ℕ → ℕ → Channel
new_channel pointer fd = record { pointer = pointer; fd = fd; reading = false; writing = false }

unfoldable pub step : Step → System → System
step (opens pointer fd) s = elim (lookup ℕ_discrete fd s.live) [
  | none ↦ record s { live = insert ℕ_discrete fd (new_channel pointer fd) s.live }
  | some c ↦ s
]
step (changes fd change) s = elim (lookup ℕ_discrete fd s.live) [
  | none ↦ s
  | some c ↦
      let (c', (table', call)) = change_channel change c s.table in
      record {
        live = insert ℕ_discrete c'.fd c' s.live;
        table = table';
        watched = called call s.watched;
      }
]
step (removes fd) s = elim (lookup ℕ_discrete fd s.live) [
  | none ↦ s
  | some c ↦
      let (table', call) = remove_channel c s.table in
      record {
        live = erase ℕ_discrete c.fd s.live;
        table = table';
        watched = called call s.watched;
      }
]

abbrev pub run : List Step → System → System
run [] s = s
run (x ∷ xs) s = run xs (step x s)

-- What is to be watched of a descriptor: its channel, if that has an interest.
abbrev pub wanted : Option Channel → Option Channel
wanted none = none
wanted (some c) = if is_none_event c then none else some c

abbrev pub pointer_of : Option Channel → Option ℕ
pointer_of none = none
pointer_of (some c) = some c.pointer

pub record Watching (s : System) : Type 0 where
  pub owned : (fd : ℕ) (c : Channel) → lookup ℕ_discrete fd s.live ≡ some c → c.fd ≡ fd
  pub watches : (fd : ℕ) → lookup ℕ_discrete fd s.watched ≡ wanted (lookup ℕ_discrete fd s.live)
  pub points :
      (fd : ℕ) → lookup ℕ_discrete fd s.table ≡ pointer_of (wanted (lookup ℕ_discrete fd s.live))

wanted-ite :
    {P : Type 0} (d : Dec P) (x y : Option Channel)
    → wanted (ite d x y) ≡ ite d (wanted x) (wanted y)
wanted-ite (yes p) x y = refl
wanted-ite (no p) x y = refl

pointer_of-ite :
    {P : Type 0} (d : Dec P) (x y : Option Channel)
    → pointer_of (ite d x y) ≡ ite d (pointer_of x) (pointer_of y)
pointer_of-ite (yes p) x y = refl
pointer_of-ite (no p) x y = refl

-- One descriptor gets another channel, or none, in all three tables.
pub record Puts (fd : ℕ) (x : Option Channel) (s t : System) : Type 0 where
  pub live :
      (j : ℕ) → lookup ℕ_discrete j t.live ≡ ite (ℕ_discrete fd j) x (lookup ℕ_discrete j s.live)
  pub watched :
      (j : ℕ)
      → lookup ℕ_discrete j t.watched
        ≡ ite (ℕ_discrete fd j) (wanted x) (lookup ℕ_discrete j s.watched)
  pub table :
      (j : ℕ)
      → lookup ℕ_discrete j t.table
        ≡ ite (ℕ_discrete fd j) (pointer_of (wanted x)) (lookup ℕ_discrete j s.table)
  pub fits : (c : Channel) → x ≡ some c → c.fd ≡ fd

ite-owned :
    {P : Type 0} (d : Dec P) (fd : ℕ) (x y : Option Channel) (c : Channel)
    → (P → x ≡ some c → c.fd ≡ fd)
    → (y ≡ some c → c.fd ≡ fd)
    → ite d x y ≡ some c
    → c.fd ≡ fd
ite-owned (yes p) fd x y c f g e = f p e
ite-owned (no p) fd x y c f g e = g e

pub Puts-Watching :
    (fd : ℕ) (x : Option Channel) (s t : System) → Puts fd x s t → Watching s → Watching t
Puts-Watching fd x s t p w = record {
  owned = λ j c e.
      ite-owned (ℕ_discrete fd j) j x (lookup ℕ_discrete j s.live) c (λ q k. p.fits c k ∙ q)
        (w.owned j c) (sym (p.live j) ∙ e);
  watches = λ j.
      p.watched j
      ∙ ap (ite (ℕ_discrete fd j) (wanted x)) (w.watches j)
      ∙ sym (ap wanted (p.live j) ∙ wanted-ite (ℕ_discrete fd j) x (lookup ℕ_discrete j s.live));
  points = λ j.
      p.table j
      ∙ ap (ite (ℕ_discrete fd j) (pointer_of (wanted x))) (w.points j)
      ∙ sym (
          ap (λ k. pointer_of (wanted k)) (p.live j)
          ∙ ap pointer_of (wanted-ite (ℕ_discrete fd j) x (lookup ℕ_discrete j s.live))
          ∙ pointer_of-ite (ℕ_discrete fd j) (wanted x) (wanted (lookup ℕ_discrete j s.live)));
}
