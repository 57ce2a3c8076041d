-- ===== src/Net/EventLoopPool/Deal.antt =====
-- `start` and `getNext` of src/net/EventLoopPool.cpp: which loops the callers are given.
use native.Mathlib.Nat.{mod-lt}
use mini_rpc.Base.{
  ℕ, zero, suc, ◌+◌, ◌%◌, ◌<◌, ◌≡◌, refl, ap, sym, ◌∙◌, List, [], ◌∷◌, ◌++◌, append-nil,
  append_assoc, length, get_or, true, Option, none, some, arith, size_mod, add_size,
}
use mini_rpc.Net.EventLoopPool.{EventLoopPool, create, start_threads, start, get_next}
use mini_rpc.Rpc.LoadBalancer.RoundRobin.{RoundRobin, next, next_lem, picks, picks_fair}

-- The numbers from `i` on.
unfoldable pub upto : ℕ → ℕ → List ℕ
upto zero i = []
upto (suc k) i = i ∷ upto k (suc i)

length-upto : (k i : ℕ) → length (upto k i) ≡ k
unfolding upto
length-upto zero i = refl
length-upto (suc k) i = ap suc (length-upto k (suc i))

get_or-upto : (k i j : ℕ) → j < k → get_or (upto k i) j 0 ≡ i + j
unfolding upto
get_or-upto zero i j h = absurd (omega arith)
get_or-upto (suc k) i zero h = omega arith
get_or-upto (suc k) i (suc j) h = omega (arith, get_or-upto k (suc i) j (omega arith))

-- A pool whose loops are made.
pub record IsStarted (n : ℕ) (p : EventLoopPool) : Type 0 where
  pub is_started : p.started ≡ true
  pub loops : p.loops ≡ upto n 0

pub data Call : Type 0 where
  starts : Call
  gets : Call

unfoldable pub call : Call → EventLoopPool → EventLoopPool
call starts p = start p
call gets p = (get_next p).1

unfoldable pub run : List Call → EventLoopPool → EventLoopPool
run [] p = p
run (c ∷ cs) p = run cs (call c p)

-- What calls of `getNext` in a row return.
unfoldable pub deal : ℕ → EventLoopPool → List (Option ℕ)
deal zero p = []
deal (suc k) p = (get_next p).0 ∷ deal k (get_next p).1

start_threads_loops :
    (k i : ℕ) (p : EventLoopPool) → (start_threads k i p).loops ≡ p.loops ++ upto k i
unfolding start_threads upto
start_threads_loops zero i p = sym (append-nil p.loops)
start_threads_loops (suc k) i p =
    start_threads_loops k (suc i) _ ∙ append_assoc p.loops (i ∷ []) (upto k (suc i))

start_threads_started : (k i : ℕ) (p : EventLoopPool) → (start_threads k i p).started ≡ p.started
unfolding start_threads
start_threads_started zero i p = refl
start_threads_started (suc k) i p = start_threads_started k (suc i) _

pub start-IsStarted : (n : ℕ) → IsStarted (create n).thread_count (start (create n))
unfolding start create
start-IsStarted n = record {
  is_started = start_threads_started (create n).thread_count 0 _;
  loops = start_threads_loops (create n).thread_count 0 _;
}

get_next_started : (p : EventLoopPool) → (get_next p).1.started ≡ p.started
unfolding get_next
get_next_started p = ground arith

get_next_loops : (p : EventLoopPool) → (get_next p).1.loops ≡ p.loops
unfolding get_next
get_next_loops p = ground arith

get_next-IsStarted : (n : ℕ) (p : EventLoopPool) → IsStarted n p → IsStarted n (get_next p).1
get_next-IsStarted n p s = record {
  is_started = get_next_started p ∙ s.is_started;
  loops = get_next_loops p ∙ s.loops;
}

call-IsStarted : (n : ℕ) (c : Call) (p : EventLoopPool) → IsStarted n p → IsStarted n (call c p)
unfolding call start
call-IsStarted n starts p s = simp s.is_started s
call-IsStarted n gets p s = get_next-IsStarted n p s

run-IsStarted :
    (n : ℕ) (cs : List Call) (p : EventLoopPool) → IsStarted n p → IsStarted n (run cs p)
unfolding run
run-IsStarted n [] p s = s
run-IsStarted n (c ∷ cs) p s = run-IsStarted n cs (call c p) (call-IsStarted n c p s)

-- The counter and the number of loops, as the round-robin balancer has them.
as_round_robin : ℕ → EventLoopPool → RoundRobin
as_round_robin n p = record { index = p.next; node_count = n }

get_next_lem :
    (n : ℕ) (p : EventLoopPool)
    → 0 < n
    → IsStarted n p
    → get_next p ≡ (some (p.next % n), record p { next = add_size p.next 1 })
unfolding get_next
get_next_lem n p h s =
    let size : length p.loops ≡ n = ap length s.loops ∙ length-upto n 0 in
    let here : get_or p.loops (p.next % n) 0 ≡ p.next % n =
      ap (λ l. get_or l (p.next % n) 0) s.loops
      ∙ get_or-upto n 0 (p.next % n) (mod-lt p.next h)
      ∙ omega arith in
    rw (size, here) (ground arith)

deal-picks :
    (n k j : ℕ) (p : EventLoopPool)
    → 0 < n
    → IsStarted n p
    → j < k
    → get_or (deal k p) j none ≡ some (get_or (picks k (as_round_robin n p)) j 0)
unfolding deal picks as_round_robin next
deal-picks n zero j p h s lt = absurd (omega arith)
deal-picks n (suc k) zero p h s lt =
    ap (λ r. r.0) (get_next_lem n p h s)
    ∙ sym (ap (λ r. some r.0) (next_lem (as_round_robin n p) h))
deal-picks n (suc k) (suc j) p h s lt =
    let moved : as_round_robin n (get_next p).1 ≡ (next (as_round_robin n p)).1 =
      ap (λ r. as_round_robin n r.1) (get_next_lem n p h s)
      ∙ sym (ap (λ r. r.1) (next_lem (as_round_robin n p) h)) in
    deal-picks n k j (get_next p).1 h (get_next-IsStarted n p s) (omega arith)
    ∙ ap (λ r. some (get_or (picks k r) j 0)) moved

-- However often a pool of `n` threads was started again and a loop was taken before, the counter not
-- wrapping, as many calls of `getNext` in a row as it has threads return each of its loops at exactly
-- one call.
pub deals_fair :
    (n loop : ℕ) (calls : List Call)
    → (run calls (start (create n))).next + (create n).thread_count < size_mod
    → loop < (create n).thread_count
    → (j : ℕ) × (j < (create n).thread_count)
      × (get_or (deal (create n).thread_count (run calls (start (create n)))) j none ≡ some loop)
      × ((k : ℕ)
          → k < (create n).thread_count
          → get_or (deal (create n).thread_count (run calls (start (create n)))) k none ≡ some loop
          → k ≡ j)
unfolding as_round_robin
deals_fair n loop calls small lt =
    let m = (create n).thread_count in
    let p = run calls (start (create n)) in
    let s = run-IsStarted m calls _ (start-IsStarted n) in
    let (j, hj, is, only) = picks_fair (as_round_robin m p) loop small lt in
    let here = λ (k : ℕ) (hk : k < m). deal-picks m m k p (omega arith) s hk in
    (j, hj, here j hj ∙ ap some is, λ k hk e. only k hk (let same = sym (here k hk) ∙ e in cc))
