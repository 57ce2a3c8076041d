-- ===== src/Net/EventLoopPool/Tests.antt =====
-- A pool of three loops.
use mini_rpc.Base.{ℕ, ◌<◌, ◌≡◌, refl, List, [], ◌∷◌, get_or, none, some, arith}
use mini_rpc.Net.EventLoopPool.{create, start, start_threads, get_next, size, destroy}
use mini_rpc.Net.EventLoopPool.Deal.{Call, starts, gets, run, call, deal, deals_fair}

abbrev history : List Call
history = gets ∷ starts ∷ gets ∷ []

size_test : size (run history (start (create 3))) ≡ 3
unfolding size run call start create start_threads get_next
size_test = refl

empty_test : (get_next (create 3)).0 ≡ none
unfolding get_next create
empty_test = refl

deal_test : deal 4 (run history (start (create 3))) ≡ some 2 ∷ some 0 ∷ some 1 ∷ some 2 ∷ []
unfolding deal run call start create start_threads get_next
deal_test = refl

destroy_test : (destroy (start (create 2))).quits ≡ 0 ∷ 1 ∷ []
unfolding destroy start create start_threads
destroy_test = refl

deals_fair_example :
    (j : ℕ) × (j < 3)
    × (get_or (deal 3 (run history (start (create 3)))) j none ≡ some 1)
    × ((k : ℕ) → k < 3 → get_or (deal 3 (run history (start (create 3)))) k none ≡ some 1 → k ≡ j)
unfolding create run call start start_threads get_next
deals_fair_example = deals_fair 3 1 history (omega arith) (omega arith)
