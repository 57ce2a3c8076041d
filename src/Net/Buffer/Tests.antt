-- ===== src/Net/Buffer/Tests.antt =====
-- Runs of the buffer on a few bytes.
use mini_rpc.Base.{ℕ, ◌≡◌, List, [], ◌∷◌, length, arith, ap}
use mini_rpc.Net.Buffer.{got, failed}
use mini_rpc.Net.Buffer.Invariant.{IsValid}
use mini_rpc.Net.Buffer.Runs.{
  Op, reads, appends, reserves, takes, skips, takes_all, run, run_queue, run-refines,
}
use mini_rpc.Net.Buffer.Refine.{filled, filled_lem}
use mini_rpc.Net.Buffer.Contents.{contents}

abbrev hello : List ℕ
hello = 104 ∷ 101 ∷ 108 ∷ 108 ∷ 111 ∷ []

hello_buffer-IsValid : IsValid (filled hello)
hello_buffer-IsValid = (filled_lem hello (omega arith)).1

-- A read, an append, a reservation that grows the storage, and three ways to take bytes out.
abbrev ops : List Op
ops =
    reads (got (33 ∷ 33 ∷ []))
    ∷ appends (1 ∷ 2 ∷ 3 ∷ [])
    ∷ reserves 5000
    ∷ takes 4
    ∷ skips 1
    ∷ reads (failed 11)
    ∷ takes_all
    ∷ []

run-refines_example :
    ((run ops (filled hello)).0 ≡ (run_queue ops (contents (filled hello))).0)
    × (contents (run ops (filled hello)).1 ≡ (run_queue ops (contents (filled hello))).1)
    × IsValid (run ops (filled hello)).1
run-refines_example =
    let r = filled_lem hello (omega arith) in
    run-refines ops (filled hello) hello_buffer-IsValid (omega (arith, ap length r.0))
