-- ===== src/Net/Poller/Tests.antt =====
-- Descriptors whose channels are made, changed and removed.
use mini_rpc.Base.{refl, List, [], ◌∷◌}
use mini_rpc.Base.Dict.{lookup}
use mini_rpc.Net.Poller.{enable_reading, enable_writing, disable_all}
use mini_rpc.Net.Poller.Watching
use mini_rpc.Net.Poller.Watching.{System, Watching, opens}
use mini_rpc.Net.Poller.Watching.Steps.{run-Watching}

abbrev empty : System
empty = record { live = []; table = []; watched = [] }

empty-Watching : Watching empty
unfolding lookup
empty-Watching = record { owned = λ fd c e. cc; watches = λ fd. refl; points = λ fd. refl }

-- Two channels, one of which is removed and replaced on the same descriptor.
abbrev replaced : List Watching.Step
replaced =
    opens 1 5
    ∷ Watching.changes 5 enable_reading
    ∷ opens 2 6
    ∷ Watching.changes 6 enable_reading
    ∷ Watching.changes 6 enable_writing
    ∷ Watching.changes 5 disable_all
    ∷ Watching.removes 5
    ∷ opens 3 5
    ∷ Watching.changes 5 enable_writing
    ∷ []

run-Watching_example : Watching (Watching.run replaced empty)
run-Watching_example = run-Watching replaced empty empty-Watching
