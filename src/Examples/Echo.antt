-- ===== src/Examples/Echo.antt =====
-- examples/echo/echo_client.cpp and examples/echo/echo_stress.cpp: clients that send a line and read until a
-- newline has come back. What `::send` and `::recv` answer is an argument; a client that is still blocked where
-- the answers end has no result.
pub mod Lines
mod Tests
use mini_rpc.Base.{
  ℕ, zero, suc, ◌+◌, ◌==◌, List, [], ◌∷◌, ◌++◌, Bool, true, false, ◌||◌, if◌then◌else◌, Option,
  none, some, ite,
}
use mathlib.Core.Option
use mini_rpc.Base.Text.{Text, text, Text-discrete}
use mini_rpc.Base.Decimal.{to_string}

abbrev pub newline : ℕ
newline = 10

-- `::recv`: one byte or more, the end of the stream, or an error.
pub data Recv : Type 0 where
  gave : ℕ → List ℕ → Recv
  ended : Recv
  broke : Recv

-- `find('\n') != npos`
unfoldable pub has_newline : Text → Bool
has_newline [] = false
has_newline (x ∷ xs) = (x == newline) || has_newline xs

-- The inner loop, from the bytes read so far: all bytes, and the answers that are left.
unfoldable pub collect : List Recv → Text → Option (Text × List Recv)
collect [] response = if has_newline response then some (response, []) else none
collect (gave x xs ∷ answers) response =
    let rest = collect answers (response ++ (x ∷ xs)) in
    if has_newline response then some (response, gave x xs ∷ answers) else rest
collect (ended ∷ answers) response =
    some (response, if has_newline response then ended ∷ answers else answers)
collect (broke ∷ answers) response =
    some (response, if has_newline response then broke ∷ answers else answers)

-- The answers to one exchange: whether `::send` succeeds, and those of `::recv`.
pub record Trip : Type 0 where
  pub sent : Bool
  pub answers : List Recv

-- After the inner loop: what is printed, and whether the client goes on.
abbrev pub print_echo : Option (Text × List Recv) → Option Text → Option Text
print_echo none more = none
print_echo (some ([], left)) more = some []
print_echo (some (x ∷ xs, left)) more = Option.map (λ out. (x ∷ xs) ++ out) more

-- The loop of `main` in echo_client.cpp, for the lines of the standard input: what it prints.
unfoldable pub session : List Text → List Trip → Option Text
session [] trips = some []
session (line ∷ lines) [] = none
session (line ∷ lines) (t ∷ trips) =
    let more = session lines trips in
    if t.sent then print_echo (collect t.answers []) more else some []

-- The message that client `id` sends in round `i`.
unfoldable pub stress_message : ℕ → ℕ → Text
stress_message id i =
    text "client-" ++ (to_string id ++ (text "-msg-" ++ (to_string i ++ (newline ∷ []))))

-- After the inner loop: what came back is compared with what was sent.
abbrev pub check_echo : Text → Option (Text × List Recv) → Option ℕ → Option ℕ
check_echo message none more = none
check_echo message (some (echoed, left)) more = ite (Text-discrete echoed message) more (some 1)

-- The loop of a worker of echo_stress.cpp on a connected socket, from round `i` on, with `k` rounds to
-- go: how many failures it counts.
unfoldable pub worker : ℕ → ℕ → ℕ → List Trip → Option ℕ
worker id zero i trips = some 0
worker id (suc k) i [] = none
worker id (suc k) i (t ∷ trips) =
    let more = worker id k (suc i) trips in
    if t.sent then check_echo (stress_message id i) (collect t.answers []) more else some 1
